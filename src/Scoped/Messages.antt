-- ===== src/Scoped/Messages.antt =====
-- ScopedMessageStore, over any inner store and any ledger.
pub mod Confined
pub mod Reads
use brokerops.Base.{ℕ, String, Option, none, some, List, not, if◌then◌else◌}
use brokerops.Base.Lists.{keep}
use brokerops.Models.Message.{Message, MessageStatus}
use brokerops.World.{Platform, Exec, pure, ◌>>=◌, ◌>>◌}
use brokerops.Ports.{AuditLog, MessageStore}
use brokerops.Tenancy.{require_tenant, record_cross_tenant_attempt}
use brokerops.Scoped.Foreign.{is_foreign, deny, stamp}

module _ (platform : Platform) (audit : AuditLog) (inner : MessageStore) where
  -- An existing row of another tenant is not overwritten.
  unfoldable pub guard_existing : String → String → Option Message → Exec (Unit {0})
  unfolding is_foreign deny
  guard_existing tool tenant none = pure tt
  guard_existing tool tenant (some existing) =
      if is_foreign existing.tenant_id tenant
      then deny platform audit tool existing.tenant_id tenant
      else pure tt

  unfoldable pub save_message : Message → Exec (Unit {0})
  unfolding guard_existing stamp
  save_message m = do
    tenant ← stamp platform audit m.tenant_id "save_message"
    existing ← inner.get_message m.id
    guard_existing "save_message" tenant existing
    inner.save_message (record m { tenant_id = tenant })

  -- A row of another tenant is recorded as an attempt and read as missing.
  unfoldable pub hide_foreign : String → String → Option Message → Exec (Option Message)
  unfolding is_foreign record_cross_tenant_attempt
  hide_foreign tool ambient none = pure none
  hide_foreign tool ambient (some m) =
      if is_foreign m.tenant_id ambient
      then record_cross_tenant_attempt platform audit m.tenant_id ambient tool >> pure none
      else pure (some m)

  unfoldable pub get_message : String → Exec (Option Message)
  unfolding require_tenant hide_foreign
  get_message id = do
    ambient ← require_tenant
    found ← inner.get_message id
    hide_foreign "get_message" ambient found

  unfoldable pub get_message_by_provider_id : String → Exec (Option Message)
  unfolding require_tenant hide_foreign
  get_message_by_provider_id pid = do
    ambient ← require_tenant
    found ← inner.get_message_by_provider_id pid
    hide_foreign "get_message_by_provider_id" ambient found

  unfoldable pub list_messages : Option String → ℕ → Option String → Exec (List Message)
  unfolding require_tenant is_foreign
  list_messages contact_id limit transaction_id = do
    ambient ← require_tenant
    rows ← inner.list_messages contact_id limit transaction_id
    pure (keep (λ (m : Message). not (is_foreign m.tenant_id ambient)) rows)

  unfoldable pub advance_existing :
      String → MessageStatus → String → Option Message → Exec (Option Message)
  unfolding is_foreign record_cross_tenant_attempt
  advance_existing id status ambient none = pure none
  advance_existing id status ambient (some existing) =
      if is_foreign existing.tenant_id ambient
      then (record_cross_tenant_attempt platform audit existing.tenant_id ambient
            "advance_message_status"
          >> pure none)
      else inner.advance_message_status id status

  unfoldable pub advance_message_status : String → MessageStatus → Exec (Option Message)
  unfolding require_tenant advance_existing
  advance_message_status id status = do
    ambient ← require_tenant
    existing ← inner.get_message id
    advance_existing id status ambient existing

  abbrev pub scoped_message_store : MessageStore
  scoped_message_store = record {
    save_message = save_message;
    get_message = get_message;
    get_message_by_provider_id = get_message_by_provider_id;
    list_messages = list_messages;
    advance_message_status = advance_message_status;
  }
