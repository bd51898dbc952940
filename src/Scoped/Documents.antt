-- ===== src/Scoped/Documents.antt =====
-- ScopedDocumentStore, over any inner store and any ledger.
pub mod Confined
use brokerops.Base.{String, Option, none, some, List, not, if◌then◌else◌}
use brokerops.Base.Lists.{keep}
use brokerops.Models.Milestone.{Document}
use brokerops.World.{Platform, Exec, pure, ◌>>=◌, ◌>>◌}
use brokerops.Ports.{AuditLog, DocumentStore}
use brokerops.Tenancy.{require_tenant, record_cross_tenant_attempt}
use brokerops.Scoped.Foreign.{is_foreign, deny, stamp}

module _ (platform : Platform) (audit : AuditLog) (inner : DocumentStore) where
  unfoldable pub guard_existing : String → Option Document → Exec (Unit {0})
  unfolding is_foreign deny
  guard_existing tenant none = pure tt
  guard_existing tenant (some d) =
      if is_foreign d.tenant_id tenant
      then deny platform audit "add_document" d.tenant_id tenant
      else pure tt

  unfoldable pub add : Document → Exec (Unit {0})
  unfolding stamp guard_existing
  add d = do
    tenant ← stamp platform audit d.tenant_id "add_document"
    existing ← inner.get d.id
    guard_existing tenant existing
    inner.add (record d { tenant_id = tenant })

  unfoldable pub hide_foreign : String → Option Document → Exec (Option Document)
  unfolding is_foreign record_cross_tenant_attempt
  hide_foreign ambient none = pure none
  hide_foreign ambient (some d) =
      if is_foreign d.tenant_id ambient
      then record_cross_tenant_attempt platform audit d.tenant_id ambient "get_document"
        >> pure none
      else pure (some d)

  unfoldable pub get : String → Exec (Option Document)
  unfolding require_tenant hide_foreign
  get id = do ambient ← require_tenant; found ← inner.get id; hide_foreign ambient found

  unfoldable pub list_for_transaction : String → Exec (List Document)
  unfolding require_tenant is_foreign
  list_for_transaction id = do
    ambient ← require_tenant
    rows ← inner.list_for_transaction id
    pure (keep (λ (d : Document). not (is_foreign d.tenant_id ambient)) rows)

  abbrev pub scoped_document_store : DocumentStore
  scoped_document_store = record {
    add = add;
    get = get;
    list_for_transaction = list_for_transaction;
  }
