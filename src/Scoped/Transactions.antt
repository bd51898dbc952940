-- ===== src/Scoped/Transactions.antt =====
-- ScopedTransactionStore, over any inner store and any ledger.
pub mod Confined
use brokerops.Base.{ℕ, String, Option, none, some, List, [], ◌∷◌, map, not, if◌then◌else◌}
use brokerops.Base.Int.{ℤ}
use brokerops.Base.Lists.{keep}
use brokerops.Models.Transaction.{Transaction}
use brokerops.Models.Milestone.{Milestone}
use brokerops.World.{Platform, Exec, pure, catch, ◌>>=◌, ◌>>◌}
use brokerops.Ports.{AuditLog, TransactionStore}
use brokerops.Tenancy.{enforce_tenant, require_tenant, record_cross_tenant_attempt}
use brokerops.Scoped.Foreign.{is_foreign, deny, reraise}

-- The check of every milestone's claim.
unfoldable pub enforce_all : List Milestone → Exec (Unit {0})
unfolding enforce_tenant
enforce_all [] = pure tt
enforce_all (m ∷ ms) = enforce_tenant m.tenant_id >>= λ _. enforce_all ms

abbrev pub stamped : String → Milestone → Milestone
stamped tenant m = record m { tenant_id = tenant }

module _ (platform : Platform) (audit : AuditLog) (inner : TransactionStore) where
  unfoldable pub check_claims : Transaction → List Milestone → Exec String
  unfolding enforce_tenant enforce_all
  check_claims t ms = do tenant ← enforce_tenant t.tenant_id; enforce_all ms; pure tenant

  unfoldable pub create_transaction : Transaction → List Milestone → Exec (Unit {0})
  unfolding check_claims reraise
  create_transaction t ms = do
    tenant ← catch (check_claims t ms) (reraise platform audit "create_transaction")
    inner.create_transaction (record t { tenant_id = tenant }) (map (stamped tenant) ms)

  unfoldable pub hide_transaction : String → Option Transaction → Exec (Option Transaction)
  unfolding is_foreign record_cross_tenant_attempt
  hide_transaction ambient none = pure none
  hide_transaction ambient (some t) =
      if is_foreign t.tenant_id ambient
      then (record_cross_tenant_attempt platform audit t.tenant_id ambient "get_transaction"
          >> pure none)
      else pure (some t)

  unfoldable pub get_transaction : String → Exec (Option Transaction)
  unfolding require_tenant hide_transaction
  get_transaction id = do
    ambient ← require_tenant
    found ← inner.get_transaction id
    hide_transaction ambient found

  unfoldable pub hide_milestone : String → Option Milestone → Exec (Option Milestone)
  unfolding is_foreign record_cross_tenant_attempt
  hide_milestone ambient none = pure none
  hide_milestone ambient (some m) =
      if is_foreign m.tenant_id ambient
      then (record_cross_tenant_attempt platform audit m.tenant_id ambient "get_milestone"
          >> pure none)
      else pure (some m)

  unfoldable pub get_milestone : String → Exec (Option Milestone)
  unfolding require_tenant hide_milestone
  get_milestone id = do
    ambient ← require_tenant
    found ← inner.get_milestone id
    hide_milestone ambient found

  unfoldable pub list_active_transactions : Exec (List Transaction)
  unfolding require_tenant is_foreign
  list_active_transactions = do
    ambient ← require_tenant
    rows ← inner.list_active_transactions
    pure (keep (λ (t : Transaction). not (is_foreign t.tenant_id ambient)) rows)

  unfoldable pub list_milestones : String → Exec (List Milestone)
  unfolding require_tenant is_foreign
  list_milestones id = do
    ambient ← require_tenant
    rows ← inner.list_milestones id
    pure (keep (λ (m : Milestone). not (is_foreign m.tenant_id ambient)) rows)

  unfoldable pub guard_milestone : String → Option Milestone → Exec (Unit {0})
  unfolding is_foreign deny
  guard_milestone ambient none = pure tt
  guard_milestone ambient (some m) =
      if is_foreign m.tenant_id ambient
      then deny platform audit "set_escalation_level" m.tenant_id ambient
      else pure tt

  unfoldable pub set_escalation_level : String → ℤ → Exec (Unit {0})
  unfolding require_tenant guard_milestone
  set_escalation_level id level = do
    ambient ← require_tenant
    found ← inner.get_milestone id
    guard_milestone ambient found
    inner.set_escalation_level id level

  unfoldable pub count_transactions : Exec ℕ
  unfolding require_tenant
  count_transactions = require_tenant >>= λ _. inner.count_transactions

  unfoldable pub clear : Exec (Unit {0})
  unfolding require_tenant
  clear = require_tenant >>= λ _. inner.clear

  abbrev pub scoped_transaction_store : TransactionStore
  scoped_transaction_store = record {
    create_transaction = create_transaction;
    get_transaction = get_transaction;
    get_milestone = get_milestone;
    list_active_transactions = list_active_transactions;
    list_milestones = list_milestones;
    set_escalation_level = set_escalation_level;
    count_transactions = count_transactions;
    clear = clear;
  }
