-- ===== src/Stores/Transactions.antt =====
-- InMemoryTransactionStore.
use brokerops.Base.{
  ℕ, String, Bool, Option, none, some, List, [], ◌∷◌, ◌||◌, not, ◌==◌, leb, is_some, if◌then◌else◌,
}
use brokerops.Base.Int.{ℤ}
use brokerops.Base.Lists.{keep, length}
use brokerops.Base.Dict.{Dict, lookup, insert, values, keep_values}
use brokerops.Base.Sort.{sort_by}
use brokerops.Models.Transaction.{Transaction, is_active}
use brokerops.Models.Milestone.{Milestone}
use brokerops.World.{Exec, ok, err, transaction_already_exists, key_error, gets, modify, ◌>>=◌}
use brokerops.Tenancy.{require_tenant}
use brokerops.Ports.{TransactionStore}

unfoldable pub get_transaction : String → Exec (Option Transaction)
unfolding lookup
get_transaction id = gets (λ w. lookup id w.transactions)

unfoldable pub list_active_transactions : Exec (List Transaction)
unfolding values is_active
list_active_transactions = gets (λ w. keep is_active (values w.transactions))

unfoldable pub get_milestone : String → Exec (Option Milestone)
unfolding lookup
get_milestone id = gets (λ w. lookup id w.milestones)

unfoldable pub due_first : Milestone → Milestone → Bool
due_first a b = leb a.due_date b.due_date

unfoldable pub list_milestones : String → Exec (List Milestone)
unfolding values due_first sort_by
list_milestones transaction_id = gets (λ w.
    sort_by due_first
      (keep (λ (m : Milestone). m.transaction_id == transaction_id) (values w.milestones)))

unfoldable pub set_escalation_level : String → ℤ → Exec (Unit {0})
unfolding lookup insert
set_escalation_level id level w = elim (lookup id w.milestones) [
  | none ↦ (err (key_error id), w)
  | some m ↦ (
    ok tt,
    record w { milestones = insert id (record m { escalation_level = level }) w.milestones },
  )
]

-- `tenant_id in (require_tenant(), "")`
unfoldable pub is_owned : String → String → Bool
is_owned tenant row = row == tenant || row == ""

unfoldable pub count_transactions : Exec ℕ
unfolding require_tenant values is_owned
count_transactions = do
  tenant ← require_tenant
  gets (λ w.
      length (keep (λ (t : Transaction). is_owned tenant t.tenant_id) (values w.transactions)))

unfoldable pub insert_milestones : List Milestone → Dict Milestone → Dict Milestone
unfolding insert
insert_milestones [] d = d
insert_milestones (m ∷ ms) d = insert_milestones ms (insert m.id m d)

-- A known transaction id is refused; a milestone is written under its id whatever stood there.
unfoldable pub create_transaction : Transaction → List Milestone → Exec (Unit {0})
unfolding lookup insert insert_milestones
create_transaction t ms w =
    if is_some (lookup t.id w.transactions) then (err (transaction_already_exists t.id), w) else (
      ok tt,
      record w {
        transactions = insert t.id t w.transactions;
        milestones = insert_milestones ms w.milestones;
      },
    )

-- Deletes the rows of the bound tenant and the unstamped ones.
unfoldable pub clear : Exec (Unit {0})
unfolding require_tenant keep_values is_owned
clear = do
  tenant ← require_tenant
  modify (λ w. record w {
    transactions =
        keep_values (λ (t : Transaction). not (is_owned tenant t.tenant_id)) w.transactions;
    milestones = keep_values (λ (m : Milestone). not (is_owned tenant m.tenant_id)) w.milestones;
  })

abbrev pub transaction_store : TransactionStore
transaction_store = record {
  create_transaction = create_transaction;
  get_transaction = get_transaction;
  get_milestone = get_milestone;
  list_active_transactions = list_active_transactions;
  list_milestones = list_milestones;
  set_escalation_level = set_escalation_level;
  count_transactions = count_transactions;
  clear = clear;
}
