-- ===== src/Stores/AuditLog.antt =====
-- InMemoryAuditLog: the ledger only grows.
use brokerops.Base.{ℕ, String, Bool, Option, none, some, List, [], ◌∷◌, ◌++◌, ◌==◌, leb}
use brokerops.Base.Lists.{keep, take}
use brokerops.Base.Sort.{sort_by}
use brokerops.Models.Records.{MutationRecord}
use brokerops.World.{Exec, gets, modify}
use brokerops.Ports.{AuditLog}

unfoldable pub record_mutation : MutationRecord → Exec (Unit {0})
record_mutation r = modify (λ w. record w { audit_items = w.audit_items ++ r ∷ [] })

unfoldable pub newest_first : MutationRecord → MutationRecord → Bool
newest_first a b = leb b.created_at a.created_at

unfoldable pub list_for_transaction : String → ℕ → Exec (List MutationRecord)
unfolding newest_first sort_by
list_for_transaction transaction_id limit = gets (λ w. take limit (
    keep (λ (r : MutationRecord). r.transaction_id == transaction_id)
      (sort_by newest_first w.audit_items)))

-- `workflow_run_id is None` lists every record.
unfoldable pub of_run : Option String → List MutationRecord → List MutationRecord
of_run none items = items
of_run (some run) items = keep (λ (r : MutationRecord). r.workflow_run_id == run) items

unfoldable pub list : Option String → ℕ → Exec (List MutationRecord)
unfolding newest_first sort_by of_run
list run limit = gets (λ w. take limit (of_run run (sort_by newest_first w.audit_items)))

abbrev pub audit_log : AuditLog
audit_log = record {
  record_mutation = record_mutation;
  list_for_transaction = list_for_transaction;
  list = list;
}
