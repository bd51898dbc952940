-- ===== src/Audit/Recording/Laws.antt =====
-- One record for each write that goes through a recording decorator.
use brokerops.Base.{String, ◌≡◌, refl, ap, ◌+◌, Option, none, some, [], ◌∷◌, ◌++◌}
use brokerops.Models.Json.{Json}
use brokerops.Models.Records.{MutationRecord, MutationOutcome, success, failure, AuditContext}
use brokerops.World.{Platform, World, Exec, Result, ok, err}
use brokerops.Stores.AuditLog as Ledger
use brokerops.Stores.AuditLog.{audit_log}
use brokerops.Audit.{recorded, record_end, redact}
use brokerops.Tenancy.{mutation_record}

abbrev outcome_of : {A : Type 0} → Result A → MutationOutcome
outcome_of (ok a) = success
outcome_of (err e) = failure

abbrev external_of : {A : Type 0} → (A → String) → Result A → Option String
external_of f (ok a) = some (f a)
external_of f (err e) = none

abbrev error_of : {A : Type 0} → Platform → Result A → Option String
error_of platform (ok a) = none
error_of platform (err e) = some (platform.error_text e)

-- The run, the approver and the transaction that a record names; outside of a run they are empty.
abbrev pub attribution : Option AuditContext → AuditContext
attribution (some c) = c
attribution none = record {
  workflow_run_id = "";
  workflow = "";
  approval_id = none;
  actor = none;
  transaction_id = "";
}

module _ {A : Type 0} (platform : Platform) (integration tool : String) (args : Json) where
  -- The ledger's new record, field by field.
  abbrev pub record_of : (A → String) → Result A → World → MutationRecord
  record_of id_of r v = record {
    id = platform.uuid4 v.readings;
    workflow_run_id = (attribution v.audit_context).workflow_run_id;
    workflow = (attribution v.audit_context).workflow;
    transaction_id = (attribution v.audit_context).transaction_id;
    tool = tool;
    integration = integration;
    args = some (redact platform.lower args);
    approval_id = (attribution v.audit_context).approval_id;
    actor = (attribution v.audit_context).actor;
    outcome = outcome_of r;
    external_id = external_of id_of r;
    error = error_of platform r;
    created_at = platform.now (v.readings + 1);
  }

  -- The world that holds it.
  abbrev pub appended : (A → String) → Result A → World → World
  appended id_of r v = record v {
    readings = v.readings + 1 + 1;
    audit_items = v.audit_items ++ record_of id_of r v ∷ [];
  }

  mutation_record_lem :
      (id_of : A → String) (r : Result A) (v : World) (c : Option AuditContext)
      → v.audit_context ≡ c
      → mutation_record
          (platform.uuid4 v.readings)
          (platform.now (v.readings + 1))
          v.audit_context
          tool
          integration
          (redact platform.lower args)
          (outcome_of r)
          (external_of id_of r)
          (error_of platform r)
        ≡ record_of id_of r v
  unfolding mutation_record
  mutation_record_lem id_of r v none e = rw e refl
  mutation_record_lem id_of r v (some c) e = rw e refl

  record_end-appends :
      (id_of : A → String) (r : Result A) (v : World)
      → record_end platform audit_log integration tool args id_of r v ≡ (r, appended id_of r v)
  unfolding record_end Ledger.record_mutation
  record_end-appends id_of (ok a) v =
      ap
        (λ m.
          (ok a, record v { readings = v.readings + 1 + 1; audit_items = v.audit_items ++ m ∷ [] }))
        (mutation_record_lem id_of (ok a) v v.audit_context refl)
  record_end-appends id_of (err e) v =
      ap
        (λ m. (
          err e,
          record v { readings = v.readings + 1 + 1; audit_items = v.audit_items ++ m ∷ [] },
        ))
        (mutation_record_lem id_of (err e) v v.audit_context refl)

  -- However the inner write ends, the recorded one ends the same way with the same value or error,
  -- and the ledger has exactly one record more than the inner write left: its outcome, external id
  -- and error text are those of that end, its arguments are the redacted ones, and its run, workflow,
  -- transaction, approval and actor are those of the context that is published, or empty without one. Of the rest of the world only the number of readings moves.
  pub recorded-appends :
      (id_of : A → String) (inner : Exec A) (w : World)
      → recorded platform audit_log integration tool args id_of inner w
        ≡ ((inner w).0, appended id_of (inner w).0 (inner w).1)
  unfolding recorded
  recorded-appends id_of inner w = record_end-appends id_of (inner w).0 (inner w).1
