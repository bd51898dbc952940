-- ===== src/Tenancy.antt =====
-- services/tenancy.py: the tenant that a request is bound to, and the check of a claimed tenant.
pub mod Scope
use brokerops.Base.{ℕ, String, Option, none, some, ◌&&◌, ◌==◌, truthy, not, if◌then◌else◌}
use brokerops.Models.Json.{Json, str, obj, Fields}
use brokerops.Models.Records.{MutationRecord, MutationOutcome, failure, AuditContext}
use brokerops.World.{
  World, Error, tenant_context_missing, cross_tenant, value_error, Result, ok, err, Exec, Platform,
  pure, raise, gets, reading, ◌>>=◌, ◌>>◌,
}
use brokerops.Ports.{AuditLog}

abbrev pub security_integration : String
security_integration = "security"

-- The bound tenant id, or `none` if no scope is active.
unfoldable pub current_tenant : Exec (Option String)
current_tenant w = (ok w.tenant, w)

unfoldable pub require_tenant : Exec String
require_tenant w = elim w.tenant [
  | none ↦ (err tenant_context_missing, w)
  | some bound ↦ (ok bound, w)
]

-- A non-empty claim that disagrees with the bound tenant is refused; `""` means the bound one.
unfoldable pub enforce_tenant : String → Exec String
unfolding require_tenant
enforce_tenant claimed = do
  bound ← require_tenant
  if truthy claimed && not (claimed == bound)
      then raise (cross_tenant claimed bound)
      else pure bound

-- The body runs under the binding, which is reset on every way out.
restore : {A : Type 0} → Option String → Result A × World → Result A × World
restore before (r, w) = (r, record w { tenant = before })

unfoldable pub tenant_scope : {A : Type 0} → String → Exec A → Exec A
unfolding restore
tenant_scope tenant_id body w = if tenant_id == "" then (err value_error, w) else elim w.tenant [
  | none ↦ restore none (body (record w { tenant = some tenant_id }))
  | some bound ↦
      if bound == tenant_id
      then restore (some bound) (body (record w { tenant = some tenant_id }))
      else (err (cross_tenant tenant_id bound), w)
]

-- The record of one write, attributed to the run in whose context it is made.
unfoldable pub mutation_record :
    String
    → ℕ
    → Option AuditContext
    → String
    → String
    → Json
    → MutationOutcome
    → Option String
    → Option String
    → MutationRecord
mutation_record id created none tool integration args outcome external_id error = record {
  id = id;
  workflow_run_id = "";
  workflow = "";
  transaction_id = "";
  tool = tool;
  integration = integration;
  args = some args;
  approval_id = none;
  actor = none;
  outcome = outcome;
  external_id = external_id;
  error = error;
  created_at = created;
}
mutation_record id created (some c) tool integration args outcome external_id error = record {
  id = id;
  workflow_run_id = c.workflow_run_id;
  workflow = c.workflow;
  transaction_id = c.transaction_id;
  tool = tool;
  integration = integration;
  args = some args;
  approval_id = c.approval_id;
  actor = c.actor;
  outcome = outcome;
  external_id = external_id;
  error = error;
  created_at = created;
}

module _ (platform : Platform) (audit : AuditLog) where
  -- Files a denied attempt in the action ledger; only the two tenant names are written down.
  unfoldable pub record_cross_tenant_attempt : String → String → String → Exec (Unit {0})
  unfolding mutation_record
  record_cross_tenant_attempt attempted bound tool = do
    context ← gets (λ w. w.audit_context)
    id ← reading platform.uuid4
    created ← reading platform.now
    let args = obj (
        Fields.field "attempted_tenant" (str attempted)
          (Fields.field "bound_tenant" (str bound) Fields.end))
    audit.record_mutation (
        mutation_record id created context tool security_integration args failure none
          (some (platform.error_text (cross_tenant attempted bound))))
