-- ===== src/Workflows/Engine.antt =====
-- LangGraphWorkflowEngine of orchestration/langgraph/src/brokerops_langgraph/engine.py.
--
-- A compiled graph is an argument: it runs a thread from an input, or from the answer to its gate, and
-- ends with its state or at a gate with the gate's payload.
use brokerops.Base.{String, Option, none, some, ◌==◌, if◌then◌else◌}
use brokerops.Base.Dict.{Dict, lookup}
use brokerops.Models.Json.{Json, Fields, obj, end, field}
use brokerops.Models.Records.{ApprovalRequest, ApprovalStatus, AuditContext}
use brokerops.World.{Platform, Exec, key_error, pure, raise, reading, ◌>>=◌, ◌>>◌}
use brokerops.Ports.{ApprovalRepo}
use brokerops.Audit.{audit_scope}
use brokerops.Workflows.Runs.{WorkflowRunResult, terminal_run_result, text_of}

-- ApprovalDecision of models/approval.py
pub record ApprovalDecision : Type 0 where
  pub decision : ApprovalStatus
  pub decided_by : String
  pub edited_payload : Option Json

-- What `ainvoke` returns: the state, or the value of the first interrupt.
pub data GraphResult : Type 0 where
  finished : Dict Json → GraphResult
  interrupted : Json → GraphResult

-- The input of a new run, or `Command(resume=...)`.
pub data RunInput : Type 0 where
  begin : Dict Json → RunInput
  resume : ApprovalDecision → RunInput

abbrev pub Graph : Type 0
Graph = String → RunInput → Exec GraphResult

-- `fields.get(key)`
unfoldable pub get_field : String → Fields → Option Json
get_field key end = none
get_field key (field k v fs) = if k == key then some v else get_field key fs

-- `(payload or {}).get(key)`
unfoldable pub payload_field : String → Option Json → Option Json
unfolding get_field
payload_field key (some (obj fs)) = get_field key fs
payload_field key payload = none

module _ (platform : Platform) (py_text : Json → String) (repo : ApprovalRepo) where
  -- `str(mapping.get(key, default))`
  unfoldable pub text_or : String → Option Json → String
  unfolding text_of
  text_or default none = default
  text_or default (some v) = text_of py_text v

  -- The gate of a paused run becomes an approval.
  unfoldable pub run_result : String → String → GraphResult → Exec WorkflowRunResult
  unfolding text_or payload_field terminal_run_result
  run_result workflow thread_id (finished state) =
      pure (terminal_run_result py_text thread_id state)
  run_result workflow thread_id (interrupted value) = do
    id ← reading platform.uuid4
    now ← reading platform.now
    let approval : ApprovalRequest = record {
      tenant_id = "";
      id = id;
      workflow = workflow;
      graph_thread_id = thread_id;
      kind = text_or "unknown" (payload_field "kind" (some value));
      payload = some value;
      status = ApprovalStatus.pending;
      decided_by = none;
      created_at = now;
      decided_at = none;
    } in
        (repo.create approval
          >> pure record {
            thread_id = thread_id;
            status = "awaiting_approval";
            approval = some approval;
            output = none;
          })

  unfoldable pub run_graph : Dict Graph → String → String → RunInput → Exec WorkflowRunResult
  unfolding lookup run_result
  run_graph graphs workflow thread_id input = elim (lookup workflow graphs) [
    | none ↦ raise (key_error workflow)
    | some graph ↦ graph thread_id input >>= run_result workflow thread_id
  ]

  unfoldable pub start : Dict Graph → String → Dict Json → Option String → Exec WorkflowRunResult
  unfolding audit_scope text_or lookup run_graph
  start graphs workflow run_input actor = do
    thread_id ← reading platform.uuid4
    audit_scope
        record {
          workflow_run_id = thread_id;
          workflow = workflow;
          approval_id = none;
          actor = actor;
          transaction_id = text_or "" (lookup "transaction_id" run_input);
        }
        (run_graph graphs workflow thread_id (begin run_input))

  abbrev pub decide_context : ApprovalRequest → ApprovalDecision → AuditContext
  unfolding text_or payload_field
  decide_context approval decision = record {
    workflow_run_id = approval.graph_thread_id;
    workflow = approval.workflow;
    approval_id = some approval.id;
    actor = some decision.decided_by;
    transaction_id = text_or "" (payload_field "transaction_id" approval.payload);
  }

  unfoldable pub decide : Dict Graph → ApprovalRequest → ApprovalDecision → Exec WorkflowRunResult
  unfolding audit_scope run_graph
  decide graphs approval decision = do
    now ← reading platform.now
    repo.mark_decided approval.id decision.decision decision.decided_by now
    audit_scope (decide_context approval decision)
        (run_graph graphs approval.workflow approval.graph_thread_id (resume decision))
