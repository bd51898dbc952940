-- ===== src/Routes/Approvals.antt =====
-- routes/approvals.py: the reading and the deciding of approvals.
pub mod Held
pub mod Decided
pub mod Once
use brokerops.Base.{
  String, Bool, true, false, not, ◌&&◌, Option, none, some, List, map, ◌==◌, if◌then◌else◌,
}
use brokerops.Base.Lists.{keep}
use brokerops.Base.Dict.{Dict}
use brokerops.Models.Json.{Json, str}
use brokerops.Models.Records.{ApprovalRequest, ApprovalStatus, approval_status_eq}
use brokerops.World.{
  Platform, Exec, Error, http_error, assertion_error, unknown_outbound_message, catch, pure, raise,
  raise_if, ◌>>=◌, ◌>>◌,
}
use brokerops.Ports.{ApprovalRepo}
use brokerops.Workflows.Runs.{WorkflowRunResult}
use brokerops.Workflows.Engine.{Graph, ApprovalDecision, decide, payload_field}

abbrev pub approve_outbound_message : String
approve_outbound_message = "approve_outbound_message"

pub record DecideRequest : Type 0 where
  pub decision : ApprovalStatus
  pub edited_payload : Option Json

pub record DecisionResponse : Type 0 where
  pub approval : ApprovalRequest
  pub workflow : WorkflowRunResult

abbrev pub is_text : String → Option Json → Bool
is_text s (some (str t)) = t == s
is_text s v = false

-- `approval.status is not ApprovalStatus.PENDING`
unfoldable pub is_decided : ApprovalRequest → Bool
unfolding approval_status_eq
is_decided a = not (approval_status_eq a.status ApprovalStatus.pending)

-- `except UnknownOutboundMessageError`
unfoldable pub as_conflict : Error → Error
as_conflict (unknown_outbound_message id) = http_error 409
as_conflict e = e

-- `scrub` is the redaction for the caller's role, and `valid_edit` the validation of a payload as an
-- EditedMessagePayload.
module _ (platform : Platform) (py_text : Json → String) (repo : ApprovalRepo) (graphs : Dict Graph)
    (scrub : ApprovalRequest → ApprovalRequest) (valid_edit : Json → Bool) where
  -- The approvals of one transaction are filtered before they are redacted.
  unfoldable pub list_approvals :
      Option ApprovalStatus → Option String → Exec (List ApprovalRequest)
  unfolding payload_field
  list_approvals status (some transaction_id) = do
    approvals ← repo.list none
    pure (
        map scrub
          (keep (λ a. is_text transaction_id (payload_field "transaction_id" a.payload)) approvals))
  list_approvals status none = repo.list status >>= λ approvals. pure (map scrub approvals)

  unfoldable pub shown : Option ApprovalRequest → Exec ApprovalRequest
  shown none = raise (http_error 404)
  shown (some a) = pure (scrub a)

  unfoldable pub get_approval : String → Exec ApprovalRequest
  unfolding shown
  get_approval id = repo.get id >>= shown

  unfoldable pub bad_edit : ApprovalRequest → Option Json → Bool
  bad_edit a none = false
  bad_edit a (some edit) = a.kind == approve_outbound_message && not (valid_edit edit)

  unfoldable pub response : WorkflowRunResult → Option ApprovalRequest → Exec DecisionResponse
  response workflow none = raise assertion_error
  response workflow (some a) = pure record { approval = a; workflow = workflow }

  unfoldable pub resume_run : DecideRequest → String → ApprovalRequest → Exec WorkflowRunResult
  unfolding decide as_conflict
  resume_run request email a =
      catch
        (decide platform py_text repo graphs a record {
          decision = request.decision;
          decided_by = email;
          edited_payload = request.edited_payload;
        })
        (λ e. raise (as_conflict e))

  -- The guards on the row that was found.
  unfoldable pub decide_row :
      String → DecideRequest → String → Option ApprovalRequest → Exec DecisionResponse
  unfolding is_decided bad_edit resume_run response
  decide_row id request email none = raise (http_error 404)
  decide_row id request email (some a) =
      raise_if (is_decided a) (http_error 409)
      >> (raise_if (bad_edit a request.edited_payload) (http_error 422)
          >> (resume_run request email a >>= λ workflow. repo.get id >>= response workflow))

  -- `email` is that of the authenticated principal.
  unfoldable pub decide_approval : String → DecideRequest → String → Exec DecisionResponse
  unfolding decide_row approval_status_eq
  decide_approval id request email =
      raise_if (approval_status_eq request.decision ApprovalStatus.pending) (http_error 422)
      >> (repo.get id >>= decide_row id request email)
