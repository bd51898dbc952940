-- ===== src/Models/Records.antt =====
-- models/approval.py, models/mutation.py, models/idempotency.py, models/call.py,
-- models/feedback.py and the audit context of services/audit.py. Times are numbers.
use brokerops.Base.{ℕ, String, Bool, true, false, Option}
use brokerops.Models.Json.{Json}

pub data ApprovalStatus : Type 0 where
  pending approved rejected : ApprovalStatus

unfoldable pub approval_status_eq : ApprovalStatus → ApprovalStatus → Bool
approval_status_eq pending pending = true
approval_status_eq approved approved = true
approval_status_eq rejected rejected = true
approval_status_eq _ _ = false

pub record ApprovalRequest : Type 0 where
  pub tenant_id : String
  pub id : String
  pub workflow : String
  pub graph_thread_id : String
  pub kind : String
  pub payload : Option Json
  pub status : ApprovalStatus
  pub decided_by : Option String
  pub created_at : ℕ
  pub decided_at : Option ℕ

pub data MutationOutcome : Type 0 where
  success failure : MutationOutcome

pub record MutationRecord : Type 0 where
  pub id : String
  pub workflow_run_id : String
  pub workflow : String
  pub transaction_id : String
  pub tool : String
  pub integration : String
  pub args : Option Json
  pub approval_id : Option String
  pub actor : Option String
  pub outcome : MutationOutcome
  pub external_id : Option String
  pub error : Option String
  pub created_at : ℕ

pub record AuditContext : Type 0 where
  pub workflow_run_id : String
  pub workflow : String
  pub approval_id : Option String
  pub actor : Option String
  pub transaction_id : String

pub data ClaimStatus : Type 0 where
  new pending completed : ClaimStatus

pub record IdempotencyClaim : Type 0 where
  pub status : ClaimStatus
  pub result : Option String

pub record CallRecord : Type 0 where
  pub tenant_id : String
  pub vapi_call_id : String
  pub contact_id : String
  pub listing_key : String
  pub transcript : String
  pub outcome : String
  pub extracted : Json
  pub created_at : Option ℕ

pub data FeedbackSource : Type 0 where
  call form : FeedbackSource

pub data Sentiment : Type 0 where
  positive neutral negative : Sentiment

pub record ShowingFeedback : Type 0 where
  pub tenant_id : String
  pub id : String
  pub listing_key : String
  pub contact_id : String
  pub call_id : Option String
  pub source : FeedbackSource
  pub sentiment : Sentiment
  pub structured_answers : Json
  pub created_at : Option ℕ
