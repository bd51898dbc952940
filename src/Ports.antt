-- ===== src/Ports.antt =====
-- core/src/brokerops_core/ports: the interfaces that the services are written against. A decorator
-- takes one and is one.
use brokerops.Base.{ℕ, String, Option, List}
use brokerops.Base.Int.{ℤ}
use brokerops.Models.Transaction.{Transaction}
use brokerops.Models.Milestone.{Milestone, Document, FileRef}
use brokerops.Models.Message.{Message, MessageStatus}
use brokerops.Models.Records.{
  ApprovalRequest, ApprovalStatus, MutationRecord, CallRecord, ShowingFeedback, IdempotencyClaim,
}
use brokerops.Models.Json.{Json}
use brokerops.Models.Contact.{Contact, ContactCreate, CrmTask}
use brokerops.Models.Drafting.{DraftContext, DraftedMessage}
use brokerops.World.{Exec}

-- ports/audit.py
pub record AuditLog : Type 0 where
  pub record_mutation : MutationRecord → Exec (Unit {0})
  pub list_for_transaction : String → ℕ → Exec (List MutationRecord)
  pub list : Option String → ℕ → Exec (List MutationRecord)

-- ports/messaging.py
pub record MessageStore : Type 0 where
  pub save_message : Message → Exec (Unit {0})
  pub get_message : String → Exec (Option Message)
  pub get_message_by_provider_id : String → Exec (Option Message)
  pub list_messages : Option String → ℕ → Option String → Exec (List Message)
  pub advance_message_status : String → MessageStatus → Exec (Option Message)

-- ports/transactions.py, with the seed and reset surface of `_AdminTransactionStore`
pub record TransactionStore : Type 0 where
  pub create_transaction : Transaction → List Milestone → Exec (Unit {0})
  pub get_transaction : String → Exec (Option Transaction)
  pub get_milestone : String → Exec (Option Milestone)
  pub list_active_transactions : Exec (List Transaction)
  pub list_milestones : String → Exec (List Milestone)
  pub set_escalation_level : String → ℤ → Exec (Unit {0})
  pub count_transactions : Exec ℕ
  pub clear : Exec (Unit {0})

-- ports/feedback.py
pub record FeedbackStore : Type 0 where
  pub save_call_record : CallRecord → Exec (Unit {0})
  pub get_call_record : String → Exec (Option CallRecord)
  pub upsert_feedback : ShowingFeedback → Exec String
  pub get_feedback : String → Exec (Option ShowingFeedback)
  pub list_feedback : String → Exec (List ShowingFeedback)

-- ports/documents.py
pub record DocumentStore : Type 0 where
  pub add : Document → Exec (Unit {0})
  pub get : String → Exec (Option Document)
  pub list_for_transaction : String → Exec (List Document)

-- ports/approvals.py
pub record ApprovalRepo : Type 0 where
  pub create : ApprovalRequest → Exec (Unit {0})
  pub get : String → Exec (Option ApprovalRequest)
  pub list : Option ApprovalStatus → Exec (List ApprovalRequest)
  pub mark_decided : String → ApprovalStatus → String → ℕ → Exec (Unit {0})

-- ports/idempotency.py
pub record IdempotencyStore : Type 0 where
  pub begin : String → Exec IdempotencyClaim
  pub complete : String → String → Exec (Unit {0})

-- ports/crm.py. `create_task` takes the ordinal of the due date.
pub record CrmPort : Type 0 where
  pub get_contact : String → Exec (Option Contact)
  pub search_contacts : String → ℕ → Exec (List Contact)
  pub create_contact : ContactCreate → Exec Contact
  pub add_note : String → String → String → Exec String
  pub create_task : String → ℕ → Option String → Exec CrmTask
  pub log_call : String → String → String → ℤ → Exec String

-- ports/files.py. The content is its bytes.
pub record FilesPort : Type 0 where
  pub list : String → Exec (List FileRef)
  pub get : String → Exec (Option FileRef)
  pub put : String → List ℕ → String → Exec FileRef

-- ports/voice.py
pub record VoicePort : Type 0 where
  pub start_outbound_call : String → String → Json → Exec String
  pub get_call : String → Exec (Option CallRecord)

-- `EmailPort` and `SMSPort` of ports/messaging.py have the one method.
pub record SendPort : Type 0 where
  pub send : Message → Exec String

-- ports/drafting.py
pub record DraftingPort : Type 0 where
  pub draft : DraftContext → Exec DraftedMessage
