-- ===== src/Workflows/CheckState.antt =====
-- The state of a milestone check, the names of its nodes, its texts and the payloads of its gates, from
-- graphs/transaction_coordination.py.
use brokerops.Base.{ℕ, ◌+◌, String, Bool, Option, none, some, List, [], ◌∷◌, if◌then◌else◌, or_else}
use brokerops.Base.Int.{ℤ, neg, sub_ℕ, pos_part, neg_part}
use brokerops.Base.Dict.{Dict, lookup}
use brokerops.Base.Text.{concat}
use brokerops.Models.Json.{Json, Items, int, str, arr, obj, nil, cons, end, field}
use brokerops.Models.Message.{Message, channel_value}
use brokerops.Models.Transaction.{Transaction}
use brokerops.Models.Milestone.{Milestone}
use brokerops.World.{Exec, assertion_error, pure, raise}
use brokerops.Milestones.Engine.{MilestoneClass, MilestoneAssessment, class_eq}
use brokerops.Milestones.Notes.{draft_milestone_reminder, draft_escalation_note}
use brokerops.Workflows.Graph.{ApprovalOutcome}

-- TransactionCoordinationState of models/workflow_state.py. `worst` is `none` for the empty text.
pub record CoordinationState : Type 0 where
  pub transaction_id : String
  pub outcome : String
  pub worst : Option MilestoneClass
  pub assessments : List MilestoneAssessment
  pub reminders : List String
  pub reminder_task_ids : List String
  pub escalation_approval : Option ApprovalOutcome
  pub escalated_task_ids : List String
  pub planned_calls : List String
  pub suppress_reminder_email : Bool
  pub reminder_message_id : String
  pub reminder_approval : Option ApprovalOutcome
  pub reminder_edited_subject : String
  pub reminder_edited_body : String

pub data Node : Type 0 where
  load_txn evaluate_milestones log_on_track draft_reminders send_reminders draft_reminder_email :
      Node
  approve_outbound_message send_reminder_email dismiss_reminder_email escalate notify dismiss : Node
  queue_vapi_call : Node

-- The milestones of a class, each with its days, by the rows that were fetched again.
unfoldable pub of_class :
    MilestoneClass → Dict Milestone → List MilestoneAssessment → List (Milestone × ℤ)
unfolding class_eq lookup
of_class c d [] = []
of_class c d (a ∷ rest) =
    let later = of_class c d rest in
    elim (lookup a.milestone_id d) [
      | none ↦ later
      | some m ↦ if class_eq a.classification c then (m, a.days_until_due) ∷ later else later
    ]

unfoldable pub escalated_json : (ℕ → String) → Transaction → List (Milestone × ℤ) → Items
unfolding draft_escalation_note
escalated_json iso_date txn [] = nil
escalated_json iso_date txn ((m, days) ∷ rest) =
    cons
      (obj (
        field "id" (str m.id) (
          field "title" (str m.title) (
            field "due_date" (str (iso_date m.due_date)) (
              field "days_overdue" (int (neg days)) (
                field "escalation_level" (int m.escalation_level)
                  (field "note" (str (draft_escalation_note iso_date txn m (neg days))) end)))))))
      (escalated_json iso_date txn rest)

unfoldable pub escalation_gate : (ℕ → String) → Transaction → List (Milestone × ℤ) → Json
unfolding escalated_json
escalation_gate iso_date txn pairs = obj (
    field "kind" (str "approve_escalation") (
      field "transaction_id" (str txn.id) (
        field "listing_key" (str txn.listing_key)
          (field "milestones" (arr (escalated_json iso_date txn pairs)) end))))

unfoldable pub message_gate : CoordinationState → Message → Json
unfolding channel_value
message_gate s m = obj (
    field "kind" (str "approve_outbound_message") (
      field "message_id" (str m.id) (
        field "channel" (str (channel_value m.channel)) (
          field "recipient" (str m.recipient) (
            field "subject" (str m.subject) (
              field "body" (str m.body) (
                field "template_ref" (str m.template_ref) (
                  field "transaction_id" (str s.transaction_id)
                    (field "listing_key" (str m.listing_key) end)))))))))

-- `milestone.escalation_level + 1`
abbrev pub next_level : ℤ → ℤ
next_level n = sub_ℕ (pos_part n + 1) (neg_part n)

abbrev or_blank : Option String → String
or_blank none = "None"
or_blank (some s) = s

unfoldable pub call_intents : List (Milestone × ℤ) → List String
call_intents [] = []
call_intents ((m, days) ∷ rest) =
    concat (
      "Status-check call for "
      ∷ m.title
      ∷ " ("
      ∷ or_blank m.blocked_reason
      ∷ ") — owner "
      ∷ or_else m.owner "unknown"
      ∷ [])
    ∷ call_intents rest

unfoldable pub reminder_texts : (ℕ → String) → Transaction → List (Milestone × ℤ) → List String
unfolding draft_milestone_reminder
reminder_texts iso_date txn [] = []
reminder_texts iso_date txn ((m, days) ∷ rest) =
    draft_milestone_reminder iso_date txn m days ∷ reminder_texts iso_date txn rest

-- `assert txn is not None`
unfoldable pub assert_some : {A : Type 0} → Option A → Exec A
assert_some none = raise assertion_error
assert_some (some a) = pure a
