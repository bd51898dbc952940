-- ===== src/Workflows/Coordination.antt =====
-- graphs/transaction_coordination.py: the milestone check of one transaction.
pub mod Safe
pub mod Ends
use brokerops.Base.{
  ℕ, ◌+◌, String, Bool, true, false, not, ◌&&◌, Option, none, some, List, [], ◌∷◌, ◌==◌,
  if◌then◌else◌, truthy, or_else,
}
use brokerops.Base.Int.{ℤ, pos, neg, sub_ℕ, pos_part, neg_part}
use brokerops.Base.Dict.{Dict, lookup}
use brokerops.Base.Text.{concat}
use brokerops.Models.Json.{Json, Items, Fields, null, int, str, arr, obj, nil, cons, end, field}
use brokerops.Models.Message.{Message, channel_value}
use brokerops.Models.Drafting.{DraftContext}
use brokerops.Models.Transaction.{Transaction}
use brokerops.Models.Milestone.{Milestone}
use brokerops.Models.Records.{ApprovalStatus, approval_status_eq}
use brokerops.World.{
  Platform, Exec, Result, ok, err, value_error, key_error, assertion_error,
  unknown_outbound_message, pure, raise, lift, reading, ◌>>=◌, ◌>>◌,
}
use brokerops.Ports.{TransactionStore, CrmPort}
use brokerops.Milestones.Engine.{
  MilestoneClass, MilestoneAssessment, overdue, due_soon, blocked_external, on_track, class_eq,
  assess_milestones, worst_classification, plan_reminder_email,
}
use brokerops.Milestones.Queue.{by_id}
use brokerops.Milestones.Notes.{draft_milestone_reminder, draft_escalation_note}
use brokerops.Comms.Drafting.{EditedPayload, edited_draft_fields}
use brokerops.Workflows.Messages.{MessageService}
use brokerops.Workflows.Graph.{
  Answer, ApprovalOutcome, outcome_of, Progress, updated, waits, by_decision,
}
use brokerops.Workflows.Followup.{or_none, edit_or}
use brokerops.Workflows.CheckState.{
  CoordinationState, Node, load_txn, evaluate_milestones, log_on_track, draft_reminders,
  send_reminders, draft_reminder_email, approve_outbound_message, send_reminder_email,
  dismiss_reminder_email, escalate, notify, dismiss, queue_vapi_call, of_class, escalated_json,
  escalation_gate, message_gate, next_level, call_intents, reminder_texts, assert_some,
}

module _ (store : TransactionStore) where
  unfoldable pub milestones_by_class :
      CoordinationState → MilestoneClass → Exec (List (Milestone × ℤ))
  unfolding of_class by_id
  milestones_by_class s c =
      store.list_milestones s.transaction_id >>= λ ms. pure (of_class c (by_id ms []) s.assessments)

module _ (crm : CrmPort) where
  -- `zip(..., strict=True)` raises when one of the two ends first.
  unfoldable pub reminder_tasks : List String → List (Milestone × ℤ) → Exec (List String)
  reminder_tasks [] [] = pure []
  reminder_tasks (t ∷ ts) ((m, days) ∷ rest) = crm.create_task t m.due_date none >>= λ task.
      reminder_tasks ts rest >>= λ ids. pure (task.id ∷ ids)
  reminder_tasks ts ms = raise value_error

unfoldable pub found : CoordinationState → Option Transaction → CoordinationState
found s none = record s { outcome = "not_found" }
found s (some txn) = s

unfoldable pub draft_planned :
    (DraftContext → Exec Message)
    → CoordinationState
    → Option DraftContext
    → Exec (Progress CoordinationState)
draft_planned draft s none = pure (updated s)
draft_planned draft s (some c) =
    draft c >>= λ m. pure (updated (record s { reminder_message_id = m.id }))

unfoldable pub answered :
    CoordinationState → Option Answer → Message → Exec (Progress CoordinationState)
unfolding message_gate outcome_of edited_draft_fields
answered s none m = pure (waits (message_gate s m))
answered s (some a) m = lift (edited_draft_fields a.edited_payload) >>= λ edits. pure (
    updated (record s {
      reminder_approval = some (outcome_of a);
      reminder_edited_subject = edit_or edits.0 s.reminder_edited_subject;
      reminder_edited_body = edit_or edits.1 s.reminder_edited_body;
    }))

unfoldable pub gate_row :
    CoordinationState → Option Answer → Option Message → Exec (Progress CoordinationState)
unfolding answered
gate_row s a none = raise (unknown_outbound_message s.reminder_message_id)
gate_row s a (some m) = answered s a m

unfoldable pub escalation_answered :
    (ℕ → String)
    → CoordinationState
    → Option Answer
    → Transaction
    → List (Milestone × ℤ)
    → Progress CoordinationState
unfolding escalation_gate outcome_of
escalation_answered iso_date s none txn pairs = waits (escalation_gate iso_date txn pairs)
escalation_answered iso_date s (some a) txn pairs =
    updated (record s { escalation_approval = some (outcome_of a) })

module _ (platform : Platform) (today : ℕ → ℕ) (store : TransactionStore) (crm : CrmPort)
    (messages : MessageService) where
  unfoldable pub load : CoordinationState → Exec (Progress CoordinationState)
  unfolding found
  load s = store.get_transaction s.transaction_id >>= λ txn. pure (updated (found s txn))

  unfoldable pub evaluate : CoordinationState → Exec (Progress CoordinationState)
  unfolding assess_milestones worst_classification
  evaluate s = do
    ms ← store.list_milestones s.transaction_id
    day ← reading today
    let assessments = assess_milestones ms day in
        (pure (
          updated (record s {
            assessments = assessments;
            worst = some (worst_classification assessments);
          })))

  unfoldable pub draft_texts : CoordinationState → Exec (Progress CoordinationState)
  unfolding assert_some milestones_by_class reminder_texts
  draft_texts s = do
    found_txn ← store.get_transaction s.transaction_id
    txn ← assert_some found_txn
    pairs ← milestones_by_class store s due_soon
    pure (updated (record s { reminders = reminder_texts platform.iso_date txn pairs }))

  unfoldable pub remind : CoordinationState → Exec (Progress CoordinationState)
  unfolding milestones_by_class reminder_tasks
  remind s = do
    pairs ← milestones_by_class store s due_soon
    ids ← reminder_tasks crm s.reminders pairs
    pure (updated (record s { reminder_task_ids = ids; outcome = "reminders_sent" }))

  unfoldable pub draft_unsuppressed : CoordinationState → Exec (Progress CoordinationState)
  unfolding assert_some milestones_by_class plan_reminder_email draft_planned
  draft_unsuppressed s = do
    found_txn ← store.get_transaction s.transaction_id
    txn ← assert_some found_txn
    pairs ← milestones_by_class store s due_soon
    draft_planned messages.draft s (plan_reminder_email platform.iso_date txn pairs)

  unfoldable pub draft_email : CoordinationState → Exec (Progress CoordinationState)
  unfolding draft_unsuppressed
  draft_email s = if s.suppress_reminder_email then pure (updated s) else draft_unsuppressed s

  unfoldable pub approve_email :
      Option Answer → CoordinationState → Exec (Progress CoordinationState)
  unfolding gate_row
  approve_email a s = messages.get_message s.reminder_message_id >>= gate_row s a

  unfoldable pub send_email : CoordinationState → Exec (Progress CoordinationState)
  send_email s =
      messages.send_approved s.reminder_message_id (or_none s.reminder_edited_subject)
        (or_none s.reminder_edited_body)
      >>= λ m. pure (updated (record s { outcome = "reminder_email_sent" }))

  unfoldable pub dismiss_email : CoordinationState → Exec (Progress CoordinationState)
  dismiss_email s = messages.mark_rejected s.reminder_message_id >>= λ m.
      pure (updated (record s { outcome = "reminder_email_dismissed" }))

  unfoldable pub escalate_node :
      Option Answer → CoordinationState → Exec (Progress CoordinationState)
  unfolding assert_some milestones_by_class escalation_answered
  escalate_node a s = (store.get_transaction s.transaction_id >>= assert_some) >>= λ txn.
      milestones_by_class store s overdue >>= λ pairs.
      pure (escalation_answered platform.iso_date s a txn pairs)

  -- One urgent task, and one level more, for each overdue milestone.
  unfoldable pub escalate_each : Transaction → List (Milestone × ℤ) → Exec (List String)
  unfolding draft_escalation_note
  escalate_each txn [] = pure []
  escalate_each txn ((m, days) ∷ rest) = reading today >>= λ day.
      crm.create_task
        (concat ("URGENT: " ∷ draft_escalation_note platform.iso_date txn m (neg days) ∷ [])) day
        none
      >>= λ task.
          store.set_escalation_level m.id (next_level m.escalation_level)
          >> (escalate_each txn rest >>= λ ids. pure (task.id ∷ ids))

  unfoldable pub escalated_tasks : CoordinationState → Exec (List String)
  unfolding assert_some milestones_by_class escalate_each
  escalated_tasks s = do
    found_txn ← store.get_transaction s.transaction_id
    txn ← assert_some found_txn
    pairs ← milestones_by_class store s overdue
    escalate_each txn pairs

  unfoldable pub notify_node : CoordinationState → Exec (Progress CoordinationState)
  unfolding escalated_tasks
  notify_node s = escalated_tasks s >>= λ ids.
      pure (updated (record s { escalated_task_ids = ids; outcome = "escalated" }))

  unfoldable pub queue_call : CoordinationState → Exec (Progress CoordinationState)
  unfolding milestones_by_class call_intents
  queue_call s = milestones_by_class store s blocked_external >>= λ pairs.
      pure (updated (record s { planned_calls = call_intents pairs; outcome = "call_queued" }))

  unfoldable pub run_node :
      Node → Option Answer → CoordinationState → Exec (Progress CoordinationState)
  unfolding load evaluate draft_texts remind draft_email approve_email send_email dismiss_email
      escalate_node notify_node queue_call
  run_node load_txn a s = load s
  run_node evaluate_milestones a s = evaluate s
  run_node log_on_track a s = pure (updated (record s { outcome = "on_track" }))
  run_node draft_reminders a s = draft_texts s
  run_node send_reminders a s = remind s
  run_node draft_reminder_email a s = draft_email s
  run_node approve_outbound_message a s = approve_email a s
  run_node send_reminder_email a s = send_email s
  run_node dismiss_reminder_email a s = dismiss_email s
  run_node escalate a s = escalate_node a s
  run_node notify a s = notify_node s
  run_node dismiss a s = pure (updated (record s { outcome = "escalation_dismissed" }))
  run_node queue_vapi_call a s = queue_call s

-- `{...}[state.worst]`
unfoldable pub by_severity : Option MilestoneClass → Result (Option Node)
by_severity none = err (key_error "")
by_severity (some overdue) = ok (some escalate)
by_severity (some due_soon) = ok (some draft_reminders)
by_severity (some blocked_external) = ok (some queue_vapi_call)
by_severity (some on_track) = ok (some log_on_track)

-- The edges; `none` is END.
unfoldable pub route : Node → CoordinationState → Result (Option Node)
unfolding by_severity by_decision
route load_txn s = ok (if s.outcome == "not_found" then none else some evaluate_milestones)
route evaluate_milestones s = by_severity s.worst
route draft_reminders s = ok (some send_reminders)
route send_reminders s = ok (some draft_reminder_email)
route draft_reminder_email s =
    ok (if truthy s.reminder_message_id then some approve_outbound_message else none)
route approve_outbound_message s =
    by_decision s.reminder_approval send_reminder_email dismiss_reminder_email
route escalate s = by_decision s.escalation_approval notify dismiss
route _ s = ok none
