-- ===== src/Workflows/Coordination/Ends.antt =====
-- How a milestone check ends, and what its caller is told.
use brokerops.Base.{
  ℕ, String, ◌≡◌, refl, ap, ◌∙◌, Bool, true, false, Option, none, some, List, arith, eq_iff,
  if◌then◌else◌,
}
use brokerops.Base.Int.{ℤ}
use brokerops.Models.Message.{Message}
use brokerops.Models.Milestone.{Milestone}
use brokerops.Models.Transaction.{Transaction}
use brokerops.Models.Drafting.{DraftContext}
use brokerops.Milestones.Engine.{due_soon, blocked_external, plan_reminder_email}
use brokerops.World.{World, Platform, Exec, Result, ok, pure, bind-eq_ok, ◌>>=◌}
use brokerops.Ports.{TransactionStore, CrmPort}
use brokerops.Workflows.Messages.{MessageService}
use brokerops.Workflows.Runs.{run_status}
use brokerops.Workflows.Followup.{or_none}
use brokerops.Workflows.Graph.{Answer, Progress, updated, by_decision, Step, step, Run, here, next}
use brokerops.Workflows.CheckState.{
  CoordinationState, Node, load_txn, log_on_track, send_reminders, draft_reminder_email,
  send_reminder_email, dismiss_reminder_email, notify, dismiss, queue_vapi_call, call_intents,
  assert_some,
}
use brokerops.Workflows.Coordination.{
  run_node, route, by_severity, milestones_by_class, remind, reminder_tasks, send_email,
  dismiss_email, notify_node, escalated_tasks, queue_call, draft_email, draft_unsuppressed,
  draft_planned,
}

-- The status of a run that ends after a node; `none` for a node that has an edge out of it in every state.
abbrev pub status_after : Node → Option String
status_after load_txn = some "not_found"
status_after log_on_track = some "completed"
status_after draft_reminder_email = some "completed"
status_after send_reminder_email = some "completed"
status_after dismiss_reminder_email = some "reminder_email_dismissed"
status_after notify = some "completed"
status_after dismiss = some "escalation_dismissed"
status_after queue_vapi_call = some "completed"
status_after _ = none

-- The last part of a node that sets the outcome.
abbrev sets :
    {A : Type 0} → Exec A → String → (A → CoordinationState) → Exec (Progress CoordinationState)
sets m text f = m >>= λ a. pure (updated (record (f a) { outcome = text }))

sets-outcome :
    {A : Type 0} (m : Exec A) (text : String) (f : A → CoordinationState) (w : World)
    (v : CoordinationState)
    → (sets m text f w).0 ≡ ok (updated v)
    → v.outcome ≡ text
sets-outcome m text f w v h =
    let (a, e, g) = bind-eq_ok m (λ a. pure (updated (record (f a) { outcome = text }))) w h in
    ground (arith, g)

updated-outcome :
    (u v : CoordinationState)
    → ◌≡◌ {A = Result (Progress CoordinationState)} (ok (updated u)) (ok (updated v))
    → v.outcome ≡ u.outcome
updated-outcome u v h = cc h

module _ (platform : Platform) (today : ℕ → ℕ) (store : TransactionStore) (crm : CrmPort)
    (messages : MessageService) where
  abbrev run : Node → Option Answer → CoordinationState → Exec (Progress CoordinationState)
  run = run_node platform today store crm messages

  outcome-of_remind :
      (s v : CoordinationState) (w : World)
      → (remind platform today store crm messages s w).0 ≡ ok (updated v)
      → v.outcome ≡ "reminders_sent"
  unfolding remind
  outcome-of_remind s v w h =
      let pairs_of = milestones_by_class store s due_soon in
      let rest : List (Milestone × ℤ) → Exec (Progress CoordinationState) = λ pairs.
        sets (reminder_tasks crm s.reminders pairs) "reminders_sent"
          (λ ids. record s { reminder_task_ids = ids }) in
      let (pairs, e, f) = bind-eq_ok pairs_of rest w h in
      sets-outcome (reminder_tasks crm s.reminders pairs) "reminders_sent"
        (λ ids. record s { reminder_task_ids = ids }) (pairs_of w).1 v f

  outcome-of_planned :
      (s v : CoordinationState) (c : Option DraftContext) (w : World)
      → (draft_planned messages.draft s c w).0 ≡ ok (updated v)
      → v.outcome ≡ s.outcome
  unfolding draft_planned
  outcome-of_planned s v none w h = updated-outcome s v h
  outcome-of_planned s v (some c) w h =
      sets-outcome (messages.draft c) s.outcome
        (λ (m : Message). record s { reminder_message_id = m.id }) w v h

  outcome-of_unsuppressed :
      (s v : CoordinationState) (w : World)
      → (draft_unsuppressed platform today store crm messages s w).0 ≡ ok (updated v)
      → v.outcome ≡ s.outcome
  unfolding draft_unsuppressed
  outcome-of_unsuppressed s v w h =
      let last : Transaction → List (Milestone × ℤ) → Exec (Progress CoordinationState) =
        λ txn pairs.
          draft_planned messages.draft s (plan_reminder_email platform.iso_date txn pairs) in
      let with_txn : Transaction → Exec (Progress CoordinationState) =
        λ txn. milestones_by_class store s due_soon >>= last txn in
      let (found, e, f) =
        bind-eq_ok (store.get_transaction s.transaction_id) (λ o. assert_some o >>= with_txn) w h in
      let w1 = (store.get_transaction s.transaction_id w).1 in
      let (txn, e', f') = bind-eq_ok (assert_some found) with_txn w1 f in
      let (pairs, e2, f2) =
        bind-eq_ok (milestones_by_class store s due_soon) (last txn) (assert_some found w1).1 f' in
      outcome-of_planned s v (plan_reminder_email platform.iso_date txn pairs)
        (milestones_by_class store s due_soon (assert_some found w1).1).1 f2

  outcome-of_draft :
      (s v : CoordinationState) (w : World)
      → (run draft_reminder_email none s w).0 ≡ ok (updated v)
      → v.outcome ≡ s.outcome
  unfolding run_node draft_email
  outcome-of_draft s v w h = go s.suppress_reminder_email h
    where
      go :
          (b : Bool)
          → ((if b
                then pure (updated s)
                else draft_unsuppressed platform today store crm messages s)
              w).0
            ≡ ok (updated v)
          → v.outcome ≡ s.outcome
      go true e = updated-outcome s v e
      go false e = outcome-of_unsuppressed s v w e

  -- The tail of the due-soon path starts with the outcome of the reminders.
  abbrev IsReady : Node → CoordinationState → Type 0
  IsReady draft_reminder_email u = u.outcome ≡ "reminders_sent"
  IsReady _ u = Unit {0}

  step-IsReady :
      (n k : Node) (s v : CoordinationState) (a : Option Answer)
      → Step run route n s a k v
      → IsReady k v
  unfolding run_node route by_severity by_decision
  step-IsReady send_reminders draft_reminder_email s v a (step before after e h) =
      outcome-of_remind s v before (ap (λ x. x.0) e)
  step-IsReady n draft_reminder_email s v a (step before after e h) = ground arith
  step-IsReady _ _ s v a (step before after e h) = tt

  ready-status_after :
      (k : Node) (a : Option Answer) (s v : CoordinationState) (w : World)
      → IsReady k s
      → (run k a s w).0 ≡ ok (updated v)
      → route k v ≡ ok none
      → some (run_status v.outcome) ≡ status_after k
  unfolding run_node route by_decision by_severity run_status send_email dismiss_email notify_node
      queue_call
  ready-status_after load_txn a s v w r h e = rw (stopped e) refl
    where
      stopped : route load_txn v ≡ ok none → v.outcome ≡ "not_found"
      stopped f = ground (arith, f, eq_iff v.outcome "not_found")
  ready-status_after log_on_track a s v w r h e =
      rw (updated-outcome (record s { outcome = "on_track" }) v h) refl
  ready-status_after dismiss a s v w r h e =
      rw (updated-outcome (record s { outcome = "escalation_dismissed" }) v h) refl
  ready-status_after draft_reminder_email a s v w r h e = rw (outcome-of_draft s v w h ∙ r) refl
  ready-status_after send_reminder_email a s v w r h e =
      rw
        (sets-outcome
          (messages.send_approved s.reminder_message_id (or_none s.reminder_edited_subject)
            (or_none s.reminder_edited_body))
          "reminder_email_sent" (λ (m : Message). s) w v h)
        refl
  ready-status_after dismiss_reminder_email a s v w r h e =
      rw
        (sets-outcome (messages.mark_rejected s.reminder_message_id) "reminder_email_dismissed"
          (λ (m : Message). s) w v h)
        refl
  ready-status_after notify a s v w r h e =
      rw
        (sets-outcome (escalated_tasks platform today store crm messages s) "escalated"
          (λ ids. record s { escalated_task_ids = ids }) w v h)
        refl
  ready-status_after queue_vapi_call a s v w r h e =
      rw
        (sets-outcome (milestones_by_class store s blocked_external) "call_queued"
          (λ pairs. record s { planned_calls = call_intents pairs }) w v h)
        refl
  ready-status_after _ a s v w r h e = ground (arith, e)

  -- A milestone check that ends tells its caller one of four statuses, by its last node: completed after the
  -- log of a transaction on track, the reminders with or without an email, the escalation or the queued
  -- calls; otherwise that the transaction is not there, or which gate was refused.
  pub check-status_after :
      (s u v : CoordinationState) (k : Node) (a : Option Answer)
      (trace : List (Node × Option Answer)) (w : World)
      → Run run route trace load_txn s k u
      → (run k a u w).0 ≡ ok (updated v)
      → route k v ≡ ok none
      → some (run_status v.outcome) ≡ status_after k
  check-status_after s u v k a trace w r h e = ready-status_after k a u v w (ready r) h e
    where
      ready :
          {t : CoordinationState} {n : Node} {passed : List (Node × Option Answer)}
          → Run run route passed load_txn s n t
          → IsReady n t
      ready here = tt
      ready (next {m = m} {k = n} {a = b} q x) = step-IsReady m n _ _ b x
