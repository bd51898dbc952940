-- ===== src/Workflows/Followup/Ends.antt =====
-- How a run of the follow-up graph ends, and what its caller is told.
use brokerops.Base.{ℕ, ◌+◌, String, ◌≡◌, refl, Option, none, some, [], ◌∷◌, arith, eq_iff}
use brokerops.Base.Text.{concat}
use brokerops.Models.Extraction.{ExtractedFeedback}
use brokerops.Models.Message.{Message}
use brokerops.Models.Contact.{CrmTask}
use brokerops.World.{World, Platform, Exec, Result, ok, pure, bind-eq_ok, ◌>>=◌}
use brokerops.Ports.{VoicePort, CrmPort, FeedbackStore}
use brokerops.Workflows.Messages.{MessageService}
use brokerops.Workflows.Runs.{run_status}
use brokerops.Workflows.Graph.{Answer, Progress, updated, by_decision}
use brokerops.Workflows.Followup.{
  FollowupState, Node, ingest_call, create_hot_task, finish_synced, dismiss_hot,
  send_followup_email, dismiss_followup_email, run_node, route, by_signal, validated, hot_task,
  hot_task_on, or_none, send_email, dismiss_email,
}

-- The status of a run that ends after a node; `none` for a node that has an edge out of it in every state.
abbrev pub status_after : Node → Option String
status_after ingest_call = some "no_transcript"
status_after create_hot_task = some "completed"
status_after finish_synced = some "completed"
status_after send_followup_email = some "completed"
status_after dismiss_hot = some "hot_signal_dismissed"
status_after dismiss_followup_email = some "followup_dismissed"
status_after _ = none

-- The last part of a node that sets the outcome.
abbrev sets : {A : Type 0} → Exec A → String → (A → FollowupState) → Exec (Progress FollowupState)
sets m text f = m >>= λ a. pure (updated (record (f a) { outcome = text }))

sets-outcome :
    {A : Type 0} (m : Exec A) (text : String) (f : A → FollowupState) (w : World)
    (v : FollowupState)
    → (sets m text f w).0 ≡ ok (updated v)
    → v.outcome ≡ text
sets-outcome m text f w v h =
    let (a, e, g) = bind-eq_ok m (λ a. pure (updated (record (f a) { outcome = text }))) w h in
    ground (arith, g)

updated-outcome :
    (u v : FollowupState)
    → ◌≡◌ {A = Result (Progress FollowupState)} (ok (updated u)) (ok (updated v))
    → v.outcome ≡ u.outcome
updated-outcome u v h = cc h

module _ (platform : Platform) (today : ℕ → ℕ) (voice : VoicePort) (crm : CrmPort)
    (feedback_store : FeedbackStore) (extract : String → Exec ExtractedFeedback)
    (messages : MessageService) where
  abbrev run : Node → Option Answer → FollowupState → Exec (Progress FollowupState)
  run = run_node platform today voice crm feedback_store extract messages

  outcome-of_hot_task :
      (s v : FollowupState) (w : World)
      → (hot_task today crm s w).0 ≡ ok (updated v)
      → v.outcome ≡ "agent_notified"
  unfolding hot_task hot_task_on
  outcome-of_hot_task s v w h =
      sets-outcome
        (crm.create_task
          (concat (
            "HOT LEAD: contact " ∷ s.contact_id ∷ " signaled offer intent on " ∷ s.listing_key
            ∷ " — call back today" ∷ []))
          (today w.readings) (or_none s.contact_id))
        "agent_notified" (λ (t : CrmTask). record s { hot_task_id = t.id })
        (record w { readings = w.readings + 1 }) v h

  -- A run that ends tells its caller one of four statuses, by its last node: completed after the email, the
  -- hot-lead task or the sync without an email; otherwise what stopped it.
  pub route-status_after :
      (k : Node) (a : Option Answer) (s v : FollowupState) (w : World)
      → (run k a s w).0 ≡ ok (updated v)
      → route k v ≡ ok none
      → some (run_status v.outcome) ≡ status_after k
  unfolding run_node route by_decision by_signal validated run_status send_email dismiss_email
  route-status_after ingest_call a s v w h e = rw (stopped e) refl
    where
      stopped : route ingest_call v ≡ ok none → v.outcome ≡ "no_transcript"
      stopped f = ground (arith, f, eq_iff v.outcome "no_transcript")
  route-status_after create_hot_task a s v w h e = rw (outcome-of_hot_task s v w h) refl
  route-status_after finish_synced a s v w h e =
      rw (updated-outcome (record s { outcome = "synced" }) v h) refl
  route-status_after dismiss_hot a s v w h e =
      rw (updated-outcome (record s { outcome = "hot_signal_dismissed" }) v h) refl
  route-status_after send_followup_email a s v w h e =
      rw
        (sets-outcome
          (messages.send_approved s.followup_message_id (or_none s.followup_edited_subject)
            (or_none s.followup_edited_body))
          "followup_sent" (λ (m : Message). s) w v h)
        refl
  route-status_after dismiss_followup_email a s v w h e =
      rw
        (sets-outcome (messages.mark_rejected s.followup_message_id) "followup_dismissed"
          (λ (m : Message). s) w v h)
        refl
  route-status_after _ a s v w h e = ground (arith, e)
