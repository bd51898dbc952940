-- ===== src/Workflows/Followup/Safe.antt =====
-- What every run of the follow-up graph does: its gates, its length and its ends.
use brokerops.Base.{
  ℕ, ◌+◌, ◌≤◌, String, ◌≡◌, refl, ap, Option, none, some, List, ◌∷◌, arith, ◌⊎◌, inl, inr,
}
use mathlib.Core.Path.{subst}
use brokerops.Base.Lists.{length}
use brokerops.Models.Contact.{CrmTask}
use brokerops.Models.Extraction.{ExtractedFeedback}
use brokerops.Models.Message.{Message}
use brokerops.World.{World, Platform, Exec, Result, ok, bind-eq_ok}
use brokerops.Ports.{VoicePort, CrmPort, FeedbackStore}
use brokerops.Comms.Drafting.{edited_draft_fields}
use brokerops.Workflows.Messages.{MessageService}
use brokerops.Workflows.Graph.{
  Answer, Progress, updated, by_decision, Step, step, Run, here, next, length-bounded,
}
use brokerops.Workflows.Graph.Gates.{ByApproval, HasOutcome, approves}
use brokerops.Workflows.Followup.{
  FollowupState, Node, ingest_call, extract_structured, upsert_feedback, sync_crm, notify_agent,
  create_hot_task, finish_synced, dismiss_hot, draft_followup_email, approve_outbound_message,
  send_followup_email, dismiss_followup_email, run_node, route, by_signal, validated, notify,
  approve_email, gate_row, answered, draft_email, dismiss_email, sync, contact_of,
}

-- The place of a node on the longest way to it.
abbrev pub rank : Node → ℕ
rank ingest_call = 0
rank extract_structured = 1
rank upsert_feedback = 2
rank sync_crm = 3
rank notify_agent = 4
rank draft_followup_email = 4
rank approve_outbound_message = 5
rank finish_synced = 6
rank create_hot_task = 6
rank dismiss_hot = 6
rank send_followup_email = 6
rank dismiss_followup_email = 6

route-rank : (n m : Node) (s : FollowupState) → route n s ≡ ok (some m) → rank n + 1 ≤ rank m
unfolding route by_decision by_signal validated
route-rank n m s h = ground arith

-- Two nodes stand behind the approval of a gate.
abbrev pub IsBehind : Node → List (Node × Option Answer) → Type 0
IsBehind send_followup_email trace = ByApproval approve_outbound_message trace
IsBehind create_hot_task trace = ByApproval notify_agent trace
IsBehind _ trace = Unit {0}

module _ (platform : Platform) (today : ℕ → ℕ) (voice : VoicePort) (crm : CrmPort)
    (feedback_store : FeedbackStore) (extract : String → Exec ExtractedFeedback)
    (messages : MessageService) where
  abbrev run : Node → Option Answer → FollowupState → Exec (Progress FollowupState)
  run = run_node platform today voice crm feedback_store extract messages

  notify-HasOutcome :
      (a : Option Answer) (s v : FollowupState) (w : World)
      → (run notify_agent a s w).0 ≡ ok (updated v)
      → HasOutcome a v.hot_approval
  unfolding run_node notify validated
  notify-HasOutcome none s v w h = ground arith
  notify-HasOutcome (some a) s v w h = ground arith

  answered-HasOutcome :
      (a : Option Answer) (s v : FollowupState) (m : Message) (w : World)
      → (answered s a m w).0 ≡ ok (updated v)
      → HasOutcome a v.followup_approval
  unfolding answered edited_draft_fields
  answered-HasOutcome none s v m w h = ground arith
  answered-HasOutcome (some a) s v m w h = go (edited_draft_fields a.edited_payload) refl
    where
      go :
          (r : Result (String × String))
          → edited_draft_fields a.edited_payload ≡ r
          → HasOutcome (some a) v.followup_approval
      go r e = ground (arith, h, e)

  gate_row-HasOutcome :
      (a : Option Answer) (s v : FollowupState) (m : Option Message) (w : World)
      → (gate_row s a m w).0 ≡ ok (updated v)
      → HasOutcome a v.followup_approval
  unfolding gate_row
  gate_row-HasOutcome a s v none w h = ground arith
  gate_row-HasOutcome a s v (some m) w h = answered-HasOutcome a s v m w h

  approve-HasOutcome :
      (a : Option Answer) (s v : FollowupState) (w : World)
      → (run approve_outbound_message a s w).0 ≡ ok (updated v)
      → HasOutcome a v.followup_approval
  unfolding run_node approve_email
  approve-HasOutcome a s v w h =
      let (m, e, f) = bind-eq_ok (messages.get_message s.followup_message_id) (gate_row s a) w h in
      gate_row-HasOutcome a s v m (messages.get_message s.followup_message_id w).1 f

  step-IsBehind :
      (n k : Node) (s v : FollowupState) (a : Option Answer) (trace : List (Node × Option Answer))
      → Step run route n s a k v
      → IsBehind k ((n, a) ∷ trace)
  unfolding route
  step-IsBehind approve_outbound_message send_followup_email s v a trace (step before after e h) = (
    refl,
    approves a v.followup_approval (approve-HasOutcome a s v before (ap (λ x. x.0) e)) h
        (λ p. ground arith),
  )
  step-IsBehind notify_agent create_hot_task s v a trace (step before after e h) = (
    refl,
    approves a v.hot_approval (notify-HasOutcome a s v before (ap (λ x. x.0) e)) h
        (λ p. ground arith),
  )
  step-IsBehind n send_followup_email s v a trace (step before after e h) = ground arith
  step-IsBehind n create_hot_task s v a trace (step before after e h) = ground arith
  step-IsBehind _ _ s v a trace (step before after e h) = tt

  run-IsBehind :
      (s v : FollowupState) (k : Node) (trace : List (Node × Option Answer))
      → Run run route trace ingest_call s k v
      → IsBehind k trace
  run-IsBehind s v k trace here = tt
  run-IsBehind s v k ((m, a) ∷ trace) (next r t) = step-IsBehind m k _ v a trace t

  -- The node does the same, whatever `send_approved` would do: it does not call it.
  abbrev pub SendsNothing : Node → FollowupState → Type 0
  SendsNothing k u =
      (send : String → Option String → Option String → Exec Message) (a : Option Answer) (w : World)
      → run k a u w
        ≡ run_node platform today voice crm feedback_store extract
            (record messages { send_approved = send }) k a u w

  -- The node does the same, whatever `create_task` would do.
  abbrev pub CreatesNoTask : Node → FollowupState → Type 0
  CreatesNoTask k u =
      (create : String → ℕ → Option String → Exec CrmTask) (a : Option Answer) (w : World)
      → run k a u w
        ≡ run_node platform today voice (record crm { create_task = create }) feedback_store extract
            messages k a u w

  abbrev pub IsGuarded : Node → FollowupState → List (Node × Option Answer) → Type 0
  IsGuarded k u trace =
      (ByApproval approve_outbound_message trace ⊎ SendsNothing k u)
      × (ByApproval notify_agent trace ⊎ CreatesNoTask k u)

  sends_nothing : (k : Node) (u : FollowupState) → (k ≡ send_followup_email) ⊎ SendsNothing k u
  unfolding run_node draft_email approve_email dismiss_email
  sends_nothing send_followup_email u = inl refl
  sends_nothing _ u = inr (λ send a w. refl)

  creates_no_task : (k : Node) (u : FollowupState) → (k ≡ create_hot_task) ⊎ CreatesNoTask k u
  unfolding run_node sync draft_email contact_of
  creates_no_task create_hot_task u = inl refl
  creates_no_task _ u = inr (λ create a w. refl)

  -- In every run from a call, whatever the providers do and whatever else happens between two nodes, the node that it
  -- has come to does not call `send_approved`, unless it comes right after an approving answer at the
  -- gate of the email, and does not call `create_task`, unless right after one at the hot-lead gate. Not to call
  -- it means to do the same with any other operation in its place.
  pub run-IsGuarded :
      (s u : FollowupState) (k : Node) (trace : List (Node × Option Answer))
      → Run run route trace ingest_call s k u
      → IsGuarded k u trace
  run-IsGuarded s u k trace r = (
    elim (sends_nothing k u) [
      | inl e ↦ inl (subst (λ n. IsBehind n trace) e (run-IsBehind s u k trace r))
      | inr quiet ↦ inr quiet
    ],
    elim (creates_no_task k u) [
      | inl e ↦ inl (subst (λ n. IsBehind n trace) e (run-IsBehind s u k trace r))
      | inr quiet ↦ inr quiet
    ],
  )

  -- Every run from a call passes at most six edges before its last node.
  pub run-IsBounded :
      (s v : FollowupState) (k : Node) (trace : List (Node × Option Answer))
      → Run run route trace ingest_call s k v
      → length trace ≤ 6
  run-IsBounded s v k trace r =
      omega (arith, length-bounded run route rank (λ n m u x a t. up n m u x a t) r, top k)
    where
      up :
          (n m : Node) (u x : FollowupState) (a : Option Answer)
          → Step run route n u a m x
          → rank n + 1 ≤ rank m
      up n m u x a (step before after e h) = route-rank n m x h

      top : (m : Node) → rank m ≤ 6
      top m = ground arith
