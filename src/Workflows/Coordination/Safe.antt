-- ===== src/Workflows/Coordination/Safe.antt =====
-- The gates and the length of every run of the coordination graph.
use brokerops.Base.{
  ℕ, ◌+◌, ◌≤◌, String, ◌≡◌, refl, ap, Option, none, some, List, ◌∷◌, arith, ◌⊎◌, inl, inr,
}
use mathlib.Core.Path.{subst}
use brokerops.Base.Lists.{length}
use brokerops.Models.Contact.{CrmTask}
use brokerops.Models.Message.{Message}
use brokerops.Models.Milestone.{Milestone}
use brokerops.Models.Transaction.{Transaction}
use brokerops.World.{World, Platform, Exec, Result, ok, bind-eq_ok, pure, ◌>>=◌}
use brokerops.Ports.{TransactionStore, CrmPort}
use brokerops.Base.Int.{ℤ}
use brokerops.Milestones.Engine.{overdue}
use brokerops.Comms.Drafting.{edited_draft_fields}
use brokerops.Workflows.Messages.{MessageService}
use brokerops.Workflows.Graph.{
  Answer, Progress, updated, by_decision, Step, step, Run, here, next, length-bounded,
}
use brokerops.Workflows.Graph.Gates.{ByApproval, HasOutcome, approves}
use brokerops.Workflows.CheckState.{
  CoordinationState, Node, load_txn, evaluate_milestones, draft_reminders, send_reminders,
  draft_reminder_email, approve_outbound_message, send_reminder_email, escalate, notify,
  assert_some,
}
use brokerops.Workflows.Coordination.{
  run_node, route, by_severity, approve_email, gate_row, answered, escalate_node,
  escalation_answered, milestones_by_class, draft_email, draft_unsuppressed, dismiss_email, load,
  evaluate, draft_texts, remind, queue_call,
}

-- The place of a node on the longest way to it.
abbrev pub rank : Node → ℕ
rank load_txn = 0
rank evaluate_milestones = 1
rank draft_reminders = 2
rank escalate = 2
rank send_reminders = 3
rank draft_reminder_email = 4
rank approve_outbound_message = 5
rank _ = 6

route-rank : (n m : Node) (s : CoordinationState) → route n s ≡ ok (some m) → rank n + 1 ≤ rank m
unfolding route by_decision by_severity
route-rank n m s h = ground arith

-- Two nodes stand behind the approval of a gate.
abbrev pub IsBehind : Node → List (Node × Option Answer) → Type 0
IsBehind send_reminder_email trace = ByApproval approve_outbound_message trace
IsBehind notify trace = ByApproval escalate trace
IsBehind _ trace = Unit {0}

module _ (platform : Platform) (today : ℕ → ℕ) (store : TransactionStore) (crm : CrmPort)
    (messages : MessageService) where
  abbrev run : Node → Option Answer → CoordinationState → Exec (Progress CoordinationState)
  run = run_node platform today store crm messages

  answered-HasOutcome :
      (a : Option Answer) (s v : CoordinationState) (m : Message) (w : World)
      → (answered s a m w).0 ≡ ok (updated v)
      → HasOutcome a v.reminder_approval
  unfolding answered edited_draft_fields
  answered-HasOutcome none s v m w h = ground arith
  answered-HasOutcome (some a) s v m w h = go (edited_draft_fields a.edited_payload) refl
    where
      go :
          (r : Result (String × String))
          → edited_draft_fields a.edited_payload ≡ r
          → HasOutcome (some a) v.reminder_approval
      go r e = ground (arith, h, e)

  gate_row-HasOutcome :
      (a : Option Answer) (s v : CoordinationState) (m : Option Message) (w : World)
      → (gate_row s a m w).0 ≡ ok (updated v)
      → HasOutcome a v.reminder_approval
  unfolding gate_row
  gate_row-HasOutcome a s v none w h = ground arith
  gate_row-HasOutcome a s v (some m) w h = answered-HasOutcome a s v m w h

  approve-HasOutcome :
      (a : Option Answer) (s v : CoordinationState) (w : World)
      → (run approve_outbound_message a s w).0 ≡ ok (updated v)
      → HasOutcome a v.reminder_approval
  unfolding run_node approve_email
  approve-HasOutcome a s v w h =
      let (m, e, f) = bind-eq_ok (messages.get_message s.reminder_message_id) (gate_row s a) w h in
      gate_row-HasOutcome a s v m (messages.get_message s.reminder_message_id w).1 f

  escalated-HasOutcome :
      (a : Option Answer) (s v : CoordinationState) (txn : Transaction)
      (pairs : List (Milestone × ℤ))
      → escalation_answered platform.iso_date s a txn pairs ≡ updated v
      → HasOutcome a v.escalation_approval
  unfolding escalation_answered
  escalated-HasOutcome none s v txn pairs h = ground arith
  escalated-HasOutcome (some a) s v txn pairs h = ground arith

  escalate-HasOutcome :
      (a : Option Answer) (s v : CoordinationState) (w : World)
      → (run escalate a s w).0 ≡ ok (updated v)
      → HasOutcome a v.escalation_approval
  unfolding run_node escalate_node
  escalate-HasOutcome a s v w h =
      let txn_of = store.get_transaction s.transaction_id >>= assert_some in
      let shown : Transaction → Exec (Progress CoordinationState) = λ txn.
        milestones_by_class store s overdue >>= λ pairs.
        pure (escalation_answered platform.iso_date s a txn pairs) in
      let (txn, e, f) = bind-eq_ok txn_of shown w h in
      let (pairs, e', f') =
        bind-eq_ok (milestones_by_class store s overdue)
          (λ pairs. pure (escalation_answered platform.iso_date s a txn pairs)) (txn_of w).1 f in
      escalated-HasOutcome a s v txn pairs (cc f')

  step-IsBehind :
      (n k : Node) (s v : CoordinationState) (a : Option Answer)
      (trace : List (Node × Option Answer))
      → Step run route n s a k v
      → IsBehind k ((n, a) ∷ trace)
  unfolding route by_severity
  step-IsBehind approve_outbound_message send_reminder_email s v a trace (step before after e h) = (
    refl,
    approves a v.reminder_approval (approve-HasOutcome a s v before (ap (λ x. x.0) e)) h
        (λ p. ground arith),
  )
  step-IsBehind escalate notify s v a trace (step before after e h) = (
    refl,
    approves a v.escalation_approval (escalate-HasOutcome a s v before (ap (λ x. x.0) e)) h
        (λ p. ground arith),
  )
  step-IsBehind n send_reminder_email s v a trace (step before after e h) = ground arith
  step-IsBehind n notify s v a trace (step before after e h) = ground arith
  step-IsBehind _ _ s v a trace (step before after e h) = tt

  run-IsBehind :
      (s v : CoordinationState) (k : Node) (trace : List (Node × Option Answer))
      → Run run route trace load_txn s k v
      → IsBehind k trace
  run-IsBehind s v k trace here = tt
  run-IsBehind s v k ((m, a) ∷ trace) (next r t) = step-IsBehind m k _ v a trace t

  -- The node does the same, whatever `send_approved` would do: it does not call it.
  abbrev pub SendsNothing : Node → CoordinationState → Type 0
  SendsNothing k u =
      (send : String → Option String → Option String → Exec Message) (a : Option Answer) (w : World)
      → run k a u w
        ≡ run_node platform today store crm (record messages { send_approved = send }) k a u w

  -- The node does the same, whatever `set_escalation_level` would do.
  abbrev pub RaisesNoLevel : Node → CoordinationState → Type 0
  RaisesNoLevel k u =
      (raise_level : String → ℤ → Exec (Unit {0})) (a : Option Answer) (w : World)
      → run k a u w
        ≡ run_node platform today (record store { set_escalation_level = raise_level }) crm messages
            k a u w

  -- The node does the same, whatever `create_task` would do.
  abbrev pub CreatesNoTask : Node → CoordinationState → Type 0
  CreatesNoTask k u =
      (create : String → ℕ → Option String → Exec CrmTask) (a : Option Answer) (w : World)
      → run k a u w
        ≡ run_node platform today store (record crm { create_task = create }) messages k a u w

  abbrev pub IsGuarded : Node → CoordinationState → List (Node × Option Answer) → Type 0
  IsGuarded k u trace =
      (ByApproval approve_outbound_message trace ⊎ SendsNothing k u)
      × (ByApproval escalate trace ⊎ RaisesNoLevel k u)
      × (ByApproval escalate trace ⊎ ((k ≡ send_reminders) ⊎ CreatesNoTask k u))

  sends_nothing : (k : Node) (u : CoordinationState) → (k ≡ send_reminder_email) ⊎ SendsNothing k u
  unfolding run_node draft_email draft_unsuppressed approve_email dismiss_email
  sends_nothing send_reminder_email u = inl refl
  sends_nothing _ u = inr (λ send a w. refl)

  raises_no_level : (k : Node) (u : CoordinationState) → (k ≡ notify) ⊎ RaisesNoLevel k u
  unfolding run_node load evaluate draft_texts remind draft_email draft_unsuppressed escalate_node
      queue_call milestones_by_class
  raises_no_level notify u = inl refl
  raises_no_level _ u = inr (λ raise_level a w. refl)

  creates_no_task :
      (k : Node) (u : CoordinationState) → (k ≡ notify) ⊎ ((k ≡ send_reminders) ⊎ CreatesNoTask k u)
  unfolding run_node
  creates_no_task notify u = inl refl
  creates_no_task send_reminders u = inr (inl refl)
  creates_no_task _ u = inr (inr (λ create a w. refl))

  -- In every run of a milestone check, whatever the providers do and whatever else happens between two nodes, the node
  -- that it has come to does not call `send_approved`, unless it comes right after an approving answer
  -- at the gate of the email; does not call `set_escalation_level`, unless right after one at the
  -- escalation gate; and does not call `create_task` either, unless right after that or as the node of the
  -- reminders. Not to call it means to do the same with any other operation in its place. And before its last
  -- node a run passes at most six edges.
  pub check-IsGuarded :
      (s u : CoordinationState) (k : Node) (trace : List (Node × Option Answer))
      → Run run route trace load_txn s k u
      → IsGuarded k u trace × (length trace ≤ 6)
  check-IsGuarded s u k trace r = (
    (
      elim (sends_nothing k u) [ inl e ↦ inl (behind e) | inr quiet ↦ inr quiet ],
      elim (raises_no_level k u) [ inl e ↦ inl (behind e) | inr quiet ↦ inr quiet ],
      elim (creates_no_task k u) [ inl e ↦ inl (behind e) | inr quiet ↦ inr quiet ],
    ),
    omega (arith, length-bounded run route rank (λ n m v x a t. up n m v x a t) r, top k),
  )
    where
      behind : {n : Node} → k ≡ n → IsBehind n trace
      behind e = subst (λ m. IsBehind m trace) e (run-IsBehind s u k trace r)

      up :
          (n m : Node) (v x : CoordinationState) (a : Option Answer)
          → Step run route n v a m x
          → rank n + 1 ≤ rank m
      up n m v x a (step before after e h) = route-rank n m x h

      top : (m : Node) → rank m ≤ 6
      top m = ground arith
