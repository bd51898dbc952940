-- ===== src/Workflows/Contract/Safe.antt =====
-- The gate of the marketing graph, its length, and the listing that is gone.
use brokerops.Base.{
  ℕ, ◌+◌, ◌≤◌, ◌≡◌, refl, ap, Option, none, some, List, ◌∷◌, arith, String, ◌⊎◌, inl, inr,
}
use mathlib.Core.Path.{subst}
use brokerops.Base.Lists.{length}
use brokerops.Models.Contact.{CrmTask}
use brokerops.Models.Listing.{Listing, MarketingDraft, MlsPort}
use brokerops.World.{World, Exec, Result, ok, err, assertion_error, pure, ◌>>=◌}
use brokerops.Ports.{CrmPort}
use brokerops.Workflows.Graph.{
  Answer, Progress, updated, by_decision, Step, step, Run, here, next, length-bounded,
}
use brokerops.Workflows.Graph.Gates.{ByApproval, HasOutcome, approves}
use brokerops.Workflows.Contract.{
  ContractState, not_found, Node, take_in, make_draft, approve_marketing, publish_tasks,
  handle_rejection, run_node, route, after_intake, approve_draft, draft_node, drafted_for,
}

abbrev pub rank : Node → ℕ
rank take_in = 0
rank make_draft = 1
rank approve_marketing = 2
rank publish_tasks = 3
rank handle_rejection = 3

route-rank : (n m : Node) (s : ContractState) → route n s ≡ ok (some m) → rank n + 1 ≤ rank m
unfolding route by_decision after_intake
route-rank n m s h = ground arith

-- The tasks are published on behalf of the gate.
abbrev pub IsBehind : Node → List (Node × Option Answer) → Type 0
IsBehind publish_tasks trace = ByApproval approve_marketing trace
IsBehind _ trace = Unit {0}

module _ (today : ℕ → ℕ) (mls : MlsPort) (crm : CrmPort) where
  abbrev pub run : Node → Option Answer → ContractState → Exec (Progress ContractState)
  run = run_node today mls crm

  approved-HasOutcome :
      (a : Option Answer) (s v : ContractState) (d : Option MarketingDraft) (w : World)
      → (approve_draft a s d w).0 ≡ ok (updated v)
      → HasOutcome a v.approval
  unfolding approve_draft
  approved-HasOutcome a s v none w h = ground arith
  approved-HasOutcome none s v (some d) w h = ground arith
  approved-HasOutcome (some a) s v (some d) w h = ground arith

  step-IsBehind :
      (n k : Node) (s v : ContractState) (a : Option Answer) (trace : List (Node × Option Answer))
      → Step run route n s a k v
      → IsBehind k ((n, a) ∷ trace)
  unfolding run_node route after_intake
  step-IsBehind approve_marketing publish_tasks s v a trace (step before after e h) = (
    refl,
    approves a v.approval (approved-HasOutcome a s v s.draft before (ap (λ x. x.0) e)) h
        (λ p. ground arith),
  )
  step-IsBehind n publish_tasks s v a trace (step before after e h) = ground arith
  step-IsBehind _ _ s v a trace (step before after e h) = tt

  run-IsBehind :
      (s v : ContractState) (k : Node) (trace : List (Node × Option Answer))
      → Run run route trace take_in s k v
      → IsBehind k trace
  run-IsBehind s v k trace here = tt
  run-IsBehind s v k ((m, a) ∷ trace) (next r t) = step-IsBehind m k _ v a trace t

  -- The node does the same, whatever `create_task` would do: it does not call it.
  abbrev pub CreatesNoTask : Node → ContractState → Type 0
  CreatesNoTask k u =
      (create : String → ℕ → Option String → Exec CrmTask) (a : Option Answer) (w : World)
      → run k a u w ≡ run_node today mls (record crm { create_task = create }) k a u w

  creates_no_task : (k : Node) (u : ContractState) → (k ≡ publish_tasks) ⊎ CreatesNoTask k u
  unfolding run_node
  creates_no_task publish_tasks u = inl refl
  creates_no_task _ u = inr (λ create a w. refl)

  -- In every run for a listing, whatever the providers do and whatever else happens between two nodes, the node that it
  -- has come to does not call `create_task`, unless it comes right after an approving answer at the
  -- marketing gate. Not to call it means to do the same with any other operation in its place. And before its last
  -- node a run passes at most three edges.
  pub listing-IsGuarded :
      (s u : ContractState) (k : Node) (trace : List (Node × Option Answer))
      → Run run route trace take_in s k u
      → (ByApproval approve_marketing trace ⊎ CreatesNoTask k u) × (length trace ≤ 3)
  listing-IsGuarded s u k trace r = (
    elim (creates_no_task k u) [
      | inl e ↦ inl (subst (λ m. IsBehind m trace) e (run-IsBehind s u k trace r))
      | inr quiet ↦ inr quiet
    ],
    omega (arith, length-bounded run route rank (λ n m v x a t. up n m v x a t) r, top k),
  )
    where
      up :
          (n m : Node) (v x : ContractState) (a : Option Answer)
          → Step run route n v a m x
          → rank n + 1 ≤ rank m
      up n m v x a (step before after e h) = route-rank n m x h

      top : (m : Node) → rank m ≤ 3
      top m = ground arith

  -- A listing that is gone when its draft is made: the run records that it was not found and goes on to the gate all
  -- the same, where it raises an AssertionError, in any world and with any answer. Before that the
  -- run had no draft.
  pub vanished-raises :
      (s : ContractState) (a answer : Option Answer) (w w' later : World)
      → s.draft ≡ none
      → mls.get_listing s.listing_key w ≡ (ok none, w')
      → (run make_draft a s w ≡ (ok (updated (record s { stage = not_found })), w'))
        × (route make_draft (record s { stage = not_found }) ≡ ok (some approve_marketing))
        × (run approve_marketing answer (record s { stage = not_found }) later
            ≡ (err assertion_error, later))
  unfolding run_node draft_node drafted_for route approve_draft
  vanished-raises s a answer w w' later empty gone = (
    ap
        (λ (r : Result (Option Listing) × World).
          ((λ (_ : World). r) >>= λ l. pure (updated (drafted_for s l))) w)
        gone,
    refl,
    rw empty refl,
  )
