-- ===== src/Workflows/Graph.antt =====
-- The runs of a graph of nodes, as the graphs of orchestration/langgraph declare it: a node updates the state or
-- waits at its gate, and the edge out of it is chosen by the updated state. Between two nodes, and while a
-- run waits, the shared state may become any other.
pub mod Gates
use brokerops.Base.{
  ℕ, ◌+◌, ◌≤◌, String, ◌≡◌, Option, none, some, List, [], ◌∷◌, if◌then◌else◌, arith,
}
use brokerops.Base.Lists.{length}
use brokerops.Models.Json.{Json}
use brokerops.Models.Listing.{MarketingDraft}
use brokerops.Models.Records.{ApprovalStatus, approval_status_eq}
use brokerops.World.{World, Exec, Result, ok, err, assertion_error}
use brokerops.Comms.Drafting.{EditedPayload}

-- The resume value of a gate, as the engine makes it of a decision. The edited payload has the texts of a
-- message, or a marketing draft.
pub record Answer : Type 0 where
  pub decision : ApprovalStatus
  pub decided_by : String
  pub edited_payload : Option EditedPayload
  pub edited_draft : Option MarketingDraft

-- ApprovalOutcome of models/workflow_state.py
pub record ApprovalOutcome : Type 0 where
  pub decision : ApprovalStatus
  pub decided_by : String

-- `ApprovalOutcome.model_validate(decision)`
unfoldable pub outcome_of : Answer → ApprovalOutcome
outcome_of a = record { decision = a.decision; decided_by = a.decided_by }

pub data Progress (S : Type 0) : Type 0 where
  updated : S → Progress S
  waits : Json → Progress S

-- `decision.value == "approved"`, with the `assert` that there is a decision.
unfoldable pub by_decision : {N : Type 0} → Option ApprovalOutcome → N → N → Result (Option N)
unfolding approval_status_eq
by_decision none chosen other = err assertion_error
by_decision (some o) chosen other =
    ok (some (if approval_status_eq o.decision ApprovalStatus.approved then chosen else other))

module _ {N S : Type 0} (node : N → Option Answer → S → Exec (Progress S))
    (route : N → S → Result (Option N)) where
  -- One node and one edge.
  pub data Step : N → S → Option Answer → N → S → Type 0 where
    step :
        {n m : N} {s v : S} {a : Option Answer} (before after : World)
        → node n a s before ≡ (ok (updated v), after)
        → route n v ≡ ok (some m)
        → Step n s a m v

  -- The nodes that a run went through, the last one first, with the answers they were given.
  pub data Run : List (N × Option Answer) → N → S → N → S → Type 0 where
    here : {n : N} {s : S} → Run [] n s n s
    next :
        {n m k : N} {s u v : S} {a : Option Answer} {trace : List (N × Option Answer)}
        → Run trace n s m u
        → Step m u a k v
        → Run ((m, a) ∷ trace) n s k v

  -- A rank that every step raises bounds the run.
  pub length-bounded :
      (rank : N → ℕ)
      → ((n m : N) (s v : S) (a : Option Answer) → Step n s a m v → rank n + 1 ≤ rank m)
      → {trace : List (N × Option Answer)} {n m : N} {s v : S} → Run trace n s m v
      → length trace + rank n ≤ rank m
  length-bounded rank up here = omega arith
  length-bounded rank up (next r s) = omega (arith, length-bounded rank up r, up _ _ _ _ _ s)
