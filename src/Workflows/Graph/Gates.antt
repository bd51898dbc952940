-- ===== src/Workflows/Graph/Gates.antt =====
-- Gates of a graph: the answer that lets a run on.
use brokerops.Base.{◌≡◌, refl, Option, none, some, List, [], ◌∷◌, arith}
use brokerops.Models.Records.{ApprovalStatus, approval_status_eq}
use brokerops.World.{ok}
use brokerops.Workflows.Graph.{Answer, ApprovalOutcome, outcome_of, by_decision}

-- An answer that approves.
abbrev pub IsApproval : Option Answer → Type 0
IsApproval none = ⊥
IsApproval (some a) = a.decision ≡ ApprovalStatus.approved

-- The run came to here from a gate, by an answer that approves.
abbrev pub ByApproval : {N : Type 0} → N → List (N × Option Answer) → Type 0
ByApproval gate [] = ⊥
ByApproval gate ((n, a) ∷ trace) = (n ≡ gate) × IsApproval a

-- What a gate leaves in the state, once it has let the run on.
abbrev pub HasOutcome : Option Answer → Option ApprovalOutcome → Type 0
HasOutcome a o = (answer : Answer) × (a ≡ some answer) × (o ≡ some (outcome_of answer))

pub approves :
    {N : Type 0} (a : Option Answer) (o : Option ApprovalOutcome) {yes_node no_node : N}
    → HasOutcome a o
    → by_decision o yes_node no_node ≡ ok (some yes_node)
    → (yes_node ≡ no_node → ⊥)
    → IsApproval a
unfolding by_decision outcome_of approval_status_eq
approves a o (answer, e, f) h other = rw e (go answer.decision refl)
  where
    go : (d : ApprovalStatus) → answer.decision ≡ d → d ≡ ApprovalStatus.approved
    go d k = ground (arith, e, f, h, k, other)
