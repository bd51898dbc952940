-- ===== src/Milestones/Opening/Laws.antt =====
-- What services/transaction_open.py guarantees of a transaction that it opens.

use Prim.Native.String.{count}
use brokerops.Base.{
  ℕ, ◌≤◌, ◌+◌, ◌≡◌, String, true, false, Bool, ◌&&◌, Option, none, some, List, [], ◌∷◌, arith, leb,
  ltb, Bool-cases, inl, inr,
}
use brokerops.Base.Lists.{All, any}
use brokerops.Models.Transaction.{Transaction, TransactionParty}
use brokerops.Models.Milestone.{Milestone, MilestoneTemplate}
use brokerops.World.{Result, ok, err, value_error}
use brokerops.World.Pure.{raise_when, ◌>>=◌, ◌>>◌}
use brokerops.Milestones.Dates.{add_days, sub_days, IsDate}
use brokerops.Milestones.Schedule.{
  default_timeline, due_date, milestone_at, milestones_from, generate_milestones,
}
use brokerops.Milestones.Opening.{
  opened, outside, build_open_transaction, listing_key_max_length, sooner_than,
}

-- Not after the date, when there is one.
abbrev pub NotAfter : ℕ → Option ℕ → Type 0
NotAfter d none = Unit
NotAfter d (some limit) = d ≤ limit

-- Due between the contract and the close.
abbrev pub IsInWindow : ℕ → Option ℕ → Milestone → Type 0
IsInWindow contract close m = (contract ≤ m.due_date) × NotAfter m.due_date close

inside-All :
    (contract : ℕ) (close : Option ℕ) (ms : List Milestone)
    → any (outside contract close) ms ≡ false
    → All (IsInWindow contract close) ms
unfolding outside
inside-All contract close [] h = tt
inside-All contract none (m ∷ ms) h = ground (arith, inside-All contract none ms)
inside-All contract (some c) (m ∷ ms) h = ground (arith, inside-All contract (some c) ms)

-- The last check, and the answer.
abbrev checked : ℕ → Option ℕ → Transaction → List Milestone → Result (Transaction × List Milestone)
checked contract close t0 rows =
    raise_when (any (outside contract close) rows) value_error >> ok (t0, rows)

-- The three checks, when all of them passed.
checks-eq_ok :
    (contract : ℕ) (close : Option ℕ) (t0 : Transaction) (b0 b1 : Bool)
    (g : Result (List Milestone)) (t : Transaction) (ms : List Milestone)
    → (raise_when b0 value_error >> raise_when b1 value_error >> (g >>= checked contract close t0))
      ≡ ok (t, ms)
    → (b0 ≡ false) × (b1 ≡ false) × All (IsInWindow contract close) ms
checks-eq_ok contract close t0 true b1 g t ms h = cc
checks-eq_ok contract close t0 false true g t ms h = cc
checks-eq_ok contract close t0 false false (err e) t ms h = cc
checks-eq_ok contract close t0 false false (ok rows) t ms h =
    elim (Bool-cases (any (outside contract close) rows)) [
      | inl e ↦ ground arith
      | inr e ↦ ground (arith, inside-All contract close rows e)
    ]

not_sooner :
    (contract : ℕ) (close : Option ℕ) → sooner_than close contract ≡ false → NotAfter contract close
not_sooner contract none h = tt
not_sooner contract (some c) h = ground arith

abbrev pub is_ok : {A : Type 0} → Result A → Bool
is_ok (ok a) = true
is_ok (err e) = false

-- Whatever the template: when a transaction is opened, its key has at most 36 characters, its close is
-- not before its contract, and each of its milestones is due between the two.
pub build_open_transaction-IsInWindow :
    (text_digest : String → String) (key : String) (contract : ℕ) (close : Option ℕ)
    (parties : List TransactionParty) (template : List MilestoneTemplate) (t : Transaction)
    (ms : List Milestone)
    → build_open_transaction text_digest key contract close parties template ≡ ok (t, ms)
    → (count key ≤ 36) × NotAfter contract close × All (IsInWindow contract close) ms
unfolding build_open_transaction
build_open_transaction-IsInWindow text_digest key contract close parties template t ms h =
    let t0 = opened text_digest key contract close parties in
    let (short, ordered, window) =
      checks-eq_ok contract close t0 (ltb listing_key_max_length (count key))
        (sooner_than close contract) (generate_milestones t0 template) t ms h in
    (ground (arith, short), not_sooner contract close ordered, window)

-- A transaction on the default timeline, both dates being dates of the calendar, is opened exactly when
-- its key has at most 36 characters and its close is at least 21 days after its contract. Without a close
-- date it is never opened.
pub build_open_transaction-default :
    (text_digest : String → String) (key : String) (contract close : ℕ)
    (parties : List TransactionParty)
    → IsDate contract
    → IsDate close
    → (is_ok (build_open_transaction text_digest key contract (some close) parties default_timeline)
        ≡ (leb (count key) 36 && leb (contract + 21) close))
      × (is_ok (build_open_transaction text_digest key contract none parties default_timeline)
          ≡ false)
unfolding build_open_transaction generate_milestones milestones_from due_date add_days sub_days
    outside opened milestone_at
build_open_transaction-default text_digest key contract close parties h hc =
    (ground arith, ground arith)
