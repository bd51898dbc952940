-- ===== src/Milestones/Queue.antt =====
-- services/milestone_engine.py: the deadline queue over the milestones of many transactions.
pub mod Laws
use Prim.Native.Nat.{compare, Ordering}
use brokerops.Base.{ℕ, String, Bool, true, false, Option, none, some, List, [], ◌∷◌, if◌then◌else◌}
use brokerops.Base.Int.{ℤ}
use brokerops.Base.Dict.{Dict, lookup, insert}
use brokerops.Base.Sort.{sort_by}
use brokerops.Base.Order.{then_by, at_most, compare_ℤ, compare_text}
use brokerops.Models.Milestone.{Milestone, MilestoneType}
use brokerops.Milestones.Engine.{
  MilestoneClass, on_track, due_soon, overdue, blocked_external, MilestoneAssessment,
  assess_milestones,
}

-- `classification in QUEUE_CLASSES`
unfoldable pub in_queue : MilestoneClass → Bool
in_queue overdue = true
in_queue due_soon = true
in_queue blocked_external = true
in_queue on_track = false

-- _SEVERITY_RANK
unfoldable pub severity_rank : MilestoneClass → ℕ
severity_rank overdue = 0
severity_rank due_soon = 1
severity_rank blocked_external = 2
severity_rank on_track = 3

pub record DeadlineItem : Type 0 where
  pub transaction_id : String
  pub milestone_id : String
  pub milestone_type : MilestoneType
  pub title : String
  pub due_date : ℕ
  pub classification : MilestoneClass
  pub days_until_due : ℤ
  pub blocked_reason : Option String

-- The comparison of two `_urgency_key` tuples.
unfoldable pub compare_urgency : DeadlineItem → DeadlineItem → Ordering
unfolding severity_rank
compare_urgency a b =
    then_by (compare (severity_rank a.classification) (severity_rank b.classification)) (
      then_by (compare_ℤ a.days_until_due b.days_until_due) (
        then_by (compare_text a.transaction_id b.transaction_id)
          (compare_text a.milestone_id b.milestone_id)))

abbrev pub at_least_as_urgent : DeadlineItem → DeadlineItem → Bool
at_least_as_urgent a b = at_most (compare_urgency a b)

-- `{m.id: m for m in milestones}`, on top of the rows that are already there.
unfoldable pub by_id : List Milestone → Dict Milestone → Dict Milestone
by_id [] d = d
by_id (m ∷ ms) d = by_id ms (insert m.id m d)

unfoldable pub item_of : Milestone → MilestoneAssessment → DeadlineItem
item_of m a = record {
  transaction_id = m.transaction_id;
  milestone_id = a.milestone_id;
  milestone_type = m.type;
  title = m.title;
  due_date = m.due_date;
  classification = a.classification;
  days_until_due = a.days_until_due;
  blocked_reason = m.blocked_reason;
}

abbrev pub add_item :
    Option Milestone → MilestoneAssessment → Option (List DeadlineItem) → Option (List DeadlineItem)
add_item none a rest = none
add_item (some m) a none = none
add_item (some m) a (some items) = some (item_of m a ∷ items)

-- The list comprehension; `none` is a `KeyError`.
unfoldable pub items_of : Dict Milestone → List MilestoneAssessment → Option (List DeadlineItem)
unfolding in_queue item_of
items_of d [] = some []
items_of d (a ∷ rest) =
    let items = items_of d rest in
    if in_queue a.classification then add_item (lookup a.milestone_id d) a items else items

abbrev pub sorted : Option (List DeadlineItem) → Option (List DeadlineItem)
sorted none = none
sorted (some items) = some (sort_by at_least_as_urgent items)

unfoldable pub build_deadline_queue : List Milestone → ℕ → Option (List DeadlineItem)
unfolding by_id items_of compare_urgency
build_deadline_queue ms today = sorted (items_of (by_id ms []) (assess_milestones ms today))
