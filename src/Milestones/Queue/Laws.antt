-- ===== src/Milestones/Queue/Laws.antt =====
-- What the deadline queue of services/milestone_engine.py guarantees.
use mathlib.Core.List.{Perm}
use brokerops.Base.{
  ℕ, ◌≡◌, ◌≢◌, ◌∙◌, ap, refl, true, String, Bool, ◌&&◌, Option, none, some, List, [], ◌∷◌, map,
  arith, is_some,
}
use brokerops.Base.Lists.{All, keep}
use brokerops.Base.Dict.{Dict, lookup, insert, lookup-insert, lookup-insert_ne, lookup-insert_self}
use brokerops.Base.Sort.{sort_by, sort_by-perm, sort_by-IsSortedBy, IsSortedBy}
use brokerops.Base.Order.{
  IsComparison, then_by-IsComparison, comparison-IsOrder, by_key-IsComparison, compare-IsComparison,
  compare_ℤ, compare_ℤ-IsComparison, compare_text, compare_text-IsComparison,
}
use Prim.Native.Nat.{compare}
use brokerops.Models.Milestone.{Milestone, is_pending}
use brokerops.Milestones.Engine.{assess_milestone, assess_milestones}
use brokerops.Milestones.Queue.{
  in_queue, severity_rank, DeadlineItem, compare_urgency, at_least_as_urgent, by_id, item_of,
  items_of, build_deadline_queue, sorted,
}

urgency-IsComparison : IsComparison compare_urgency
unfolding compare_urgency
urgency-IsComparison =
    then_by-IsComparison _ _
      (by_key-IsComparison (λ (a : DeadlineItem). severity_rank a.classification) compare
        compare-IsComparison)
      (then_by-IsComparison _ _
        (by_key-IsComparison (λ (a : DeadlineItem). a.days_until_due) compare_ℤ
          compare_ℤ-IsComparison)
        (then_by-IsComparison _ _
          (by_key-IsComparison (λ (a : DeadlineItem). a.transaction_id) compare_text
            compare_text-IsComparison)
          (by_key-IsComparison (λ (a : DeadlineItem). a.milestone_id) compare_text
            compare_text-IsComparison)))

-- A key stays in the index.
by_id-stays :
    (k : String) (ms : List Milestone) (d : Dict Milestone)
    → is_some (lookup k d) ≡ true
    → is_some (lookup k (by_id ms d)) ≡ true
unfolding by_id
by_id-stays k [] d h = h
by_id-stays k (m ∷ ms) d h =
    by_id-stays k ms (insert m.id m d) (ground (arith, lookup-insert m.id k m d))

-- Every milestone's id is in the index.
by_id-has :
    (ms : List Milestone) (d : Dict Milestone)
    → All (λ (m : Milestone). is_some (lookup m.id (by_id ms d)) ≡ true) ms
unfolding by_id
by_id-has [] d = tt
by_id-has (m ∷ ms) d = (
  by_id-stays m.id ms (insert m.id m d) (ground (arith, lookup-insert_self m.id m d)),
  by_id-has ms (insert m.id m d),
)

items_of-returns :
    (d : Dict Milestone) (today : ℕ) (ms : List Milestone)
    → All (λ (m : Milestone). is_some (lookup m.id d) ≡ true) ms
    → is_some (items_of d (assess_milestones ms today)) ≡ true
unfolding items_of assess_milestones assess_milestone
items_of-returns d today [] h = refl
items_of-returns d today (m ∷ ms) h = ground (arith, h.0, items_of-returns d today ms h.1)

-- For all milestones, also when ids repeat: building the queue raises no `KeyError`, and each item of it
-- is at least as urgent as all that follow, by severity, days left and the two ids.
pub build_deadline_queue-IsSortedBy :
    (ms : List Milestone) (today : ℕ)
    → (items : List DeadlineItem) × (build_deadline_queue ms today ≡ some items)
      × IsSortedBy at_least_as_urgent items
unfolding build_deadline_queue
build_deadline_queue-IsSortedBy ms today =
    go (items_of (by_id ms []) (assess_milestones ms today))
      (items_of-returns (by_id ms []) today ms (by_id-has ms []))
  where
    go :
        (r : Option (List DeadlineItem))
        → is_some r ≡ true
        → (items : List DeadlineItem) × (sorted r ≡ some items)
          × IsSortedBy at_least_as_urgent items
    go none h = cc
    go (some items) h = (
      sort_by at_least_as_urgent items,
      refl,
      sort_by-IsSortedBy at_least_as_urgent
          (comparison-IsOrder compare_urgency urgency-IsComparison) items,
    )

-- The ids of the milestones are different.
abbrev pub HaveDistinctIds : List Milestone → Type 0
HaveDistinctIds [] = Unit
HaveDistinctIds (m ∷ ms) = All (λ (n : Milestone). n.id ≢ m.id) ms × HaveDistinctIds ms

by_id-keeps :
    (k : String) (ms : List Milestone) (d : Dict Milestone)
    → All (λ (n : Milestone). n.id ≢ k) ms
    → lookup k (by_id ms d) ≡ lookup k d
unfolding by_id
by_id-keeps k [] d h = refl
by_id-keeps k (m ∷ ms) d h =
    by_id-keeps k ms (insert m.id m d) h.1 ∙ lookup-insert_ne m.id k m d h.0

by_id-finds :
    (ms : List Milestone) (d : Dict Milestone)
    → HaveDistinctIds ms
    → All (λ (m : Milestone). lookup m.id (by_id ms d) ≡ some m) ms
unfolding by_id
by_id-finds [] d h = tt
by_id-finds (m ∷ ms) d h = (
  by_id-keeps m.id ms (insert m.id m d) h.0 ∙ lookup-insert_self m.id m d,
  by_id-finds ms (insert m.id m d) h.1,
)

-- Pending, and of a class that belongs on the queue.
abbrev pub needs_attention : ℕ → Milestone → Bool
needs_attention today m = is_pending m.status && in_queue (assess_milestone today m).classification

-- The rows that the queue has to hold, in the order of the milestones.
abbrev pub expected_items : List Milestone → ℕ → List DeadlineItem
expected_items ms today =
    map (λ (m : Milestone). item_of m (assess_milestone today m)) (keep (needs_attention today) ms)

items_of-expected :
    (d : Dict Milestone) (today : ℕ) (ms : List Milestone)
    → All (λ (m : Milestone). lookup m.id d ≡ some m) ms
    → items_of d (assess_milestones ms today) ≡ some (expected_items ms today)
unfolding items_of assess_milestones assess_milestone
items_of-expected d today [] h = refl
items_of-expected d today (m ∷ ms) h = ground (arith, h.0, items_of-expected d today ms h.1)

-- When the ids are different, the queue holds exactly the pending milestones that are overdue, due soon
-- or blocked, each once with its own milestone's data and assessment.
pub build_deadline_queue-perm :
    (ms : List Milestone) (today : ℕ)
    → HaveDistinctIds ms
    → (items : List DeadlineItem) × (build_deadline_queue ms today ≡ some items)
      × Perm items (expected_items ms today)
unfolding build_deadline_queue
build_deadline_queue-perm ms today h = (
  sort_by at_least_as_urgent (expected_items ms today),
  ap sorted (items_of-expected (by_id ms []) today ms (by_id-finds ms [] h)),
  sort_by-perm at_least_as_urgent (expected_items ms today),
)
