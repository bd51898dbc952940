-- ===== src/Tests/Milestones.antt =====
-- The milestone theorems at concrete dates.
use Prim.Native.String.{count}
use mathlib.Core.List.{Perm}
use brokerops.Base.{
  eq_iff, ◌≤◌, ◌+◌, String, ◌&&◌, ◌≡◌, refl, false, leb, none, some, List, [], ◌∷◌, arith,
}
use brokerops.Base.Lists.{All}
use brokerops.Base.Sort.{IsSortedBy}
use brokerops.Models.Milestone.{Milestone}
use brokerops.Milestones.Engine.{
  plan_reminder_email, assess_milestone, assess_milestones, worst_classification,
}
use brokerops.Milestones.Engine.Laws.{
  AssessedAs, assess_milestone_lem, IsWorst, worst_classification-IsWorst,
}
use brokerops.Milestones.Queue.{DeadlineItem, at_least_as_urgent, build_deadline_queue}
use brokerops.Milestones.Queue.Laws.{
  HaveDistinctIds, expected_items, build_deadline_queue-IsSortedBy, build_deadline_queue-perm,
}
use brokerops.Milestones.Schedule.{default_timeline, generate_milestones}
use brokerops.Milestones.Opening.{opened, build_open_transaction}
use brokerops.Milestones.Opening.Laws.{
  NotAfter, IsInWindow, is_ok, build_open_transaction-IsInWindow, build_open_transaction-default,
}
use brokerops.Milestones.Engine.Reminder.{IsPlanned, plan_reminder_email-IsPlanned}
use brokerops.Base.Int.{ℤ, pos}
use brokerops.Base.Text.{decimal}
use brokerops.Models.Transaction.{Transaction}
use brokerops.Tests.Data.{milestone, transaction}

assess_milestone_lem_example :
    AssessedAs milestone 98 (assess_milestone 98 milestone).classification
assess_milestone_lem_example = assess_milestone_lem 98 milestone

abbrev later : Milestone
later = record milestone { id = "T1-MS02-APP"; due_date = 99 }

abbrev two : List Milestone
two = milestone ∷ later ∷ []

worst_classification-IsWorst_example :
    IsWorst (worst_classification (assess_milestones two 98)) (assess_milestones two 98)
worst_classification-IsWorst_example = worst_classification-IsWorst (assess_milestones two 98)

build_deadline_queue-IsSortedBy_example :
    (items : List DeadlineItem) × (build_deadline_queue two 98 ≡ some items)
    × IsSortedBy at_least_as_urgent items
build_deadline_queue-IsSortedBy_example = build_deadline_queue-IsSortedBy two 98

two_differ : HaveDistinctIds two
two_differ = ((λ e. ground (arith, eq_iff "T1-MS02-APP" "T1-MS01-INS"), tt), (tt, tt))

build_deadline_queue-perm_example :
    (items : List DeadlineItem) × (build_deadline_queue two 98 ≡ some items)
    × Perm items (expected_items two 98)
build_deadline_queue-perm_example = build_deadline_queue-perm two 98 two_differ

abbrev no_digest : String → String
no_digest s = s

build_open_transaction-IsInWindow_example :
    (count "L1" ≤ 36) × NotAfter 100 (some 150) × All (IsInWindow 100 (some 150)) []
unfolding build_open_transaction generate_milestones
build_open_transaction-IsInWindow_example =
    build_open_transaction-IsInWindow no_digest "L1" 100 (some 150) [] []
      (opened no_digest "L1" 100 (some 150) []) [] refl

build_open_transaction-default_example :
    (is_ok (build_open_transaction no_digest "L1" 100 (some 150) [] default_timeline)
      ≡ (leb (count "L1") 36 && leb (100 + 21) 150))
    × (is_ok (build_open_transaction no_digest "L1" 100 none [] default_timeline) ≡ false)
build_open_transaction-default_example =
    build_open_transaction-default no_digest "L1" 100 150 [] (omega arith, omega arith)
      (omega arith, omega arith)

abbrev owned : Transaction
owned = record transaction {
  parties =
      record { role = "buyer"; name = "Ann"; contact_id = none; email = "ann@example.com" } ∷ [];
}

abbrev pairs : List (Milestone × ℤ)
pairs = (record milestone { owner = "Bob" }, pos 1) ∷ (milestone, pos 2) ∷ []

plan_reminder_email-IsPlanned_example :
    IsPlanned decimal owned pairs (plan_reminder_email decimal owned pairs)
plan_reminder_email-IsPlanned_example = plan_reminder_email-IsPlanned decimal owned pairs
