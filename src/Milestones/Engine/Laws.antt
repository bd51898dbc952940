-- ===== src/Milestones/Engine/Laws.antt =====
-- What the assessment and the reminder rule of services/milestone_engine.py guarantee.

use brokerops.Base.{
  ℕ, ◌≤◌, ◌+◌, ◌≡◌, ◌⊎◌, inl, inr, refl, true, false, List, [], ◌∷◌, arith, if◌then◌else◌,
}
use brokerops.Base.Lists.{All, any}
use brokerops.Models.Milestone.{Milestone}
use brokerops.Milestones.Engine.{
  MilestoneClass, on_track, due_soon, overdue, blocked_external, class_eq, MilestoneAssessment,
  assess_milestone, worst_in, worst_classification, has_reason,
}
use brokerops.Milestones.Queue.{severity_rank}

-- The class and the number of days of one assessment.
abbrev pub AssessedAs : Milestone → ℕ → MilestoneClass → Type 0
AssessedAs m today blocked_external = has_reason m.blocked_reason ≡ true
AssessedAs m today overdue = (has_reason m.blocked_reason ≡ false) × (m.due_date + 1 ≤ today)
AssessedAs m today due_soon =
    (has_reason m.blocked_reason ≡ false) × (today ≤ m.due_date) × (m.due_date ≤ today + 3)
AssessedAs m today on_track = (has_reason m.blocked_reason ≡ false) × (today + 4 ≤ m.due_date)

-- A milestone with a blocking reason is assessed as blocked; of the others, one whose due date has
-- passed is overdue, one due today or within three days is due soon, and one due later is on track.
pub assess_milestone_lem :
    (today : ℕ) (m : Milestone) → AssessedAs m today (assess_milestone today m).classification
unfolding assess_milestone
assess_milestone_lem today m = ground arith

-- Some assessment of the list has the class.
abbrev pub Present : MilestoneClass → List MilestoneAssessment → Type 0
Present c [] = ⊥
Present c (a ∷ rest) = (a.classification ≡ c) ⊎ Present c rest

NoneOf : MilestoneClass → List MilestoneAssessment → Type 0
NoneOf c assessments =
    All (λ (a : MilestoneAssessment). class_eq a.classification c ≡ false) assessments

Present-cases :
    (c : MilestoneClass) (assessments : List MilestoneAssessment)
    → ((any (λ (a : MilestoneAssessment). class_eq a.classification c) assessments ≡ true)
        × Present c assessments)
      ⊎ ((any (λ (a : MilestoneAssessment). class_eq a.classification c) assessments ≡ false)
          × NoneOf c assessments)
unfolding class_eq NoneOf
Present-cases c [] = inr (refl, tt)
Present-cases c (a ∷ rest) = ground (arith, Present-cases c rest)

-- No assessment of the list is more severe than the class.
abbrev pub NoneWorse : MilestoneClass → List MilestoneAssessment → Type 0
NoneWorse c assessments =
    All (λ (a : MilestoneAssessment). severity_rank c ≤ severity_rank a.classification) assessments

NoneWorse-overdue : (assessments : List MilestoneAssessment) → NoneWorse overdue assessments
unfolding severity_rank
NoneWorse-overdue [] = tt
NoneWorse-overdue (a ∷ rest) = (ground arith, NoneWorse-overdue rest)

-- A class that no assessment has can be skipped: the next one in the order still bounds them all.
NoneWorse-next :
    (c d : MilestoneClass) (assessments : List MilestoneAssessment)
    → severity_rank d ≡ severity_rank c + 1
    → NoneWorse c assessments
    → NoneOf c assessments
    → NoneWorse d assessments
unfolding NoneOf class_eq severity_rank
NoneWorse-next c d [] e h n = tt
NoneWorse-next c d (a ∷ rest) e h n = (ground (arith, h.0, n.0), NoneWorse-next c d rest e h.1 n.1)

abbrev pub IsWorst : MilestoneClass → List MilestoneAssessment → Type 0
IsWorst c assessments =
    NoneWorse c assessments × (Present c assessments ⊎ ((assessments ≡ []) × (c ≡ on_track)))

none_left :
    (assessments : List MilestoneAssessment)
    → NoneWorse on_track assessments
    → NoneOf on_track assessments
    → IsWorst on_track assessments
unfolding NoneOf class_eq severity_rank
none_left [] h n = (tt, inr (refl, refl))
none_left (a ∷ rest) h n = ground arith

-- One step of the loop over the severity order.
IsWorst-step :
    (c : MilestoneClass) (assessments : List MilestoneAssessment) (later : MilestoneClass)
    → NoneWorse c assessments
    → (NoneOf c assessments → IsWorst later assessments)
    → IsWorst
        (if any (λ (a : MilestoneAssessment). class_eq a.classification c) assessments
          then c
          else later)
        assessments
IsWorst-step c assessments later h next = elim (Present-cases c assessments) [
  | inl (e, p) ↦ rw e (h, inl p)
  | inr (e, n) ↦ rw e (next n)
]

-- No assessment is more severe than the class that the workflow routes on, and some assessment has that
-- class, unless there is no assessment, when it is `on_track`.
pub worst_classification-IsWorst :
    (assessments : List MilestoneAssessment)
    → IsWorst (worst_classification assessments) assessments
unfolding worst_classification worst_in severity_rank
worst_classification-IsWorst xs =
    let h0 = NoneWorse-overdue xs in
    IsWorst-step overdue xs _ h0 λ n0.
      let h1 = NoneWorse-next overdue due_soon xs refl h0 n0 in
      IsWorst-step due_soon xs _ h1 λ n1.
        let h2 = NoneWorse-next due_soon blocked_external xs refl h1 n1 in
        IsWorst-step blocked_external xs _ h2 λ n2.
          let h3 = NoneWorse-next blocked_external on_track xs refl h2 n2 in
          IsWorst-step on_track xs _ h3 λ n3. none_left xs h3 n3
