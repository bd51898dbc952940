-- ===== src/Milestones/Engine.antt =====
-- services/milestone_engine.py: the assessment of milestones and the reminder rules.
pub mod Laws
pub mod Reminder
use brokerops.Base.{
  ℕ, String, Bool, true, false, ◌||◌, ◌&&◌, Option, none, some, List, [], ◌∷◌, map, ◌==◌, is_some,
  truthy, or_else, if◌then◌else◌,
}
use brokerops.Base.Int.{ℤ, pos, ltb_ℤ, leb_ℤ}
use brokerops.Base.Lists.{keep, first, any}
use brokerops.Base.Dict.{Dict}
use brokerops.Base.Sort.{sort_by}
use brokerops.Models.Transaction.{Transaction, TransactionParty}
use brokerops.Models.Milestone.{Milestone, is_pending, Document, kind_eq, DocumentKind}
use brokerops.Models.Message.{MessageChannel}
use brokerops.Models.Drafting.{DraftContext}
use brokerops.Milestones.Dates.{days_between}

abbrev pub due_soon_days : ℤ
due_soon_days = pos 3

pub data MilestoneClass : Type 0 where
  on_track due_soon overdue blocked_external : MilestoneClass

unfoldable pub class_eq : MilestoneClass → MilestoneClass → Bool
class_eq on_track on_track = true
class_eq due_soon due_soon = true
class_eq overdue overdue = true
class_eq blocked_external blocked_external = true
class_eq _ _ = false

-- SEVERITY_ORDER
abbrev pub severity_order : List MilestoneClass
severity_order = overdue ∷ due_soon ∷ blocked_external ∷ on_track ∷ []

pub record MilestoneAssessment : Type 0 where
  pub milestone_id : String
  pub classification : MilestoneClass
  pub days_until_due : ℤ

-- A reason that is there and not empty.
unfoldable pub has_reason : Option String → Bool
has_reason none = false
has_reason (some s) = truthy s

unfoldable pub classify : Option String → ℤ → MilestoneClass
unfolding has_reason
classify reason days =
    if has_reason reason
    then blocked_external
    else if ltb_ℤ days (pos 0)
    then overdue
    else if leb_ℤ days due_soon_days
    then due_soon
    else on_track

unfoldable pub assess_milestone : ℕ → Milestone → MilestoneAssessment
unfolding classify days_between
assess_milestone today m = record {
  milestone_id = m.id;
  classification = classify m.blocked_reason (days_between m.due_date today);
  days_until_due = days_between m.due_date today;
}

unfoldable pub assess_milestones : List Milestone → ℕ → List MilestoneAssessment
unfolding assess_milestone is_pending
assess_milestones ms today =
    map (assess_milestone today) (keep (λ (m : Milestone). is_pending m.status) ms)

unfoldable pub worst_in : List MilestoneClass → List MilestoneAssessment → MilestoneClass
unfolding class_eq
worst_in [] assessments = on_track
worst_in (c ∷ cs) assessments =
    if any (λ (a : MilestoneAssessment). class_eq a.classification c) assessments
    then c
    else worst_in cs assessments

unfoldable pub worst_classification : List MilestoneAssessment → MilestoneClass
unfolding worst_in
worst_classification assessments = worst_in severity_order assessments

unfoldable pub proves : Milestone → DocumentKind → Document → Bool
unfolding kind_eq
proves m expected d =
    kind_eq d.kind expected && (elim d.milestone_id [ none ↦ true | some id ↦ id == m.id ])

-- `None` when the milestone expects no document.
unfoldable pub expected_document_satisfied : Milestone → List Document → Option Bool
unfolding proves
expected_document_satisfied m documents = elim m.expected_document [
  | none ↦ none
  | some kind ↦ some (any (proves m kind) documents)
]

abbrev pub sender_name : String
sender_name = "The Brokerage Team"

-- The party that owns the milestone and has an email on file.
unfoldable pub reachable_owner : Transaction → Milestone → Option TransactionParty
reachable_owner txn m =
    first (λ (p : TransactionParty). truthy p.name && p.name == m.owner && truthy p.email)
      txn.parties

unfoldable pub soonest_first : Milestone × ℤ → Milestone × ℤ → Bool
soonest_first a b = leb_ℤ a.1 b.1

-- `party.contact_id or ""`
abbrev pub or_empty : Option String → String
or_empty none = ""
or_empty (some s) = s

module _ (iso_date : ℕ → String) where
  unfoldable pub reminder_context : Transaction → Milestone → TransactionParty → DraftContext
  reminder_context txn m party = record {
    channel = MessageChannel.email;
    recipient = party.email;
    template_ref = "milestone_reminder:v1";
    params =
        ("recipient_name", party.name)
        ∷ ("milestone_title", m.title)
        ∷ ("listing_address", txn.listing_key)
        ∷ ("due_date", iso_date m.due_date)
        ∷ ("sender_name", sender_name)
        ∷ [];
    contact_id = or_empty party.contact_id;
    listing_key = txn.listing_key;
    transaction_id = txn.id;
  }

  -- One turn of the loop, with what the later ones return.
  unfoldable pub reminder_or :
      Transaction → Milestone → Option TransactionParty → Option DraftContext → Option DraftContext
  unfolding reminder_context
  reminder_or txn m none later = later
  reminder_or txn m (some party) later = some (reminder_context txn m party)

  -- The loop: the first milestone whose owner can be reached.
  unfoldable pub first_reachable : Transaction → List (Milestone × ℤ) → Option DraftContext
  unfolding reachable_owner reminder_or
  first_reachable txn [] = none
  first_reachable txn ((m, days) ∷ rest) =
      reminder_or txn m (reachable_owner txn m) (first_reachable txn rest)

  unfoldable pub plan_reminder_email : Transaction → List (Milestone × ℤ) → Option DraftContext
  unfolding first_reachable soonest_first sort_by
  plan_reminder_email txn pairs = first_reachable txn (sort_by soonest_first pairs)
