-- ===== src/Milestones/Schedule.antt =====
-- services/milestone_schedule.py: the milestone timeline of a transaction, from a template.
use brokerops.Base.{ℕ, suc, String, none, some, List, [], ◌∷◌}
use brokerops.Base.Int.{pos}
use brokerops.Base.Text.{concat, two_digits}
use brokerops.Models.Transaction.{Transaction}
use brokerops.Models.Milestone.{
  Milestone, MilestoneTemplate, MilestoneType, MilestoneStatus, DueRule, DocumentKind,
}
use brokerops.World.{Result, ok, err, value_error}
use brokerops.World.Pure.{◌>>=◌}
use brokerops.Milestones.Dates.{add_days, sub_days}

-- DEFAULT_TIMELINE
abbrev pub default_timeline : List MilestoneTemplate
default_timeline =
    record {
      type = MilestoneType.inspection;
      title = "Home inspection";
      owner = "Buyer's agent";
      rule = DueRule.after_contract;
      days = pos 10;
      expected_document = some DocumentKind.inspection_report;
    }
    ∷ record {
      type = MilestoneType.appraisal;
      title = "Appraisal";
      owner = "Lender";
      rule = DueRule.after_contract;
      days = pos 17;
      expected_document = none;
    }
    ∷ record {
      type = MilestoneType.financing;
      title = "Loan approval";
      owner = "Lender";
      rule = DueRule.after_contract;
      days = pos 21;
      expected_document = some DocumentKind.loan_approval;
    }
    ∷ record {
      type = MilestoneType.custom;
      title = "Final walkthrough";
      owner = "Buyer's agent";
      rule = DueRule.before_close;
      days = pos 1;
      expected_document = none;
    }
    ∷ record {
      type = MilestoneType.closing;
      title = "Closing";
      owner = "Escrow";
      rule = DueRule.before_close;
      days = pos 0;
      expected_document = none;
    }
    ∷ []

-- `timedelta(days=n)` of more than 999999999 days raises the `OverflowError` that its sum would.
unfoldable pub due_date : Transaction → MilestoneTemplate → Result ℕ
unfolding add_days sub_days
due_date t entry = elim entry.rule [
  | DueRule.after_contract ↦ add_days t.contract_date entry.days
  | DueRule.before_close ↦ elim t.close_date [
    | none ↦ err value_error
    | some close ↦ sub_days close entry.days
  ]
]

-- `milestone_type.value[:3].upper()`
unfoldable pub type_code : MilestoneType → String
type_code MilestoneType.inspection = "INS"
type_code MilestoneType.appraisal = "APP"
type_code MilestoneType.financing = "FIN"
type_code MilestoneType.closing = "CLO"
type_code MilestoneType.custom = "CUS"

unfoldable pub milestone_id : String → ℕ → MilestoneType → String
unfolding type_code two_digits
milestone_id transaction index type =
    concat (transaction ∷ "-MS" ∷ two_digits index ∷ "-" ∷ type_code type ∷ [])

unfoldable pub milestone_at : Transaction → ℕ → MilestoneTemplate → ℕ → Milestone
unfolding milestone_id
milestone_at t index entry due = record {
  tenant_id = "";
  id = milestone_id t.id index entry.type;
  transaction_id = t.id;
  type = entry.type;
  title = entry.title;
  due_date = due;
  status = MilestoneStatus.pending;
  owner = entry.owner;
  escalation_level = pos 0;
  blocked_reason = none;
  expected_document = entry.expected_document;
}

-- The comprehension over `enumerate(template, start=index)`.
unfoldable pub milestones_from : Transaction → ℕ → List MilestoneTemplate → Result (List Milestone)
unfolding due_date milestone_at
milestones_from t index [] = ok []
milestones_from t index (entry ∷ rest) =
    let later = milestones_from t (suc index) rest in
    due_date t entry >>= λ due. later >>= λ ms. ok (milestone_at t index entry due ∷ ms)

unfoldable pub generate_milestones : Transaction → List MilestoneTemplate → Result (List Milestone)
unfolding milestones_from
generate_milestones t template = milestones_from t 1 template
