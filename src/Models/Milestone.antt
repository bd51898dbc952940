-- ===== src/Models/Milestone.antt =====
-- models/milestone.py, models/document.py and models/files.py. Dates and times are numbers.
use brokerops.Base.{ℕ, String, Bool, true, false, Option}
use brokerops.Base.Int.{ℤ}

pub data DocumentKind : Type 0 where
  purchase_agreement disclosures inspection_report appraisal_report : DocumentKind
  loan_approval closing_statement other : DocumentKind

pub data MilestoneType : Type 0 where
  inspection appraisal financing closing custom : MilestoneType

pub data MilestoneStatus : Type 0 where
  pending complete waived : MilestoneStatus

unfoldable pub is_pending : MilestoneStatus → Bool
is_pending pending = true
is_pending complete = false
is_pending waived = false

pub record Milestone : Type 0 where
  pub tenant_id : String
  pub id : String
  pub transaction_id : String
  pub type : MilestoneType
  pub title : String
  pub due_date : ℕ
  pub status : MilestoneStatus
  pub owner : String
  pub escalation_level : ℤ
  pub blocked_reason : Option String
  pub expected_document : Option DocumentKind

pub data DueRule : Type 0 where
  after_contract before_close : DueRule

-- `days` is an `int` of the source, which may be negative.
pub record MilestoneTemplate : Type 0 where
  pub type : MilestoneType
  pub title : String
  pub owner : String
  pub rule : DueRule
  pub days : ℤ
  pub expected_document : Option DocumentKind

pub record FileRef : Type 0 where
  pub file_id : String
  pub name : String
  pub mime_type : String
  pub size_bytes : Option ℕ
  pub web_url : String

pub record Document : Type 0 where
  pub tenant_id : String
  pub id : String
  pub transaction_id : String
  pub milestone_id : Option String
  pub kind : DocumentKind
  pub title : String
  pub file : FileRef
  pub uploaded_by : String
  pub created_at : ℕ

unfoldable pub kind_eq : DocumentKind → DocumentKind → Bool
kind_eq purchase_agreement purchase_agreement = true
kind_eq disclosures disclosures = true
kind_eq inspection_report inspection_report = true
kind_eq appraisal_report appraisal_report = true
kind_eq loan_approval loan_approval = true
kind_eq closing_statement closing_statement = true
kind_eq other other = true
kind_eq _ _ = false
