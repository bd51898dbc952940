-- ===== src/Tests/Data.antt =====
-- The platform and the rows that the tests share.
use brokerops.Base.{String, none, some, [], ◌∷◌}
use brokerops.Base.Int.{pos}
use brokerops.Base.Text.{concat, decimal}
use brokerops.Models.Json.{
  Json, Items, Fields, null, bool, int, str, arr, obj, nil, cons, end, field,
}
use brokerops.Models.Message.{Message, MessageChannel, MessageStatus}
use brokerops.Models.Milestone.{Milestone, MilestoneType, MilestoneStatus, Document, DocumentKind}
use brokerops.Models.Transaction.{Transaction, TransactionStage}
use brokerops.Models.Records.{ApprovalRequest, ApprovalStatus, AuditContext}
use brokerops.World.{Platform, World, blank}

mutual
  pub flat : Json → String
  flat null = "null"
  flat (bool b) = "bool"
  flat (int n) = "int"
  flat (str s) = concat ("'" ∷ s ∷ "'" ∷ [])
  flat (arr xs) = flat_items xs
  flat (obj fs) = flat_fields fs

  pub flat_items : Items → String
  flat_items nil = "."
  flat_items (cons x xs) = concat (flat x ∷ "," ∷ flat_items xs ∷ [])

  pub flat_fields : Fields → String
  flat_fields end = "."
  flat_fields (field k v fs) = concat (k ∷ ":" ∷ flat v ∷ "," ∷ flat_fields fs ∷ [])

-- A digest that is the text itself, a clock that counts, and ids that are numbers.
abbrev pub platform : Platform
platform = record {
  uuid4 = decimal;
  now = λ n. n;
  error_text = λ e. "error";
  digest = flat;
  content_digest = λ bytes. "content";
  text_digest = λ s. s;
  lower = λ s. s;
  iso_date = decimal;
  iso_datetime = decimal;
}

abbrev pub message : Message
message = record {
  id = "m1";
  tenant_id = "";
  channel = MessageChannel.email;
  recipient = "ann@example.com";
  subject = "Hello";
  body = "A text";
  template_ref = "showing_followup:v1";
  contact_id = "";
  listing_key = "L1";
  transaction_id = "";
  status = MessageStatus.pending_approval;
  provider_message_id = "";
  created_at = none;
  sent_at = none;
}

abbrev pub foreign_message : Message
foreign_message = record message { tenant_id = "zenith" }

abbrev pub milestone : Milestone
milestone = record {
  tenant_id = "";
  id = "T1-MS01-INS";
  transaction_id = "T1";
  type = MilestoneType.inspection;
  title = "Home inspection";
  due_date = 100;
  status = MilestoneStatus.pending;
  owner = "Ann";
  escalation_level = pos 0;
  blocked_reason = none;
  expected_document = none;
}

abbrev pub transaction : Transaction
transaction = record {
  tenant_id = "";
  id = "T1";
  listing_key = "L1";
  stage = TransactionStage.under_contract;
  parties = [];
  contract_date = 90;
  close_date = some 150;
}

abbrev pub approval : ApprovalRequest
approval = record {
  tenant_id = "";
  id = "a1";
  workflow = "followup";
  graph_thread_id = "thread";
  kind = "send";
  payload = none;
  status = ApprovalStatus.pending;
  decided_by = none;
  created_at = 0;
  decided_at = none;
}

abbrev pub document : Document
document = record {
  tenant_id = "";
  id = "d1";
  transaction_id = "T1";
  milestone_id = none;
  kind = DocumentKind.other;
  title = "A scan";
  file = record {
    file_id = "f1";
    name = "scan.pdf";
    mime_type = "application/pdf";
    size_bytes = none;
    web_url = "";
  };
  uploaded_by = "ann";
  created_at = 0;
}

abbrev pub context : AuditContext
context = record {
  workflow_run_id = "run1";
  workflow = "followup";
  approval_id = none;
  actor = none;
  transaction_id = "";
}

-- A world with the tenant `acme` bound, and rows of the tenant `zenith`.
abbrev pub acme : World
acme = record blank {
  tenant = some "acme";
  messages = ("m1", foreign_message) ∷ [];
  approvals = ("a1", record approval { tenant_id = "zenith" }) ∷ [];
  documents = ("d2", record document { tenant_id = "zenith"; id = "d2" }) ∷ [];
  milestones = ("T1-MS01-INS", record milestone { tenant_id = "zenith" }) ∷ [];
}
