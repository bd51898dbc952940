-- ===== src/Tests/Workflows.antt =====
-- The theorems of the workflow graphs at concrete runs.
use brokerops.Base.{ℕ, ◌≤◌, String, ◌≡◌, refl, true, false, Option, none, some, List, [], ◌∷◌, ◌⊎◌}
use brokerops.Base.Int.{pos, negsuc}
use brokerops.Base.Lists.{length}
use brokerops.Models.Extraction.{ExtractedFeedback}
use brokerops.Models.Records.{Sentiment, ApprovalStatus}
use brokerops.Milestones.Engine.{MilestoneClass}
use brokerops.World.{World, Exec, blank, ok, err, assertion_error, pure}
use brokerops.Ports.{VoicePort, CrmPort}
use brokerops.Stores.Feedback.{feedback_store, save_call_record, get_call_record, upsert_feedback}
use brokerops.Stores.Transactions.{
  transaction_store, get_transaction, list_milestones, set_escalation_level,
}
use brokerops.Workflows.Messages.{MessageService}
use brokerops.Workflows.Runs.{run_status}
use brokerops.Workflows.Graph.{Answer, Progress, updated, Run, here, next, step}
use brokerops.Workflows.Graph.Gates.{ByApproval}
use brokerops.Workflows.Followup as Followup
use brokerops.Workflows.Followup.Safe as FollowupSafe
use brokerops.Workflows.Followup.Ends as FollowupEnds
use brokerops.Workflows.CheckState as CheckState
use brokerops.Workflows.Coordination as Coordination
use brokerops.Workflows.Coordination.Safe as CoordinationSafe
use brokerops.Workflows.Coordination.Ends as CoordinationEnds
use brokerops.Models.Listing.{Listing, ListingStatus, MlsPort}
use brokerops.Workflows.Marketing.{draft_marketing}
use brokerops.Workflows.Contract as Contract
use brokerops.Workflows.Contract.Safe as ContractSafe
use brokerops.Tests.Data.{platform, message, milestone, transaction}

abbrev voice : VoicePort
voice = record { start_outbound_call = λ a b c. pure "call"; get_call = λ id. pure none }

abbrev crm : CrmPort
crm = record {
  get_contact = λ id. pure none;
  search_contacts = λ q n. pure [];
  create_contact =
      λ c. pure record { crm_id = "c1"; name = "Ann"; role = ""; email = none; phone = none };
  add_note = λ id subject body. pure "n1";
  create_task = λ name due contact.
      pure record { id = "t1"; name = name; due_date = some due; contact_id = contact };
  log_call = λ id outcome note seconds. pure "l1";
}

abbrev messages : MessageService
messages = record {
  draft = λ c. pure message;
  get_message = λ id. pure (some message);
  send_approved = λ id subject body. pure message;
  mark_rejected = λ id. pure message;
}

abbrev extracted : ExtractedFeedback
extracted = record {
  sentiment = Sentiment.positive;
  hot_signal = true;
  highlights = [];
  concerns = [];
  price_opinion = none;
  budget_min = none;
  budget_max = none;
  desired_features = [];
  summary = "They loved it";
}

abbrev approval_answer : Answer
approval_answer = record {
  decision = ApprovalStatus.approved;
  decided_by = "ann";
  edited_payload = none;
  edited_draft = none;
}

abbrev day : ℕ → ℕ
day n = 102

abbrev extract : String → Exec ExtractedFeedback
extract transcript = pure extracted

abbrev run_followup :
    Followup.Node → Option Answer → Followup.FollowupState → Exec (Progress Followup.FollowupState)
run_followup = Followup.run_node platform day voice crm feedback_store extract messages

abbrev call0 : Followup.FollowupState
call0 = record {
  call_id = "call1";
  listing_key = "L1";
  contact_id = "c1";
  transcript = "We loved it";
  call_outcome = "completed";
  extracted = none;
  feedback_id = "";
  note_id = "";
  call_log_id = "";
  hot_approval = none;
  hot_task_id = "";
  followup_message_id = "";
  followup_approval = none;
  followup_edited_subject = "";
  followup_edited_body = "";
  outcome = "";
}

abbrev call1 : Followup.FollowupState
call1 = record call0 { extracted = some extracted }

abbrev call2 : Followup.FollowupState
call2 = record call1 { feedback_id = "FB-call1" }

abbrev call3 : Followup.FollowupState
call3 = record call2 { note_id = "n1"; call_log_id = "l1" }

abbrev call4 : Followup.FollowupState
call4 = record call3 {
  hot_approval = some record { decision = ApprovalStatus.approved; decided_by = "ann" };
}

-- Five nodes of a hot call, up to the task.
abbrev hot_trace : List (Followup.Node × Option Answer)
hot_trace =
    (Followup.notify_agent, some approval_answer)
    ∷ (Followup.sync_crm, none)
    ∷ (Followup.upsert_feedback, none)
    ∷ (Followup.extract_structured, none)
    ∷ (Followup.ingest_call, none)
    ∷ []

hot_path :
    Run run_followup Followup.route hot_trace Followup.ingest_call call0 Followup.create_hot_task
      call4
unfolding Followup.run_node Followup.route save_call_record get_call_record upsert_feedback
hot_path =
    next {u = call3}
      (next {u = call2}
        (next {u = call1}
          (next {u = call0}
            (next {u = call0} here
              (step blank (run_followup Followup.ingest_call none call0 blank).1 refl refl))
            (step blank (run_followup Followup.extract_structured none call0 blank).1 refl refl))
          (step blank (run_followup Followup.upsert_feedback none call1 blank).1 refl refl))
        (step blank (run_followup Followup.sync_crm none call2 blank).1 refl refl))
      (step blank (run_followup Followup.notify_agent (some approval_answer) call3 blank).1 refl
        refl)

run-IsGuarded_example :
    FollowupSafe.IsGuarded platform day voice crm feedback_store extract messages
      Followup.create_hot_task call4 hot_trace
run-IsGuarded_example =
    FollowupSafe.run-IsGuarded platform day voice crm feedback_store extract messages call0 call4
      Followup.create_hot_task hot_trace hot_path

run-IsBounded_example : length hot_trace ≤ 6
run-IsBounded_example =
    FollowupSafe.run-IsBounded platform day voice crm feedback_store extract messages call0 call4
      Followup.create_hot_task hot_trace hot_path

route-status_after_example :
    some (run_status "agent_notified") ≡ FollowupEnds.status_after Followup.create_hot_task
unfolding Followup.run_node Followup.route
route-status_after_example =
    FollowupEnds.route-status_after platform day voice crm feedback_store extract messages
      Followup.create_hot_task none call4
      (record call4 { hot_task_id = "t1"; outcome = "agent_notified" }) blank refl refl

-- A transaction with one milestone that is two days overdue.
abbrev office : World
office = record blank {
  transactions = ("T1", transaction) ∷ [];
  milestones = ("T1-MS01-INS", milestone) ∷ [];
}

abbrev run_check :
    CheckState.Node
    → Option Answer
    → CheckState.CoordinationState
    → Exec (Progress CheckState.CoordinationState)
run_check = Coordination.run_node platform day transaction_store crm messages

abbrev check0 : CheckState.CoordinationState
check0 = record {
  transaction_id = "T1";
  outcome = "";
  worst = none;
  assessments = [];
  reminders = [];
  reminder_task_ids = [];
  escalation_approval = none;
  escalated_task_ids = [];
  planned_calls = [];
  suppress_reminder_email = false;
  reminder_message_id = "";
  reminder_approval = none;
  reminder_edited_subject = "";
  reminder_edited_body = "";
}

abbrev check1 : CheckState.CoordinationState
check1 = record check0 {
  worst = some MilestoneClass.overdue;
  assessments =
      record {
        milestone_id = "T1-MS01-INS";
        classification = MilestoneClass.overdue;
        days_until_due = negsuc 1;
      }
      ∷ [];
}

abbrev check2 : CheckState.CoordinationState
check2 = record check1 {
  escalation_approval = some record { decision = ApprovalStatus.approved; decided_by = "ann" };
}

abbrev check_trace : List (CheckState.Node × Option Answer)
check_trace =
    (CheckState.escalate, some approval_answer)
    ∷ (CheckState.evaluate_milestones, none)
    ∷ (CheckState.load_txn, none)
    ∷ []

check_path :
    Run run_check Coordination.route check_trace CheckState.load_txn check0 CheckState.notify check2
unfolding Coordination.run_node Coordination.route get_transaction list_milestones
check_path =
    next {u = check1}
      (next {u = check0}
        (next {u = check0} here
          (step office (run_check CheckState.load_txn none check0 office).1 refl refl))
        (step office (run_check CheckState.evaluate_milestones none check0 office).1 refl refl))
      (step office (run_check CheckState.escalate (some approval_answer) check1 office).1 refl refl)

check-IsGuarded_example :
    CoordinationSafe.IsGuarded platform day transaction_store crm messages CheckState.notify check2
      check_trace
    × (length check_trace ≤ 6)
check-IsGuarded_example =
    CoordinationSafe.check-IsGuarded platform day transaction_store crm messages check0 check2
      CheckState.notify check_trace check_path

check-status_after_example :
    some (run_status "escalated") ≡ CoordinationEnds.status_after CheckState.notify
unfolding Coordination.run_node Coordination.route get_transaction list_milestones
    set_escalation_level
check-status_after_example =
    CoordinationEnds.check-status_after platform day transaction_store crm messages check0 check2
      (record check2 { escalated_task_ids = "t1" ∷ []; outcome = "escalated" }) CheckState.notify
      none check_trace office check_path refl refl

-- An office in which every listing is gone.
abbrev mls : MlsPort
mls = record {
  search_listings = λ q. pure [];
  get_listing = λ key. pure none;
  get_listing_media = λ key. pure [];
}

abbrev listing : Listing
listing = record {
  mls_id = "L1";
  status = ListingStatus.active;
  address = "1 Main St";
  city = "Austin";
  state = "TX";
  postal_code = "78701";
  list_price = some (pos 800000);
  bedrooms = some (pos 3);
  bathrooms = some (pos 2);
  living_area_sqft = some (pos 1850);
  year_built = none;
  agent_id = "a";
  agent_name = "Ann";
  remarks = "Light";
  modified_at = 0;
  media = [];
}

-- A price of eight hundred thousand, as the headline has it.
headline : (draft_marketing listing).headline ≡ "Just Listed: 3 bed / 2 bath in Austin — $800,000"
unfolding draft_marketing
headline = refl

abbrev listing0 : Contract.ContractState
listing0 = record {
  listing_key = "L1";
  stage = Contract.intake;
  draft = none;
  approval = none;
  planned_tasks = [];
  fub_task_ids = [];
}

abbrev run_listing :
    Contract.Node → Option Answer → Contract.ContractState → Exec (Progress Contract.ContractState)
run_listing = ContractSafe.run day mls crm

vanished-raises_example :
    (run_listing Contract.make_draft none listing0 blank
      ≡ (ok (updated (record listing0 { stage = Contract.not_found })), blank))
    × (Contract.route Contract.make_draft (record listing0 { stage = Contract.not_found })
        ≡ ok (some Contract.approve_marketing))
    × (run_listing Contract.approve_marketing none
          (record listing0 { stage = Contract.not_found })
          office
        ≡ (err assertion_error, office))
vanished-raises_example =
    ContractSafe.vanished-raises day mls crm listing0 none none blank blank office refl refl

abbrev listing1 : Contract.ContractState
listing1 = record listing0 { draft = some (draft_marketing listing); stage = Contract.drafted }

abbrev listing2 : Contract.ContractState
listing2 = record listing1 {
  approval = some record { decision = ApprovalStatus.approved; decided_by = "ann" };
}

abbrev stocked : MlsPort
stocked = record mls { get_listing = λ key. pure (some listing) }

abbrev listing_trace : List (Contract.Node × Option Answer)
listing_trace =
    (Contract.approve_marketing, some approval_answer)
    ∷ (Contract.make_draft, none)
    ∷ (Contract.take_in, none)
    ∷ []

listing_path :
    Run
      (ContractSafe.run day stocked crm)
      Contract.route
      listing_trace
      Contract.take_in
      listing0
      Contract.publish_tasks
      listing2
unfolding Contract.run_node Contract.route
listing_path =
    next {u = listing1}
      (next {u = listing0} (next {u = listing0} here (step blank blank refl refl))
        (step blank blank refl refl))
      (step blank blank refl refl)

listing-IsGuarded_example :
    (ByApproval Contract.approve_marketing listing_trace
      ⊎ ContractSafe.CreatesNoTask day stocked crm Contract.publish_tasks listing2)
    × (length listing_trace ≤ 3)
listing-IsGuarded_example =
    ContractSafe.listing-IsGuarded day stocked crm listing0 listing2 Contract.publish_tasks
      listing_trace listing_path
