-- ===== src/Workflows/Contract.antt =====
-- graphs/listing_to_contract.py: from a listing to its approved marketing tasks.
pub mod Safe
use brokerops.Base.{
  ℕ, ◌+◌, String, Bool, true, false, Option, none, some, List, [], ◌∷◌, if◌then◌else◌,
}
use brokerops.Models.Json.{Json, Items, str, arr, obj, end, field}
use brokerops.Models.Listing.{Listing, MarketingDraft, MlsPort}
use brokerops.Models.Extraction.{texts_json}
use brokerops.World.{Platform, Exec, Result, ok, assertion_error, pure, raise, reading, ◌>>=◌}
use brokerops.Ports.{CrmPort}
use brokerops.Workflows.Marketing.{is_marketable, plan_marketing_tasks, draft_marketing}
use brokerops.Workflows.Graph.{
  Answer, ApprovalOutcome, outcome_of, Progress, updated, waits, by_decision,
}

-- WorkflowStage of models/workflow_state.py
pub data WorkflowStage : Type 0 where
  intake not_found not_eligible drafted published rejected : WorkflowStage

unfoldable pub stage_value : WorkflowStage → String
stage_value intake = "intake"
stage_value not_found = "not_found"
stage_value not_eligible = "not_eligible"
stage_value drafted = "drafted"
stage_value published = "published"
stage_value rejected = "rejected"

-- ListingToContractState
pub record ContractState : Type 0 where
  pub listing_key : String
  pub stage : WorkflowStage
  pub draft : Option MarketingDraft
  pub approval : Option ApprovalOutcome
  pub planned_tasks : List String
  pub fub_task_ids : List String

pub data Node : Type 0 where
  take_in make_draft approve_marketing publish_tasks handle_rejection : Node

abbrev pub task_due_days : ℕ
task_due_days = 2

unfoldable pub marketing_gate : ContractState → MarketingDraft → Json
marketing_gate s d = obj (
    field "kind" (str "approve_marketing") (
      field "listing_key" (str s.listing_key) (
        field "draft"
          (obj (
            field "listing_key" (str d.listing_key) (
              field "headline" (str d.headline)
                (field "body" (str d.body) (field "channels" (arr (texts_json d.channels)) end)))))
          end)))

-- `updates["draft"] = edited` when the answer has one.
abbrev pub draft_or : Option MarketingDraft → Option MarketingDraft → Option MarketingDraft
draft_or none old = old
draft_or (some d) old = some d

unfoldable pub stage_of : Option Listing → WorkflowStage
unfolding is_marketable
stage_of none = not_found
stage_of (some l) = if is_marketable l then intake else not_eligible

unfoldable pub drafted_for : ContractState → Option Listing → ContractState
unfolding draft_marketing
drafted_for s none = record s { stage = not_found }
drafted_for s (some l) = record s { draft = some (draft_marketing l); stage = drafted }

module _ (mls : MlsPort) where
  unfoldable pub take_listing : ContractState → Exec (Progress ContractState)
  unfolding stage_of
  take_listing s =
      mls.get_listing s.listing_key >>= λ l. pure (updated (record s { stage = stage_of l }))

  unfoldable pub draft_node : ContractState → Exec (Progress ContractState)
  unfolding drafted_for
  draft_node s = mls.get_listing s.listing_key >>= λ l. pure (updated (drafted_for s l))

-- `assert state.draft is not None`, then the gate.
unfoldable pub approve_draft :
    Option Answer → ContractState → Option MarketingDraft → Exec (Progress ContractState)
unfolding marketing_gate outcome_of
approve_draft a s none = raise assertion_error
approve_draft none s (some d) = pure (waits (marketing_gate s d))
approve_draft (some a) s (some d) =
    pure (
      updated
        (record s { approval = some (outcome_of a); draft = draft_or a.edited_draft s.draft }))

-- `today` is the day of the n-th reading of the clock.
module _ (today : ℕ → ℕ) (mls : MlsPort) (crm : CrmPort) where
  unfoldable pub create_tasks : ℕ → List String → Exec (List String)
  create_tasks due [] = pure []
  create_tasks due (name ∷ names) = crm.create_task name due none >>= λ task.
      create_tasks due names >>= λ ids. pure (task.id ∷ ids)

  unfoldable pub publish_listing :
      ContractState → MarketingDraft → Option Listing → Exec (Progress ContractState)
  unfolding plan_marketing_tasks create_tasks
  publish_listing s d none = pure (updated (record s { stage = not_found }))
  publish_listing s d (some l) = reading today >>= λ day.
      create_tasks (day + task_due_days) (plan_marketing_tasks l d) >>= λ ids. pure (
        updated (record s {
          planned_tasks = plan_marketing_tasks l d;
          fub_task_ids = ids;
          stage = published;
        }))

  unfoldable pub publish : ContractState → Option MarketingDraft → Exec (Progress ContractState)
  unfolding publish_listing
  publish s none = raise assertion_error
  publish s (some d) = mls.get_listing s.listing_key >>= publish_listing s d

  unfoldable pub run_node : Node → Option Answer → ContractState → Exec (Progress ContractState)
  unfolding take_listing draft_node approve_draft publish
  run_node take_in a s = take_listing mls s
  run_node make_draft a s = draft_node mls s
  run_node approve_marketing a s = approve_draft a s s.draft
  run_node publish_tasks a s = publish s s.draft
  run_node handle_rejection a s = pure (updated (record s { stage = rejected }))

unfoldable pub after_intake : WorkflowStage → Option Node
after_intake not_found = none
after_intake not_eligible = none
after_intake _ = some make_draft

-- The edges; `none` is END.
unfoldable pub route : Node → ContractState → Result (Option Node)
unfolding after_intake by_decision
route take_in s = ok (after_intake s.stage)
route make_draft s = ok (some approve_marketing)
route approve_marketing s = by_decision s.approval publish_tasks handle_rejection
route _ s = ok none
