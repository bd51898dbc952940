-- ===== src/Workflows/Runs.antt =====
-- services/workflow_runs.py: what a finished run says to a caller.
use brokerops.Base.{
  String, Bool, true, false, zero, Option, none, some, List, [], ◌∷◌, ◌==◌, if◌then◌else◌, truthy,
}
use brokerops.Base.Lists.{any}
use brokerops.Base.Dict.{Dict, lookup}
use brokerops.Base.Int.{ℤ}
use brokerops.Models.Json.{Json, null, bool, int, str, arr, obj, nil, end}
use brokerops.Models.Records.{ApprovalRequest}

abbrev pub listing_to_contract : String
listing_to_contract = "listing_to_contract"

abbrev pub transaction_coordination : String
transaction_coordination = "transaction_coordination"

abbrev pub vapi_followup : String
vapi_followup = "vapi_followup"

-- OUTPUT_KEYS
abbrev pub output_keys : List String
output_keys =
    "planned_tasks" ∷ "fub_task_ids" ∷ "outcome" ∷ "reminder_task_ids" ∷ "escalated_task_ids"
    ∷ "planned_calls" ∷ "feedback_id" ∷ "note_id" ∷ "call_log_id" ∷ "hot_task_id"
    ∷ "reminder_message_id" ∷ "followup_message_id" ∷ []

-- COMPLETED_VALUES
abbrev pub completed_values : List String
completed_values =
    "published" ∷ "on_track" ∷ "reminders_sent" ∷ "escalated" ∷ "call_queued" ∷ "synced"
    ∷ "agent_notified" ∷ "reminder_email_sent" ∷ "followup_sent" ∷ []

pub record WorkflowRunResult : Type 0 where
  pub thread_id : String
  pub status : String
  pub approval : Option ApprovalRequest
  pub output : Option (Dict Json)

-- Python's truth value of a JSON value.
unfoldable pub json_truthy : Json → Bool
json_truthy null = false
json_truthy (bool b) = b
json_truthy (int (ℤ.pos zero)) = false
json_truthy (int n) = true
json_truthy (str s) = truthy s
json_truthy (arr nil) = false
json_truthy (arr xs) = true
json_truthy (obj end) = false
json_truthy (obj fs) = true

-- `state.get("stage") or state.get("outcome")`
unfoldable pub terminal_of : Option Json → Option Json → Option Json
unfolding json_truthy
terminal_of none outcome = outcome
terminal_of (some stage) outcome = if json_truthy stage then some stage else outcome

-- `{key: state[key] for key in OUTPUT_KEYS if key in state}`
unfoldable pub surfaced : Dict Json → List String → Dict Json
unfolding lookup
surfaced state [] = []
surfaced state (key ∷ keys) =
    let rest = surfaced state keys in
    elim (lookup key state) [ none ↦ rest | some v ↦ (key, v) ∷ rest ]

-- `{...} or None`
unfoldable pub unless_empty : Dict Json → Option (Dict Json)
unless_empty [] = none
unless_empty (row ∷ rows) = some (row ∷ rows)

unfoldable pub run_status : String → String
run_status value = if any (λ done. done == value) completed_values then "completed" else value

-- `py_text` is Python's `str` of a value that is not a text.
module _ (py_text : Json → String) where
  unfoldable pub text_of : Json → String
  text_of (str s) = s
  text_of v = py_text v

  unfoldable pub terminal_text : Option Json → String
  unfolding text_of
  terminal_text none = "None"
  terminal_text (some v) = text_of v

  unfoldable pub terminal_run_result : String → Dict Json → WorkflowRunResult
  unfolding lookup terminal_of terminal_text run_status surfaced unless_empty
  terminal_run_result thread_id state = record {
    thread_id = thread_id;
    status =
        run_status (terminal_text (terminal_of (lookup "stage" state) (lookup "outcome" state)));
    approval = none;
    output = unless_empty (surfaced state output_keys);
  }
