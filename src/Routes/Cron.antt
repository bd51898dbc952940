-- ===== src/Routes/Cron.antt =====
-- routes/cron.py: the milestone run over the active transactions.
pub mod Counts
use brokerops.Base.{
  ℕ, ◌+◌, String, Bool, true, false, not, ◌&&◌, Option, none, some, List, [], ◌∷◌, ◌++◌, ◌==◌,
  if◌then◌else◌, truthy,
}
use brokerops.Base.Lists.{any, length}
use brokerops.Base.Dict.{Dict, lookup}
use brokerops.Models.Json.{Json, bool, str}
use brokerops.Models.Records.{ApprovalRequest, ApprovalStatus}
use brokerops.Models.Transaction.{Transaction}
use brokerops.Models.CronRun.{CronRun}
use brokerops.World.{
  World, Platform, Exec, Error, Result, ok, err, http_error, pure, raise, raise_if, ◌>>=◌, ◌>>◌,
}
use brokerops.Ports.{ApprovalRepo, TransactionStore}
use brokerops.Workflows.Runs.{WorkflowRunResult, transaction_coordination, json_truthy, text_of}
use brokerops.Workflows.Engine.{Graph, start, payload_field}

-- One row of the answer.
pub record Checked : Type 0 where
  pub transaction_id : String
  pub status : String
  pub outcome : Option Json
  pub approval_id : Option String

-- The counts of a pass, which a failure records as well.
pub record Pass : Type 0 where
  pub results : List Checked
  pub skipped_escalation : ℕ
  pub email_tail_suppressed : ℕ

abbrev pub milestone_cron_job : String
milestone_cron_job = "milestones"

-- How a part of the pass ends, with the counts that it leaves.
abbrev pub Counted : Type 0
Counted = Result (Unit {0}) × Pass × World

-- `_awaiting(kind)` holds the transaction: a pending gate of that kind names it.
unfoldable pub names : (Json → String) → String → Option Json → Bool
unfolding json_truthy text_of
names py_text id none = false
names py_text id (some v) = json_truthy v && text_of py_text v == id

unfoldable pub is_awaiting : (Json → String) → String → String → List ApprovalRequest → Bool
unfolding names payload_field
is_awaiting py_text kind id pending =
    any
      (λ (a : ApprovalRequest).
        a.kind == kind && names py_text id (payload_field "transaction_id" a.payload))
      pending

abbrev pub approval_of : Option ApprovalRequest → Option String
approval_of none = none
approval_of (some a) = some a.id

abbrev pub outcome_in : Option (Dict Json) → Option Json
unfolding lookup
outcome_in none = none
outcome_in (some d) = lookup "outcome" d

unfoldable pub checked_row : String → WorkflowRunResult → Checked
checked_row id run = record {
  transaction_id = id;
  status = run.status;
  outcome = outcome_in run.output;
  approval_id = approval_of run.approval;
}

-- `error_label` is `safe_error_label`; `record_run` is `record` of the cron store.
module _ (platform : Platform) (py_text : Json → String) (repo : ApprovalRepo) (graphs : Dict Graph)
    (store : TransactionStore) (record_run : CronRun → Exec (Unit {0}))
    (error_label : Error → String) where
  unfoldable pub start_check : String → Bool → Exec WorkflowRunResult
  unfolding start
  start_check id suppress =
      start platform py_text repo graphs transaction_coordination
        (("transaction_id", str id) ∷ ("suppress_reminder_email", bool suppress) ∷ []) none

  abbrev pub suppressed : Bool → Pass → Pass
  suppressed true p = record p { email_tail_suppressed = p.email_tail_suppressed + 1 }
  suppressed false p = p

  -- A run adds its row; an exception of it leaves the loop, with the counts so far.
  unfoldable pub counted : String → Pass → Result WorkflowRunResult × World → Counted
  unfolding checked_row
  counted id p (ok run, w) =
      (ok tt, record p { results = p.results ++ (checked_row id run ∷ []) }, w)
  counted id p (err e, w) = (err e, p, w)

  unfoldable pub run_one : String → Bool → Pass → World → Counted
  unfolding start_check counted
  run_one id suppress p w = counted id (suppressed suppress p) (start_check id suppress w)

  -- One turn of the loop.
  unfoldable pub check_one : List ApprovalRequest → Transaction → Pass → World → Counted
  unfolding is_awaiting run_one
  check_one pending t p w =
      if is_awaiting py_text "approve_escalation" t.id pending
      then (ok tt, record p { skipped_escalation = p.skipped_escalation + 1 }, w)
      else run_one t.id (is_awaiting py_text "approve_outbound_message" t.id pending) p w

  unfoldable pub go_on : (Pass → World → Counted) → Counted → Counted
  go_on rest (ok a, p, w) = rest p w
  go_on rest (err e, p, w) = (err e, p, w)

  -- The loop.
  unfoldable pub check_each : List ApprovalRequest → List Transaction → Pass → World → Counted
  unfolding check_one go_on
  check_each pending [] p w = (ok tt, p, w)
  check_each pending (t ∷ ts) p w = go_on (check_each pending ts) (check_one pending t p w)

  abbrev pub cron_run : String → Option String → Pass → CronRun
  cron_run outcome error p = record {
    job = milestone_cron_job;
    outcome = outcome;
    checked = length p.results;
    skipped_pending_escalation = p.skipped_escalation;
    email_tail_suppressed = p.email_tail_suppressed;
    error = error;
  }

  unfoldable pub failed : Pass → Error → Exec Pass
  failed p (http_error code) = raise (http_error code)
  failed p e = record_run (cron_run "failure" (some (error_label e)) p) >> raise e

  -- An exception while the success is recorded is recorded as a failure.
  unfoldable pub succeeded : Pass → Exec Pass
  unfolding failed
  succeeded p w =
      let (r, w') = record_run (cron_run "success" none p) w in
      elim r [ ok a ↦ (ok p, w') | err e ↦ failed p e w' ]

  -- The handler around the pass: what left it is recorded and raised again.
  unfoldable pub finish : Counted → Result Pass × World
  unfolding failed succeeded
  finish (ok a, p, w) = succeeded p w
  finish (err e, p, w) = failed p e w

  abbrev pub blank_pass : Pass
  blank_pass = record { results = []; skipped_escalation = 0; email_tail_suppressed = 0 }

  -- What was read before the loop, or the exception that the read raised.
  unfoldable pub read_rows : Exec (List ApprovalRequest × List Transaction)
  read_rows = repo.list (some ApprovalStatus.pending) >>= λ pending.
      store.list_active_transactions >>= λ ts. pure (pending, ts)

  unfoldable pub run_pass : World → Counted
  unfolding read_rows check_each
  run_pass w =
      let (r, w') = read_rows w in
      elim r [ ok rows ↦ check_each rows.0 rows.1 blank_pass w' | err e ↦ (err e, blank_pass, w') ]

  unfoldable pub recorded_pass : Exec Pass
  unfolding run_pass finish
  recorded_pass w = finish (run_pass w)

  -- The key is checked when one is configured and not empty.
  unfoldable pub run_milestone_checks : Option String → Option String → Exec Pass
  unfolding recorded_pass
  run_milestone_checks none key = recorded_pass
  run_milestone_checks (some secret) key =
      raise_if (truthy secret && not (elim key [ none ↦ false | some k ↦ k == secret ]))
        (http_error 401)
      >> recorded_pass
