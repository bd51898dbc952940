-- ===== src/Idempotency.antt =====
-- services/idempotency.py: one claim for each logical write of a run, and the deduping decorators.
pub mod Replay
pub mod AtMostOnce
pub mod Ports
use brokerops.Base.{String, Option, none, some, ◌==◌, if◌then◌else◌}
use brokerops.Models.Json.{Json, Fields, str, obj, end, field}
use brokerops.Models.Records.{AuditContext, ClaimStatus, IdempotencyClaim}
use brokerops.World.{
  World, Platform, Exec, Result, ok, err, replay_in_progress, runtime_error, gets, pure, raise,
  lift, ◌>>=◌, ◌>>◌,
}
use brokerops.Ports.{IdempotencyStore}

-- The digest over the run, the tool and the semantic arguments.
unfoldable pub idempotency_key : Platform → String → String → Json → String
idempotency_key platform run tool args =
    platform.digest
      (obj (field "workflow_run_id" (str run) (field "tool" (str tool) (field "args" args end))))

-- `_current_run_id`: an empty run id counts as none.
unfoldable pub current_run_id : Option AuditContext → Option String
current_run_id none = none
current_run_id (some c) = if c.workflow_run_id == "" then none else some c.workflow_run_id

-- `_require`
unfoldable pub require_result : Option String → Result String
require_result none = err runtime_error
require_result (some r) = ok r

-- How a result is stored as a text and read back: `model_dump_json` and `model_validate_json` for the
-- tools that return a model, the text itself for the others.
pub record Codec (A : Type 0) : Type 0 where
  pub encode : A → String
  pub decode : String → Result A

abbrev pub text_codec : Codec String
text_codec = record { encode = λ s. s; decode = λ s. ok s }

module _ (platform : Platform) (store : IdempotencyStore) where
  -- After the claim: a completed one replays its result, a pending one is refused, a new one runs the
  -- write and stores its result.
  unfoldable pub claimed :
      {A : Type 0} → Codec A → String → String → Exec A → IdempotencyClaim → Exec A
  unfolding require_result
  claimed codec tool key inner claim = elim claim.status [
    | ClaimStatus.pending ↦ raise (replay_in_progress tool key)
    | ClaimStatus.completed ↦ lift (require_result claim.result) >>= λ r. lift (codec.decode r)
    | ClaimStatus.new ↦ inner >>= λ a. store.complete key (codec.encode a) >> pure a
  ]

  -- Without a run the write is not deduped.
  unfoldable pub dedupe_in :
      {A : Type 0} → Codec A → String → Json → Exec A → Option String → Exec A
  unfolding idempotency_key claimed
  dedupe_in codec tool args inner none = inner
  dedupe_in codec tool args inner (some run) = do
    claim ← store.begin (idempotency_key platform run tool args)
    claimed codec tool (idempotency_key platform run tool args) inner claim

  -- `claim`, the write, `record`: every wrapped method of the module is one of these.
  unfoldable pub dedupe : {A : Type 0} → Codec A → String → Json → Exec A → Exec A
  unfolding dedupe_in current_run_id
  dedupe codec tool args inner w =
      dedupe_in codec tool args inner (current_run_id w.audit_context) w
