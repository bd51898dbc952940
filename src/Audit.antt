-- ===== src/Audit.antt =====
-- services/audit.py: secret-looking keys, the redaction of argument snapshots, the context of a run
-- and the record that a write leaves.
pub mod Redaction
pub mod Args
pub mod Recording
use text.Mathlib.Text.{find?}
use brokerops.Base.{String, Bool, Option, none, some, List, [], ◌∷◌, is_some, if◌then◌else◌}
use brokerops.Base.Lists.{any}
use brokerops.Models.Json.{
  Json, Items, Fields, null, bool, int, str, arr, obj, nil, cons, end, field,
}
use brokerops.Models.Records.{MutationRecord, MutationOutcome, success, failure, AuditContext}
use brokerops.World.{
  World, Platform, Exec, Result, ok, err, Error, gets, pure, raise, reading, ◌>>=◌, ◌>>◌,
}
use brokerops.Ports.{AuditLog}
use brokerops.Tenancy.{mutation_record}

-- _SECRET_HINTS
abbrev pub secret_hints : List String
secret_hints =
    "token" ∷ "secret" ∷ "password" ∷ "passwd" ∷ "api_key" ∷ "apikey" ∷ "bearer" ∷ "authorization"
    ∷ "credential" ∷ "private_key" ∷ []

abbrev pub redacted : String
redacted = "[redacted]"

-- `needle in text`
abbrev pub contains : String → String → Bool
contains text needle = is_some (find? text needle)

-- Whether a key names a secret, by a hint inside its lower-case form.
unfoldable pub is_secret_key : (String → String) → String → Bool
is_secret_key lower key = any (contains (lower key)) secret_hints

module _ (lower : String → String) where
  -- Every value under a secret-looking key is masked whole; the rest is copied.
  unfoldable mutual
    pub redact : Json → Json
    redact null = null
    redact (bool b) = bool b
    redact (int n) = int n
    redact (str s) = str s
    redact (arr xs) = arr (redact_items xs)
    redact (obj fs) = obj (redact_fields fs)

    pub redact_items : Items → Items
    redact_items nil = nil
    redact_items (cons x xs) = cons (redact x) (redact_items xs)

    pub redact_fields : Fields → Fields
    redact_fields end = end
    redact_fields (field k v fs) =
        let masked : Json = str redacted in
        let copied = redact v in
        field k (if is_secret_key lower k then masked else copied) (redact_fields fs)

-- The context is published for the body and reset on every way out.
restore_context : {A : Type 0} → Option AuditContext → Result A × World → Result A × World
restore_context before (r, w) = (r, record w { audit_context = before })

unfoldable pub audit_scope : {A : Type 0} → AuditContext → Exec A → Exec A
unfolding restore_context
audit_scope context body w =
    restore_context w.audit_context (body (record w { audit_context = some context }))

module _ (platform : Platform) (audit : AuditLog) (integration : String) where
  -- `_Recorder.emit`
  unfoldable pub emit :
      String → Json → MutationOutcome → Option String → Option String → Exec (Unit {0})
  unfolding mutation_record redact
  emit tool args outcome external_id error = do
    context ← gets (λ w. w.audit_context)
    id ← reading platform.uuid4
    created ← reading platform.now
    audit.record_mutation (
        mutation_record id created context tool integration (redact platform.lower args) outcome
          external_id error)

  -- What is recorded when the inner write has ended, and how the recorded one ends.
  unfoldable pub record_end : {A : Type 0} → String → Json → (A → String) → Result A → Exec A
  unfolding emit
  record_end tool args external_id (ok a) = do
    emit tool args success (some (external_id a)) none
    pure a
  record_end tool args external_id (err e) = do
    emit tool args failure none (some (platform.error_text e))
    raise e

  -- A recorded write: one record, success or failure, before the result is returned or the error
  -- raised again. Every wrapped method of the module is one of these.
  unfoldable pub recorded : {A : Type 0} → String → Json → (A → String) → Exec A → Exec A
  unfolding record_end
  recorded tool args external_id inner w =
      let (r, w') = inner w in record_end tool args external_id r w'
