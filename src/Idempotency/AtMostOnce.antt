-- ===== src/Idempotency/AtMostOnce.antt =====
-- The wired stack `Idempotent(Recording(adapter))` over a history of calls, retries and crashes.
use brokerops.Base.{
  ℕ, ◌+◌, ◌≤◌, String, ◌≡◌, ◌≢◌, ap, true, Option, none, some, List, [], ◌∷◌, ◌++◌, arith, eq_iff,
  ◌==◌, truthy, if◌then◌else◌, Option-cases, inl, inr,
}
use brokerops.Base.Lists.{length, All}
use brokerops.Base.Dict.{lookup, insert, lookup-insert}
use brokerops.Models.Json.{Json}
use brokerops.Models.Records.{AuditContext, ClaimStatus, IdempotencyClaim}
use brokerops.World.{Platform, World, Effect, Exec, Result, ok, ◌>>=◌, Result-cases}
use brokerops.Stores.Claims as Store
use brokerops.Stores.Claims.{idempotency_store}
use brokerops.Stores.AuditLog.{audit_log}
use brokerops.Audit.{recorded, audit_scope}
use brokerops.Audit.Recording.Laws.{recorded-appends}
use brokerops.Idempotency.{text_codec, idempotency_key, dedupe}

-- The texts of a context, as the adapter's call is attributed to it.
abbrev run_of : Option AuditContext → String
run_of none = ""
run_of (some c) = c.workflow_run_id

-- A provider: each call reaches it, and it answers or fails as it will, by the number of calls so far.
unfoldable pub provider_call : (ℕ → Result String) → String → Json → Exec String
provider_call answer tool args w = (
  answer (length w.effects),
  record w {
    effects = w.effects ++ record { run = run_of w.audit_context; tool = tool; args = args } ∷ [];
  },
)

-- A call of the stack under the context of a run; or one whose process dies when the key has been
-- claimed, or when the provider has been called and the result is not stored yet.
pub data Attempt : Type 0 where
  finished died_before died_after : AuditContext → String → Json → Attempt

module _ (platform : Platform) (answer : ℕ → Result String) (integration : String) where
  -- RecordingX over the adapter
  abbrev recorded_call : String → Json → Exec String
  recorded_call tool args =
      recorded platform audit_log integration tool args (λ s. s) (provider_call answer tool args)

  abbrev key_in : AuditContext → String → Json → String
  key_in c tool args = idempotency_key platform c.workflow_run_id tool args

  -- A process that dies after the claim: a new claim goes on to the provider, any other does not.
  unfoldable pub call_if_new : String → Json → IdempotencyClaim → Exec (Unit {0})
  call_if_new tool args claim w = elim claim.status [
    | ClaimStatus.new ↦ (ok tt, (recorded_call tool args w).1)
    | ClaimStatus.pending ↦ (ok tt, w)
    | ClaimStatus.completed ↦ (ok tt, w)
  ]

  unfoldable pub begin_and_call : String → String → Json → Exec (Unit {0})
  unfolding call_if_new
  begin_and_call key tool args = Store.begin key >>= call_if_new tool args

  -- The rows and the calls that a restarted process finds; its context is a fresh one.
  unfoldable pub after : World → Attempt → World
  after w (finished c tool args) =
      (audit_scope c
        (dedupe platform idempotency_store text_codec tool args (recorded_call tool args)) w).1
  after w (died_before c tool args) = (Store.begin (key_in c tool args) w).1
  after w (died_after c tool args) =
      (audit_scope c (begin_and_call (key_in c tool args) tool args) w).1

  unfoldable pub after_all : World → List Attempt → World
  unfolding after
  after_all w [] = w
  after_all w (a ∷ rest) = after_all (after w a) rest

  -- The number of calls that reached the provider under a key.
  unfoldable pub calls : String → List Effect → ℕ
  calls key [] = 0
  calls key (e ∷ es) =
      (if idempotency_key platform e.run e.tool e.args == key then 1 else 0) + calls key es

  calls-append :
      (key : String) (es : List Effect) (e : Effect)
      → calls key (es ++ e ∷ [])
        ≡ calls key es + (if idempotency_key platform e.run e.tool e.args == key then 1 else 0)
  unfolding calls
  calls-append key [] e = omega arith
  calls-append key (x ∷ es) e = omega (arith, calls-append key es e)

  -- 1 for a key that was ever claimed.
  abbrev claim_count : Option (ClaimStatus × Option String) → ℕ
  claim_count none = 0
  claim_count (some c) = 1

  -- A key reached the provider only if it was claimed, and at most once; no row is stored as new.
  abbrev pub IsOnce : World → Type 0
  IsOnce w =
      ((key : String) → calls key w.effects ≤ claim_count (lookup key w.claims))
      × ((key : String) (r : Option String) → lookup key w.claims ≢ some (ClaimStatus.new, r))

  -- The recorded call: one more effect under the run of the context, the claims as they were.
  recorded_call_lem :
      (tool : String) (args : Json) (w : World)
      → let u = (recorded_call tool args w).1 in
        (u.claims ≡ w.claims)
        × (u.effects
            ≡ w.effects ++ record { run = run_of w.audit_context; tool = tool; args = args } ∷ [])
        × (u.audit_context ≡ w.audit_context)
  unfolding provider_call
  recorded_call_lem tool args w =
      let e =
        recorded-appends platform integration tool args (λ s. s) (provider_call answer tool args)
          w in
      (ap (λ r. r.1.claims) e, ap (λ r. r.1.effects) e, ap (λ r. r.1.audit_context) e)

  -- The world in which the provider is called: the key is claimed, the context published.
  abbrev claimed_world : AuditContext → String → World → World
  claimed_world c key w = record w {
    audit_context = some c;
    claims = insert key (ClaimStatus.pending, none) w.claims;
  }

  after-died_before :
      (w : World) (c : AuditContext) (tool : String) (args : Json)
      → IsOnce w
      → IsOnce (after w (died_before c tool args))
  unfolding after Store.begin
  after-died_before w c tool args h =
      let key = key_in c tool args in
      (
        λ k.
            ground (
              arith,
              h.0 k,
              lookup-insert key k (ClaimStatus.pending, none) w.claims,
              eq_iff key k,
            ),
        λ k r. ground (
          arith,
          h.1 k r,
          lookup-insert key k (ClaimStatus.pending, none) w.claims,
          eq_iff key k,
        ),
      )

  -- With a key that was never claimed the provider is called, and the result stored if it came.
  after-first :
      (w : World) (c : AuditContext) (tool : String) (args : Json)
      → truthy c.workflow_run_id ≡ true
      → IsOnce w
      → lookup (key_in c tool args) w.claims ≡ none
      → IsOnce (after w (finished c tool args))
  unfolding after audit_scope dedupe Store.begin Store.complete
  after-first w c tool args run h free =
      let key = key_in c tool args in
      let e : Effect = record { run = c.workflow_run_id; tool = tool; args = args } in
      let v = claimed_world c key w in
      let sent = recorded_call_lem tool args v in
      let claimed_row : ClaimStatus × Option String = (ClaimStatus.pending, none) in
      elim (Result-cases (recorded_call tool args v).0) [
        | inl (s, p) ↦
            let stored : ClaimStatus × Option String = (ClaimStatus.completed, some s) in
            (
              λ k. ground (
                arith,
                sent,
                h.0 k,
                calls-append k w.effects e,
                eq_iff key k,
                lookup-insert key k claimed_row w.claims,
                lookup-insert key k stored v.claims,
              ),
              λ k r. ground (
                arith,
                sent,
                h.1 k r,
                eq_iff key k,
                lookup-insert key k claimed_row w.claims,
                lookup-insert key k stored v.claims,
              ),
            )
        | inr (x, p) ↦ (
          λ k. ground (
            arith,
            sent,
            h.0 k,
            calls-append k w.effects e,
            eq_iff key k,
            lookup-insert key k claimed_row w.claims,
          ),
          λ k r.
              ground (arith, sent, h.1 k r, eq_iff key k, lookup-insert key k claimed_row w.claims),
        )
      ]

  -- With a key that was claimed nothing is called and no row is written.
  after-known :
      (w : World) (c : AuditContext) (tool : String) (args : Json) (status : ClaimStatus)
      (result : Option String)
      → truthy c.workflow_run_id ≡ true
      → IsOnce w
      → lookup (key_in c tool args) w.claims ≡ some (status, result)
      → IsOnce (after w (finished c tool args)) × IsOnce (after w (died_after c tool args))
  unfolding after audit_scope dedupe begin_and_call Store.begin Store.complete
  after-known w c tool args ClaimStatus.new result run h known =
      absurd (h.1 (key_in c tool args) result known)
  after-known w c tool args ClaimStatus.pending result run h known = (
    (λ k. ground (arith, h.0 k), λ k r. ground (arith, h.1 k r)),
    (λ k. ground (arith, h.0 k), λ k r. ground (arith, h.1 k r)),
  )
  after-known w c tool args ClaimStatus.completed none run h known = (
    (λ k. ground (arith, h.0 k), λ k r. ground (arith, h.1 k r)),
    (λ k. ground (arith, h.0 k), λ k r. ground (arith, h.1 k r)),
  )
  after-known w c tool args ClaimStatus.completed (some s) run h known = (
    (λ k. ground (arith, h.0 k), λ k r. ground (arith, h.1 k r)),
    (λ k. ground (arith, h.0 k), λ k r. ground (arith, h.1 k r)),
  )

  -- A process that dies after the call leaves the key pending.
  after-died_first :
      (w : World) (c : AuditContext) (tool : String) (args : Json)
      → IsOnce w
      → lookup (key_in c tool args) w.claims ≡ none
      → IsOnce (after w (died_after c tool args))
  unfolding after audit_scope begin_and_call Store.begin
  after-died_first w c tool args h free =
      let key = key_in c tool args in
      let e : Effect = record { run = c.workflow_run_id; tool = tool; args = args } in
      let v = claimed_world c key w in
      let sent = recorded_call_lem tool args v in
      let row : ClaimStatus × Option String = (ClaimStatus.pending, none) in
      (
        λ k. ground (
          arith,
          sent,
          h.0 k,
          calls-append k w.effects e,
          eq_iff key k,
          lookup-insert key k row w.claims,
        ),
        λ k r. ground (arith, sent, h.1 k r, eq_iff key k, lookup-insert key k row w.claims),
      )

  abbrev context_of : Attempt → AuditContext
  context_of (finished c tool args) = c
  context_of (died_before c tool args) = c
  context_of (died_after c tool args) = c

  -- Every attempt is made in a run.
  abbrev pub InRun : Attempt → Type 0
  InRun a = truthy (context_of a).workflow_run_id ≡ true

  after-IsOnce : (w : World) (a : Attempt) → InRun a → IsOnce w → IsOnce (after w a)
  after-IsOnce w (died_before c tool args) run h = after-died_before w c tool args h
  after-IsOnce w (finished c tool args) run h =
      elim (Option-cases (lookup (key_in c tool args) w.claims)) [
        | inl free ↦ after-first w c tool args run h free
        | inr ((status, result), known) ↦ (after-known w c tool args status result run h known).0
      ]
  after-IsOnce w (died_after c tool args) run h =
      elim (Option-cases (lookup (key_in c tool args) w.claims)) [
        | inl free ↦ after-died_first w c tool args h free
        | inr ((status, result), known) ↦ (after-known w c tool args status result run h known).1
      ]

  after_all-IsOnce :
      (w : World) (attempts : List Attempt)
      → All InRun attempts
      → IsOnce w
      → IsOnce (after_all w attempts)
  unfolding after_all
  after_all-IsOnce w [] runs h = h
  after_all-IsOnce w (a ∷ rest) runs h =
      after_all-IsOnce (after w a) rest runs.1 (after-IsOnce w a runs.0 h)

  -- From a start with no calls and no claims, whatever the provider answers, after any sequence of
  -- calls, retries and crashes in runs, in any order and of any runs, each key has reached the
  -- provider at most once.
  pub at_most_once :
      (w : World) (attempts : List Attempt)
      → w.effects ≡ []
      → w.claims ≡ []
      → All InRun attempts
      → (key : String) → calls key (after_all w attempts).effects ≤ 1
  unfolding calls lookup
  at_most_once w attempts no_calls no_claims runs key =
      let start : IsOnce w = (λ k. ground arith, λ k r. ground arith) in
      ground (arith, (after_all-IsOnce w attempts runs start).0 key)
