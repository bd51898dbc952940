-- ===== src/Idempotency/Replay.antt =====
-- What a second call of a deduped write does, over the in-memory store.
use brokerops.Base.{String, ◌≡◌, ◌∙◌, refl, sym, Option, none, some, arith, Option-cases, inl, inr}
use brokerops.Base.Dict.{lookup, insert, lookup-insert_self}
use mathlib.Core.Path.{subst}
use brokerops.Models.Json.{Json}
use brokerops.Models.Records.{ClaimStatus, IdempotencyClaim}
use brokerops.World.{Platform, World, Error, Exec, Result, ok, err, replay_in_progress, lift, ◌>>=◌}
use brokerops.Stores.Claims as Store
use brokerops.Stores.Claims.{idempotency_store}
use brokerops.Idempotency.{Codec, idempotency_key, current_run_id, dedupe, dedupe_in, claimed}

module _ {A : Type 0} (platform : Platform) (codec : Codec A) (tool : String) (args : Json) where
  abbrev pub deduped : Exec A → Exec A
  deduped = dedupe platform idempotency_store codec tool args

  -- In a run, a write whose key is completed returns the stored result and changes nothing, and one
  -- whose key is pending is refused and changes nothing, whatever the write itself would do.
  pub replay_lem :
      (run : String) (inner : Exec A) (w : World)
      → current_run_id w.audit_context ≡ some run
      → let key = idempotency_key platform run tool args in
        ((r : String) (a : A)
          → lookup key w.claims ≡ some (ClaimStatus.completed, some r)
          → codec.decode r ≡ ok a
          → deduped inner w ≡ (ok a, w))
        × ((r : Option String)
            → lookup key w.claims ≡ some (ClaimStatus.pending, r)
            → deduped inner w ≡ (err (replay_in_progress tool key), w))
  unfolding dedupe Store.begin
  replay_lem run inner w h = (λ r a found back. ground arith, λ r found. ground arith)

  -- The key is completed with a text that decodes to the value.
  abbrev pub IsStored : String → A → World → Type 0
  IsStored key a w =
      (r : String) × (lookup key w.claims ≡ some (ClaimStatus.completed, some r))
      × (codec.decode r ≡ ok a)

  claimed-IsStored :
      (key : String) (inner : Exec A) (status : ClaimStatus) (result : Option String) (v : World)
      (a : A)
      → (codec.decode (codec.encode a) ≡ ok a)
      → (status ≡ ClaimStatus.completed
          → lookup key v.claims ≡ some (ClaimStatus.completed, result))
      → let call =
          claimed platform idempotency_store codec tool key inner
            (record { status = status; result = result })
            v in
        call.0 ≡ ok a → IsStored key a call.1
  unfolding claimed Store.complete
  claimed-IsStored key inner ClaimStatus.new result v a back found returned = (
    codec.encode a,
    ground (
      arith,
      lookup-insert_self key (ClaimStatus.completed, some (codec.encode a)) (inner v).1.claims,
    ),
    back,
  )
  claimed-IsStored key inner ClaimStatus.pending result v a back found returned = cc
  claimed-IsStored key inner ClaimStatus.completed none v a back found returned = cc
  claimed-IsStored key inner ClaimStatus.completed (some r) v a back found returned =
      (r, found refl, ground arith)

  -- The claim always returns; a completed one is what the store holds.
  begun :
      (key : String) (w : World)
      → (status : ClaimStatus) × (result : Option String) × (v : World) × (Store.begin key w
          ≡ (ok (record { status = status; result = result }), v))
        × (status ≡ ClaimStatus.completed
            → lookup key v.claims ≡ some (ClaimStatus.completed, result))
  unfolding Store.begin
  begun key w = elim (Option-cases (lookup key w.claims)) [
    | inl e ↦ (
      ClaimStatus.new,
      none,
      record w { claims = insert key (ClaimStatus.pending, none) w.claims },
      ground arith,
      λ c. cc,
    )
    | inr ((status, result), e) ↦ (status, result, w, ground arith, λ c. ground arith)
  ]

  dedupe_in-IsStored :
      (run : String) (inner : Exec A) (w : World) (a : A)
      → (codec.decode (codec.encode a) ≡ ok a)
      → let call = dedupe_in platform idempotency_store codec tool args inner (some run) w in
        call.0 ≡ ok a → IsStored (idempotency_key platform run tool args) a call.1
  unfolding dedupe_in
  dedupe_in-IsStored run inner w a back =
      let key = idempotency_key platform run tool args in
      let (status, result, v, e, found) = begun key w in
      subst
        (λ (b : Result IdempotencyClaim × World).
          let call : Result A × World =
            (lift b.0 >>= claimed platform idempotency_store codec tool key inner) b.1 in
          call.0 ≡ ok a → IsStored key a call.1)
        (sym e) (claimed-IsStored key inner status result v a back found)

  deduped-IsStored :
      (run : String) (inner : Exec A) (w : World) (a : A)
      → (codec.decode (codec.encode a) ≡ ok a)
      → current_run_id w.audit_context ≡ some run
      → (deduped inner w).0 ≡ ok a
      → IsStored (idempotency_key platform run tool args) a (deduped inner w).1
  unfolding dedupe
  deduped-IsStored run inner w a back h = rw h (dedupe_in-IsStored run inner w a back)

  -- A call that returned is replayed: a second call of the same write in the same run, whatever it
  -- would do itself, returns the same value and changes nothing, as often as it is made.
  pub dedupe-replays :
      (run : String) (inner again : Exec A) (w : World) (a : A)
      → ((x : A) → codec.decode (codec.encode x) ≡ ok x)
      → current_run_id w.audit_context ≡ some run
      → (deduped inner w).0 ≡ ok a
      → current_run_id (deduped inner w).1.audit_context ≡ some run
      → deduped again (deduped inner w).1 ≡ (ok a, (deduped inner w).1)
  dedupe-replays run inner again w a back h returned same =
      let (r, found, read) = deduped-IsStored run inner w a (back a) h returned in
      (replay_lem run again (deduped inner w).1 same).0 r a found read

  dedupe_first :
      (run : String) (inner : Exec A) (w : World) (e : Error)
      → let key = idempotency_key platform run tool args in
        let v : World = record w { claims = insert key (ClaimStatus.pending, none) w.claims } in
        current_run_id w.audit_context ≡ some run
        → lookup key w.claims ≡ none
        → (inner v).0 ≡ err e
        → deduped inner w ≡ (err e, (inner v).1)
  unfolding dedupe Store.begin
  dedupe_first run inner w e h free raised = ground arith

  -- The first call of a write whose provider raises: the error comes through, and as long as nothing
  -- else writes the key, every later call of that write in that run is refused before it is made.
  pub dedupe-refuses_retry :
      (run : String) (inner again : Exec A) (w : World) (e : Error)
      → let key = idempotency_key platform run tool args in
        let v : World = record w { claims = insert key (ClaimStatus.pending, none) w.claims } in
        current_run_id w.audit_context ≡ some run
        → lookup key w.claims ≡ none
        → (inner v).0 ≡ err e
        → lookup key (inner v).1.claims ≡ lookup key v.claims
        → current_run_id (inner v).1.audit_context ≡ some run
        → ((deduped inner w).0 ≡ err e)
          × (deduped again (deduped inner w).1
              ≡ (err (replay_in_progress tool key), (deduped inner w).1))
  dedupe-refuses_retry run inner again w e h free raised kept same =
      let key = idempotency_key platform run tool args in
      let v : World = record w { claims = insert key (ClaimStatus.pending, none) w.claims } in
      let held = kept ∙ lookup-insert_self key (ClaimStatus.pending, none) w.claims in
      rw (dedupe_first run inner w e h free raised)
        (refl, (replay_lem run again (inner v).1 same).1 none held)
