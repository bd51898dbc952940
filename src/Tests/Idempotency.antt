-- ===== src/Tests/Idempotency.antt =====
-- The audit and idempotency theorems at concrete calls.
use brokerops.Base.{◌≤◌, String, ◌≡◌, refl, some, List, [], ◌∷◌}
use brokerops.Base.Dict.{lookup}
use brokerops.Models.Json.{str}
use brokerops.World.{World, ok, err, Exec, blank, raise, pure, provider_error, replay_in_progress}
use brokerops.Stores.AuditLog.{audit_log}
use brokerops.Stores.Claims.{idempotency_store}
use brokerops.Stores.Claims as Claims
use brokerops.Audit.{recorded}
use brokerops.Audit.Recording.Laws.{appended, recorded-appends}
use brokerops.Idempotency.{text_codec, idempotency_key, dedupe}
use brokerops.Idempotency.Replay.{deduped, dedupe-replays, dedupe-refuses_retry}
use brokerops.Idempotency.AtMostOnce.{
  Attempt, finished, died_before, died_after, after_all, calls, at_most_once,
}
use brokerops.Tests.Data.{platform, context}

abbrev failing : Exec String
failing = raise (provider_error "timeout")

recorded-appends_example :
    recorded platform audit_log "crm" "add_note" (str "x") (λ s. s) failing blank ≡ (
      err (provider_error "timeout"),
      appended platform "crm" "add_note"
          (str "x")
          (λ (s : String). s)
          (err (provider_error "timeout"))
          blank,
    )
recorded-appends_example =
    recorded-appends platform "crm" "add_note" (str "x") (λ s. s) failing blank

abbrev in_run : World
in_run = record blank { audit_context = some context }

abbrev noted : Exec String
noted = pure "note-7"

dedupe-replays_example :
    deduped platform text_codec "add_note"
      (str "x")
      failing
      (deduped platform text_codec "add_note" (str "x") noted in_run).1
    ≡ (ok "note-7", (deduped platform text_codec "add_note" (str "x") noted in_run).1)
unfolding dedupe Claims.begin Claims.complete
dedupe-replays_example =
    dedupe-replays platform text_codec "add_note" (str "x") "run1" noted failing in_run "note-7"
      (λ x. refl) refl refl refl

dedupe-refuses_retry_example :
    ((deduped platform text_codec "add_note" (str "x") failing in_run).0
      ≡ err (provider_error "timeout"))
    × (deduped platform text_codec "add_note"
          (str "x")
          noted
          (deduped platform text_codec "add_note" (str "x") failing in_run).1
        ≡ (
          err (
              replay_in_progress "add_note" (idempotency_key platform "run1" "add_note" (str "x"))),
          (deduped platform text_codec "add_note" (str "x") failing in_run).1,
        ))
unfolding dedupe lookup
dedupe-refuses_retry_example =
    dedupe-refuses_retry platform text_codec "add_note" (str "x") "run1" failing noted in_run
      (provider_error "timeout") refl refl refl refl refl

abbrev attempts : List Attempt
attempts =
    died_before context "add_note" (str "x")
    ∷ finished context "add_note" (str "x")
    ∷ died_after context "add_note" (str "y")
    ∷ finished context "add_note" (str "y")
    ∷ []

at_most_once_example :
    calls platform
      (λ n. ok "id")
      "crm"
      "key"
      (after_all platform (λ n. ok "id") "crm" blank attempts).effects
    ≤ 1
at_most_once_example =
    at_most_once platform (λ n. ok "id") "crm" blank attempts refl refl
      (refl, (refl, (refl, (refl, tt)))) "key"
