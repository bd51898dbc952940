-- ===== src/Stores/Claims.antt =====
-- InMemoryIdempotencyStore: a key is pending from its first claim until a result is stored.
use brokerops.Base.{String, none, some}
use brokerops.Base.Dict.{lookup, insert}
use brokerops.Models.Records.{ClaimStatus, IdempotencyClaim}
use brokerops.World.{Exec, ok, modify}
use brokerops.Ports.{IdempotencyStore}

unfoldable pub begin : String → Exec IdempotencyClaim
unfolding lookup insert
begin key w = elim (lookup key w.claims) [
  | none ↦ (
    ok (record { status = ClaimStatus.new; result = none }),
    record w { claims = insert key (ClaimStatus.pending, none) w.claims },
  )
  | some (status, result) ↦ (ok (record { status = status; result = result }), w)
]

unfoldable pub complete : String → String → Exec (Unit {0})
unfolding insert
complete key result =
    modify (λ w. record w { claims = insert key (ClaimStatus.completed, some result) w.claims })

abbrev pub idempotency_store : IdempotencyStore
idempotency_store = record { begin = begin; complete = complete }
