-- ===== src/Tools/Egress/Filtered.antt =====
-- When services/egress.py lets a response out, and what it does otherwise.
use brokerops.Base.{String, ◌≡◌, refl, ap, ◌∙◌, false, Option, none, some, List, [], ◌∷◌}
use brokerops.Models.Role.{Role}
use brokerops.World.{World, Platform, Exec, Error, Result, cross_tenant, pure, catch, ◌>>=◌, ◌>>◌}
use brokerops.Ports.{AuditLog}
use brokerops.Tenancy.{enforce_tenant, record_cross_tenant_attempt}
use brokerops.Tools.Value.{Value}
use brokerops.Tools.Tenants.{tenant_values}
use brokerops.Tools.Egress.{Pattern, scrub_payload, blocked, check_all, filter_tool_response}
use brokerops.Tools.Tenants.Checks.{
  first_foreign, raise-bind, decided, decided-bind, check_tenants_lem, check_tenants,
}
use brokerops.World.{egress_blocked}

-- The redacted response, or the block of a foreign tenant: no part of the response is returned.
abbrev pub let_out :
    Platform → Option AuditLog → String → String → Option String → Value → Exec Value
let_out platform audit tool bound none v = pure v
let_out platform audit tool bound (some t) v =
    blocked {A = Value} platform audit tool (cross_tenant t bound)

module _ (platform : Platform) (audit : Option AuditLog) (tool : String) where
  abbrev block : (A : Type 0) → Error → Exec A
  block A = blocked {A = A} platform audit tool

  block-stops :
      (A B : Type 0) (t bound : String) (f : A → Exec B) (w : World)
      → (block A (cross_tenant t bound) >>= f) w ≡ block B (cross_tenant t bound) w
  unfolding blocked
  block-stops A B t bound f w = go audit
    where
      go :
          (log : Option AuditLog)
          → (blocked {A = A} platform log tool (cross_tenant t bound) >>= f) w
            ≡ blocked {A = B} platform log tool (cross_tenant t bound) w
      go none = refl
      go (some log) =
          let r = record_cross_tenant_attempt platform log t bound tool w in
          raise-bind r.0 r.1 (egress_blocked t bound) f

  check_all-is :
      (patterns : List Pattern) (role : Role) (ts : List String)
      → check_all platform patterns role audit tool ts ≡ check_tenants block block-stops ts
  unfolding check_all
  check_all-is patterns role [] = refl
  check_all-is patterns role (t ∷ ts) =
      ap (λ (k : Exec (Unit {0})). catch (enforce_tenant t) (block String) >>= λ _. k)
        (check_all-is patterns role ts)

-- Under a bound tenant, a response that names no other tenant leaves redacted for its recipient's role, and
-- one that does is blocked whole: the first such tenant is refused, and recorded when there is a ledger.
pub filter_tool_response-let_out :
    (platform : Platform) (patterns : List Pattern) (role : Role) (audit : Option AuditLog)
    (tool bound : String) (payload : Value) (w : World)
    → w.tenant ≡ some bound
    → filter_tool_response platform patterns role audit tool payload w
      ≡ let_out platform audit tool bound
          (first_foreign bound (tenant_values false "result" payload))
          (scrub_payload patterns platform.lower role payload)
          w
unfolding filter_tool_response
filter_tool_response-let_out platform patterns role audit tool bound payload w h =
    let refuse = block platform audit tool in
    let stops = block-stops platform audit tool in
    let ts = tenant_values false "result" payload in
    ap (λ (m : Exec (Unit {0})). (m >> pure scrubbed) w)
      (check_all-is platform audit tool patterns role ts)
    ∙ ap (λ (r : Result (Unit {0}) × World). ((λ (_ : World). r) >> pure scrubbed) w)
        (check_tenants_lem refuse stops bound ts w h)
    ∙ decided-bind refuse stops Value bound (first_foreign bound ts) (pure scrubbed) w
    ∙ same (first_foreign bound ts)
  where
    scrubbed : Value
    scrubbed = scrub_payload patterns platform.lower role payload

    same :
        (o : Option String)
        → decided
            (block platform audit tool)
            (block-stops platform audit tool)
            Value
            bound
            o
            (pure scrubbed)
            w
          ≡ let_out platform audit tool bound o scrubbed w
    same none = refl
    same (some t) = refl
