-- ===== src/Tools/Tenants/Authorized.antt =====
-- When services/tool_authz.py lets a call through, and what it does otherwise.
use brokerops.Base.{String, ◌≡◌, refl, ap, ◌∙◌, false, Option, none, some, List, [], ◌∷◌, ◌++◌}
use brokerops.World.{World, Platform, Exec, Error, Result, cross_tenant, pure, catch, ◌>>=◌, ◌>>◌}
use brokerops.Ports.{AuditLog}
use brokerops.Tenancy.{enforce_tenant, record_cross_tenant_attempt}
use brokerops.Scoped.Foreign.{reraise}
use brokerops.Tools.Value.{Value}
use brokerops.Tools.Tenants.{tenant_values, authorize_all, authorize_args, authorized, denied}
use brokerops.Tools.Tenants.Checks.{
  first_foreign, raise-bind, decided, decided-bind, decided_cong, decided-append, check_tenants_lem,
  check_tenants,
}

-- The tenants that the arguments name, in the order in which they are checked.
abbrev pub named_tenants : List (String × Value) → List String
named_tenants [] = []
named_tenants ((name, v) ∷ args) = tenant_values false name v ++ named_tenants args

-- The call, or the refusal of a foreign tenant.
abbrev pub unless_foreign :
    {A : Type 0} → Platform → Option AuditLog → String → String → Option String → Exec A → Exec A
unless_foreign platform audit tool bound none call = call
unless_foreign {A} platform audit tool bound (some t) call =
    denied platform audit {A = A} tool (cross_tenant t bound)

module _ (platform : Platform) (audit : Option AuditLog) (tool : String) where
  abbrev pub refusal : (A : Type 0) → Error → Exec A
  refusal A = denied platform audit {A = A} tool

  pub refusal-stops :
      (A B : Type 0) (t bound : String) (f : A → Exec B) (w : World)
      → (refusal A (cross_tenant t bound) >>= f) w ≡ refusal B (cross_tenant t bound) w
  unfolding denied reraise
  refusal-stops A B t bound f w = go audit
    where
      go :
          (log : Option AuditLog)
          → (denied platform log {A = A} tool (cross_tenant t bound) >>= f) w
            ≡ denied platform log {A = B} tool (cross_tenant t bound) w
      go none = refl
      go (some log) =
          let r = record_cross_tenant_attempt platform log t bound tool w in
          raise-bind r.0 r.1 (cross_tenant t bound) f

  authorize_all-is :
      (ts : List String)
      → authorize_all platform audit tool ts ≡ check_tenants refusal refusal-stops ts
  unfolding authorize_all
  authorize_all-is [] = refl
  authorize_all-is (t ∷ ts) =
      ap (λ (k : Exec (Unit {0})). catch (enforce_tenant t) (refusal String) >>= λ _. k)
        (authorize_all-is ts)

  authorize_args_lem :
      (bound : String) (args : List (String × Value)) (w : World)
      → w.tenant ≡ some bound
      → authorize_args platform audit tool args w
        ≡ decided refusal refusal-stops
            (Unit {0})
            bound
            (first_foreign bound (named_tenants args))
            (pure tt)
            w
  unfolding authorize_args
  authorize_args_lem bound [] w h = refl
  authorize_args_lem bound ((name, v) ∷ args) w h =
      let ts = tenant_values false name v in
      let rest = first_foreign bound (named_tenants args) in
      ap (λ (m : Exec (Unit {0})). (m >> authorize_args platform audit tool args) w)
        (authorize_all-is ts)
      ∙ ap
          (λ (r : Result (Unit {0}) × World).
            ((λ (_ : World). r) >> authorize_args platform audit tool args) w)
          (check_tenants_lem refusal refusal-stops bound ts w h)
      ∙ decided-bind refusal refusal-stops (Unit {0}) bound (first_foreign bound ts)
          (authorize_args platform audit tool args) w
      ∙ decided_cong refusal refusal-stops (Unit {0}) bound (first_foreign bound ts)
          (authorize_args platform audit tool args)
          (decided refusal refusal-stops (Unit {0}) bound rest (pure tt)) w
          (authorize_args_lem bound args w h)
      ∙ decided-append refusal refusal-stops (Unit {0}) bound ts (named_tenants args) (pure tt) w

-- Under a bound tenant, a guarded call is the call itself when no argument names another tenant, at any depth
-- that counts. Otherwise the call is not made: the result is the refusal of the first such tenant, recorded
-- when there is a ledger.
pub authorized-unless_foreign :
    {A : Type 0} (platform : Platform) (audit : Option AuditLog) (tool bound : String)
    (args : List (String × Value)) (call : Exec A) (w : World)
    → w.tenant ≡ some bound
    → authorized platform audit tool args call w
      ≡ unless_foreign platform audit tool bound (first_foreign bound (named_tenants args)) call w
unfolding authorized
authorized-unless_foreign {A} platform audit tool bound args call w h =
    let refuse = refusal platform audit tool in
    let stops = refusal-stops platform audit tool in
    ap (λ (r : Result (Unit {0}) × World). ((λ (_ : World). r) >> call) w)
      (authorize_args_lem platform audit tool bound args w h)
    ∙ decided-bind refuse stops A bound (first_foreign bound (named_tenants args)) call w
    ∙ same (first_foreign bound (named_tenants args))
  where
    same :
        (o : Option String)
        → decided (refusal platform audit tool) (refusal-stops platform audit tool) A bound o call w
          ≡ unless_foreign platform audit tool bound o call w
    same none = refl
    same (some t) = refl
