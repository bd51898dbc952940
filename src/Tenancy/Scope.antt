-- ===== src/Tenancy/Scope.antt =====
-- The binding of a tenant: what a scope shows its body, and that it is undone on every way out.
use brokerops.Base.{
  String, ◌≡◌, ◌↔◌, ◌⊎◌, ◌∙◌, sym, ap, some, arith, eq_iff, inl, inr, Option-cases,
}
use brokerops.World.{World, ok, Exec, ◌>>=◌}
use brokerops.Tenancy.{require_tenant, enforce_tenant, tenant_scope}

-- Whatever the body does, and whether it returns or raises, a scope leaves the binding as it was.
pub tenant_scope-tenant :
    {A : Type 0} (t : String) (body : Exec A) (w : World)
    → (tenant_scope t body w).1.tenant ≡ w.tenant
unfolding tenant_scope
tenant_scope-tenant t body w = ground (arith, eq_iff t "")

-- `enforce_tenant` succeeds exactly when a tenant is bound and the claim is empty or is that tenant;
-- it then returns the bound tenant.
pub enforce_tenant-eq_ok :
    (claimed t : String) (w : World)
    → ((enforce_tenant claimed w).0 ≡ ok t)
      ↔ ((w.tenant ≡ some t) × ((claimed ≡ "") ⊎ (claimed ≡ t)))
unfolding enforce_tenant
enforce_tenant-eq_ok claimed t w = (
  λ h. elim (Option-cases w.tenant) [
    | inl e ↦ ground arith
    | inr (b, e) ↦ ground (arith, eq_iff claimed "", eq_iff claimed b)
  ],
  λ h. ground (arith, eq_iff claimed "", eq_iff claimed t),
)

-- Under a bound tenant the code after `require_tenant` runs with it, in the same world.
pub require_tenant-bind :
    {B : Type 0} (f : String → Exec B) (t : String) (w : World)
    → w.tenant ≡ some t
    → (require_tenant >>= f) w ≡ f t w
unfolding require_tenant
require_tenant-bind f t w h = ground arith

pub require_tenant-returns :
    {B : Type 0} (f : String → Exec B) (t : String) (w : World) {b : B}
    → w.tenant ≡ some t
    → ((require_tenant >>= f) w).0 ≡ ok b
    → (f t w).0 ≡ ok b
require_tenant-returns f t w h e = sym (ap (λ r. r.0) (require_tenant-bind f t w h)) ∙ e
