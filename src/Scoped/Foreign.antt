-- ===== src/Scoped/Foreign.antt =====
-- `_is_foreign`, the deny-and-audit step that the decorators share, and the rows of other tenants.
use brokerops.Base.{String, Bool, Option, none, some, ◌&&◌, not, ◌==◌, truthy, if◌then◌else◌}
use brokerops.World.{Platform, Exec, Error, cross_tenant, raise, catch, ◌>>◌}
use brokerops.Ports.{AuditLog}
use brokerops.Tenancy.{enforce_tenant, record_cross_tenant_attempt}

-- A non-empty tenant that is not the bound one; an unstamped row counts as owned.
unfoldable pub is_foreign : String → String → Bool
is_foreign row_tenant ambient = truthy row_tenant && not (row_tenant == ambient)

module _ (platform : Platform) (audit : AuditLog) where
  -- The record of a refusal, and the refusal.
  unfoldable pub deny : {A : Type 0} → String → String → String → Exec A
  unfolding record_cross_tenant_attempt
  deny tool attempted bound = do
    record_cross_tenant_attempt platform audit attempted bound tool
    raise (cross_tenant attempted bound)

  -- A cross-tenant error is recorded and raised again; other errors pass.
  unfoldable pub reraise : {A : Type 0} → String → Error → Exec A
  unfolding record_cross_tenant_attempt
  reraise tool (cross_tenant attempted bound) = do
    record_cross_tenant_attempt platform audit attempted bound tool
    raise (cross_tenant attempted bound)
  reraise tool e = raise e

  -- The check of a claimed tenant on a write.
  unfoldable pub stamp : String → String → Exec String
  unfolding enforce_tenant reraise
  stamp claimed tool = catch (enforce_tenant claimed) (reraise tool)

-- What a table holds under a key of a tenant other than `ambient`.
unfoldable pub foreign_part : {V : Type 0} → (V → String) → String → Option V → Option V
unfolding is_foreign
foreign_part tenant_of ambient none = none
foreign_part tenant_of ambient (some row) =
    if is_foreign (tenant_of row) ambient then some row else none
