-- ===== src/Scoped/Approvals.antt =====
-- ScopedApprovalRepo, over any inner repository and any ledger.
pub mod Confined
use brokerops.Base.{ℕ, String, Option, none, some, List, not, if◌then◌else◌}
use brokerops.Base.Lists.{keep}
use brokerops.Models.Records.{ApprovalRequest, ApprovalStatus}
use brokerops.World.{Platform, Exec, pure, ◌>>=◌, ◌>>◌}
use brokerops.Ports.{AuditLog, ApprovalRepo}
use brokerops.Tenancy.{require_tenant, record_cross_tenant_attempt}
use brokerops.Scoped.Foreign.{is_foreign, deny, stamp}

module _ (platform : Platform) (audit : AuditLog) (inner : ApprovalRepo) where
  -- Only the claim is checked: what stands under the id already is not looked at.
  unfoldable pub create : ApprovalRequest → Exec (Unit {0})
  unfolding stamp
  create a = do
    tenant ← stamp platform audit a.tenant_id "create_approval"
    inner.create (record a { tenant_id = tenant })

  unfoldable pub hide_foreign : String → Option ApprovalRequest → Exec (Option ApprovalRequest)
  unfolding is_foreign record_cross_tenant_attempt
  hide_foreign ambient none = pure none
  hide_foreign ambient (some a) =
      if is_foreign a.tenant_id ambient
      then record_cross_tenant_attempt platform audit a.tenant_id ambient "get_approval"
        >> pure none
      else pure (some a)

  unfoldable pub get : String → Exec (Option ApprovalRequest)
  unfolding require_tenant hide_foreign
  get id = do ambient ← require_tenant; found ← inner.get id; hide_foreign ambient found

  unfoldable pub list : Option ApprovalStatus → Exec (List ApprovalRequest)
  unfolding require_tenant is_foreign
  list status = do
    ambient ← require_tenant
    rows ← inner.list status
    pure (keep (λ (a : ApprovalRequest). not (is_foreign a.tenant_id ambient)) rows)

  unfoldable pub guard_existing : String → Option ApprovalRequest → Exec (Unit {0})
  unfolding is_foreign deny
  guard_existing ambient none = pure tt
  guard_existing ambient (some a) =
      if is_foreign a.tenant_id ambient
      then deny platform audit "mark_decided" a.tenant_id ambient
      else pure tt

  unfoldable pub mark_decided : String → ApprovalStatus → String → ℕ → Exec (Unit {0})
  unfolding require_tenant guard_existing
  mark_decided id status decided_by decided_at = do
    ambient ← require_tenant
    existing ← inner.get id
    guard_existing ambient existing
    inner.mark_decided id status decided_by decided_at

  abbrev pub scoped_approval_repo : ApprovalRepo
  scoped_approval_repo = record {
    create = create;
    get = get;
    list = list;
    mark_decided = mark_decided;
  }
