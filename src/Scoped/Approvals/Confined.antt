-- ===== src/Scoped/Approvals/Confined.antt =====
-- The scoped approval repository over the in-memory one: which rows of other tenants it can reach.
use brokerops.Base.{
  ℕ, String, ◌≡◌, ◌≢◌, refl, ◌∙◌, true, Option, some, List, [], ◌∷◌, arith, eq_iff, Option-cases,
  inl, inr,
}
use brokerops.Base.Dict.{lookup, lookup-insert, lookup-insert_self}
use brokerops.Models.Records.{ApprovalRequest, ApprovalStatus}
use brokerops.World.{Platform, World, ok}
use brokerops.Stores.Approvals as Store
use brokerops.Stores.Approvals.{approval_repo}
use brokerops.Stores.AuditLog as Ledger
use brokerops.Stores.AuditLog.{audit_log}
use brokerops.Scoped.Foreign.{is_foreign, foreign_part}
use brokerops.Scoped.Approvals.{create, get, list, mark_decided}

-- The calls on approvals that are there already.
pub data ApprovalOp : Type 0 where
  get_approval : String → ApprovalOp
  list_approvals : Option ApprovalStatus → ApprovalOp
  decide : String → ApprovalStatus → String → ℕ → ApprovalOp

module _ (platform : Platform) where
  unfoldable pub after : World → ApprovalOp → World
  after w (get_approval id) = (get platform audit_log approval_repo id w).1
  after w (list_approvals s) = (list platform audit_log approval_repo s w).1
  after w (decide id s by at) = (mark_decided platform audit_log approval_repo id s by at w).1

  unfoldable pub after_all : World → List ApprovalOp → World
  unfolding after
  after_all w [] = w
  after_all w (op ∷ ops) = after_all (after w op) ops

  abbrev tenant_of : ApprovalRequest → String
  tenant_of a = a.tenant_id

  abbrev pub KeepsForeign : String → World → World → Type 0
  KeepsForeign t w w' =
      (w'.tenant ≡ w.tenant)
      × ((k : String)
          → foreign_part tenant_of t (lookup k w'.approvals)
            ≡ foreign_part tenant_of t (lookup k w.approvals))

  after-KeepsForeign :
      (t : String) (w : World) (op : ApprovalOp) → w.tenant ≡ some t → KeepsForeign t w (after w op)
  unfolding after get list mark_decided Store.get Store.list Store.mark_decided foreign_part
      Ledger.record_mutation
  after-KeepsForeign t w (get_approval id) h = (ground arith, λ k. ground arith)
  after-KeepsForeign t w (list_approvals s) h = (ground arith, λ k. ground arith)
  after-KeepsForeign t w (decide id s by at) h = elim (Option-cases (lookup id w.approvals)) [
    | inl e ↦ (ground arith, λ k. ground arith)
    | inr (a, e) ↦ (
      ground arith,
      λ k. ground (
        arith,
        lookup-insert id k (record a { status = s; decided_by = some by; decided_at = some at })
            w.approvals,
        eq_iff id k,
      ),
    )
  ]

  -- Under a bound tenant, any sequence of reads and decisions keeps every approval of another tenant
  -- as it was.
  pub approval_ops-KeepsForeign :
      (t : String) (w : World) (ops : List ApprovalOp)
      → w.tenant ≡ some t
      → KeepsForeign t w (after_all w ops)
  unfolding after_all
  approval_ops-KeepsForeign t w [] h = (refl, λ k. refl)
  approval_ops-KeepsForeign t w (op ∷ ops) h =
      let now = after-KeepsForeign t w op h in
      let later = approval_ops-KeepsForeign t (after w op) ops (now.0 ∙ h) in
      (later.0 ∙ now.0, λ k. later.1 k ∙ now.1 k)

  -- `create` looks only at the claim: under a bound tenant an unstamped request whose id is that of
  -- another tenant's approval succeeds, and the other tenant's row is replaced by the new one.
  pub create-replaces_foreign :
      (t : String) (w : World) (a old : ApprovalRequest)
      → w.tenant ≡ some t
      → a.tenant_id ≡ ""
      → lookup a.id w.approvals ≡ some old
      → is_foreign old.tenant_id t ≡ true
      → ((create platform audit_log approval_repo a w).0 ≡ ok tt)
        × (lookup a.id (create platform audit_log approval_repo a w).1.approvals
            ≡ some (record a { tenant_id = t }))
        × (some (record a { tenant_id = t }) ≢ some old)
  unfolding create Store.create is_foreign
  create-replaces_foreign t w a old h claim found foreign = (
    ground (arith, eq_iff a.tenant_id ""),
    ground (
      arith,
      eq_iff a.tenant_id "",
      lookup-insert_self a.id (record a { tenant_id = t }) w.approvals,
    ),
    λ e. ground (arith, eq_iff t t),
  )
