-- ===== src/Scoped/Documents/Confined.antt =====
-- The scoped document store over the in-memory one, call by call.
use brokerops.Base.{
  String, ◌≡◌, refl, ◌∙◌, ◌⊎◌, inl, Option, none, some, List, [], ◌∷◌, arith, eq_iff,
}
use brokerops.Base.Dict.{lookup, lookup-insert}
use brokerops.Models.Milestone.{Document}
use brokerops.World.{Platform, World}
use brokerops.Stores.Documents as Store
use brokerops.Stores.Documents.{document_store}
use brokerops.Stores.AuditLog as Ledger
use brokerops.Stores.AuditLog.{audit_log}
use brokerops.Scoped.Documents.{add, get, list_for_transaction}

-- The calls that a client of the scoped store can make.
pub data DocumentOp : Type 0 where
  add_document : Document → DocumentOp
  get_document : String → DocumentOp
  list_documents : String → DocumentOp

module _ (platform : Platform) where
  unfoldable pub after : World → DocumentOp → World
  after w (add_document d) = (add platform audit_log document_store d w).1
  after w (get_document id) = (get platform audit_log document_store id w).1
  after w (list_documents id) = (list_for_transaction platform audit_log document_store id w).1

  unfoldable pub after_all : World → List DocumentOp → World
  unfolding after
  after_all w [] = w
  after_all w (op ∷ ops) = after_all (after w op) ops

  abbrev IsOwn : String → Option Document → Type 0
  IsOwn t none = ⊥
  IsOwn t (some d) = d.tenant_id ≡ t

  -- The binding is kept, and under each id is what was there, or a document of the bound tenant where
  -- there was none.
  abbrev pub OnlyAdds : String → World → World → Type 0
  OnlyAdds t w w' =
      (w'.tenant ≡ w.tenant)
      × ((k : String)
          → (lookup k w'.documents ≡ lookup k w.documents)
            ⊎ ((lookup k w.documents ≡ none) × IsOwn t (lookup k w'.documents)))

  after-add :
      (t : String) (w : World) (d : Document)
      → w.tenant ≡ some t
      → OnlyAdds t w (after w (add_document d))
  unfolding after add Store.add Store.get Ledger.record_mutation
  after-add t w d h =
      let new : Document = record d { tenant_id = t } in
      (
        ground arith,
        λ k. ground (
          arith,
          lookup-insert d.id k new w.documents,
          eq_iff d.id k,
          eq_iff d.tenant_id "",
          eq_iff d.tenant_id t,
        ),
      )

  after-OnlyAdds :
      (t : String) (w : World) (op : DocumentOp) → w.tenant ≡ some t → OnlyAdds t w (after w op)
  unfolding after get list_for_transaction Store.get Store.list_for_transaction
      Ledger.record_mutation
  after-OnlyAdds t w (add_document d) h = after-add t w d h
  after-OnlyAdds t w (get_document id) h = (ground arith, λ k. inl (ground arith))
  after-OnlyAdds t w (list_documents id) h = (ground arith, λ k. inl (ground arith))

  -- Under a bound tenant, any sequence of calls of the scoped document store, failing ones included,
  -- changes and removes no document of any tenant, and each document it adds is the bound tenant's.
  pub document_ops-OnlyAdds :
      (t : String) (w : World) (ops : List DocumentOp)
      → w.tenant ≡ some t
      → OnlyAdds t w (after_all w ops)
  unfolding after_all
  document_ops-OnlyAdds t w [] h = (refl, λ k. inl refl)
  document_ops-OnlyAdds t w (op ∷ ops) h =
      let now = after-OnlyAdds t w op h in
      let later = document_ops-OnlyAdds t (after w op) ops (now.0 ∙ h) in
      (later.0 ∙ now.0, λ k. ground (arith, now.1 k, later.1 k))
