-- ===== src/Scoped/Messages/Confined.antt =====
-- The scoped store over the in-memory one leaves the rows of other tenants alone.
use brokerops.Base.{
  ℕ, String, ◌≡◌, refl, ◌∙◌, Option, some, List, [], ◌∷◌, arith, eq_iff, Option-cases, inl, inr,
}
use brokerops.Base.Dict.{lookup, lookup-insert}
use brokerops.Models.Message.{Message, MessageStatus}
use brokerops.World.{Platform, World}
use brokerops.Stores.Messages
use brokerops.Stores.Messages.{message_store}
use brokerops.Stores.AuditLog as Ledger
use brokerops.Stores.AuditLog.{audit_log}
use brokerops.Scoped.Foreign.{foreign_part}
use brokerops.Scoped.Messages.{
  save_message, get_message, get_message_by_provider_id, list_messages, advance_message_status,
}

-- The calls that a client of the scoped store can make.
pub data MessageOp : Type 0 where
  save : Message → MessageOp
  get : String → MessageOp
  get_by_provider : String → MessageOp
  list : Option String → ℕ → Option String → MessageOp
  advance : String → MessageStatus → MessageOp

module _ (platform : Platform) where
  -- The world after one call, whether it returned or raised.
  unfoldable pub after : World → MessageOp → World
  after w (save m) = (save_message platform audit_log message_store m w).1
  after w (get id) = (get_message platform audit_log message_store id w).1
  after w (get_by_provider pid) =
      (get_message_by_provider_id platform audit_log message_store pid w).1
  after w (list c n t) = (list_messages platform audit_log message_store c n t w).1
  after w (advance id s) = (advance_message_status platform audit_log message_store id s w).1

  unfoldable pub after_all : World → List MessageOp → World
  unfolding after
  after_all w [] = w
  after_all w (op ∷ ops) = after_all (after w op) ops

  abbrev tenant_of : Message → String
  tenant_of m = m.tenant_id

  -- The binding is kept, and so is what the table holds of other tenants.
  abbrev pub KeepsForeign : String → World → World → Type 0
  KeepsForeign t w w' =
      (w'.tenant ≡ w.tenant)
      × ((k : String)
          → foreign_part tenant_of t (lookup k w'.messages)
            ≡ foreign_part tenant_of t (lookup k w.messages))

  after-save :
      (t : String) (w : World) (m : Message)
      → w.tenant ≡ some t
      → KeepsForeign t w (after w (save m))
  unfolding after save_message Messages.get_message foreign_part Messages.save_message
      Ledger.record_mutation
  after-save t w m h = (
    ground arith,
    λ k. ground (
      arith,
      lookup-insert m.id k (record m { tenant_id = t }) w.messages,
      eq_iff m.id k,
      eq_iff m.tenant_id "",
      eq_iff m.tenant_id t,
      eq_iff t t,
    ),
  )

  after-get :
      (t : String) (w : World) (id : String)
      → w.tenant ≡ some t
      → KeepsForeign t w (after w (get id))
  unfolding after get_message Messages.get_message Ledger.record_mutation
  after-get t w id h = (ground arith, λ k. ground arith)

  after-get_by_provider :
      (t : String) (w : World) (pid : String)
      → w.tenant ≡ some t
      → KeepsForeign t w (after w (get_by_provider pid))
  unfolding after get_message_by_provider_id Messages.get_message_by_provider_id
      Ledger.record_mutation
  after-get_by_provider t w pid h = (ground arith, λ k. ground arith)

  after-list :
      (t : String) (w : World) (c : Option String) (n : ℕ) (d : Option String)
      → w.tenant ≡ some t
      → KeepsForeign t w (after w (list c n d))
  unfolding after list_messages Messages.list_messages
  after-list t w c n d h = (ground arith, λ k. ground arith)

  -- An advanced row keeps its tenant, so it is foreign exactly when it was.
  after-advance :
      (t : String) (w : World) (id : String) (s : MessageStatus)
      → w.tenant ≡ some t
      → KeepsForeign t w (after w (advance id s))
  unfolding after advance_message_status Messages.get_message Messages.advance_message_status
      foreign_part Ledger.record_mutation
  after-advance t w id s h = elim (Option-cases (lookup id w.messages)) [
    | inl e ↦ (ground arith, λ k. ground arith)
    | inr (row, e) ↦ (
      ground arith,
      λ k. ground (arith, lookup-insert id k (Messages.advanced row s) w.messages, eq_iff id k),
    )
  ]

  after-KeepsForeign :
      (t : String) (w : World) (op : MessageOp) → w.tenant ≡ some t → KeepsForeign t w (after w op)
  after-KeepsForeign t w (save m) h = after-save t w m h
  after-KeepsForeign t w (get id) h = after-get t w id h
  after-KeepsForeign t w (get_by_provider pid) h = after-get_by_provider t w pid h
  after-KeepsForeign t w (list c n d) h = after-list t w c n d h
  after-KeepsForeign t w (advance id s) h = after-advance t w id s h

  -- Under a bound tenant, any sequence of calls of the scoped store, failing ones included, keeps the
  -- binding and every row of another tenant as it was, and makes no row of another tenant.
  pub message_ops-KeepsForeign :
      (t : String) (w : World) (ops : List MessageOp)
      → w.tenant ≡ some t
      → KeepsForeign t w (after_all w ops)
  unfolding after_all
  message_ops-KeepsForeign t w [] h = (refl, λ k. refl)
  message_ops-KeepsForeign t w (op ∷ ops) h =
      let now = after-KeepsForeign t w op h in
      let later = message_ops-KeepsForeign t (after w op) ops (now.0 ∙ h) in
      (later.0 ∙ now.0, λ k. later.1 k ∙ now.1 k)
