-- ===== src/Scoped/Feedback/Confined.antt =====
-- The scoped feedback store over the in-memory one leaves the rows of other tenants alone.
use brokerops.Base.{String, ◌≡◌, refl, ◌∙◌, some, List, [], ◌∷◌, arith, eq_iff}
use brokerops.Base.Dict.{lookup, lookup-insert}
use brokerops.Models.Records.{CallRecord, ShowingFeedback}
use brokerops.World.{Platform, World}
use brokerops.Stores.Feedback as Store
use brokerops.Stores.Feedback.{feedback_store}
use brokerops.Stores.AuditLog as Ledger
use brokerops.Stores.AuditLog.{audit_log}
use brokerops.Scoped.Foreign.{foreign_part}
use brokerops.Scoped.Feedback.{
  save_call_record, get_call_record, upsert_feedback, get_feedback, list_feedback,
}

-- The calls that a client of the scoped store can make.
pub data FeedbackOp : Type 0 where
  save_call : CallRecord → FeedbackOp
  get_call : String → FeedbackOp
  upsert : ShowingFeedback → FeedbackOp
  get : String → FeedbackOp
  list : String → FeedbackOp

module _ (platform : Platform) where
  unfoldable pub after : World → FeedbackOp → World
  after w (save_call r) = (save_call_record platform audit_log feedback_store r w).1
  after w (get_call id) = (get_call_record platform audit_log feedback_store id w).1
  after w (upsert f) = (upsert_feedback platform audit_log feedback_store f w).1
  after w (get id) = (get_feedback platform audit_log feedback_store id w).1
  after w (list key) = (list_feedback platform audit_log feedback_store key w).1

  unfoldable pub after_all : World → List FeedbackOp → World
  unfolding after
  after_all w [] = w
  after_all w (op ∷ ops) = after_all (after w op) ops

  abbrev call_tenant : CallRecord → String
  call_tenant r = r.tenant_id

  abbrev feedback_tenant : ShowingFeedback → String
  feedback_tenant f = f.tenant_id

  abbrev pub KeepsForeign : String → World → World → Type 0
  KeepsForeign t w w' =
      (w'.tenant ≡ w.tenant)
      × ((k : String)
          → foreign_part call_tenant t (lookup k w'.call_records)
            ≡ foreign_part call_tenant t (lookup k w.call_records))
      × ((k : String)
          → foreign_part feedback_tenant t (lookup k w'.feedback)
            ≡ foreign_part feedback_tenant t (lookup k w.feedback))

  after-save_call :
      (t : String) (w : World) (r : CallRecord)
      → w.tenant ≡ some t
      → KeepsForeign t w (after w (save_call r))
  unfolding after save_call_record Store.get_call_record Store.save_call_record foreign_part
      Ledger.record_mutation
  after-save_call t w r h = (
    ground arith,
    λ k. ground (
      arith,
      lookup-insert r.vapi_call_id k (record r { tenant_id = t }) w.call_records,
      eq_iff r.vapi_call_id k,
      eq_iff r.tenant_id "",
      eq_iff r.tenant_id t,
      eq_iff t t,
    ),
    λ k. ground arith,
  )

  after-upsert :
      (t : String) (w : World) (f : ShowingFeedback)
      → w.tenant ≡ some t
      → KeepsForeign t w (after w (upsert f))
  unfolding after upsert_feedback Store.get_feedback Store.upsert_feedback foreign_part
      Ledger.record_mutation
  after-upsert t w f h = (
    ground arith,
    λ k. ground arith,
    λ k. ground (
      arith,
      lookup-insert f.id k (record f { tenant_id = t }) w.feedback,
      eq_iff f.id k,
      eq_iff f.tenant_id "",
      eq_iff f.tenant_id t,
      eq_iff t t,
    ),
  )

  after-KeepsForeign :
      (t : String) (w : World) (op : FeedbackOp) → w.tenant ≡ some t → KeepsForeign t w (after w op)
  unfolding after get_call_record get_feedback list_feedback Store.get_call_record
      Store.get_feedback Store.list_feedback Ledger.record_mutation
  after-KeepsForeign t w (save_call r) h = after-save_call t w r h
  after-KeepsForeign t w (upsert f) h = after-upsert t w f h
  after-KeepsForeign t w (get_call id) h = (ground arith, λ k. ground arith, λ k. ground arith)
  after-KeepsForeign t w (get id) h = (ground arith, λ k. ground arith, λ k. ground arith)
  after-KeepsForeign t w (list key) h = (ground arith, λ k. ground arith, λ k. ground arith)

  -- Under a bound tenant, any sequence of calls of the scoped store, failing ones included, keeps
  -- the binding and every call record and feedback of another tenant as it was, and makes none.
  pub feedback_ops-KeepsForeign :
      (t : String) (w : World) (ops : List FeedbackOp)
      → w.tenant ≡ some t
      → KeepsForeign t w (after_all w ops)
  unfolding after_all
  feedback_ops-KeepsForeign t w [] h = (refl, λ k. refl, λ k. refl)
  feedback_ops-KeepsForeign t w (op ∷ ops) h =
      let now = after-KeepsForeign t w op h in
      let later = feedback_ops-KeepsForeign t (after w op) ops (now.0 ∙ h) in
      (later.0 ∙ now.0, λ k. later.1 k ∙ now.1 k, λ k. later.2 k ∙ now.2 k)
