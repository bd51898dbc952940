-- ===== src/Scoped/Feedback.antt =====
-- ScopedFeedbackStore, over any inner store and any ledger.
pub mod Confined
use brokerops.Base.{String, Option, none, some, List, not, if◌then◌else◌}
use brokerops.Base.Lists.{keep}
use brokerops.Models.Records.{CallRecord, ShowingFeedback}
use brokerops.World.{Platform, Exec, pure, ◌>>=◌, ◌>>◌}
use brokerops.Ports.{AuditLog, FeedbackStore}
use brokerops.Tenancy.{require_tenant, record_cross_tenant_attempt}
use brokerops.Scoped.Foreign.{is_foreign, deny, stamp}

module _ (platform : Platform) (audit : AuditLog) (inner : FeedbackStore) where
  unfoldable pub guard_call : String → Option CallRecord → Exec (Unit {0})
  unfolding is_foreign deny
  guard_call tenant none = pure tt
  guard_call tenant (some r) =
      if is_foreign r.tenant_id tenant
      then deny platform audit "save_call_record" r.tenant_id tenant
      else pure tt

  unfoldable pub save_call_record : CallRecord → Exec (Unit {0})
  unfolding stamp guard_call
  save_call_record r = do
    tenant ← stamp platform audit r.tenant_id "save_call_record"
    existing ← inner.get_call_record r.vapi_call_id
    guard_call tenant existing
    inner.save_call_record (record r { tenant_id = tenant })

  unfoldable pub hide_call : String → Option CallRecord → Exec (Option CallRecord)
  unfolding is_foreign record_cross_tenant_attempt
  hide_call ambient none = pure none
  hide_call ambient (some r) =
      if is_foreign r.tenant_id ambient
      then (record_cross_tenant_attempt platform audit r.tenant_id ambient "get_call_record"
          >> pure none)
      else pure (some r)

  unfoldable pub get_call_record : String → Exec (Option CallRecord)
  unfolding require_tenant hide_call
  get_call_record id = do
    ambient ← require_tenant
    found ← inner.get_call_record id
    hide_call ambient found

  unfoldable pub guard_feedback : String → Option ShowingFeedback → Exec (Unit {0})
  unfolding is_foreign deny
  guard_feedback tenant none = pure tt
  guard_feedback tenant (some f) =
      if is_foreign f.tenant_id tenant
      then deny platform audit "upsert_feedback" f.tenant_id tenant
      else pure tt

  unfoldable pub upsert_feedback : ShowingFeedback → Exec String
  unfolding stamp guard_feedback
  upsert_feedback f = do
    tenant ← stamp platform audit f.tenant_id "upsert_feedback"
    existing ← inner.get_feedback f.id
    guard_feedback tenant existing
    inner.upsert_feedback (record f { tenant_id = tenant })

  unfoldable pub hide_feedback : String → Option ShowingFeedback → Exec (Option ShowingFeedback)
  unfolding is_foreign record_cross_tenant_attempt
  hide_feedback ambient none = pure none
  hide_feedback ambient (some f) =
      if is_foreign f.tenant_id ambient
      then (record_cross_tenant_attempt platform audit f.tenant_id ambient "get_feedback"
          >> pure none)
      else pure (some f)

  unfoldable pub get_feedback : String → Exec (Option ShowingFeedback)
  unfolding require_tenant hide_feedback
  get_feedback id = do
    ambient ← require_tenant
    found ← inner.get_feedback id
    hide_feedback ambient found

  unfoldable pub list_feedback : String → Exec (List ShowingFeedback)
  unfolding require_tenant is_foreign
  list_feedback key = do
    ambient ← require_tenant
    rows ← inner.list_feedback key
    pure (keep (λ (f : ShowingFeedback). not (is_foreign f.tenant_id ambient)) rows)

  abbrev pub scoped_feedback_store : FeedbackStore
  scoped_feedback_store = record {
    save_call_record = save_call_record;
    get_call_record = get_call_record;
    upsert_feedback = upsert_feedback;
    get_feedback = get_feedback;
    list_feedback = list_feedback;
  }
