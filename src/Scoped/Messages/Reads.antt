-- ===== src/Scoped/Messages/Reads.antt =====
-- What the reads of the scoped message store return, whatever the inner store returns.
use brokerops.Base.{ℕ, String, ◌≡◌, refl, false, Option, none, some, List, not, arith}
use brokerops.Base.Lists.{All, All-keep, keep}
use brokerops.Models.Message.{Message, MessageStatus}
use brokerops.World.{
  Platform, World, ok, err, Result, Exec, ◌>>=◌, tenant_context_missing, pure, bind-eq_ok,
}
use mathlib.Core.Path.{subst}
use brokerops.Ports.{AuditLog, MessageStore}
use brokerops.Tenancy.Scope.{require_tenant-returns}
use brokerops.Scoped.Foreign.{is_foreign}
use brokerops.Scoped.Messages.{
  hide_foreign, save_message, get_message, get_message_by_provider_id, list_messages,
  advance_message_status,
}

-- The call raises, and it changes nothing.
abbrev Refused : {A : Type 0} → Exec A → World → Type 0
Refused {A} call w = call w ≡ (err tenant_context_missing, w)

-- Every operation of the store is refused.
abbrev pub FailsClosed : Platform → AuditLog → MessageStore → World → Type 0
FailsClosed platform audit inner w =
    ((m : Message) → Refused (save_message platform audit inner m) w)
    × ((id : String) → Refused (get_message platform audit inner id) w)
    × ((pid : String) → Refused (get_message_by_provider_id platform audit inner pid) w)
    × ((c : Option String) (n : ℕ) (d : Option String)
        → Refused (list_messages platform audit inner c n d) w)
    × ((id : String) (s : MessageStatus)
        → Refused (advance_message_status platform audit inner id s) w)

-- With no tenant bound every operation of the scoped message store, over any inner store, raises before
-- the inner store is reached, and changes nothing.
pub fails_closed :
    (platform : Platform) (audit : AuditLog) (inner : MessageStore) (w : World)
    → w.tenant ≡ none
    → FailsClosed platform audit inner w
unfolding save_message get_message get_message_by_provider_id list_messages advance_message_status
fails_closed platform audit inner w h = (
  λ m. ground arith,
  λ id. ground arith,
  λ id. ground arith,
  λ c n t. ground arith,
  λ id s. ground arith,
)

shown_own :
    (platform : Platform) (audit : AuditLog) (inner : MessageStore) (tool t : String)
    (o : Option Message) (m : Message) (w : World)
    → (hide_foreign platform audit inner tool t o w).0 ≡ ok (some m)
    → is_foreign m.tenant_id t ≡ false
unfolding hide_foreign
shown_own platform audit inner tool t none m w e = cc
shown_own platform audit inner tool t (some row) m w e = ground arith

abbrev own : String → List Message → Exec (List Message)
own t rows = pure (keep (λ (m : Message). not (is_foreign m.tenant_id t)) rows)

kept_own :
    (t : String) (rows ms : List Message)
    → ◌≡◌ {A = Result (List Message)}
        (ok (keep (λ (m : Message). not (is_foreign m.tenant_id t)) rows))
        (ok ms)
    → All (λ m. is_foreign m.tenant_id t ≡ false) ms
kept_own t rows ms p = subst (All (λ m. is_foreign m.tenant_id t ≡ false)) (cc p) (
    All-keep (λ m. is_foreign m.tenant_id t ≡ false)
      (λ (m : Message). not (is_foreign m.tenant_id t)) rows (λ m e. ground arith))

-- What a read of one row may answer: nothing, an error, or a row that is not another tenant's.
abbrev ShowsOwn : String → Result (Option Message) → Type 0
ShowsOwn t (ok none) = Unit
ShowsOwn t (ok (some m)) = is_foreign m.tenant_id t ≡ false
ShowsOwn t (err e) = Unit

abbrev ListsOwn : String → Result (List Message) → Type 0
ListsOwn t (ok ms) = All (λ m. is_foreign m.tenant_id t ≡ false) ms
ListsOwn t (err e) = Unit

shows-own :
    (t : String) (r : Result (Option Message))
    → ((m : Message) → r ≡ ok (some m) → is_foreign m.tenant_id t ≡ false)
    → ShowsOwn t r
shows-own t (ok none) h = tt
shows-own t (ok (some m)) h = h m refl
shows-own t (err e) h = tt

lists-own :
    (t : String) (r : Result (List Message))
    → ((ms : List Message) → r ≡ ok ms → All (λ m. is_foreign m.tenant_id t ≡ false) ms)
    → ListsOwn t r
lists-own t (ok ms) h = h ms refl
lists-own t (err e) h = tt

-- Every read shows rows of the tenant, and of no other one.
abbrev pub ReadsOwn : Platform → AuditLog → MessageStore → String → World → Type 0
ReadsOwn platform audit inner t w =
    ((id : String) → ShowsOwn t (get_message platform audit inner id w).0)
    × ((pid : String) → ShowsOwn t (get_message_by_provider_id platform audit inner pid w).0)
    × ((c : Option String) (n : ℕ) (d : Option String)
        → ListsOwn t (list_messages platform audit inner c n d w).0)

-- Under a bound tenant, whatever the inner store answers, no read of the scoped message store returns
-- another tenant's row.
pub reads_own :
    (platform : Platform) (audit : AuditLog) (inner : MessageStore) (t : String) (w : World)
    → w.tenant ≡ some t
    → ReadsOwn platform audit inner t w
unfolding get_message get_message_by_provider_id list_messages
reads_own platform audit inner t w h = (
  λ id. shows-own t _ λ m e.
      let show = hide_foreign platform audit inner "get_message" in
      let (o, _, p) =
        bind-eq_ok (inner.get_message id) (show t) w
          (require_tenant-returns (λ a. inner.get_message id >>= show a) t w h e) in
      shown_own platform audit inner "get_message" t o m _ p,
  λ pid. shows-own t _ λ m e.
      let show = hide_foreign platform audit inner "get_message_by_provider_id" in
      let (o, _, p) =
        bind-eq_ok (inner.get_message_by_provider_id pid) (show t) w
          (require_tenant-returns (λ a. inner.get_message_by_provider_id pid >>= show a) t w h e) in
      shown_own platform audit inner "get_message_by_provider_id" t o m _ p,
  λ c n d. lists-own t _ λ ms e.
      let (rows, _, p) =
        bind-eq_ok (inner.list_messages c n d) (own t) w
          (require_tenant-returns (λ a. inner.list_messages c n d >>= own a) t w h e) in
      kept_own t rows ms p,
)
