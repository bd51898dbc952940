-- ===== src/Scoped/Transactions/Confined.antt =====
-- The scoped transaction store over the in-memory one: which rows of other tenants it can reach.
use brokerops.Base.{
  String, ◌≡◌, ◌≢◌, refl, ◌∙◌, true, Option, none, some, List, [], ◌∷◌, map, arith, eq_iff,
  Option-cases, inl, inr, not,
}
use brokerops.Base.Int.{ℤ}
use brokerops.Base.Lists.{All, All-imp}
use brokerops.Base.Dict.{
  Dict, IsDict, lookup, insert, kept, lookup-insert, lookup-insert_self, insert-IsDict,
  lookup-keep_values, keep_values-IsDict,
}
use brokerops.Models.Transaction.{Transaction}
use brokerops.Models.Milestone.{Milestone}
use brokerops.World.{Platform, World, ok}
use brokerops.Stores.Transactions as Store
use brokerops.Stores.Transactions.{transaction_store, is_owned, insert_milestones}
use brokerops.Stores.AuditLog as Ledger
use brokerops.Stores.AuditLog.{audit_log}
use brokerops.Scoped.Foreign.{is_foreign, foreign_part}
use brokerops.Scoped.Transactions.{
  stamped, enforce_all, check_claims, create_transaction, get_transaction, get_milestone,
  list_active_transactions, list_milestones, set_escalation_level, count_transactions, clear,
}

pub data TransactionOp : Type 0 where
  create : Transaction → List Milestone → TransactionOp
  get_txn : String → TransactionOp
  get_step : String → TransactionOp
  list_active : TransactionOp
  list_steps : String → TransactionOp
  escalate : String → ℤ → TransactionOp
  count : TransactionOp
  clear_all : TransactionOp

abbrev txn_tenant : Transaction → String
txn_tenant t = t.tenant_id

abbrev step_tenant : Milestone → String
step_tenant m = m.tenant_id

-- Both tables are dictionaries, as `insert` and `clear` keep them.
abbrev pub HasDicts : World → Type 0
HasDicts w = IsDict w.transactions × IsDict w.milestones

-- No milestone that a call creates has the id of another tenant's milestone.
abbrev pub IsFresh : String → World → TransactionOp → Type 0
IsFresh t w (create txn ms) =
    All (λ (m : Milestone). foreign_part step_tenant t (lookup m.id w.milestones) ≡ none) ms
IsFresh t w _ = Unit

-- A row that is not owned is another tenant's, and the other way round.
foreign_of_kept :
    {V : Type 0} (tenant_of : V → String) (t : String) (o : Option V)
    → foreign_part tenant_of t (kept (λ v. not (is_owned t (tenant_of v))) o)
      ≡ foreign_part tenant_of t o
unfolding foreign_part is_owned
foreign_of_kept tenant_of t none = refl
foreign_of_kept tenant_of t (some v) =
    ground (arith, eq_iff (tenant_of v) t, eq_iff (tenant_of v) "")

insert_one :
    (t k : String) (m : Milestone) (d : Dict Milestone)
    → foreign_part step_tenant t (lookup m.id d) ≡ none
    → foreign_part step_tenant t (lookup k (insert m.id (stamped t m) d))
      ≡ foreign_part step_tenant t (lookup k d)
unfolding foreign_part
insert_one t k m d h =
    ground (arith, lookup-insert m.id k (stamped t m) d, eq_iff m.id k, eq_iff t t)

-- Stamped milestones go under their ids, where no foreign row stands.
insert_stamped :
    (t k : String) (ms : List Milestone) (d : Dict Milestone)
    → All (λ (m : Milestone). foreign_part step_tenant t (lookup m.id d) ≡ none) ms
    → foreign_part step_tenant t (lookup k (insert_milestones (map (stamped t) ms) d))
      ≡ foreign_part step_tenant t (lookup k d)
unfolding insert_milestones
insert_stamped t k [] d h = refl
insert_stamped t k (m ∷ ms) d h =
    insert_stamped t k ms (insert m.id (stamped t m) d) (
      All-imp (λ (x : Milestone). foreign_part step_tenant t (lookup x.id d) ≡ none)
        (λ (x : Milestone).
          foreign_part step_tenant t (lookup x.id (insert m.id (stamped t m) d)) ≡ none)
        ms (λ x e. insert_one t x.id m d h.0 ∙ e) h.1)
    ∙ insert_one t k m d h.0

insert_milestones-IsDict :
    (ms : List Milestone) (d : Dict Milestone) → IsDict d → IsDict (insert_milestones ms d)
unfolding insert_milestones
insert_milestones-IsDict [] d h = h
insert_milestones-IsDict (m ∷ ms) d h =
    insert_milestones-IsDict ms (insert m.id m d) (insert-IsDict m.id m d h)

-- The checks of the claims change nothing, and yield the bound tenant or an error.
enforce_all-world : (ms : List Milestone) (w : World) → (enforce_all ms w).1 ≡ w
unfolding enforce_all
enforce_all-world [] w = refl
enforce_all-world (m ∷ ms) w = ground (arith, enforce_all-world ms w)

check_claims-bound :
    (platform : Platform) (t : String) (w : World) (txn : Transaction) (ms : List Milestone)
    → w.tenant ≡ some t
    → ((check_claims platform audit_log transaction_store txn ms w).1 ≡ w)
      × ((a : String)
          → (check_claims platform audit_log transaction_store txn ms w).0 ≡ ok a
          → a ≡ t)
unfolding check_claims
check_claims-bound platform t w txn ms h =
    (ground (arith, enforce_all-world ms w), λ a e. ground (arith, enforce_all-world ms w))

module _ (platform : Platform) where
  unfoldable pub after : World → TransactionOp → World
  after w (create t ms) = (create_transaction platform audit_log transaction_store t ms w).1
  after w (get_txn id) = (get_transaction platform audit_log transaction_store id w).1
  after w (get_step id) = (get_milestone platform audit_log transaction_store id w).1
  after w list_active = (list_active_transactions platform audit_log transaction_store w).1
  after w (list_steps id) = (list_milestones platform audit_log transaction_store id w).1
  after w (escalate id n) = (set_escalation_level platform audit_log transaction_store id n w).1
  after w count = (count_transactions platform audit_log transaction_store w).1
  after w clear_all = (clear platform audit_log transaction_store w).1

  abbrev pub KeepsForeign : String → World → World → Type 0
  KeepsForeign t w w' =
      (w'.tenant ≡ w.tenant)
      × ((k : String)
          → foreign_part txn_tenant t (lookup k w'.transactions)
            ≡ foreign_part txn_tenant t (lookup k w.transactions))
      × ((k : String)
          → foreign_part step_tenant t (lookup k w'.milestones)
            ≡ foreign_part step_tenant t (lookup k w.milestones))
      × HasDicts w'

  after-create :
      (t : String) (w : World) (txn : Transaction) (ms : List Milestone)
      → w.tenant ≡ some t
      → HasDicts w
      → IsFresh t w (create txn ms)
      → KeepsForeign t w (after w (create txn ms))
  unfolding after create_transaction Store.create_transaction foreign_part Ledger.record_mutation
  after-create t w txn ms h dicts fresh =
      let new : Transaction = record txn { tenant_id = t } in
      let claims = check_claims-bound platform t w txn ms h in
      (
        ground (arith, claims),
        λ k.
            ground (
              arith,
              claims,
              lookup-insert txn.id k new w.transactions,
              eq_iff txn.id k,
              eq_iff t t,
            ),
        λ k. ground (arith, claims, insert_stamped t k ms w.milestones fresh),
        ground (
          arith,
          claims,
          insert-IsDict txn.id new w.transactions dicts.0,
          insert_milestones-IsDict (map (stamped t) ms) w.milestones dicts.1,
        ),
      )

  after-escalate :
      (t : String) (w : World) (id : String) (n : ℤ)
      → w.tenant ≡ some t
      → HasDicts w
      → KeepsForeign t w (after w (escalate id n))
  unfolding after set_escalation_level Store.get_milestone Store.set_escalation_level foreign_part
      Ledger.record_mutation
  after-escalate t w id n h dicts = elim (Option-cases (lookup id w.milestones)) [
    | inl e ↦ (ground arith, λ k. ground arith, λ k. ground arith, ground (arith, dicts))
    | inr (m, e) ↦
        let new : Milestone = record m { escalation_level = n } in
        (
          ground arith,
          λ k. ground arith,
          λ k. ground (arith, lookup-insert id k new w.milestones, eq_iff id k),
          ground (arith, dicts, insert-IsDict id new w.milestones dicts.1),
        )
  ]

  after-clear :
      (t : String) (w : World)
      → w.tenant ≡ some t
      → HasDicts w
      → KeepsForeign t w (after w clear_all)
  unfolding after clear Store.clear
  after-clear t w h dicts = (
    ground arith,
    λ k. ground (
      arith,
      lookup-keep_values (λ (x : Transaction). not (is_owned t x.tenant_id)) k w.transactions
          dicts.0,
      foreign_of_kept txn_tenant t (lookup k w.transactions),
    ),
    λ k. ground (
      arith,
      lookup-keep_values (λ (x : Milestone). not (is_owned t x.tenant_id)) k w.milestones dicts.1,
      foreign_of_kept step_tenant t (lookup k w.milestones),
    ),
    ground (
      arith,
      keep_values-IsDict (λ (x : Transaction). not (is_owned t x.tenant_id)) w.transactions dicts.0,
      keep_values-IsDict (λ (x : Milestone). not (is_owned t x.tenant_id)) w.milestones dicts.1,
    ),
  )

  after-KeepsForeign :
      (t : String) (w : World) (op : TransactionOp)
      → w.tenant ≡ some t
      → HasDicts w
      → IsFresh t w op
      → KeepsForeign t w (after w op)
  unfolding after get_transaction get_milestone list_active_transactions list_milestones
      count_transactions Store.get_transaction Store.get_milestone Store.list_active_transactions
      Store.list_milestones Store.count_transactions Ledger.record_mutation
  after-KeepsForeign t w (create txn ms) h dicts fresh = after-create t w txn ms h dicts fresh
  after-KeepsForeign t w (escalate id n) h dicts fresh = after-escalate t w id n h dicts
  after-KeepsForeign t w clear_all h dicts fresh = after-clear t w h dicts
  after-KeepsForeign t w (get_txn id) h dicts fresh =
      (ground arith, λ k. ground arith, λ k. ground arith, ground (arith, dicts))
  after-KeepsForeign t w (get_step id) h dicts fresh =
      (ground arith, λ k. ground arith, λ k. ground arith, ground (arith, dicts))
  after-KeepsForeign t w list_active h dicts fresh =
      (ground arith, λ k. ground arith, λ k. ground arith, ground (arith, dicts))
  after-KeepsForeign t w (list_steps id) h dicts fresh =
      (ground arith, λ k. ground arith, λ k. ground arith, ground (arith, dicts))
  after-KeepsForeign t w count h dicts fresh =
      (ground arith, λ k. ground arith, λ k. ground arith, ground (arith, dicts))

  -- Worlds that calls of the scoped store lead to, where every `create` was fresh when it was made.
  pub data Run (t : String) (w : World) : World → Type 0 where
    done : Run t w w
    step : {v : World} (op : TransactionOp) → Run t w v → IsFresh t v op → Run t w (after v op)

  -- Under a bound tenant, calls of the scoped store, `clear` and failing ones included, whose new
  -- milestones take no id of another tenant's milestone keep the binding and every transaction and
  -- milestone of another tenant as it was, and make none.
  pub Run-KeepsForeign :
      (t : String) {w v : World} → w.tenant ≡ some t → HasDicts w → Run t w v → KeepsForeign t w v
  Run-KeepsForeign t h dicts done = (refl, λ k. refl, λ k. refl, dicts)
  Run-KeepsForeign t h dicts (step {v = v} op r fresh) =
      let before = Run-KeepsForeign t h dicts r in
      let now = after-KeepsForeign t v op (before.0 ∙ h) before.3 fresh in
      (now.0 ∙ before.0, λ k. now.1 k ∙ before.1 k, λ k. now.2 k ∙ before.2 k, now.3)

  -- Without that condition it fails: under a bound tenant, opening a new transaction with an
  -- unstamped milestone whose id is that of another tenant's milestone succeeds, and the other
  -- tenant's row is replaced.
  pub create_transaction-replaces_foreign :
      (t : String) (w : World) (txn : Transaction) (m old : Milestone)
      → w.tenant ≡ some t
      → txn.tenant_id ≡ ""
      → m.tenant_id ≡ ""
      → lookup txn.id w.transactions ≡ none
      → lookup m.id w.milestones ≡ some old
      → is_foreign old.tenant_id t ≡ true
      → let call = create_transaction platform audit_log transaction_store txn (m ∷ []) w in
        (call.0 ≡ ok tt)
        × (lookup m.id call.1.milestones ≡ some (record m { tenant_id = t }))
        × (some (record m { tenant_id = t }) ≢ some old)
  unfolding create_transaction check_claims Store.create_transaction is_foreign
  create_transaction-replaces_foreign t w txn m old h c1 c2 new found foreign = (
    ground (arith, eq_iff txn.tenant_id "", eq_iff m.tenant_id ""),
    ground (
      arith,
      eq_iff txn.tenant_id "",
      eq_iff m.tenant_id "",
      lookup-insert_self m.id (record m { tenant_id = t }) w.milestones,
    ),
    λ e. ground (arith, eq_iff t t),
  )
