-- ===== src/Routes/Approvals/Held.antt =====
-- What the steps of a run keep of one approval.
use brokerops.Base.{
  ℕ, ◌≤◌, String, ◌≡◌, ◌≢◌, refl, sym, ap, ◌∙◌, Option, none, some, arith, eq_iff, Bool-cases, ◌==◌,
  inl, inr,
}
use brokerops.Base.Dict.{Dict, lookup, insert, lookup-insert, lookup-insert_ne}
use brokerops.Models.Json.{Json}
use brokerops.Models.Records.{ApprovalRequest}
use brokerops.World.{
  World, Platform, Exec, Error, Result, ok, err, key_error, catch, raise, reading, ◌>>=◌,
}
use brokerops.Stores.Approvals as Store
use brokerops.Stores.Approvals.{approval_repo}
use brokerops.Audit.{audit_scope}
use brokerops.Workflows.Runs.{WorkflowRunResult}
use brokerops.Workflows.Engine.{
  Graph, GraphResult, finished, interrupted, RunInput, resume, ApprovalDecision, run_result,
  run_graph, decide_context,
}

-- The graphs leave the approvals to the engine, and no reading of the clock is taken back.
abbrev pub IsGraph : Graph → Type 0
IsGraph graph =
    (thread : String) (input : RunInput) (w : World)
    → ((graph thread input w).1.approvals ≡ w.approvals)
      × (w.readings ≤ (graph thread input w).1.readings)

-- Each row stands under its own id.
abbrev pub IsKeyed : Dict ApprovalRequest → Type 0
IsKeyed d = (i : String) (a : ApprovalRequest) → lookup i d ≡ some a → a.id ≡ i

pub IsKeyed-insert :
    (a : ApprovalRequest) (d : Dict ApprovalRequest) → IsKeyed d → IsKeyed (insert a.id a d)
IsKeyed-insert a d h i b e = elim (Bool-cases (a.id == i)) [
  | inl same ↦ ground (arith, lookup-insert a.id i a d, eq_iff a.id i)
  | inr other ↦ h i b (ground (arith, lookup-insert a.id i a d))
]

-- The row of one approval is the given one, the ids of gates to come are other ids, and the rows are keyed.
module _ (platform : Platform) (k : String) (n : ℕ) (row : Option ApprovalRequest) where
  abbrev pub Holds : World → Type 0
  Holds w = (n ≤ w.readings) × IsKeyed w.approvals × (lookup k w.approvals ≡ row)

  abbrev pub Kept : {A : Type 0} → Exec A → Type 0
  Kept m = (w : World) → Holds w → Holds (m w).1

  pub Kept-bind :
      {A B : Type 0} (m : Exec A) (f : A → Exec B)
      → Kept m
      → ((a : A) → Kept (f a))
      → Kept (m >>= f)
  Kept-bind {A} {B} m f hm hf w h = go (m w).0 (m w).1 (hm w h)
    where
      go :
          (r : Result A) (v : World)
          → Holds v
          → Holds
              (let end : Result B × World = elim r [ ok a ↦ f a v | err e ↦ (err e, v) ] in end).1
      go (ok a) v hv = hf a v hv
      go (err e) v hv = hv

  pub Kept-catch :
      {A : Type 0} (m : Exec A) (f : Error → Error) → Kept m → Kept (catch m (λ e. raise (f e)))
  Kept-catch {A} m f hm w h = go (m w).0 (m w).1 (hm w h)
    where
      go :
          (r : Result A) (v : World)
          → Holds v
          → Holds
              (let end : Result A × World = elim r [ ok a ↦ (ok a, v) | err e ↦ (err (f e), v) ] in
                end).1
      go (ok a) v hv = hv
      go (err e) v hv = hv

  pub Kept-reading : {A : Type 0} (f : ℕ → A) → Kept (reading f)
  Kept-reading f w (le, keyed, e) = (omega (arith, le), keyed, e)

  pub Kept-create :
      (fresh : (i : ℕ) → n ≤ i → platform.uuid4 i ≢ k) (i : ℕ) (a : ApprovalRequest)
      → n ≤ i
      → a.id ≡ platform.uuid4 i
      → Kept (Store.create a)
  unfolding Store.create
  Kept-create fresh i a le named w (h, keyed, e) = (
    h,
    IsKeyed-insert a w.approvals keyed,
    lookup-insert_ne a.id k a w.approvals (λ same. fresh i le (sym named ∙ same)) ∙ e,
  )

  module _ (py_text : Json → String) (graphs : Dict Graph)
      (fresh : (i : ℕ) → n ≤ i → platform.uuid4 i ≢ k)
      (sound : (name : String) (graph : Graph)
        → lookup name graphs ≡ some graph
        → IsGraph graph) where
    pub Kept-run_result :
        (workflow thread : String) (r : GraphResult)
        → Kept (run_result platform py_text approval_repo workflow thread r)
    unfolding run_result Store.create
    Kept-run_result workflow thread (finished state) w h = h
    Kept-run_result workflow thread (interrupted value) w (le, keyed, e) = (
      omega (arith, le),
      IsKeyed-insert _ w.approvals keyed,
      lookup-insert_ne (platform.uuid4 w.readings) k _ w.approvals (fresh w.readings le) ∙ e,
    )

    pub Kept-run_graph :
        (workflow thread : String) (input : RunInput)
        → Kept (run_graph platform py_text approval_repo graphs workflow thread input)
    unfolding run_graph
    Kept-run_graph workflow thread input w h = go (lookup workflow graphs) refl
      where
        go :
            (o : Option Graph)
            → lookup workflow graphs ≡ o
            → Holds
                (let m : Exec WorkflowRunResult = elim o [
                  | none ↦ raise (key_error workflow)
                  | some graph ↦
                      graph thread input
                      >>= run_result platform py_text approval_repo workflow thread
                ] in
                  m w).1
        go none e = h
        go (some graph) e =
            let s = sound workflow graph e thread input w in
            Kept-bind {A = GraphResult} {B = WorkflowRunResult}
              (λ (v : World). graph thread input w)
              (run_result platform py_text approval_repo workflow thread)
              (λ v hv. (omega (arith, s.1, h.0), rw s.0 h.1, ap (lookup k) s.0 ∙ h.2))
              (Kept-run_result workflow thread) w h

    pub Kept-resumed :
        (a : ApprovalRequest) (d : ApprovalDecision)
        → Kept (
            audit_scope (decide_context platform py_text approval_repo a d) (
              run_graph platform py_text approval_repo graphs a.workflow a.graph_thread_id
                (resume d)))
    unfolding audit_scope
    Kept-resumed a d w h =
        Kept-run_graph a.workflow a.graph_thread_id (resume d)
          (record w { audit_context = some (decide_context platform py_text approval_repo a d) }) h
