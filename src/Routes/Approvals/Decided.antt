-- ===== src/Routes/Approvals/Decided.antt =====
-- What a request to the route keeps of one approval.
use brokerops.Base.{
  ℕ, ◌+◌, ◌≤◌, String, ◌≡◌, ◌≢◌, refl, sym, ap, ◌∙◌, Bool, true, false, Option, none, some, arith,
}
use mathlib.Core.Path.{subst}
use brokerops.Base.Dict.{Dict, lookup, insert, lookup-insert_ne}
use brokerops.Models.Json.{Json}
use brokerops.Models.Records.{ApprovalRequest, ApprovalStatus, approval_status_eq}
use brokerops.World.{
  World, Platform, Exec, Error, Result, ok, err, http_error, raise_if, ◌>>=◌, ◌>>◌,
}
use brokerops.Stores.Approvals as Store
use brokerops.Stores.Approvals.{approval_repo}
use brokerops.Audit.{audit_scope}
use brokerops.Workflows.Runs.{WorkflowRunResult}
use brokerops.Workflows.Engine.{Graph, resume, ApprovalDecision, run_graph, decide, decide_context}
use brokerops.Routes.Approvals.{
  DecideRequest, DecisionResponse, is_decided, as_conflict, decide_approval, decide_row, resume_run,
  response, bad_edit,
}
use brokerops.Routes.Approvals.Held.{IsGraph, IsKeyed-insert, Holds, Kept, Kept-resumed}

-- The row of an approval that was decided.
abbrev pub decided_row : ApprovalRequest → ApprovalStatus → String → ℕ → ApprovalRequest
decided_row a status by at = record a {
  status = status;
  decided_by = some by;
  decided_at = some at;
}

module _ (platform : Platform) (k : String) (n : ℕ) (py_text : Json → String) (graphs : Dict Graph)
    (fresh : (i : ℕ) → n ≤ i → platform.uuid4 i ≢ k)
    (sound : (name : String) (graph : Graph)
      → lookup name graphs ≡ some graph
      → IsGraph graph) where
  -- Deciding a row leaves every other row, and makes it a decided row.
  pub decide-Holds :
      (before after : Option ApprovalRequest) (a : ApprovalRequest) (d : ApprovalDecision)
      (w : World)
      → lookup a.id w.approvals ≡ some a
      → Holds platform k n before w
      → lookup k (
          insert a.id (decided_row a d.decision d.decided_by (platform.now w.readings)) w.approvals)
        ≡ after
      → Holds platform k n after (decide platform py_text approval_repo graphs a d w).1
  unfolding decide Store.mark_decided
  decide-Holds before after a d w found h e =
      let row = decided_row a d.decision d.decided_by (platform.now w.readings) in
      let v : World = record w { readings = w.readings + 1 } in
      let v' : World = record v { approvals = insert a.id row w.approvals } in
      subst
        (λ (r : Result (Unit {0}) × World).
          Holds platform k n after
            (((λ (_ : World). r)
                >> audit_scope (decide_context platform py_text approval_repo a d) (
                    run_graph platform py_text approval_repo graphs a.workflow a.graph_thread_id
                      (resume d)))
              v).1)
        (sym (marked found))
        (Kept-resumed platform k n after py_text graphs fresh sound a d v'
          (omega (arith, h.0), IsKeyed-insert row w.approvals h.1, e))
    where
      marked :
          lookup a.id w.approvals ≡ some a
          → Store.mark_decided a.id d.decision d.decided_by
              (platform.now w.readings)
              (record w { readings = w.readings + 1 })
            ≡ (
              ok tt,
              record w {
                readings = w.readings + 1;
                approvals =
                    insert a.id
                      (decided_row a d.decision d.decided_by (platform.now w.readings))
                      w.approvals;
              },
            )
      marked e = rw (e, Store.mark_decided) refl

  pub Kept-raise_if :
      (row : Option ApprovalRequest) (b : Bool) (e : Error) → Kept platform k n row (raise_if b e)
  Kept-raise_if row true e w h = h
  Kept-raise_if row false e w h = h

  module _ (scrub : ApprovalRequest → ApprovalRequest) (valid_edit : Json → Bool) where
    abbrev decide_one : String → DecideRequest → String → Exec DecisionResponse
    decide_one = decide_approval platform py_text approval_repo graphs scrub valid_edit

    abbrev guarded_row :
        String → DecideRequest → String → Option ApprovalRequest → Exec DecisionResponse
    guarded_row = decide_row platform py_text approval_repo graphs scrub valid_edit

    pub Kept-response :
        (row : Option ApprovalRequest) (r : WorkflowRunResult) (o : Option ApprovalRequest)
        → Kept platform k n row
            (response platform py_text approval_repo graphs scrub valid_edit r o)
    unfolding response
    Kept-response row r none w h = h
    Kept-response row r (some a) w h = h

    -- The guards and the run on a row that was read.
    pub decide_row-Holds :
        (before after : Option ApprovalRequest) (id : String) (r : DecideRequest) (email : String)
        (a : ApprovalRequest) (w : World)
        → lookup a.id w.approvals ≡ some a
        → Holds platform k n before w
        → lookup k
            (insert a.id (decided_row a r.decision email (platform.now w.readings)) w.approvals)
          ≡ after
        → Holds platform k n after
            (resume_run platform py_text approval_repo graphs scrub valid_edit r email a w).1
    unfolding resume_run
    decide_row-Holds before after id r email a w found h e =
        let d : ApprovalDecision = record {
          decision = r.decision;
          decided_by = email;
          edited_payload = r.edited_payload;
        } in
        world_of (decide platform py_text approval_repo graphs a d w).0
          (decide platform py_text approval_repo graphs a d w).1
          (decide-Holds before after a d w found h e)
      where
        world_of :
            (x : Result WorkflowRunResult) (v : World)
            → Holds platform k n after v
            → Holds platform k n after
                (let end : Result WorkflowRunResult × World = elim x [
                  | ok b ↦ (ok b, v)
                  | err f ↦ (err (as_conflict f), v)
                ] in
                  end).1
        world_of (ok b) v hv = hv
        world_of (err f) v hv = hv

    -- The rest of the route, once the guards of the row have passed.
    unfoldable pub finish_row :
        String → DecideRequest → String → ApprovalRequest → Exec DecisionResponse
    unfolding Store.get
    finish_row id r email a =
        resume_run platform py_text approval_repo graphs scrub valid_edit r email a >>= λ workflow.
        Store.get id >>= response platform py_text approval_repo graphs scrub valid_edit workflow

    pub finish_row-Holds :
        (before after : Option ApprovalRequest) (id : String) (r : DecideRequest) (email : String)
        (a : ApprovalRequest) (w : World)
        → lookup a.id w.approvals ≡ some a
        → Holds platform k n before w
        → lookup k
            (insert a.id (decided_row a r.decision email (platform.now w.readings)) w.approvals)
          ≡ after
        → Holds platform k n after (finish_row id r email a w).1
    unfolding finish_row Store.get
    finish_row-Holds before after id r email a w found h e =
        let m = resume_run platform py_text approval_repo graphs scrub valid_edit r email a w in
        go m.0 m.1 (decide_row-Holds before after id r email a w found h e)
      where
        go :
            (x : Result WorkflowRunResult) (v : World)
            → Holds platform k n after v
            → Holds platform k n after
                (let end : Result DecisionResponse × World = elim x [
                  | ok b ↦
                      response platform py_text approval_repo graphs scrub valid_edit b
                        (lookup id v.approvals)
                        v
                  | err f ↦ (err f, v)
                ] in
                  end).1
        go (ok b) v hv = Kept-response after b (lookup id v.approvals) v hv
        go (err f) v hv = hv

    -- A request leaves a decided row.
    pub decide_one-Holds :
        (a : ApprovalRequest)
        → is_decided a ≡ true
        → (id : String) (r : DecideRequest) (email : String)
        → Kept platform k n (some a) (decide_one id r email)
    unfolding decide_approval decide_row Store.get finish_row
    decide_one-Holds a done id r email w h =
        refuse (approval_status_eq r.decision ApprovalStatus.pending)
      where
        checked :
            (b : ApprovalRequest)
            → lookup id w.approvals ≡ some b
            → is_decided b ≡ false
            → Holds platform k n (some a) (finish_row id r email b w).1
        checked b e fresh_row =
            finish_row-Holds (some a) (some a) id r email b w
              (ap (λ i. lookup i w.approvals) (h.1 id b e) ∙ e) h
              (lookup-insert_ne b.id k _ w.approvals
                  (λ same. ground (arith, done, fresh_row, h.2, e, h.1 id b e, same))
                ∙ h.2)

        edit :
            (b : ApprovalRequest) (bad : Bool)
            → lookup id w.approvals ≡ some b
            → is_decided b ≡ false
            → Holds platform k n
                (some a)
                ((raise_if bad (http_error 422) >> finish_row id r email b) w).1
        edit b true e fresh_row = h
        edit b false e fresh_row = checked b e fresh_row

        guard :
            (b : ApprovalRequest) (d : Bool)
            → lookup id w.approvals ≡ some b
            → is_decided b ≡ d
            → Holds platform k n
                (some a)
                ((raise_if d (http_error 409)
                    >> (raise_if
                          (bad_edit platform py_text approval_repo graphs scrub valid_edit b
                            r.edited_payload)
                          (http_error 422)
                        >> finish_row id r email b))
                  w).1
        guard b true e d = h
        guard b false e d = edit b _ e d

        found :
            (o : Option ApprovalRequest)
            → lookup id w.approvals ≡ o
            → Holds platform k n (some a) (guarded_row id r email o w).1
        found none e = h
        found (some b) e = guard b (is_decided b) e refl

        refuse :
            (b : Bool)
            → Holds platform k n
                (some a)
                ((raise_if b (http_error 422) >> (Store.get id >>= guarded_row id r email)) w).1
        refuse true = h
        refuse false = found (lookup id w.approvals) refl
