-- ===== src/Routes/Approvals/Once.antt =====
-- An approval is decided once, whatever is asked of the route and whatever a resumed run does.
use brokerops.Base.{
  ℕ, ◌≤◌, String, ◌≡◌, ◌≢◌, refl, sym, ap, Bool, true, false, Option, some, List, [], ◌∷◌, arith,
}
use mathlib.Core.Path.{subst}
use brokerops.Base.Dict.{Dict, lookup, lookup-insert_self}
use brokerops.Models.Json.{Json}
use brokerops.Models.Records.{ApprovalRequest, ApprovalStatus, approval_status_eq}
use brokerops.World.{World, Platform, Exec, Result, err, http_error, raise_if, ◌>>=◌, ◌>>◌}
use brokerops.Stores.Approvals as Store
use brokerops.Stores.Approvals.{approval_repo}
use brokerops.Workflows.Engine.{Graph}
use brokerops.Routes.Approvals.{
  DecideRequest, DecisionResponse, is_decided, decide_approval, decide_row, resume_run, response,
  bad_edit,
}
use brokerops.Routes.Approvals.Held.{IsGraph, IsKeyed, Holds}
use brokerops.Routes.Approvals.Decided.{decided_row, finish_row, finish_row-Holds, decide_one-Holds}

module _ (platform : Platform) (py_text : Json → String) (graphs : Dict Graph)
    (scrub : ApprovalRequest → ApprovalRequest) (valid_edit : Json → Bool) where
  abbrev pub decide_request : String × DecideRequest × String → Exec DecisionResponse
  decide_request (id, r, email) =
      decide_approval platform py_text approval_repo graphs scrub valid_edit id r email

  -- The world after requests to the route.
  abbrev pub after_requests : List (String × DecideRequest × String) → World → World
  after_requests [] w = w
  after_requests (q ∷ qs) w = after_requests qs (decide_request q w).1

  after_requests-Holds :
      (k : String) (n : ℕ) (a : ApprovalRequest)
      → ((i : ℕ) → n ≤ i → platform.uuid4 i ≢ k)
      → ((name : String) (graph : Graph) → lookup name graphs ≡ some graph → IsGraph graph)
      → is_decided a ≡ true
      → (qs : List (String × DecideRequest × String)) (w : World) → Holds platform k n (some a) w
      → Holds platform k n (some a) (after_requests qs w)
  after_requests-Holds k n a fresh sound done [] w h = h
  after_requests-Holds k n a fresh sound done ((id, r, email) ∷ qs) w h =
      after_requests-Holds k n a fresh sound done qs (decide_request (id, r, email) w).1 (
        decide_one-Holds platform k n py_text graphs fresh sound scrub valid_edit a done id r email
          w h)

decided-refuses :
    (platform : Platform) (py_text : Json → String) (graphs : Dict Graph)
    (scrub : ApprovalRequest → ApprovalRequest) (valid_edit : Json → Bool) (k : String)
    (row : ApprovalRequest) (r : DecideRequest) (email : String) (w : World)
    → lookup k w.approvals ≡ some row
    → is_decided row ≡ true
    → approval_status_eq r.decision ApprovalStatus.pending ≡ false
    → decide_approval platform py_text approval_repo graphs scrub valid_edit k r email w
      ≡ (err (http_error 409), w)
unfolding decide_approval decide_row Store.get
decided-refuses platform py_text graphs scrub valid_edit k row r email w found done real =
    subst (λ b. (raise_if b (http_error 422) >> (Store.get k >>= guard)) w ≡ refused) (sym real)
      (subst (λ o. guard o w ≡ refused) (sym found)
        (subst (λ b. (raise_if b (http_error 409) >> rest) w ≡ refused) (sym done) refl))
  where
    refused : Result DecisionResponse × World
    refused = (err (http_error 409), w)

    guard : Option ApprovalRequest → Exec DecisionResponse
    guard = decide_row platform py_text approval_repo graphs scrub valid_edit k r email

    rest : Exec DecisionResponse
    rest =
        raise_if
          (bad_edit platform py_text approval_repo graphs scrub valid_edit row r.edited_payload)
          (http_error 422)
        >> (resume_run platform py_text approval_repo graphs scrub valid_edit r email row
            >>= λ workflow.
                Store.get k
                >>= response platform py_text approval_repo graphs scrub valid_edit workflow)

-- A real decision of a pending approval, with no edit or a valid one, makes its row decided, whether or not
-- the resumed run fails. After that and after any further requests to the route, for any approvals, the row is
-- the same, and any real decision of it is refused with 409 and changes nothing. The conditions: the graphs
-- leave approvals to the engine, the ids of later gates are other ids, and each row stands under its id.
pub decide_approval-once :
    (platform : Platform) (py_text : Json → String) (graphs : Dict Graph)
    (scrub : ApprovalRequest → ApprovalRequest) (valid_edit : Json → Bool) (w : World)
    (a : ApprovalRequest) (r again : DecideRequest) (email other : String)
    (qs : List (String × DecideRequest × String))
    → ((i : ℕ) → w.readings ≤ i → platform.uuid4 i ≢ a.id)
    → ((name : String) (graph : Graph) → lookup name graphs ≡ some graph → IsGraph graph)
    → IsKeyed w.approvals
    → lookup a.id w.approvals ≡ some a
    → is_decided a ≡ false
    → approval_status_eq r.decision ApprovalStatus.pending ≡ false
    → approval_status_eq again.decision ApprovalStatus.pending ≡ false
    → bad_edit platform py_text approval_repo graphs scrub valid_edit a r.edited_payload ≡ false
    → (let w' = after_requests platform py_text graphs scrub valid_edit ((a.id, r, email) ∷ qs) w in
        (lookup a.id w'.approvals ≡ some (decided_row a r.decision email (platform.now w.readings)))
        × (decide_approval platform py_text approval_repo graphs scrub valid_edit a.id again other
              w'
            ≡ (err (http_error 409), w')))
unfolding decide_approval decide_row Store.get finish_row is_decided
decide_approval-once platform py_text graphs scrub valid_edit w a r again email other qs fresh sound
      keyed found pending real real' valid =
    let row = decided_row a r.decision email (platform.now w.readings) in
    let done : is_decided row ≡ true = rw real refl in
    let end =
      after_requests-Holds platform py_text graphs scrub valid_edit a.id w.readings row fresh sound
        done qs _
        (subst (Holds platform a.id w.readings (some row))
          (sym (ap (λ (x : Result DecisionResponse × World). x.1) passed))
          (finish_row-Holds platform a.id w.readings py_text graphs fresh sound scrub valid_edit
            (some a) (some row) a.id r email a w found (omega arith, keyed, found)
            (lookup-insert_self a.id row w.approvals))) in
    (
      end.2,
      decided-refuses platform py_text graphs scrub valid_edit a.id row again other _ end.2 done
          real',
    )
  where
    passed :
        decide_approval platform py_text approval_repo graphs scrub valid_edit a.id r email w
        ≡ finish_row platform a.id w.readings py_text graphs fresh sound scrub valid_edit a.id r
            email a w
    passed = rw real (rw found (rw pending (rw valid refl)))
