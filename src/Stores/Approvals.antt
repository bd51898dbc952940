-- ===== src/Stores/Approvals.antt =====
-- InMemoryApprovalRepo.
use brokerops.Base.{ℕ, String, Bool, true, Option, none, some, List, leb}
use brokerops.Base.Lists.{keep}
use brokerops.Base.Dict.{lookup, insert, values}
use brokerops.Base.Sort.{sort_by}
use brokerops.Models.Records.{ApprovalRequest, ApprovalStatus, approval_status_eq}
use brokerops.World.{Exec, ok, err, key_error, gets, modify}
use brokerops.Ports.{ApprovalRepo}

unfoldable pub create : ApprovalRequest → Exec (Unit {0})
unfolding insert
create a = modify (λ w. record w { approvals = insert a.id a w.approvals })

unfoldable pub get : String → Exec (Option ApprovalRequest)
unfolding lookup
get id = gets (λ w. lookup id w.approvals)

unfoldable pub has_status : Option ApprovalStatus → ApprovalRequest → Bool
unfolding approval_status_eq
has_status none a = true
has_status (some status) a = approval_status_eq a.status status

unfoldable pub newest_first : ApprovalRequest → ApprovalRequest → Bool
newest_first a b = leb b.created_at a.created_at

unfoldable pub list : Option ApprovalStatus → Exec (List ApprovalRequest)
unfolding values has_status newest_first sort_by
list status = gets (λ w. keep (has_status status) (sort_by newest_first (values w.approvals)))

-- Deciding an id that is not there raises a `KeyError`.
unfoldable pub mark_decided : String → ApprovalStatus → String → ℕ → Exec (Unit {0})
unfolding lookup insert
mark_decided id status decided_by decided_at w = elim (lookup id w.approvals) [
  | none ↦ (err (key_error id), w)
  | some a ↦ (
    ok tt,
    record w {
      approvals =
          insert id
            (record a {
              status = status;
              decided_by = some decided_by;
              decided_at = some decided_at;
            })
            w.approvals;
    },
  )
]

abbrev pub approval_repo : ApprovalRepo
approval_repo = record { create = create; get = get; list = list; mark_decided = mark_decided }
