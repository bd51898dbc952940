-- ===== src/Tests/Routes.antt =====
-- The theorems of the routes at concrete rows.
use mathlib.Core.Path.{subst}
use brokerops.Base.{
  String, ◌≡◌, refl, Bool, true, false, none, some, List, [], ◌∷◌, ◌==◌, if◌then◌else◌, arith,
  eq_iff,
}
use brokerops.Base.Dict.{Dict, lookup}
use brokerops.Models.Records.{ApprovalStatus, approval_status_eq}
use brokerops.World.{World, Platform, blank, err, http_error, pure}
use brokerops.Stores.Approvals.{approval_repo}
use brokerops.Workflows.Engine.{Graph, finished}
use brokerops.Routes.Approvals.{DecideRequest, is_decided, bad_edit, decide_approval}
use brokerops.Routes.Approvals.Held.{IsGraph, IsKeyed}
use brokerops.Routes.Approvals.Decided.{decided_row}
use brokerops.Routes.Approvals.Once.{after_requests, decide_approval-once}
use brokerops.Models.Message.{Message, MessageStatus, status_rank}
use brokerops.Comms.Callbacks.{highest, settled}
use brokerops.Routes.Webhooks.{Callback}
use brokerops.Routes.Webhooks.Forward.{after_webhooks, all_accepted, webhooks-highest}
use brokerops.Models.Records.{ApprovalRequest}
use brokerops.Models.Transaction.{Transaction}
use brokerops.Models.Json.{str, obj, end, field}
use brokerops.Models.CronRun.{CronRun}
use brokerops.World.{Exec}
use brokerops.Tests.Data.{transaction}
use brokerops.Routes.Cron.{Pass}
use brokerops.Tests.Data.{platform, approval, message}

abbrev idle : Graph
idle thread input = pure (finished [])

abbrev graphs : Dict Graph
graphs = ("followup", idle) ∷ []

graphs-IsGraph : (name : String) (graph : Graph) → lookup name graphs ≡ some graph → IsGraph graph
unfolding lookup
graphs-IsGraph name graph e = go ("followup" == name) e
  where
    go : (b : Bool) → (if b then some idle else none) ≡ some graph → IsGraph graph
    go true f =
        let same : ◌≡◌ {A = Graph} idle graph = cc f in
        subst IsGraph same (λ thread input w. (refl, omega arith))
    go false f = ground arith

abbrev office : Platform
office = record platform { uuid4 = λ n. "gate" }

abbrev inbox : World
inbox = record blank { approvals = ("a1", approval) ∷ [] }

inbox-IsKeyed : IsKeyed inbox.approvals
unfolding lookup
inbox-IsKeyed i a e = ground (arith, e, eq_iff "a1" i)

abbrev approve : DecideRequest
approve = record { decision = ApprovalStatus.approved; edited_payload = none }

abbrev reject : DecideRequest
reject = record { decision = ApprovalStatus.rejected; edited_payload = none }

abbrev later : List (String × DecideRequest × String)
later = ("a1", reject, "bob") ∷ ("a2", approve, "ann") ∷ []

abbrev inbox_after : World
inbox_after =
    after_requests office (λ v. "value") graphs (λ a. a) (λ v. true)
      (("a1", approve, "ann") ∷ later) inbox

decide_approval-once_example :
    (lookup "a1" inbox_after.approvals
      ≡ some (decided_row approval ApprovalStatus.approved "ann" 0))
    × (decide_approval office
          (λ v. "value")
          approval_repo
          graphs
          (λ a. a)
          (λ v. true)
          "a1"
          reject
          "bob"
          inbox_after
        ≡ (err (http_error 409), inbox_after))
unfolding lookup is_decided approval_status_eq bad_edit
decide_approval-once_example =
    decide_approval-once office (λ v. "value") graphs (λ a. a) (λ v. true) inbox approval approve
      reject "ann" "bob" later (λ i h. ground (arith, eq_iff "gate" "a1")) graphs-IsGraph
      inbox-IsKeyed refl refl refl refl refl

-- A callback with the signature that the test provider gives.
abbrev delivered : Callback
delivered = record {
  url = "https://office/sms";
  params = ("MessageSid", "SM1") ∷ ("MessageStatus", "delivered") ∷ [];
  signature = "signed";
}

abbrev late : Callback
late = record delivered { params = ("MessageSid", "SM1") ∷ ("MessageStatus", "sent") ∷ [] }

abbrev signed : String → String → Dict String → String → Bool
signed token url params signature = signature == "signed"

abbrev sent_message : Message
sent_message = record message { status = MessageStatus.sent; provider_message_id = "SM1" }

abbrev outbox : World
outbox = record blank { messages = ("m1", sent_message) ∷ [] }

webhooks-highest_example :
    (lookup "m1" (after_webhooks signed "token" (delivered ∷ late ∷ []) outbox).messages
      ≡ some (record sent_message {
        status =
            settled "m1" sent_message.status
              (all_accepted signed "token" (delivered ∷ late ∷ []) outbox);
      }))
    × (status_rank (
          settled "m1" sent_message.status
            (all_accepted signed "token" (delivered ∷ late ∷ []) outbox))
        ≡ highest "m1"
            (status_rank sent_message.status)
            (all_accepted signed "token" (delivered ∷ late ∷ []) outbox))
unfolding lookup
webhooks-highest_example =
    webhooks-highest signed "token" (delivered ∷ late ∷ []) outbox "m1" sent_message refl

abbrev record_run : CronRun → Exec (Unit {0})
record_run r = pure tt

abbrev blank_cron : Pass
blank_cron = record { results = []; skipped_escalation = 0; email_tail_suppressed = 0 }

abbrev at_gate : ApprovalRequest
at_gate = record approval {
  kind = "approve_escalation";
  payload = some (obj (field "transaction_id" (str "T1") end));
}

-- One transaction waits at its escalation gate; the run of the other raises, since no graph is registered.
abbrev active : List Transaction
active = transaction ∷ record transaction { id = "T2" } ∷ []
