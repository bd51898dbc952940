-- ===== src/Tests/Tenancy.antt =====
-- The tenancy theorems at concrete rows, of a bound tenant and of another one.
use brokerops.Base.{String, ◌≡◌, ◌≢◌, ◌↔◌, ◌⊎◌, refl, none, some, List, [], ◌∷◌}
use brokerops.Base.Int.{pos}
use brokerops.Base.Dict.{lookup}
use brokerops.Models.Message.{MessageStatus}
use brokerops.Models.Records.{ApprovalStatus, ShowingFeedback, FeedbackSource, Sentiment}
use brokerops.Models.Json.{null, str, obj, end, field}
use brokerops.World.{World, blank, ok}
use brokerops.Stores.Messages.{message_store}
use brokerops.Stores.Approvals.{approval_repo}
use brokerops.Stores.Transactions.{transaction_store}
use brokerops.Stores.AuditLog.{audit_log}
use brokerops.Tenancy.{require_tenant, enforce_tenant, tenant_scope}
use brokerops.Tenancy.Scope.{tenant_scope-tenant, enforce_tenant-eq_ok}
use brokerops.Scoped.Foreign.{is_foreign, foreign_part}
use brokerops.Scoped.Messages.Reads.{FailsClosed, fails_closed, ReadsOwn, reads_own}
use brokerops.Scoped.Messages.Confined as Messages
use brokerops.Scoped.Approvals as ScopedApprovals
use brokerops.Scoped.Approvals.Confined as Approvals
use brokerops.Scoped.Documents.Confined as Documents
use brokerops.Scoped.Feedback.Confined as Feedback
use brokerops.Scoped.Transactions as ScopedTransactions
use brokerops.Scoped.Transactions.Confined as Transactions
use brokerops.Audit.{redact}
use brokerops.Audit.Redaction.{IsClean, redact-IsClean}
use brokerops.Tests.Data.{platform, message, milestone, transaction, approval, document, acme}

tenant_scope-tenant_example : (tenant_scope "acme" require_tenant blank).1.tenant ≡ none
tenant_scope-tenant_example = tenant_scope-tenant "acme" require_tenant blank

enforce_tenant-eq_ok_example :
    ((enforce_tenant "" acme).0 ≡ ok "acme")
    ↔ ((acme.tenant ≡ some "acme") × ((◌≡◌ {A = String} "" "") ⊎ (◌≡◌ {A = String} "" "acme")))
enforce_tenant-eq_ok_example = enforce_tenant-eq_ok "" "acme" acme

fails_closed_example : FailsClosed platform audit_log message_store blank
fails_closed_example = fails_closed platform audit_log message_store blank refl

reads_own_example : ReadsOwn platform audit_log message_store "acme" acme
reads_own_example = reads_own platform audit_log message_store "acme" acme refl

abbrev message_ops : List Messages.MessageOp
message_ops =
    Messages.save message
    ∷ Messages.advance "m1" MessageStatus.delivered
    ∷ Messages.save (record message { id = "m2" })
    ∷ []

message_ops-KeepsForeign_example :
    Messages.KeepsForeign platform "acme" acme (Messages.after_all platform acme message_ops)
message_ops-KeepsForeign_example =
    Messages.message_ops-KeepsForeign platform "acme" acme message_ops refl

abbrev approval_ops : List Approvals.ApprovalOp
approval_ops = Approvals.decide "a1" ApprovalStatus.approved "ann" 5 ∷ []

approval_ops-KeepsForeign_example :
    Approvals.KeepsForeign platform "acme" acme (Approvals.after_all platform acme approval_ops)
approval_ops-KeepsForeign_example =
    Approvals.approval_ops-KeepsForeign platform "acme" acme approval_ops refl

create-replaces_foreign_example :
    let call = ScopedApprovals.create platform audit_log approval_repo approval acme in
    (call.0 ≡ ok tt)
    × (lookup "a1" call.1.approvals ≡ some (record approval { tenant_id = "acme" }))
    × (some (record approval { tenant_id = "acme" })
        ≢ some (record approval { tenant_id = "zenith" }))
unfolding lookup is_foreign
create-replaces_foreign_example =
    Approvals.create-replaces_foreign platform "acme" acme approval
      (record approval { tenant_id = "zenith" }) refl refl refl refl

abbrev document_ops : List Documents.DocumentOp
document_ops =
    Documents.add_document document
    ∷ Documents.add_document (record document { id = "d2" })
    ∷ Documents.list_documents "T1"
    ∷ []

document_ops-OnlyAdds_example :
    Documents.OnlyAdds platform "acme" acme (Documents.after_all platform acme document_ops)
document_ops-OnlyAdds_example =
    Documents.document_ops-OnlyAdds platform "acme" acme document_ops refl

abbrev feedback : ShowingFeedback
feedback = record {
  tenant_id = "";
  id = "f1";
  listing_key = "L1";
  contact_id = "";
  call_id = none;
  source = FeedbackSource.call;
  sentiment = Sentiment.positive;
  structured_answers = null;
  created_at = none;
}

abbrev feedback_ops : List Feedback.FeedbackOp
feedback_ops = Feedback.upsert feedback ∷ Feedback.list "L1" ∷ []

feedback_ops-KeepsForeign_example :
    Feedback.KeepsForeign platform "acme" acme (Feedback.after_all platform acme feedback_ops)
feedback_ops-KeepsForeign_example =
    Feedback.feedback_ops-KeepsForeign platform "acme" acme feedback_ops refl

abbrev opening : Transactions.TransactionOp
opening = Transactions.create transaction (record milestone { id = "T1-MS02-APP" } ∷ [])

abbrev escalation : Transactions.TransactionOp
escalation = Transactions.escalate "T1-MS01-INS" (pos 1)

abbrev opened : World
opened = Transactions.after platform acme opening

escalated-Run :
    Transactions.Run platform "acme" acme (Transactions.after platform opened escalation)
unfolding lookup foreign_part is_foreign
escalated-Run =
    Transactions.step escalation (Transactions.step opening Transactions.done (refl, tt)) tt

Run-KeepsForeign_example :
    Transactions.KeepsForeign platform "acme" acme (Transactions.after platform opened escalation)
unfolding lookup
Run-KeepsForeign_example =
    Transactions.Run-KeepsForeign platform "acme" refl (tt, (refl, tt)) escalated-Run

create_transaction-replaces_foreign_example :
    let call =
      ScopedTransactions.create_transaction platform audit_log transaction_store transaction
        (milestone ∷ [])
        acme in
    (call.0 ≡ ok tt)
    × (lookup "T1-MS01-INS" call.1.milestones ≡ some (record milestone { tenant_id = "acme" }))
    × (some (record milestone { tenant_id = "acme" })
        ≢ some (record milestone { tenant_id = "zenith" }))
unfolding lookup is_foreign
create_transaction-replaces_foreign_example =
    Transactions.create_transaction-replaces_foreign platform "acme" acme transaction milestone
      (record milestone { tenant_id = "zenith" }) refl refl refl refl refl refl

redact-IsClean_example :
    let j = obj (field "user" (str "ann") (field "api_token" (str "hunter2") end)) in
    let lower : String → String = λ s. s in
    IsClean lower (redact lower j)
    × ((IsClean lower j → redact lower j ≡ j) × (redact lower j ≡ j → IsClean lower j))
    × (redact lower (redact lower j) ≡ redact lower j)
redact-IsClean_example =
    redact-IsClean (λ s. s) (obj (field "user" (str "ann") (field "api_token" (str "hunter2") end)))
