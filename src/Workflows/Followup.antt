-- ===== src/Workflows/Followup.antt =====
-- graphs/vapi_followup.py: from a finished call to the feedback, the CRM and a follow-up email.
pub mod Safe
pub mod Ends
use brokerops.Base.{
  ℕ, String, Bool, true, false, Option, none, some, List, [], ◌∷◌, ◌==◌, if◌then◌else◌, truthy,
  or_else,
}
use brokerops.Base.Int.{pos}
use brokerops.Base.Text.{concat}
use brokerops.Models.Json.{Json, Fields, null, str, obj, end, field}
use brokerops.Models.Message.{Message, channel_value}
use brokerops.Models.Contact.{Contact}
use brokerops.Models.Drafting.{DraftContext}
use brokerops.Models.Extraction.{ExtractedFeedback, extracted_json, sentiment_value}
use brokerops.Models.Records.{
  CallRecord, ShowingFeedback, FeedbackSource, ApprovalStatus, approval_status_eq,
}
use brokerops.World.{
  Platform, Exec, Result, ok, err, value_error, assertion_error, unknown_outbound_message, pure,
  raise, lift, reading, ◌>>=◌, ◌>>◌,
}
use brokerops.Ports.{VoicePort, CrmPort, FeedbackStore}
use brokerops.Comms.Drafting.{EditedPayload, edited_draft_fields, plan_showing_followup_email}
use brokerops.Workflows.Messages.{MessageService}
use brokerops.Workflows.Graph.{
  Answer, ApprovalOutcome, outcome_of, Progress, updated, waits, by_decision,
}

-- VapiFollowupState of models/workflow_state.py. `extracted` is `none` for the empty dict.
pub record FollowupState : Type 0 where
  pub call_id : String
  pub listing_key : String
  pub contact_id : String
  pub transcript : String
  pub call_outcome : String
  pub extracted : Option ExtractedFeedback
  pub feedback_id : String
  pub note_id : String
  pub call_log_id : String
  pub hot_approval : Option ApprovalOutcome
  pub hot_task_id : String
  pub followup_message_id : String
  pub followup_approval : Option ApprovalOutcome
  pub followup_edited_subject : String
  pub followup_edited_body : String
  pub outcome : String

pub data Node : Type 0 where
  ingest_call extract_structured upsert_feedback sync_crm notify_agent create_hot_task : Node
  finish_synced dismiss_hot draft_followup_email approve_outbound_message : Node
  send_followup_email dismiss_followup_email : Node

abbrev pub first_text : String → String → String
first_text a b = or_else a b

-- `text or None`
abbrev pub or_none : String → Option String
or_none s = if s == "" then none else some s

-- `updates[key] = edit` when the edit is not empty
abbrev pub edit_or : String → String → String
edit_or edit old = if truthy edit then edit else old

-- `ExtractedFeedback.model_validate(state.extracted)`: the empty dict has no sentiment.
unfoldable pub validated : FollowupState → Result ExtractedFeedback
validated s = elim s.extracted [ none ↦ err value_error | some e ↦ ok e ]

-- The payload of the gate of the drafted email.
unfoldable pub message_gate : FollowupState → Message → Json
unfolding channel_value
message_gate s m = obj (
    field "kind" (str "approve_outbound_message") (
      field "message_id" (str m.id) (
        field "channel" (str (channel_value m.channel)) (
          field "recipient" (str m.recipient) (
            field "subject" (str m.subject) (
              field "body" (str m.body) (
                field "template_ref" (str m.template_ref) (
                  field "contact_id" (str s.contact_id)
                    (field "listing_key" (str m.listing_key) end)))))))))

unfoldable pub hot_gate : FollowupState → ExtractedFeedback → Json
hot_gate s e = obj (
    field "kind" (str "notify_agent") (
      field "listing_key" (str s.listing_key) (
        field "contact_id" (str s.contact_id) (
          field "call_id" (str s.call_id) (
            field "reason" (str "Buyer signaled offer intent on the feedback call")
              (field "summary" (str e.summary) end))))))

-- The transcript comes from the webhook, else from the voice provider.
unfoldable pub with_record : FollowupState → Option CallRecord → FollowupState
with_record s none = s
with_record s (some r) = record s {
  transcript = r.transcript;
  listing_key = first_text s.listing_key r.listing_key;
  contact_id = first_text s.contact_id r.contact_id;
  call_outcome = first_text s.call_outcome r.outcome;
}

module _ (voice : VoicePort) where
  unfoldable pub with_transcript : FollowupState → Exec FollowupState
  unfolding with_record
  with_transcript s =
      if truthy s.transcript
      then pure s
      else (voice.get_call s.call_id >>= λ r. pure (with_record s r))

module _ (platform : Platform) (feedback_store : FeedbackStore) where
  -- The other fields of a state without a transcript are not updated.
  unfoldable pub save_call : FollowupState → FollowupState → Exec (Progress FollowupState)
  save_call old s =
      if truthy s.transcript
      then (reading platform.now >>= λ now.
          feedback_store.save_call_record record {
            tenant_id = "";
            vapi_call_id = s.call_id;
            contact_id = s.contact_id;
            listing_key = s.listing_key;
            transcript = s.transcript;
            outcome = s.call_outcome;
            extracted = obj end;
            created_at = some now;
          }
          >> pure (updated s))
      else pure (updated (record old { outcome = "no_transcript" }))

  unfoldable pub save_extracted : Json → Option CallRecord → Exec (Unit {0})
  save_extracted extracted none = pure tt
  save_extracted extracted (some r) =
      feedback_store.save_call_record (record r { extracted = extracted })

  unfoldable pub upsert : FollowupState → Exec (Progress FollowupState)
  unfolding validated save_extracted extracted_json
  upsert s = do
    e ← lift (validated s)
    now ← reading platform.now
    feedback_id ← feedback_store.upsert_feedback record {
      tenant_id = "";
      id = concat ("FB-" ∷ s.call_id ∷ []);
      listing_key = s.listing_key;
      contact_id = s.contact_id;
      call_id = some s.call_id;
      source = FeedbackSource.call;
      sentiment = e.sentiment;
      structured_answers = extracted_json e;
      created_at = some now;
    }
    call ← feedback_store.get_call_record s.call_id
    (save_extracted (extracted_json e) call
        >> pure (updated (record s { feedback_id = feedback_id })))

module _ (platform : Platform) (voice : VoicePort) (feedback_store : FeedbackStore) where
  unfoldable pub ingest : FollowupState → Exec (Progress FollowupState)
  unfolding with_transcript save_call
  ingest s = with_transcript voice s >>= save_call platform feedback_store s

module _ (extract : String → Exec ExtractedFeedback) where
  unfoldable pub extract_node : FollowupState → Exec (Progress FollowupState)
  extract_node s = extract s.transcript >>= λ e. pure (updated (record s { extracted = some e }))

unfoldable pub notify : Option Answer → FollowupState → Exec (Progress FollowupState)
unfolding validated hot_gate outcome_of
notify none s = lift (validated s) >>= λ e. pure (waits (hot_gate s e))
notify (some a) s =
    lift (validated s) >>= λ e. pure (updated (record s { hot_approval = some (outcome_of a) }))

-- `today` is the day of the n-th reading of the clock.
module _ (today : ℕ → ℕ) (crm : CrmPort) where
  unfoldable pub hot_task_on : FollowupState → ℕ → Exec (Progress FollowupState)
  hot_task_on s day =
      crm.create_task
        (concat (
          "HOT LEAD: contact " ∷ s.contact_id ∷ " signaled offer intent on " ∷ s.listing_key
          ∷ " — call back today" ∷ []))
        day (or_none s.contact_id)
      >>= λ task. pure (updated (record s { hot_task_id = task.id; outcome = "agent_notified" }))

  unfoldable pub hot_task : FollowupState → Exec (Progress FollowupState)
  unfolding hot_task_on
  hot_task s = reading today >>= hot_task_on s

module _ (crm : CrmPort) where
  unfoldable pub sync : FollowupState → Exec (Progress FollowupState)
  unfolding validated sentiment_value
  sync s = do
    e ← lift (validated s)
    note_id ←
        crm.add_note s.contact_id (concat ("Showing feedback — " ∷ s.listing_key ∷ [])) e.summary
    call_log_id ←
        crm.log_call s.contact_id (sentiment_value e.sentiment)
          (concat ("Feedback call for " ∷ s.listing_key ∷ " (" ∷ s.call_id ∷ ")" ∷ [])) (pos 0)
    pure (updated (record s { note_id = note_id; call_log_id = call_log_id }))

  unfoldable pub contact_of : FollowupState → Exec (Option Contact)
  contact_of s = if truthy s.contact_id then crm.get_contact s.contact_id else pure none

-- Without a planned email nothing is drafted.
unfoldable pub draft_planned :
    (DraftContext → Exec Message)
    → FollowupState
    → Option DraftContext
    → Exec (Progress FollowupState)
draft_planned draft s none = pure (updated s)
draft_planned draft s (some c) =
    draft c >>= λ m. pure (updated (record s { followup_message_id = m.id }))

module _ (crm : CrmPort) (messages : MessageService) where
  unfoldable pub draft_email : FollowupState → Exec (Progress FollowupState)
  unfolding contact_of draft_planned plan_showing_followup_email
  draft_email s = contact_of crm s >>= λ contact.
      draft_planned messages.draft s (plan_showing_followup_email contact s.listing_key)

-- The answer of the gate, with the edits that it carries.
unfoldable pub answered : FollowupState → Option Answer → Message → Exec (Progress FollowupState)
unfolding message_gate outcome_of edited_draft_fields
answered s none m = pure (waits (message_gate s m))
answered s (some a) m = lift (edited_draft_fields a.edited_payload) >>= λ edits. pure (
    updated (record s {
      followup_approval = some (outcome_of a);
      followup_edited_subject = edit_or edits.0 s.followup_edited_subject;
      followup_edited_body = edit_or edits.1 s.followup_edited_body;
    }))

unfoldable pub gate_row :
    FollowupState → Option Answer → Option Message → Exec (Progress FollowupState)
unfolding answered
gate_row s a none = raise (unknown_outbound_message s.followup_message_id)
gate_row s a (some m) = answered s a m

module _ (messages : MessageService) where
  unfoldable pub approve_email : Option Answer → FollowupState → Exec (Progress FollowupState)
  unfolding gate_row
  approve_email a s = messages.get_message s.followup_message_id >>= gate_row s a

  unfoldable pub send_email : FollowupState → Exec (Progress FollowupState)
  send_email s =
      messages.send_approved s.followup_message_id (or_none s.followup_edited_subject)
        (or_none s.followup_edited_body)
      >>= λ m. pure (updated (record s { outcome = "followup_sent" }))

  unfoldable pub dismiss_email : FollowupState → Exec (Progress FollowupState)
  dismiss_email s = messages.mark_rejected s.followup_message_id >>= λ m.
      pure (updated (record s { outcome = "followup_dismissed" }))

module _ (platform : Platform) (today : ℕ → ℕ) (voice : VoicePort) (crm : CrmPort)
    (feedback_store : FeedbackStore) (extract : String → Exec ExtractedFeedback)
    (messages : MessageService) where
  -- The node of each name. An answer reaches the gates only.
  unfoldable pub run_node : Node → Option Answer → FollowupState → Exec (Progress FollowupState)
  unfolding ingest extract_node upsert sync notify hot_task draft_email approve_email send_email
      dismiss_email
  run_node ingest_call a s = ingest platform voice feedback_store s
  run_node extract_structured a s = extract_node extract s
  run_node upsert_feedback a s = upsert platform feedback_store s
  run_node sync_crm a s = sync crm s
  run_node notify_agent a s = notify a s
  run_node create_hot_task a s = hot_task today crm s
  run_node finish_synced a s = pure (updated (record s { outcome = "synced" }))
  run_node dismiss_hot a s = pure (updated (record s { outcome = "hot_signal_dismissed" }))
  run_node draft_followup_email a s = draft_email crm messages s
  run_node approve_outbound_message a s = approve_email messages a s
  run_node send_followup_email a s = send_email messages s
  run_node dismiss_followup_email a s = dismiss_email messages s

unfoldable pub by_signal : Result ExtractedFeedback → Result (Option Node)
by_signal (err e) = err e
by_signal (ok e) = ok (some (if e.hot_signal then notify_agent else draft_followup_email))

-- The edges; `none` is END.
unfoldable pub route : Node → FollowupState → Result (Option Node)
unfolding by_decision by_signal validated
route ingest_call s = ok (if s.outcome == "no_transcript" then none else some extract_structured)
route extract_structured s = ok (some upsert_feedback)
route upsert_feedback s = ok (some sync_crm)
route sync_crm s = by_signal (validated s)
route notify_agent s = by_decision s.hot_approval create_hot_task dismiss_hot
route draft_followup_email s =
    ok (some (if truthy s.followup_message_id then approve_outbound_message else finish_synced))
route approve_outbound_message s =
    by_decision s.followup_approval send_followup_email dismiss_followup_email
route _ s = ok none
