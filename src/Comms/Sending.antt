-- ===== src/Comms/Sending.antt =====
-- services/message_send.py: MessageSendService.
pub mod Account
pub mod Attempts
pub mod Decisions
pub mod Once
use brokerops.Base.{
  ℕ, String, Bool, true, false, not, ◌&&◌, Option, none, some, List, [], ◌∷◌, ◌==◌, nat_eq,
  if◌then◌else◌,
}
use brokerops.Base.Dict.{Dict}
use brokerops.Models.Json.{Json, Fields, str, obj, end, field}
use brokerops.Models.Message.{
  Message, MessageChannel, MessageStatus, channel_value, semantic_send_args, is_sent, is_sendable,
  is_pending_approval,
}
use brokerops.Models.Drafting.{DraftContext, DraftedMessage}
use brokerops.Models.Records.{AuditContext}
use brokerops.World.{
  World, Platform, Exec, Error, runtime_error, value_error, unknown_outbound_message, gets, pure,
  raise, raise_if, lift, reading, catch, ◌>>=◌, ◌>>◌,
}
use brokerops.Ports.{MessageStore, SendPort, DraftingPort}
use brokerops.Idempotency.{idempotency_key, current_run_id}
use brokerops.Comms.Templates.{MessageTemplate, get_template, render, ref}
use brokerops.Comms.Drafting.{is_blank}

-- _SEND_TOOL
unfoldable pub send_tool : MessageChannel → String
send_tool MessageChannel.email = "send_email"
send_tool MessageChannel.sms = "send_sms"

abbrev pub params_json : Dict String → Fields
params_json [] = end
params_json ((k, v) ∷ rest) = field k (str v) (params_json rest)

-- `context.model_dump(mode="json")`
unfoldable pub context_json : DraftContext → Json
unfolding channel_value
context_json c = obj (
    field "channel" (str (channel_value c.channel)) (
      field "recipient" (str c.recipient) (
        field "template_ref" (str c.template_ref) (
          field "params" (obj (params_json c.params)) (
            field "contact_id" (str c.contact_id) (
              field "listing_key" (str c.listing_key)
                (field "transaction_id" (str c.transaction_id) end)))))))

unfoldable pub status_value : MessageStatus → String
status_value MessageStatus.drafted = "drafted"
status_value MessageStatus.pending_approval = "pending_approval"
status_value MessageStatus.sent = "sent"
status_value MessageStatus.delivered = "delivered"
status_value MessageStatus.failed = "failed"
status_value MessageStatus.rejected = "rejected"

abbrev pub time_eq : Option ℕ → Option ℕ → Bool
time_eq none none = true
time_eq (some a) (some b) = nat_eq a b
time_eq none (some b) = false
time_eq (some a) none = false

-- `==` of two models compares every field.
unfoldable pub message_eq : Message → Message → Bool
unfolding channel_value status_value
message_eq a b =
    a.id == b.id
    && a.tenant_id == b.tenant_id
    && channel_value a.channel == channel_value b.channel
    && a.recipient == b.recipient
    && a.subject == b.subject
    && a.body == b.body
    && a.template_ref == b.template_ref
    && a.contact_id == b.contact_id
    && a.listing_key == b.listing_key
    && a.transaction_id == b.transaction_id
    && status_value a.status == status_value b.status
    && a.provider_message_id == b.provider_message_id
    && time_eq a.created_at b.created_at
    && time_eq a.sent_at b.sent_at

-- Empty for a channel that has no subject line.
unfoldable pub subject_for : MessageChannel → String → String
subject_for MessageChannel.email s = s
subject_for MessageChannel.sms s = ""

-- `stored if stored is not None else sent`
abbrev pub stored_or : Option Message → Message → Message
stored_or none m = m
stored_or (some row) m = row

-- An edit that is not given leaves the row's text; one that is equal to it changes nothing.
abbrev pub edited : Option String → String → String
edited none old = old
edited (some new) old = new

abbrev pub edited_row : Option String → Option String → Message → Message
edited_row subject body row = record row {
  subject = edited subject row.subject;
  body = edited body row.body;
}

-- `body is not None and not body.strip()`
unfoldable pub blank_edit : Option String → Bool
unfolding is_blank
blank_edit none = false
blank_edit (some body) = is_blank body

-- `scrub` redacts the secret-shaped spans of a text (`_scrub_text` over SECRET_VALUE_PATTERNS).
module _ (scrub : String → String) where
  -- `_dlp_scrub` is `scrub_payload` for an operator on the message, written out field by field: no field is
  -- named like a secret, and an operator may see every one. A channel and a status have none of the
  -- secret shapes.
  unfoldable pub dlp_scrub : Message → Message
  dlp_scrub m = record m {
    id = scrub m.id;
    tenant_id = scrub m.tenant_id;
    recipient = scrub m.recipient;
    subject = scrub m.subject;
    body = scrub m.body;
    template_ref = scrub m.template_ref;
    contact_id = scrub m.contact_id;
    listing_key = scrub m.listing_key;
    transaction_id = scrub m.transaction_id;
    provider_message_id = scrub m.provider_message_id;
  }

-- Within a run the id is the key of the digest, outside of one it is random.
unfoldable pub id_in : Platform → String → Json → Option String → Exec String
unfolding idempotency_key
id_in platform tool args none = reading platform.uuid4
id_in platform tool args (some run) = pure (idempotency_key platform run tool args)

unfoldable pub message_id : Platform → Message → Exec String
unfolding id_in current_run_id send_tool semantic_send_args
message_id platform m w =
    id_in platform (send_tool m.channel) (semantic_send_args m) (current_run_id w.audit_context) w

unfoldable pub draft_id : Platform → DraftContext → Exec String
unfolding id_in current_run_id context_json
draft_id platform c w =
    id_in platform "draft_message" (context_json c) (current_run_id w.audit_context) w

abbrev pub drafted_message :
    MessageChannel → MessageTemplate → String × String → DraftContext → ℕ → Message
drafted_message channel t texts c now = record {
  id = "";
  tenant_id = "";
  channel = channel;
  recipient = c.recipient;
  subject = subject_for channel texts.0;
  body = texts.1;
  template_ref = ref t;
  contact_id = c.contact_id;
  listing_key = c.listing_key;
  transaction_id = c.transaction_id;
  status = MessageStatus.drafted;
  provider_message_id = "";
  created_at = some now;
  sent_at = none;
}

abbrev pub pending_message : String → DraftedMessage → ℕ → Message
pending_message id d now = record {
  id = id;
  tenant_id = "";
  channel = d.channel;
  recipient = d.recipient;
  subject = subject_for d.channel d.subject;
  body = d.body;
  template_ref = d.template_ref;
  contact_id = d.contact_id;
  listing_key = d.listing_key;
  transaction_id = d.transaction_id;
  status = MessageStatus.pending_approval;
  provider_message_id = "";
  created_at = some now;
  sent_at = none;
}

module _ (platform : Platform) (scrub : String → String) (store : MessageStore) where
  -- The attempt: FAILED and the exception again when the provider raises, else SENT with its id and the
  -- time; the answer is the row as it is stored.
  unfoldable pub attempt : SendPort → Message → Exec Message
  attempt port message = do
    provider_id ←
        catch (port.send message)
          (λ e. store.save_message (record message { status = MessageStatus.failed }) >> raise e)
    now ← reading platform.now
    let sent = record message {
      status = MessageStatus.sent;
      provider_message_id = provider_id;
      sent_at = some now;
    } in
        (store.save_message sent
          >> (store.get_message sent.id >>= λ stored. pure (stored_or stored sent)))

  -- `_send` from the point where the draft has its id.
  unfoldable pub send_new : SendPort → Message → Option Message → Exec Message
  unfolding attempt is_sent
  send_new port message none = store.save_message message >> attempt port message
  send_new port message (some row) =
      if is_sent row.status then pure row else (store.save_message message >> attempt port message)

  -- `_send` from the point where the draft is rendered and scrubbed.
  unfoldable pub send_draft : SendPort → Message → Exec Message
  unfolding message_id send_new
  send_draft port draft = message_id platform draft >>= λ id.
      store.get_message id >>= send_new port (record draft { id = id })

  -- `_send`; the recipient, the template and the rest of its keyword arguments are those of a context.
  unfoldable pub send : SendPort → DraftContext → Exec Message
  unfolding get_template render ref subject_for dlp_scrub send_draft
  send port c = do
    t ← lift (get_template c.template_ref)
    texts ← lift (render t c.params)
    now ← reading platform.now
    send_draft port (dlp_scrub scrub (drafted_message c.channel t texts c now))

  unfoldable pub send_on : SendPort → Option SendPort → DraftContext → MessageChannel → Exec Message
  unfolding send
  send_on email sms c MessageChannel.email = send email c
  send_on email none c MessageChannel.sms = raise runtime_error
  send_on email (some sms) c MessageChannel.sms = send sms c

  -- `send_email` and `send_sms`, by the channel of the context.
  unfoldable pub send_direct : SendPort → Option SendPort → DraftContext → Exec Message
  unfolding send_on
  send_direct email sms c = send_on email sms c c.channel

  -- A row that is already there is returned and the backend is not called.
  unfoldable pub draft_new : DraftingPort → DraftContext → String → Option Message → Exec Message
  unfolding subject_for dlp_scrub
  draft_new drafting c id (some row) = pure row
  draft_new drafting c id none = do
    drafted ← drafting.draft c
    now ← reading platform.now
    let message = dlp_scrub scrub (pending_message id drafted now) in
        (store.save_message message
          >> (store.get_message id >>= λ stored. pure (stored_or stored message)))

  unfoldable pub draft_for_approval : Option DraftingPort → DraftContext → Exec Message
  unfolding draft_id draft_new
  draft_for_approval none c = raise runtime_error
  draft_for_approval (some drafting) c =
      draft_id platform c >>= λ id. store.get_message id >>= draft_new drafting c id

  unfoldable pub port_for : SendPort → Option SendPort → MessageChannel → Exec SendPort
  port_for email sms MessageChannel.email = pure email
  port_for email none MessageChannel.sms = raise runtime_error
  port_for email (some sms) MessageChannel.sms = pure sms

  -- What the edits and the scrub changed is stored before the attempt.
  unfoldable pub send_updated : SendPort → Message → Message → Exec Message
  unfolding message_eq attempt
  send_updated port row message =
      (if message_eq message row then pure tt else store.save_message message)
      >> attempt port message

  unfoldable pub send_row :
      SendPort → Option SendPort → Option String → Option String → Message → Exec Message
  unfolding port_for dlp_scrub send_updated
  send_row email sms subject body row = port_for email sms row.channel >>= λ port.
      send_updated port row (dlp_scrub scrub (edited_row subject body row))

  unfoldable pub decide_row :
      SendPort
      → Option SendPort
      → String
      → Option String
      → Option String
      → Option Message
      → Exec Message
  unfolding send_row is_sendable
  decide_row email sms id subject body none = raise (unknown_outbound_message id)
  decide_row email sms id subject body (some row) =
      if is_sendable row.status then send_row email sms subject body row else pure row

  unfoldable pub send_approved :
      SendPort → Option SendPort → String → Option String → Option String → Exec Message
  unfolding blank_edit decide_row
  send_approved email sms id subject body =
      raise_if (blank_edit body) value_error
      >> (store.get_message id >>= decide_row email sms id subject body)

  unfoldable pub reject_row : String → Option Message → Exec Message
  unfolding is_pending_approval
  reject_row id none = raise (unknown_outbound_message id)
  reject_row id (some row) =
      if is_pending_approval row.status
      then (store.save_message (record row { status = MessageStatus.rejected })
          >> (store.get_message row.id >>= λ stored.
              pure (stored_or stored (record row { status = MessageStatus.rejected }))))
      else pure row

  unfoldable pub mark_rejected : String → Exec Message
  unfolding reject_row
  mark_rejected id = store.get_message id >>= reject_row id
