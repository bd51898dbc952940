-- ===== src/Models/Message.antt =====
-- models/message.py: one outbound communication, and the rank of its lifecycle states.
use brokerops.Base.{ℕ, String, Bool, true, false, Option}
use brokerops.Models.Json.{Json, str, obj, Fields}

pub data MessageChannel : Type 0 where
  email sms : MessageChannel

unfoldable pub channel_value : MessageChannel → String
channel_value email = "email"
channel_value sms = "sms"

pub data MessageStatus : Type 0 where
  drafted pending_approval sent delivered failed rejected : MessageStatus

-- STATUS_RANK
unfoldable pub status_rank : MessageStatus → ℕ
status_rank drafted = 0
status_rank pending_approval = 1
status_rank sent = 2
status_rank delivered = 3
status_rank failed = 3
status_rank rejected = 3

pub record Message : Type 0 where
  pub id : String
  pub tenant_id : String
  pub channel : MessageChannel
  pub recipient : String
  pub subject : String
  pub body : String
  pub template_ref : String
  pub contact_id : String
  pub listing_key : String
  pub transaction_id : String
  pub status : MessageStatus
  pub provider_message_id : String
  pub created_at : Option ℕ
  pub sent_at : Option ℕ

-- The message without VOLATILE_MESSAGE_FIELDS: what makes two sends the same send.
unfoldable pub semantic_send_args : Message → Json
unfolding channel_value
semantic_send_args m = obj (
    Fields.field "channel" (str (channel_value m.channel)) (
      Fields.field "recipient" (str m.recipient) (
        Fields.field "subject" (str m.subject) (
          Fields.field "body" (str m.body) (
            Fields.field "template_ref" (str m.template_ref) (
              Fields.field "contact_id" (str m.contact_id) (
                Fields.field "listing_key" (str m.listing_key)
                  (Fields.field "transaction_id" (str m.transaction_id) Fields.end))))))))

-- `status in (SENT, DELIVERED)`
unfoldable pub is_sent : MessageStatus → Bool
is_sent sent = true
is_sent delivered = true
is_sent _ = false

-- `status in (PENDING_APPROVAL, FAILED)`
unfoldable pub is_sendable : MessageStatus → Bool
is_sendable pending_approval = true
is_sendable failed = true
is_sendable _ = false

unfoldable pub is_pending_approval : MessageStatus → Bool
is_pending_approval pending_approval = true
is_pending_approval _ = false
