-- ===== src/Routes/Webhooks.antt =====
-- routes/webhooks.py: the delivery callbacks of the SMS provider.
pub mod Forward
use brokerops.Base.{
  String, Bool, true, false, not, ◌||◌, Option, none, some, List, [], ◌∷◌, ◌==◌, if◌then◌else◌,
}
use brokerops.Base.Dict.{Dict, lookup}
use brokerops.Models.Message.{Message, MessageStatus}
use brokerops.World.{Exec, http_error, pure, raise_if, ◌>>=◌, ◌>>◌}
use brokerops.Ports.{MessageStore}
use brokerops.Comms.Sending.{stored_or}

-- _TWILIO_STATUS_MAP
abbrev pub twilio_status_map : Dict MessageStatus
twilio_status_map =
    ("sent", MessageStatus.sent)
    ∷ ("delivered", MessageStatus.delivered)
    ∷ ("failed", MessageStatus.failed)
    ∷ ("undelivered", MessageStatus.failed)
    ∷ []

-- What the route answers: a status that is not mapped, a sid that no row has, or the row as it is now.
pub data CallbackReply : Type 0 where
  ignored_status : String → CallbackReply
  ignored_sid : CallbackReply
  processed : String → MessageStatus → CallbackReply

-- What a callback carries: the URL that was signed, the form and the signature.
pub record Callback : Type 0 where
  pub url : String
  pub params : Dict String
  pub signature : String

abbrev pub param : String → Callback → String
unfolding lookup
param key c = elim (lookup key c.params) [ none ↦ "" | some v ↦ v ]

-- `not auth_token or auth_token == "unset"`
unfoldable pub is_unset : String → Bool
is_unset token = token == "" || token == "unset"

-- `valid` is `signature_is_valid`, whose HMAC is a library's; the token is the configured one.
module _ (valid : String → String → Dict String → String → Bool) (token : String)
    (store : MessageStore) where
  unfoldable pub on_message : MessageStatus → Option Message → Exec CallbackReply
  on_message status none = pure ignored_sid
  on_message status (some m) = store.advance_message_status m.id status >>= λ row.
      pure (let final = stored_or row m in processed m.id final.status)

  unfoldable pub on_status : String → String → Option MessageStatus → Exec CallbackReply
  unfolding on_message
  on_status sid name none = pure (ignored_status name)
  on_status sid name (some status) = store.get_message_by_provider_id sid >>= on_message status

  unfoldable pub twilio_sms_webhook : Callback → Exec CallbackReply
  unfolding is_unset on_status lookup
  twilio_sms_webhook c =
      raise_if (is_unset token) (http_error 500)
      >> (raise_if (not (valid token c.url c.params c.signature)) (http_error 401)
          >> on_status (param "MessageSid" c) (param "MessageStatus" c)
              (lookup (param "MessageStatus" c) twilio_status_map))
