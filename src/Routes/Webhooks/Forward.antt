-- ===== src/Routes/Webhooks/Forward.antt =====
-- What delivery callbacks do to the stored messages.
use brokerops.Base.{
  String, ◌≡◌, refl, sym, ap, ◌∙◌, Bool, true, false, not, ◌||◌, Option, none, some, List, [], ◌∷◌,
  ◌++◌, ◌==◌, if◌then◌else◌, truthy, arith,
}
use brokerops.Base.Lists.{first}
use brokerops.Base.Dict.{Dict, lookup, values}
use brokerops.Models.Message.{Message, MessageStatus, status_rank}
use brokerops.World.{World, http_error, raise_if, ◌>>◌}
use brokerops.Stores.Messages.{message_store, get_message_by_provider_id, advance_message_status}
use brokerops.Comms.Callbacks.{after_callbacks, highest, settled, advance_message_status-highest}
use brokerops.Routes.Webhooks.{
  Callback, twilio_sms_webhook, twilio_status_map, on_status, on_message, is_unset, param,
}

-- The transitions that a callback makes of the message that was found: at most one.
abbrev pub transition : MessageStatus → Option Message → List (String × MessageStatus)
transition status none = []
transition status (some m) = (m.id, status) ∷ []

-- The row of a provider's id; no row is looked up under the empty one.
abbrev pub row_of : String → World → Option Message
row_of sid w =
    if truthy sid
    then first (λ (m : Message). m.provider_message_id == sid) (values w.messages)
    else none

abbrev pub transition_of : String → Option MessageStatus → World → List (String × MessageStatus)
transition_of sid none w = []
transition_of sid (some status) w = transition status (row_of sid w)

module _ (valid : String → String → Dict String → String → Bool) (token : String) where
  -- The transitions of a callback: none unless it is signed with a configured token.
  abbrev pub accepted : Callback → World → List (String × MessageStatus)
  accepted c w =
      if (token == "" || token == "unset") || not (valid token c.url c.params c.signature)
      then []
      else transition_of (param "MessageSid" c) (lookup (param "MessageStatus" c) twilio_status_map)
          w

  abbrev pub after_webhooks : List Callback → World → World
  after_webhooks [] w = w
  after_webhooks (c ∷ cs) w = after_webhooks cs (twilio_sms_webhook valid token message_store c w).1

  -- The transitions of a sequence of callbacks.
  abbrev pub all_accepted : List Callback → World → List (String × MessageStatus)
  all_accepted [] w = []
  all_accepted (c ∷ cs) w =
      accepted c w ++ all_accepted cs (twilio_sms_webhook valid token message_store c w).1

  on_message-world :
      (status : MessageStatus) (m : Option Message) (w : World)
      → (on_message valid token message_store status m w).1
        ≡ after_callbacks w (transition status m)
  unfolding on_message
  on_message-world status none w = refl
  on_message-world status (some m) w = ground arith

  on_status-world :
      (sid name : String) (status : Option MessageStatus) (w : World)
      → (on_status valid token message_store sid name status w).1
        ≡ after_callbacks w (transition_of sid status w)
  unfolding on_status get_message_by_provider_id
  on_status-world sid name none w = refl
  on_status-world sid name (some status) w =
      ground (arith, on_message-world status (row_of sid w) w)

  webhook-world :
      (c : Callback) (w : World)
      → (twilio_sms_webhook valid token message_store c w).1 ≡ after_callbacks w (accepted c w)
  unfolding twilio_sms_webhook is_unset
  webhook-world c w = guard (is_unset token) (valid token c.url c.params c.signature)
    where
      sid : String
      sid = param "MessageSid" c

      name : String
      name = param "MessageStatus" c

      guard :
          (unset signed : Bool)
          → ((raise_if unset (http_error 500)
                >> (raise_if (not signed) (http_error 401)
                    >> on_status valid token message_store sid name
                        (lookup name twilio_status_map)))
              w).1
            ≡ after_callbacks w (
                if unset || not signed
                then []
                else transition_of sid (lookup name twilio_status_map) w)
      guard true signed = refl
      guard false true = on_status-world sid name (lookup name twilio_status_map) w
      guard false false = refl

  after_callbacks-append :
      (xs ys : List (String × MessageStatus)) (w : World)
      → after_callbacks w (xs ++ ys) ≡ after_callbacks (after_callbacks w xs) ys
  after_callbacks-append [] ys w = refl
  after_callbacks-append ((id, status) ∷ xs) ys w =
      after_callbacks-append xs ys (advance_message_status id status w).1

  webhooks-world :
      (cs : List Callback) (w : World) → after_webhooks cs w ≡ after_callbacks w (all_accepted cs w)
  webhooks-world [] w = refl
  webhooks-world (c ∷ cs) w =
      let w' = (twilio_sms_webhook valid token message_store c w).1 in
      webhooks-world cs w'
      ∙ ap (λ v. after_callbacks v (all_accepted cs w')) (webhook-world c w)
      ∙ sym (after_callbacks-append (accepted c w) (all_accepted cs w') w)

  -- Over any sequence of delivery callbacks, in any order and with any content, nothing of a stored message changes
  -- but its status. Only callbacks with a valid signature, a mapped status and its sid count, in their
  -- order: a delivered, failed or rejected message keeps its status, any other only moves forward.
  pub webhooks-highest :
      (cs : List Callback) (w : World) (k : String) (row : Message)
      → lookup k w.messages ≡ some row
      → (lookup k (after_webhooks cs w).messages
          ≡ some (record row { status = settled k row.status (all_accepted cs w) }))
        × (status_rank (settled k row.status (all_accepted cs w))
            ≡ highest k (status_rank row.status) (all_accepted cs w))
  webhooks-highest cs w k row h =
      let (e, r) = advance_message_status-highest k row w (all_accepted cs w) h in
      (ap (λ (v : World). lookup k v.messages) (webhooks-world cs w) ∙ e, r)
