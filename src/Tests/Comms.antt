-- ===== src/Tests/Comms.antt =====
-- The theorems on outbound messages at a concrete history.
use brokerops.Base.{◌≤◌, String, ◌≡◌, refl, none, some, List, [], ◌∷◌}
use brokerops.Base.Dict.{lookup}
use brokerops.Models.Message.{MessageChannel, MessageStatus, status_rank}
use brokerops.Models.Drafting.{DraftContext}
use brokerops.World.{World, ok, blank}
use brokerops.Stores.Messages.{get_message, save_message}
use brokerops.Comms.Drafting.{draft}
use brokerops.Comms.Callbacks.{after_callbacks, highest, settled, advance_message_status-highest}
use brokerops.Comms.Sending.Account.{accepted, sent_count}
use brokerops.Comms.Sending.Once.{
  Event, in_run, direct, drafts, approves, rejects, after_events, accepted-after_events,
}
use brokerops.Tests.Data.{platform, message, context}

abbrev stored : World
stored = record blank { messages = ("m1", record message { status = MessageStatus.sent }) ∷ [] }

abbrev callbacks : List (String × MessageStatus)
callbacks = ("m1", MessageStatus.delivered) ∷ ("m1", MessageStatus.sent) ∷ []

advance_message_status-highest_example :
    (lookup "m1" (after_callbacks stored callbacks).messages
      ≡ some (record message { status = settled "m1" MessageStatus.sent callbacks }))
    × (status_rank (settled "m1" MessageStatus.sent callbacks)
        ≡ highest "m1" (status_rank MessageStatus.sent) callbacks)
unfolding lookup
advance_message_status-highest_example =
    advance_message_status-highest "m1" (record message { status = MessageStatus.sent }) stored
      callbacks refl

abbrev follow_up : DraftContext
follow_up = record {
  channel = MessageChannel.email;
  recipient = "ann@example.com";
  template_ref = "showing_followup:v1";
  params =
      ("recipient_name", "Ann")
      ∷ ("listing_address", "1 Main St")
      ∷ ("sender_name", "The Brokerage Team")
      ∷ [];
  contact_id = "";
  listing_key = "L1";
  transaction_id = "";
}

-- Outside of a run the first id is that of the first reading.
abbrev history : List Event
history =
    drafts follow_up
    ∷ approves "0" none (some "Edited text")
    ∷ approves "0" none none
    ∷ rejects "0"
    ∷ in_run (some context)
    ∷ direct follow_up
    ∷ direct follow_up
    ∷ []

abbrev end : World
end = after_events platform (λ s. s) (λ m w. ok "sid") (λ c w. draft c) blank history

accepted-after_events_example :
    (accepted "0" end.effects ≤ 1)
    × (accepted "0" end.effects ≡ sent_count (lookup "0" end.messages))
accepted-after_events_example =
    accepted-after_events platform (λ s. s) (λ m w. ok "sid") (λ c w. draft c) "0" (λ j e. e)
      history

-- A draft that is approved with an edit, approved again and then rejected was taken once.
sends_once :
    accepted "0"
      (after_events platform
        (λ s. s)
        (λ m w. ok "sid")
        (λ c w. draft c)
        blank
        (drafts follow_up
          ∷ approves "0" none (some "Edited text")
          ∷ approves "0" none none
          ∷ rejects "0"
          ∷ [])).effects
    ≡ 1
unfolding accepted after_events draft get_message save_message
sends_once = refl
