-- ===== src/Comms/Sending/Once.antt =====
-- MessageSendService over the in-memory store and a provider: histories of drafts, decisions and sends.
use brokerops.Base.{
  ℕ, ◌≤◌, String, ◌≡◌, refl, Option, none, some, List, [], ◌∷◌, arith, Bool-cases, inl, inr,
}
use brokerops.Base.Dict.{lookup}
use brokerops.Models.Message.{Message, MessageChannel}
use brokerops.Models.Drafting.{DraftContext, DraftedMessage}
use brokerops.Models.Records.{AuditContext}
use brokerops.World.{Platform, World, Result, blank}
use brokerops.Stores.Messages.{get_message, message_store}
use brokerops.Comms.Sending.{
  send_direct, send_on, draft_for_approval, send_approved, mark_rejected, blank_edit,
}
use brokerops.Comms.Sending.Account.{provider, backend, accepted, sent_count, IsAccounted}
use brokerops.Comms.Sending.Attempts.{send-Accounted}
use brokerops.Comms.Sending.Decisions.{draft-Accounted, decide_row-Accounted, reject_row-Accounted}

-- What happens to the service: the context of a run opens or closes, a message is sent directly, drafted
-- for approval, approved with or without edits, or rejected.
pub data Event : Type 0 where
  in_run : Option AuditContext → Event
  direct : DraftContext → Event
  drafts : DraftContext → Event
  approves : String → Option String → Option String → Event
  rejects : String → Event

module _ (platform : Platform) (scrub : String → String) (answer : Message → World → Result String)
    (writes : DraftContext → World → Result DraftedMessage) where
  -- The world that an event leaves, whether it returned or raised.
  unfoldable pub after_event : World → Event → World
  unfolding send_direct draft_for_approval send_approved mark_rejected provider
  after_event w (in_run context) = record w { audit_context = context }
  after_event w (direct c) =
      (send_direct platform scrub message_store (provider answer) (some (provider answer)) c w).1
  after_event w (drafts c) =
      (draft_for_approval platform scrub message_store (some (backend writes)) c w).1
  after_event w (approves id subject body) =
      (send_approved platform scrub message_store (provider answer) (some (provider answer)) id
        subject body w).1
  after_event w (rejects id) = (mark_rejected platform scrub message_store id w).1

  unfoldable pub after_events : World → List Event → World
  unfolding after_event
  after_events w [] = w
  after_events w (e ∷ rest) = after_events (after_event w e) rest

  module _ (k : String) (kept_id : (j : String) → scrub j ≡ k → j ≡ k) where
    abbrev Accounted : World → Type 0
    Accounted w = IsAccounted k w.messages w.effects

    approve-Accounted :
        (subject body : Option String) (id : String) (w : World)
        → Accounted w
        → Accounted
            (send_approved platform scrub message_store
              (provider answer)
              (some (provider answer))
              id
              subject
              body
              w).1
    unfolding send_approved get_message
    approve-Accounted subject body id w h = elim (Bool-cases (blank_edit body)) [
      | inl e ↦ rw e h
      | inr e ↦
          rw e (decide_row-Accounted platform scrub answer writes k kept_id subject body id w h)
    ]

    direct-Accounted :
        (c : DraftContext) (w : World) (channel : MessageChannel)
        → Accounted w
        → Accounted
            (send_on platform scrub message_store
              (provider answer)
              (some (provider answer))
              c
              channel
              w).1
    unfolding send_on
    direct-Accounted c w MessageChannel.email h = send-Accounted platform scrub answer k c w h
    direct-Accounted c w MessageChannel.sms h = send-Accounted platform scrub answer k c w h

    after_event-Accounted : (w : World) (e : Event) → Accounted w → Accounted (after_event w e)
    unfolding after_event send_direct mark_rejected get_message
    after_event-Accounted w (in_run context) h = h
    after_event-Accounted w (direct c) h = direct-Accounted c w c.channel h
    after_event-Accounted w (drafts c) h =
        draft-Accounted platform scrub answer writes k kept_id c w h
    after_event-Accounted w (approves id subject body) h = approve-Accounted subject body id w h
    after_event-Accounted w (rejects id) h =
        reject_row-Accounted platform scrub answer writes k kept_id id w h

    after_events-Accounted :
        (w : World) (es : List Event) → Accounted w → Accounted (after_events w es)
    unfolding after_events
    after_events-Accounted w [] h = h
    after_events-Accounted w (e ∷ rest) h =
        after_events-Accounted (after_event w e) rest (after_event-Accounted w e h)

-- Whatever the provider and the drafting backend answer, and whatever history of runs, drafts, approvals,
-- edits, rejections and direct sends: the provider has taken a message of an id at most once, and it has
-- exactly when the row of that id is sent or delivered. The one condition is on the redaction: no other
-- text is redacted to that id.
pub accepted-after_events :
    (platform : Platform) (scrub : String → String) (answer : Message → World → Result String)
    (writes : DraftContext → World → Result DraftedMessage) (k : String)
    → ((j : String) → scrub j ≡ k → j ≡ k)
    → (es : List Event)
    → let w = after_events platform scrub answer writes blank es in
      (accepted k w.effects ≤ 1) × (accepted k w.effects ≡ sent_count (lookup k w.messages))
unfolding accepted lookup
accepted-after_events platform scrub answer writes k kept_id es =
    let h =
      after_events-Accounted platform scrub answer writes k kept_id blank es (refl, λ j m e. cc) in
    (at_most_one _ (lookup k _) h.0, h.0)
  where
    at_most_one : (n : ℕ) (o : Option Message) → n ≡ sent_count o → n ≤ 1
    at_most_one n none e = ground arith
    at_most_one n (some m) e = ground arith
