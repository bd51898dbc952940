-- ===== src/Workflows/Messages.antt =====
-- The part of MessageSendService (services/message_send.py) that the workflows use.
use brokerops.Base.{String, Option}
use brokerops.Models.Message.{Message}
use brokerops.Models.Drafting.{DraftContext}
use brokerops.World.{Platform, Exec}
use brokerops.Ports.{MessageStore, SendPort, DraftingPort}
use brokerops.Comms.Sending.{draft_for_approval, send_approved, mark_rejected}

pub record MessageService : Type 0 where
  pub draft : DraftContext → Exec Message
  pub get_message : String → Exec (Option Message)
  pub send_approved : String → Option String → Option String → Exec Message
  pub mark_rejected : String → Exec Message

abbrev pub message_service :
    Platform
    → (String → String)
    → MessageStore
    → Option DraftingPort
    → SendPort
    → Option SendPort
    → MessageService
message_service platform scrub store drafting email sms = record {
  draft = draft_for_approval platform scrub store drafting;
  get_message = store.get_message;
  send_approved = send_approved platform scrub store email sms;
  mark_rejected = mark_rejected platform scrub store;
}
