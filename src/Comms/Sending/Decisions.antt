-- ===== src/Comms/Sending/Decisions.antt =====
-- Drafts, approvals and rejections keep the account.
use brokerops.Base.{◌+◌, String, ◌≡◌, refl, false, Option, none, some, arith, Bool-cases, inl, inr}
use brokerops.Base.Dict.{lookup}
use brokerops.Models.Message.{
  Message, MessageChannel, MessageStatus, is_sent, is_sendable, is_pending_approval,
}
use brokerops.Models.Drafting.{DraftContext, DraftedMessage}
use brokerops.World.{Platform, World, Result, ◌>>=◌, Result-cases}
use brokerops.Idempotency.{current_run_id, idempotency_key}
use brokerops.Stores.Messages.{save_message, get_message, message_store}
use brokerops.Comms.Sending.{
  pending_message, draft_id, context_json, id_in, draft_new, draft_for_approval, port_for, send_row,
  decide_row, reject_row, dlp_scrub, message_eq, edited_row, send_updated,
}
use brokerops.Comms.Sending.Account.{provider, backend, accepted, IsAccounted, insert-IsAccounted}
use brokerops.Comms.Sending.Attempts.{attempt-Accounted, store_and_attempt}

module _ (platform : Platform) (scrub : String → String) (answer : Message → World → Result String)
    (writes : DraftContext → World → Result DraftedMessage) (k : String)
    (kept_id : (j : String) → scrub j ≡ k → j ≡ k) where
  abbrev Accounted : World → Type 0
  Accounted w = IsAccounted k w.messages w.effects

  draft_new-Accounted :
      (c : DraftContext) (id : String) (w : World)
      → Accounted w
      → Accounted
          (draft_new platform scrub message_store (backend writes) c id (lookup id w.messages) w).1
  unfolding draft_new dlp_scrub save_message get_message is_sent
  draft_new-Accounted c id w h = go (lookup id w.messages) refl
    where
      go :
          (o : Option Message)
          → lookup id w.messages ≡ o
          → Accounted (draft_new platform scrub message_store (backend writes) c id o w).1
      go (some row) e = h
      go none e = elim (Result-cases (writes c w)) [
        | inr (_, d) ↦ rw d h
        | inl (drafted, d) ↦ rw d (
            insert-IsAccounted k w.messages w.effects
              (dlp_scrub scrub (pending_message id drafted (platform.now w.readings))) h
              (λ i. ground (arith, h.0, kept_id id i)))
      ]

  pub draft-Accounted :
      (c : DraftContext) (w : World)
      → Accounted w
      → Accounted (draft_for_approval platform scrub message_store (some (backend writes)) c w).1
  unfolding draft_for_approval draft_id id_in get_message
  draft-Accounted c w h = go (current_run_id w.audit_context)
    where
      go :
          (o : Option String)
          → Accounted
              ((id_in platform "draft_message" (context_json c) o >>= λ id.
                  get_message id >>= draft_new platform scrub message_store (backend writes) c id)
                w).1
      go none =
          draft_new-Accounted c (platform.uuid4 w.readings) (record w { readings = w.readings + 1 })
            h
      go (some run) =
          draft_new-Accounted c (idempotency_key platform run "draft_message" (context_json c)) w h

  send_updated-Accounted :
      (row m : Message) (w : World)
      → Accounted w
      → (m.id ≡ k → accepted k w.effects ≡ 0)
      → is_sent m.status ≡ false
      → Accounted (send_updated platform scrub message_store (provider answer) row m w).1
  unfolding send_updated save_message provider
  send_updated-Accounted row m w h c s = elim (Bool-cases (message_eq m row)) [
    | inl e ↦ rw e (attempt-Accounted platform scrub answer k m w h c)
    | inr e ↦ rw e (store_and_attempt platform scrub answer k m w h c s)
  ]

  pub decide_row-Accounted :
      (subject body : Option String) (id : String) (w : World)
      → Accounted w
      → Accounted
          (decide_row platform scrub message_store
            (provider answer)
            (some (provider answer))
            id
            subject
            body
            (lookup id w.messages)
            w).1
  unfolding decide_row send_row port_for dlp_scrub is_sendable is_sent
  decide_row-Accounted subject body id w h = go (lookup id w.messages) refl
    where
      sends :
          (row : Message) (channel : MessageChannel)
          → lookup id w.messages ≡ some row
          → is_sent row.status ≡ false
          → Accounted
              ((port_for platform scrub message_store
                    (provider answer)
                    (some (provider answer))
                    channel
                  >>= λ port.
                      send_updated platform scrub message_store port row
                        (dlp_scrub scrub (edited_row subject body row)))
                w).1
      sends row MessageChannel.email e s =
          send_updated-Accounted row (dlp_scrub scrub (edited_row subject body row)) w h
            (λ i. ground (arith, h.0, h.1 id row e, kept_id row.id i)) s
      sends row MessageChannel.sms e s =
          send_updated-Accounted row (dlp_scrub scrub (edited_row subject body row)) w h
            (λ i. ground (arith, h.0, h.1 id row e, kept_id row.id i)) s

      go :
          (o : Option Message)
          → lookup id w.messages ≡ o
          → Accounted
              (decide_row platform scrub message_store
                (provider answer)
                (some (provider answer))
                id
                subject
                body
                o
                w).1
      go none e = h
      go (some row) e = elim (Bool-cases (is_sendable row.status)) [
        | inr t ↦ rw t h
        | inl t ↦ rw t (sends row row.channel e (ground arith))
      ]

  pub reject_row-Accounted :
      (id : String) (w : World)
      → Accounted w
      → Accounted (reject_row platform scrub message_store id (lookup id w.messages) w).1
  unfolding reject_row save_message get_message is_pending_approval is_sent
  reject_row-Accounted id w h = go (lookup id w.messages) refl
    where
      go :
          (o : Option Message)
          → lookup id w.messages ≡ o
          → Accounted (reject_row platform scrub message_store id o w).1
      go none e = h
      go (some row) e = elim (Bool-cases (is_pending_approval row.status)) [
        | inr t ↦ rw t h
        | inl t ↦ rw t (
            insert-IsAccounted k w.messages w.effects
              (record row { status = MessageStatus.rejected }) h
              (λ i. ground (arith, h.0, h.1 id row e)))
      ]
