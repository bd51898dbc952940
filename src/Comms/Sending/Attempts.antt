-- ===== src/Comms/Sending/Attempts.antt =====
-- `_send`: an attempt, whatever the provider answers, keeps the account.
use brokerops.Base.{
  ◌+◌, String, ◌≡◌, refl, false, Option, none, some, [], ◌∷◌, ◌++◌, arith, Bool-cases, inl, inr,
}
use brokerops.Base.Dict.{lookup, insert}
use brokerops.Models.Message.{Message, MessageStatus, semantic_send_args, is_sent}
use brokerops.Models.Drafting.{DraftContext}
use brokerops.World.{Platform, World, Result, ok, err, ◌>>=◌, Result-cases}
use brokerops.Idempotency.{current_run_id, idempotency_key}
use brokerops.Comms.Templates.{get_template, render}
use brokerops.Stores.Messages.{save_message, get_message, message_store}
use brokerops.Comms.Sending.{
  send_tool, id_in, message_id, send_draft, drafted_message, attempt, send_new, send, dlp_scrub,
}
use brokerops.Comms.Sending.Account.{
  acceptance, provider, accepted, IsAccounted, insert-IsAccounted, accept-IsAccounted,
}

module _ (platform : Platform) (scrub : String → String) (answer : Message → World → Result String)
    (k : String) where
  abbrev Accounted : World → Type 0
  Accounted w = IsAccounted k w.messages w.effects

  -- The rows and the takings after an attempt, by the provider's answer.
  Attempted : Message → World → Result String → Type 0
  Attempted m w (ok p) =
      let sent = record m {
        status = MessageStatus.sent;
        provider_message_id = p;
        sent_at = some (platform.now w.readings);
      } in
      let u = (attempt platform scrub message_store (provider answer) m w).1 in
      (u.messages ≡ insert m.id sent w.messages) × (u.effects ≡ w.effects ++ acceptance m ∷ [])
  Attempted m w (err e) =
      let u = (attempt platform scrub message_store (provider answer) m w).1 in
      (u.messages ≡ insert m.id (record m { status = MessageStatus.failed }) w.messages)
      × (u.effects ≡ w.effects)

  attempt_lem : (m : Message) (w : World) → Attempted m w (answer m w)
  unfolding Attempted attempt provider save_message get_message
  attempt_lem m w = go (answer m w) refl
    where
      go : (r : Result String) → answer m w ≡ r → Attempted m w r
      go (ok p) e = ground (arith, e)
      go (err x) e = ground (arith, e)

  pub attempt-Accounted :
      (m : Message) (w : World)
      → Accounted w
      → (m.id ≡ k → accepted k w.effects ≡ 0)
      → Accounted (attempt platform scrub message_store (provider answer) m w).1
  unfolding Attempted acceptance is_sent
  attempt-Accounted m w h c = go (answer m w) (attempt_lem m w)
    where
      go :
          (r : Result String)
          → Attempted m w r
          → Accounted (attempt platform scrub message_store (provider answer) m w).1
      go (ok p) e =
          let sent = record m {
            status = MessageStatus.sent;
            provider_message_id = p;
            sent_at = some (platform.now w.readings);
          } in
          let a = accept-IsAccounted k w.messages w.effects sent (acceptance m) h refl refl c in
          rw e.0 (rw e.1 a)
      go (err x) e =
          let failed = record m { status = MessageStatus.failed } in
          rw e.0 (rw e.1 (insert-IsAccounted k w.messages w.effects failed h c))

  -- Storing a row that does not count as sent, and the attempt after it.
  pub store_and_attempt :
      (m : Message) (w : World)
      → Accounted w
      → (m.id ≡ k → accepted k w.effects ≡ 0)
      → is_sent m.status ≡ false
      → Accounted (attempt platform scrub message_store (provider answer) m (save_message m w).1).1
  unfolding save_message
  store_and_attempt m w h c s =
      attempt-Accounted m (save_message m w).1
        (insert-IsAccounted k w.messages w.effects m h (λ e. ground (arith, c e))) c

  send_new-Accounted :
      (m : Message) (w : World)
      → Accounted w
      → is_sent m.status ≡ false
      → Accounted
          (send_new platform scrub message_store (provider answer) m (lookup m.id w.messages) w).1
  unfolding send_new save_message
  send_new-Accounted m w h s = go (lookup m.id w.messages) refl
    where
      go :
          (o : Option Message)
          → lookup m.id w.messages ≡ o
          → Accounted (send_new platform scrub message_store (provider answer) m o w).1
      go none e = store_and_attempt m w h (λ i. ground (arith, h.0)) s
      go (some row) e = elim (Bool-cases (is_sent row.status)) [
        | inl t ↦ rw t h
        | inr t ↦ rw t (store_and_attempt m w h (λ i. ground (arith, h.0)) s)
      ]

  send_draft-Accounted :
      (m : Message) (w : World)
      → Accounted w
      → is_sent m.status ≡ false
      → Accounted (send_draft platform scrub message_store (provider answer) m w).1
  unfolding send_draft message_id id_in get_message
  send_draft-Accounted m w h s = go (current_run_id w.audit_context)
    where
      go :
          (o : Option String)
          → Accounted
              ((id_in platform (send_tool m.channel) (semantic_send_args m) o >>= λ id.
                  get_message id >>= λ existing.
                  send_new platform scrub message_store
                    (provider answer)
                    (record m { id = id })
                    existing)
                w).1
      go none =
          send_new-Accounted (record m { id = platform.uuid4 w.readings })
            (record w { readings = w.readings + 1 }) h s
      go (some run) =
          let key = idempotency_key platform run (send_tool m.channel) (semantic_send_args m) in
          send_new-Accounted (record m { id = key }) w h s

  pub send-Accounted :
      (c : DraftContext) (w : World)
      → Accounted w
      → Accounted (send platform scrub message_store (provider answer) c w).1
  unfolding send dlp_scrub is_sent
  send-Accounted c w h = elim (Result-cases (get_template c.template_ref)) [
    | inr (_, e) ↦ rw e h
    | inl (t, e) ↦ elim (Result-cases (render t c.params)) [
      | inr (_, d) ↦ rw e (rw d h)
      | inl (texts, d) ↦ rw e (
          rw d (
            send_draft-Accounted
              (dlp_scrub scrub (drafted_message c.channel t texts c (platform.now w.readings)))
              (record w { readings = w.readings + 1 }) h refl))
    ]
  ]
