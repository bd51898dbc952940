-- ===== src/Comms/Callbacks.antt =====
-- Delivery callbacks on the in-memory message store, in whatever order they arrive.
use brokerops.Base.{
  ℕ, String, ◌≡◌, refl, ap, ◌∙◌, some, List, [], ◌∷◌, ◌==◌, if◌then◌else◌, ltb, arith, eq_iff,
  Option-cases, inl, inr,
}
use brokerops.Base.Dict.{lookup, lookup-insert}
use brokerops.Models.Message.{Message, MessageStatus, status_rank}
use brokerops.World.{World}
use brokerops.Stores.Messages.{advanced, advance_message_status}

abbrev pub after_callbacks : World → List (String × MessageStatus) → World
after_callbacks w [] = w
after_callbacks w ((id, status) ∷ rest) =
    after_callbacks (advance_message_status id status w).1 rest

-- The highest rank among a first one and those of the callbacks that name the message.
abbrev pub highest : String → ℕ → List (String × MessageStatus) → ℕ
highest k n [] = n
highest k n ((id, status) ∷ rest) =
    highest k
      (if id == k then (if ltb n (status_rank status) then status_rank status else n) else n) rest

-- The status after one more callback: a terminal one stays, and the others only move forward.
abbrev pub later : MessageStatus → MessageStatus → MessageStatus
later MessageStatus.drafted new = new
later MessageStatus.pending_approval MessageStatus.drafted = MessageStatus.pending_approval
later MessageStatus.pending_approval new = new
later MessageStatus.sent MessageStatus.delivered = MessageStatus.delivered
later MessageStatus.sent MessageStatus.failed = MessageStatus.failed
later MessageStatus.sent MessageStatus.rejected = MessageStatus.rejected
later MessageStatus.sent new = MessageStatus.sent
later MessageStatus.delivered new = MessageStatus.delivered
later MessageStatus.failed new = MessageStatus.failed
later MessageStatus.rejected new = MessageStatus.rejected

-- The status after the callbacks that name the message, in their order.
abbrev pub settled : String → MessageStatus → List (String × MessageStatus) → MessageStatus
settled k s [] = s
settled k s ((id, status) ∷ rest) = settled k (if id == k then later s status else s) rest

-- The row under the status after one callback.
abbrev moved : String → Message → String → MessageStatus → Message
moved k row id status = record row {
  status = if id == k then later row.status status else row.status;
}

advanced-later :
    (row : Message) (old new : MessageStatus)
    → row.status ≡ old
    → advanced row new ≡ record row { status = later row.status new }
unfolding advanced status_rank
advanced-later row old new e = ground (arith, e)

later-rank :
    (old new : MessageStatus)
    → status_rank (later old new)
      ≡ (if ltb (status_rank old) (status_rank new) then status_rank new else status_rank old)
unfolding status_rank
later-rank old new = ground arith

advance_lem :
    (k : String) (row : Message) (id : String) (status : MessageStatus) (w : World)
    → lookup k w.messages ≡ some row
    → lookup k (advance_message_status id status w).1.messages ≡ some (moved k row id status)
unfolding advance_message_status advanced
advance_lem k row id status w h =
    let known = λ (e : id ≡ k). (ap (λ i. lookup i w.messages) e ∙ h) in
    elim (Option-cases (lookup id w.messages)) [
      | inl e ↦ ground (arith, h, e, eq_iff id k)
      | inr (r, e) ↦ ground (
        arith,
        h,
        e,
        known,
        eq_iff id k,
        lookup-insert id k (advanced r status) w.messages,
        advanced-later row row.status status refl,
      )
    ]

settled-rank :
    (k : String) (s : MessageStatus) (callbacks : List (String × MessageStatus))
    → status_rank (settled k s callbacks) ≡ highest k (status_rank s) callbacks
settled-rank k s [] = refl
settled-rank k s ((id, status) ∷ rest) =
    settled-rank k (if id == k then later s status else s) rest
    ∙ ap (λ n. highest k n rest) (ground (arith, later-rank s status))

-- Once a message is stored, callbacks in any order change nothing of its row but the status. A delivered, failed
-- or rejected row keeps its status, whichever of them a callback brings; any other status only
-- moves forward, so the first terminal one stays. The rank is the highest of the row's and the callbacks'.
pub advance_message_status-highest :
    (k : String) (row : Message) (w : World) (callbacks : List (String × MessageStatus))
    → lookup k w.messages ≡ some row
    → (lookup k (after_callbacks w callbacks).messages
        ≡ some (record row { status = settled k row.status callbacks }))
      × (status_rank (settled k row.status callbacks)
          ≡ highest k (status_rank row.status) callbacks)
advance_message_status-highest k row w callbacks h =
    (go row w callbacks h, settled-rank k row.status callbacks)
  where
    go :
        (m : Message) (v : World) (cs : List (String × MessageStatus))
        → lookup k v.messages ≡ some m
        → lookup k (after_callbacks v cs).messages
          ≡ some (record m { status = settled k m.status cs })
    go m v [] e = e
    go m v ((id, status) ∷ cs) e =
        go (moved k m id status) (advance_message_status id status v).1 cs
          (advance_lem k m id status v e)
