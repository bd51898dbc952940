-- ===== src/Stores/Messages.antt =====
-- InMemoryMessageStore.
use brokerops.Base.{
  ℕ, String, Bool, true, Option, none, some, List, ◌&&◌, ◌==◌, leb, ltb, truthy, if◌then◌else◌,
}
use brokerops.Base.Lists.{keep, first, take}
use brokerops.Base.Dict.{lookup, insert, values}
use brokerops.Base.Sort.{sort_by}
use brokerops.Models.Message.{Message, MessageStatus, status_rank}
use brokerops.World.{Exec, ok, gets, modify}
use brokerops.Ports.{MessageStore}

unfoldable pub save_message : Message → Exec (Unit {0})
unfolding insert
save_message m = modify (λ w. record w { messages = insert m.id m w.messages })

unfoldable pub get_message : String → Exec (Option Message)
unfolding lookup
get_message id = gets (λ w. lookup id w.messages)

-- Every row that was not sent holds `""`, which matches nothing.
unfoldable pub get_message_by_provider_id : String → Exec (Option Message)
unfolding values
get_message_by_provider_id pid w =
    if truthy pid
    then (ok (first (λ (m : Message). m.provider_message_id == pid) (values w.messages)), w)
    else (ok none, w)

-- A filter that is `None` admits every row.
unfoldable pub matches : Option String → String → Bool
matches none s = true
matches (some wanted) s = s == wanted

-- `m.created_at or epoch`: a row without a time sorts as the earliest.
unfoldable pub created_or_epoch : Message → ℕ
created_or_epoch m = elim m.created_at [ none ↦ 0 | some t ↦ t ]

unfoldable pub newest_first : Message → Message → Bool
unfolding created_or_epoch
newest_first a b = leb (created_or_epoch b) (created_or_epoch a)

unfoldable pub list_messages : Option String → ℕ → Option String → Exec (List Message)
unfolding values matches newest_first sort_by
list_messages contact_id limit transaction_id = gets (λ w. take limit (
    sort_by newest_first (
      keep
        (λ (m : Message).
          matches contact_id m.contact_id && matches transaction_id m.transaction_id)
        (values w.messages))))

-- Forward only: the row moves when the new rank is strictly higher.
unfoldable pub advanced : Message → MessageStatus → Message
unfolding status_rank
advanced row status =
    if ltb (status_rank row.status) (status_rank status)
    then record row { status = status }
    else row

unfoldable pub advance_message_status : String → MessageStatus → Exec (Option Message)
unfolding lookup insert advanced
advance_message_status id status w = elim (lookup id w.messages) [
  | none ↦ (ok none, w)
  | some row ↦
      if ltb (status_rank row.status) (status_rank status)
      then (
        ok (some (advanced row status)),
        record w { messages = insert id (advanced row status) w.messages },
      )
      else (ok (some row), w)
]

abbrev pub message_store : MessageStore
message_store = record {
  save_message = save_message;
  get_message = get_message;
  get_message_by_provider_id = get_message_by_provider_id;
  list_messages = list_messages;
  advance_message_status = advance_message_status;
}
