-- ===== src/Tools/Egress/Outbound.antt =====
-- The scrub of an outbound message (services/message_send.py) as the filter of services/egress.py.
use brokerops.Base.{
  ℕ, String, ◌≡◌, refl, ap, ◌∙◌, true, false, Option, none, some, List, [], ◌∷◌, map,
}
use brokerops.Base.Int.{pos}
use brokerops.Base.Lists.{All}
use brokerops.Models.Role.{Role, contact_pii, restricted_content, allows, rank}
use brokerops.Models.Message.{Message, MessageChannel, MessageStatus, channel_value}
use brokerops.Audit.{is_secret_key}
use brokerops.Comms.Sending.{dlp_scrub, status_value}
use brokerops.Tools.Value.{Value, ModelFields, nothing, scalar, text, model, no_field, field}
use brokerops.Tools.Egress.{scrub_payload, scrub_fields, may_see, scrub_text, Pattern}

-- A field of a model: its name, the least role of its marker, and its value.
abbrev pub Row : Type 0
Row = String × Option Role × Value

abbrev pub fields_of : List Row → ModelFields
fields_of [] = no_field
fields_of ((name, min, v) ∷ rows) = field name min v (fields_of rows)

abbrev pub time_value : Option ℕ → Value
time_value none = nothing
time_value (some t) = scalar (pos t)

-- The fields of `Message` with their markers.
abbrev pub message_rows : Message → List Row
message_rows m =
    ("id", none, text m.id)
    ∷ ("tenant_id", none, text m.tenant_id)
    ∷ ("channel", none, text (channel_value m.channel))
    ∷ ("recipient", some contact_pii.min_role, text m.recipient)
    ∷ ("subject", some restricted_content.min_role, text m.subject)
    ∷ ("body", some restricted_content.min_role, text m.body)
    ∷ ("template_ref", none, text m.template_ref)
    ∷ ("contact_id", none, text m.contact_id)
    ∷ ("listing_key", none, text m.listing_key)
    ∷ ("transaction_id", none, text m.transaction_id)
    ∷ ("status", none, text (status_value m.status))
    ∷ ("provider_message_id", none, text m.provider_message_id)
    ∷ ("created_at", none, time_value m.created_at)
    ∷ ("sent_at", none, time_value m.sent_at)
    ∷ []

abbrev pub message_names : List String
message_names =
    "id" ∷ "tenant_id" ∷ "channel" ∷ "recipient" ∷ "subject" ∷ "body" ∷ "template_ref"
    ∷ "contact_id" ∷ "listing_key" ∷ "transaction_id" ∷ "status" ∷ "provider_message_id"
    ∷ "created_at" ∷ "sent_at" ∷ []

-- A message as a value that crosses the tool seam.
abbrev pub message_value : Message → Value
message_value m = model (fields_of (message_rows m))

module _ (patterns : List Pattern) (lower : String → String) (role : Role) where
  abbrev IsOpen : Row → Type 0
  IsOpen (name, min, v) = (is_secret_key lower name ≡ false) × (may_see role min ≡ true)

  abbrev scrub_row : Row → Row
  scrub_row (name, min, v) = (name, min, scrub_payload patterns lower role v)

  scrub_fields-open :
      (rows : List Row)
      → All IsOpen rows
      → scrub_fields patterns lower role (fields_of rows) ≡ fields_of (map scrub_row rows)
  unfolding scrub_payload
  scrub_fields-open [] h = refl
  scrub_fields-open ((name, min, v) ∷ rows) ((h, seen), hs) = rw h (
      rw seen
        (ap (field name min (scrub_payload patterns lower role v)) (scrub_fields-open rows hs)))

  scrub-time_value :
      (t : Option ℕ) → scrub_payload patterns lower role (time_value t) ≡ time_value t
  unfolding scrub_payload
  scrub-time_value none = refl
  scrub-time_value (some t) = refl

-- The rows that an operator sees whole, when the lower case of each name is that name.
module _ (patterns : List Pattern) (lower : String → String) where
  not_secret :
      (name : String)
      → lower name ≡ name
      → is_secret_key (λ s. s) name ≡ false
      → is_secret_key lower name ≡ false
  unfolding is_secret_key
  not_secret name e h = rw e h

  rows-IsOpen :
      (rows : List Row)
      → All (λ (row : Row). lower row.0 ≡ row.0) rows
      → All (IsOpen patterns (λ s. s) Role.operator) rows
      → All (IsOpen patterns lower Role.operator) rows
  rows-IsOpen [] e h = tt
  rows-IsOpen ((name, min, v) ∷ rows) (e, es) ((h, seen), hs) =
      ((not_secret name e h, seen), rows-IsOpen rows es hs)

  message_rows-IsOpen :
      (m : Message) → All (IsOpen patterns (λ s. s) Role.operator) (message_rows m)
  unfolding is_secret_key may_see allows rank
  message_rows-IsOpen m = (
    (refl, refl),
    (
      (refl, refl),
      (
        (refl, refl),
        (
          (refl, refl),
          (
            (refl, refl),
            (
              (refl, refl),
              (
                (refl, refl),
                (
                  (refl, refl),
                  (
                    (refl, refl),
                    (
                      (refl, refl),
                      ((refl, refl), ((refl, refl), ((refl, refl), ((refl, refl), tt)))),
                    ),
                  ),
                ),
              ),
            ),
          ),
        ),
      ),
    ),
  )

-- The scrub of an outbound message is the filter of a response, for an operator, on the message as a value:
-- the same redaction stands on both ways out. The conditions: the lower case of a field name is that
-- name, and no channel or status looks like a secret.
pub dlp_scrub-is_scrub_payload :
    (patterns : List Pattern) (lower : String → String)
    → All (λ name. lower name ≡ name) message_names
    → ((c : MessageChannel) → scrub_text patterns (channel_value c) ≡ channel_value c)
    → ((s : MessageStatus) → scrub_text patterns (status_value s) ≡ status_value s)
    → (m : Message)
    → scrub_payload patterns lower Role.operator (message_value m)
      ≡ message_value (dlp_scrub (scrub_text patterns) m)
unfolding scrub_payload dlp_scrub
dlp_scrub-is_scrub_payload patterns lower names channels statuses m =
    ap model (
      scrub_fields-open patterns lower Role.operator (message_rows m)
        (rows-IsOpen patterns lower (message_rows m) names (message_rows-IsOpen patterns lower m)))
    ∙ rw (channels m.channel) (
        rw (statuses m.status) (
          rw (scrub-time_value patterns lower Role.operator m.created_at)
            (rw (scrub-time_value patterns lower Role.operator m.sent_at) refl)))
