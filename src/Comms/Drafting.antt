-- ===== src/Comms/Drafting.antt =====
-- services/drafting.py: the template-rendering draft, the approver's edits and the follow-up rule.
use Prim.Native.Char.{code}
use brokerops.Base.{
  ℕ, String, Bool, true, ◌&&◌, ◌||◌, Option, none, some, [], ◌∷◌, ◌==◌, leb, nat_eq, or_else,
  if◌then◌else◌,
}
use brokerops.Models.Message.{MessageChannel}
use brokerops.Models.Contact.{Contact}
use brokerops.Models.Drafting.{DraftContext, DraftedMessage}
use brokerops.World.{Result, ok, err, lift, value_error}
use brokerops.World.Pure.{◌>>=◌}
use brokerops.Ports.{DraftingPort}
use brokerops.Comms.Templates.{MessageTemplate, get_template, render, ref}

abbrev pub drafted_from : DraftContext → MessageTemplate → String × String → DraftedMessage
drafted_from c t texts = record {
  channel = c.channel;
  recipient = c.recipient;
  subject = texts.0;
  body = texts.1;
  template_ref = ref t;
  contact_id = c.contact_id;
  listing_key = c.listing_key;
  transaction_id = c.transaction_id;
}

unfoldable pub draft : DraftContext → Result DraftedMessage
unfolding get_template render ref
draft c =
    get_template c.template_ref >>= λ t. render t c.params >>= λ texts. ok (drafted_from c t texts)

abbrev pub deterministic_drafter : DraftingPort
deterministic_drafter = record { draft = λ c. lift (draft c) }

-- The characters that `str.strip` removes.
unfoldable pub is_space : ℕ → Bool
is_space n =
    (leb 9 n && leb n 13)
    || (leb 28 n && leb n 32)
    || nat_eq n 133
    || nat_eq n 160
    || nat_eq n 5760
    || (leb 8192 n && leb n 8202)
    || nat_eq n 8232
    || nat_eq n 8233
    || nat_eq n 8239
    || nat_eq n 8287
    || nat_eq n 12288

-- `not text.strip()`
unfoldable pub is_blank : String → Bool
unfolding is_space
is_blank String.[] = true
is_blank (String.◌∷◌ c s) = is_space (code c) && is_blank s

-- The two keys of a decision's `edited_payload`: absent, or null, is `none`. Their values are texts, as
-- the inbox sends them.
pub record EditedPayload : Type 0 where
  pub subject : Option String
  pub body : Option String

abbrev or_empty : Option String → String
or_empty none = ""
or_empty (some s) = s

unfoldable pub edited_draft_fields : Option EditedPayload → Result (String × String)
unfolding is_blank
edited_draft_fields none = ok ("", "")
edited_draft_fields (some edited) = elim edited.body [
  | none ↦ ok (or_empty edited.subject, "")
  | some body ↦ if is_blank body then err value_error else ok (or_empty edited.subject, body)
]

unfoldable pub plan_showing_followup_email : Option Contact → String → Option DraftContext
plan_showing_followup_email none key = none
plan_showing_followup_email (some contact) key = elim contact.email [
  | none ↦ none
  | some email ↦
      if email == ""
      then none
      else some record {
        channel = MessageChannel.email;
        recipient = email;
        template_ref = "showing_followup:v1";
        params =
            ("recipient_name", or_else contact.name email)
            ∷ ("listing_address", key)
            ∷ ("sender_name", "The Brokerage Team")
            ∷ [];
        contact_id = contact.crm_id;
        listing_key = key;
        transaction_id = "";
      }
]
