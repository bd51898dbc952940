-- ===== src/Comms/Templates.antt =====
-- models/message_templates.py: versioned templates, and `string.Template.substitute`.
use Prim.Native.String
use Prim.Native.Char.{Char, code}
use brokerops.Base.{
  ℕ, String, Bool, ◌&&◌, ◌||◌, none, some, List, [], ◌∷◌, ◌==◌, leb, nat_eq, truthy, if◌then◌else◌,
}
use brokerops.Base.Lists.{first}
use brokerops.Base.Dict.{Dict, lookup}
use brokerops.Base.Text.{concat, decimal}
use brokerops.World.{
  Result, ok, err, Error, value_error, key_error, unknown_template, template_param,
}
use brokerops.World.Pure.{◌>>=◌}

-- `[_a-zA-Z]`
unfoldable pub starts_name : Char → Bool
starts_name c =
    (leb 97 (code c) && leb (code c) 122)
    || ((leb 65 (code c) && leb (code c) 90) || nat_eq (code c) 95)

-- `[_a-zA-Z0-9]`
unfoldable pub continues_name : Char → Bool
unfolding starts_name
continues_name c = starts_name c || (leb 48 (code c) && leb (code c) 57)

-- Where the scan stands: in plain text, after a `$`, in the name of `$name`, or in that of `${name}`.
pub data Scan : Type 0 where
  plain after_dollar : Scan
  bare braced : String → Scan

abbrev pub prefixed : String → Result String → Result String
prefixed s (ok t) = ok (String.◌++◌ s t)
prefixed s (err e) = err e

abbrev pub value_of : Dict String → String → Result String
value_of params name = elim (lookup name params) [ none ↦ err (key_error name) | some v ↦ ok v ]

abbrev one : Char → String
one c = String.◌∷◌ c ""

-- One character read: the text that is put out, and where the scan stands then.
unfoldable pub read : Dict String → Scan → Char → Result (String × Scan)
unfolding continues_name lookup
read params plain c = if nat_eq (code c) 36 then ok ("", after_dollar) else ok (one c, plain)
read params after_dollar c =
    if nat_eq (code c) 36
    then ok ("$", plain)
    else if nat_eq (code c) 123
    then ok ("", braced "")
    else if starts_name c
    then ok ("", bare (one c))
    else err value_error
read params (bare name) c =
    if continues_name c
    then ok ("", bare (concat (name ∷ one c ∷ [])))
    else (value_of params name >>= λ v.
        (if nat_eq (code c) 36 then ok (v, after_dollar) else ok (concat (v ∷ one c ∷ []), plain)))
read params (braced name) c =
    if (if truthy name then continues_name c else starts_name c)
    then ok ("", braced (concat (name ∷ one c ∷ [])))
    else if nat_eq (code c) 125 && truthy name
    then (value_of params name >>= λ v. ok (v, plain))
    else err value_error

-- `substitute`, from left to right: `$$` is a dollar, a name that is missing is a `KeyError`, and any
-- other use of `$` a `ValueError`.
unfoldable pub substitute_from : Dict String → Scan → String → Result String
unfolding read lookup
substitute_from params plain String.[] = ok ""
substitute_from params after_dollar String.[] = err value_error
substitute_from params (bare name) String.[] = value_of params name
substitute_from params (braced name) String.[] = err value_error
substitute_from params scan (String.◌∷◌ c s) =
    read params scan c >>= λ r. prefixed r.0 (substitute_from params r.1 s)

unfoldable pub substitute : Dict String → String → Result String
unfolding substitute_from
substitute params text = substitute_from params plain text

pub record MessageTemplate : Type 0 where
  pub name : String
  pub version : ℕ
  pub subject : String
  pub body : String

unfoldable pub ref : MessageTemplate → String
unfolding decimal
ref t = concat (t.name ∷ ":v" ∷ decimal t.version ∷ [])

-- `except KeyError`: every other exception passes through.
abbrev pub named_error : MessageTemplate → Error → Error
named_error t (key_error param) = template_param (ref t) param
named_error t e = e

abbrev pub renamed : {A : Type 0} → MessageTemplate → Result A → Result A
renamed t (ok a) = ok a
renamed t (err e) = err (named_error t e)

unfoldable pub render : MessageTemplate → Dict String → Result (String × String)
unfolding substitute ref
render t params = renamed t (
    substitute params t.subject >>= λ subject.
    substitute params t.body >>= λ body. ok (subject, body))

abbrev pub showing_followup : MessageTemplate
showing_followup = record {
  name = "showing_followup";
  version = 1;
  subject = "Following up on your tour of $listing_address";
  body = concat (
      "Hi $recipient_name,\n\nThank you for touring $listing_address. We would love to hear what you "
      ∷ "thought of the home — any feedback helps us find you the right fit.\n\n"
      ∷ "Reply to this email or give us a call anytime.\n\n$sender_name" ∷ []);
}

abbrev pub milestone_reminder : MessageTemplate
milestone_reminder = record {
  name = "milestone_reminder";
  version = 1;
  subject = "Reminder: $milestone_title is due $due_date";
  body = concat (
      "Hi $recipient_name,\n\nThis is a reminder that $milestone_title for $listing_address is due "
      ∷ "on $due_date. Let us know if anything is blocking it.\n\n$sender_name" ∷ []);
}

abbrev pub showing_followup_sms : MessageTemplate
showing_followup_sms = record {
  name = "showing_followup_sms";
  version = 1;
  subject = "";
  body = concat (
      "Hi $recipient_name, thanks for touring $listing_address! We'd love your "
      ∷ "feedback — just reply to this text. — $sender_name" ∷ []);
}

-- TEMPLATES
abbrev pub templates : List MessageTemplate
templates = showing_followup ∷ milestone_reminder ∷ showing_followup_sms ∷ []

unfoldable pub get_template : String → Result MessageTemplate
unfolding ref
get_template name = elim (first (λ (t : MessageTemplate). ref t == name) templates) [
  | none ↦ err (unknown_template name)
  | some t ↦ ok t
]
