-- ===== src/Tools/Egress/Clean.antt =====
-- What the redaction of services/egress.py leaves in a value for a role, and which values it leaves as they are.
use brokerops.Base.{
  String, ◌≡◌, refl, sym, ap, ◌∙◌, ◌⊎◌, inl, inr, Bool, true, false, not, ◌&&◌, Option, none, some,
  List, [], ◌∷◌, arith, eq_iff, if◌then◌else◌,
}
use brokerops.Base.Lists.{All}
use brokerops.Models.Role.{Role, allows}
use brokerops.Audit.{is_secret_key}
use brokerops.Tools.Value.{
  Value, Values, Entries, ModelFields, nothing, scalar, text, mapping, sequence, model, no_entry,
  entry, no_value, value, no_field, field,
}
use brokerops.Tools.Egress.{
  Pattern, secret_redacted, pii_redacted, is_blank_or, masked_secret, masked_pii, may_see,
  scrub_text, scrub_payload, scrub_items, scrub_entries, scrub_fields,
}

-- Nothing is left of a value but that it was not there, was empty, or is masked.
abbrev pub IsMasked : String → Value → Type 0
IsMasked mark nothing = Unit {0}
IsMasked mark (text s) = (s ≡ "") ⊎ (s ≡ mark)
IsMasked mark _ = ⊥

-- The least role of a field, or none, is met.
abbrev pub is_entitled : Role → Option Role → Bool
unfolding allows
is_entitled role none = true
is_entitled role (some min) = allows role min

-- At every depth: a value under a secret-looking name is masked, so is the value of a field that the role may not see, and
-- every other text has the given property.
module _ (T : String → Type 0) (lower : String → String) (role : Role) where
  unfoldable mutual
    unfolding is_secret_key

    pub IsClean : Value → Type 0
    IsClean nothing = Unit {0}
    IsClean (scalar n) = Unit {0}
    IsClean (text s) = T s
    IsClean (mapping es) = IsCleanEntries es
    IsClean (sequence vs) = IsCleanItems vs
    IsClean (model fs) = IsCleanFields fs

    pub IsCleanItems : Values → Type 0
    IsCleanItems no_value = Unit {0}
    IsCleanItems (value v vs) = IsClean v × IsCleanItems vs

    pub IsCleanEntries : Entries → Type 0
    IsCleanEntries no_entry = Unit {0}
    IsCleanEntries (entry key v es) =
        let deep = IsClean v in
        (if is_secret_key lower key then IsMasked secret_redacted v else deep) × IsCleanEntries es

    pub IsCleanFields : ModelFields → Type 0
    IsCleanFields no_field = Unit {0}
    IsCleanFields (field name min v fs) =
        let deep = IsClean v in
        (if is_secret_key lower name
          then IsMasked secret_redacted v
          else if is_entitled role min
          then deep
          else IsMasked pii_redacted v)
        × IsCleanFields fs

-- A pattern matches neither the empty text nor the mark.
abbrev pub IsSparing : Pattern → Type 0
IsSparing pattern =
    (pattern secret_redacted "" ≡ "") × (pattern secret_redacted secret_redacted ≡ secret_redacted)

module _ (patterns : List Pattern) (lower : String → String) (role : Role)
    (sparing : All IsSparing patterns) where
  abbrev pub IsScrubbed : String → Type 0
  IsScrubbed s = (r : String) × (s ≡ scrub_text patterns r)

  spared :
      (ps : List Pattern)
      → All IsSparing ps
      → (scrub_text ps "" ≡ "") × (scrub_text ps secret_redacted ≡ secret_redacted)
  unfolding scrub_text
  spared [] h = (refl, refl)
  spared (p ∷ ps) (h, hs) =
      let r = spared ps hs in (ap (scrub_text ps) h.0 ∙ r.0, ap (scrub_text ps) h.1 ∙ r.1)

  masked_secret-IsMasked : (v : Value) → IsMasked secret_redacted (masked_secret v)
  unfolding masked_secret is_blank_or
  masked_secret-IsMasked nothing = tt
  masked_secret-IsMasked (text s) = ground (arith, eq_iff s "", eq_iff s secret_redacted)
  masked_secret-IsMasked (scalar n) = inr refl
  masked_secret-IsMasked (mapping es) = inr refl
  masked_secret-IsMasked (sequence vs) = inr refl
  masked_secret-IsMasked (model fs) = inr refl

  masked_pii-IsMasked : (v : Value) → IsMasked pii_redacted (masked_pii v)
  unfolding masked_pii is_blank_or
  masked_pii-IsMasked nothing = tt
  masked_pii-IsMasked (text s) = ground (arith, eq_iff s "", eq_iff s pii_redacted)
  masked_pii-IsMasked (scalar n) = tt
  masked_pii-IsMasked (mapping es) = tt
  masked_pii-IsMasked (sequence vs) = tt
  masked_pii-IsMasked (model fs) = tt

  -- An entry under a secret-looking key: what is not masked was blank, and stays so.
  entry-IsMasked :
      (v : Value)
      → IsMasked secret_redacted (
          if not (is_blank_or secret_redacted v)
          then text secret_redacted
          else scrub_payload patterns lower role v)
  unfolding is_blank_or scrub_payload
  entry-IsMasked nothing = tt
  entry-IsMasked (text s) =
      let e = spared patterns sparing in
      ground (arith, eq_iff s "", eq_iff s secret_redacted, e.0, e.1)
  entry-IsMasked (scalar n) = inr refl
  entry-IsMasked (mapping es) = inr refl
  entry-IsMasked (sequence vs) = inr refl
  entry-IsMasked (model fs) = inr refl

  entitled : (min : Option Role) → may_see role min ≡ is_entitled role min
  unfolding may_see
  entitled none = refl
  entitled (some m) = refl

  -- One entry and one field, with what is known of the value inside.
  entry_case :
      (secret : Bool) (v : Value)
      → IsClean IsScrubbed lower role (scrub_payload patterns lower role v)
      → (let out : Value =
            if secret && not (is_blank_or secret_redacted v)
            then text secret_redacted
            else scrub_payload patterns lower role v in
          (if secret then IsMasked secret_redacted out else IsClean IsScrubbed lower role out))
  entry_case true v h = entry-IsMasked v
  entry_case false v h = h

  field_case :
      (secret sees : Bool) (v : Value)
      → IsClean IsScrubbed lower role (scrub_payload patterns lower role v)
      → (let out : Value =
            if secret
            then masked_secret v
            else if sees
            then scrub_payload patterns lower role v
            else masked_pii v in
          (if secret
            then IsMasked secret_redacted out
            else if sees
            then IsClean IsScrubbed lower role out
            else IsMasked pii_redacted out))
  field_case true sees v h = masked_secret-IsMasked v
  field_case false true v h = h
  field_case false false v h = masked_pii-IsMasked v

  mutual
    unfolding IsClean scrub_payload

    clean : (v : Value) → IsClean IsScrubbed lower role (scrub_payload patterns lower role v)
    clean nothing = tt
    clean (scalar n) = tt
    clean (text s) = (s, refl)
    clean (mapping es) = clean_entries es
    clean (sequence vs) = clean_items vs
    clean (model fs) = clean_fields fs

    clean_items :
        (vs : Values) → IsCleanItems IsScrubbed lower role (scrub_items patterns lower role vs)
    clean_items no_value = tt
    clean_items (value v vs) = (clean v, clean_items vs)

    clean_entries :
        (es : Entries) → IsCleanEntries IsScrubbed lower role (scrub_entries patterns lower role es)
    clean_entries no_entry = tt
    clean_entries (entry key v es) =
        (entry_case (is_secret_key lower key) v (clean v), clean_entries es)

    clean_fields :
        (fs : ModelFields)
        → IsCleanFields IsScrubbed lower role (scrub_fields patterns lower role fs)
    clean_fields no_field = tt
    clean_fields (field name min v fs) = (
      rw (entitled min) (field_case (is_secret_key lower name) (is_entitled role min) v (clean v)),
      clean_fields fs,
    )

  abbrev IsFixed : String → Type 0
  IsFixed s = scrub_text patterns s ≡ s

  masked_blank : (mark : String) (v : Value) → IsMasked mark v → is_blank_or mark v ≡ true
  unfolding is_blank_or
  masked_blank mark nothing h = refl
  masked_blank mark (text s) h = ground (arith, h, eq_iff s "", eq_iff s mark)
  masked_blank mark (scalar _) h = elim h [ ]
  masked_blank mark (mapping _) h = elim h [ ]
  masked_blank mark (sequence _) h = elim h [ ]
  masked_blank mark (model _) h = elim h [ ]

  fixed_mark : (v : Value) → IsMasked secret_redacted v → scrub_payload patterns lower role v ≡ v
  unfolding scrub_payload
  fixed_mark nothing h = refl
  fixed_mark (text s) (inl e) =
      ap text (ap (scrub_text patterns) e ∙ (spared patterns sparing).0 ∙ sym e)
  fixed_mark (text s) (inr e) =
      ap text (ap (scrub_text patterns) e ∙ (spared patterns sparing).1 ∙ sym e)
  fixed_mark (scalar _) h = elim h [ ]
  fixed_mark (mapping _) h = elim h [ ]
  fixed_mark (sequence _) h = elim h [ ]
  fixed_mark (model _) h = elim h [ ]

  fixed_entry :
      (secret : Bool) (v : Value)
      → (IsClean IsFixed lower role v → scrub_payload patterns lower role v ≡ v)
      → (if secret then IsMasked secret_redacted v else IsClean IsFixed lower role v)
      → (if secret && not (is_blank_or secret_redacted v)
          then text secret_redacted
          else scrub_payload patterns lower role v)
        ≡ v
  fixed_entry true v f h = rw (masked_blank secret_redacted v h) (fixed_mark v h)
  fixed_entry false v f h = f h

  fixed_field :
      (secret sees : Bool) (v : Value)
      → (IsClean IsFixed lower role v → scrub_payload patterns lower role v ≡ v)
      → (if secret
          then IsMasked secret_redacted v
          else if sees
          then IsClean IsFixed lower role v
          else IsMasked pii_redacted v)
      → (if secret
          then masked_secret v
          else if sees
          then scrub_payload patterns lower role v
          else masked_pii v)
        ≡ v
  unfolding masked_secret masked_pii
  fixed_field true sees v f h = rw (masked_blank secret_redacted v h) refl
  fixed_field false true v f h = f h
  fixed_field false false v f h = rw (masked_blank pii_redacted v h) refl

  mutual
    unfolding IsClean scrub_payload

    fixed : (v : Value) → IsClean IsFixed lower role v → scrub_payload patterns lower role v ≡ v
    fixed nothing h = refl
    fixed (scalar n) h = refl
    fixed (text s) h = ap text h
    fixed (mapping es) h = ap mapping (fixed_entries es h)
    fixed (sequence vs) h = ap sequence (fixed_items vs h)
    fixed (model fs) h = ap model (fixed_fields fs h)

    fixed_items :
        (vs : Values) → IsCleanItems IsFixed lower role vs → scrub_items patterns lower role vs ≡ vs
    fixed_items no_value h = refl
    fixed_items (value v vs) (h, hs) =
        let e = fixed v h in let es = fixed_items vs hs in λ i. value (e i) (es i)

    fixed_entries :
        (es : Entries)
        → IsCleanEntries IsFixed lower role es
        → scrub_entries patterns lower role es ≡ es
    fixed_entries no_entry h = refl
    fixed_entries (entry key v es) (h, hs) =
        let e = fixed_entry (is_secret_key lower key) v (fixed v) h in
        let rest = fixed_entries es hs in λ i. entry key (e i) (rest i)

    fixed_fields :
        (fs : ModelFields)
        → IsCleanFields IsFixed lower role fs
        → scrub_fields patterns lower role fs ≡ fs
    fixed_fields no_field h = refl
    fixed_fields (field name min v fs) (h, hs) =
        let same : (if may_see role min then scrub_payload patterns lower role v else masked_pii v)
            ≡ (if is_entitled role min then scrub_payload patterns lower role v else masked_pii v) =
          ap (λ b. if b then scrub_payload patterns lower role v else masked_pii v)
            (entitled min) in
        let e =
          ap (λ x. if is_secret_key lower name then masked_secret v else x) same
          ∙ fixed_field (is_secret_key lower name) (is_entitled role min) v (fixed v) h in
        let rest = fixed_fields fs hs in λ i. field name min (e i) (rest i)

pub scrub_payload-IsClean :
    (patterns : List Pattern) (lower : String → String) (role : Role)
    → All IsSparing patterns
    → (v : Value)
    → IsClean
        (λ s. (r : String) × (s ≡ scrub_text patterns r))
        lower
        role
        (scrub_payload patterns lower role v)
      × (IsClean (λ s. scrub_text patterns s ≡ s) lower role v
          → scrub_payload patterns lower role v ≡ v)
scrub_payload-IsClean patterns lower role sparing v =
    (clean patterns lower role sparing v, fixed patterns lower role sparing v)
