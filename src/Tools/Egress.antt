-- ===== src/Tools/Egress.antt =====
-- services/egress.py: what leaves the boundary.
pub mod Clean
pub mod Filtered
pub mod Guard
pub mod Outbound
use brokerops.Base.{
  String, Bool, true, false, not, ◌&&◌, ◌||◌, Option, none, some, List, [], ◌∷◌, ◌==◌,
  if◌then◌else◌,
}
use brokerops.Models.Role.{Role, allows}
use brokerops.Audit.{is_secret_key}
use brokerops.World.{
  Platform, Exec, Error, cross_tenant, egress_blocked, catch, pure, raise, ◌>>=◌, ◌>>◌,
}
use brokerops.Ports.{AuditLog}
use brokerops.Tenancy.{enforce_tenant, record_cross_tenant_attempt}
use brokerops.Tools.Value.{
  Value, Values, Entries, ModelFields, nothing, scalar, text, mapping, sequence, model, no_entry,
  entry, no_value, value, no_field, field,
}
use brokerops.Tools.Tenants.{tenant_values, authorized}

abbrev pub secret_redacted : String
secret_redacted = "[redacted:secret]"

abbrev pub pii_redacted : String
pii_redacted = "[redacted:pii]"

-- `raw in (None, "", mark)`
unfoldable pub is_blank_or : String → Value → Bool
is_blank_or mark nothing = true
is_blank_or mark (text s) = s == "" || s == mark
is_blank_or mark _ = false

unfoldable pub masked_secret : Value → Value
unfolding is_blank_or
masked_secret v = if is_blank_or secret_redacted v then v else text secret_redacted

abbrev pub pii_mark : Value → Value
pii_mark (text s) = text pii_redacted
pii_mark _ = nothing

unfoldable pub masked_pii : Value → Value
unfolding is_blank_or
masked_pii v = if is_blank_or pii_redacted v then v else pii_mark v

-- A field without a marker is open to every role.
unfoldable pub may_see : Role → Option Role → Bool
unfolding allows
may_see role none = true
may_see role (some min) = allows role min

-- A compiled regular expression, by its `sub`: from the replacement and a text to the text.
abbrev pub Pattern : Type 0
Pattern = String → String → String

-- `_scrub_text`: the patterns apply one after the other. `patterns` is SECRET_VALUE_PATTERNS.
unfoldable pub scrub_text : List Pattern → String → String
scrub_text [] s = s
scrub_text (pattern ∷ patterns) s = scrub_text patterns (pattern secret_redacted s)

-- `scrub_payload`. `lower` is the lower case of the secret-key rule. A value in
-- which nothing is redacted is returned as it is, which equal values do not tell apart.
module _ (patterns : List Pattern) (lower : String → String) (role : Role) where
  unfoldable mutual
    unfolding is_secret_key masked_secret masked_pii may_see scrub_text

    pub scrub_payload : Value → Value
    scrub_payload nothing = nothing
    scrub_payload (scalar n) = scalar n
    scrub_payload (text s) = text (scrub_text patterns s)
    scrub_payload (mapping es) = mapping (scrub_entries es)
    scrub_payload (sequence vs) = sequence (scrub_items vs)
    scrub_payload (model fs) = model (scrub_fields fs)

    pub scrub_items : Values → Values
    scrub_items no_value = no_value
    scrub_items (value v vs) = value (scrub_payload v) (scrub_items vs)

    pub scrub_entries : Entries → Entries
    scrub_entries no_entry = no_entry
    scrub_entries (entry key v es) =
        let deep = scrub_payload v in
        entry key
          (if is_secret_key lower key && not (is_blank_or secret_redacted v)
            then text secret_redacted
            else deep)
          (scrub_entries es)

    pub scrub_fields : ModelFields → ModelFields
    scrub_fields no_field = no_field
    scrub_fields (field name min v fs) =
        let deep = scrub_payload v in
        field name min
          (if is_secret_key lower name
            then masked_secret v
            else if may_see role min
            then deep
            else masked_pii v)
          (scrub_fields fs)

-- A foreign tenant in a response: recorded, when there is a ledger, and blocked.
unfoldable pub blocked : {A : Type 0} → Platform → Option AuditLog → String → Error → Exec A
unfolding record_cross_tenant_attempt
blocked platform none tool (cross_tenant attempted bound) = raise (egress_blocked attempted bound)
blocked platform (some audit) tool (cross_tenant attempted bound) =
    record_cross_tenant_attempt platform audit attempted bound tool
    >> raise (egress_blocked attempted bound)
blocked platform audit tool e = raise e

module _ (platform : Platform) (patterns : List Pattern) (role : Role) (audit : Option AuditLog)
    (tool : String) where
  -- The loop over the tenants of the response.
  unfoldable pub check_all : List String → Exec (Unit {0})
  unfolding enforce_tenant blocked
  check_all [] = pure tt
  check_all (t ∷ ts) = catch (enforce_tenant t) (blocked platform audit tool) >>= λ _. check_all ts

  unfoldable pub filter_tool_response : Value → Exec Value
  unfolding check_all scrub_payload tenant_values
  filter_tool_response payload =
      check_all (tenant_values false "result" payload)
      >> pure (scrub_payload patterns platform.lower role payload)

  -- `filter_egress`
  unfoldable pub filtered : Exec Value → Exec Value
  unfolding filter_tool_response
  filtered call = call >>= filter_tool_response

  -- `guard_tool_ports` on one method: the arguments on the way in, the result on the way out.
  unfoldable pub guarded : List (String × Value) → Exec Value → Exec Value
  unfolding authorized filtered
  guarded args call = filtered (authorized platform audit tool args call)
