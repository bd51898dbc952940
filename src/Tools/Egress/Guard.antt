-- ===== src/Tools/Egress/Guard.antt =====
-- What services/egress.py guarantees of a response.
use brokerops.Base.{
  String, ◌≡◌, refl, ap, ◌∙◌, ◌⊎◌, inl, inr, Bool, true, false, Option, none, some, List,
}
use brokerops.Base.Lists.{All}
use brokerops.Models.Role.{Role}
use brokerops.World.{World, Platform, Result, ok, err, cross_tenant, egress_blocked, raise, ◌>>◌}
use brokerops.Tools.Value.{Value}
use brokerops.Tools.Tenants.{tenant_values}
use brokerops.Tools.Tenants.Checks.{first_foreign}
use brokerops.Tools.Tenants.Named.{Names, named}
use brokerops.Tools.Tenants.Refusal.{
  IsOther, ledger, refused, Found, first_foreign-Found, attempt-refused,
}
use brokerops.Tools.Egress.{Pattern, scrub_text, scrub_payload, blocked, filter_tool_response}
use brokerops.Tools.Egress.Clean.{IsClean, IsSparing, scrub_payload-IsClean}
use brokerops.Tools.Egress.Filtered.{let_out, filter_tool_response-let_out}

-- The response was let out redacted, where every tenant that it names is blank or the bound one; or it was blocked.
abbrev pub IsFiltered :
    Platform
    → List Pattern
    → Role
    → Bool
    → String
    → String
    → Value
    → World
    → Result Value × World
    → Type 0
IsFiltered platform patterns role has_ledger tool bound payload w end =
    (((t : String) → Names t false "result" payload → (t ≡ "") ⊎ (t ≡ bound))
      × ((out : Value) × (end ≡ (ok out, w))
          × IsClean (λ s. (r : String) × (s ≡ scrub_text patterns r)) platform.lower role out
          × (IsClean (λ s. scrub_text patterns s ≡ s) platform.lower role payload → out ≡ payload)))
    ⊎ ((t : String) × Names t false "result" payload
        × IsOther bound t
        × (end ≡ (err (egress_blocked t bound), refused platform has_ledger tool t bound w)))

blocked-refused :
    (platform : Platform) (has_ledger : Bool) (tool t bound : String) (w : World)
    → blocked {A = Value} platform (ledger has_ledger) tool (cross_tenant t bound) w
      ≡ (err (egress_blocked t bound), refused platform has_ledger tool t bound w)
unfolding blocked
blocked-refused platform false tool t bound w = refl
blocked-refused platform true tool t bound w =
    ap
      (λ (r : Result (Unit {0}) × World).
        ((λ (_ : World). r) >> raise {A = Value} (egress_blocked t bound)) w)
      (attempt-refused platform tool t bound w)

-- Under a bound tenant a response leaves, with the world as it was, when every tenant that it names is blank or the
-- bound one: what leaves is clean for the role at every depth, and is the response itself when that was clean. Otherwise
-- no part of it leaves: the result is the block about a named tenant that is neither, and the ledger, where there is
-- one, has exactly one record more, of the failed attempt with both tenants. The condition: no pattern matches the empty
-- text or the mark.
pub filter_tool_response-IsFiltered :
    (platform : Platform) (patterns : List Pattern) (role : Role) (has_ledger : Bool)
    (tool bound : String) (payload : Value) (w : World)
    → All IsSparing patterns
    → w.tenant ≡ some bound
    → IsFiltered platform patterns role has_ledger tool bound payload w
        (filter_tool_response platform patterns role (ledger has_ledger) tool payload w)
filter_tool_response-IsFiltered platform patterns role has_ledger tool bound payload w sparing h =
    go (first_foreign bound (tenant_values false "result" payload))
      (first_foreign-Found bound (tenant_values false "result" payload))
      (filter_tool_response-let_out platform patterns role (ledger has_ledger) tool bound payload w
        h)
  where
    out : Value
    out = scrub_payload patterns platform.lower role payload

    go :
        (o : Option String)
        → Found bound (tenant_values false "result" payload) o
        → filter_tool_response platform patterns role (ledger has_ledger) tool payload w
          ≡ let_out platform (ledger has_ledger) tool bound o out w
        → IsFiltered platform patterns role has_ledger tool bound payload w
            (filter_tool_response platform patterns role (ledger has_ledger) tool payload w)
    go none f e =
        let clean = scrub_payload-IsClean patterns platform.lower role sparing payload in
        inl (λ t k. f t ((named t false "result" payload).1 k), (out, e, clean.0, clean.1))
    go (some t) f e = inr (
      t,
      (named t false "result" payload).0 f.0,
      f.1,
      e ∙ blocked-refused platform has_ledger tool t bound w,
    )
