-- ===== src/Workflows/Marketing.antt =====
-- services/followup_rules.py, services/marketing.py and services/listing_service.py: what happens around a
-- listing's marketing.
use brokerops.Base.{
  ℕ, zero, suc, String, Bool, false, ◌&&◌, Option, none, some, is_some, List, [], ◌∷◌, ltb, truthy,
  if◌then◌else◌,
}
use Prim.Native.Nat.{◌/◌, ◌%◌}
use brokerops.Base.Int.{ℤ, pos, leb_ℤ}
use brokerops.Base.Sort.{sort_by}
use brokerops.Base.Text.{concat, decimal}
use brokerops.Milestones.Notes.{int_text}
use brokerops.Models.Listing.{
  Listing, ListingMedia, ListingQuery, MarketingDraft, MlsPort, is_active,
}
use brokerops.World.{Exec, pure, ◌>>=◌}

-- An active listing with an address and a price.
unfoldable pub is_marketable : Listing → Bool
unfolding is_active
is_marketable l = is_active l.status && truthy l.address && is_some l.list_price

-- `", ".join(texts)`
unfoldable pub joined : List String → String
joined [] = ""
joined (s ∷ []) = s
joined (s ∷ t ∷ rest) = concat (s ∷ ", " ∷ joined (t ∷ rest) ∷ [])

unfoldable pub is_luxury : Option ℤ → Bool
is_luxury none = false
is_luxury (some price) = leb_ℤ (pos 750000) price

unfoldable pub plan_marketing_tasks : Listing → MarketingDraft → List String
unfolding joined is_luxury
plan_marketing_tasks l draft =
    concat
      ("Publish approved marketing copy for " ∷ l.mls_id ∷ " to: " ∷ joined draft.channels ∷ [])
    ∷ concat ("Add listing flyer for " ∷ l.address ∷ " to the office print queue" ∷ [])
    ∷ concat ("Schedule first open house for " ∷ l.mls_id ∷ [])
    ∷ (if is_luxury l.list_price
        then concat ("Notify luxury buyer list about " ∷ l.mls_id ∷ []) ∷ []
        else [])

-- Three digits of a group, and a number below a thousand as it is.
unfoldable pub three_digits : ℕ → String
unfolding decimal
three_digits n =
    if ltb n 10
    then concat ("00" ∷ decimal n ∷ [])
    else if ltb n 100
    then concat ("0" ∷ decimal n ∷ [])
    else decimal n

-- `f"{n:,}"`; a number has fewer groups than its value plus one.
unfoldable pub grouped_fuel : ℕ → ℕ → String
unfolding decimal three_digits
grouped_fuel zero n = decimal n
grouped_fuel (suc fuel) n =
    let rest = concat (grouped_fuel fuel (n / 1000) ∷ "," ∷ three_digits (n % 1000) ∷ []) in
    if ltb n 1000 then decimal n else rest

unfoldable pub grouped : ℤ → String
unfolding grouped_fuel
grouped (ℤ.pos n) = grouped_fuel (suc n) n
grouped (ℤ.negsuc n) = concat ("-" ∷ grouped_fuel (suc (suc n)) (suc n) ∷ [])

abbrev pub default_channels : List String
default_channels = "mls_portals" ∷ "facebook" ∷ "email_list" ∷ []

-- The part of a text that a number brings; zero brings nothing.
unfoldable pub unless_zero : (ℤ → String) → Option ℤ → String
unless_zero f none = ""
unless_zero f (some (ℤ.pos zero)) = ""
unless_zero f (some n) = f n

unfoldable pub where_text : String → String
where_text city = if truthy city then concat (" in " ∷ city ∷ []) else ""

unfoldable pub price_text : Option ℤ → String
unfolding grouped
price_text none = ""
price_text (some n) = concat (" — $" ∷ grouped n ∷ [])

-- The headline and the facts, with the rooms when both counts are there.
unfoldable pub headline_and_facts : Listing → Option ℤ → Option ℤ → String × String
unfolding where_text price_text
headline_and_facts l (some beds) (some baths) = (
  concat (
      "Just Listed: "
      ∷ int_text beds
      ∷ " bed / "
      ∷ int_text baths
      ∷ " bath"
      ∷ where_text l.city
      ∷ price_text l.list_price
      ∷ []),
  concat (int_text beds ∷ " bd / " ∷ int_text baths ∷ " ba" ∷ []),
)
headline_and_facts l beds baths =
    (concat ("Just Listed" ∷ where_text l.city ∷ price_text l.list_price ∷ []), l.city)

unfoldable pub draft_marketing : Listing → MarketingDraft
unfolding headline_and_facts unless_zero grouped
draft_marketing l =
    let texts = headline_and_facts l l.bedrooms l.bathrooms in
    record {
      listing_key = l.mls_id;
      headline = texts.0;
      body = concat (
          l.address
          ∷ "\n"
          ∷ texts.1
          ∷ unless_zero (λ n. concat (" | " ∷ grouped n ∷ " sqft" ∷ [])) l.living_area_sqft
          ∷ unless_zero (λ n. concat (" | built " ∷ int_text n ∷ [])) l.year_built
          ∷ "\n\n"
          ∷ l.remarks
          ∷ "\n\nContact "
          ∷ l.agent_name
          ∷ " to schedule a showing. MLS# "
          ∷ l.mls_id
          ∷ "."
          ∷ []);
      channels = default_channels;
    }

-- ListingService
module _ (mls : MlsPort) where
  unfoldable pub search : ListingQuery → Exec (List Listing)
  search query = mls.search_listings query

  unfoldable pub with_media : String → Option Listing → Exec (Option Listing)
  unfolding sort_by
  with_media key none = pure none
  with_media key (some l) = mls.get_listing_media key >>= λ media.
      pure
        (some (record l { media = sort_by (λ (a b : ListingMedia). leb_ℤ a.order b.order) media }))

  unfoldable pub get_with_media : String → Exec (Option Listing)
  unfolding with_media
  get_with_media key = mls.get_listing key >>= with_media key
