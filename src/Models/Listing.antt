-- ===== src/Models/Listing.antt =====
-- models/listing.py and models/marketing.py, with the port of ports/mls.py.
use brokerops.Base.{ℕ, String, Bool, true, false, Option, List}
use brokerops.Base.Int.{ℤ}
use brokerops.World.{Exec}

pub data ListingStatus : Type 0 where
  active pending closed : ListingStatus

unfoldable pub is_active : ListingStatus → Bool
is_active active = true
is_active _ = false

pub record ListingMedia : Type 0 where
  pub media_key : String
  pub listing_key : String
  pub url : String
  pub order : ℤ
  pub description : String

pub record Listing : Type 0 where
  pub mls_id : String
  pub status : ListingStatus
  pub address : String
  pub city : String
  pub state : String
  pub postal_code : String
  pub list_price : Option ℤ
  pub bedrooms : Option ℤ
  pub bathrooms : Option ℤ
  pub living_area_sqft : Option ℤ
  pub year_built : Option ℤ
  pub agent_id : String
  pub agent_name : String
  pub remarks : String
  pub modified_at : ℕ
  pub media : List ListingMedia

pub record ListingQuery : Type 0 where
  pub status : Option ListingStatus
  pub city : Option String
  pub min_price : Option ℕ
  pub max_price : Option ℕ
  pub min_bedrooms : Option ℕ
  pub limit : ℕ

pub record MarketingDraft : Type 0 where
  pub listing_key : String
  pub headline : String
  pub body : String
  pub channels : List String

pub record MlsPort : Type 0 where
  pub search_listings : ListingQuery → Exec (List Listing)
  pub get_listing : String → Exec (Option Listing)
  pub get_listing_media : String → Exec (List ListingMedia)
