-- ===== src/Listing/Rows.antt =====
-- The columns of a listing that its owner edits, the edit, and the parameters of UpdateListing.
-- `F` is float64. A Go int is a ℤ, and an int32 is a ℤ in its range.
use waterloo_star_backend.Common.{ℕ, ◌-◌, ◌%◌, ◌^◌, Bool, Option, List, ltb, if◌then◌else◌}
use waterloo_star_backend.Common.Int.{ℤ, pos, negsuc}
use waterloo_star_backend.Common.Text.{Text}

pub record Listing (F : Type 0) : Type 0 where
  pub title : Text
  pub body : Text
  pub conditions : List Text
  pub price_cents : ℤ
  pub deposit_cents : Option ℤ
  pub start_date : ℕ
  pub end_date : ℕ
  pub lease_months : ℤ
  pub term_tag : Text
  pub unit_type : Text
  pub bedrooms_total : ℤ
  pub bedroom_of : Option ℤ
  pub bathrooms : F
  pub bath_type : Text
  pub furnished : Bool
  pub utilities : List Text
  pub parking : Bool
  pub pets : Bool
  pub laundry : Bool
  pub address_line : Text
  pub neighbourhood : Text
  pub distance_m : Option ℤ
  pub status : Text
  pub shorter_stays : Bool
  pub min_stay_months : Option ℤ
  pub bills_estimate_cents : Option ℤ
  pub cross_streets : Text

-- `nullable.Nullable[int]`: not in the body, null, or a number.
pub data Nullable : Type 0 where
  absent null : Nullable
  given : ℤ → Nullable

-- `gen.ListingUpdate`. `bathrooms` is the float32 of the body, as float64.
pub record ListingUpdate (F : Type 0) : Type 0 where
  pub title : Option Text
  pub body : Option Text
  pub conditions : Option (List Text)
  pub price_cents : Option ℤ
  pub deposit_cents : Nullable
  pub start_date : Option ℕ
  pub end_date : Option ℕ
  pub lease_months : Option ℤ
  pub term_tag : Option Text
  pub unit_type : Option Text
  pub bedrooms_total : Option ℤ
  pub bedroom_of : Nullable
  pub bathrooms : Option F
  pub bath_type : Option Text
  pub furnished : Option Bool
  pub utilities : Option (List Text)
  pub parking : Option Bool
  pub pets : Option Bool
  pub laundry : Option Bool
  pub address_line : Option Text
  pub neighbourhood : Option Text
  pub distance_m : Nullable
  pub shorter_stays : Option Bool
  pub min_stay_months : Nullable
  pub bills_estimate_cents : Nullable
  pub cross_streets : Option Text

-- `sqlcgen.UpdateListingParams`: none is NULL.
pub record UpdateListingParams (F : Type 0) : Type 0 where
  pub title : Option Text
  pub body : Option Text
  pub conditions : Option (List Text)
  pub price_cents : Option ℤ
  pub deposit_cents : Option ℤ
  pub start_date : Option ℕ
  pub end_date : Option ℕ
  pub lease_months : Option ℤ
  pub term_tag : Option Text
  pub unit_type : Option Text
  pub bedrooms_total : Option ℤ
  pub bedroom_of : Option ℤ
  pub bathrooms : Option F
  pub bath_type : Option Text
  pub furnished : Option Bool
  pub utilities : Option (List Text)
  pub parking : Option Bool
  pub pets : Option Bool
  pub laundry : Option Bool
  pub address_line : Option Text
  pub neighbourhood : Option Text
  pub cross_streets : Option Text
  pub distance_m : Option ℤ
  pub shorter_stays : Option Bool
  pub set_min_stay : Bool
  pub min_stay_months : Option ℤ
  pub set_bills_estimate : Bool
  pub bills_estimate_cents : Option ℤ

-- `int32(n)`: the 32 low bits, read as a signed number
unfoldable pub int32 : ℤ → ℤ
int32 (pos n) =
    let low = n % 2 ^ 32 in if ltb low (2 ^ 31) then pos low else negsuc (2 ^ 32 - low - 1)
int32 (negsuc n) =
    let low = n % 2 ^ 32 in if ltb low (2 ^ 31) then negsuc low else pos (2 ^ 32 - low - 1)
