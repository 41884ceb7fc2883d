-- ===== src/Request/Rows.antt =====
-- The columns of a housing request that its poster edits, the edit, and the parameters of
-- UpdateRequest. An int32 is a ℤ in its range.
use waterloo_star_backend.Common.{ℕ, Bool, Option}
use waterloo_star_backend.Common.Int.{ℤ}
use waterloo_star_backend.Common.Text.{Text}
use waterloo_star_backend.Listing.Rows.{Nullable}

pub record HousingRequest : Type 0 where
  pub title : Text
  pub body : Text
  pub budget_cents : ℤ
  pub start_date : ℕ
  pub end_date : ℕ
  pub lease_months : ℤ
  pub term_tag : Text
  pub occupants : ℤ
  pub pets : Bool
  pub furnished_preferred : Bool
  pub parking_needed : Bool
  pub laundry_needed : Bool
  pub max_distance_m : Option ℤ
  pub neighbourhood : Text
  pub status : Text

pub record RequestUpdate : Type 0 where
  pub title : Option Text
  pub body : Option Text
  pub budget_cents : Option ℤ
  pub start_date : Option ℕ
  pub end_date : Option ℕ
  pub lease_months : Option ℤ
  pub term_tag : Option Text
  pub occupants : Option ℤ
  pub pets : Option Bool
  pub furnished_preferred : Option Bool
  pub parking_needed : Option Bool
  pub laundry_needed : Option Bool
  pub max_distance_m : Nullable
  pub neighbourhood : Option Text

pub record UpdateRequestParams : Type 0 where
  pub title : Option Text
  pub body : Option Text
  pub budget_cents : Option ℤ
  pub start_date : Option ℕ
  pub end_date : Option ℕ
  pub lease_months : Option ℤ
  pub term_tag : Option Text
  pub occupants : Option ℤ
  pub pets : Option Bool
  pub furnished_preferred : Option Bool
  pub parking_needed : Option Bool
  pub laundry_needed : Option Bool
  pub max_distance_m : Option ℤ
  pub neighbourhood : Option Text
