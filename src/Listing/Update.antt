-- ===== src/Listing/Update.antt =====
-- `applyUpdate`, `minStayChange` and `updateParams` of listings_validate.go, and the statement
-- UpdateListing of internal/db/sqlcgen/listings.sql.go.
use waterloo_star_backend.Common.{
  Bool, true, false, Option, none, some, List, [], ◌∷◌, if◌then◌else◌,
}
use mathlib.Core.Option
use waterloo_star_backend.Common.Int.{ℤ}
use waterloo_star_backend.Common.Text.{Text, trim_space, is_empty}
use waterloo_star_backend.Listing.Rows.{
  Listing, Nullable, absent, null, given, ListingUpdate, UpdateListingParams, int32,
}

-- `nullableValue`, with `int32Ptr` on its value: none where the caller said nothing.
unfoldable pub nullable_value : Nullable → Option (Option ℤ)
unfolding int32
nullable_value absent = none
nullable_value null = some none
nullable_value (given v) = some (some (int32 v))

unfoldable pub min_stay_change : {F : Type 0} → ListingUpdate F → Option (Option ℤ)
unfolding nullable_value
min_stay_change u = elim (nullable_value u.min_stay_months) [
  | some v ↦ some v
  | none ↦ elim u.shorter_stays [ none ↦ none | some shorter ↦ if shorter then none else some none ]
]

-- `if p != nil { field = *p }`, which is also SQL's COALESCE of a parameter and a column
abbrev pub or_else : {A : Type 0} → Option A → A → A
or_else none a = a
or_else (some b) a = b

-- COALESCE of a parameter and a column that may be NULL
abbrev pub coalesce : {A : Type 0} → Option A → Option A → Option A
coalesce none a = a
coalesce (some b) a = some b

unfoldable pub apply_update : {F : Type 0} → Listing F → ListingUpdate F → Listing F
unfolding nullable_value min_stay_change
apply_update l u = record l {
  title = or_else u.title l.title;
  body = or_else u.body l.body;
  conditions = or_else u.conditions l.conditions;
  price_cents = or_else (Option.map int32 u.price_cents) l.price_cents;
  deposit_cents = or_else (nullable_value u.deposit_cents) l.deposit_cents;
  start_date = or_else u.start_date l.start_date;
  end_date = or_else u.end_date l.end_date;
  lease_months = or_else (Option.map int32 u.lease_months) l.lease_months;
  unit_type = or_else u.unit_type l.unit_type;
  bedrooms_total = or_else (Option.map int32 u.bedrooms_total) l.bedrooms_total;
  bedroom_of = or_else (nullable_value u.bedroom_of) l.bedroom_of;
  bathrooms = or_else u.bathrooms l.bathrooms;
  bath_type = or_else u.bath_type l.bath_type;
  address_line = or_else u.address_line l.address_line;
  cross_streets = or_else (Option.map trim_space u.cross_streets) l.cross_streets;
  shorter_stays = or_else u.shorter_stays l.shorter_stays;
  min_stay_months = or_else (min_stay_change u) l.min_stay_months;
  bills_estimate_cents = or_else (nullable_value u.bills_estimate_cents) l.bills_estimate_cents;
}

-- `trimAll`: the trimmed values that are not empty
unfoldable pub trim_all : List Text → List Text
trim_all [] = []
trim_all (v ∷ values) =
    let rest = trim_all values in let t = trim_space v in if is_empty t then rest else t ∷ rest

-- `p := nil; if v, ok := …; ok { p = v }`
abbrev pub or_nil : Option (Option ℤ) → Option ℤ
or_nil none = none
or_nil (some v) = v

abbrev pub is_said : Option (Option ℤ) → Bool
is_said none = false
is_said (some v) = true

unfoldable pub update_params : {F : Type 0} → ListingUpdate F → UpdateListingParams F
unfolding nullable_value min_stay_change trim_all
update_params u = record {
  title = Option.map trim_space u.title;
  body = Option.map trim_space u.body;
  conditions = Option.map trim_all u.conditions;
  price_cents = Option.map int32 u.price_cents;
  deposit_cents = or_nil (nullable_value u.deposit_cents);
  start_date = u.start_date;
  end_date = u.end_date;
  lease_months = Option.map int32 u.lease_months;
  term_tag = Option.map trim_space u.term_tag;
  unit_type = u.unit_type;
  bedrooms_total = Option.map int32 u.bedrooms_total;
  bedroom_of = or_nil (nullable_value u.bedroom_of);
  bathrooms = u.bathrooms;
  bath_type = u.bath_type;
  furnished = u.furnished;
  utilities = u.utilities;
  parking = u.parking;
  pets = u.pets;
  laundry = u.laundry;
  address_line = Option.map trim_space u.address_line;
  neighbourhood = Option.map trim_space u.neighbourhood;
  cross_streets = Option.map trim_space u.cross_streets;
  distance_m = or_nil (nullable_value u.distance_m);
  shorter_stays = u.shorter_stays;
  set_min_stay = is_said (min_stay_change u);
  min_stay_months = or_nil (min_stay_change u);
  set_bills_estimate = is_said (nullable_value u.bills_estimate_cents);
  bills_estimate_cents = or_nil (nullable_value u.bills_estimate_cents);
}

-- The row that UPDATE listings SET … leaves.
unfoldable pub update_listing : {F : Type 0} → UpdateListingParams F → Listing F → Listing F
update_listing p l = record l {
  title = or_else p.title l.title;
  body = or_else p.body l.body;
  conditions = or_else p.conditions l.conditions;
  price_cents = or_else p.price_cents l.price_cents;
  deposit_cents = coalesce p.deposit_cents l.deposit_cents;
  start_date = or_else p.start_date l.start_date;
  end_date = or_else p.end_date l.end_date;
  lease_months = or_else p.lease_months l.lease_months;
  term_tag = or_else p.term_tag l.term_tag;
  unit_type = or_else p.unit_type l.unit_type;
  bedrooms_total = or_else p.bedrooms_total l.bedrooms_total;
  bedroom_of = coalesce p.bedroom_of l.bedroom_of;
  bathrooms = or_else p.bathrooms l.bathrooms;
  bath_type = or_else p.bath_type l.bath_type;
  furnished = or_else p.furnished l.furnished;
  utilities = or_else p.utilities l.utilities;
  parking = or_else p.parking l.parking;
  pets = or_else p.pets l.pets;
  laundry = or_else p.laundry l.laundry;
  address_line = or_else p.address_line l.address_line;
  neighbourhood = or_else p.neighbourhood l.neighbourhood;
  cross_streets = or_else p.cross_streets l.cross_streets;
  distance_m = coalesce p.distance_m l.distance_m;
  shorter_stays = or_else p.shorter_stays l.shorter_stays;
  min_stay_months = if p.set_min_stay then p.min_stay_months else l.min_stay_months;
  bills_estimate_cents =
      if p.set_bills_estimate then p.bills_estimate_cents else l.bills_estimate_cents;
}
