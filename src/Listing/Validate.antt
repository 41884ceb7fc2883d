-- ===== src/Listing/Validate.antt =====
-- `validateListingRow`: a listing is checked as a whole. The map of problems is the list of its
-- entries, and a problem stands for its message.
use waterloo_star_backend.Common.{
  ℕ, Bool, false, ◌||◌, not, Option, none, some, List, [], ◌∷◌, ◌++◌, ltb, leb, if◌then◌else◌,
  length,
}
use waterloo_star_backend.Common.Int.{ℤ, pos, ltb_ℤ, leb_ℤ}
use waterloo_star_backend.Common.Text.{Text, trim_space, is_empty, byte_length, text_eq}
use waterloo_star_backend.Listing.Rows.{Listing}

pub data Problem : Type 0 where
  title_too_short rent_not_positive deposit_negative ends_before_start : Problem
  lease_out_of_range bedrooms_out_of_range room_below_one : Problem
  room_above : ℤ → ℤ → Problem
  bathrooms_negative no_address cross_streets_too_long too_many_conditions : Problem
  studio_has_no_room min_stay_missing min_stay_unwanted : Problem
  min_stay_out_of_range : ℤ → Problem
  bills_out_of_range unknown_status : Problem

abbrev pub studio : Text
studio = 115 ∷ 116 ∷ 117 ∷ 100 ∷ 105 ∷ 111 ∷ []

abbrev pub draft : Text
draft = 100 ∷ 114 ∷ 97 ∷ 102 ∷ 116 ∷ []

abbrev pub published : Text
published = 112 ∷ 117 ∷ 98 ∷ 108 ∷ 105 ∷ 115 ∷ 104 ∷ 101 ∷ 100 ∷ []

abbrev pub paused : Text
paused = 112 ∷ 97 ∷ 117 ∷ 115 ∷ 101 ∷ 100 ∷ []

abbrev pub archived : Text
archived = 97 ∷ 114 ∷ 99 ∷ 104 ∷ 105 ∷ 118 ∷ 101 ∷ 100 ∷ []

abbrev pub max_conditions : ℕ
max_conditions = 12

abbrev pub max_cross_streets : ℕ
max_cross_streets = 80

abbrev pub max_bills_estimate_cents : ℕ
max_bills_estimate_cents = 100000

abbrev pub problem_if : Bool → Problem → List Problem
problem_if b p = if b then p ∷ [] else []

-- `v != nil && test(*v)`
abbrev pub holds : (ℤ → Bool) → Option ℤ → Bool
holds test none = false
holds test (some v) = test v

-- The entry for bedroom_of. A studio's message is written over the other two.
abbrev pub room_problem : Text → ℤ → Option ℤ → List Problem
room_problem unit_type total none = []
room_problem unit_type total (some room) =
    if text_eq unit_type studio
    then studio_has_no_room ∷ []
    else if ltb_ℤ room (pos 1)
    then room_below_one ∷ []
    else problem_if (ltb_ℤ total room) (room_above room total)

abbrev pub min_stay_problem : Bool → Option ℤ → ℤ → List Problem
min_stay_problem shorter none lease = problem_if shorter min_stay_missing
min_stay_problem shorter (some months) lease =
    if shorter
    then problem_if (ltb_ℤ months (pos 1) || ltb_ℤ lease months) (min_stay_out_of_range lease)
    else min_stay_unwanted ∷ []

abbrev pub known_status : Text → Bool
known_status s =
    text_eq s [] || text_eq s draft || text_eq s published || text_eq s paused || text_eq s archived

module _ {F : Type 0} (negative : F → Bool) where
  -- The entries but for that of the conditions, which come after the first list.
  abbrev pub problems_before : Listing F → List Problem
  problems_before l =
      problem_if (ltb (byte_length (trim_space l.title)) 8) title_too_short
      ++ problem_if (leb_ℤ l.price_cents (pos 0)) rent_not_positive
      ++ problem_if (holds (λ v. ltb_ℤ v (pos 0)) l.deposit_cents) deposit_negative
      ++ problem_if (leb l.end_date l.start_date) ends_before_start
      ++ problem_if (ltb_ℤ l.lease_months (pos 1) || ltb_ℤ (pos 24) l.lease_months)
          lease_out_of_range
      ++ problem_if (ltb_ℤ l.bedrooms_total (pos 0) || ltb_ℤ (pos 20) l.bedrooms_total)
          bedrooms_out_of_range
      ++ problem_if (negative l.bathrooms) bathrooms_negative
      ++ problem_if (is_empty (trim_space l.address_line)) no_address
      ++ problem_if (ltb max_cross_streets (length (trim_space l.cross_streets)))
          cross_streets_too_long

  abbrev pub problems_after : Listing F → List Problem
  problems_after l =
      room_problem l.unit_type l.bedrooms_total l.bedroom_of
      ++ min_stay_problem l.shorter_stays l.min_stay_months l.lease_months
      ++ problem_if
          (holds (λ v. ltb_ℤ v (pos 0) || ltb_ℤ (pos max_bills_estimate_cents) v)
            l.bills_estimate_cents)
          bills_out_of_range
      ++ problem_if (not (known_status l.status)) unknown_status

  unfoldable pub validate_listing_row : Listing F → List Problem
  unfolding byte_length text_eq
  validate_listing_row l =
      problems_before l
      ++ (problem_if (ltb max_conditions (length l.conditions)) too_many_conditions
          ++ problems_after l)
