-- ===== src/Listing/Merge.antt =====
-- An edit that passes validation leaves a row that does.
use waterloo_star_backend.Common.{
  ℕ, ◌≤◌, ◌≡◌, ◌≢◌, refl, ◌∙◌, Bool, Option, none, some, List, [], ◌∷◌, ◌++◌, arith, ltb,
  if◌then◌else◌, length,
}
use mathlib.Core.Option
use waterloo_star_backend.Common.Int.{ℤ}
use waterloo_star_backend.Common.Text.{Text, trim_space, trim_space_twice}
use waterloo_star_backend.Listing.Rows.{Listing, Nullable, absent, null, given, ListingUpdate}
use waterloo_star_backend.Listing.Validate.{
  too_many_conditions, problem_if, problems_before, problems_after, max_conditions,
  validate_listing_row,
}
use waterloo_star_backend.Listing.Update.{
  nullable_value, min_stay_change, or_else, coalesce, apply_update, trim_all, or_nil, is_said,
  update_params, update_listing,
}

++-nil : {A : Type 0} (a b : List A) → a ++ b ≡ [] → (a ≡ []) × (b ≡ [])
++-nil [] b h = (refl, h)
++-nil (x ∷ a) b h = absurd (cc)

-- Each kind of column.
pub coalesce-nullable :
    (v : Nullable) (old : Option ℤ)
    → v ≢ null
    → coalesce (or_nil (nullable_value v)) old ≡ or_else (nullable_value v) old
unfolding nullable_value
coalesce-nullable absent old h = refl
coalesce-nullable null old h = absurd (h refl)
coalesce-nullable (given v) old h = refl

set_if_said :
    (v : Option (Option ℤ)) (old : Option ℤ) → (if is_said v then or_nil v else old) ≡ or_else v old
set_if_said none old = refl
set_if_said (some v) old = refl

pub trim-or_else :
    (t : Option Text) (old : Text)
    → trim_space (or_else (Option.map trim_space t) old) ≡ trim_space (or_else t old)
trim-or_else none old = refl
trim-or_else (some t) old = trim_space_twice t

length-trim_all : (values : List Text) → length (trim_all values) ≤ length values
unfolding trim_all
length-trim_all [] = omega arith
length-trim_all (v ∷ values) = ground (arith, length-trim_all values)

length-or_else :
    (values : Option (List Text)) (old : List Text)
    → length (or_else (Option.map trim_all values) old) ≤ length (or_else values old)
length-or_else none old = omega arith
length-or_else (some values) old = length-trim_all values

fewer_conditions :
    (m n : ℕ)
    → m ≤ n
    → problem_if (ltb max_conditions n) too_many_conditions ≡ []
    → problem_if (ltb max_conditions m) too_many_conditions ≡ []
fewer_conditions m n h k = ground arith

module _ {F : Type 0} (negative : F → Bool) (l : Listing F) (u : ListingUpdate F) where
  -- The rows that the check reads and that the statement writes, but for the conditions, are
  -- one row to the check.
  merged-before :
      u.deposit_cents ≢ null
      → problems_before negative (update_listing (update_params u) l)
        ≡ problems_before negative (apply_update l u)
  unfolding update_listing update_params apply_update
  merged-before h =
      rw
        (
          trim-or_else u.title l.title,
          trim-or_else u.address_line l.address_line,
          coalesce-nullable u.deposit_cents l.deposit_cents h,
        )
        refl

  merged-after :
      u.bedroom_of ≢ null
      → problems_after negative (update_listing (update_params u) l)
        ≡ problems_after negative (apply_update l u)
  unfolding update_listing update_params apply_update
  merged-after h =
      rw
        (
          coalesce-nullable u.bedroom_of l.bedroom_of h,
          set_if_said (min_stay_change u) l.min_stay_months,
          set_if_said (nullable_value u.bills_estimate_cents) l.bills_estimate_cents,
        )
        refl

  -- An edit whose merged row has no problem leaves a row that has none, though the statement
  -- trims what the check does not and keeps a column that it gets no value for, if the edit
  -- does not clear the deposit or the number of the room.
  pub update_listing-valid :
      u.deposit_cents ≢ null
      → u.bedroom_of ≢ null
      → validate_listing_row negative (apply_update l u) ≡ []
      → validate_listing_row negative (update_listing (update_params u) l) ≡ []
  unfolding validate_listing_row update_listing update_params apply_update
  update_listing-valid h k valid =
      let (before, rest) = ++-nil (problems_before negative (apply_update l u)) _ valid in
      let (between, after) =
        ++-nil
          (problem_if (ltb max_conditions (length (apply_update l u).conditions))
            too_many_conditions)
          _ rest in
      let fewer =
        fewer_conditions (length (update_listing (update_params u) l).conditions)
          (length (apply_update l u).conditions) (length-or_else u.conditions l.conditions)
          between in
      rw (merged-before h ∙ before, fewer, merged-after k ∙ after) refl
