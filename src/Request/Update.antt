-- ===== src/Request/Update.antt =====
-- `validateRequestRow`, `applyRequestUpdate` and `requestUpdateParams`, and the statement
-- UpdateRequest of internal/db/sqlcgen/requests.sql.go.
use waterloo_star_backend.Common.{Bool, ◌||◌, not, List, [], ◌∷◌, ◌++◌, ltb, leb, if◌then◌else◌}
use mathlib.Core.Option
use waterloo_star_backend.Common.Int.{pos, ltb_ℤ, leb_ℤ}
use waterloo_star_backend.Common.Text.{trim_space, byte_length}
use waterloo_star_backend.Listing.Rows.{int32}
use waterloo_star_backend.Listing.Validate.{holds, known_status}
use waterloo_star_backend.Listing.Update.{nullable_value, or_else, coalesce, or_nil}
use waterloo_star_backend.Request.Rows.{HousingRequest, RequestUpdate, UpdateRequestParams}

pub data RequestProblem : Type 0 where
  title_too_short budget_not_positive ends_before_start lease_out_of_range : RequestProblem
  occupants_out_of_range distance_below_one unknown_status : RequestProblem

abbrev pub request_problem_if : Bool → RequestProblem → List RequestProblem
request_problem_if b p = if b then p ∷ [] else []

unfoldable pub validate_request_row : HousingRequest → List RequestProblem
unfolding byte_length
validate_request_row r =
    request_problem_if (ltb (byte_length (trim_space r.title)) 8) title_too_short
    ++ request_problem_if (leb_ℤ r.budget_cents (pos 0)) budget_not_positive
    ++ request_problem_if (leb r.end_date r.start_date) ends_before_start
    ++ request_problem_if (ltb_ℤ r.lease_months (pos 1) || ltb_ℤ (pos 24) r.lease_months)
        lease_out_of_range
    ++ request_problem_if (ltb_ℤ r.occupants (pos 1) || ltb_ℤ (pos 12) r.occupants)
        occupants_out_of_range
    ++ request_problem_if (holds (λ v. ltb_ℤ v (pos 1)) r.max_distance_m) distance_below_one
    ++ request_problem_if (not (known_status r.status)) unknown_status

unfoldable pub apply_request_update : HousingRequest → RequestUpdate → HousingRequest
unfolding nullable_value
apply_request_update r u = record r {
  title = or_else u.title r.title;
  body = or_else u.body r.body;
  budget_cents = or_else (Option.map int32 u.budget_cents) r.budget_cents;
  start_date = or_else u.start_date r.start_date;
  end_date = or_else u.end_date r.end_date;
  lease_months = or_else (Option.map int32 u.lease_months) r.lease_months;
  occupants = or_else (Option.map int32 u.occupants) r.occupants;
  max_distance_m = or_else (nullable_value u.max_distance_m) r.max_distance_m;
}

unfoldable pub request_update_params : RequestUpdate → UpdateRequestParams
unfolding nullable_value
request_update_params u = record {
  title = Option.map trim_space u.title;
  body = Option.map trim_space u.body;
  budget_cents = Option.map int32 u.budget_cents;
  start_date = u.start_date;
  end_date = u.end_date;
  lease_months = Option.map int32 u.lease_months;
  term_tag = Option.map trim_space u.term_tag;
  occupants = Option.map int32 u.occupants;
  pets = u.pets;
  furnished_preferred = u.furnished_preferred;
  parking_needed = u.parking_needed;
  laundry_needed = u.laundry_needed;
  max_distance_m = or_nil (nullable_value u.max_distance_m);
  neighbourhood = Option.map trim_space u.neighbourhood;
}

-- The row that UPDATE housing_requests SET … leaves.
unfoldable pub update_request : UpdateRequestParams → HousingRequest → HousingRequest
update_request p r = record r {
  title = or_else p.title r.title;
  body = or_else p.body r.body;
  budget_cents = or_else p.budget_cents r.budget_cents;
  start_date = or_else p.start_date r.start_date;
  end_date = or_else p.end_date r.end_date;
  lease_months = or_else p.lease_months r.lease_months;
  term_tag = or_else p.term_tag r.term_tag;
  occupants = or_else p.occupants r.occupants;
  pets = or_else p.pets r.pets;
  furnished_preferred = or_else p.furnished_preferred r.furnished_preferred;
  parking_needed = or_else p.parking_needed r.parking_needed;
  laundry_needed = or_else p.laundry_needed r.laundry_needed;
  max_distance_m = coalesce p.max_distance_m r.max_distance_m;
  neighbourhood = or_else p.neighbourhood r.neighbourhood;
}
