-- ===== src/Request/Tests.antt =====
-- An edit of a request at a concrete input.
use waterloo_star_backend.Common.{◌≡◌, ◌≢◌, true, false, none, some, [], ◌∷◌}
use waterloo_star_backend.Common.Int.{pos}
use waterloo_star_backend.Listing.Rows.{given, null}
use waterloo_star_backend.Listing.Validate.{published}
use waterloo_star_backend.Request.Rows.{HousingRequest, RequestUpdate}
use waterloo_star_backend.Request.Update.{
  validate_request_row, apply_request_update, request_update_params, update_request,
}
use waterloo_star_backend.Request.Merge.{validate_request_row-update_request}

abbrev wanted : HousingRequest
wanted = record {
  title = 82 ∷ 111 ∷ 111 ∷ 109 ∷ 32 ∷ 102 ∷ 111 ∷ 114 ∷ 32 ∷ 50 ∷ [];
  body = [];
  budget_cents = pos 90000;
  start_date = 100;
  end_date = 220;
  lease_months = pos 4;
  term_tag = [];
  occupants = pos 2;
  pets = false;
  furnished_preferred = true;
  parking_needed = false;
  laundry_needed = true;
  max_distance_m = none;
  neighbourhood = [];
  status = published;
}

-- A blank title, thirteen people and no distance.
abbrev edit : RequestUpdate
edit = record {
  title = some (32 ∷ 32 ∷ []);
  body = none;
  budget_cents = none;
  start_date = none;
  end_date = some 90;
  lease_months = none;
  term_tag = none;
  occupants = some (pos 13);
  pets = none;
  furnished_preferred = none;
  parking_needed = none;
  laundry_needed = none;
  max_distance_m = given (pos 0);
  neighbourhood = none;
}

distance_given : given (pos 0) ≢ null
distance_given h = absurd (cc)

validate_request_row-update_request_example :
    validate_request_row (update_request (request_update_params edit) wanted)
    ≡ validate_request_row (apply_request_update wanted edit)
validate_request_row-update_request_example =
    validate_request_row-update_request wanted edit distance_given
