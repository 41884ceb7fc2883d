-- ===== src/Request/Merge.antt =====
-- The check of an edit sees what the row will be.
use waterloo_star_backend.Common.{◌≡◌, ◌≢◌, refl}
use waterloo_star_backend.Listing.Rows.{null}
use waterloo_star_backend.Listing.Merge.{coalesce-nullable, trim-or_else}
use waterloo_star_backend.Request.Rows.{HousingRequest, RequestUpdate}
use waterloo_star_backend.Request.Update.{
  validate_request_row, apply_request_update, request_update_params, update_request,
}

-- The problems found in the merged row of an edit are those of the row that the statement
-- leaves, if the edit does not clear the distance.
pub validate_request_row-update_request :
    (r : HousingRequest) (u : RequestUpdate)
    → u.max_distance_m ≢ null
    → validate_request_row (update_request (request_update_params u) r)
      ≡ validate_request_row (apply_request_update r u)
unfolding validate_request_row update_request request_update_params apply_request_update
validate_request_row-update_request r u h =
    rw (trim-or_else u.title r.title, coalesce-nullable u.max_distance_m r.max_distance_m h) refl
