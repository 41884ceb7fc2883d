-- ===== src/Listing/Tests.antt =====
-- Edits of a listing and calls of its owner at concrete inputs.
use waterloo_star_backend.Common.{
  ◌≡◌, ◌≢◌, refl, Bool, true, false, Option, none, some, List, [], ◌∷◌,
}
use waterloo_star_backend.Common.Int.{ℤ, pos, ltb_ℤ}
use waterloo_star_backend.Common.Text.{Text, trim_space, is_space}
use waterloo_star_backend.Store.Table.{lookup}
use waterloo_star_backend.Store.Rows.{Post, Role}
use waterloo_star_backend.Store.Conn.{Conn}
use waterloo_star_backend.Handlers.Replies.{Principal}
use waterloo_star_backend.Listing.Rows.{Listing, ListingUpdate, absent, null, given, int32}
use waterloo_star_backend.Listing.Validate.{validate_listing_row, studio, draft, published, paused}
use waterloo_star_backend.Listing.Update.{apply_update, update_params, update_listing}
use waterloo_star_backend.Listing.Merge.{update_listing-valid}
use waterloo_star_backend.Listing.Status.{Kind}
use waterloo_star_backend.Listing.Calls.{OwnerCall, serve_all, Follows, serve_all-Follows}
use waterloo_star_backend.Listing.Moves.{Moved, set_post_status-Moved}
use waterloo_star_backend.Listing.Status.{set_post_status}

abbrev below_zero : ℤ → Bool
below_zero b = ltb_ℤ b (pos 0)

-- "Sunny room"
abbrev sunny : Text
sunny = 83 ∷ 117 ∷ 110 ∷ 110 ∷ 121 ∷ 32 ∷ 114 ∷ 111 ∷ 111 ∷ 109 ∷ []

-- Room 2 of 3, for eight months; the numbers of bathrooms are integers here.
abbrev room : Listing ℤ
room = record {
  title = sunny;
  body = [];
  conditions = [];
  price_cents = pos 80000;
  deposit_cents = none;
  start_date = 100;
  end_date = 340;
  lease_months = pos 8;
  term_tag = [];
  unit_type = [];
  bedrooms_total = pos 3;
  bedroom_of = some (pos 2);
  bathrooms = pos 1;
  bath_type = [];
  furnished = true;
  utilities = [];
  parking = false;
  pets = false;
  laundry = true;
  address_line = 49 ∷ 32 ∷ 75 ∷ [];
  neighbourhood = [];
  distance_m = none;
  status = draft;
  shorter_stays = true;
  min_stay_months = some (pos 4);
  bills_estimate_cents = none;
  cross_streets = [];
}

-- Whole lease only, with a title that is to be trimmed and a condition that is blank.
abbrev edit : ListingUpdate ℤ
edit = record {
  title = some (32 ∷ sunny);
  body = none;
  conditions = some ((32 ∷ []) ∷ (110 ∷ 111 ∷ []) ∷ []);
  price_cents = some (pos 75000);
  deposit_cents = given (pos 10000);
  start_date = none;
  end_date = none;
  lease_months = none;
  term_tag = none;
  unit_type = none;
  bedrooms_total = none;
  bedroom_of = absent;
  bathrooms = none;
  bath_type = none;
  furnished = none;
  utilities = none;
  parking = none;
  pets = none;
  laundry = none;
  address_line = none;
  neighbourhood = none;
  distance_m = null;
  shorter_stays = some false;
  min_stay_months = absent;
  bills_estimate_cents = absent;
  cross_streets = none;
}

absent≢null : absent ≢ null
absent≢null h = absurd (cc)

given≢null : (v : ℤ) → given v ≢ null
given≢null v h = absurd (cc)

merged_valid : validate_listing_row below_zero (apply_update room edit) ≡ []
unfolding validate_listing_row apply_update trim_space is_space int32
merged_valid = refl

update_listing-valid_example :
    validate_listing_row below_zero (update_listing (update_params edit) room) ≡ []
update_listing-valid_example =
    update_listing-valid below_zero room edit (given≢null (pos 10000)) absent≢null merged_valid

-- An edit that makes the place a studio and clears the number of its room passes the check, and
-- the row keeps the number.
abbrev to_studio : ListingUpdate ℤ
to_studio = record edit { unit_type = some studio; bedroom_of = null }

studio_passes : validate_listing_row below_zero (apply_update room to_studio) ≡ []
unfolding validate_listing_row apply_update trim_space is_space int32
studio_passes = refl

studio_keeps_its_room : (update_listing (update_params to_studio) room).bedroom_of ≡ some (pos 2)
unfolding update_listing update_params
studio_keeps_its_room = refl

abbrev place : Post
place = record {
  owner_id = 3;
  status = draft;
  published_at = none;
  removed_at = none;
  removed_by = none;
  removed_reason = none;
  updated_at = 0;
  address_line = [];
}

abbrev market : Conn
market = record {
  db = record {
    users = [];
    listings = (7, place) ∷ [];
    requests = [];
    refresh_tokens = [];
    email_verification_tokens = [];
    password_reset_tokens = [];
    conversations = [];
    messages = [];
    offers = [];
    admin_actions = [];
  };
  faults = false ∷ false ∷ true ∷ [];
  now = 500;
  draws = [];
  outbox = [];
}

abbrev owner : Option Principal
owner = some (record { user_id = 3; role = Role.user })

abbrev season : List OwnerCall
season =
    OwnerCall.setting Kind.listing_kind owner 7 (some published)
    ∷ OwnerCall.setting Kind.listing_kind owner 7 (some paused)
    ∷ OwnerCall.setting Kind.listing_kind owner 7 (some published)
    ∷ OwnerCall.deleting Kind.listing_kind owner 7
    ∷ OwnerCall.setting Kind.listing_kind owner 7 (some published)
    ∷ []

present : lookup 7 market.db.listings ≡ some place
unfolding lookup
present = refl

serve_all-Follows_example :
    (p' : Post) × (lookup 7 (serve_all season market).db.listings ≡ some p') × Follows place p'
serve_all-Follows_example = serve_all-Follows season market Kind.listing_kind 7 place present

set_post_status-Moved_example :
    Moved Kind.listing_kind owner 7 market
      (set_post_status Kind.listing_kind owner 7 (some published) market).1.db
set_post_status-Moved_example =
    set_post_status-Moved Kind.listing_kind owner 7 (some published) market
