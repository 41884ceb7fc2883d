-- ===== src/RateLimit/Middleware.antt =====
-- internal/httpapi/ratelimit_mw.go: the routes that are limited, the middleware `RateLimit`,
-- `chargeFailedLogin`, `matchRoute`, `routeIdentity` and `humanWait`.
use Prim.Native.String.{String}
use waterloo_star_backend.Common.{
  ℕ, ◌+◌, ◌*◌, ◌/◌, Bool, true, false, ◌&&◌, Option, none, some, List, [], ◌∷◌, ◌++◌, ltb, leb,
  if◌then◌else◌,
}
use waterloo_star_backend.Common.Text.{Text, trim_space, is_empty}
use waterloo_star_backend.RateLimit.Bucket.{Rule, second}
use waterloo_star_backend.RateLimit.Policy.{
  login_per_email, login_global, register_per_email, register_global, reset_request_per_email,
  reset_request_global, resend_per_email, resend_global, token_per_token, token_global,
  write_per_user, conversation_start_per_user, message_per_user, share_address_per_user,
  preferences_per_user,
}

pub data LimitKind : Type 0 where
  key_by_email key_by_token key_by_user : LimitKind

-- `message` has the text before and after the wait.
pub record LimitedRoute : Type 0 where
  pub method : String
  pub path : String
  pub kind : LimitKind
  pub per_key : Rule
  pub global : Rule
  pub charge_on_failure_only : Bool
  pub message : String

-- The zero value of `ratelimit.Rule`
abbrev pub no_rule : Rule
no_rule = record { name = ""; burst = 0; window = 0 }

abbrev pub post_route : String → LimitKind → Rule → Rule → String → LimitedRoute
post_route path kind per_key global message = record {
  method = "POST";
  path = path;
  kind = kind;
  per_key = per_key;
  global = global;
  charge_on_failure_only = false;
  message = message;
}

abbrev pub login_route : LimitedRoute
login_route = record {
  method = "POST";
  path = "/auth/login";
  kind = key_by_email;
  per_key = login_per_email;
  global = login_global;
  charge_on_failure_only = true;
  message = "Too many sign-in attempts for that address. Try again in %s.";
}

abbrev pub limited_routes : List LimitedRoute
limited_routes =
    login_route
    ∷ post_route "/auth/register" key_by_email register_per_email register_global
        "Too many sign-up attempts. Try again in %s."
    ∷ post_route "/auth/password-reset" key_by_email reset_request_per_email reset_request_global
        "A reset link has already been requested for that address. Try again in %s."
    ∷ post_route "/auth/verify/resend" key_by_email resend_per_email resend_global
        "A new link has already been requested for that address. Try again in %s."
    ∷ post_route "/auth/password-reset/confirm" key_by_token token_per_token token_global
        "Too many attempts with that link. Try again in %s."
    ∷ post_route "/auth/verify" key_by_token token_per_token token_global
        "Too many attempts with that link. Try again in %s."
    ∷ post_route "/listings" key_by_user write_per_user no_rule
        "You have posted a lot in a short time. Try again in %s."
    ∷ post_route "/requests" key_by_user write_per_user no_rule
        "You have posted a lot in a short time. Try again in %s."
    ∷ post_route "/requests/:id/offers" key_by_user write_per_user no_rule
        "You have sent a lot of offers in a short time. Try again in %s."
    ∷ post_route "/listings/:id/conversations" key_by_user conversation_start_per_user no_rule
        "You have messaged a lot of owners in a short time. Try again in %s."
    ∷ post_route "/conversations/:id/messages" key_by_user message_per_user no_rule
        "You are sending messages very quickly. Try again in %s."
    ∷ post_route "/conversations/:id/share-address" key_by_user share_address_per_user no_rule
        "You have shared your address a lot in a short time. Try again in %s."
    ∷ record {
      method = "PATCH";
      path = "/me/preferences";
      kind = key_by_user;
      per_key = preferences_per_user;
      global = no_rule;
      charge_on_failure_only = false;
      message = "You have changed your settings a lot in a short time. Try again in %s.";
    }
    ∷ []

-- What the middleware reads of a request: the two fields as `bodyField` finds them in the JSON
-- body, the id of the principal, and the forwarded address, empty where there is none.
pub record Request : Type 0 where
  pub method : String
  pub path : String
  pub email_field : Option Text
  pub token_field : Option Text
  pub principal : Option Text
  pub client_ip : Text

-- What becomes of a request: it goes on, for a login with the key to charge, or it is answered 429
-- with a wait.
pub data Passage : Type 0 where
  passes : Option Text → Passage
  stopped : LimitedRoute → ℕ → Passage

pub data Wait : Type 0 where
  a_moment a_minute an_hour : Wait
  seconds minutes hours : ℕ → Wait

-- `d.Round(unit)`, in units
abbrev rounded : ℕ → ℕ → ℕ
rounded d unit = (d + unit / 2) / unit

unfoldable pub human_wait : ℕ → Wait
human_wait d =
    if ltb d (60 * second)
    then if leb (rounded d second) 1 then a_moment else seconds (rounded d second)
    else if ltb d (3600 * second)
    then if leb (rounded d (60 * second)) 1 then a_minute else minutes (rounded d (60 * second))
    else if leb (rounded d (3600 * second)) 1
    then an_hour
    else hours (rounded d (3600 * second))

-- The equality and the code points of Go strings, `strings.ToLower`, and the hexadecimal digits of
-- the first eight bytes of a SHA-256.
pub record Strings : Type 0 where
  pub same : String → String → Bool
  pub chars : String → Text
  pub to_lower : Text → Text
  pub fingerprint : Text → Text

module _ (strings : Strings) where
  unfoldable pub match_route : List LimitedRoute → Request → Option LimitedRoute
  match_route [] c = none
  match_route (r ∷ rest) c =
      let later = match_route rest c in
      if strings.same r.method c.method && strings.same r.path c.path then some r else later

  abbrev email_identity : Option Text → Option Text
  email_identity none = none
  email_identity (some address) = some (strings.to_lower (trim_space address))

  abbrev token_identity : Option Text → Option Text
  token_identity none = none
  token_identity (some token) =
      if is_empty (trim_space token) then none else some (strings.fingerprint (trim_space token))

  unfoldable pub route_identity : Request → LimitKind → Option Text
  route_identity c key_by_email = email_identity c.email_field
  route_identity c key_by_token = token_identity c.token_field
  route_identity c key_by_user = c.principal

  -- `GlobalKey`
  unfoldable pub global_key : Rule → Text
  global_key rule = strings.chars "global:" ++ strings.chars rule.name

  unfoldable pub per_key_key : Rule → Text → Text → Text
  per_key_key rule identity client_ip =
      strings.chars rule.name
      ++ (strings.chars ":"
          ++ (identity
              ++ (if is_empty (trim_space client_ip)
                  then []
                  else strings.chars "|" ++ trim_space client_ip)))

  -- `identity = ""`, where there is none
  abbrev pub or_empty : Option Text → Text
  or_empty none = []
  or_empty (some t) = t
