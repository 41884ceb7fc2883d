-- ===== src/Auth/Login.antt =====
-- Sessions: Login, startSession, RefreshSession and Logout of internal/httpapi/auth.go.
use waterloo_star_backend.Common.{
  ℕ, ◌+◌, Bool, true, false, not, Option, none, some, [], ◌∷◌, if◌then◌else◌, is_none,
}
use waterloo_star_backend.Common.Text.{Text, trim_space, is_empty}
use waterloo_star_backend.Store.Rows.{User}
use waterloo_star_backend.Store.Conn.{M, ◌>>=◌, ◌>>◌, pure, clock}
use waterloo_star_backend.Store.Queries.{get_user_by_id}
use waterloo_star_backend.Store.Sessions.{
  get_live_refresh_token, create_refresh_token, revoke_refresh_token,
}
use waterloo_star_backend.Store.AccountQueries.{get_user_by_email}
use waterloo_star_backend.Handlers.Replies.{Code, Response, shown, refused, error_body, attempt}
use waterloo_star_backend.Auth.Platform.{
  Platform, hash_token, new_opaque_token, mint_access_token, refresh_token_ttl,
}
use waterloo_star_backend.Auth.Accounts.{when_found, bad_request, unauthorized}

-- The three cookies of a session.
pub record Session : Type 0 where
  pub user : User
  pub access : Text
  pub access_expires : ℕ
  pub refresh : Text
  pub refresh_expires : ℕ
  pub csrf : Text

-- What a login answers, and whether it charges the limiter for a failure
abbrev pub LoginAnswer : Type 0
LoginAnswer = Response Session × Bool

abbrev pub invalid_credentials : LoginAnswer
invalid_credentials = (unauthorized ("That email address and password do not match." ∷ []), true)

abbrev pub suspended_login : LoginAnswer
suspended_login = (
  refused 403 (
      error_body Code.forbidden (
        "This account is suspended. If you think that's a mistake, contact the site's operators."
        ∷ [])),
  false,
)

module _ (p : Platform) where
  unfoldable pub start_session : ℕ → User → M Session
  start_session id user = do
    access ← mint_access_token p id user.role user.verified
    refresh ← new_opaque_token p
    now ← clock
    _ ← create_refresh_token refresh.1 id (now + refresh_token_ttl)
    csrf ← new_opaque_token p
    pure (record {
      user = user;
      access = access.0;
      access_expires = access.1;
      refresh = refresh.0;
      refresh_expires = now + refresh_token_ttl;
      csrf = csrf.0;
    })

  unfoldable pub login_as : Text → ℕ → User → M LoginAnswer
  login_as password id user =
      if not (p.compare_hash_and_password user.password_hash password)
      then pure invalid_credentials
      else if not (is_none user.suspended_at)
      then pure suspended_login
      else start_session id user >>= λ session. pure (shown session, false)

  unfoldable pub login : Option (Text × Text) → M LoginAnswer
  login none = pure (bad_request ("A JSON body is required." ∷ []), false)
  login (some (email, password)) =
      when_found (get_user_by_email p.sql_lower (trim_space email)) (pure invalid_credentials)
        (λ row. login_as password row.0 row.1)

  -- Rotation: the token dies as its replacement is born.
  unfoldable pub refresh_as : ℕ → ℕ → User → M (Response Session)
  refresh_as token_hash id user =
      if not (is_none user.suspended_at)
      then revoke_refresh_token token_hash
        >> pure (unauthorized ("This account is suspended." ∷ []))
      else revoke_refresh_token token_hash
        >> (start_session id user >>= λ session. pure (shown session))

  -- The refresh token of the cookie, empty where there is none
  unfoldable pub refresh_session : Text → M (Response Session)
  refresh_session raw =
      if is_empty raw
      then pure (unauthorized ("No session to refresh." ∷ []))
      else when_found (get_live_refresh_token (hash_token p raw))
          (pure (unauthorized ("That session has expired. Log in again." ∷ [])))
          (λ token. get_user_by_id token.user_id >>= refresh_as (hash_token p raw) token.user_id)

  -- The cookies are cleared, whether the token is revoked or not.
  unfoldable pub logout : Text → M (Response (Unit {0}))
  logout raw =
      if is_empty raw
      then pure (shown tt)
      else attempt (revoke_refresh_token (hash_token p raw)) >>= λ r. pure (shown tt)
