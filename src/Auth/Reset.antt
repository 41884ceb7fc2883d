-- ===== src/Auth/Reset.antt =====
-- The reset of a password: RequestPasswordReset, issuePasswordResetEmail and ConfirmPasswordReset
-- of internal/httpapi/auth.go.
use waterloo_star_backend.Common.{ℕ, ◌+◌, Option, none, some, [], ◌∷◌, if◌then◌else◌}
use waterloo_star_backend.Common.Text.{Text, trim_space, is_empty}
use waterloo_star_backend.Store.Rows.{User, LinkToken}
use waterloo_star_backend.Store.Conn.{M, ◌>>=◌, pure, clock, send, reset_mail}
use waterloo_star_backend.Store.Queries.{revoke_all_refresh_tokens_for_user}
use waterloo_star_backend.Store.Sessions.{
  reset, get_live_link, create_link, consume_link, consume_all_links,
}
use waterloo_star_backend.Store.AccountQueries.{get_user_by_email, update_user_password}
use waterloo_star_backend.Handlers.Replies.{Message, Response, shown, attempt}
use waterloo_star_backend.Auth.Platform.{Platform, hash_token, new_opaque_token, password_reset_ttl}
use waterloo_star_backend.Auth.Validate.{validate_password, hash_password}
use waterloo_star_backend.Auth.Accounts.{when_found, bad_request, invalid}

module _ (p : Platform) where
  unfoldable pub issue_password_reset_email : ℕ → User → M (Unit {0})
  issue_password_reset_email id user = do
    _ ← consume_all_links reset id
    token ← new_opaque_token p
    now ← clock
    _ ← create_link reset token.1 id (now + password_reset_ttl)
    send (reset_mail user.email token.0)

  unfoldable pub request_password_reset : Option Text → M (Response (Unit {0}))
  request_password_reset none = pure (bad_request ("An email address is required." ∷ []))
  request_password_reset (some email) =
      when_found (get_user_by_email p.sql_lower (trim_space email)) (pure (shown tt))
        (λ row. attempt (issue_password_reset_email row.0 row.1) >>= λ sent. pure (shown tt))

  -- Three statements, in no transaction
  unfoldable pub replace_password : ℕ → Text → LinkToken → M (Response (Unit {0}))
  replace_password token_hash password token = do
    hash ← hash_password p password
    _ ← update_user_password token.user_id hash
    _ ← consume_link reset token_hash
    _ ← revoke_all_refresh_tokens_for_user token.user_id
    pure (shown tt)

  abbrev pub checked_reset : Text → Text → Option Message → M (Response (Unit {0}))
  checked_reset raw password (some problem) = pure (invalid (("password", problem) ∷ []))
  checked_reset raw password none =
      when_found (get_live_link reset (hash_token p raw))
        (pure (bad_request ("That reset link is invalid or has expired. Request a new one." ∷ [])))
        (replace_password (hash_token p raw) password)

  unfoldable pub confirm_password_reset : Option (Text × Text) → M (Response (Unit {0}))
  confirm_password_reset none = pure (bad_request ("A reset token is required." ∷ []))
  confirm_password_reset (some (raw, password)) =
      if is_empty (trim_space raw)
      then pure (bad_request ("A reset token is required." ∷ []))
      else checked_reset raw password (validate_password password)
