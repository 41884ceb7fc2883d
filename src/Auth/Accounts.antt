-- ===== src/Auth/Accounts.antt =====
-- Registration and the verification of an address: Register, VerifyEmail, ResendVerification and
-- GetMe of internal/httpapi/auth.go.
use waterloo_star_backend.Common.{
  ℕ, ◌+◌, ◌||◌, not, Option, none, some, [], ◌∷◌, ltb, if◌then◌else◌, is_none,
}
use waterloo_star_backend.Common.Text.{Text, trim_space, is_empty}
use waterloo_star_backend.Store.Rows.{User, no_rows, unique_violation}
use waterloo_star_backend.Store.Conn.{
  Result, ok, err, M, ◌>>=◌, ◌>>◌, pure, throw, clock, send, verification_mail,
}
use waterloo_star_backend.Store.Queries.{get_user_by_id}
use waterloo_star_backend.Store.Sessions.{
  verification, get_live_link, create_link, consume_link, consume_all_links,
}
use waterloo_star_backend.Store.AccountQueries.{
  get_user_by_email, count_users_by_email_or_username, create_user, mark_user_verified,
}
use waterloo_star_backend.Handlers.Replies.{
  Message, Code, Response, shown, refused, error_body, attempt,
}
use waterloo_star_backend.Auth.Platform.{
  Platform, hash_token, new_opaque_token, verification_token_ttl,
}
use waterloo_star_backend.Auth.Validate.{Problems, validate_registration, hash_password}

-- `if errors.Is(err, pgx.ErrNoRows) { … }; return nil, err`, and what follows a row
abbrev pub found_row : {A B : Type 0} → M B → (A → M B) → Result A → M B
found_row missing rest (ok a) = rest a
found_row missing rest (err no_rows) = missing
found_row missing rest (err e) = throw e

unfoldable pub when_found : {A B : Type 0} → M A → M B → (A → M B) → M B
when_found m missing rest = attempt m >>= found_row missing rest

abbrev pub bad_request : {A : Type 0} → Message → Response A
bad_request message = refused 400 (error_body Code.bad_request message)

abbrev pub unauthorized : {A : Type 0} → Message → Response A
unauthorized message = refused 401 (error_body Code.unauthorized message)

abbrev pub invalid : {A : Type 0} → Problems → Response A
invalid problems = refused 400 (record {
  code = Code.validation;
  message = "Check the highlighted fields." ∷ [];
  details = problems;
})

abbrev pub taken : {A : Type 0} → Response A
taken =
    refused 409 (error_body Code.conflict ("That email address or username is already taken." ∷ []))

module _ (p : Platform) where
  unfoldable pub issue_verification_email : ℕ → User → M (Unit {0})
  issue_verification_email id user = do
    _ ← consume_all_links verification id
    token ← new_opaque_token p
    now ← clock
    _ ← create_link verification token.1 id (now + verification_token_ttl)
    send (verification_mail user.email token.0)

  -- The account as the insert leaves it. An email that is not sent is logged.
  abbrev pub registered : Result (ℕ × User) → M (Response (ℕ × User))
  registered (err unique_violation) = pure taken
  registered (err e) = throw e
  registered (ok (id, user)) =
      attempt (issue_verification_email id user) >>= λ sent. pure (shown (id, user))

  unfoldable pub create_account : Text → Text → Text → M (Response (ℕ × User))
  create_account email username password = hash_password p password >>= λ hash.
      attempt (create_user p.sql_lower email username hash) >>= registered

  unfoldable pub register_valid : Text → Text → Text → M (Response (ℕ × User))
  register_valid email username password =
      count_users_by_email_or_username p.sql_lower email username >>= λ counts.
      if ltb 0 counts.0 || ltb 0 counts.1
      then pure taken
      else create_account email username password

  abbrev pub checked_registration : Text → Text → Text → Problems → M (Response (ℕ × User))
  checked_registration email username password (x ∷ problems) = pure (invalid (x ∷ problems))
  checked_registration email username password [] = register_valid email username password

  -- A request without a body is none.
  unfoldable pub register : Option (Text × Text × Text) → M (Response (ℕ × User))
  register none = pure (bad_request ("A JSON body is required." ∷ []))
  register (some (email, username, password)) =
      let e = trim_space email in
      let u = trim_space username in
      checked_registration e u password (validate_registration p e u password)

  unfoldable pub verify_email : Option Text → M (Response User)
  verify_email none = pure (bad_request ("A verification token is required." ∷ []))
  verify_email (some raw) =
      if is_empty (trim_space raw)
      then pure (bad_request ("A verification token is required." ∷ []))
      else when_found (get_live_link verification (hash_token p raw))
          (pure (
            bad_request
              ("That confirmation link is invalid or has expired. Request a new one." ∷ [])))
          (λ token.
            consume_link verification (hash_token p raw)
            >> (mark_user_verified token.user_id >>= λ user. pure (shown user)))

  -- Every account that may not have a new link answers what an unknown address answers.
  unfoldable pub resend_to : ℕ → User → M (Response (Unit {0}))
  resend_to id user =
      if user.verified
      then pure (shown tt)
      else if not (is_none user.suspended_at)
      then pure (shown tt)
      else attempt (issue_verification_email id user) >>= λ sent. pure (shown tt)

  unfoldable pub resend_verification : Option Text → M (Response (Unit {0}))
  resend_verification none = pure (bad_request ("An email address is required." ∷ []))
  resend_verification (some email) =
      if is_empty (trim_space email)
      then pure (bad_request ("An email address is required." ∷ []))
      else when_found (get_user_by_email p.sql_lower (trim_space email)) (pure (shown tt))
          (λ row. resend_to row.0 row.1)

-- The user id of the access token, if there is one
unfoldable pub get_me : Option ℕ → M (Response User)
get_me none = pure (unauthorized ("Log in to continue." ∷ []))
get_me (some user_id) =
    when_found (get_user_by_id user_id)
      (pure (unauthorized ("That account no longer exists." ∷ []))) (λ user. pure (shown user))
