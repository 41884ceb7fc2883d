-- ===== src/Auth/Kept.antt =====
-- Every handler of internal/httpapi/auth.go keeps an invariant that its statements keep.
use waterloo_star_backend.Common.{ℕ, ◌≡◌, Bool, true, not, Option, none, some, [], ◌∷◌, arith}
use waterloo_star_backend.Common.Text.{Text, trim_space, is_empty}
use waterloo_star_backend.Store.Rows.{Db, User, Role, LinkToken, unique_violation}
use waterloo_star_backend.Store.Conn.{Result, ok, err}
use waterloo_star_backend.Store.AccountQueries.{get_user_by_email}
use waterloo_star_backend.Store.Hoare.{Triple, >>=-Triple, if-Triple}
use waterloo_star_backend.Store.Invariants.{
  Keeps, pure-Keeps, throw-Keeps, lift-Keeps, >>=-Keeps, if-Keeps, attempt-Keeps, draw-Keeps,
  send-Keeps, clock-Keeps, weaken-Triple,
}
use waterloo_star_backend.Handlers.Replies.{Message}
use waterloo_star_backend.Auth.Platform.{Platform, new_opaque_token, mint_access_token, hash_token}
use waterloo_star_backend.Auth.Validate.{
  Problems, hash_password, hashed, validate_password, validate_registration,
}
use waterloo_star_backend.Auth.Accounts.{
  issue_verification_email, registered, create_account, register_valid, checked_registration,
  register, verify_email, resend_to, resend_verification, get_me,
}
use waterloo_star_backend.Auth.Login.{
  start_session, login_as, login, refresh_as, refresh_session, logout,
}
use waterloo_star_backend.Auth.Reset.{
  issue_password_reset_email, request_password_reset, replace_password, checked_reset,
  confirm_password_reset,
}
use waterloo_star_backend.Auth.Guarded.{Guarded, is_open, when_found-Triple, when_found-Keeps}
use waterloo_star_backend.Auth.Statements.{
  get_user_by_id-Guarded, get_user_by_email-Guarded, get_live_refresh_token-Keeps,
  get_live_link-Keeps, mark_user_verified-Keeps, update_user_password-Keeps, consume_link-Keeps,
  consume_all_links-Keeps, create_link-Keeps, revoke_refresh_token-Keeps,
  revoke_all_refresh_tokens_for_user-Keeps, create_refresh_token-Keeps,
  count_users_by_email_or_username-Keeps, create_user-Keeps,
}

pub ruleset keeps_rules =
    (pure-Keeps, throw-Keeps, lift-Keeps, >>=-Keeps, draw-Keeps, send-Keeps, clock-Keeps)

module _ (p : Platform) {I : Db → Type 0} {Allowed : ℕ → Type 0} (g : Guarded I Allowed) where
  pub new_opaque_token-Keeps : Keeps I (new_opaque_token p)
  unfolding new_opaque_token
  new_opaque_token-Keeps = search keeps_rules

  pub mint_access_token-Keeps :
      (id : ℕ) (role : Role) (verified : Bool) → Keeps I (mint_access_token p id role verified)
  unfolding mint_access_token
  mint_access_token-Keeps id role verified = search keeps_rules

  hash_password-Keeps : (plain : Text) → Keeps I (hash_password p plain)
  unfolding hash_password
  hash_password-Keeps plain = go (validate_password plain)
    where
      go : (o : Option Message) → Keeps I (hashed p plain o)
      go (some problem) = throw-Keeps _
      go none = search keeps_rules

  issue_verification_email-Keeps :
      (id : ℕ) (user : User) → Keeps I (issue_verification_email p id user)
  unfolding issue_verification_email
  issue_verification_email-Keeps id user =
      search (keeps_rules, consume_all_links-Keeps g, create_link-Keeps g, new_opaque_token-Keeps)
        depth 12

  issue_password_reset_email-Keeps :
      (id : ℕ) (user : User) → Keeps I (issue_password_reset_email p id user)
  unfolding issue_password_reset_email
  issue_password_reset_email-Keeps id user =
      search (keeps_rules, consume_all_links-Keeps g, create_link-Keeps g, new_opaque_token-Keeps)
        depth 12

  pub start_session-Keeps : (id : ℕ) (user : User) → Allowed id → Keeps I (start_session p id user)
  unfolding start_session
  start_session-Keeps id user allowed =
      search
        (
          keeps_rules,
          mint_access_token-Keeps,
          create_refresh_token-Keeps g,
          new_opaque_token-Keeps,
          allowed,
        )
        depth 14

  registered-Keeps : (r : Result (ℕ × User)) → Keeps I (registered p r)
  registered-Keeps (err unique_violation) = pure-Keeps _
  registered-Keeps (err e) = throw-Keeps e
  registered-Keeps (ok (id, user)) =
      search (keeps_rules, attempt-Keeps, issue_verification_email-Keeps)

  register_valid-Keeps :
      (email username password : Text) → Keeps I (register_valid p email username password)
  unfolding register_valid create_account
  register_valid-Keeps email username password =
      search
        (
          keeps_rules,
          if-Keeps,
          count_users_by_email_or_username-Keeps g,
          hash_password-Keeps,
          attempt-Keeps,
          create_user-Keeps g,
          registered-Keeps,
        )
        depth 14

  pub register-Keeps : (body : Option (Text × Text × Text)) → Keeps I (register p body)
  unfolding register
  register-Keeps none = pure-Keeps _
  register-Keeps (some (email, username, password)) =
      go (validate_registration p (trim_space email) (trim_space username) password)
    where
      go :
          (problems : Problems)
          → Keeps I
              (checked_registration p (trim_space email) (trim_space username) password problems)
      go [] = register_valid-Keeps _ _ _
      go (x ∷ problems) = pure-Keeps _

  pub verify_email-Keeps : (body : Option Text) → Keeps I (verify_email p body)
  unfolding verify_email
  verify_email-Keeps none = pure-Keeps _
  verify_email-Keeps (some raw) =
      search
        (
          keeps_rules,
          if-Keeps,
          when_found-Keeps,
          get_live_link-Keeps g,
          consume_link-Keeps g,
          mark_user_verified-Keeps g,
        )
        depth 14

  resend_to-Keeps : (id : ℕ) (user : User) → Keeps I (resend_to p id user)
  unfolding resend_to
  resend_to-Keeps id user =
      search (keeps_rules, if-Keeps, attempt-Keeps, issue_verification_email-Keeps) depth 12

  -- The row is read, and what it says of the account is not needed.
  get_user_by_email-Keeps : (email : Text) → Keeps I (get_user_by_email p.sql_lower email)
  get_user_by_email-Keeps email =
      weaken-Triple _ (λ d i. i) (λ row d k. k.0) (get_user_by_email-Guarded g p.sql_lower email)

  pub resend_verification-Keeps : (body : Option Text) → Keeps I (resend_verification p body)
  unfolding resend_verification
  resend_verification-Keeps none = pure-Keeps _
  resend_verification-Keeps (some email) =
      search (keeps_rules, if-Keeps, when_found-Keeps, get_user_by_email-Keeps, resend_to-Keeps)
        depth 14

  pub request_password_reset-Keeps : (body : Option Text) → Keeps I (request_password_reset p body)
  unfolding request_password_reset
  request_password_reset-Keeps none = pure-Keeps _
  request_password_reset-Keeps (some email) =
      search
        (
          keeps_rules, attempt-Keeps, when_found-Keeps, get_user_by_email-Keeps,
          issue_password_reset_email-Keeps,
        )
        depth 14

  replace_password-Keeps :
      (hash : ℕ) (password : Text) (token : LinkToken)
      → Keeps I (replace_password p hash password token)
  unfolding replace_password
  replace_password-Keeps hash password token =
      search
        (
          keeps_rules,
          hash_password-Keeps,
          update_user_password-Keeps g,
          consume_link-Keeps g,
          revoke_all_refresh_tokens_for_user-Keeps g,
        )
        depth 14

  pub confirm_password_reset-Keeps :
      (body : Option (Text × Text)) → Keeps I (confirm_password_reset p body)
  unfolding confirm_password_reset
  confirm_password_reset-Keeps none = pure-Keeps _
  confirm_password_reset-Keeps (some (raw, password)) =
      if-Keeps (is_empty (trim_space raw)) _ _ (pure-Keeps _) (go (validate_password password))
    where
      go : (o : Option Message) → Keeps I (checked_reset p raw password o)
      go (some problem) = pure-Keeps _
      go none =
          search (keeps_rules, when_found-Keeps, get_live_link-Keeps g, replace_password-Keeps)
            depth 12

  login_as-Keeps :
      (password : Text) (id : ℕ) (user : User)
      → (is_open user ≡ true → Allowed id)
      → Keeps I (login_as p password id user)
  unfolding login_as
  login_as-Keeps password id user allowed =
      if-Keeps (not (p.compare_hash_and_password user.password_hash password)) _ _ (pure-Keeps _) (
        if-Triple (not (is_open user)) _ _ (λ _. pure-Keeps _)
          λ e. search (keeps_rules, start_session-Keeps id user (allowed (ground arith))))

  pub login-Keeps : (body : Option (Text × Text)) → Keeps I (login p body)
  unfolding login
  login-Keeps none = pure-Keeps _
  login-Keeps (some (email, password)) =
      when_found-Triple _ _ _ (get_user_by_email-Guarded g p.sql_lower (trim_space email))
        (pure-Keeps _) λ row. go row.0 row.1
    where
      go :
          (id : ℕ) (user : User)
          → Triple I
              (λ d. I d × (is_open user ≡ true → Allowed id))
              (login_as p password id user)
              (λ _. I)
      go id user = record { holds = λ c k. (login_as-Keeps password id user k.1).holds c k.0 }

  refresh_as-Keeps :
      (hash id : ℕ) (user : User)
      → (is_open user ≡ true → Allowed id)
      → Keeps I (refresh_as p hash id user)
  unfolding refresh_as
  refresh_as-Keeps hash id user allowed =
      if-Triple (not (is_open user)) _ _ (λ _. search (keeps_rules, revoke_refresh_token-Keeps g))
        λ e. >>=-Keeps _ _ (revoke_refresh_token-Keeps g hash) λ _.
          >>=-Keeps _ _ (start_session-Keeps id user (allowed (ground arith)))
            λ session. pure-Keeps _

  pub refresh_session-Keeps : (raw : Text) → Keeps I (refresh_session p raw)
  unfolding refresh_session
  refresh_session-Keeps raw = if-Keeps (is_empty raw) _ _ (pure-Keeps _) (
      when_found-Triple _ _ _ (get_live_refresh_token-Keeps g (hash_token p raw)) (pure-Keeps _)
        λ token. >>=-Triple _ _ (get_user_by_id-Guarded g token.user_id) λ user. record {
          holds = λ c k. (refresh_as-Keeps (hash_token p raw) token.user_id user k.1).holds c k.0;
        })

  pub logout-Keeps : (raw : Text) → Keeps I (logout p raw)
  unfolding logout
  logout-Keeps raw = search (keeps_rules, if-Keeps, attempt-Keeps, revoke_refresh_token-Keeps g)

  pub get_me-Keeps : (asked : Option ℕ) → Keeps I (get_me asked)
  unfolding get_me
  get_me-Keeps none = pure-Keeps _
  get_me-Keeps (some id) =
      when_found-Triple _ _ _ (get_user_by_id-Guarded g id) (pure-Keeps _)
        λ user. record { holds = λ c k. (pure-Keeps _).holds c k.0 }
