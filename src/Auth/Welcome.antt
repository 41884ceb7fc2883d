-- ===== src/Auth/Welcome.antt =====
-- Where Login of internal/httpapi/auth.go answers with a session.
use waterloo_star_backend.Common.{
  ℕ, ◌+◌, ◌≡◌, refl, true, false, none, some, List, [], ◌∷◌, is_none,
}
use waterloo_star_backend.Common.Text.{Text, trim_space, text_eq}
use waterloo_star_backend.Store.Table.{lookup, find}
use waterloo_star_backend.Store.Rows.{Db, User, RefreshToken}
use waterloo_star_backend.Store.Conn.{Conn, ok, pure, clock}
use waterloo_star_backend.Store.Sessions.{create_refresh_token, create_refresh_token_sql}
use waterloo_star_backend.Store.AccountQueries.{get_user_by_email, get_user_by_email_sql}
use waterloo_star_backend.Handlers.Replies.{shown}
use waterloo_star_backend.Auth.Platform.{Platform, hash_token, access_token_ttl, refresh_token_ttl}
use waterloo_star_backend.Auth.Login.{Session, start_session, login_as, login}
use waterloo_star_backend.Auth.Steps.{
  >>=-ok, query-ok, when_found-ok, new_opaque_token-ok, mint_access_token-ok, claims_of,
}

module _ (p : Platform) where
  -- The random values of a session: the id of the access token, the refresh token, the csrf token
  pub record Drawn : Type 0 where
    pub token_id : ℕ
    pub refresh : ℕ
    pub csrf : ℕ
    pub rest : List ℕ

  abbrev pub session_of : User → ℕ → Text → Drawn → Session
  session_of user now signed n = record {
    user = user;
    access = signed;
    access_expires = now + access_token_ttl;
    refresh = p.encode n.refresh;
    refresh_expires = now + refresh_token_ttl;
    csrf = p.encode n.csrf;
  }

  abbrev pub new_refresh_token : ℕ → ℕ → RefreshToken
  new_refresh_token id now = record {
    user_id = id;
    expires_at = now + refresh_token_ttl;
    revoked_at = none;
  }

  abbrev pub with_session : ℕ → ℕ → Drawn → Db → Db
  with_session id now n d = record d {
    refresh_tokens =
        (hash_token p (p.encode n.refresh), new_refresh_token id now) ∷ d.refresh_tokens;
  }

  create_refresh_token-ok :
      (id now : ℕ) (n : Drawn) (user : User) (d : Db)
      → lookup id d.users ≡ some user
      → lookup (hash_token p (p.encode n.refresh)) d.refresh_tokens ≡ none
      → create_refresh_token_sql
          (hash_token p (p.encode n.refresh))
          id
          (now + refresh_token_ttl)
          now
          d
        ≡ (ok tt, with_session id now n d)
  unfolding create_refresh_token_sql
  create_refresh_token-ok id now n user d present fresh = rw (present, fresh) refl

  start_session-ok :
      (id : ℕ) (user : User) (n : Drawn) (signed : Text) (c : Conn)
      → c.faults ≡ []
      → c.draws ≡ n.token_id ∷ n.refresh ∷ n.csrf ∷ n.rest
      → p.signed_string (claims_of p id user.role user.verified c.now n.token_id) ≡ some signed
      → lookup id c.db.users ≡ some user
      → lookup (hash_token p (p.encode n.refresh)) c.db.refresh_tokens ≡ none
      → start_session p id user c ≡ (
        ok (session_of user c.now signed n),
        record c { db = with_session id c.now n c.db; draws = n.rest },
      )
  unfolding start_session clock create_refresh_token pure
  start_session-ok id user n signed c calm drawn sign present fresh =
      >>=-ok _ _ _
        (mint_access_token-ok p id user.role user.verified n.token_id _ c signed drawn sign)
        (>>=-ok _ _ _ (new_opaque_token-ok p n.refresh _ _ refl) (
          >>=-ok _ _ _ refl (
            >>=-ok _ _ _ (query-ok _ _ calm (create_refresh_token-ok id _ n user _ present fresh))
              (>>=-ok _ _ _ (new_opaque_token-ok p n.csrf _ _ refl) refl))))

  get_user_by_email-ok :
      (email : Text) (now : ℕ) (row : ℕ × User) (d : Db)
      → find (λ u. text_eq (p.sql_lower u.email) (p.sql_lower email)) d.users ≡ some row
      → get_user_by_email_sql p.sql_lower email now d ≡ (ok row, d)
  unfolding get_user_by_email_sql
  get_user_by_email-ok email now row d held = rw held refl

  -- Where nothing fails, a login with the address of an account, whatever its case, and with a
  -- password that matches is answered with a session and charges nothing, if the account is not
  -- suspended. What the session has is stored: one refresh token of the account, for 30 days. The
  -- random values are there, the access token is signed and the refresh token is new.
  pub login-works :
      (email password : Text) (id : ℕ) (user : User) (n : Drawn) (signed : Text) (c : Conn)
      → c.faults ≡ []
      → c.draws ≡ n.token_id ∷ n.refresh ∷ n.csrf ∷ n.rest
      → find (λ u. text_eq (p.sql_lower u.email) (p.sql_lower (trim_space email))) c.db.users
        ≡ some (id, user)
      → p.compare_hash_and_password user.password_hash password ≡ true
      → is_none user.suspended_at ≡ true
      → p.signed_string (claims_of p id user.role user.verified c.now n.token_id) ≡ some signed
      → lookup id c.db.users ≡ some user
      → lookup (hash_token p (p.encode n.refresh)) c.db.refresh_tokens ≡ none
      → login p (some (email, password)) c ≡ (
        ok (shown (session_of user c.now signed n), false),
        record c { db = with_session id c.now n c.db; draws = n.rest },
      )
  unfolding login login_as get_user_by_email pure
  login-works email password id user n signed c calm drawn held right active sign present fresh =
      when_found-ok _ _ _ _
        (query-ok _ _ calm (get_user_by_email-ok (trim_space email) _ (id, user) _ held))
        (rw (right, active)
          (>>=-ok _ _ _ (start_session-ok id user n signed c calm drawn sign present fresh) refl))
