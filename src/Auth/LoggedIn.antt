-- ===== src/Auth/LoggedIn.antt =====
-- What Login of internal/httpapi/auth.go has done once it starts a session.
use waterloo_star_backend.Common.{
  ℕ, ◌≡◌, refl, sym, ap, ◌∙◌, subst, Bool, true, false, not, Option, none, some, ◌∷◌, arith, ◌+◌,
}
use waterloo_star_backend.Common.Text.{Text, trim_space, text_eq}
use waterloo_star_backend.Store.Table.{lookup, find, find-passes}
use waterloo_star_backend.Store.Rows.{Db, User, RefreshToken}
use waterloo_star_backend.Store.Conn.{Conn, ok, ◌>>=◌, pure, draw, clock}
use waterloo_star_backend.Store.Queries.{found}
use waterloo_star_backend.Store.Sessions.{
  unless_taken, if_user, create_refresh_token, create_refresh_token_sql,
}
use waterloo_star_backend.Store.AccountQueries.{get_user_by_email, get_user_by_email_sql}
use waterloo_star_backend.Store.Hoare.{
  Triple, After, query-Triple, pure-Triple, draw-Triple, if-Triple, >>=-Triple, clock-Triple,
  lift-Triple,
}
use waterloo_star_backend.Store.Invariants.{ran-Triple}
use waterloo_star_backend.Handlers.Replies.{shown, refused, unrouted}
use waterloo_star_backend.Auth.Platform.{
  Platform, hash_token, new_opaque_token, mint_access_token, refresh_token_ttl,
}
use waterloo_star_backend.Auth.Login.{Session, LoginAnswer, start_session, login_as, login}
use waterloo_star_backend.Auth.Guarded.{when_found-Triple, is_open, fresh_session}
use waterloo_star_backend.Auth.Rotation.{Any}
use waterloo_star_backend.Auth.Steps.{claims_of}

module _ (p : Platform) where
  -- A session of an account: the row of its refresh token, and what its access token says
  abbrev pub IsMinted : ℕ → User → Text → Type 0
  IsMinted id user access =
      (issued token_id : ℕ) × (p.signed_string
          (claims_of p id user.role user.verified issued token_id)
        ≡ some access)

  mint_access_token-IsMinted :
      (id : ℕ) (user : User)
      → Triple Any Any
          (mint_access_token p id user.role user.verified)
          (λ access d. IsMinted id user access.0)
  unfolding mint_access_token
  mint_access_token-IsMinted id user = >>=-Triple clock _ clock-Triple λ now.
      >>=-Triple draw _ (draw-Triple λ d h. tt) λ token_id.
        >>=-Triple _ _
          (lift-Triple
            {Q = λ signed d.
              p.signed_string (claims_of p id user.role user.verified now token_id) ≡ some signed}
            _ (λ d h. tt) λ signed d e h. e)
          λ signed. pure-Triple _ λ d e. (now, token_id, e)

  abbrev pub IsStarted : ℕ → User → Session → Db → Type 0
  IsStarted id user session d =
      (session.user ≡ user)
      × (lookup (hash_token p session.refresh) d.refresh_tokens
          ≡ some (fresh_session id session.refresh_expires))
      × IsMinted id user session.access

  opaque :
      (P : Db → Type 0)
      → Triple Any P (new_opaque_token p) (λ token d. P d × (token.1 ≡ hash_token p token.0))
  unfolding new_opaque_token
  opaque P = >>=-Triple draw _ (draw-Triple λ d h. tt) λ bytes. pure-Triple _ λ d h. (h, refl)

  abbrev IsHeldSession : ℕ → ℕ → ℕ → Db → Type 0
  IsHeldSession hash id expires_at d =
      lookup hash d.refresh_tokens ≡ some (fresh_session id expires_at)

  create_refresh_token-IsHeldSession :
      (hash id expires_at : ℕ)
      → Triple Any Any
          (create_refresh_token hash id expires_at)
          (λ _. IsHeldSession hash id expires_at)
  unfolding create_refresh_token create_refresh_token_sql lookup
  create_refresh_token-IsHeldSession hash id expires_at =
      query-Triple (create_refresh_token_sql hash id expires_at) (λ d h. tt)
        λ now d h. go d (lookup id d.users) (lookup hash d.refresh_tokens)
    where
      added : Db → Db
      added d = record d { refresh_tokens = (hash, fresh_session id expires_at) ∷ d.refresh_tokens }

      go :
          (d : Db) (o : Option User) (t : Option RefreshToken)
          → After Any
              (λ _. IsHeldSession hash id expires_at)
              (if_user o d (unless_taken t d (ok tt, added d)))
      go d none t = tt
      go d (some u) (some t) = tt
      go d (some u) none = ground arith

  start_session-IsStarted :
      (id : ℕ) (user : User) → Triple Any Any (start_session p id user) (IsStarted id user)
  unfolding start_session
  start_session-IsStarted id user = >>=-Triple _ _ (mint_access_token-IsMinted id user) λ access.
      record {
        holds = λ c minted.
            (>>=-Triple _ _ (opaque Any) λ token. record {
              holds = λ c h. (stored access token minted h.1).holds c tt;
            }).holds
              c tt;
      }
    where
      stored :
          (access token : Text × ℕ)
          → IsMinted id user access.0
          → token.1 ≡ hash_token p token.0
          → Triple Any Any
              (do
                now ← clock
                _ ← create_refresh_token token.1 id (now + refresh_token_ttl)
                csrf ← new_opaque_token p
                pure (record {
                  user = user;
                  access = access.0;
                  access_expires = access.1;
                  refresh = token.0;
                  refresh_expires = now + refresh_token_ttl;
                  csrf = csrf.0;
                }))
              (IsStarted id user)
      stored access token minted e = >>=-Triple clock _ clock-Triple λ now.
          >>=-Triple _ _ (create_refresh_token-IsHeldSession token.1 id (now + refresh_token_ttl))
            λ _.
              >>=-Triple _ _ (opaque (IsHeldSession token.1 id (now + refresh_token_ttl))) λ csrf.
                pure-Triple _ λ d h.
                  (refl, subst (λ x. IsHeldSession x id (now + refresh_token_ttl) d) e h.0, minted)

  -- What a login that starts a session rests on
  abbrev pub IsLogin : Text → Text → Db → LoginAnswer → Db → Type 0
  IsLogin email password d₀ (shown session, charged) d =
      (id : ℕ) × (u : User) × (find (λ u. text_eq (p.sql_lower u.email) (p.sql_lower email))
          d₀.users
        ≡ some (id, u))
      × (text_eq (p.sql_lower u.email) (p.sql_lower email) ≡ true)
      × (p.compare_hash_and_password u.password_hash password ≡ true)
      × (is_open u ≡ true)
      × (charged ≡ false)
      × IsStarted id u session d
  IsLogin email password d₀ (refused status body, charged) d = Unit {0}
  IsLogin email password d₀ (unrouted, charged) d = Unit {0}

  login_as-IsLogin :
      (email password : Text) (d₀ : Db) (id : ℕ) (u : User)
      → find (λ u. text_eq (p.sql_lower u.email) (p.sql_lower email)) d₀.users ≡ some (id, u)
      → Triple Any Any (login_as p password id u) (IsLogin email password d₀)
  unfolding login_as
  login_as-IsLogin email password d₀ id u at =
      let same =
        find-passes (λ u. text_eq (p.sql_lower u.email) (p.sql_lower email)) id u d₀.users at in
      if-Triple (not (p.compare_hash_and_password u.password_hash password)) _ _
        (λ _. pure-Triple _ λ d h. tt)
        λ right.
          if-Triple (not (is_open u)) _ _ (λ _. pure-Triple _ λ d h. tt)
            λ active.
              >>=-Triple _ _ (start_session-IsStarted id u) λ session.
                pure-Triple _ λ d h. (id, u, at, same, ground arith, ground arith, refl, h)

  find_account :
      (email : Text) (d₀ : Db)
      → Triple Any
          (λ d. d ≡ d₀)
          (get_user_by_email p.sql_lower email)
          (λ row d.
            find (λ u. text_eq (p.sql_lower u.email) (p.sql_lower email)) d₀.users ≡ some row)
  unfolding get_user_by_email get_user_by_email_sql
  find_account email d₀ =
      query-Triple (get_user_by_email_sql p.sql_lower email) (λ d h. tt)
        λ now d h.
          go d h (find (λ u. text_eq (p.sql_lower u.email) (p.sql_lower email)) d.users) refl
    where
      go :
          (d : Db)
          → d ≡ d₀
          → (o : Option (ℕ × User))
          → find (λ u. text_eq (p.sql_lower u.email) (p.sql_lower email)) d.users ≡ o
          → After Any
              (λ row d.
                find (λ u. text_eq (p.sql_lower u.email) (p.sql_lower email)) d₀.users ≡ some row)
              (found o d)
      go d h none e = tt
      go d h (some row) e =
          ap (λ d. find (λ u. text_eq (p.sql_lower u.email) (p.sql_lower email)) d.users) (sym h)
          ∙ e

  -- A login that answers with a session is one of an account in the database, the one that the
  -- trimmed address finds whatever its case, whose password matches and that is not suspended. The
  -- limiter is not charged. The access token is signed for that account's id, role and
  -- verification, and the database has the refresh token of the session, of that account's id and
  -- not revoked.
  pub login-shown :
      (email password : Text) (c : Conn) {session : Session} {charged : Bool} {c' : Conn}
      → login p (some (email, password)) c ≡ (ok (shown session, charged), c')
      → IsLogin (trim_space email) password c.db (shown session, charged) c'.db
  unfolding login
  login-shown email password c h =
      ran-Triple _ c
        (when_found-Triple _ _ _ (find_account (trim_space email) c.db) (pure-Triple _ λ d h. tt)
          λ row. record {
            holds = λ x at.
                (login_as-IsLogin (trim_space email) password c.db row.0 row.1 at).holds x tt;
          })
        refl h
