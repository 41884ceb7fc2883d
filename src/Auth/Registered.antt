-- ===== src/Auth/Registered.antt =====
-- What Register of internal/httpapi/auth.go has done once it succeeds.
use waterloo_star_backend.Common.{
  ℕ, ◌+◌, ◌≡◌, refl, sym, ap, ◌∙◌, Bool, true, false, ◌||◌, Option, none, some, [], ◌∷◌,
  if◌then◌else◌, ltb,
}
use waterloo_star_backend.Common.Text.{Text, trim_space}
use waterloo_star_backend.Store.Table.{Table, lookup, find}
use waterloo_star_backend.Store.Rows.{Db, Role, User, LinkToken, database, unique_violation}
use waterloo_star_backend.Store.Conn.{Conn, Result, ok, err, draw, clock}
use waterloo_star_backend.Store.Sessions.{
  Link, unless_taken, verification, reset, links, set_links, consume_all_links,
  consume_all_links_sql, create_link, create_link_sql,
}
use waterloo_star_backend.Store.AccountQueries.{
  is_storable, is_same_account, new_user, insert_user, create_user, create_user_sql,
  count_users_by_email_or_username, count_users_by_email_or_username_sql,
}
use waterloo_star_backend.Store.Hoare.{
  Triple, After, query-Triple, pure-Triple, throw-Triple, draw-Triple, if-Triple, >>=-Triple,
  attempt-Triple,
}
use waterloo_star_backend.Store.Invariants.{
  Keeps, pure-Keeps, query-Keeps, >>=-Keeps, draw-Keeps, clock-Keeps, send-Keeps, attempt-Keeps,
  relax-Triple, ran-Triple,
}
use waterloo_star_backend.Handlers.Replies.{Response, shown, refused, unrouted, attempt}
use waterloo_star_backend.Auth.Platform.{Platform, new_opaque_token, verification_token_ttl}
use waterloo_star_backend.Auth.Validate.{Problems, validate_registration}
use waterloo_star_backend.Auth.Accounts.{
  issue_verification_email, registered, create_account, register_valid, checked_registration,
  register,
}
use waterloo_star_backend.Auth.Guarded.{if_user-After, unless_taken-After}
use waterloo_star_backend.Auth.Rotation.{Any}
use waterloo_star_backend.Auth.Hashed.{IsHashOf, hash_password-IsHashOf}

module _ (p : Platform) where
  -- What a new account rests on: the registration passes the checks; no account has its address or
  -- its name, whatever their case, and none its id; its password is stored as a bcrypt hash. It
  -- has no rights and is not verified.
  pub record IsNew (email username password : Text) (d₀ : Db) (id : ℕ) (u : User) : Type 0 where
    pub checked : validate_registration p email username password ≡ []
    pub unique : find (is_same_account p.sql_lower email username) d₀.users ≡ none
    pub fresh : lookup id d₀.users ≡ none
    pub hashed_password : IsHashOf p u.password_hash password
    pub named : (u.email ≡ email) × (u.username ≡ username)
    pub powerless : (u.role ≡ Role.user) × (u.verified ≡ false) × (u.suspended_at ≡ none)

  -- A registration of a new account adds its row and leaves every other.
  abbrev pub Joins : Text → Text → Text → Db → ℕ × User → Db → Type 0
  Joins email username password d₀ (id, u) d =
      IsNew email username password d₀ id u × (d.users ≡ (id, u) ∷ d₀.users)

  abbrev pub ShownNew : Text → Text → Text → Db → Response (ℕ × User) → Db → Type 0
  ShownNew email username password d₀ (shown row) d = Joins email username password d₀ row d
  ShownNew email username password d₀ (refused status body) d = Unit {0}
  ShownNew email username password d₀ unrouted d = Unit {0}

  -- The users, which no statement about links writes
  module _ (users : Table User) where
    abbrev Same : Db → Type 0
    Same d = d.users ≡ users

    set_links-Same : (l : Link) (t : Table LinkToken) (d : Db) → Same d → Same (set_links l t d)
    unfolding set_links
    set_links-Same verification t d e = e
    set_links-Same reset t d e = e

    consume_all_links-Same : (id : ℕ) → Keeps Same (consume_all_links verification id)
    unfolding consume_all_links consume_all_links_sql
    consume_all_links-Same id =
        query-Keeps (consume_all_links_sql verification id)
          λ now d e. set_links-Same verification _ d e

    create_link-Same :
        (hash id expires_at : ℕ) → Keeps Same (create_link verification hash id expires_at)
    unfolding create_link create_link_sql
    create_link-Same hash id expires_at =
        query-Keeps (create_link_sql verification hash id expires_at) λ now d e.
          if_user-After Same d e _ (lookup id d.users) (
            unless_taken-After Same d e _ (lookup hash (links verification d))
              λ _. set_links-Same verification _ d e)

    issue_verification_email-Same :
        (id : ℕ) (user : User) → Keeps Same (issue_verification_email p id user)
    unfolding issue_verification_email new_opaque_token
    issue_verification_email-Same id user = >>=-Keeps _ _ (consume_all_links-Same id) λ _.
        >>=-Keeps _ _ (>>=-Keeps draw _ draw-Keeps λ bytes. pure-Keeps _) λ token.
          >>=-Keeps clock _ clock-Keeps λ now.
            >>=-Keeps _ _ (create_link-Same token.1 id (now + verification_token_ttl))
              λ _. send-Keeps _

  count_users-Triple :
      (email username : Text) (d₀ : Db)
      → Triple Any
          (λ d. d ≡ d₀)
          (count_users_by_email_or_username p.sql_lower email username)
          (λ _ d. d ≡ d₀)
  unfolding count_users_by_email_or_username count_users_by_email_or_username_sql
  count_users-Triple email username d₀ =
      query-Triple (count_users_by_email_or_username_sql p.sql_lower email username) (λ d h. tt)
        λ now d h. h

  module _ (email username password : Text) (d₀ : Db)
      (valid : validate_registration p email username password ≡ []) where
    create_user-Joins :
        (hash : Text)
        → IsHashOf p hash password
        → Triple Any
            (λ d. d ≡ d₀)
            (create_user p.sql_lower email username hash)
            (Joins email username password d₀)
    unfolding create_user create_user_sql
    create_user-Joins hash made = >>=-Triple draw _ (draw-Triple λ d h. tt) λ id.
        query-Triple (create_user_sql p.sql_lower id email username hash) (λ d h. tt)
          λ now d h.
            go id now d h (is_storable p.sql_lower email username)
              (find (is_same_account p.sql_lower email username) d.users) refl (lookup id d.users)
              refl
      where
        go :
            (id now : ℕ) (d : Db)
            → d ≡ d₀
            → (b : Bool) (same : Option (ℕ × User))
            → find (is_same_account p.sql_lower email username) d.users ≡ same
            → (o : Option User) → lookup id d.users ≡ o
            → After Any (Joins email username password d₀) (
                if b
                then unless_taken same d
                    (unless_taken o d (insert_user id (new_user email username hash now) d))
                else (err database, d))
        go id now d h false same e o f = tt
        go id now d h true (some x) e o f = tt
        go id now d h true none e (some x) f = tt
        go id now d h true none e none f = (
          record {
            checked = valid;
            unique =
                ap (λ d. find (is_same_account p.sql_lower email username) d.users) (sym h) ∙ e;
            fresh = ap (λ d. lookup id d.users) (sym h) ∙ f;
            hashed_password = made;
            named = (refl, refl);
            powerless = (refl, refl, refl);
          },
          ap (λ d. (id, new_user email username hash now) ∷ d.users) h,
        )

    registered-ShownNew :
        (r : Result (ℕ × User))
        → Triple Any
            (λ d. After Any (Joins email username password d₀) (r, d))
            (registered p r)
            (ShownNew email username password d₀)
    registered-ShownNew (err unique_violation) = pure-Triple _ λ d h. tt
    registered-ShownNew (err e) = throw-Triple e λ d h. tt
    registered-ShownNew (ok (id, user)) = record {
      holds = λ c h.
          (>>=-Triple _ _
              (relax-Triple (attempt (issue_verification_email p id user)) (λ d i. tt)
                (attempt-Keeps _ (issue_verification_email-Same ((id, user) ∷ d₀.users) id user)))
              λ sent. pure-Triple _ λ d e. (h.0, e)).holds
            c h.1;
    }

    register_valid-ShownNew :
        Triple Any
          (λ d. d ≡ d₀)
          (register_valid p email username password)
          (ShownNew email username password d₀)
    unfolding register_valid create_account
    register_valid-ShownNew = >>=-Triple _ _ (count_users-Triple email username d₀) λ counts.
        if-Triple (ltb 0 counts.0 || ltb 0 counts.1) _ _ (λ _. pure-Triple _ λ d h. tt)
          λ _. >>=-Triple _ _ (hash_password-IsHashOf p password) λ hash. record {
            holds = λ c k.
                (>>=-Triple _ _ (attempt-Triple _ (create_user-Joins hash k.1))
                    λ r. registered-ShownNew r).holds
                  c k.0;
          }

  -- An account that a registration answers with passed the checks, with the trimmed address and
  -- name. No account had either, whatever their case, nor its id. The table of accounts is the one
  -- before with this row on top. The row has a bcrypt hash of the password, the role `user`, and
  -- is neither verified nor suspended.
  pub register-shown :
      (email username password : Text) (c : Conn) {row : ℕ × User} {c' : Conn}
      → register p (some (email, username, password)) c ≡ (ok (shown row), c')
      → Joins (trim_space email) (trim_space username) password c.db row c'.db
  unfolding register
  register-shown email username password c h =
      ran-Triple _ c
        (go (validate_registration p (trim_space email) (trim_space username) password) refl) refl h
    where
      go :
          (problems : Problems)
          → validate_registration p (trim_space email) (trim_space username) password ≡ problems
          → Triple Any
              (λ d. d ≡ c.db)
              (checked_registration p (trim_space email) (trim_space username) password problems)
              (ShownNew (trim_space email) (trim_space username) password c.db)
      go [] valid =
          register_valid-ShownNew (trim_space email) (trim_space username) password c.db valid
      go (x ∷ problems) e = pure-Triple _ λ d h. tt
