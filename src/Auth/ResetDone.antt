-- ===== src/Auth/ResetDone.antt =====
-- What ConfirmPasswordReset of internal/httpapi/auth.go has done once it answers 204.
use waterloo_star_backend.Common.{
  ℕ, ◌≡◌, refl, sym, ap, ◌∙◌, true, false, Option, none, some, List, arith, ◌⊎◌, inl, inr,
}
use waterloo_star_backend.Common.Text.{Text, is_empty, trim_space}
use waterloo_star_backend.Store.Table.{
  lookup, update, update_all, all_rows-rewritten, lookup-update,
}
use waterloo_star_backend.Store.AtKey.{is_keyed}
use waterloo_star_backend.Store.Rows.{Db, User, LinkToken}
use waterloo_star_backend.Store.Conn.{Conn, Result, ok}
use waterloo_star_backend.Store.Queries.{
  revoke_if, revoke_all_refresh_tokens_for_user, revoke_all_refresh_tokens_for_user_sql,
}
use waterloo_star_backend.Store.Sessions.{reset, links, set_links, consume_link, consume_link_sql}
use waterloo_star_backend.Store.AccountQueries.{update_user_password, update_user_password_sql}
use waterloo_star_backend.Store.Hoare.{
  Triple, After, query-Triple, pure-Triple, if-Triple, >>=-Triple,
}
use waterloo_star_backend.Store.Invariants.{ran-Triple, Refuses, same-Refuses}
use waterloo_star_backend.Handlers.Replies.{Message, shown}
use waterloo_star_backend.Admin.Accounts.{live_sessions}
use waterloo_star_backend.Auth.Platform.{Platform, hash_token}
use waterloo_star_backend.Auth.Validate.{validate_password}
use waterloo_star_backend.Auth.Hashed.{IsHashOf, hash_password-IsHashOf}
use waterloo_star_backend.Auth.Reset.{confirm_password_reset, checked_reset, replace_password}
use waterloo_star_backend.Auth.Guarded.{when_found-Triple}
use waterloo_star_backend.Auth.Calls.{AuthCall, Surroundings, perform_all, perform_all-Guarded}
use waterloo_star_backend.Auth.Suspended.{
  is_revoked_of, all_rows-live_sessions, revoke_if-is_revoked_of,
}
use waterloo_star_backend.Auth.OneUse.{IsSpent, IsSpent-Guarded}
use waterloo_star_backend.Auth.Rotation.{Any}
use waterloo_star_backend.Auth.Links.{
  IsHeldLink, get_live_link-IsHeldLink, get_live_link-IsSpent, IsHeldLink-consumed, Shown,
  dead_reset,
}

-- An account, if it is there, has a hash for its password.
abbrev pub HasPassword : ℕ → Text → Db → Type 0
HasPassword id hash d =
    (lookup id d.users ≡ none)
    ⊎ ((u : User) × (lookup id d.users ≡ some u) × (u.password_hash ≡ hash))

module _ (p : Platform) where
  -- The token that the first database has is spent in the second; its account has a hash of the
  -- password there, and no live session.
  abbrev pub IsReset : Text → Text → Db → Db → Type 0
  IsReset raw plain d₀ d =
      (token : LinkToken) × (hash : Text) × (lookup (hash_token p raw) (links reset d₀)
        ≡ some token)
      × IsSpent reset (hash_token p raw) d
      × IsHashOf p hash plain
      × HasPassword token.user_id hash d
      × ((time : ℕ) → live_sessions token.user_id time d ≡ 0)

  update_user_password-HasPassword :
      (id : ℕ) (hash : Text) (link : ℕ) (token : LinkToken)
      → Triple Any
          (IsHeldLink reset link token)
          (update_user_password id hash)
          (λ _ d. IsHeldLink reset link token d × HasPassword id hash d)
  unfolding update_user_password update_user_password_sql links
  update_user_password-HasPassword id hash link token =
      query-Triple (update_user_password_sql id hash) (λ d h. tt)
        λ now d h. go now d h (lookup id d.users) refl
    where
      written : ℕ → Db → Option User → Result (Unit {0}) × Db
      written now d none = (ok tt, d)
      written now d (some u) = (
        ok tt,
        record d {
          users = update id (record u { password_hash = hash; updated_at = now }) d.users;
        },
      )

      go :
          (now : ℕ) (d : Db)
          → IsHeldLink reset link token d
          → (o : Option User) → lookup id d.users ≡ o
          → After Any
              (λ _ d. IsHeldLink reset link token d × HasPassword id hash d)
              (written now d o)
      go now d h none e = (h, inl e)
      go now d h (some u) e = (
        record { keyed = h.keyed; held = h.held; fresh = h.fresh },
        inr (
          record u { password_hash = hash; updated_at = now },
          grind (
            arith,
            lookup-update id id (record u { password_hash = hash; updated_at = now }) u d.users e,
          ),
          refl,
        ),
      )

  -- The account of the token is in none of the statements that spend it and revoke.
  consume_link-HasPassword :
      (id : ℕ) (hash : Text) (link : ℕ) (token : LinkToken)
      → Triple Any
          (λ d. IsHeldLink reset link token d × HasPassword id hash d)
          (consume_link reset link)
          (λ _ d. IsSpent reset link d × HasPassword id hash d)
  unfolding consume_link consume_link_sql set_links
  consume_link-HasPassword id hash link token =
      query-Triple (consume_link_sql reset link) (λ d h. tt)
        λ now d h. (IsHeldLink-consumed reset link now token d h.0, h.1)

  revoke_all-IsReset :
      (raw plain : Text) (d₀ : Db) (token : LinkToken) (hash : Text)
      → lookup (hash_token p raw) (links reset d₀) ≡ some token
      → IsHashOf p hash plain
      → Triple Any
          (λ d. IsSpent reset (hash_token p raw) d × HasPassword token.user_id hash d)
          (revoke_all_refresh_tokens_for_user token.user_id)
          (λ _. IsReset raw plain d₀)
  unfolding revoke_all_refresh_tokens_for_user revoke_all_refresh_tokens_for_user_sql links
  revoke_all-IsReset raw plain d₀ token hash held made =
      let id = token.user_id in
      query-Triple (revoke_all_refresh_tokens_for_user_sql token.user_id) (λ d h. tt)
        λ now d h. (
          token,
          hash,
          held,
          record { at = h.0.at },
          made,
          h.1,
          λ time.
              all_rows-live_sessions id time
                (record d { refresh_tokens = update_all (revoke_if id now) d.refresh_tokens })
                (all_rows-rewritten (λ _. is_revoked_of id) (revoke_if id now) d.refresh_tokens
                  (revoke_if-is_revoked_of id now)),
        )

  replace_password-IsReset :
      (raw plain : Text) (d₀ : Db) (token : LinkToken)
      → lookup (hash_token p raw) (links reset d₀) ≡ some token
      → Triple Any
          (IsHeldLink reset (hash_token p raw) token)
          (replace_password p (hash_token p raw) plain token)
          (Shown (IsReset raw plain d₀))
  unfolding replace_password
  replace_password-IsReset raw plain d₀ token held =
      >>=-Triple _ _ (hash_password-IsHashOf p plain) λ hash. record {
        holds = λ c k.
            (>>=-Triple _ _
                (update_user_password-HasPassword token.user_id hash (hash_token p raw) token)
                λ _.
                  >>=-Triple _ _
                    (consume_link-HasPassword token.user_id hash (hash_token p raw) token)
                    λ _.
                      >>=-Triple _ _ (revoke_all-IsReset raw plain d₀ token hash held k.1)
                        λ _. pure-Triple _ λ d h. h).holds
              c k.0;
      }

  confirm_password_reset-IsReset :
      (raw plain : Text) (d₀ : Db)
      → Triple Any
          (λ d. (d ≡ d₀) × (is_keyed (links reset d) ≡ true))
          (confirm_password_reset p (some (raw, plain)))
          (Shown (IsReset raw plain d₀))
  unfolding confirm_password_reset
  confirm_password_reset-IsReset raw plain d₀ =
      if-Triple (is_empty (trim_space raw)) _ _ (λ _. pure-Triple _ λ d h. tt)
        λ _. go (validate_password plain)
    where
      go :
          (o : Option Message)
          → Triple Any
              (λ d. (d ≡ d₀) × (is_keyed (links reset d) ≡ true))
              (checked_reset p raw plain o)
              (Shown (IsReset raw plain d₀))
      go (some problem) = pure-Triple _ λ d h. tt
      go none =
          when_found-Triple _ _ _ (get_live_link-IsHeldLink reset (hash_token p raw))
            (pure-Triple _ λ d h. tt)
            λ token. record {
              holds = λ c h.
                  let held : lookup (hash_token p raw) (links reset d₀) ≡ some token =
                    ap (λ d. lookup (hash_token p raw) (links reset d)) (sym h.0) ∙ h.1.held in
                  (replace_password-IsReset raw plain d₀ token held).holds c h.1;
            }

  -- A password reset that answers 204 had its token in the database, and has spent it. It has put
  -- a bcrypt hash of the new password in the account that the token names, if that account is
  -- there, and has left that account without a live session at any time. No two tokens of such
  -- links have one hash in the database.
  pub confirm_password_reset-shown :
      (raw plain : Text) (c : Conn) {c' : Conn}
      → is_keyed (links reset c.db) ≡ true
      → confirm_password_reset p (some (raw, plain)) c ≡ (ok (shown tt), c')
      → IsReset raw plain c.db c'.db
  confirm_password_reset-shown raw plain c keyed h =
      ran-Triple (confirm_password_reset p (some (raw, plain))) c
        (confirm_password_reset-IsReset raw plain c.db) (refl, keyed) h

  IsReset-IsSpent :
      (raw plain : Text) (d₀ d : Db) → IsReset raw plain d₀ d → IsSpent reset (hash_token p raw) d
  IsReset-IsSpent raw plain d₀ d (token, hash, held, spent, made, has, dead) = spent

  -- A reset link is used once: whatever requests of auth.go follow one that answered 204, a reset with the
  -- same token and an acceptable password is answered 400 or with an error of the server, and the
  -- database stays as it is. No two tokens of such links have one hash in the database.
  pub confirm_password_reset-once :
      (raw plain plain' : Text) (c : Conn) (calls : List (Surroundings × AuthCall)) {c' : Conn}
      → is_empty (trim_space raw) ≡ false
      → validate_password plain' ≡ none
      → is_keyed (links reset c.db) ≡ true
      → confirm_password_reset p (some (raw, plain)) c ≡ (ok (shown tt), c')
      → let c'' = perform_all p calls c' in
        Refuses (dead_reset p) c''.db (confirm_password_reset p (some (raw, plain')) c'')
  unfolding confirm_password_reset
  confirm_password_reset-once raw plain plain' c calls {c'} given valid keyed h =
      let hash = hash_token p raw in
      let c'' = perform_all p calls c' in
      let done = confirm_password_reset-shown raw plain c keyed h in
      let spent =
        perform_all-Guarded p (IsSpent-Guarded reset hash) calls c'
          (IsReset-IsSpent raw plain c.db c'.db done) in
      same-Refuses (dead_reset p) (confirm_password_reset p (some (raw, plain'))) c'' (
        if-Triple (is_empty (trim_space raw)) _ _ (λ e. absurd (cc))
          λ _. rw valid (
            when_found-Triple _ _ _ (get_live_link-IsSpent reset hash c''.db spent)
              (pure-Triple _ λ d same. (same, refl)) λ token. record { holds = λ c k. absurd k }))
