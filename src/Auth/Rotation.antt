-- ===== src/Auth/Rotation.antt =====
-- The rotation of a refresh token by RefreshSession of internal/httpapi/auth.go.
use waterloo_star_backend.Common.{
  ℕ, ◌≡◌, refl, sym, subst, Bool, true, false, not, Option, none, some, List, [], ◌∷◌, arith,
  is_none, if◌then◌else◌,
}
use waterloo_star_backend.Common.Text.{Text, is_empty}
use waterloo_star_backend.Store.Table.{Table, lookup, update}
use waterloo_star_backend.Store.AtKey.{AtKey, AtKey-lookup, is_keyed, is_keyed-AtKey}
use waterloo_star_backend.Store.Rows.{Db, User, RefreshToken}
use waterloo_star_backend.Store.Conn.{Conn, ok}
use waterloo_star_backend.Store.Queries.{get_user_by_id, get_user_by_id_sql, found}
use waterloo_star_backend.Store.Sessions.{
  only_if, is_live_session, get_live_refresh_token, get_live_refresh_token_sql, revoke_at,
  revoke_refresh_token, revoke_refresh_token_sql,
}
use waterloo_star_backend.Store.Hoare.{
  Triple, After, query-Triple, pure-Triple, if-Triple, >>=-Triple,
}
use waterloo_star_backend.Store.Invariants.{relax-Triple, ran-Triple, Refuses, same-Refuses}
use waterloo_star_backend.Handlers.Replies.{Response, shown, refused, unrouted}
use waterloo_star_backend.Auth.Platform.{Platform, hash_token}
use waterloo_star_backend.Auth.Accounts.{unauthorized}
use waterloo_star_backend.Auth.Login.{Session, start_session, refresh_as, refresh_session}
use waterloo_star_backend.Auth.Guarded.{when_found-Triple, is_open}
use waterloo_star_backend.Auth.Kept.{start_session-Keeps}
use waterloo_star_backend.Auth.Calls.{AuthCall, Surroundings, perform_all, perform_all-Guarded}
use waterloo_star_backend.Auth.Suspended.{is_revoked}
use waterloo_star_backend.Auth.OneUse.{IsRevoked, IsRevoked-Guarded}

-- A token that was presented and answered with a new session is revoked.
abbrev pub Rotated : ℕ → Response Session → Db → Type 0
Rotated hash (shown session) d = IsRevoked hash d
Rotated hash (refused status body) d = Unit {0}
Rotated hash unrouted d = Unit {0}

-- The token is in a table with no two rows under one key.
abbrev pub IsHeld : ℕ → RefreshToken → Db → Type 0
IsHeld hash token d =
    (is_keyed d.refresh_tokens ≡ true) × (lookup hash d.refresh_tokens ≡ some token)

abbrev pub Any : Db → Type 0
Any d = Unit {0}

get_live_refresh_token-IsHeld :
    (hash : ℕ)
    → Triple Any
        (λ d. is_keyed d.refresh_tokens ≡ true)
        (get_live_refresh_token hash)
        (λ token d. IsHeld hash token d × (is_none token.revoked_at ≡ true))
unfolding get_live_refresh_token get_live_refresh_token_sql is_live_session
get_live_refresh_token-IsHeld hash =
    query-Triple (get_live_refresh_token_sql hash) (λ d _. tt)
      λ now d keyed. go now d keyed (lookup hash d.refresh_tokens) refl
  where
    go :
        (now : ℕ) (d : Db)
        → is_keyed d.refresh_tokens ≡ true
        → (o : Option RefreshToken) → lookup hash d.refresh_tokens ≡ o
        → After Any
            (λ token d. IsHeld hash token d × (is_none token.revoked_at ≡ true))
            (found (only_if (is_live_session now) o) d)
    go now d keyed none e = tt
    go now d keyed (some t) e = pick (is_live_session now t) refl
      where
        pick :
            (b : Bool)
            → is_live_session now t ≡ b
            → After Any
                (λ token d. IsHeld hash token d × (is_none token.revoked_at ≡ true))
                (found (if b then some t else none) d)
        pick true l = ((keyed, e), ground arith)
        pick false l = tt

get_user_by_id-Same : {P : Db → Type 0} (id : ℕ) → Triple Any P (get_user_by_id id) (λ _. P)
unfolding get_user_by_id get_user_by_id_sql
get_user_by_id-Same {P} id =
    query-Triple (get_user_by_id_sql id) (λ d _. tt) λ now d p. go d p (lookup id d.users)
  where
    go : (d : Db) → P d → (o : Option User) → After Any (λ _. P) (found o d)
    go d p none = tt
    go d p (some u) = p

revoke_at-eq :
    (hash now : ℕ) (token : RefreshToken) (t : Table RefreshToken)
    → lookup hash t ≡ some token
    → is_none token.revoked_at ≡ true
    → update hash (record token { revoked_at = some now }) t ≡ revoke_at hash now t
unfolding revoke_at
revoke_at-eq hash now token t held live = ground arith

revoke_refresh_token-IsRevoked :
    (hash : ℕ) (token : RefreshToken)
    → is_none token.revoked_at ≡ true
    → Triple Any (IsHeld hash token) (revoke_refresh_token hash) (λ _. IsRevoked hash)
unfolding revoke_refresh_token revoke_refresh_token_sql
revoke_refresh_token-IsRevoked hash token live =
    query-Triple (revoke_refresh_token_sql hash) (λ d _. tt)
      λ now d held. record {
        at =
            subst (AtKey is_revoked hash) (revoke_at-eq hash now token d.refresh_tokens held.1 live)
              (is_keyed-AtKey is_revoked hash token (record token { revoked_at = some now })
                d.refresh_tokens held.0 held.1 refl);
      }

module _ (p : Platform) where
  refresh_as-Rotated :
      (hash id : ℕ) (user : User) (token : RefreshToken)
      → is_none token.revoked_at ≡ true
      → Triple Any (IsHeld hash token) (refresh_as p hash id user) (Rotated hash)
  unfolding refresh_as
  refresh_as-Rotated hash id user token live =
      if-Triple (not (is_open user)) _ _
        (λ _.
          >>=-Triple _ _ (revoke_refresh_token-IsRevoked hash token live)
            λ _. pure-Triple _ λ d h. tt)
        (λ _. >>=-Triple _ _ (revoke_refresh_token-IsRevoked hash token live) λ _.
          >>=-Triple _ _
            (relax-Triple (start_session p id user) (λ d i. tt)
              (start_session-Keeps p (IsRevoked-Guarded hash) id user tt))
            λ session. pure-Triple _ λ d h. h)

  refresh_session-Rotated :
      (raw : Text)
      → Triple Any
          (λ d. is_keyed d.refresh_tokens ≡ true)
          (refresh_session p raw)
          (Rotated (hash_token p raw))
  unfolding refresh_session
  refresh_session-Rotated raw =
      if-Triple (is_empty raw) _ _ (λ _. pure-Triple _ λ d h. tt)
        (λ _.
          when_found-Triple _ _ _ (get_live_refresh_token-IsHeld (hash_token p raw))
            (pure-Triple _ λ d h. tt)
            λ token. >>=-Triple _ _ (get_user_by_id-Same token.user_id) λ user. record {
              holds = λ c k.
                  (refresh_as-Rotated (hash_token p raw) token.user_id user token k.1).holds c k.0;
            })

  abbrev pub expired_session : Response Session
  expired_session = unauthorized ("That session has expired. Log in again." ∷ [])

  -- A refresh token that is revoked is refused, or the statement fails, and the database stays.
  refresh_session-IsRevoked :
      (raw : Text) (c : Conn)
      → is_empty raw ≡ false
      → IsRevoked (hash_token p raw) c.db
      → Refuses expired_session c.db (refresh_session p raw c)
  unfolding refresh_session get_live_refresh_token get_live_refresh_token_sql is_live_session
  refresh_session-IsRevoked raw c given revoked =
      same-Refuses expired_session (refresh_session p raw) c (
        if-Triple (is_empty raw) _ _ (λ e. absurd (cc))
          λ _.
            when_found-Triple {Q = λ _ _. ⊥} _ _ _
              (query-Triple (get_live_refresh_token_sql (hash_token p raw)) (λ d same. same) look)
              (pure-Triple _ λ d same. (same, refl)) λ token. record { holds = λ c k. absurd k })
    where
      dead : (now : ℕ) (t : RefreshToken) → is_revoked t ≡ true → is_live_session now t ≡ false
      dead now t h = ground arith

      look :
          (now : ℕ) (d : Db)
          → d ≡ c.db
          → After (λ d. d ≡ c.db) (λ _ _. ⊥) (get_live_refresh_token_sql (hash_token p raw) now d)
      look now d same = go (lookup (hash_token p raw) d.refresh_tokens) refl
        where
          held : AtKey is_revoked (hash_token p raw) d.refresh_tokens
          held =
              subst (λ x. AtKey is_revoked (hash_token p raw) x.refresh_tokens) (sym same)
                revoked.at

          go :
              (o : Option RefreshToken)
              → lookup (hash_token p raw) d.refresh_tokens ≡ o
              → After (λ d. d ≡ c.db) (λ _ _. ⊥) (found (only_if (is_live_session now) o) d)
          go none e = same
          go (some t) e =
              rw (dead now t (AtKey-lookup is_revoked (hash_token p raw) t d.refresh_tokens held e))
                same

  -- A refresh token that was answered with a new session is used up: whatever requests of
  -- auth.go follow, presenting it again is answered 401 or with an error of the server, and leaves
  -- the database as it is. No two refresh tokens have one hash in the database.
  pub refresh_session-once :
      (raw : Text) (c : Conn) (calls : List (Surroundings × AuthCall)) {session : Session}
      {c' : Conn}
      → is_empty raw ≡ false
      → is_keyed c.db.refresh_tokens ≡ true
      → refresh_session p raw c ≡ (ok (shown session), c')
      → let c'' = perform_all p calls c' in
        Refuses expired_session c''.db (refresh_session p raw c'')
  refresh_session-once raw c calls given keyed h = refresh_session-IsRevoked raw _ given (
      perform_all-Guarded p (IsRevoked-Guarded (hash_token p raw)) calls _
        (ran-Triple (refresh_session p raw) c (refresh_session-Rotated raw) keyed h))
