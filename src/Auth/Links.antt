-- ===== src/Auth/Links.antt =====
-- The token of a link in an email is redeemed once: VerifyEmail and ConfirmPasswordReset of
-- internal/httpapi/auth.go.
use waterloo_star_backend.Common.{
  ℕ, ◌≡◌, refl, sym, subst, Bool, true, false, Option, none, some, List, [], ◌∷◌, arith, is_none,
  if◌then◌else◌,
}
use waterloo_star_backend.Common.Text.{Text, is_empty, trim_space}
use waterloo_star_backend.Store.Table.{Table, lookup, update}
use waterloo_star_backend.Store.AtKey.{AtKey, AtKey-lookup, is_keyed, is_keyed-AtKey}
use waterloo_star_backend.Store.Rows.{Db, User, LinkToken}
use waterloo_star_backend.Store.Conn.{Result, Conn, ok}
use waterloo_star_backend.Store.Queries.{found}
use waterloo_star_backend.Store.Sessions.{
  Link, verification, reset, links, set_links, only_if, is_live_link, get_live_link,
  get_live_link_sql, consume_at, consume_link, consume_link_sql,
}
use waterloo_star_backend.Store.AccountQueries.{mark_user_verified}
use waterloo_star_backend.Store.Hoare.{
  Triple, After, query-Triple, pure-Triple, if-Triple, >>=-Triple,
}
use waterloo_star_backend.Store.Invariants.{
  weaken-Triple, relax-Triple, ran-Triple, Refuses, same-Refuses,
}
use waterloo_star_backend.Handlers.Replies.{Response, shown, refused, unrouted}
use waterloo_star_backend.Auth.Platform.{Platform, hash_token}
use waterloo_star_backend.Auth.Accounts.{bad_request, verify_email}
use waterloo_star_backend.Auth.Guarded.{when_found-Triple}
use waterloo_star_backend.Auth.Statements.{mark_user_verified-Keeps}
use waterloo_star_backend.Auth.Calls.{AuthCall, Surroundings, perform_all, perform_all-Guarded}
use waterloo_star_backend.Auth.OneUse.{is_consumed, IsSpent, IsSpent-Guarded}
use waterloo_star_backend.Auth.Rotation.{Any}

-- The token is in its table, which has no two rows under one key, and is not consumed.
pub record IsHeldLink (l : Link) (hash : ℕ) (token : LinkToken) (d : Db) : Type 0 where
  pub keyed : is_keyed (links l d) ≡ true
  pub held : lookup hash (links l d) ≡ some token
  pub fresh : is_none token.consumed_at ≡ true

pub get_live_link-IsHeldLink :
    {P : Db → Type 0} (l : Link) (hash : ℕ)
    → Triple Any
        (λ d. P d × (is_keyed (links l d) ≡ true))
        (get_live_link l hash)
        (λ token d. P d × IsHeldLink l hash token d)
unfolding get_live_link get_live_link_sql is_live_link
get_live_link-IsHeldLink {P} l hash =
    query-Triple (get_live_link_sql l hash) (λ d _. tt)
      λ now d h. go now d h.0 h.1 (lookup hash (links l d)) refl
  where
    After' : Result LinkToken × Db → Type 0
    After' = After Any (λ token d. P d × IsHeldLink l hash token d)

    go :
        (now : ℕ) (d : Db)
        → P d
        → is_keyed (links l d) ≡ true
        → (o : Option LinkToken) → lookup hash (links l d) ≡ o
        → After' (found (only_if (is_live_link now) o) d)
    go now d q keyed none e = tt
    go now d q keyed (some t) e = pick (is_live_link now t) refl
      where
        pick : (b : Bool) → is_live_link now t ≡ b → After' (found (if b then some t else none) d)
        pick true h = (q, record { keyed = keyed; held = e; fresh = ground arith })
        pick false h = tt

consume_at-eq :
    (hash now : ℕ) (token : LinkToken) (t : Table LinkToken)
    → lookup hash t ≡ some token
    → is_none token.consumed_at ≡ true
    → update hash (record token { consumed_at = some now }) t ≡ consume_at hash now t
unfolding consume_at
consume_at-eq hash now token t held fresh = ground arith

links-set_links : (l : Link) (t : Table LinkToken) (d : Db) → links l (set_links l t d) ≡ t
unfolding links set_links
links-set_links verification t d = refl
links-set_links reset t d = refl

pub IsHeldLink-consumed :
    (l : Link) (hash now : ℕ) (token : LinkToken) (d : Db)
    → IsHeldLink l hash token d
    → IsSpent l hash (set_links l (consume_at hash now (links l d)) d)
IsHeldLink-consumed l hash now token d h = record {
  at =
      subst (AtKey is_consumed hash) (sym (links-set_links l (consume_at hash now (links l d)) d)) (
        subst (AtKey is_consumed hash) (consume_at-eq hash now token (links l d) h.held h.fresh) (
          is_keyed-AtKey is_consumed hash token (record token { consumed_at = some now })
            (links l d) h.keyed h.held refl));
}

pub consume_link-IsSpent :
    (l : Link) (hash : ℕ) (token : LinkToken)
    → Triple Any (IsHeldLink l hash token) (consume_link l hash) (λ _. IsSpent l hash)
unfolding consume_link consume_link_sql
consume_link-IsSpent l hash token =
    query-Triple (consume_link_sql l hash) (λ d _. tt)
      λ now d h. IsHeldLink-consumed l hash now token d h

-- A spent token is found by no look-up.
pub get_live_link-IsSpent :
    (l : Link) (hash : ℕ) (d₀ : Db)
    → IsSpent l hash d₀
    → Triple (λ d. d ≡ d₀) (λ d. d ≡ d₀) (get_live_link l hash) (λ _ _. ⊥)
unfolding get_live_link get_live_link_sql is_live_link
get_live_link-IsSpent l hash d₀ spent =
    query-Triple (get_live_link_sql l hash) (λ d same. same)
      λ now d same. go now d same (lookup hash (links l d)) refl
  where
    dead : (now : ℕ) (t : LinkToken) → is_consumed t ≡ true → is_live_link now t ≡ false
    dead now t h = ground arith

    go :
        (now : ℕ) (d : Db)
        → d ≡ d₀
        → (o : Option LinkToken) → lookup hash (links l d) ≡ o
        → After (λ d. d ≡ d₀) (λ _ _. ⊥) (found (only_if (is_live_link now) o) d)
    go now d same none e = same
    go now d same (some t) e =
        let at = subst (λ x. AtKey is_consumed hash (links l x)) (sym same) spent.at in
        rw (dead now t (AtKey-lookup is_consumed hash t (links l d) at e)) same

-- A handler's answer that shows a result leaves what is said, and any other says nothing.
abbrev pub Shown : {A : Type 0} → (Db → Type 0) → Response A → Db → Type 0
Shown Q (shown x) d = Q d
Shown Q (refused status body) d = Unit {0}
Shown Q unrouted d = Unit {0}

module _ (p : Platform) where
  abbrev pub dead_verification : Response User
  dead_verification =
      bad_request ("That confirmation link is invalid or has expired. Request a new one." ∷ [])

  abbrev pub dead_reset : Response (Unit {0})
  dead_reset = bad_request ("That reset link is invalid or has expired. Request a new one." ∷ [])

  verify_email-IsSpent :
      (raw : Text)
      → Triple Any
          (λ d. is_keyed (links verification d) ≡ true)
          (verify_email p (some raw))
          (Shown (IsSpent verification (hash_token p raw)))
  unfolding verify_email
  verify_email-IsSpent raw =
      if-Triple (is_empty (trim_space raw)) _ _ (λ _. pure-Triple _ λ d h. tt)
        λ _.
          when_found-Triple _ _ _
            (weaken-Triple (get_live_link verification (hash_token p raw)) (λ d keyed. (tt, keyed))
              (λ token d h. h.1)
              (get_live_link-IsHeldLink {P = Any} verification (hash_token p raw)))
            (pure-Triple _ λ d h. tt)
            λ token.
              >>=-Triple _ _ (consume_link-IsSpent verification (hash_token p raw) token) λ _.
                >>=-Triple _ _
                  (relax-Triple (mark_user_verified token.user_id) (λ d i. tt)
                    (mark_user_verified-Keeps (IsSpent-Guarded verification (hash_token p raw))
                      token.user_id))
                  λ user. pure-Triple _ λ d h. h

  -- A link that confirmed an address is used up: whatever requests of auth.go follow, its token is
  -- answered 400 or with an error of the server, and the database stays as it is. No two tokens of such
  -- links have one hash in the database.
  pub verify_email-once :
      (raw : Text) (c : Conn) (calls : List (Surroundings × AuthCall)) {user : User} {c' : Conn}
      → is_empty (trim_space raw) ≡ false
      → is_keyed (links verification c.db) ≡ true
      → verify_email p (some raw) c ≡ (ok (shown user), c')
      → let c'' = perform_all p calls c' in
        Refuses dead_verification c''.db (verify_email p (some raw) c'')
  unfolding verify_email
  verify_email-once raw c calls {user} {c'} given keyed h =
      let hash = hash_token p raw in
      let c'' = perform_all p calls c' in
      let spent =
        perform_all-Guarded p (IsSpent-Guarded verification hash) calls c'
          (ran-Triple (verify_email p (some raw)) c (verify_email-IsSpent raw) keyed h) in
      same-Refuses dead_verification (verify_email p (some raw)) c'' (
        if-Triple (is_empty (trim_space raw)) _ _ (λ e. absurd (cc))
          λ _.
            when_found-Triple _ _ _ (get_live_link-IsSpent verification hash c''.db spent)
              (pure-Triple _ λ d same. (same, refl)) λ token. record { holds = λ c k. absurd k })
