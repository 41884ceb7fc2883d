-- ===== src/Auth/Suspended.antt =====
-- A suspended account has no live session, and gets none.
use waterloo_star_backend.Common.{
  ℕ, ◌≡◌, refl, Bool, true, false, ◌||◌, not, Option, none, some, ◌∷◌, arith, ◌==◌, is_some,
  is_none, if◌then◌else◌, List, [], sym, subst,
}
use waterloo_star_backend.Store.Table.{
  Table, lookup, count, all_rows-rewritten, update, all_rows, all_rows-update, all_rows-update_all,
}
use waterloo_star_backend.Store.AtKey.{
  AtKey, AtKey-lookup_other, AtKey-find, AtKey-insert, AtKey-update, is_keyed, is_keyed-AtKey,
}
use waterloo_star_backend.Store.Rows.{AdminAction, Db, User, RefreshToken, LinkToken}
use waterloo_star_backend.Store.Conn.{Conn, ok, TxRunner, IsTransactional}
use waterloo_star_backend.Common.Text.{Text, trim_space}
use waterloo_star_backend.Admin.Actions.{suspend}
use waterloo_star_backend.Admin.Accounts.{is_live, live_sessions, suspended_row, suspended_db}
use waterloo_star_backend.Admin.Effects.{suspend-eq-ok, with_row}
use waterloo_star_backend.Store.Queries.{revoke_if}
use waterloo_star_backend.Store.Sessions.{Link, verification, reset, set_links, revoke_at}
use waterloo_star_backend.Auth.Platform.{Platform}
use waterloo_star_backend.Auth.Guarded.{Guarded}
use waterloo_star_backend.Auth.Calls.{AuthCall, Surroundings, perform_all, perform_all-Guarded}

abbrev pub is_suspended : User → Bool
is_suspended u = is_some u.suspended_at

abbrev pub is_revoked : RefreshToken → Bool
is_revoked t = is_some t.revoked_at

abbrev pub is_revoked_of : ℕ → RefreshToken → Bool
is_revoked_of id t = not (t.user_id == id) || is_revoked t

-- The account is there and suspended, and every refresh token of it is revoked.
pub record IsEvicted (id : ℕ) (d : Db) : Type 0 where
  pub suspended : AtKey is_suspended id d.users
  pub revoked : all_rows (λ _. is_revoked_of id) d.refresh_tokens ≡ true

-- An update that finds its row, as `revoke_at` does.
pub all_rows-revoke_at :
    (q : ℕ → RefreshToken → Bool) (hash now : ℕ) (t : Table RefreshToken)
    → ((k : ℕ) (r : RefreshToken) → q k (record r { revoked_at = some now }) ≡ true)
    → all_rows q t ≡ true
    → all_rows q (revoke_at hash now t) ≡ true
unfolding revoke_at
all_rows-revoke_at q hash now t h p = go (lookup hash t)
  where
    go :
        (o : Option RefreshToken)
        → all_rows q (elim o [
          | none ↦ t
          | some r ↦
              if is_none r.revoked_at then update hash (record r { revoked_at = some now }) t else t
        ])
          ≡ true
    go none = p
    go (some r) = pick (is_none r.revoked_at)
      where
        pick :
            (b : Bool)
            → all_rows q (if b then update hash (record r { revoked_at = some now }) t else t)
              ≡ true
        pick true = all_rows-update q hash _ t p (h hash r)
        pick false = p

IsEvicted-links :
    (id : ℕ) (l : Link) (t : Table LinkToken) (d : Db)
    → IsEvicted id d
    → IsEvicted id (set_links l t d)
unfolding set_links
IsEvicted-links id verification t d h = record { suspended = h.suspended; revoked = h.revoked }
IsEvicted-links id reset t d h = record { suspended = h.suspended; revoked = h.revoked }

pub IsEvicted-Guarded : (id : ℕ) → Guarded (IsEvicted id) (λ k. (k == id) ≡ false)
unfolding all_rows revoke_if
IsEvicted-Guarded id = record {
  reads_email =
      λ q k u d h e n. AtKey-find is_suspended id q k u d.users h.suspended e (ground arith);
  reads_id =
      λ k u d h e n. AtKey-lookup_other is_suspended id k u d.users h.suspended e (ground arith);
  creates_user = λ k u d h e. record {
    suspended = AtKey-insert is_suspended id k u d.users h.suspended e;
    revoked = h.revoked;
  };
  verifies = λ k now u d h e. record {
    suspended = AtKey-update is_suspended id k u _ d.users h.suspended e (λ x. x);
    revoked = h.revoked;
  };
  rehashes = λ k now u hash d h e. record {
    suspended = AtKey-update is_suspended id k u _ d.users h.suspended e (λ x. x);
    revoked = h.revoked;
  };
  consumes = λ l hash now d h. IsEvicted-links id l _ d h;
  consumes_all = λ l k now d h. IsEvicted-links id l _ d h;
  creates_link = λ l hash t d h e. IsEvicted-links id l _ d h;
  starts = λ hash k expires_at d allowed h e. record {
    suspended = h.suspended;
    revoked = let r = h.revoked in ground arith;
  };
  revokes = λ hash now d h. record {
    suspended = h.suspended;
    revoked =
        all_rows-revoke_at (λ _. is_revoked_of id) hash now d.refresh_tokens (λ k r. ground arith)
          h.revoked;
  };
  evicts = λ k now d h. record {
    suspended = h.suspended;
    revoked =
        all_rows-update_all (λ _. is_revoked_of id) (revoke_if k now) d.refresh_tokens
          (λ j r e. ground arith) h.revoked;
  };
}

-- Whatever requests of auth.go follow, a suspended account whose refresh tokens are all revoked
-- stays suspended, and no refresh token of it is live.
pub perform_all-IsEvicted :
    (p : Platform) (id : ℕ) (calls : List (Surroundings × AuthCall)) (c : Conn)
    → IsEvicted id c.db
    → IsEvicted id (perform_all p calls c).db
perform_all-IsEvicted p id = perform_all-Guarded p (IsEvicted-Guarded id)

-- An account with no refresh token that is not revoked has no live session at any time.
pub all_rows-live_sessions :
    (id time : ℕ) (d : Db)
    → all_rows (λ _. is_revoked_of id) d.refresh_tokens ≡ true
    → live_sessions id time d ≡ 0
unfolding count all_rows
all_rows-live_sessions id time d h = go d.refresh_tokens h
  where
    go :
        (t : Table RefreshToken)
        → all_rows (λ _. is_revoked_of id) t ≡ true
        → count (is_live id time) t ≡ 0
    go [] h = refl
    go ((j, r) ∷ t) h = ground (arith, go t)

pub revoke_if-is_revoked_of :
    (id now : ℕ) (k : ℕ) (r : RefreshToken) → is_revoked_of id (revoke_if id now r) ≡ true
unfolding revoke_if
revoke_if-is_revoked_of id now k r = ground arith

-- Once a suspension succeeds, whatever requests of auth.go follow, by anybody: the account stays
-- suspended, and it has no live session at any time. None of these requests reinstates an account.
-- No two rows of the users have one id.
pub perform_all-suspend :
    (tx : TxRunner)
    → IsTransactional tx
    → (p : Platform) (actor user_id : ℕ) (reason : Text) (c : Conn) {out : User}
      {logged : AdminAction} {c' : Conn} (calls : List (Surroundings × AuthCall)) (time : ℕ)
    → is_keyed c.db.users ≡ true
    → suspend tx actor user_id reason c ≡ (ok (out, logged), c')
    → let d = (perform_all p calls c').db in
      IsEvicted user_id d × (live_sessions user_id time d ≡ 0)
perform_all-suspend tx t p actor user_id reason c {out} {logged} {c'} calls time keyed h =
    let (u, other, present, active, shown, there, all, row, given, dead) =
      suspend-eq-ok tx t user_id actor reason c h in
    let start : IsEvicted user_id
        (with_row logged (suspended_db actor user_id (trim_space reason) c.now u c.db)) =
      record {
        suspended =
            is_keyed-AtKey is_suspended user_id u (suspended_row actor (trim_space reason) c.now u)
              c.db.users keyed present refl;
        revoked =
            all_rows-rewritten (λ _. is_revoked_of user_id) (revoke_if user_id c.now)
              c.db.refresh_tokens (revoke_if-is_revoked_of user_id c.now);
      } in
    let last =
      perform_all-IsEvicted p user_id calls c' (subst (IsEvicted user_id) (sym all) start) in
    (last, all_rows-live_sessions user_id time (perform_all p calls c').db last.revoked)
