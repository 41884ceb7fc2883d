-- ===== src/Admin/Effects.antt =====
-- What the account actions of internal/db/accounts.go and roles.go have done once they succeed:
-- the row, the sessions and the ledger.
use waterloo_star_backend.Common.{
  ℕ, ◌≡◌, refl, sym, ap, subst, ◌∙◌, inl, inr, true, false, none, some, List, ◌∷◌, arith, ◌==◌,
  Bool-cases, is_none,
}
use waterloo_star_backend.Common.Text.{Text, trim_space, is_empty}
use waterloo_star_backend.Store.Table.{
  lookup, update, update_all, count, lookup-update, count-update_all,
}
use waterloo_star_backend.Store.Rows.{User, RefreshToken, AdminAction, ActionName, Db}
use waterloo_star_backend.Store.Conn.{Conn, ok, throw, TxRunner, IsTransactional}
use waterloo_star_backend.Store.Queries.{revoke_if}
use waterloo_star_backend.Admin.Audit.{audited}
use waterloo_star_backend.Admin.Ledger.{row_for, Audits, audited-Audits}
use waterloo_star_backend.Admin.Actions.{
  account_action, suspend_change, suspend, suspend_detail, reinstate_change, reinstate,
  reinstate_detail, verify_change, verify_by_hand, verify_detail,
}
use waterloo_star_backend.Admin.Accounts.{
  is_live, live_sessions, suspended_row, suspended_db, reinstated_row, write_users,
  suspend_change-eq-ok, reinstate_change-eq-ok, verify_change-eq-ok,
}

-- A revoked token is not live, at any time.
revoke_if-is_live :
    (user_id now t : ℕ) (r : RefreshToken) → is_live user_id t (revoke_if user_id now r) ≡ false
unfolding revoke_if
revoke_if-is_live user_id now t r = ground arith

pub revoked-live_sessions :
    (user_id now t : ℕ) (tokens : List (ℕ × RefreshToken))
    → count (is_live user_id t) (update_all (revoke_if user_id now) tokens) ≡ 0
revoked-live_sessions user_id now t tokens =
    count-update_all (is_live user_id t) (revoke_if user_id now) tokens
      (revoke_if-is_live user_id now t)

pub written-lookup :
    {A : Type 0} (k : ℕ) (a b : A) (t : List (ℕ × A))
    → lookup k t ≡ some b
    → lookup k (update k a t) ≡ some a
written-lookup k a b t h = grind (arith, lookup-update k k a b t h)

-- The database with a row on top of its ledger.
abbrev pub with_row : AdminAction → Db → Db
with_row logged d = record d { admin_actions = logged ∷ d.admin_actions }

-- What a suspension has done.
abbrev pub Suspended : ℕ → ℕ → Text → Conn → User → AdminAction → Conn → Type 0
Suspended actor user_id reason c out logged c' =
    (u : User) × ((actor == user_id) ≡ false)
    × (lookup user_id c.db.users ≡ some u)
    × (u.suspended_at ≡ none)
    × (out ≡ suspended_row actor (trim_space reason) c.now u)
    × (lookup user_id c'.db.users ≡ some out)
    × (c'.db ≡ with_row logged (suspended_db actor user_id (trim_space reason) c.now u c.db))
    × (logged
        ≡ row_for (account_action (some actor) ActionName.suspend user_id reason) suspend_detail
            c.now)
    × (is_empty (trim_space reason) ≡ false)
    × ((time : ℕ) → live_sessions user_id time c'.db ≡ 0)

-- What a suspension and its end, at a time, have done together.
abbrev pub Lifted : ℕ → User → ℕ → Conn → AdminAction → AdminAction → Conn → Type 0
Lifted user_id before time c logged logged' c'' =
    (lookup user_id c''.db.users ≡ some (record before { updated_at = time }))
    × ((time : ℕ) → live_sessions user_id time c''.db ≡ 0)
    × (c''.db.admin_actions ≡ logged' ∷ logged ∷ c.db.admin_actions)

module _ (tx : TxRunner) (t : IsTransactional tx) (user_id : ℕ) where
  -- A suspension that succeeds is of another account, which exists and was not suspended. The
  -- row that comes back is the row in the table, and says who suspended it, when and, trimmed,
  -- why. The database is the one before with that row, with every token of the account that
  -- was not revoked revoked, and with one row on top of the ledger, with the actor,
  -- the account and the trimmed reason, which is not blank. No refresh token of the account is live at any time.
  pub suspend-eq-ok :
      (actor : ℕ) (reason : Text) (c : Conn) {out : User} {logged : AdminAction} {c' : Conn}
      → suspend tx actor user_id reason c ≡ (ok (out, logged), c')
      → Suspended actor user_id reason c out logged c'
  unfolding suspend throw
  suspend-eq-ok actor reason c {out} {logged} {c'} h = elim (Bool-cases (actor == user_id)) [
    | inl self ↦ absurd (cc)
    | inr other ↦
        let a = account_action (some actor) ActionName.suspend user_id reason in
        let ran : audited tx a (suspend_change actor user_id reason) c ≡ (ok (out, logged), c') =
          cc in
        let (detail, d, changed, given, row, wrote) =
          subst (Audits a c (suspend_change actor user_id reason c)) ran
            (audited-Audits tx t a (suspend_change actor user_id reason) c) in
        let (u, present, active, shown, said, left, at) =
          suspend_change-eq-ok user_id actor reason c changed in
        let all : c'.db
            ≡ with_row logged (suspended_db actor user_id (trim_space reason) c.now u c.db) =
          wrote ∙ ap (with_row logged) left in
        (
          u,
          other,
          present,
          active,
          shown,
          ap (λ x. lookup user_id x.users) all
              ∙ written-lookup user_id (suspended_row actor (trim_space reason) c.now u) u
                  c.db.users present
              ∙ ap some (sym shown),
          all,
          row ∙ rw (said, at) refl,
          given,
          λ time.
              ap (live_sessions user_id time) all
              ∙ revoked-live_sessions user_id c.now time c.db.refresh_tokens,
        )
  ]

  pub reinstate-eq-ok :
      (actor : ℕ) (reason : Text) (c : Conn) {out : User} {logged : AdminAction} {c' : Conn}
      → reinstate tx actor user_id reason c ≡ (ok (out, logged), c')
      → (u : User) × (lookup user_id c.db.users ≡ some u)
        × (is_none u.suspended_at ≡ false)
        × (out ≡ reinstated_row c.now u)
        × (c'.db ≡ with_row logged (write_users user_id (reinstated_row c.now u) c.db))
        × (logged
            ≡ row_for
                (account_action (some actor) ActionName.reinstate user_id reason)
                (reinstate_detail u)
                c.now)
        × (is_empty (trim_space reason) ≡ false)
  unfolding reinstate
  reinstate-eq-ok actor reason c {out} {logged} {c'} h =
      let a = account_action (some actor) ActionName.reinstate user_id reason in
      let (detail, d, changed, given, row, wrote) =
        subst (Audits a c (reinstate_change user_id c)) h
          (audited-Audits tx t a (reinstate_change user_id) c) in
      let (u, present, was, shown, said, left, at) = reinstate_change-eq-ok user_id c changed in
      (u, present, was, shown, wrote ∙ ap (with_row logged) left, row ∙ cc, given)

  pub verify_by_hand-eq-ok :
      (actor : ℕ) (reason : Text) (c : Conn) {out : User} {logged : AdminAction} {c' : Conn}
      → verify_by_hand tx actor user_id reason c ≡ (ok (out, logged), c')
      → (u : User) × (lookup user_id c.db.users ≡ some u)
        × (u.verified ≡ false)
        × (out ≡ record u { verified = true; updated_at = c.now })
        × (c'.db
            ≡ with_row logged
                (write_users user_id (record u { verified = true; updated_at = c.now }) c.db))
        × (logged
            ≡ row_for
                (account_action (some actor) ActionName.verify user_id reason)
                verify_detail
                c.now)
        × (is_empty (trim_space reason) ≡ false)
  unfolding verify_by_hand
  verify_by_hand-eq-ok actor reason c {out} {logged} {c'} h =
      let a = account_action (some actor) ActionName.verify user_id reason in
      let (detail, d, changed, given, row, wrote) =
        subst (Audits a c (verify_change user_id c)) h
          (audited-Audits tx t a (verify_change user_id) c) in
      let (u, present, was, shown, said, left, at) = verify_change-eq-ok user_id c changed in
      (u, present, was, shown, wrote ∙ ap (with_row logged) left, row ∙ cc, given)

  -- Reinstating a suspended account, at any later time and by whomever, with nothing written in
  -- between, puts every column of the row back as it was before the suspension but `updated_at`,
  -- which is the time of the reinstatement, if that row kept no trace of an earlier one. It leaves no
  -- live session of the account, and the two rows on top of the ledger.
  pub reinstate-suspend :
      (actor actor' : ℕ) (reason reason' : Text) (c : Conn) (before : User) {out back : User}
      {logged logged' : AdminAction} {c' c'' : Conn} (later : Conn)
      → lookup user_id c.db.users ≡ some before
      → before.suspended_by ≡ none
      → before.suspend_reason ≡ none
      → suspend tx actor user_id reason c ≡ (ok (out, logged), c')
      → later.db ≡ c'.db
      → reinstate tx actor' user_id reason' later ≡ (ok (back, logged'), c'')
      → Lifted user_id before later.now c logged logged' c''
  reinstate-suspend actor actor' reason reason' c before {out} {back} {logged} {logged'} {c'} {c''}
        later is by why h same_db k =
      let (u, other, present, active, shown, there, all, row, given, dead) =
        suspend-eq-ok actor reason c h in
      let (v, present', was, shown', all', row', given') = reinstate-eq-ok actor' reason' later k in
      let kept : u ≡ before = cc in
      let there' : lookup user_id later.db.users ≡ some out =
        ap (λ d. lookup user_id d.users) same_db ∙ there in
      let same : v ≡ out = cc in
      let undone : reinstated_row later.now v ≡ record before { updated_at = later.now } =
        ap (reinstated_row later.now) (same ∙ shown)
        ∙ ap (λ x. reinstated_row later.now (suspended_row actor (trim_space reason) c.now x)) kept
        ∙ (λ i. record before {
          suspended_at = sym (ap (λ (x : User). x.suspended_at) (sym kept) ∙ active) i;
          suspended_by = sym by i;
          suspend_reason = sym why i;
          updated_at = later.now;
        }) in
      (
        ap (λ d. lookup user_id d.users) all'
            ∙ written-lookup user_id (reinstated_row later.now v) v later.db.users present'
            ∙ ap some undone,
        λ time.
            ap (live_sessions user_id time) all'
            ∙ ap (live_sessions user_id time) same_db
            ∙ dead time,
        ap (λ d. d.admin_actions) all' ∙ ap (λ d. logged' ∷ d.admin_actions) (same_db ∙ all),
      )
