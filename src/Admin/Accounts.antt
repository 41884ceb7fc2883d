-- ===== src/Admin/Accounts.antt =====
-- What the changes to an account do when they succeed, on any connection.
use waterloo_star_backend.Common.{
  ℕ, ◌≡◌, inl, inr, Bool, true, false, ◌&&◌, none, some, arith, ◌==◌, ltb, Option-cases, is_none,
}
use waterloo_star_backend.Common.Text.{Text, trim_space}
use waterloo_star_backend.Store.Table.{lookup, update, update_all, count}
use waterloo_star_backend.Store.Rows.{Role, User, RefreshToken, Detail, Db}
use waterloo_star_backend.Store.Conn.{Conn, ok, ◌>>=◌, pure, throw, no_rows_as, query}
use waterloo_star_backend.Store.Calm.{IsCalm, calm_rules}
use waterloo_star_backend.Store.Queries.{
  get_user_by_id, get_user_by_id_sql, set_user_role, set_user_role_sql, count_admins,
  count_admins_sql, suspend_user, suspend_user_sql, reinstate_user, reinstate_user_sql,
  verify_user_as_admin, verify_user_as_admin_sql, revoke_if, revoke_all_refresh_tokens_for_user,
  revoke_all_refresh_tokens_for_user_sql,
}
use waterloo_star_backend.Admin.Actions.{
  suspend_change, suspend_detail, reinstate_change, reinstate_detail, verify_change, verify_detail,
}

-- A refresh token that GetLiveRefreshToken would return for the account at a time.
abbrev pub is_live : ℕ → ℕ → RefreshToken → Bool
is_live user_id now t = t.user_id == user_id && is_none t.revoked_at && ltb now t.expires_at

abbrev pub live_sessions : ℕ → ℕ → Db → ℕ
live_sessions user_id now d = count (is_live user_id now) d.refresh_tokens

abbrev pub suspended_row : ℕ → Text → ℕ → User → User
suspended_row actor reason now u = record u {
  suspended_at = some now;
  suspended_by = some actor;
  suspend_reason = some reason;
  updated_at = now;
}

-- The database after a suspension: the row, and every live token of the account revoked.
abbrev pub suspended_db : ℕ → ℕ → Text → ℕ → User → Db → Db
suspended_db actor user_id reason now u d = record d {
  users = update user_id (suspended_row actor reason now u) d.users;
  refresh_tokens = update_all (revoke_if user_id now) d.refresh_tokens;
}

abbrev pub reinstated_row : ℕ → User → User
reinstated_row now u = record u {
  suspended_at = none;
  suspended_by = none;
  suspend_reason = none;
  updated_at = now;
}

abbrev pub write_users : ℕ → User → Db → Db
write_users user_id u d = record d { users = update user_id u d.users }

-- The database after a change of role: the row, and every live token of the account revoked.
abbrev pub role_db : ℕ → Role → ℕ → User → Db → Db
role_db user_id role now u d = record d {
  users = update user_id (record u { role = role; updated_at = now }) d.users;
  refresh_tokens = update_all (revoke_if user_id now) d.refresh_tokens;
}

-- Every statement of these changes, open down to the tables.
unfoldable pub statements : Unit {0}
unfolding get_user_by_id get_user_by_id_sql set_user_role set_user_role_sql count_admins
    count_admins_sql suspend_user suspend_user_sql reinstate_user reinstate_user_sql
    verify_user_as_admin verify_user_as_admin_sql revoke_all_refresh_tokens_for_user
    revoke_all_refresh_tokens_for_user_sql ◌>>=◌ pure throw no_rows_as query
statements = tt

module _ (user_id : ℕ) where
  suspend_change-IsCalm : (actor : ℕ) (reason : Text) → IsCalm (suspend_change actor user_id reason)
  unfolding suspend_change get_user_by_id suspend_user revoke_all_refresh_tokens_for_user
  suspend_change-IsCalm actor reason = search calm_rules depth 12

  pub suspend_change-eq-ok :
      (actor : ℕ) (reason : Text) (c : Conn) {out : User} {detail : Detail} {d : Conn}
      → suspend_change actor user_id reason c ≡ (ok (out, detail), d)
      → (u : User) × (lookup user_id c.db.users ≡ some u)
        × (u.suspended_at ≡ none)
        × (out ≡ suspended_row actor (trim_space reason) c.now u)
        × (detail ≡ suspend_detail)
        × (d.db ≡ suspended_db actor user_id (trim_space reason) c.now u c.db)
        × (d.now ≡ c.now)
  unfolding suspend_change statements
  suspend_change-eq-ok actor reason c {out} {detail} {d} h =
      let calmly = (suspend_change-IsCalm actor reason).runs c d (out, detail) h in
      elim (Option-cases (lookup user_id c.db.users)) [
        | inl absent ↦ absurd (ground arith)
        | inr (u, present) ↦
            (u, present, ground arith, ground arith, ground arith, ground arith, ground arith)
      ]

  reinstate_change-IsCalm : IsCalm (reinstate_change user_id)
  unfolding reinstate_change get_user_by_id reinstate_user
  reinstate_change-IsCalm = search calm_rules depth 12

  pub reinstate_change-eq-ok :
      (c : Conn) {out : User} {detail : Detail} {d : Conn}
      → reinstate_change user_id c ≡ (ok (out, detail), d)
      → (u : User) × (lookup user_id c.db.users ≡ some u)
        × (is_none u.suspended_at ≡ false)
        × (out ≡ reinstated_row c.now u)
        × (detail ≡ reinstate_detail u)
        × (d.db ≡ write_users user_id (reinstated_row c.now u) c.db)
        × (d.now ≡ c.now)
  unfolding reinstate_change statements
  reinstate_change-eq-ok c {out} {detail} {d} h =
      let calmly = reinstate_change-IsCalm.runs c d (out, detail) h in
      elim (Option-cases (lookup user_id c.db.users)) [
        | inl absent ↦ absurd (ground arith)
        | inr (u, present) ↦
            (u, present, ground arith, ground arith, ground arith, ground arith, ground arith)
      ]

  verify_change-IsCalm : IsCalm (verify_change user_id)
  unfolding verify_change get_user_by_id verify_user_as_admin
  verify_change-IsCalm = search calm_rules depth 12

  pub verify_change-eq-ok :
      (c : Conn) {out : User} {detail : Detail} {d : Conn}
      → verify_change user_id c ≡ (ok (out, detail), d)
      → (u : User) × (lookup user_id c.db.users ≡ some u)
        × (u.verified ≡ false)
        × (out ≡ record u { verified = true; updated_at = c.now })
        × (detail ≡ verify_detail)
        × (d.db ≡ write_users user_id (record u { verified = true; updated_at = c.now }) c.db)
        × (d.now ≡ c.now)
  unfolding verify_change statements
  verify_change-eq-ok c {out} {detail} {d} h =
      let calmly = verify_change-IsCalm.runs c d (out, detail) h in
      elim (Option-cases (lookup user_id c.db.users)) [
        | inl absent ↦ absurd (ground arith)
        | inr (u, present) ↦
            (u, present, ground arith, ground arith, ground arith, ground arith, ground arith)
      ]
