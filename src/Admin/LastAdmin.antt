-- ===== src/Admin/LastAdmin.antt =====
-- ChangeRole of internal/db/roles.go, and the admins that the account actions leave.
use waterloo_star_backend.Common.{
  ℕ, ◌≤◌, ◌≡◌, ap, subst, ◌∙◌, inl, inr, false, Option, some, List, arith, Bool-cases,
}
use waterloo_star_backend.Common.Text.{Text, trim_space, is_empty}
use waterloo_star_backend.Store.Table.{lookup, update, count, count-update}
use waterloo_star_backend.Store.Rows.{Role, is_admin, User, AdminAction, ActionName}
use waterloo_star_backend.Store.Conn.{Conn, ok, throw, TxRunner, IsTransactional}
use waterloo_star_backend.Admin.Audit.{audited}
use waterloo_star_backend.Admin.Ledger.{row_for, Audits, audited-Audits}
use waterloo_star_backend.Admin.Actions.{
  account_action, role_change, role_detail, role_eq, is_self, change_role,
}
use waterloo_star_backend.Admin.Accounts.{live_sessions, role_db}
use waterloo_star_backend.Admin.RoleChange.{admins, KeepsAdmin, keep_admin, role_change-eq-ok}
use waterloo_star_backend.Admin.Effects.{with_row, revoked-live_sessions}

-- Writing a row of an account that is no admin cannot lower the number of admins.
pub admins-grows :
    (user_id : ℕ) (a u : User) (users : List (ℕ × User))
    → lookup user_id users ≡ some u
    → is_admin u.role ≡ false
    → count (λ x. is_admin x.role) users ≤ count (λ x. is_admin x.role) (update user_id a users)
admins-grows user_id a u users present never =
    ground (arith, count-update (λ x. is_admin x.role) user_id a u users present)

-- Writing a row with the role it had leaves the number of admins.
pub admins-same :
    (user_id : ℕ) (a u : User) (users : List (ℕ × User))
    → lookup user_id users ≡ some u
    → a.role ≡ u.role
    → count (λ x. is_admin x.role) (update user_id a users) ≡ count (λ x. is_admin x.role) users
admins-same user_id a u users present same =
    let e = ap is_admin same in
    ground (arith, count-update (λ x. is_admin x.role) user_id a u users present)

-- What a change of role has done.
abbrev pub RoleSet : Option ℕ → ℕ → Role → Text → Conn → User → Role → AdminAction → Conn → Type 0
RoleSet actor user_id role reason c out previous logged c' =
    (u : User) × (is_self actor user_id ≡ false)
    × (lookup user_id c.db.users ≡ some u)
    × (role_eq u.role role ≡ false)
    × (out ≡ record u { role = role; updated_at = c.now })
    × (previous ≡ u.role)
    × (c'.db ≡ with_row logged (role_db user_id role c.now u c.db))
    × (logged
        ≡ row_for (account_action actor ActionName.set_role user_id reason)
            (role_detail u.role role) c.now)
    × (is_empty (trim_space reason) ≡ false)
    × ((time : ℕ) → live_sessions user_id time c'.db ≡ 0)
    × KeepsAdmin c.db c'.db

module _ (tx : TxRunner) (t : IsTransactional tx) (user_id : ℕ) where
  -- A change of role that succeeds is not of the actor's own account. The account exists with
  -- another role, which comes back with the row as it is now. The database is the one before
  -- with that row, with every token of the account that was not revoked revoked, and with one
  -- row on top of the ledger, whose reason is not blank. No session of the account is live, and
  -- if there was an admin before, there is one after.
  pub change_role-eq-ok :
      (actor : Option ℕ) (role : Role) (reason : Text) (c : Conn) {out : User} {previous : Role}
      {logged : AdminAction} {c' : Conn}
      → change_role tx actor user_id role reason c ≡ (ok ((out, previous), logged), c')
      → RoleSet actor user_id role reason c out previous logged c'
  unfolding change_role throw
  change_role-eq-ok actor role reason c {out} {previous} {logged} {c'} h =
      elim (Bool-cases (is_self actor user_id)) [
        | inl self ↦ absurd (cc)
        | inr other ↦
            let a = account_action actor ActionName.set_role user_id reason in
            let ran : audited tx a (role_change user_id role) c
                ≡ (ok ((out, previous), logged), c') =
              cc in
            let (detail, d, changed, given, row, wrote) =
              subst (Audits a c (role_change user_id role c)) ran
                (audited-Audits tx t a (role_change user_id role) c) in
            let (u, differs, (present, shown, was, said, left, at, kept)) =
              role_change-eq-ok user_id role c changed in
            let all : c'.db ≡ with_row logged (role_db user_id role c.now u c.db) =
              wrote ∙ ap (with_row logged) left in
            let remain : KeepsAdmin c.db c'.db = keep_admin c.db c'.db (λ some_admin. elim kept [
              | inl never ↦
                  let grows =
                    admins-grows user_id (record u { role = role; updated_at = c.now }) u c.db.users
                      present never in
                  let now_are = ap admins all in omega arith
              | inr left_some ↦
                  let now_are : admins c'.db ≡ admins d.db = ap admins wrote in omega arith
            ]) in
            (
              u,
              other,
              present,
              differs,
              shown,
              was,
              all,
              row ∙ cc,
              given,
              λ time.
                  ap (live_sessions user_id time) all
                  ∙ revoked-live_sessions user_id c.now time c.db.refresh_tokens,
              remain,
            )
      ]
