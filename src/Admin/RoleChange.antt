-- ===== src/Admin/RoleChange.antt =====
-- What a change of role does when it succeeds, and why the site keeps an admin.
use waterloo_star_backend.Common.{
  ℕ, zero, suc, ◌≤◌, ◌≡◌, refl, sym, ◌∙◌, ◌⊎◌, inl, inr, Bool, true, false, ◌&&◌, none, some, arith,
  ◌==◌, if◌then◌else◌, Bool-cases, Option-cases,
}
use waterloo_star_backend.Store.Table.{lookup, count}
use waterloo_star_backend.Store.Rows.{
  Role, is_admin, User, Detail, Db, Error, no_rows, last_admin, role_unchanged,
}
use waterloo_star_backend.Store.Conn.{Conn, Result, ok, err, ◌>>=◌, pure}
use waterloo_star_backend.Store.Calm.{calm, IsCalm, calm_rules, throw-IsCalm, pure-IsCalm}
use waterloo_star_backend.Store.Queries.{
  get_user_by_id, set_user_role, count_admins, revoke_all_refresh_tokens_for_user,
}
use waterloo_star_backend.Admin.Actions.{
  role_change, role_detail, role_eq, refuse_if, last_admin_guard,
}
use waterloo_star_backend.Admin.Accounts.{role_db, write_users, statements}

-- SELECT count(*) FROM users WHERE role = 'admin'
abbrev pub admins : Db → ℕ
admins d = count (λ u. is_admin u.role) d.users

-- An admin is left, if there was one.
abbrev pub KeepsAdmin : Db → Db → Type 0
KeepsAdmin d d' = (admins d ≡ 0) ⊎ (1 ≤ admins d')

pub keep_admin : (d d' : Db) → (1 ≤ admins d → 1 ≤ admins d') → KeepsAdmin d d'
keep_admin d d' k = go (admins d) refl
  where
    go : (n : ℕ) → admins d ≡ n → KeepsAdmin d d'
    go zero h = inl h
    go (suc n) h = inr (k (omega arith))

pub KeepsAdmin-eq : (d d' : Db) → admins d' ≡ admins d → KeepsAdmin d d'
KeepsAdmin-eq d d' h = keep_admin d d' (λ some_admin. omega arith)

pub KeepsAdmin-trans : (d e f : Db) → KeepsAdmin d e → KeepsAdmin e f → KeepsAdmin d f
KeepsAdmin-trans d e f (inl h) k = inl h
KeepsAdmin-trans d e f (inr h) (inl k) = absurd (omega arith)
KeepsAdmin-trans d e f (inr h) (inr k) = inr k

refuse_if-IsCalm : (b : Bool) (e : Error) → IsCalm (refuse_if b e)
refuse_if-IsCalm true e = throw-IsCalm e
refuse_if-IsCalm false e = pure-IsCalm tt

guard-IsCalm : (r : Role) → IsCalm (last_admin_guard r)
unfolding last_admin_guard count_admins
guard-IsCalm r = go (is_admin r)
  where
    go :
        (b : Bool)
        → IsCalm (if b then (do n ← count_admins; refuse_if (n == 0) last_admin) else pure tt)
    go true = search (calm_rules, refuse_if-IsCalm)
    go false = pure-IsCalm tt

module _ (user_id : ℕ) (role : Role) where
  role_change-IsCalm : IsCalm (role_change user_id role)
  unfolding role_change get_user_by_id set_user_role revoke_all_refresh_tokens_for_user
  role_change-IsCalm = search (calm_rules, refuse_if-IsCalm, guard-IsCalm) depth 16

  -- The change on a connection that never fails.
  calm_outcome : Conn → User → Result ((User × Role) × Detail) × Conn
  calm_outcome c u =
      let done : Result ((User × Role) × Detail) × Conn = (
        ok ((record u { role = role; updated_at = c.now }, u.role), role_detail u.role role),
        record (calm c) { db = role_db user_id role c.now u c.db },
      ) in
      let written = write_users user_id (record u { role = role; updated_at = c.now }) c.db in
      if is_admin u.role && (admins written == 0)
      then (err last_admin, record (calm c) { db = written })
      else done

  role_change-absent :
      (c : Conn)
      → lookup user_id c.db.users ≡ none
      → (role_change user_id role (calm c)).0 ≡ err no_rows
  unfolding role_change statements
  role_change-absent c h = ground arith

  role_change-same :
      (c : Conn) (u : User)
      → lookup user_id c.db.users ≡ some u
      → role_eq u.role role ≡ true
      → (role_change user_id role (calm c)).0 ≡ err role_unchanged
  unfolding role_change statements
  role_change-same c u h e = ground arith

  role_change-calm_outcome :
      (c : Conn) (u : User)
      → lookup user_id c.db.users ≡ some u
      → role_eq u.role role ≡ false
      → role_change user_id role (calm c) ≡ calm_outcome c u
  unfolding role_change last_admin_guard statements calm_outcome
  role_change-calm_outcome c u h e = ground arith

  -- What a change of role that succeeded has done.
  abbrev pub RoleChanged : Conn → User → Role → Detail → Conn → User → Type 0
  RoleChanged c out previous detail d u =
      (lookup user_id c.db.users ≡ some u)
      × (out ≡ record u { role = role; updated_at = c.now })
      × (previous ≡ u.role)
      × (detail ≡ role_detail u.role role)
      × (d.db ≡ role_db user_id role c.now u c.db)
      × (d.now ≡ c.now)
      × ((is_admin u.role ≡ false) ⊎ (1 ≤ admins d.db))

  calm_outcome-eq-ok :
      (c : Conn) (u out : User) (previous : Role) (detail : Detail) (d : Conn)
      → lookup user_id c.db.users ≡ some u
      → calm_outcome c u ≡ (ok ((out, previous), detail), calm d)
      → RoleChanged c out previous detail d u
  unfolding calm_outcome
  calm_outcome-eq-ok c u out previous detail d present h = elim (Bool-cases (is_admin u.role)) [
    | inl was ↦
        elim (Bool-cases
          (admins (write_users user_id (record u { role = role; updated_at = c.now }) c.db) == 0)) [
            | inl nobody ↦ absurd (ground arith)
            | inr somebody ↦ (
              present,
              ground arith,
              ground arith,
              ground arith,
              ground arith,
              ground arith,
              inr (ground arith),
            )
          ]
    | inr never ↦
        (present, ground arith, ground arith, ground arith, ground arith, ground arith, inl never)
  ]

  -- A change of role that succeeds.
  pub role_change-eq-ok :
      (c : Conn) {out : User} {previous : Role} {detail : Detail} {d : Conn}
      → role_change user_id role c ≡ (ok ((out, previous), detail), d)
      → (u : User) × (role_eq u.role role ≡ false) × RoleChanged c out previous detail d u
  role_change-eq-ok c {out} {previous} {detail} {d} h =
      let calmly = role_change-IsCalm.runs c d ((out, previous), detail) h in
      elim (Option-cases (lookup user_id c.db.users)) [
        | inl absent ↦ let bad = role_change-absent c absent in absurd (cc)
        | inr (u, present) ↦ elim (Bool-cases (role_eq u.role role)) [
          | inl same ↦ let bad = role_change-same c u present same in absurd (cc)
          | inr differs ↦ (
            u,
            differs,
            calm_outcome-eq-ok c u out previous detail d present
                (sym (role_change-calm_outcome c u present differs) ∙ calmly),
          )
        ]
      ]
