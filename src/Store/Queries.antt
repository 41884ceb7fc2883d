-- ===== src/Store/Queries.antt =====
-- The queries: users.sql, tokens.sql, admin.sql and admin_posts.sql, as sqlcgen runs them. A `:one`
-- query that finds no row is `pgx.ErrNoRows`.
use waterloo_star_backend.Common.{
  ℕ, true, ◌&&◌, Option, none, some, ◌∷◌, ◌==◌, if◌then◌else◌, is_none,
}
use waterloo_star_backend.Common.Text.{Text}
use waterloo_star_backend.Store.Table.{Table, lookup, update, update_all, count}
use waterloo_star_backend.Store.Rows.{
  Role, is_admin, User, Post, RefreshToken, AdminAction, ActionName, Subject, Detail, Db, no_rows,
}
use waterloo_star_backend.Store.Conn.{Result, ok, err, M, query}

-- SELECT … WHERE id = $1
abbrev pub found : {A : Type 0} → Option A → Db → Result A × Db
found none d = (err no_rows, d)
found (some a) d = (ok a, d)

unfoldable pub get_user_by_id_sql : ℕ → ℕ → Db → Result User × Db
get_user_by_id_sql id now d = found (lookup id d.users) d

unfoldable pub get_user_by_id : ℕ → M User
get_user_by_id id = query (get_user_by_id_sql id)

-- UPDATE users SET … WHERE id = $1 RETURNING *. Before each update of a row of users, listings or
-- requests, a trigger sets `updated_at` to now().
abbrev pub write_user : ℕ → User → Db → Result User × Db
write_user id u d = (ok u, record d { users = update id u d.users })

unfoldable pub set_user_role_sql : ℕ → Role → ℕ → Db → Result User × Db
set_user_role_sql id role now d = elim (lookup id d.users) [
  | none ↦ (err no_rows, d)
  | some u ↦ write_user id (record u { role = role; updated_at = now }) d
]

unfoldable pub set_user_role : ℕ → Role → M User
set_user_role id role = query (set_user_role_sql id role)

unfoldable pub count_admins_sql : ℕ → Db → Result ℕ × Db
count_admins_sql now d = (ok (count (λ u. is_admin u.role) d.users), d)

unfoldable pub count_admins : M ℕ
count_admins = query count_admins_sql

unfoldable pub suspend_user_sql : ℕ → Option ℕ → Text → ℕ → Db → Result User × Db
suspend_user_sql id actor_id reason now d = elim (lookup id d.users) [
  | none ↦ (err no_rows, d)
  | some u ↦
      if is_none u.suspended_at
      then write_user id
          (record u {
            suspended_at = some now;
            suspended_by = actor_id;
            suspend_reason = some reason;
            updated_at = now;
          })
          d
      else (err no_rows, d)
]

unfoldable pub suspend_user : ℕ → Option ℕ → Text → M User
suspend_user id actor_id reason = query (suspend_user_sql id actor_id reason)

unfoldable pub reinstate_user_sql : ℕ → ℕ → Db → Result User × Db
reinstate_user_sql id now d = elim (lookup id d.users) [
  | none ↦ (err no_rows, d)
  | some u ↦
      if is_none u.suspended_at
      then (err no_rows, d)
      else write_user id
          (record u {
            suspended_at = none;
            suspended_by = none;
            suspend_reason = none;
            updated_at = now;
          })
          d
]

unfoldable pub reinstate_user : ℕ → M User
reinstate_user id = query (reinstate_user_sql id)

unfoldable pub verify_user_as_admin_sql : ℕ → ℕ → Db → Result User × Db
verify_user_as_admin_sql id now d = elim (lookup id d.users) [
  | none ↦ (err no_rows, d)
  | some u ↦
      if u.verified
      then (err no_rows, d)
      else write_user id (record u { verified = true; updated_at = now }) d
]

unfoldable pub verify_user_as_admin : ℕ → M User
verify_user_as_admin id = query (verify_user_as_admin_sql id)

-- SET revoked_at = now() WHERE user_id = $1 AND revoked_at IS NULL
unfoldable pub revoke_if : ℕ → ℕ → RefreshToken → RefreshToken
revoke_if user_id now t =
    if t.user_id == user_id && is_none t.revoked_at then record t { revoked_at = some now } else t

unfoldable pub revoke_all_refresh_tokens_for_user_sql : ℕ → ℕ → Db → Result (Unit {0}) × Db
revoke_all_refresh_tokens_for_user_sql user_id now d =
    (ok tt, record d { refresh_tokens = update_all (revoke_if user_id now) d.refresh_tokens })

unfoldable pub revoke_all_refresh_tokens_for_user : ℕ → M (Unit {0})
revoke_all_refresh_tokens_for_user user_id = query (revoke_all_refresh_tokens_for_user_sql user_id)

unfoldable pub insert_admin_action_sql :
    Option ℕ → ActionName → Subject → ℕ → Text → Detail → ℕ → Db → Result AdminAction × Db
insert_admin_action_sql actor_id action subject_type subject_id reason detail now d =
    let row : AdminAction = record {
      actor_id = actor_id;
      action = action;
      subject_type = subject_type;
      subject_id = subject_id;
      reason = reason;
      detail = detail;
      created_at = now;
    } in
    (ok row, record d { admin_actions = row ∷ d.admin_actions })

unfoldable pub insert_admin_action :
    Option ℕ → ActionName → Subject → ℕ → Text → Detail → M AdminAction
insert_admin_action actor_id action subject_type subject_id reason detail =
    query (insert_admin_action_sql actor_id action subject_type subject_id reason detail)

-- RemoveListing and RemoveRequest are one statement on two tables, and so are the restores.
unfoldable pub remove_row : Option ℕ → Text → ℕ → Post → Option Post
remove_row actor_id reason now p =
    if is_none p.removed_at
    then some (record p {
      removed_at = some now;
      removed_by = actor_id;
      removed_reason = some reason;
      updated_at = now;
    })
    else none

unfoldable pub restore_row : ℕ → Post → Option Post
restore_row now p =
    if is_none p.removed_at
    then none
    else some
        (record p { removed_at = none; removed_by = none; removed_reason = none; updated_at = now })

unfoldable pub write_row : ℕ → (Post → Option Post) → Table Post → Option (Table Post)
write_row id f t = elim (lookup id t) [
  | none ↦ none
  | some p ↦ elim (f p) [ none ↦ none | some p' ↦ some (update id p' t) ]
]

unfoldable pub get_listing_for_owner_sql : ℕ → ℕ → Db → Result Post × Db
get_listing_for_owner_sql id now d = found (lookup id d.listings) d

unfoldable pub get_listing_for_owner : ℕ → M Post
get_listing_for_owner id = query (get_listing_for_owner_sql id)

unfoldable pub get_request_for_owner_sql : ℕ → ℕ → Db → Result Post × Db
get_request_for_owner_sql id now d = found (lookup id d.requests) d

unfoldable pub get_request_for_owner : ℕ → M Post
get_request_for_owner id = query (get_request_for_owner_sql id)

abbrev pub set_listings : Option (Table Post) → Db → Result (Unit {0}) × Db
set_listings none d = (err no_rows, d)
set_listings (some t) d = (ok tt, record d { listings = t })

abbrev pub set_requests : Option (Table Post) → Db → Result (Unit {0}) × Db
set_requests none d = (err no_rows, d)
set_requests (some t) d = (ok tt, record d { requests = t })

unfoldable pub remove_listing_sql : ℕ → Option ℕ → Text → ℕ → Db → Result (Unit {0}) × Db
remove_listing_sql id actor_id reason now d =
    set_listings (write_row id (remove_row actor_id reason now) d.listings) d

unfoldable pub remove_listing : ℕ → Option ℕ → Text → M (Unit {0})
remove_listing id actor_id reason = query (remove_listing_sql id actor_id reason)

unfoldable pub restore_listing_sql : ℕ → ℕ → Db → Result (Unit {0}) × Db
restore_listing_sql id now d = set_listings (write_row id (restore_row now) d.listings) d

unfoldable pub restore_listing : ℕ → M (Unit {0})
restore_listing id = query (restore_listing_sql id)

unfoldable pub remove_request_sql : ℕ → Option ℕ → Text → ℕ → Db → Result (Unit {0}) × Db
remove_request_sql id actor_id reason now d =
    set_requests (write_row id (remove_row actor_id reason now) d.requests) d

unfoldable pub remove_request : ℕ → Option ℕ → Text → M (Unit {0})
remove_request id actor_id reason = query (remove_request_sql id actor_id reason)

unfoldable pub restore_request_sql : ℕ → ℕ → Db → Result (Unit {0}) × Db
restore_request_sql id now d = set_requests (write_row id (restore_row now) d.requests) d

unfoldable pub restore_request : ℕ → M (Unit {0})
restore_request id = query (restore_request_sql id)
