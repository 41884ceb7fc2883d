-- ===== src/Store/AccountQueries.antt =====
-- The queries of users.sql that authentication runs.
use waterloo_star_backend.Common.{
  ℕ, true, false, Bool, ◌&&◌, ◌||◌, none, some, [], ◌∷◌, if◌then◌else◌, ltb, leb, not, length,
}
use waterloo_star_backend.Common.Text.{Text, text_eq, ends_with}
use waterloo_star_backend.Store.Table.{lookup, update, count, find, keep_rows}
use waterloo_star_backend.Store.Rows.{Role, User, Db, no_rows, database}
use waterloo_star_backend.Store.Conn.{Result, ok, err, M, ◌>>=◌, query, draw}
use waterloo_star_backend.Store.Queries.{found, write_user}
use waterloo_star_backend.Store.Sessions.{unless_taken}

-- @uwaterloo.ca
abbrev pub at_uwaterloo : Text
at_uwaterloo = 64 ∷ 117 ∷ 119 ∷ 97 ∷ 116 ∷ 101 ∷ 114 ∷ 108 ∷ 111 ∷ 111 ∷ 46 ∷ 99 ∷ 97 ∷ []

-- email varchar(255), username varchar(32)
unfoldable pub fits_columns : Text → Text → Bool
fits_columns email username = leb (length email) 255 && leb (length username) 32

-- The columns that an INSERT leaves out have their defaults.
abbrev pub new_user : Text → Text → Text → ℕ → User
new_user email username password_hash now = record {
  email = email;
  username = username;
  password_hash = password_hash;
  role = Role.user;
  verified = false;
  suspended_at = none;
  suspended_by = none;
  suspend_reason = none;
  email_notifications = true;
  updated_at = now;
}

abbrev pub insert_user : ℕ → User → Db → Result (ℕ × User) × Db
insert_user id row d = (ok (id, row), record d { users = (id, row) ∷ d.users })

-- Accounts. `lower` is the one of the database.
module _ (lower : Text → Text) where
  unfoldable pub get_user_by_email_sql : Text → ℕ → Db → Result (ℕ × User) × Db
  get_user_by_email_sql email now d =
      found (find (λ u. text_eq (lower u.email) (lower email)) d.users) d

  unfoldable pub get_user_by_email : Text → M (ℕ × User)
  get_user_by_email email = query (get_user_by_email_sql email)

  unfoldable pub count_users_by_email_or_username_sql : Text → Text → ℕ → Db → Result (ℕ × ℕ) × Db
  count_users_by_email_or_username_sql email username now d = (
    ok (
      count (λ u. text_eq (lower u.email) (lower email)) d.users,
      count (λ u. text_eq (lower u.username) (lower username)) d.users,
    ),
    d,
  )

  unfoldable pub count_users_by_email_or_username : Text → Text → M (ℕ × ℕ)
  count_users_by_email_or_username email username =
      query (count_users_by_email_or_username_sql email username)

  -- CHECK (lower(email) LIKE '%@uwaterloo.ca')
  unfoldable pub is_storable : Text → Text → Bool
  is_storable email username = fits_columns email username && ends_with at_uwaterloo (lower email)

  -- Two unique indexes, on lower(email) and on lower(username)
  unfoldable pub is_same_account : Text → Text → User → Bool
  is_same_account email username u =
      text_eq (lower u.email) (lower email) || text_eq (lower u.username) (lower username)

  -- The id is a random UUID, unique as a primary key is.
  unfoldable pub create_user_sql : ℕ → Text → Text → Text → ℕ → Db → Result (ℕ × User) × Db
  create_user_sql id email username password_hash now d =
      if is_storable email username
      then unless_taken (find (is_same_account email username) d.users) d (
          unless_taken (lookup id d.users) d
            (insert_user id (new_user email username password_hash now) d))
      else (err database, d)

  unfoldable pub create_user : Text → Text → Text → M (ℕ × User)
  create_user email username password_hash =
      draw >>= λ id. query (create_user_sql id email username password_hash)

-- UPDATE users SET verified = true WHERE id = $1 RETURNING *
unfoldable pub mark_user_verified_sql : ℕ → ℕ → Db → Result User × Db
mark_user_verified_sql id now d = elim (lookup id d.users) [
  | none ↦ (err no_rows, d)
  | some u ↦ write_user id (record u { verified = true; updated_at = now }) d
]

unfoldable pub mark_user_verified : ℕ → M User
mark_user_verified id = query (mark_user_verified_sql id)

-- UPDATE users SET password_hash = $2 WHERE id = $1
unfoldable pub update_user_password_sql : ℕ → Text → ℕ → Db → Result (Unit {0}) × Db
update_user_password_sql id password_hash now d = elim (lookup id d.users) [
  | none ↦ (ok tt, d)
  | some u ↦ (
    ok tt,
    record d {
      users = update id (record u { password_hash = password_hash; updated_at = now }) d.users;
    },
  )
]

unfoldable pub update_user_password : ℕ → Text → M (Unit {0})
update_user_password id password_hash = query (update_user_password_sql id password_hash)

-- DELETE … WHERE expires_at < now(), of each table of tokens
unfoldable pub delete_expired_tokens_sql : ℕ → Db → Result (Unit {0}) × Db
delete_expired_tokens_sql now d = (
  ok tt,
  record d {
    refresh_tokens = keep_rows (λ t. not (ltb t.expires_at now)) d.refresh_tokens;
    email_verification_tokens =
        keep_rows (λ t. not (ltb t.expires_at now)) d.email_verification_tokens;
    password_reset_tokens = keep_rows (λ t. not (ltb t.expires_at now)) d.password_reset_tokens;
  },
)

unfoldable pub delete_expired_tokens : M (Unit {0})
delete_expired_tokens = query delete_expired_tokens_sql
