-- ===== src/Store/Sessions.antt =====
-- The queries of sessions and accounts: tokens.sql, and those of users.sql that authentication
-- runs. A table of tokens has the hash as its primary key.
use waterloo_star_backend.Common.{
  ℕ, Bool, ◌&&◌, Option, none, some, ◌∷◌, ◌==◌, if◌then◌else◌, is_none, ltb,
}
use waterloo_star_backend.Store.Table.{Table, lookup, update, update_all}
use waterloo_star_backend.Store.Rows.{User, RefreshToken, LinkToken, Db, unique_violation, database}
use waterloo_star_backend.Store.Conn.{Result, ok, err, M, query}
use waterloo_star_backend.Store.Queries.{found}

-- WHERE token_hash = $1 AND revoked_at IS NULL AND expires_at > now()
unfoldable pub is_live_session : ℕ → RefreshToken → Bool
is_live_session now t = is_none t.revoked_at && ltb now t.expires_at

abbrev pub only_if : {A : Type 0} → (A → Bool) → Option A → Option A
only_if p none = none
only_if p (some a) = if p a then some a else none

unfoldable pub get_live_refresh_token_sql : ℕ → ℕ → Db → Result RefreshToken × Db
get_live_refresh_token_sql token_hash now d =
    found (only_if (is_live_session now) (lookup token_hash d.refresh_tokens)) d

unfoldable pub get_live_refresh_token : ℕ → M RefreshToken
get_live_refresh_token token_hash = query (get_live_refresh_token_sql token_hash)

-- A foreign key to a user
abbrev pub if_user : {A : Type 0} → Option User → Db → Result A × Db → Result A × Db
if_user none d r = (err database, d)
if_user (some _) d r = r

-- A unique index
abbrev pub unless_taken : {A B : Type 0} → Option B → Db → Result A × Db → Result A × Db
unless_taken none d r = r
unless_taken (some _) d r = (err unique_violation, d)

unfoldable pub create_refresh_token_sql : ℕ → ℕ → ℕ → ℕ → Db → Result (Unit {0}) × Db
create_refresh_token_sql token_hash user_id expires_at now d =
    let row : RefreshToken = record {
      user_id = user_id;
      expires_at = expires_at;
      revoked_at = none;
    } in
    if_user (lookup user_id d.users) d (
      unless_taken (lookup token_hash d.refresh_tokens) d
        (ok tt, record d { refresh_tokens = (token_hash, row) ∷ d.refresh_tokens }))

unfoldable pub create_refresh_token : ℕ → ℕ → ℕ → M (Unit {0})
create_refresh_token token_hash user_id expires_at =
    query (create_refresh_token_sql token_hash user_id expires_at)

-- SET revoked_at = now() WHERE token_hash = $1 AND revoked_at IS NULL
unfoldable pub revoke_at : ℕ → ℕ → Table RefreshToken → Table RefreshToken
revoke_at token_hash now t = elim (lookup token_hash t) [
  | none ↦ t
  | some r ↦
      if is_none r.revoked_at then update token_hash (record r { revoked_at = some now }) t else t
]

unfoldable pub revoke_refresh_token_sql : ℕ → ℕ → Db → Result (Unit {0}) × Db
revoke_refresh_token_sql token_hash now d =
    (ok tt, record d { refresh_tokens = revoke_at token_hash now d.refresh_tokens })

unfoldable pub revoke_refresh_token : ℕ → M (Unit {0})
revoke_refresh_token token_hash = query (revoke_refresh_token_sql token_hash)

-- The tokens of links: one set of statements on two tables.
unfoldable pub is_live_link : ℕ → LinkToken → Bool
is_live_link now t = is_none t.consumed_at && ltb now t.expires_at

-- SET consumed_at = now() WHERE user_id = $1 AND consumed_at IS NULL
unfoldable pub consume_if : ℕ → ℕ → LinkToken → LinkToken
consume_if user_id now t =
    if t.user_id == user_id && is_none t.consumed_at then record t { consumed_at = some now } else t

-- SET consumed_at = now() WHERE token_hash = $1 AND consumed_at IS NULL
unfoldable pub consume_at : ℕ → ℕ → Table LinkToken → Table LinkToken
consume_at token_hash now t = elim (lookup token_hash t) [
  | none ↦ t
  | some r ↦
      if is_none r.consumed_at then update token_hash (record r { consumed_at = some now }) t else t
]

pub data Link : Type 0 where
  verification reset : Link

unfoldable pub links : Link → Db → Table LinkToken
links verification d = d.email_verification_tokens
links reset d = d.password_reset_tokens

unfoldable pub set_links : Link → Table LinkToken → Db → Db
set_links verification t d = record d { email_verification_tokens = t }
set_links reset t d = record d { password_reset_tokens = t }

unfoldable pub get_live_link_sql : Link → ℕ → ℕ → Db → Result LinkToken × Db
get_live_link_sql l token_hash now d =
    found (only_if (is_live_link now) (lookup token_hash (links l d))) d

unfoldable pub get_live_link : Link → ℕ → M LinkToken
get_live_link l token_hash = query (get_live_link_sql l token_hash)

unfoldable pub create_link_sql : Link → ℕ → ℕ → ℕ → ℕ → Db → Result (Unit {0}) × Db
create_link_sql l token_hash user_id expires_at now d =
    let row : LinkToken = record {
      user_id = user_id;
      expires_at = expires_at;
      consumed_at = none;
    } in
    if_user (lookup user_id d.users) d (
      unless_taken (lookup token_hash (links l d)) d
        (ok tt, set_links l ((token_hash, row) ∷ links l d) d))

unfoldable pub create_link : Link → ℕ → ℕ → ℕ → M (Unit {0})
create_link l token_hash user_id expires_at =
    query (create_link_sql l token_hash user_id expires_at)

unfoldable pub consume_link_sql : Link → ℕ → ℕ → Db → Result (Unit {0}) × Db
consume_link_sql l token_hash now d = (ok tt, set_links l (consume_at token_hash now (links l d)) d)

unfoldable pub consume_link : Link → ℕ → M (Unit {0})
consume_link l token_hash = query (consume_link_sql l token_hash)

unfoldable pub consume_all_links_sql : Link → ℕ → ℕ → Db → Result (Unit {0}) × Db
consume_all_links_sql l user_id now d =
    (ok tt, set_links l (update_all (consume_if user_id now) (links l d)) d)

unfoldable pub consume_all_links : Link → ℕ → M (Unit {0})
consume_all_links l user_id = query (consume_all_links_sql l user_id)
