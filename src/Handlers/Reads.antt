-- ===== src/Handlers/Reads.antt =====
-- The statements that a handler reads a row back with change nothing.
use waterloo_star_backend.Common.{
  ℕ, ◌≡◌, refl, ◌∙◌, Bool, true, false, Option, none, some, List, [], ◌∷◌,
}
use waterloo_star_backend.Store.Table.{lookup}
use waterloo_star_backend.Store.Rows.{Db}
use waterloo_star_backend.Store.Conn.{Conn, Result, ok, err, M, ◌>>=◌, pure, query}
use waterloo_star_backend.Store.Queries.{
  found, get_user_by_id, get_user_by_id_sql, get_listing_for_owner, get_listing_for_owner_sql,
  get_request_for_owner, get_request_for_owner_sql,
}
use waterloo_star_backend.Handlers.Replies.{attempt}
use waterloo_star_backend.Handlers.AdminAccounts.{get_user_for_admin, get_user_for_admin_sql}
use waterloo_star_backend.Handlers.AdminPosts.{read_others, admin_listing, admin_request}

pub record Reads {A : Type 0} (m : M A) : Type 0 where
  pub keeps : (c : Conn) → (m c).1.db ≡ c.db

module _ {A : Type 0} where
  pub pure-Reads : (a : A) → Reads (pure a)
  unfolding pure
  pure-Reads a = record { keeps = λ c. refl }

  pub query-Reads :
      (f : ℕ → Db → Result A × Db) → ((now : ℕ) (d : Db) → (f now d).1 ≡ d) → Reads (query f)
  unfolding query
  query-Reads f h = record { keeps = λ c. go c c.faults }
    where
      go : (c : Conn) (faults : List Bool) → (query f (record c { faults = faults })).1.db ≡ c.db
      go c [] = h c.now c.db
      go c (true ∷ rest) = refl
      go c (false ∷ rest) = h c.now c.db

  pub >>=-Reads :
      {B : Type 0} (m : M A) (f : A → M B) → Reads m → ((a : A) → Reads (f a)) → Reads (m >>= f)
  unfolding ◌>>=◌
  >>=-Reads {B} m f k l = record { keeps = λ c. go (m c) ∙ k.keeps c }
    where
      go : (p : Result A × Conn) → (◌>>=◌ (λ _. p) f p.1).1.db ≡ p.1.db
      go (ok a, c') = (l a).keeps c'
      go (err e, c') = refl

  found-snd : (o : Option A) (d : Db) → (found o d).1 ≡ d
  found-snd none d = refl
  found-snd (some a) d = refl

  pub attempt-Reads : (m : M A) → Reads m → Reads (attempt m)
  unfolding attempt
  attempt-Reads m k = record { keeps = λ c. k.keeps c }

  -- After a statement, code that only reads leaves what the statement left.
  pub seq-Reads :
      {B : Type 0} (m : M A) (f : A → M B) (c : Conn)
      → ((a : A) → Reads (f a))
      → ((m >>= f) c).1.db ≡ (m c).1.db
  unfolding ◌>>=◌
  seq-Reads {B} m f c l = go (m c)
    where
      go : (p : Result A × Conn) → (◌>>=◌ (λ _. p) f p.1).1.db ≡ p.1.db
      go (ok a, c') = (l a).keeps c'
      go (err e, c') = refl

pub ruleset reads_rules = (pure-Reads, query-Reads, >>=-Reads, attempt-Reads)

pub get_user_by_id-Reads : (id : ℕ) → Reads (get_user_by_id id)
unfolding get_user_by_id get_user_by_id_sql
get_user_by_id-Reads id =
    query-Reads (get_user_by_id_sql id) (λ now d. found-snd (lookup id d.users) d)

get_listing_for_owner-Reads : (id : ℕ) → Reads (get_listing_for_owner id)
unfolding get_listing_for_owner get_listing_for_owner_sql
get_listing_for_owner-Reads id =
    query-Reads (get_listing_for_owner_sql id) (λ now d. found-snd (lookup id d.listings) d)

get_request_for_owner-Reads : (id : ℕ) → Reads (get_request_for_owner id)
unfolding get_request_for_owner get_request_for_owner_sql
get_request_for_owner-Reads id =
    query-Reads (get_request_for_owner_sql id) (λ now d. found-snd (lookup id d.requests) d)

pub read_others-Reads : Reads read_others
read_others-Reads = query-Reads (λ now d. (ok tt, d)) (λ now d. refl)

pub get_user_for_admin-Reads : (id : ℕ) → Reads (get_user_for_admin id)
unfolding get_user_for_admin get_user_for_admin_sql
get_user_for_admin-Reads id =
    query-Reads (get_user_for_admin_sql id) (λ now d. found-snd (lookup id d.users) d)

pub admin_listing-Reads : (id : ℕ) → Reads (admin_listing id)
unfolding admin_listing
admin_listing-Reads id =
    search (reads_rules, get_user_by_id-Reads, get_listing_for_owner-Reads, read_others-Reads) depth
      12

pub admin_request-Reads : (id : ℕ) → Reads (admin_request id)
unfolding admin_request
admin_request-Reads id =
    search (reads_rules, get_user_by_id-Reads, get_request_for_owner-Reads, read_others-Reads) depth
      12
