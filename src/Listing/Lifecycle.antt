-- ===== src/Listing/Lifecycle.antt =====
-- What an owner's calls may do to a post.
use waterloo_star_backend.Common.{
  ℕ, ◌≡◌, refl, sym, ◌⊎◌, inl, inr, Bool, true, false, ◌&&◌, ◌||◌, not, Option, none, some, List,
  [], ◌∷◌, arith, ◌==◌, Bool-cases, Option-cases,
}
use waterloo_star_backend.Common.Text.{Text, text_eq}
use waterloo_star_backend.Store.Table.{lookup, update}
use waterloo_star_backend.Store.Rows.{Post, Db}
use waterloo_star_backend.Store.Conn.{Conn, Result, ok, err, ◌>>=◌, pure, query}
use waterloo_star_backend.Store.Queries.{
  found, get_listing_for_owner, get_listing_for_owner_sql, get_request_for_owner,
  get_request_for_owner_sql,
}
use waterloo_star_backend.Handlers.Replies.{Principal, attempt}
use waterloo_star_backend.Listing.Validate.{archived}
use waterloo_star_backend.Listing.Status.{
  Kind, listing_kind, request_kind, table_of, put_table, get_for_owner, with_status, set_status,
  set_status_sql, Refusal, own, owned, allowed_transitions, contains_text, no_post,
}

-- An owner's statement, on a row that is in the table: it fails, or writes the row.
abbrev pub Wrote : Kind → ℕ → Text → Post → Conn → Db → Type 0
Wrote kind id want p c d =
    (d ≡ c.db)
    ⊎ (d ≡ put_table kind (update id (with_status want c.now p) (table_of kind c.db)) c.db)

set_status_sql-present :
    (kind : Kind) (id : ℕ) (want : Text) (now : ℕ) (p : Post) (d : Db)
    → lookup id (table_of kind d) ≡ some p
    → (set_status_sql kind id want now d).1
      ≡ put_table kind (update id (with_status want now p) (table_of kind d)) d
unfolding set_status_sql
set_status_sql-present kind id want now p d h = ground arith

pub set_status-Wrote :
    (kind : Kind) (id : ℕ) (want : Text) (p : Post) (c : Conn)
    → lookup id (table_of kind c.db) ≡ some p
    → Wrote kind id want p c (set_status kind id want c).1.db
unfolding set_status query
set_status-Wrote kind id want p c present = go c.faults
  where
    go :
        (faults : List Bool)
        → Wrote kind id want p c (set_status kind id want (record c { faults = faults })).1.db
    go [] = inr (set_status_sql-present kind id want c.now p c.db present)
    go (true ∷ rest) = inl refl
    go (false ∷ rest) = inr (set_status_sql-present kind id want c.now p c.db present)

-- What an owner's call may have done: nothing, or a move of the status of a post of the caller
-- that is not taken down.
abbrev pub is_move : Text → Text → Bool
is_move from want =
    contains_text (allowed_transitions from) want
    || (text_eq want archived && not (text_eq from archived))

abbrev pub Owns : Kind → Option Principal → ℕ → Conn → Post → Type 0
Owns kind asked id c p =
    (q : Principal) × (asked ≡ some q)
    × (lookup id (table_of kind c.db) ≡ some p)
    × ((p.owner_id == q.user_id) ≡ true)
    × (p.removed_at ≡ none)

-- `owned` changes nothing, and resolves to a post of the caller that is not taken down.
abbrev pub Resolved : Kind → Option Principal → ℕ → Conn → Result (Refusal ⊎ Post) × Conn → Type 0
Resolved kind asked id c (r, d) =
    (d.db ≡ c.db) × (d.now ≡ c.now) × ((p : Post) → r ≡ ok (inr p) → Owns kind asked id c p)

query-found :
    (o : Db → Option Post) (c : Conn)
    → let (r, d) = query (λ now x. found (o x) x) c in
      (d.db ≡ c.db) × (d.now ≡ c.now) × ((p : Post) → r ≡ ok p → o c.db ≡ some p)
unfolding query
query-found o c = go c.faults
  where
    settled :
        (x : Option Post)
        → ((found x c.db).1 ≡ c.db) × ((p : Post) → (found x c.db).0 ≡ ok p → x ≡ some p)
    settled none = (refl, λ p h. absurd (cc))
    settled (some a) = (refl, λ p h. cc)

    go :
        (faults : List Bool)
        → let (r, d) = query (λ now x. found (o x) x) (record c { faults = faults }) in
          (d.db ≡ c.db) × (d.now ≡ c.now) × ((p : Post) → r ≡ ok p → o c.db ≡ some p)
    go [] = let (same, there) = settled (o c.db) in (same, refl, there)
    go (true ∷ rest) = (refl, refl, λ p h. absurd (cc))
    go (false ∷ rest) = let (same, there) = settled (o c.db) in (same, refl, there)

abbrev Found : Kind → ℕ → Conn → Result Post × Conn → Type 0
Found kind id c (r, d) =
    (d.db ≡ c.db)
    × (d.now ≡ c.now)
    × ((p : Post) → r ≡ ok p → lookup id (table_of kind c.db) ≡ some p)

get_for_owner-Found : (kind : Kind) (id : ℕ) (c : Conn) → Found kind id c (get_for_owner kind id c)
unfolding get_for_owner get_listing_for_owner get_listing_for_owner_sql get_request_for_owner
    get_request_for_owner_sql
get_for_owner-Found listing_kind id c = query-found (λ d. lookup id d.listings) c
get_for_owner-Found request_kind id c = query-found (λ d. lookup id d.requests) c

own-inr :
    (q : Principal) (p x : Post)
    → own q p ≡ inr x
    → (p ≡ x) × ((x.owner_id == q.user_id) ≡ true) × (x.removed_at ≡ none)
own-inr q p x h = elim (Bool-cases (p.owner_id == q.user_id)) [
  | inl mine ↦ elim (Option-cases p.removed_at) [
    | inl visible ↦ let e : p ≡ x = ground arith in (e, rw (sym e) mine, rw (sym e) visible)
    | inr (at, hidden) ↦ absurd (ground arith)
  ]
  | inr other ↦ absurd (ground arith)
]

pub owned-Resolved :
    (kind : Kind) (asked : Option Principal) (id : ℕ) (c : Conn)
    → Resolved kind asked id c (owned kind asked id c)
unfolding owned attempt ◌>>=◌ pure
owned-Resolved kind none id c = (refl, refl, λ p h. absurd (cc))
owned-Resolved kind (some q) id c = go (get_for_owner kind id c) (get_for_owner-Found kind id c)
  where
    go :
        (r : Result Post × Conn)
        → Found kind id c r
        → Resolved kind (some q) id c (ok (elim r.0 [ ok p ↦ own q p | err e ↦ inl no_post ]), r.1)
    go (err e, d) (same, at, there) = (same, at, λ p h. absurd (cc))
    go (ok p, d) (same, at, there) = (
      same,
      at,
      λ x h.
          let mine : own q p ≡ inr x = cc in
          let (e, owner, visible) = own-inr q p x mine in
          (q, refl, rw (sym e) (there p refl), owner, visible),
    )
