-- ===== src/Admin/Takedown.antt =====
-- The changes of internal/db/posts.go: what they have done to either table once they succeed.
use waterloo_star_backend.Common.{
  ℕ, ◌≡◌, inl, inr, Bool, true, false, none, some, [], arith, Option-cases, is_none,
}
use waterloo_star_backend.Common.Text.{Text, trim_space}
use waterloo_star_backend.Store.Table.{Table, lookup, update}
use waterloo_star_backend.Store.Rows.{
  Post, Subject, subject_user, subject_listing, subject_request, Detail, Db,
}
use waterloo_star_backend.Store.Conn.{Conn, ok, ◌>>=◌, pure, throw, no_rows_as, query}
use waterloo_star_backend.Store.Calm.{IsCalm, calm_rules}
use waterloo_star_backend.Store.Queries.{
  remove_row, restore_row, write_row, get_listing_for_owner, get_listing_for_owner_sql,
  get_request_for_owner, get_request_for_owner_sql, remove_listing, remove_listing_sql,
  restore_listing, restore_listing_sql, remove_request, remove_request_sql, restore_request,
  restore_request_sql,
}
use waterloo_star_backend.Admin.Posts.{
  PostOps, listing_ops, request_ops, remove_detail, remove_change, restore_detail, restore_change,
}

-- The table that a subject names. No other subject can be taken down.
abbrev pub posts : Subject → Db → Table Post
posts subject_listing d = d.listings
posts subject_request d = d.requests
posts subject_user d = []

abbrev pub write_post : Subject → ℕ → Post → Db → Db
write_post subject_listing id p d = record d { listings = update id p d.listings }
write_post subject_request id p d = record d { requests = update id p d.requests }
write_post subject_user id p d = d

abbrev pub removed_post : ℕ → Text → ℕ → Post → Post
removed_post actor reason now p = record p {
  removed_at = some now;
  removed_by = some actor;
  removed_reason = some reason;
  updated_at = now;
}

abbrev pub restored_post : ℕ → Post → Post
restored_post now p = record p {
  removed_at = none;
  removed_by = none;
  removed_reason = none;
  updated_at = now;
}

-- Every statement of these changes, open down to the tables.
unfoldable statements : Unit {0}
unfolding get_listing_for_owner get_listing_for_owner_sql get_request_for_owner
    get_request_for_owner_sql remove_listing remove_listing_sql restore_listing restore_listing_sql
    remove_request remove_request_sql restore_request restore_request_sql remove_row restore_row
    write_row listing_ops request_ops ◌>>=◌ pure throw no_rows_as query
statements = tt

-- The operations of a subject that has a table.
abbrev pub table_ops : Bool → PostOps
table_ops true = listing_ops
table_ops false = request_ops

abbrev pub table_subject : Bool → Subject
table_subject true = subject_listing
table_subject false = subject_request

module _ (actor id : ℕ) (reason : Text) where
  remove_change-IsCalm : (b : Bool) → IsCalm (remove_change (table_ops b) actor id reason)
  unfolding remove_change listing_ops request_ops get_listing_for_owner remove_listing
      get_request_for_owner remove_request
  remove_change-IsCalm true = search calm_rules depth 12
  remove_change-IsCalm false = search calm_rules depth 12

  abbrev pub Removes : Subject → Conn → Detail → Conn → Type 0
  Removes s c detail d =
      (p : Post) × (lookup id (posts s c.db) ≡ some p)
      × (p.removed_at ≡ none)
      × (detail ≡ remove_detail p)
      × (d.db ≡ write_post s id (removed_post actor (trim_space reason) c.now p) c.db)
      × (d.now ≡ c.now)

  pub remove_change-eq-ok :
      (b : Bool) (c : Conn) {x : Unit {0}} {detail : Detail} {d : Conn}
      → remove_change (table_ops b) actor id reason c ≡ (ok (x, detail), d)
      → Removes (table_subject b) c detail d
  unfolding remove_change statements
  remove_change-eq-ok true c {x} {detail} {d} h =
      let calmly = (remove_change-IsCalm true).runs c d (x, detail) h in
      elim (Option-cases (lookup id c.db.listings)) [
        | inl absent ↦ absurd (ground arith)
        | inr (p, present) ↦ (p, present, ground arith, ground arith, ground arith, ground arith)
      ]
  remove_change-eq-ok false c {x} {detail} {d} h =
      let calmly = (remove_change-IsCalm false).runs c d (x, detail) h in
      elim (Option-cases (lookup id c.db.requests)) [
        | inl absent ↦ absurd (ground arith)
        | inr (p, present) ↦ (p, present, ground arith, ground arith, ground arith, ground arith)
      ]

module _ (id : ℕ) where
  restore_change-IsCalm : (b : Bool) → IsCalm (restore_change (table_ops b) id)
  unfolding restore_change listing_ops request_ops get_listing_for_owner restore_listing
      get_request_for_owner restore_request
  restore_change-IsCalm true = search calm_rules depth 12
  restore_change-IsCalm false = search calm_rules depth 12

  abbrev pub Restores : Subject → Conn → Detail → Conn → Type 0
  Restores s c detail d =
      (p : Post) × (lookup id (posts s c.db) ≡ some p)
      × (is_none p.removed_at ≡ false)
      × (detail ≡ restore_detail p)
      × (d.db ≡ write_post s id (restored_post c.now p) c.db)
      × (d.now ≡ c.now)

  pub restore_change-eq-ok :
      (b : Bool) (c : Conn) {x : Unit {0}} {detail : Detail} {d : Conn}
      → restore_change (table_ops b) id c ≡ (ok (x, detail), d)
      → Restores (table_subject b) c detail d
  unfolding restore_change statements
  restore_change-eq-ok true c {x} {detail} {d} h =
      let calmly = (restore_change-IsCalm true).runs c d (x, detail) h in
      elim (Option-cases (lookup id c.db.listings)) [
        | inl absent ↦ absurd (ground arith)
        | inr (p, present) ↦ (p, present, ground arith, ground arith, ground arith, ground arith)
      ]
  restore_change-eq-ok false c {x} {detail} {d} h =
      let calmly = (restore_change-IsCalm false).runs c d (x, detail) h in
      elim (Option-cases (lookup id c.db.requests)) [
        | inl absent ↦ absurd (ground arith)
        | inr (p, present) ↦ (p, present, ground arith, ground arith, ground arith, ground arith)
      ]
