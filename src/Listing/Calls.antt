-- ===== src/Listing/Calls.antt =====
-- Any sequence of owners' calls, by anybody: what it keeps of a post.
use waterloo_star_backend.Common.{
  ℕ, ◌≡◌, refl, sym, ap, ◌∙◌, ◌⊎◌, inl, inr, true, false, ◌&&◌, Option, none, some, List, [], ◌∷◌,
  arith, ◌==◌, if◌then◌else◌, is_none, Bool-cases,
}
use waterloo_star_backend.Common.Text.{Text, text_eq, text_eq→eq}
use waterloo_star_backend.Store.Table.{Table, lookup, update, lookup-update}
use waterloo_star_backend.Store.Rows.{Post, Db}
use waterloo_star_backend.Store.Conn.{Conn}
use waterloo_star_backend.Handlers.Replies.{Principal}
use waterloo_star_backend.Listing.Validate.{published, archived}
use waterloo_star_backend.Listing.Status.{
  Kind, listing_kind, request_kind, table_of, put_table, with_status, allowed_transitions,
  contains_text, set_listing_status, set_request_status, delete_listing, delete_request,
}
use waterloo_star_backend.Listing.Lifecycle.{is_move}
use waterloo_star_backend.Listing.Moves.{Moved, set_post_status-Moved, delete_post-Moved}

pub data OwnerCall : Type 0 where
  setting : Kind → Option Principal → ℕ → Option Text → OwnerCall
  deleting : Kind → Option Principal → ℕ → OwnerCall

unfoldable pub serve : OwnerCall → Conn → Conn
serve (setting listing_kind asked id body) c = (set_listing_status asked id body c).1
serve (setting request_kind asked id body) c = (set_request_status asked id body c).1
serve (deleting listing_kind asked id) c = (delete_listing asked id c).1
serve (deleting request_kind asked id) c = (delete_request asked id c).1

unfoldable pub serve_all : List OwnerCall → Conn → Conn
serve_all [] c = c
serve_all (call ∷ calls) c = serve_all calls (serve call c)

-- A later state of a post: the same owner, the takedown as it was, the time of the first
-- publication kept, and the row itself if the post was archived or taken down.
abbrev pub Follows : Post → Post → Type 0
Follows p p' =
    (p'.owner_id ≡ p.owner_id)
    × (p'.removed_at ≡ p.removed_at)
    × (p'.removed_by ≡ p.removed_by)
    × (p'.removed_reason ≡ p.removed_reason)
    × ((p.published_at ≡ none) ⊎ (p'.published_at ≡ p.published_at))
    × ((p' ≡ p) ⊎ ((text_eq p.status archived ≡ false) × (p.removed_at ≡ none)))

Follows-refl : (p : Post) → Follows p p
Follows-refl p = (refl, refl, refl, refl, inr refl, inl refl)

Follows-trans : (p q r : Post) → Follows p q → Follows q r → Follows p r
Follows-trans p q r (own, at, by, why, first, still) (own', at', by', why', first', still') =
    (own' ∙ own, at' ∙ at, by' ∙ by, why' ∙ why, since first first', fixed still still')
  where
    since :
        (p.published_at ≡ none) ⊎ (q.published_at ≡ p.published_at)
        → (q.published_at ≡ none) ⊎ (r.published_at ≡ q.published_at)
        → (p.published_at ≡ none) ⊎ (r.published_at ≡ p.published_at)
    since (inl h) k = inl h
    since (inr h) (inl k) = inl (sym h ∙ k)
    since (inr h) (inr k) = inr (k ∙ h)

    fixed :
        (q ≡ p) ⊎ ((text_eq p.status archived ≡ false) × (p.removed_at ≡ none))
        → (r ≡ q) ⊎ ((text_eq q.status archived ≡ false) × (q.removed_at ≡ none))
        → (r ≡ p) ⊎ ((text_eq p.status archived ≡ false) × (p.removed_at ≡ none))
    fixed (inr h) k = inr h
    fixed (inl h) (inl k) = inl (k ∙ h)
    fixed (inl h) (inr (live, visible)) = inr (
      sym (ap (λ (x : Post). text_eq x.status archived) h) ∙ live,
      sym (ap (λ (x : Post). x.removed_at) h) ∙ visible,
    )

is_move-archived : (want : Text) → is_move archived want ≡ false
unfolding allowed_transitions contains_text text_eq
is_move-archived want = ground arith

-- A move is a step of the lifecycle.
with_status-Follows :
    (want : Text) (now : ℕ) (p : Post)
    → p.removed_at ≡ none
    → is_move p.status want ≡ true
    → Follows p (with_status want now p)
with_status-Follows want now p visible moves =
    (refl, refl, refl, refl, first p.published_at, inr (live, visible))
  where
    first :
        (at : Option ℕ)
        → (at ≡ none) ⊎ ((if text_eq want published && is_none at then some now else at) ≡ at)
    first none = inl refl
    first (some x) = inr (ground arith)

    live : text_eq p.status archived ≡ false
    live = elim (Bool-cases (text_eq p.status archived)) [
      | inl final ↦
          absurd
            (let e = text_eq→eq p.status archived final in let bad = is_move-archived want in cc)
      | inr other ↦ other
    ]

updated :
    (id j : ℕ) (x a p : Post) (t : Table Post)
    → lookup id t ≡ some x
    → lookup j t ≡ some p
    → Follows x a
    → (p' : Post) × (lookup j (update id a t) ≡ some p') × Follows p p'
updated id j x a p t found there follows = elim (Bool-cases (id == j)) [
  | inl here ↦
      let e : id ≡ j = ground arith in
      let same : x ≡ p = cc in
      (a, lookup-update id j a x t found ∙ rw here refl, rw (sym same) follows)
  | inr elsewhere ↦ (p, lookup-update id j a x t found ∙ rw elsewhere there, Follows-refl p)
]

Moved-Follows :
    (k kind : Kind) (asked : Option Principal) (id j : ℕ) (c : Conn) (d : Db) (p : Post)
    → Moved k asked id c d
    → lookup j (table_of kind c.db) ≡ some p
    → (p' : Post) × (lookup j (table_of kind d) ≡ some p') × Follows p p'
Moved-Follows k kind asked id j c d p (inl same) there =
    (p, ap (λ x. lookup j (table_of kind x)) same ∙ there, Follows-refl p)
Moved-Follows k kind asked id j c d p (inr (x, want, (q, who, found, mine, visible), moves, wrote))
      there =
    let a = with_status want c.now x in
    let (p', now_there, follows) = go k kind found there in
    (p', ap (λ y. lookup j (table_of kind y)) wrote ∙ now_there, follows)
  where
    go :
        (k kind : Kind)
        → lookup id (table_of k c.db) ≡ some x
        → lookup j (table_of kind c.db) ≡ some p
        → (p' : Post) × (lookup j (
              table_of kind
                (put_table k (update id (with_status want c.now x) (table_of k c.db)) c.db))
            ≡ some p')
          × Follows p p'
    go listing_kind listing_kind found there =
        updated id j x _ p c.db.listings found there
          (with_status-Follows want c.now x visible moves)
    go request_kind request_kind found there =
        updated id j x _ p c.db.requests found there
          (with_status-Follows want c.now x visible moves)
    go listing_kind request_kind found there = (p, there, Follows-refl p)
    go request_kind listing_kind found there = (p, there, Follows-refl p)

serve-Follows :
    (call : OwnerCall) (c : Conn) (kind : Kind) (id : ℕ) (p : Post)
    → lookup id (table_of kind c.db) ≡ some p
    → (p' : Post) × (lookup id (table_of kind (serve call c).db) ≡ some p') × Follows p p'
unfolding serve set_listing_status set_request_status delete_listing delete_request
serve-Follows (setting listing_kind asked i body) c kind id p there =
    Moved-Follows listing_kind kind asked i id c _ p
      (set_post_status-Moved listing_kind asked i body c) there
serve-Follows (setting request_kind asked i body) c kind id p there =
    Moved-Follows request_kind kind asked i id c _ p
      (set_post_status-Moved request_kind asked i body c) there
serve-Follows (deleting listing_kind asked i) c kind id p there =
    Moved-Follows listing_kind kind asked i id c _ p (delete_post-Moved listing_kind asked i c)
      there
serve-Follows (deleting request_kind asked i) c kind id p there =
    Moved-Follows request_kind kind asked i id c _ p (delete_post-Moved request_kind asked i c)
      there

-- Whatever status changes and deletions are asked for, by anybody and in any order, and whatever
-- statements fail, a post stays in its table with its owner and its takedown; the time of its
-- first publication never moves; and a post that is archived, or taken down by a moderator,
-- stays exactly as it is.
pub serve_all-Follows :
    (calls : List OwnerCall) (c : Conn) (kind : Kind) (id : ℕ) (p : Post)
    → lookup id (table_of kind c.db) ≡ some p
    → (p' : Post) × (lookup id (table_of kind (serve_all calls c).db) ≡ some p') × Follows p p'
unfolding serve_all
serve_all-Follows [] c kind id p there = (p, there, Follows-refl p)
serve_all-Follows (call ∷ calls) c kind id p there =
    let (q, then_there, follows) = serve-Follows call c kind id p there in
    let (r, at_last, follows') = serve_all-Follows calls (serve call c) kind id q then_there in
    (r, at_last, Follows-trans p q r follows follows')
