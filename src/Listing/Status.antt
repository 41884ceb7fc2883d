-- ===== src/Listing/Status.antt =====
-- The status of a post, set by its owner: SetListingStatus, DeleteListing and ownedListing of
-- internal/httpapi/listings_write.go, and the same three of requests_write.go.
use waterloo_star_backend.Common.{
  ℕ, ◌⊎◌, inl, inr, Bool, false, ◌&&◌, ◌||◌, Option, none, some, List, [], ◌∷◌, ◌==◌, if◌then◌else◌,
  is_none,
}
use waterloo_star_backend.Common.Text.{Text, text_eq}
use waterloo_star_backend.Store.Table.{Table, lookup, update}
use waterloo_star_backend.Store.Rows.{Post, Db, no_rows}
use waterloo_star_backend.Store.Conn.{Result, ok, err, M, ◌>>=◌, ◌>>◌, pure, query}
use waterloo_star_backend.Store.Queries.{
  get_user_by_id, get_listing_for_owner, get_request_for_owner,
}
use waterloo_star_backend.Handlers.Replies.{Principal, attempt}
use waterloo_star_backend.Handlers.AdminPosts.{read_others}
use waterloo_star_backend.Listing.Validate.{draft, published, paused, archived}

pub data Kind : Type 0 where
  listing_kind request_kind : Kind

abbrev pub table_of : Kind → Db → Table Post
table_of listing_kind d = d.listings
table_of request_kind d = d.requests

abbrev pub put_table : Kind → Table Post → Db → Db
put_table listing_kind t d = record d { listings = t }
put_table request_kind t d = record d { requests = t }

unfoldable pub get_for_owner : Kind → ℕ → M Post
unfolding get_listing_for_owner get_request_for_owner
get_for_owner listing_kind id = get_listing_for_owner id
get_for_owner request_kind id = get_request_for_owner id

-- SET status = $1, published_at = CASE WHEN $1 = 'published' AND published_at IS NULL THEN now() …
abbrev pub with_status : Text → ℕ → Post → Post
with_status want now p = record p {
  status = want;
  updated_at = now;
  published_at =
      if text_eq want published && is_none p.published_at then some now else p.published_at;
}

unfoldable pub set_status_sql : Kind → ℕ → Text → ℕ → Db → Result Post × Db
unfolding text_eq
set_status_sql kind id want now d = elim (lookup id (table_of kind d)) [
  | none ↦ (err no_rows, d)
  | some p ↦ (
    ok (with_status want now p),
    put_table kind (update id (with_status want now p) (table_of kind d)) d,
  )
]

unfoldable pub set_status : Kind → ℕ → Text → M Post
set_status kind id want = query (set_status_sql kind id want)

-- `refusal`: 401, 404, or 409 with the moderator's reason.
pub data Refusal : Type 0 where
  unauthorised no_post : Refusal
  taken_down : Option Text → Refusal

abbrev pub own : Principal → Post → Refusal ⊎ Post
own q p =
    if p.owner_id == q.user_id
    then (if is_none p.removed_at then inr p else inl (taken_down p.removed_reason))
    else inl no_post

-- Any error of the query is "no such post" to the caller.
unfoldable pub owned : Kind → Option Principal → ℕ → M (Refusal ⊎ Post)
unfolding get_for_owner
owned kind none id = pure (inl unauthorised)
owned kind (some q) id = do
  r ← attempt (get_for_owner kind id)
  pure (elim r [ ok p ↦ own q p | err e ↦ inl no_post ])

-- A status, and the post with 200. `not_allowed` names the two statuses.
pub data Reply : Type 0 where
  refused_owner : Refusal → Reply
  status_required deleted : Reply
  not_allowed : Text → Text → Reply
  post_with : Post → Reply

-- The owner and the photos, or the number of offers, go with the row; an error of either query
-- leaves them out.
unfoldable pub post_response : Post → M Reply
unfolding get_user_by_id
post_response row = do
  attempt (get_user_by_id row.owner_id)
  attempt read_others
  pure (post_with row)

-- `archived` has no entry.
unfoldable pub allowed_transitions : Text → List Text
unfolding text_eq
allowed_transitions s =
    if text_eq s draft
    then published ∷ archived ∷ []
    else if text_eq s published
    then paused ∷ archived ∷ []
    else if text_eq s paused
    then published ∷ archived ∷ []
    else []

unfoldable pub contains_text : List Text → Text → Bool
unfolding text_eq
contains_text [] needle = false
contains_text (v ∷ haystack) needle = text_eq v needle || contains_text haystack needle

-- The part of the handler that has its post.
unfoldable pub move : Kind → ℕ → Post → Text → M Reply
unfolding set_status post_response allowed_transitions contains_text
move kind id existing want =
    if text_eq want existing.status
    then post_response existing
    else if contains_text (allowed_transitions existing.status) want
    then (set_status kind id want >>= post_response)
    else pure (not_allowed existing.status want)

unfoldable pub set_post_status : Kind → Option Principal → ℕ → Option Text → M Reply
unfolding owned move
set_post_status kind asked id body = do
  r ← owned kind asked id
  elim r [
    | inl refusal ↦ pure (refused_owner refusal)
    | inr existing ↦ elim body [
      | none ↦ pure status_required
      | some want ↦ move kind id existing want
    ]
  ]

-- Archive rather than remove.
unfoldable pub archive : Kind → ℕ → Post → M Reply
unfolding set_status text_eq
archive kind id existing =
    if text_eq existing.status archived
    then pure deleted
    else (set_status kind id archived >> pure deleted)

unfoldable pub delete_post : Kind → Option Principal → ℕ → M Reply
unfolding owned archive
delete_post kind asked id = do
  r ← owned kind asked id
  elim r [ inl refusal ↦ pure (refused_owner refusal) | inr existing ↦ archive kind id existing ]

-- The four handlers.
unfoldable pub set_listing_status : Option Principal → ℕ → Option Text → M Reply
unfolding set_post_status
set_listing_status = set_post_status listing_kind

unfoldable pub set_request_status : Option Principal → ℕ → Option Text → M Reply
unfolding set_post_status
set_request_status = set_post_status request_kind

unfoldable pub delete_listing : Option Principal → ℕ → M Reply
unfolding delete_post
delete_listing = delete_post listing_kind

unfoldable pub delete_request : Option Principal → ℕ → M Reply
unfolding delete_post
delete_request = delete_post request_kind

-- `statusRefusal`: a conflict first, then a missing session, and 404 for the rest
abbrev pub refusal_status : Refusal → ℕ
refusal_status (taken_down reason) = 409
refusal_status unauthorised = 401
refusal_status no_post = 404
