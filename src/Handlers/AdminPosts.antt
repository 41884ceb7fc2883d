-- ===== src/Handlers/AdminPosts.antt =====
-- internal/httpapi/admin_posts.go: take a post down and restore it, over HTTP.
use Prim.Native.String.{String}
use waterloo_star_backend.Common.{
  ℕ, Bool, true, false, ◌&&◌, Option, none, some, [], ◌∷◌, ◌==◌, ltb, if◌then◌else◌, length,
  is_none,
}
use waterloo_star_backend.Common.Text.{Text, trim_space}
use waterloo_star_backend.Store.Rows.{
  User, Post, subject_listing, subject_request, Error, no_rows, already_removed, not_removed,
}
use waterloo_star_backend.Store.Conn.{ok, err, M, ◌>>=◌, ◌>>◌, pure, throw, query, TxRunner}
use waterloo_star_backend.Store.Queries.{
  get_user_by_id, get_listing_for_owner, get_request_for_owner,
}
use waterloo_star_backend.Admin.Posts.{remove_post, restore_post}
use waterloo_star_backend.Handlers.Replies.{
  Code, ErrorBody, zero_body, error_body, field_body, Response, shown, Principal, require_admin,
  admit, attempt, Outcome, refusal_of,
}
use waterloo_star_backend.Handlers.AdminAccounts.{min_reason_length, drop}

abbrev pub post_error : ℕ → ErrorBody → Outcome
post_error status body = record { status = status; body = body }

unfoldable pub post_refusal : String → Error → Option Outcome
post_refusal kind no_rows =
    some (post_error 404 (error_body Code.not_found ("No " ∷ kind ∷ " with that id." ∷ [])))
post_refusal kind already_removed =
    some
      (post_error 409 (error_body Code.conflict ("That " ∷ kind ∷ " is already taken down." ∷ [])))
post_refusal kind not_removed =
    some (post_error 409 (error_body Code.conflict ("That " ∷ kind ∷ " is not taken down." ∷ [])))
post_refusal kind _ = none

-- `text := ""; if reason != nil { text = strings.TrimSpace(*reason) }`
abbrev pub trimmed_or_empty : Option Text → Text
trimmed_or_empty none = []
trimmed_or_empty (some reason) = trim_space reason

unfoldable pub post_action : String → Option Text → Bool → (Text → M (Unit {0})) → M Outcome
unfolding post_refusal
post_action kind reason required act =
    let text = trimmed_or_empty reason in
    let n = length text in
    if required && is_none reason
    then pure (post_error 400 (error_body Code.bad_request ("A JSON body is required." ∷ [])))
    else if required && ltb n min_reason_length
    then pure (
        post_error 400 (
          field_body ("Give a reason. The owner will see it." ∷ []) "reason"
            ("At least 10 characters." ∷ [])))
    else if ltb 1000 n
    then pure (
        post_error 400 (
          field_body ("That reason is too long." ∷ []) "reason" ("At most 1,000 characters." ∷ [])))
    else (do
      r ← attempt (act text)
      elim r [
        | ok _ ↦ pure (post_error 200 zero_body)
        | err e ↦ elim (post_refusal kind e) [ none ↦ throw e | some o ↦ pure o ]
      ])

-- A statement that reads rows which the model does not keep: a listing's photos, a request's
-- number of offers.
abbrev pub read_others : M (Unit {0})
read_others = query (λ now d. (ok tt, d))

unfoldable pub admin_listing : ℕ → M (Post × User)
unfolding get_user_by_id get_listing_for_owner
admin_listing id = do
  row ← get_listing_for_owner id
  owner ← get_user_by_id row.owner_id
  read_others
  pure (row, owner)

unfoldable pub admin_request : ℕ → M (Post × User)
unfolding get_user_by_id get_request_for_owner
admin_request id = do
  row ← get_request_for_owner id
  poster ← get_user_by_id row.owner_id
  read_others
  pure (row, poster)

-- A takedown, or a restore, of a post of one kind; `show` reads it back.
unfoldable pub post_handler :
    String
    → Option Principal
    → Option Text
    → Bool
    → (ℕ → Text → M (Unit {0}))
    → M (Post × User)
    → M (Response (Post × User))
unfolding require_admin post_action
post_handler kind caller reason required act show = admit (require_admin caller) (λ p. do
  o ← post_action kind reason required (act p.user_id)
  if o.status == 200 then (do out ← show; pure (shown out)) else pure (refusal_of o))

module _ (tx : TxRunner) (caller : Option Principal) (id : ℕ) (reason : Option Text) where
  unfoldable pub remove_admin_listing : M (Response (Post × User))
  unfolding post_handler admin_listing remove_post
  remove_admin_listing =
      post_handler "listing" caller reason true
        (λ actor reason. drop (remove_post tx actor subject_listing id reason)) (admin_listing id)

  unfoldable pub restore_admin_listing : M (Response (Post × User))
  unfolding post_handler admin_listing restore_post
  restore_admin_listing =
      post_handler "listing" caller reason false
        (λ actor reason. drop (restore_post tx actor subject_listing id reason)) (admin_listing id)

  unfoldable pub remove_admin_request : M (Response (Post × User))
  unfolding post_handler admin_request remove_post
  remove_admin_request =
      post_handler "request" caller reason true
        (λ actor reason. drop (remove_post tx actor subject_request id reason)) (admin_request id)

  unfoldable pub restore_admin_request : M (Response (Post × User))
  unfolding post_handler admin_request restore_post
  restore_admin_request =
      post_handler "request" caller reason false
        (λ actor reason. drop (restore_post tx actor subject_request id reason)) (admin_request id)
