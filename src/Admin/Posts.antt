-- ===== src/Admin/Posts.antt =====
-- internal/db/posts.go: takedown and restore, on the table that the subject names.
use waterloo_star_backend.Common.{ℕ, Option, none, some, [], ◌∷◌, ◌++◌, if◌then◌else◌}
use waterloo_star_backend.Common.Text.{Text, trim_space, is_empty}
use waterloo_star_backend.Store.Rows.{
  Post, AdminAction, ActionName, Subject, subject_user, subject_listing, subject_request, Value,
  Detail, no_takedown, already_removed, not_removed,
}
use waterloo_star_backend.Store.Conn.{M, ◌>>=◌, ◌>>◌, pure, throw, no_rows_as, TxRunner}
use waterloo_star_backend.Store.Queries.{
  get_listing_for_owner, get_request_for_owner, remove_listing, restore_listing, remove_request,
  restore_request,
}
use waterloo_star_backend.Admin.Audit.{Action, audited}
use waterloo_star_backend.Admin.Actions.{said}

-- One table's queries.
pub record PostOps : Type 0 where
  pub get : ℕ → M Post
  pub remove : ℕ → Option ℕ → Text → M (Unit {0})
  pub restore : ℕ → M (Unit {0})

unfoldable pub listing_ops : PostOps
listing_ops = record {
  get = get_listing_for_owner;
  remove = remove_listing;
  restore = restore_listing;
}

unfoldable pub request_ops : PostOps
request_ops = record {
  get = get_request_for_owner;
  remove = remove_request;
  restore = restore_request;
}

unfoldable pub ops_for : Subject → Option PostOps
unfolding listing_ops request_ops
ops_for subject_listing = some listing_ops
ops_for subject_request = some request_ops
ops_for subject_user = none

-- "Restored by an admin"
abbrev pub default_restore_reason : Text
default_restore_reason =
    82 ∷ 101 ∷ 115 ∷ 116 ∷ 111 ∷ 114 ∷ 101 ∷ 100 ∷ 32 ∷ 98 ∷ 121 ∷ 32 ∷ 97 ∷ 110 ∷ 32 ∷ 97 ∷ 100
    ∷ 109 ∷ 105 ∷ 110 ∷ []

abbrev pub post_action : ℕ → ActionName → Subject → ℕ → Text → Action
post_action actor name subject id reason = record {
  actor_id = some actor;
  action = name;
  subject_type = subject;
  subject_id = id;
  reason = reason;
}

-- The owner's status at the time, so the ledger says what was hidden.
abbrev pub remove_detail : Post → Detail
remove_detail before =
    ("from", Value.word "visible")
    ∷ ("to", Value.word "removed")
    ∷ ("status", Value.text before.status)
    ∷ []

unfoldable pub remove_change : PostOps → ℕ → ℕ → Text → M (Unit {0} × Detail)
remove_change ops actor id reason = do
  before ← ops.get id
  no_rows_as already_removed (ops.remove id (some actor) (trim_space reason))
  pure (tt, remove_detail before)

unfoldable pub remove_post : TxRunner → ℕ → Subject → ℕ → Text → M (Unit {0} × AdminAction)
unfolding ops_for audited remove_change
remove_post tx actor subject id reason = elim (ops_for subject) [
  | none ↦ throw no_takedown
  | some ops ↦
      audited tx (post_action actor ActionName.remove_post subject id reason)
        (remove_change ops actor id reason)
]

abbrev pub restore_detail : Post → Detail
restore_detail before =
    ("from", Value.word "removed")
    ∷ ("to", Value.word "visible")
    ∷ ("status", Value.text before.status)
    ∷ (said "removed_at" Value.time before.removed_at
        ++ said "removed_reason" Value.text before.removed_reason)

unfoldable pub restore_change : PostOps → ℕ → M (Unit {0} × Detail)
restore_change ops id = do
  before ← ops.get id
  no_rows_as not_removed (ops.restore id)
  pure (tt, restore_detail before)

-- An empty reason becomes the default one.
unfoldable pub restore_reason : Text → Text
restore_reason reason = if is_empty (trim_space reason) then default_restore_reason else reason

unfoldable pub restore_post : TxRunner → ℕ → Subject → ℕ → Text → M (Unit {0} × AdminAction)
unfolding ops_for audited restore_change
restore_post tx actor subject id reason = elim (ops_for subject) [
  | none ↦ throw no_takedown
  | some ops ↦
      audited tx (post_action actor ActionName.restore_post subject id (restore_reason reason))
        (restore_change ops id)
]
