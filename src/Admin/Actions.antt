-- ===== src/Admin/Actions.antt =====
-- internal/db/accounts.go, roles.go and posts.go. Each action is the change that runs inside the
-- transaction, and the action that runs it.
use waterloo_star_backend.Common.{
  ℕ, Bool, true, false, Option, none, some, [], ◌∷◌, ◌++◌, ◌==◌, if◌then◌else◌,
}
use Prim.Native.String.{String}
use waterloo_star_backend.Common.Text.{Text, trim_space}
use waterloo_star_backend.Store.Rows.{
  Role, user, moderator, admin, other, is_admin, User, AdminAction, ActionName, Subject, Value,
  Detail, Error, self_action, last_admin, role_unchanged, already_suspended, not_suspended,
  already_verified,
}
use waterloo_star_backend.Store.Conn.{M, ◌>>=◌, ◌>>◌, pure, throw, no_rows_as, TxRunner}
use waterloo_star_backend.Store.Queries.{
  get_user_by_id, set_user_role, count_admins, suspend_user, reinstate_user, verify_user_as_admin,
  revoke_all_refresh_tokens_for_user,
}
use waterloo_star_backend.Admin.Audit.{Action, audited}

-- `if p != nil { detail[key] = *p }`
abbrev pub said : {A : Type 0} → String → (A → Value) → Option A → Detail
said key f none = []
said key f (some a) = (key, f a) ∷ []

-- The action of an admin, or of the host, on an account.
abbrev pub account_action : Option ℕ → ActionName → ℕ → Text → Action
account_action actor name user_id reason = record {
  actor_id = actor;
  action = name;
  subject_type = Subject.subject_user;
  subject_id = user_id;
  reason = reason;
}

-- accounts.go
abbrev pub suspend_detail : Detail
suspend_detail =
    ("from", Value.word "active")
    ∷ ("to", Value.word "suspended")
    ∷ ("sessions_revoked", Value.flag true)
    ∷ []

unfoldable pub suspend_change : ℕ → ℕ → Text → M (User × Detail)
suspend_change actor user_id reason = do
  get_user_by_id user_id
  after ← no_rows_as already_suspended (suspend_user user_id (some actor) (trim_space reason))
  revoke_all_refresh_tokens_for_user user_id
  pure (after, suspend_detail)

unfoldable pub suspend : TxRunner → ℕ → ℕ → Text → M (User × AdminAction)
unfolding audited suspend_change
suspend tx actor user_id reason =
    if actor == user_id
    then throw self_action
    else audited tx (account_action (some actor) ActionName.suspend user_id reason)
        (suspend_change actor user_id reason)

-- The suspension being lifted, so the ledger keeps what the row forgets.
abbrev pub reinstate_detail : User → Detail
reinstate_detail before =
    ("from", Value.word "suspended")
    ∷ ("to", Value.word "active")
    ∷ (said "suspended_at" Value.time before.suspended_at
        ++ said "suspend_reason" Value.text before.suspend_reason)

unfoldable pub reinstate_change : ℕ → M (User × Detail)
reinstate_change user_id = do
  before ← get_user_by_id user_id
  after ← no_rows_as not_suspended (reinstate_user user_id)
  pure (after, reinstate_detail before)

unfoldable pub reinstate : TxRunner → ℕ → ℕ → Text → M (User × AdminAction)
unfolding audited reinstate_change
reinstate tx actor user_id reason =
    audited tx (account_action (some actor) ActionName.reinstate user_id reason)
      (reinstate_change user_id)

abbrev pub verify_detail : Detail
verify_detail = ("from", Value.flag false) ∷ ("to", Value.flag true) ∷ []

unfoldable pub verify_change : ℕ → M (User × Detail)
verify_change user_id = do
  get_user_by_id user_id
  after ← no_rows_as already_verified (verify_user_as_admin user_id)
  pure (after, verify_detail)

unfoldable pub verify_by_hand : TxRunner → ℕ → ℕ → Text → M (User × AdminAction)
unfolding audited verify_change
verify_by_hand tx actor user_id reason =
    audited tx (account_action (some actor) ActionName.verify user_id reason)
      (verify_change user_id)

-- roles.go
abbrev pub role_eq : Role → Role → Bool
role_eq user user = true
role_eq moderator moderator = true
role_eq admin admin = true
role_eq (other m) (other n) = m == n
role_eq _ _ = false

-- `if admins == 0 { return ErrLastAdmin }`
abbrev pub refuse_if : Bool → Error → M (Unit {0})
refuse_if true e = throw e
refuse_if false e = pure tt

-- Counted after the update, and only where an admin loses the role.
unfoldable pub last_admin_guard : Role → M (Unit {0})
last_admin_guard before =
    if is_admin before
    then (do admins ← count_admins; refuse_if (admins == 0) last_admin)
    else pure tt

abbrev pub role_detail : Role → Role → Detail
role_detail before role =
    ("from", Value.role_name before)
    ∷ ("to", Value.role_name role)
    ∷ ("sessions_revoked", Value.flag true)
    ∷ []

unfoldable pub role_change : ℕ → Role → M ((User × Role) × Detail)
unfolding last_admin_guard
role_change user_id role = do
  before ← get_user_by_id user_id
  refuse_if (role_eq before.role role) role_unchanged
  after ← set_user_role user_id role
  last_admin_guard before.role
  revoke_all_refresh_tokens_for_user user_id
  pure ((after, before.role), role_detail before.role role)

-- `actor != nil && *actor == userID`
abbrev pub is_self : Option ℕ → ℕ → Bool
is_self none user_id = false
is_self (some actor) user_id = actor == user_id

unfoldable pub change_role : TxRunner → Option ℕ → ℕ → Role → Text → M ((User × Role) × AdminAction)
unfolding audited role_change
change_role tx actor user_id role reason =
    if is_self actor user_id
    then throw self_action
    else audited tx (account_action actor ActionName.set_role user_id reason)
        (role_change user_id role)
