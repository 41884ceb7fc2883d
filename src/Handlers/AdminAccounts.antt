-- ===== src/Handlers/AdminAccounts.antt =====
-- internal/httpapi/admin_accounts.go: suspend, reinstate, verify and set a role, over HTTP.
use waterloo_star_backend.Common.{
  ℕ, Bool, true, false, Option, none, some, [], ◌∷◌, ◌==◌, ltb, if◌then◌else◌, length,
}
use waterloo_star_backend.Common.Text.{Text, trim_space}
use waterloo_star_backend.Store.Table.{lookup}
use waterloo_star_backend.Store.Rows.{
  Role, user, admin, User, Db, Error, no_rows, self_action, last_admin, role_unchanged,
  already_suspended, not_suspended, already_verified,
}
use waterloo_star_backend.Store.Conn.{Result, ok, err, M, ◌>>=◌, ◌>>◌, pure, throw, query, TxRunner}
use waterloo_star_backend.Store.Queries.{found}
use waterloo_star_backend.Admin.Actions.{suspend, reinstate, verify_by_hand, change_role}
use waterloo_star_backend.Handlers.Replies.{
  Code, Message, ErrorBody, zero_body, error_body, field_body, Response, shown, refused, Principal,
  require_admin, admit, attempt, Outcome, refusal_of,
}

abbrev pub min_reason_length : ℕ
min_reason_length = 10

-- The columns of the account that the model has; the three counts beside it are left out.
unfoldable pub get_user_for_admin_sql : ℕ → ℕ → Db → Result User × Db
get_user_for_admin_sql id now d = found (lookup id d.users) d

unfoldable pub get_user_for_admin : ℕ → M User
get_user_for_admin id = query (get_user_for_admin_sql id)

-- The account is that of a 200 only.
pub record AccountOutcome : Type 0 where
  pub outcome : Outcome
  pub account : Option User

abbrev pub account_error : ℕ → ErrorBody → AccountOutcome
account_error status body = record {
  outcome = record { status = status; body = body };
  account = none;
}

abbrev pub conflict_of : Message → AccountOutcome
conflict_of message = account_error 409 (error_body Code.conflict message)

-- What an error of the action is to the caller; none is an error of the server.
unfoldable pub account_refusal : Message → Error → Option AccountOutcome
account_refusal self_message no_rows =
    some (account_error 404 (error_body Code.not_found ("No account with that id." ∷ [])))
account_refusal self_message self_action = some (conflict_of self_message)
account_refusal self_message already_suspended =
    some (conflict_of ("That account is already suspended." ∷ []))
account_refusal self_message not_suspended =
    some (conflict_of ("That account is not suspended." ∷ []))
account_refusal self_message already_verified =
    some (conflict_of ("That account is already verified." ∷ []))
account_refusal self_message role_unchanged =
    some (conflict_of ("That account already has that role." ∷ []))
account_refusal self_message last_admin =
    some (conflict_of ("That is the last admin. Promote someone else first." ∷ []))
account_refusal self_message _ = none

unfoldable pub account_action :
    ℕ → Option Text → Message → (ℕ → Text → M (Unit {0})) → M AccountOutcome
unfolding account_refusal get_user_for_admin
account_action id none self_message act =
    pure (account_error 400 (error_body Code.bad_request ("A JSON body is required." ∷ [])))
account_action id (some reason) self_message act =
    let trimmed = trim_space reason in
    let n = length trimmed in
    if ltb n min_reason_length
    then pure (
        account_error 400 (
          field_body ("Give a reason." ∷ []) "reason"
            ("At least 10 characters. It is kept in the ledger." ∷ [])))
    else if ltb 1000 n
    then pure (
        account_error 400 (
          field_body ("That reason is too long." ∷ []) "reason" ("At most 1,000 characters." ∷ [])))
    else (do
      r ← attempt (act id trimmed)
      elim r [
        | ok _ ↦ (do
          row ← get_user_for_admin id
          pure (record { outcome = record { status = 200; body = zero_body }; account = some row }))
        | err e ↦ elim (account_refusal self_message e) [ none ↦ throw e | some o ↦ pure o ]
      ])

-- `switch o.status`, the same in the four handlers
unfoldable pub account_response : AccountOutcome → Response User
account_response o =
    if o.outcome.status == 200
    then elim o.account [ none ↦ refused 200 zero_body | some row ↦ shown row ]
    else refusal_of o.outcome

-- `_, err := db.Suspend(…); return err`, and so for the others
abbrev pub drop : {A : Type 0} → M A → M (Unit {0})
drop m = m >> pure tt

unfoldable pub account_handler :
    Option Principal → ℕ → Option Text → Message → (ℕ → ℕ → Text → M (Unit {0})) → M (Response User)
unfolding require_admin account_action account_response
account_handler caller id reason self_message act =
    admit (require_admin caller)
      (λ p. do o ← account_action id reason self_message (act p.user_id); pure (account_response o))

unfoldable pub suspend_admin_user :
    TxRunner → Option Principal → ℕ → Option Text → M (Response User)
unfolding account_handler suspend
suspend_admin_user tx caller id body =
    account_handler caller id body ("You can't suspend your own account." ∷ [])
      (λ actor id reason. drop (suspend tx actor id reason))

unfoldable pub reinstate_admin_user :
    TxRunner → Option Principal → ℕ → Option Text → M (Response User)
unfolding account_handler reinstate
reinstate_admin_user tx caller id body =
    account_handler caller id body ("" ∷ [])
      (λ actor id reason. drop (reinstate tx actor id reason))

unfoldable pub verify_admin_user : TxRunner → Option Principal → ℕ → Option Text → M (Response User)
unfolding account_handler verify_by_hand
verify_admin_user tx caller id body =
    account_handler caller id body ("" ∷ [])
      (λ actor id reason. drop (verify_by_hand tx actor id reason))

pub record RoleChangeBody : Type 0 where
  pub role : Role
  pub reason : Text

-- `AdminRoleChangeRole.Valid`
abbrev pub is_role_change : Role → Bool
is_role_change user = true
is_role_change admin = true
is_role_change _ = false

abbrev pub own_role : Message
own_role = "You can't change your own role." ∷ []

abbrev pub no_role : ErrorBody
no_role = field_body ("Choose a role." ∷ []) "role" ("Either user or admin." ∷ [])

unfoldable pub set_admin_user_role :
    TxRunner → Option Principal → ℕ → Option RoleChangeBody → M (Response User)
unfolding require_admin account_handler account_action account_response change_role
set_admin_user_role tx caller id none =
    account_handler caller id none own_role (λ actor id reason. pure tt)
set_admin_user_role tx caller id (some body) = admit (require_admin caller) (λ p.
    if is_role_change body.role
    then (do
      o ←
          account_action id (some body.reason) own_role
            (λ id reason. drop (change_role tx (some p.user_id) id body.role reason))
      pure (account_response o))
    else pure (refused 400 no_role))
