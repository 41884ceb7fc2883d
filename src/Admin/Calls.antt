-- ===== src/Admin/Calls.antt =====
-- Any sequence of admin calls: what it leaves of the ledger and of the admins. A call is one of
-- the exported functions of internal/db/accounts.go, roles.go and posts.go.
use waterloo_star_backend.Common.{
  ℕ, ◌≡◌, refl, inl, inr, Bool, true, false, Option, some, ◌∷◌, if◌then◌else◌, Bool-cases,
}
use waterloo_star_backend.Common.Text.{Text, is_space, trim_space, is_empty}
use waterloo_star_backend.Store.Rows.{
  Role, AdminAction, Error, Subject, subject_listing, subject_request, subject_user, Detail,
}
use waterloo_star_backend.Store.Conn.{Conn, Result, ok, err, M, throw, TxRunner, IsTransactional}
use waterloo_star_backend.Admin.Audit.{Action, audited}
use waterloo_star_backend.Admin.Ledger.{Audits, audited-Audits}
use waterloo_star_backend.Admin.Actions.{suspend, reinstate, verify_by_hand, change_role}
use waterloo_star_backend.Admin.Posts.{ops_for, remove_post, restore_post, restore_reason}
use waterloo_star_backend.Admin.RoleChange.{KeepsAdmin}

pub data AdminCall : Type 0 where
  suspending : ℕ → ℕ → Text → AdminCall
  reinstating : ℕ → ℕ → Text → AdminCall
  verifying : ℕ → ℕ → Text → AdminCall
  changing_role : Option ℕ → ℕ → Role → Text → AdminCall
  removing : ℕ → Subject → ℕ → Text → AdminCall
  restoring : ℕ → Subject → ℕ → Text → AdminCall

-- The row that a call logged, or the error that it returned.
abbrev pub logged_row : {A : Type 0} → Result (A × AdminAction) × Conn → Result AdminAction × Conn
logged_row (ok (x, logged), c) = (ok logged, c)
logged_row (err e, c) = (err e, c)

unfoldable pub perform : TxRunner → AdminCall → M AdminAction
perform tx (suspending actor id reason) c = logged_row (suspend tx actor id reason c)
perform tx (reinstating actor id reason) c = logged_row (reinstate tx actor id reason c)
perform tx (verifying actor id reason) c = logged_row (verify_by_hand tx actor id reason c)
perform tx (changing_role actor id role reason) c =
    logged_row (change_role tx actor id role reason c)
perform tx (removing actor s id reason) c = logged_row (remove_post tx actor s id reason c)
perform tx (restoring actor s id reason) c = logged_row (restore_post tx actor s id reason c)

-- Whoever makes the call: none is the host.
abbrev pub caller : AdminCall → Option ℕ
caller (suspending actor id reason) = some actor
caller (reinstating actor id reason) = some actor
caller (verifying actor id reason) = some actor
caller (changing_role actor id role reason) = actor
caller (removing actor s id reason) = some actor
caller (restoring actor s id reason) = some actor

-- What a call may have done: nothing, or one row on top of the ledger, of its caller and with a
-- reason, with an admin left if there was one.
abbrev pub Logs : AdminCall → Conn → Result AdminAction × Conn → Type 0
Logs call c (err e, c') = c'.db ≡ c.db
Logs call c (ok logged, c') =
    (c'.db.admin_actions ≡ logged ∷ c.db.admin_actions)
    × (logged.actor_id ≡ caller call)
    × (logged.created_at ≡ c.now)
    × (is_empty logged.reason ≡ false)
    × KeepsAdmin c.db c'.db

pub restore_reason-filled : (reason : Text) → is_empty (trim_space (restore_reason reason)) ≡ false
unfolding restore_reason trim_space is_space
restore_reason-filled reason = elim (Bool-cases (is_empty (trim_space reason))) [
  | inl blank ↦ rw blank refl
  | inr given ↦ rw given given
]

-- A call that fails: the database is as it was.
abbrev pub FailsClean : {A : Type 0} → Conn → Result (A × AdminAction) × Conn → Type 0
FailsClean c (err e, c') = c'.db ≡ c.db
FailsClean c (ok y, c') = Unit {0}

module _ (tx : TxRunner) (t : IsTransactional tx) where
  pub audited-FailsClean :
      {A : Type 0} (a : Action) (change : M (A × Detail)) (c : Conn)
      → FailsClean c (audited tx a change c)
  audited-FailsClean {A} a change c = go (audited tx a change c) (audited-Audits tx t a change c)
    where
      go : (r : Result (A × AdminAction) × Conn) → Audits a c (change c) r → FailsClean c r
      go (err e, c') k = k
      go (ok y, c') k = tt

  -- A guard before the audited change leaves that so.
  pub guarded-FailsClean :
      {A : Type 0} (b : Bool) (e : Error) (a : Action) (change : M (A × Detail)) (c : Conn)
      → FailsClean c ((if b then throw e else audited tx a change) c)
  unfolding throw
  guarded-FailsClean true e a change c = refl
  guarded-FailsClean false e a change c = audited-FailsClean a change c

  pub remove_post-FailsClean :
      (actor : ℕ) (s : Subject) (id : ℕ) (reason : Text) (c : Conn)
      → FailsClean c (remove_post tx actor s id reason c)
  unfolding remove_post ops_for throw
  remove_post-FailsClean actor subject_listing id reason c = audited-FailsClean _ _ c
  remove_post-FailsClean actor subject_request id reason c = audited-FailsClean _ _ c
  remove_post-FailsClean actor subject_user id reason c = refl

  pub restore_post-FailsClean :
      (actor : ℕ) (s : Subject) (id : ℕ) (reason : Text) (c : Conn)
      → FailsClean c (restore_post tx actor s id reason c)
  unfolding restore_post ops_for throw
  restore_post-FailsClean actor subject_listing id reason c = audited-FailsClean _ _ c
  restore_post-FailsClean actor subject_request id reason c = audited-FailsClean _ _ c
  restore_post-FailsClean actor subject_user id reason c = refl

  -- A call's failure and its success together.
  pub logged-Logs :
      {A : Type 0} (call : AdminCall) (c : Conn) (r : Result (A × AdminAction) × Conn)
      → FailsClean c r
      → ((x : A) (logged : AdminAction) (c' : Conn)
          → r ≡ (ok (x, logged), c')
          → Logs call c (ok logged, c'))
      → Logs call c (logged_row r)
  logged-Logs call c (err e, c') clean k = clean
  logged-Logs call c (ok (x, logged), c') clean k = k x logged c' refl
