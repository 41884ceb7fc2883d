-- ===== src/Admin/Tests.antt =====
-- The admin actions on a small site, with a runner that rolls back as PoolTx does.
use waterloo_star_backend.Common.{ℕ, ◌≡◌, refl, inl, Bool, true, false, none, some, List, [], ◌∷◌}
use waterloo_star_backend.Common.Text.{Text, trim_space, is_space}
use waterloo_star_backend.Store.Table.{lookup, update, count}
use waterloo_star_backend.Store.Rows.{
  Role, User, RefreshToken, AdminAction, ActionName, subject_listing, Db,
}
use waterloo_star_backend.Store.Conn.{Conn, Result, ok, err, TxRunner, Ended, IsTransactional}
use waterloo_star_backend.Store.Queries.{insert_admin_action_sql}
use waterloo_star_backend.Admin.Accounts.{
  statements, suspended_row, suspended_db, write_users, role_db,
}
use waterloo_star_backend.Admin.Actions.{
  account_action, suspend_detail, suspend, suspend_change, reinstate, reinstate_detail, role_detail,
  change_role, last_admin_guard,
}
use waterloo_star_backend.Admin.Audit.{audited}
use waterloo_star_backend.Admin.Ledger.{row_for, Audits, audited-Audits}
use waterloo_star_backend.Admin.Effects.{
  with_row, Suspended, Lifted, suspend-eq-ok, reinstate-suspend,
}
use waterloo_star_backend.Admin.LastAdmin.{RoleSet, change_role-eq-ok}
use waterloo_star_backend.Admin.Calls.{AdminCall, Logs, perform}
use waterloo_star_backend.Admin.History.{perform-Logs}
use waterloo_star_backend.Admin.Runs.{Appends, run_calls, run_calls-Appends}

-- A transaction that commits whenever its function succeeds.
abbrev pub pool_tx : TxRunner
pool_tx = record {
  run = λ A fn c.
      let (r, c') = fn c in elim r [ ok a ↦ (ok a, c') | err e ↦ (err e, record c' { db = c.db }) ];
}

pub pool_tx-IsTransactional : IsTransactional pool_tx
pool_tx-IsTransactional = record { ends = λ A fn c. go A c (fn c) }
  where
    go :
        (A : Type 0) (c : Conn) (r : Result A × Conn)
        → Ended c r (elim r.0 [ ok a ↦ (ok a, r.1) | err e ↦ (err e, record r.1 { db = c.db }) ])
    go A c (ok a, d) = inl (refl, refl)
    go A c (err e, d) = (refl, refl)

abbrev pub account : Role → User
account role = record {
  role = role;
  verified = true;
  suspended_at = none;
  suspended_by = none;
  suspend_reason = none;
  email = [];
  username = [];
  password_hash = [];
  email_notifications = true;
  updated_at = 0;
}

abbrev session : ℕ → RefreshToken
session user_id = record { user_id = user_id; expires_at = 900; revoked_at = none }

-- " spam "
abbrev pub spam : Text
spam = 32 ∷ 115 ∷ 112 ∷ 97 ∷ 109 ∷ 32 ∷ []

-- Accounts 1 and 2 are admins, 3 is a user with a listing.
abbrev pub site : Db
site = record {
  users = (1, account Role.admin) ∷ (2, account Role.admin) ∷ (3, account Role.user) ∷ [];
  listings =
      (
        7,
        record {
          owner_id = 3;
          status = 100 ∷ 114 ∷ 97 ∷ 102 ∷ 116 ∷ [];
          published_at = none;
          removed_at = none;
          removed_by = none;
          removed_reason = none;
          address_line = [];
          updated_at = 0;
        },
      )
      ∷ [];
  requests = [];
  refresh_tokens = (20, session 3) ∷ (21, session 2) ∷ [];
  email_verification_tokens = [];
  password_reset_tokens = [];
  conversations = [];
  messages = [];
  offers = [];
  admin_actions = [];
}

-- A connection whose faults come after its first, its second, … statement.
abbrev pub conn : List Bool → Conn
conn faults = record { db = site; faults = faults; now = 500; draws = []; outbox = [] }

abbrev pub suspended : AdminAction
suspended = row_for (account_action (some 1) ActionName.suspend 3 spam) suspend_detail 500

abbrev pub after_suspend : Conn
after_suspend = record (conn []) {
  db = with_row suspended (suspended_db 1 3 (trim_space spam) 500 (account Role.user) site);
}

pub suspending_works :
    suspend pool_tx 1 3 spam (conn [])
    ≡ (ok (suspended_row 1 (trim_space spam) 500 (account Role.user), suspended), after_suspend)
unfolding suspend statements trim_space is_space lookup insert_admin_action_sql
suspending_works = refl

suspend-eq-ok_example :
    Suspended 1 3 spam
      (conn [])
      (suspended_row 1 (trim_space spam) 500 (account Role.user))
      suspended
      after_suspend
suspend-eq-ok_example =
    suspend-eq-ok pool_tx pool_tx-IsTransactional 3 1 spam (conn []) suspending_works

abbrev reinstated : AdminAction
reinstated =
    row_for (account_action (some 2) ActionName.reinstate 3 spam)
      (reinstate_detail (suspended_row 1 (trim_space spam) 500 (account Role.user))) 700

-- The next connection, later
abbrev day_after : Conn
day_after = record after_suspend { now = 700 }

abbrev after_reinstate : Conn
after_reinstate = record day_after {
  db =
      with_row reinstated
        (write_users 3 (record (account Role.user) { updated_at = 700 }) after_suspend.db);
}

reinstating_works :
    reinstate pool_tx 2 3 spam day_after
    ≡ (ok (record (account Role.user) { updated_at = 700 }, reinstated), after_reinstate)
unfolding reinstate statements trim_space is_space lookup update insert_admin_action_sql
reinstating_works = refl

present : lookup 3 site.users ≡ some (account Role.user)
unfolding lookup
present = refl

reinstate-suspend_example :
    Lifted 3 (account Role.user) 700 (conn []) suspended reinstated after_reinstate
reinstate-suspend_example =
    reinstate-suspend pool_tx pool_tx-IsTransactional 3 1 2 spam spam (conn []) (account Role.user)
      day_after present refl refl suspending_works refl reinstating_works

abbrev demoted : AdminAction
demoted =
    row_for (account_action (some 1) ActionName.set_role 2 spam) (role_detail Role.admin Role.user)
      500

abbrev after_demotion : Conn
after_demotion = record (conn []) {
  db = with_row demoted (role_db 2 Role.user 500 (account Role.admin) site);
}

demoting_works :
    change_role pool_tx (some 1) 2 Role.user spam (conn [])
    ≡ (ok ((record (account Role.user) { updated_at = 500 }, Role.admin), demoted), after_demotion)
unfolding change_role last_admin_guard statements trim_space is_space lookup update count
    insert_admin_action_sql
demoting_works = refl

change_role-eq-ok_example :
    RoleSet
      (some 1)
      2
      Role.user
      spam
      (conn [])
      (record (account Role.user) { updated_at = 500 })
      Role.admin
      demoted
      after_demotion
change_role-eq-ok_example =
    change_role-eq-ok pool_tx pool_tx-IsTransactional 2 (some 1) Role.user spam (conn [])
      demoting_works

-- The last statement of the transaction fails.
audited-Audits_example :
    Audits
      (account_action (some 1) ActionName.suspend 3 spam)
      (conn (false ∷ false ∷ false ∷ true ∷ []))
      (suspend_change 1 3 spam (conn (false ∷ false ∷ false ∷ true ∷ [])))
      (audited pool_tx
        (account_action (some 1) ActionName.suspend 3 spam)
        (suspend_change 1 3 spam)
        (conn (false ∷ false ∷ false ∷ true ∷ [])))
audited-Audits_example =
    audited-Audits pool_tx pool_tx-IsTransactional
      (account_action (some 1) ActionName.suspend 3 spam) (suspend_change 1 3 spam)
      (conn (false ∷ false ∷ false ∷ true ∷ []))

perform-Logs_example :
    Logs
      (AdminCall.removing 1 subject_listing 7 spam)
      (conn [])
      (perform pool_tx (AdminCall.removing 1 subject_listing 7 spam) (conn []))
perform-Logs_example =
    perform-Logs pool_tx pool_tx-IsTransactional (conn [])
      (AdminCall.removing 1 subject_listing 7 spam)

-- Two admins demote each other, and one of them an account that is not there.
abbrev quarrel : List AdminCall
quarrel =
    AdminCall.changing_role (some 1) 2 Role.user spam
    ∷ AdminCall.changing_role (some 2) 1 Role.user spam
    ∷ AdminCall.suspending 1 9 spam
    ∷ AdminCall.removing 1 subject_listing 7 spam
    ∷ []

run_calls-Appends_example : Appends (conn []) (run_calls pool_tx quarrel (conn []))
run_calls-Appends_example = run_calls-Appends pool_tx pool_tx-IsTransactional quarrel (conn [])
