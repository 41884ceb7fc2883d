-- ===== src/Admin/History.antt =====
-- Every admin call, and any sequence of them, on any connection.
use waterloo_star_backend.Common.{ℕ, ◌≡◌, refl, ap, ◌∙◌, true, Option, some, ◌∷◌, ◌==◌}
use waterloo_star_backend.Common.Text.{Text, trim_space, is_empty}
use waterloo_star_backend.Store.Table.{lookup, update, count}
use waterloo_star_backend.Store.Rows.{
  Role, is_admin, User, Post, Subject, subject_listing, subject_request, subject_user, Db,
}
use waterloo_star_backend.Store.Conn.{Conn, TxRunner, IsTransactional}
use waterloo_star_backend.Admin.Actions.{suspend, reinstate, verify_by_hand, is_self, change_role}
use waterloo_star_backend.Admin.Posts.{remove_post, restore_post}
use waterloo_star_backend.Admin.Accounts.{suspended_row, reinstated_row}
use waterloo_star_backend.Admin.RoleChange.{admins, KeepsAdmin, KeepsAdmin-eq}
use waterloo_star_backend.Admin.LastAdmin.{admins-same, change_role-eq-ok}
use waterloo_star_backend.Admin.Effects.{suspend-eq-ok, reinstate-eq-ok, verify_by_hand-eq-ok}
use waterloo_star_backend.Admin.PostEffects.{
  remove_post-TakenDown, restore_post-PutBack, actions-write_post,
}
use waterloo_star_backend.Admin.Takedown.{write_post, removed_post, restored_post}
use waterloo_star_backend.Admin.Calls.{
  AdminCall, suspending, reinstating, verifying, changing_role, removing, restoring, perform,
  logged_row, Logs, audited-FailsClean, guarded-FailsClean, remove_post-FailsClean,
  restore_post-FailsClean, logged-Logs, restore_reason-filled,
}

-- Taking a post down leaves every account as it is.
admins-write_post :
    (s : Subject) (id : ℕ) (p : Post) (d : Db) → admins (write_post s id p d) ≡ admins d
admins-write_post subject_listing id p d = refl
admins-write_post subject_request id p d = refl
admins-write_post subject_user id p d = refl

-- A write of a row that keeps its role leaves an admin where there was one.
accounts-keep :
    (d d' : Db) (id : ℕ) (a u : User)
    → lookup id d.users ≡ some u
    → a.role ≡ u.role
    → d'.users ≡ update id a d.users
    → KeepsAdmin d d'
accounts-keep d d' id a u present same wrote =
    KeepsAdmin-eq d d'
      (ap (count (λ x. is_admin x.role)) wrote ∙ admins-same id a u d.users present same)

module _ (tx : TxRunner) (t : IsTransactional tx) (c : Conn) where
  suspending-Logs :
      (actor id : ℕ) (reason : Text)
      → Logs (suspending actor id reason) c (logged_row (suspend tx actor id reason c))
  unfolding suspend
  suspending-Logs actor id reason =
      logged-Logs tx t (suspending actor id reason) c (suspend tx actor id reason c)
        (guarded-FailsClean tx t (actor == id) _ _ _ c)
        (λ x logged c' h.
          let (u, other, present, active, shown, there, all, row, given, dead) =
            suspend-eq-ok tx t id actor reason c h in
          (
            ap (λ d. d.admin_actions) all,
            ap (λ a. a.actor_id) row,
            ap (λ a. a.created_at) row,
            ap (λ a. is_empty a.reason) row ∙ given,
            accounts-keep c.db c'.db id (suspended_row actor (trim_space reason) c.now u) u present
                refl (ap (λ d. d.users) all),
          ))

  reinstating-Logs :
      (actor id : ℕ) (reason : Text)
      → Logs (reinstating actor id reason) c (logged_row (reinstate tx actor id reason c))
  unfolding reinstate
  reinstating-Logs actor id reason =
      logged-Logs tx t (reinstating actor id reason) c (reinstate tx actor id reason c)
        (audited-FailsClean tx t _ _ c)
        (λ x logged c' h.
          let (u, present, was, shown, all, row, given) =
            reinstate-eq-ok tx t id actor reason c h in
          (
            ap (λ d. d.admin_actions) all,
            ap (λ a. a.actor_id) row,
            ap (λ a. a.created_at) row,
            ap (λ a. is_empty a.reason) row ∙ given,
            accounts-keep c.db c'.db id (reinstated_row c.now u) u present refl
                (ap (λ d. d.users) all),
          ))

  verifying-Logs :
      (actor id : ℕ) (reason : Text)
      → Logs (verifying actor id reason) c (logged_row (verify_by_hand tx actor id reason c))
  unfolding verify_by_hand
  verifying-Logs actor id reason =
      logged-Logs tx t (verifying actor id reason) c (verify_by_hand tx actor id reason c)
        (audited-FailsClean tx t _ _ c)
        (λ x logged c' h.
          let (u, present, was, shown, all, row, given) =
            verify_by_hand-eq-ok tx t id actor reason c h in
          (
            ap (λ d. d.admin_actions) all,
            ap (λ a. a.actor_id) row,
            ap (λ a. a.created_at) row,
            ap (λ a. is_empty a.reason) row ∙ given,
            accounts-keep c.db c'.db id (record u { verified = true; updated_at = c.now }) u present
                refl (ap (λ d. d.users) all),
          ))

  changing_role-Logs :
      (actor : Option ℕ) (id : ℕ) (role : Role) (reason : Text)
      → Logs
          (changing_role actor id role reason)
          c
          (logged_row (change_role tx actor id role reason c))
  unfolding change_role
  changing_role-Logs actor id role reason =
      logged-Logs tx t (changing_role actor id role reason) c
        (change_role tx actor id role reason c) (guarded-FailsClean tx t (is_self actor id) _ _ _ c)
        (λ x logged c' h.
          let (u, other, present, differs, shown, was, all, row, given, dead, kept) =
            change_role-eq-ok tx t id actor role reason c h in
          (
            ap (λ d. d.admin_actions) all,
            ap (λ a. a.actor_id) row,
            ap (λ a. a.created_at) row,
            ap (λ a. is_empty a.reason) row ∙ given,
            kept,
          ))

  removing-Logs :
      (actor : ℕ) (s : Subject) (id : ℕ) (reason : Text)
      → Logs (removing actor s id reason) c (logged_row (remove_post tx actor s id reason c))
  removing-Logs actor s id reason =
      logged-Logs tx t (removing actor s id reason) c (remove_post tx actor s id reason c)
        (remove_post-FailsClean tx t actor s id reason c)
        (λ x logged c' h.
          let (p, present, visible, all, row, given) =
            remove_post-TakenDown tx actor id reason t c s h in
          let taken = removed_post actor (trim_space reason) c.now p in
          (
            ap (λ d. d.admin_actions) all
                ∙ ap (λ l. logged ∷ l) (actions-write_post s id taken c.db),
            ap (λ a. a.actor_id) row,
            ap (λ a. a.created_at) row,
            ap (λ a. is_empty a.reason) row ∙ given,
            KeepsAdmin-eq c.db c'.db (ap admins all ∙ admins-write_post s id taken c.db),
          ))

  restoring-Logs :
      (actor : ℕ) (s : Subject) (id : ℕ) (reason : Text)
      → Logs (restoring actor s id reason) c (logged_row (restore_post tx actor s id reason c))
  restoring-Logs actor s id reason =
      logged-Logs tx t (restoring actor s id reason) c (restore_post tx actor s id reason c)
        (restore_post-FailsClean tx t actor s id reason c)
        (λ x logged c' h.
          let (p, present, hidden, all, row) = restore_post-PutBack tx actor id reason t c s h in
          (
            ap (λ d. d.admin_actions) all
                ∙ ap (λ l. logged ∷ l) (actions-write_post s id (restored_post c.now p) c.db),
            ap (λ a. a.actor_id) row,
            ap (λ a. a.created_at) row,
            ap (λ a. is_empty a.reason) row ∙ restore_reason-filled reason,
            KeepsAdmin-eq c.db c'.db
                (ap admins all ∙ admins-write_post s id (restored_post c.now p) c.db),
          ))

  -- Every admin call, on a database that may fail at any statement and at the commit: a call
  -- that returns an error has changed nothing, and a call that returns none has put one row on
  -- top of the ledger, with its caller, the time and a reason that is not blank; and if there
  -- was an admin before it, there is one after.
  pub perform-Logs : (call : AdminCall) → Logs call c (perform tx call c)
  unfolding perform
  perform-Logs (suspending actor id reason) = suspending-Logs actor id reason
  perform-Logs (reinstating actor id reason) = reinstating-Logs actor id reason
  perform-Logs (verifying actor id reason) = verifying-Logs actor id reason
  perform-Logs (changing_role actor id role reason) = changing_role-Logs actor id role reason
  perform-Logs (removing actor s id reason) = removing-Logs actor s id reason
  perform-Logs (restoring actor s id reason) = restoring-Logs actor s id reason
