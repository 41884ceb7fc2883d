-- ===== src/Admin/Audit.antt =====
-- internal/db/audit.go: a change and its ledger row, in one transaction.
use waterloo_star_backend.Common.{ℕ, Option, if◌then◌else◌}
use waterloo_star_backend.Common.Text.{Text, trim_space, is_empty}
use waterloo_star_backend.Store.Rows.{AdminAction, ActionName, Subject, Detail, reason_required}
use waterloo_star_backend.Store.Conn.{M, ◌>>=◌, pure, throw, TxRunner}
use waterloo_star_backend.Store.Queries.{insert_admin_action}

-- `actor_id` is nil when the change is made from the host with cmd/admin.
pub record Action : Type 0 where
  pub actor_id : Option ℕ
  pub action : ActionName
  pub subject_type : Subject
  pub subject_id : ℕ
  pub reason : Text

-- What runs inside the transaction. `change` returns what its caller keeps, and the detail.
unfoldable pub recorded : {A : Type 0} → Action → M (A × Detail) → M (A × AdminAction)
unfolding insert_admin_action
recorded a change = do
  (x, detail) ← change
  logged ←
      insert_admin_action a.actor_id a.action a.subject_type a.subject_id (trim_space a.reason)
        detail
  pure (x, logged)

unfoldable pub audited : {A : Type 0} → TxRunner → Action → M (A × Detail) → M (A × AdminAction)
unfolding recorded
audited tx a change =
    if is_empty (trim_space a.reason) then throw reason_required else tx.run _ (recorded a change)
