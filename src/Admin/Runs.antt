-- ===== src/Admin/Runs.antt =====
-- Sequences of admin calls: the ledger is only added to, and the last admin stays.
use waterloo_star_backend.Common.{
  ◌≡◌, refl, sym, ap, ◌∙◌, Bool, true, List, [], ◌∷◌, ◌++◌, ◌&&◌, not, arith,
}
use waterloo_star_backend.Common.Text.{is_empty}
use waterloo_star_backend.Store.Rows.{AdminAction}
use waterloo_star_backend.Store.Conn.{Conn, Result, ok, err, TxRunner, IsTransactional}
use waterloo_star_backend.Admin.RoleChange.{admins, KeepsAdmin, KeepsAdmin-eq, KeepsAdmin-trans}
use waterloo_star_backend.Admin.Calls.{AdminCall, perform, Logs}
use waterloo_star_backend.Admin.History.{perform-Logs}

-- The row of a call that returned no error.
abbrev row_of : Result AdminAction → List AdminAction
row_of (ok logged) = logged ∷ []
row_of (err e) = []

-- The rows that the calls returned, newest first, and the connection after them.
unfoldable pub run_calls : TxRunner → List AdminCall → Conn → List AdminAction × Conn
run_calls tx [] c = ([], c)
run_calls tx (call ∷ calls) c =
    let (r, c') = perform tx call c in
    let (rows, c'') = run_calls tx calls c' in (rows ++ row_of r, c'')

unfoldable pub all_reasoned : List AdminAction → Bool
all_reasoned [] = true
all_reasoned (a ∷ rows) = not (is_empty a.reason) && all_reasoned rows

++-assoc : {A : Type 0} (a b c : List A) → (a ++ b) ++ c ≡ a ++ (b ++ c)
++-assoc [] b c = refl
++-assoc (x ∷ a) b c = ap (λ l. x ∷ l) (++-assoc a b c)

all_reasoned-++ :
    (a b : List AdminAction)
    → all_reasoned a ≡ true
    → all_reasoned b ≡ true
    → all_reasoned (a ++ b) ≡ true
unfolding all_reasoned
all_reasoned-++ [] b h k = k
all_reasoned-++ (x ∷ a) b h k = ground (arith, all_reasoned-++ a b)

-- What a sequence may have done: its rows, all with a reason, are what the ledger has more.
abbrev pub Appends : Conn → List AdminAction × Conn → Type 0
Appends c (rows, c') =
    (c'.db.admin_actions ≡ rows ++ c.db.admin_actions)
    × (all_reasoned rows ≡ true)
    × KeepsAdmin c.db c'.db

Logs-Appends :
    (call : AdminCall) (c : Conn) (r : Result AdminAction × Conn)
    → Logs call c r
    → Appends c (row_of r.0, r.1)
unfolding all_reasoned
Logs-Appends call c (err e, c') same =
    (ap (λ d. d.admin_actions) same, refl, KeepsAdmin-eq c.db c'.db (ap admins same))
Logs-Appends call c (ok logged, c') (added, by, at, given, kept) = (added, rw given refl, kept)

Appends-trans :
    (c c' c'' : Conn) (a b : List AdminAction)
    → Appends c (a, c')
    → Appends c' (b, c'')
    → Appends c (b ++ a, c'')
Appends-trans c c' c'' a b (added, given, kept) (added', given', kept') = (
  added' ∙ ap (λ l. b ++ l) added ∙ sym (++-assoc b a c.db.admin_actions),
  all_reasoned-++ b a given' given,
  KeepsAdmin-trans c.db c'.db c''.db kept kept',
)

module _ (tx : TxRunner) (t : IsTransactional tx) where
  -- After any sequence of admin calls, failed ones included, the ledger is the one before with
  -- the rows that the calls returned on top, newest first, each with a reason that is not
  -- blank; and if there was an admin at the start, there is one at the end.
  pub run_calls-Appends : (calls : List AdminCall) (c : Conn) → Appends c (run_calls tx calls c)
  unfolding run_calls all_reasoned
  run_calls-Appends [] c = (refl, refl, KeepsAdmin-eq c.db c.db refl)
  run_calls-Appends (call ∷ calls) c =
      let (r, c') = perform tx call c in
      let (rows, c'') = run_calls tx calls c' in
      Appends-trans c c' c'' (row_of r) rows
        (Logs-Appends call c (r, c') (perform-Logs tx t c call)) (run_calls-Appends calls c')
