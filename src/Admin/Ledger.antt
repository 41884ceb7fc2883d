-- ===== src/Admin/Ledger.antt =====
-- The ledger: an action that fails writes nothing, and one that succeeds writes one row.
use waterloo_star_backend.Common.{
  ℕ, ◌≡◌, refl, ◌∙◌, ◌⊎◌, inl, inr, Bool, true, false, List, [], ◌∷◌, Bool-cases,
}
use waterloo_star_backend.Common.Text.{trim_space, is_empty}
use waterloo_star_backend.Store.Rows.{AdminAction, Detail, database}
use waterloo_star_backend.Store.Conn.{
  Conn, Result, ok, err, M, ◌>>=◌, pure, throw, TxRunner, Ended, IsTransactional, query,
}
use waterloo_star_backend.Store.Queries.{insert_admin_action, insert_admin_action_sql}
use waterloo_star_backend.Admin.Audit.{Action, recorded, audited}

-- The row for an action, with the detail of its change, at a time.
abbrev pub row_for : Action → Detail → ℕ → AdminAction
row_for a detail now = record {
  actor_id = a.actor_id;
  action = a.action;
  subject_type = a.subject_type;
  subject_id = a.subject_id;
  reason = trim_space a.reason;
  detail = detail;
  created_at = now;
}

-- The statement that writes the ledger: it fails, or adds the row and changes nothing else.
insert_cases :
    (a : Action) (detail : Detail) (d : Conn)
    → let (r, d') =
        insert_admin_action a.actor_id a.action a.subject_type a.subject_id
          (trim_space a.reason)
          detail
          d in
      (r ≡ err database)
      ⊎ ((r ≡ ok (row_for a detail d.now))
          × (d'.db ≡ record d.db { admin_actions = row_for a detail d.now ∷ d.db.admin_actions }))
unfolding insert_admin_action insert_admin_action_sql query
insert_cases a detail d = go d.faults
  where
    go :
        (faults : List Bool)
        → let (r, d') =
            insert_admin_action a.actor_id a.action a.subject_type a.subject_id
              (trim_space a.reason)
              detail
              (record d { faults = faults }) in
          (r ≡ err database)
          ⊎ ((r ≡ ok (row_for a detail d.now))
              × (d'.db
                  ≡ record d.db { admin_actions = row_for a detail d.now ∷ d.db.admin_actions }))
    go [] = inr (refl, refl)
    go (true ∷ rest) = inl refl
    go (false ∷ rest) = inr (refl, refl)

-- What the function in the transaction has done, given how its change ended: failed, or added
-- the row on top of what the change left.
abbrev Recorded :
    {A : Type 0} → Action → Result (A × Detail) × Conn → Result (A × AdminAction) × Conn → Type 0
Recorded a p (err e, c') = Unit {0}
Recorded {A} a p (ok (x, logged), c') =
    (detail : Detail) × (d : Conn) × (p ≡ (ok (x, detail), d))
    × (logged ≡ row_for a detail d.now)
    × (c'.db ≡ record d.db { admin_actions = logged ∷ d.db.admin_actions })

module _ {A : Type 0} (a : Action) where
  -- the rest of `recorded`, once its change has run
  abbrev write_row : A → Detail → M (A × AdminAction)
  write_row x detail = do
    logged ←
        insert_admin_action a.actor_id a.action a.subject_type a.subject_id (trim_space a.reason)
          detail
    pure (x, logged)

  abbrev finish : Result (A × Detail) × Conn → Result (A × AdminAction) × Conn
  finish p = elim p.0 [ ok y ↦ write_row y.0 y.1 p.1 | err e ↦ (err e, p.1) ]

  write_row-Recorded :
      (x : A) (detail : Detail) (d : Conn) → Recorded a (ok (x, detail), d) (write_row x detail d)
  unfolding ◌>>=◌ pure
  write_row-Recorded x detail d =
      go
        (insert_admin_action a.actor_id a.action a.subject_type a.subject_id (trim_space a.reason)
          detail d)
        (insert_cases a detail d)
    where
      go :
          (q : Result AdminAction × Conn)
          → ((q.0 ≡ err database)
              ⊎ ((q.0 ≡ ok (row_for a detail d.now))
                  × (q.1.db ≡ record d.db {
                    admin_actions = row_for a detail d.now ∷ d.db.admin_actions;
                  })))
          → Recorded a
              (ok (x, detail), d)
              (elim q.0 [ ok logged ↦ (ok (x, logged), q.1) | err e ↦ (err e, q.1) ])
      go (err e, d') cases = tt
      go (ok logged, d') (inl bad) = absurd (cc)
      go (ok logged, d') (inr (same, wrote)) =
          let e : logged ≡ row_for a detail d.now = cc in (detail, d, refl, e, rw e wrote)

  finish-Recorded : (p : Result (A × Detail) × Conn) → Recorded a p (finish p)
  finish-Recorded (err e, d) = tt
  finish-Recorded (ok (x, detail), d) = write_row-Recorded x detail d

  recorded-finish : (change : M (A × Detail)) (c : Conn) → recorded a change c ≡ finish (change c)
  unfolding recorded ◌>>=◌ pure
  recorded-finish change c = refl

-- What an audited action may have done, given how its change ends: nothing, or the change with
-- its row on top.
abbrev pub Audits :
    {A : Type 0}
    → Action
    → Conn
    → Result (A × Detail) × Conn
    → Result (A × AdminAction) × Conn
    → Type 0
Audits a c p (err e, c') = c'.db ≡ c.db
Audits a c p (ok (x, logged), c') =
    (detail : Detail) × (d : Conn) × (p ≡ (ok (x, detail), d))
    × (is_empty (trim_space a.reason) ≡ false)
    × (logged ≡ row_for a detail d.now)
    × (c'.db ≡ record d.db { admin_actions = logged ∷ d.db.admin_actions })

module _ {A : Type 0} (a : Action) (c : Conn) where
  Ended-Audits :
      is_empty (trim_space a.reason) ≡ false
      → (p : Result (A × Detail) × Conn) → (f r : Result (A × AdminAction) × Conn) → Recorded a p f
      → Ended c f r
      → Audits a c p r
  Ended-Audits given p (err e, d) (err e', c') rec (same, kept) = kept
  Ended-Audits given p (err e, d) (ok y, c') rec (same, kept) = absurd (cc)
  Ended-Audits given p (ok y, d) (err e, c') rec (inl (same, kept)) = absurd (cc)
  Ended-Audits given p (ok y, d) (err e, c') rec (inr (same, kept)) = kept
  Ended-Audits given p (ok y, d) (ok y', c') rec (inr (same, kept)) = absurd (cc)
  Ended-Audits given p (ok (x, logged), d) (ok (x', logged'), c') (detail, d', ran, row, wrote)
        (inl (same, kept)) =
      let e : x' ≡ x = cc in
      let e' : logged' ≡ logged = cc in rw (e, e') (detail, d', ran, given, row, kept ∙ wrote)

module _ (tx : TxRunner) (t : IsTransactional tx) {A : Type 0} where
  -- An audited action either fails and leaves the database as it was, or its reason is not
  -- blank, its change went through, and the database is what the change left with one row
  -- added: the action's, with the trimmed reason, the change's detail and the time.
  pub audited-Audits :
      (a : Action) (change : M (A × Detail)) (c : Conn)
      → Audits a c (change c) (audited tx a change c)
  unfolding audited throw
  audited-Audits a change c = elim (Bool-cases (is_empty (trim_space a.reason))) [
    | inl blank ↦ rw blank refl
    | inr given ↦ rw given (
        Ended-Audits a c given (change c) (recorded a change c)
          (tx.run (A × AdminAction) (recorded a change) c)
          (rw (recorded-finish a change c) (finish-Recorded a (change c)))
          (t.ends (A × AdminAction) (recorded a change) c))
  ]
