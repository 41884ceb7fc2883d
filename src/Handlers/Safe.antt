-- ===== src/Handlers/Safe.antt =====
-- What a handler's response says of the database.
use waterloo_star_backend.Common.{
  ℕ, ◌≡◌, refl, sym, ap, subst, ◌∙◌, ◌⊎◌, inl, inr, Option, none, some, ◌∷◌, ltb, Bool-cases,
  Option-cases, length,
}
use waterloo_star_backend.Common.Text.{Text, trim_space}
use waterloo_star_backend.Store.Rows.{
  User, AdminAction, Error, no_rows, self_action, already_suspended, not_suspended,
  already_verified, role_unchanged, last_admin, already_removed, not_removed,
}
use waterloo_star_backend.Store.Conn.{Conn, Result, ok, err, M, ◌>>=◌, pure, throw}
use waterloo_star_backend.Admin.RoleChange.{admins, KeepsAdmin, KeepsAdmin-eq, KeepsAdmin-trans}
use waterloo_star_backend.Admin.Calls.{AdminCall, caller, logged_row, Logs}
use waterloo_star_backend.Handlers.Replies.{
  Message, Response, unrouted, shown, refused, Principal, require_admin, admit, attempt, zero_body,
}
use waterloo_star_backend.Handlers.AdminAccounts.{
  AccountOutcome, account_action, account_refusal, account_response, account_handler, drop,
  get_user_for_admin, min_reason_length,
}
use waterloo_star_backend.Handlers.Reads.{get_user_for_admin-Reads}

-- One row of the principal is new on top of the ledger, and an admin is left if there was one.
abbrev pub OneRow : Principal → Conn → Conn → Type 0
OneRow p c c' =
    (logged : AdminAction) × (c'.db.admin_actions ≡ logged ∷ c.db.admin_actions)
    × (logged.actor_id ≡ some p.user_id)
    × KeepsAdmin c.db c'.db

-- What an action that a handler runs may have done.
abbrev pub Acts : Principal → Conn → Result (Unit {0}) × Conn → Type 0
Acts p c (err e, c') = c'.db ≡ c.db
Acts p c (ok _, c') = OneRow p c c'

-- What a handler may have done, by its response: nothing, where it refuses; one row for the
-- admin who asked, where it shows the result; and either of the two, where the server failed.
abbrev pub IsSafe : {A : Type 0} → Option Principal → Conn → Result (Response A) × Conn → Type 0
IsSafe asked c (err e, c') =
    (c'.db ≡ c.db) ⊎ ((p : Principal) × (require_admin asked ≡ some p) × OneRow p c c')
IsSafe asked c (ok unrouted, c') = (require_admin asked ≡ none) × (c' ≡ c)
IsSafe asked c (ok (refused status body), c') =
    (p : Principal) × (require_admin asked ≡ some p) × (c'.db ≡ c.db)
IsSafe asked c (ok (shown x), c') = (p : Principal) × (require_admin asked ≡ some p) × OneRow p c c'

pub OneRow-read : (p : Principal) (c d e : Conn) → e.db ≡ d.db → OneRow p c d → OneRow p c e
OneRow-read p c d e same (logged, added, by, kept) = (
  logged,
  ap (λ x. x.admin_actions) same ∙ added,
  by,
  KeepsAdmin-trans c.db d.db e.db kept (KeepsAdmin-eq d.db e.db (ap admins same)),
)

pub drop-Acts :
    {A : Type 0} (p : Principal) (call : AdminCall) (m : M (A × AdminAction)) (c : Conn)
    → caller call ≡ some p.user_id
    → Logs call c (logged_row (m c))
    → Acts p c (drop m c)
unfolding ◌>>=◌ pure
drop-Acts {A} p call m c mine h = go (m c) h
  where
    go :
        (r : Result (A × AdminAction) × Conn)
        → Logs call c (logged_row r)
        → Acts p c (drop (λ _. r) c)
    go (err e, c') same = same
    go (ok (x, logged), c') (added, by, at, given, kept) = (logged, added, by ∙ mine, kept)

module _ (asked : Option Principal) (p : Principal) (admitted : require_admin asked ≡ some p)
    (c : Conn) where
  -- What follows the action on an account: a reload, a refusal, or an error of the server.
  abbrev after_account : ℕ → Message → Result (Unit {0}) → M AccountOutcome
  after_account id self_message (ok _) = do
    row ← get_user_for_admin id
    pure (record { outcome = record { status = 200; body = zero_body }; account = some row })
  after_account id self_message (err e) = elim (account_refusal self_message e) [
    | none ↦ throw e
    | some o ↦ pure o
  ]

  abbrev pub answered : M AccountOutcome → M (Response User)
  answered m = do o ← m; pure (account_response o)

  refused_account-IsSafe :
      (self_message : Message) (e : Error) (d : Conn)
      → d.db ≡ c.db
      → IsSafe asked c
          (answered (elim (account_refusal self_message e) [ none ↦ throw e | some o ↦ pure o ]) d)
  unfolding account_refusal account_response ◌>>=◌ pure throw
  refused_account-IsSafe self_message no_rows d same = (p, admitted, same)
  refused_account-IsSafe self_message self_action d same = (p, admitted, same)
  refused_account-IsSafe self_message already_suspended d same = (p, admitted, same)
  refused_account-IsSafe self_message not_suspended d same = (p, admitted, same)
  refused_account-IsSafe self_message already_verified d same = (p, admitted, same)
  refused_account-IsSafe self_message role_unchanged d same = (p, admitted, same)
  refused_account-IsSafe self_message last_admin d same = (p, admitted, same)
  refused_account-IsSafe self_message Error.database d same = inl same
  refused_account-IsSafe self_message Error.unique_violation d same = inl same
  refused_account-IsSafe self_message Error.outside d same = inl same
  refused_account-IsSafe self_message Error.reason_required d same = inl same
  refused_account-IsSafe self_message already_removed d same = inl same
  refused_account-IsSafe self_message not_removed d same = inl same
  refused_account-IsSafe self_message Error.no_takedown d same = inl same

  reloaded-IsSafe :
      (id : ℕ) (self_message : Message) (d : Conn)
      → OneRow p c d
      → IsSafe asked c (answered (after_account id self_message (ok tt)) d)
  unfolding account_response ◌>>=◌ pure
  reloaded-IsSafe id self_message d done =
      go (get_user_for_admin id d) ((get_user_for_admin-Reads id).keeps d)
    where
      go :
          (r : Result User × Conn)
          → r.1.db ≡ d.db
          → IsSafe asked c (
              answered
                (do
                  row ← (λ _. r)
                  pure (record {
                    outcome = record { status = 200; body = zero_body };
                    account = some row;
                  }))
                d)
      go (ok row, e) same = (p, admitted, OneRow-read p c d e same done)
      go (err x, e) same = inr (p, admitted, OneRow-read p c d e same done)

  acted-IsSafe :
      (id : ℕ) (self_message : Message) (m : M (Unit {0}))
      → Acts p c (m c)
      → IsSafe asked c (answered (do r ← attempt m; after_account id self_message r) c)
  unfolding ◌>>=◌ attempt
  acted-IsSafe id self_message m h = go (m c) h
    where
      go :
          (r : Result (Unit {0}) × Conn)
          → Acts p c r
          → IsSafe asked c (answered (after_account id self_message r.0) r.1)
      go (ok _, d) done = reloaded-IsSafe id self_message d done
      go (err e, d) same = refused_account-IsSafe self_message e d same

  pub account_action-IsSafe :
      (id : ℕ) (reason : Option Text) (self_message : Message) (act : ℕ → Text → M (Unit {0}))
      → ((text : Text) → Acts p c (act id text c))
      → IsSafe asked c (answered (account_action id reason self_message act) c)
  unfolding account_action account_response ◌>>=◌ pure
  account_action-IsSafe id none self_message act h = (p, admitted, refl)
  account_action-IsSafe id (some reason) self_message act h =
      elim (Bool-cases (ltb (length (trim_space reason)) min_reason_length)) [
        | inl short ↦ rw short (p, admitted, refl)
        | inr enough ↦ elim (Bool-cases (ltb 1000 (length (trim_space reason)))) [
          | inl long ↦ rw (enough, long) (p, admitted, refl)
          | inr fits ↦
              rw (enough, fits)
                (acted-IsSafe id self_message (act id (trim_space reason)) (h (trim_space reason)))
        ]
      ]

pub admit-IsSafe :
    {A : Type 0} (asked : Option Principal) (rest : Principal → M (Response A)) (c : Conn)
    → ((p : Principal) → require_admin asked ≡ some p → IsSafe asked c (rest p c))
    → IsSafe asked c (admit (require_admin asked) rest c)
unfolding pure
admit-IsSafe asked rest c h = elim (Option-cases (require_admin asked)) [
  | inl stranger ↦ subst (λ o. IsSafe asked c (admit o rest c)) (sym stranger) (stranger, refl)
  | inr (p, admitted) ↦ subst (λ o. IsSafe asked c (admit o rest c)) (sym admitted) (h p admitted)
]

pub account_handler-IsSafe :
    (asked : Option Principal) (id : ℕ) (reason : Option Text) (self_message : Message)
    (act : ℕ → ℕ → Text → M (Unit {0})) (c : Conn)
    → ((p : Principal) (text : Text) → Acts p c (act p.user_id id text c))
    → IsSafe asked c (account_handler asked id reason self_message act c)
unfolding account_handler
account_handler-IsSafe asked id reason self_message act c h = admit-IsSafe asked _ c (λ p admitted.
    account_action-IsSafe asked p admitted c id reason self_message (act p.user_id) (h p))
