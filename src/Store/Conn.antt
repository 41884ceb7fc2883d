-- ===== src/Store/Conn.antt =====
-- A connection, the monad of code that runs on it, and the transaction runner of
-- internal/db/audit.go.
use waterloo_star_backend.Common.{ℕ, ◌≡◌, ◌⊎◌, Bool, true, false, Option, none, some, List, [], ◌∷◌}
use waterloo_star_backend.Common.Text.{Text}
use waterloo_star_backend.Store.Rows.{Db, Error, database, outside}

pub data Result (A : Type 0) : Type 0 where
  ok : A → Result A
  err : Error → Result A

-- What is sent: a link with its raw token, or a notification about a conversation.
pub data Mail : Type 0 where
  verification_mail reset_mail : Text → Text → Mail
  notification_mail : Text → ℕ → Mail

-- The database, whether each query to come fails, the time of the transaction, `now()`, what the
-- source of random values has yet to give, and what was sent, newest first.
pub record Conn : Type 0 where
  pub db : Db
  pub faults : List Bool
  pub now : ℕ
  pub draws : List ℕ
  pub outbox : List Mail

abbrev pub M : Type 0 → Type 0
M A = Conn → Result A × Conn

-- Each of these stays shut, so that a rule of Store/Calm.antt can be applied to each step.
infixl 5 ◌>>=◌ ◌>>◌
unfoldable pub ◌>>=◌ : {A B : Type 0} → M A → (A → M B) → M B
◌>>=◌ m f c = let (r, c') = m c in elim r [ ok a ↦ f a c' | err e ↦ (err e, c') ]

abbrev pub ◌>>◌ : {A B : Type 0} → M A → M B → M B
m >> k = m >>= λ _. k

unfoldable pub pure : {A : Type 0} → A → M A
pure a c = (ok a, c)

unfoldable pub throw : {A : Type 0} → Error → M A
throw e c = (err e, c)

-- `if errors.Is(err, pgx.ErrNoRows) { return e }`, and any other error as it is
unfoldable pub no_rows_as : {A : Type 0} → Error → M A → M A
no_rows_as e m c =
    let (r, c') = m c in
    elim r [ ok a ↦ (ok a, c') | err x ↦ (err (elim x [ Error.no_rows ↦ e | y ↦ y ]), c') ]

-- A statement: it fails where a fault is due, and reads and writes the database where none is.
unfoldable pub query : {A : Type 0} → (ℕ → Db → Result A × Db) → M A
query f c = elim c.faults [
  | [] ↦ let (r, d) = f c.now c.db in (r, record c { db = d })
  | failed ∷ rest ↦ elim failed [
    | true ↦ (err database, record c { faults = rest })
    | false ↦ let (r, d) = f c.now c.db in (r, record c { db = d; faults = rest })
  ]
]

-- `rand.Read`, and the default of a key column: the next random value, or an error.
unfoldable pub draw : M ℕ
draw c = elim c.draws [ [] ↦ (err outside, c) | x ∷ rest ↦ (ok x, record c { draws = rest }) ]

-- `time.Now()`: one clock serves the program and the database.
unfoldable pub clock : M ℕ
clock c = (ok c.now, c)

-- `mailer.Send`, which may fail as a statement may
unfoldable pub send : Mail → M (Unit {0})
send mail c = elim c.faults [
  | [] ↦ (ok tt, record c { outbox = mail ∷ c.outbox })
  | failed ∷ rest ↦ elim failed [
    | true ↦ (err outside, record c { faults = rest })
    | false ↦ (ok tt, record c { faults = rest; outbox = mail ∷ c.outbox })
  ]
]

-- A Go function that may return an error, on its own: bcrypt, the signing of a token.
unfoldable pub lift : {A : Type 0} → Option A → M A
lift none c = (err outside, c)
lift (some a) c = (ok a, c)

-- `TxRunner`: it runs a function inside one transaction. The real one is pgx's `BeginFunc`.
pub record TxRunner : Type 1 where
  pub run : (A : Type 0) → M A → M A

-- `Direct`: no transaction at all.
unfoldable pub direct : TxRunner
direct = record { run = λ A fn. fn }

-- How a transaction ended: the function failed, or the commit did, and nothing is written; or
-- all of it is.
abbrev pub Ended : {A : Type 0} → Conn → Result A × Conn → Result A × Conn → Type 0
Ended c (err e, _) (r, c') = (r ≡ err e) × (c'.db ≡ c.db)
Ended c (ok a, d) (r, c') = ((r ≡ ok a) × (c'.db ≡ d.db)) ⊎ ((r ≡ err database) × (c'.db ≡ c.db))

-- What pgx documents of `BeginFunc`: an error of the function rolls back and is returned, and a
-- nil error commits, or returns the error of the commit with nothing written.
pub record IsTransactional (tx : TxRunner) : Type 1 where
  pub ends : (A : Type 0) (fn : M A) (c : Conn) → Ended c (fn c) (tx.run A fn c)
