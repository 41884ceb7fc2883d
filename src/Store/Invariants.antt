-- ===== src/Store/Invariants.antt =====
-- Code that keeps an invariant, on success and on error; and triples of whole runs.
use waterloo_star_backend.Common.{
  ℕ, ◌≡◌, refl, ap, subst, ◌⊎◌, inl, inr, Bool, Option, if◌then◌else◌,
}
use waterloo_star_backend.Store.Rows.{Db, Error}
use waterloo_star_backend.Store.Conn.{
  Conn, Result, ok, err, M, ◌>>=◌, pure, throw, query, draw, send, clock, lift, Mail,
}
use waterloo_star_backend.Handlers.Replies.{attempt}
use waterloo_star_backend.Store.Hoare.{
  >>=-Triple, After, Triple, attempt-Triple, clock-Triple, draw-Triple, if-Triple, lift-Triple,
  pure-Triple, query-Triple, send-Triple, throw-Triple,
}

-- The code keeps an invariant, on success and on error.
abbrev pub Keeps : {A : Type 0} → (Db → Type 0) → M A → Type 0
Keeps I m = Triple I I m (λ _. I)

-- The rules of invariants.
module _ {A : Type 0} {I : Db → Type 0} where
  pub pure-Keeps : (a : A) → Keeps I (pure a)
  pure-Keeps a = pure-Triple a (λ d i. i)

  pub throw-Keeps : (e : Error) → Keeps I (throw {A = A} e)
  throw-Keeps e = throw-Triple e (λ d i. i)

  pub lift-Keeps : (o : Option A) → Keeps I (lift o)
  lift-Keeps o = lift-Triple o (λ d i. i) (λ a d e i. i)

  pub query-Keeps :
      (f : ℕ → Db → Result A × Db)
      → ((now : ℕ) (d : Db) → I d → After I (λ _. I) (f now d))
      → Keeps I (query f)
  query-Keeps f h = query-Triple f (λ d i. i) h

  pub >>=-Keeps :
      {B : Type 0} (m : M A) (f : A → M B)
      → Keeps I m
      → ((a : A) → Keeps I (f a))
      → Keeps I (m >>= f)
  >>=-Keeps m f k l = >>=-Triple m f k l

  pub if-Keeps : (b : Bool) (m n : M A) → Keeps I m → Keeps I n → Keeps I (if b then m else n)
  if-Keeps b m n k l = if-Triple b m n (λ _. k) (λ _. l)

  pub weaken-Triple :
      {P Q : Db → Type 0} {R S : A → Db → Type 0} (m : M A)
      → ((d : Db) → Q d → P d)
      → ((a : A) (d : Db) → R a d → S a d)
      → Triple I P m R
      → Triple I Q m S
  weaken-Triple {P} {Q} {R} {S} m h k t = record { holds = λ c q. go (m c) (t.holds c (h c.db q)) }
    where
      go : (r : Result A × Conn) → After I R (r.0, r.1.db) → After I S (r.0, r.1.db)
      go (ok a, c) x = k a c.db x
      go (err e, c) i = i

-- What follows an error as a value keeps the invariant that the error leaves.
pub attempt-Keeps : {A : Type 0} {I : Db → Type 0} (m : M A) → Keeps I m → Keeps I (attempt m)
attempt-Keeps {A} {I} m k =
    weaken-Triple (attempt m) (λ d i. i) (λ r d. either r d) (attempt-Triple m k)
  where
    either : (r : Result A) (d : Db) → After I (λ _. I) (r, d) → I d
    either (ok a) d i = i
    either (err e) d i = i

pub draw-Keeps : {I : Db → Type 0} → Keeps I draw
draw-Keeps = draw-Triple (λ d i. i)

pub send-Keeps : {I : Db → Type 0} (mail : Mail) → Keeps I (send mail)
send-Keeps mail = send-Triple mail (λ d i. i)

pub clock-Keeps : {I : Db → Type 0} → Keeps I clock
clock-Keeps = clock-Triple

pub relax-Triple :
    {A : Type 0} {I J P : Db → Type 0} {Q : A → Db → Type 0} (m : M A)
    → ((d : Db) → I d → J d)
    → Triple I P m Q
    → Triple J P m Q
relax-Triple {A} {I} {J} {P} {Q} m h t = record { holds = λ c p. go (m c) (t.holds c p) }
  where
    go : (r : Result A × Conn) → After I Q (r.0, r.1.db) → After J Q (r.0, r.1.db)
    go (ok a, c) q = q
    go (err e, c) i = h c.db i

-- A triple, of a run that succeeds.
pub ran-Triple :
    {A : Type 0} {I P : Db → Type 0} {Q : A → Db → Type 0} (m : M A) (c : Conn) {a : A} {c' : Conn}
    → Triple I P m Q
    → P c.db
    → m c ≡ (ok a, c')
    → Q a c'.db
ran-Triple {I} {Q} m c t p h = subst (λ r. After I Q (r.0, r.1.db)) h (t.holds c p)

-- What a run leaves and answers, of code that keeps the database and answers one of two ways.
abbrev pub Refuses : {A : Type 0} → A → Db → Result A × Conn → Type 0
Refuses a d (r, c') = (c'.db ≡ d) × ((r ≡ ok a) ⊎ ((e : Error) × (r ≡ err e)))

pub same-Refuses :
    {A : Type 0} (a : A) (m : M A) (c : Conn)
    → Triple (λ d. d ≡ c.db) (λ d. d ≡ c.db) m (λ x d. (d ≡ c.db) × (x ≡ a))
    → Refuses a c.db (m c)
same-Refuses {A} a m c t = go (m c) (t.holds c refl)
  where
    go :
        (r : Result A × Conn)
        → After (λ d. d ≡ c.db) (λ x d. (d ≡ c.db) × (x ≡ a)) (r.0, r.1.db)
        → Refuses a c.db r
    go (ok x, c') (same, e) = (same, inl (ap ok e))
    go (err e, c') same = (same, inr (e, refl))

-- An invariant, after a run that succeeds or not.
pub kept :
    {A : Type 0} {I : Db → Type 0} (m : M A) → Keeps I m → (c : Conn) → I c.db → I ((m c).1.db)
kept {A} {I} m k c i = go (m c) (k.holds c i)
  where
    go : (r : Result A × Conn) → After I (λ _. I) (r.0, r.1.db) → I (r.1.db)
    go (ok a, d) h = h
    go (err e, d) h = h

-- A fact of the state that a step read, for the code that follows
pub with_fact :
    {A : Type 0} {I : Db → Type 0} {F : Type 0} (m : M A)
    → (F → Keeps I m)
    → Triple I (λ d. I d × F) m (λ _. I)
with_fact m k = record { holds = λ c h. (k h.1).holds c h.0 }
