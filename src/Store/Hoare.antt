-- ===== src/Store/Hoare.antt =====
-- Triples: what code leaves of the database when it succeeds, and the invariant that it leaves
-- when it returns an error, whichever statements fail.
use waterloo_star_backend.Common.{
  ℕ, ◌≡◌, refl, sym, subst, inl, inr, Bool, true, false, Option, none, some, List, [], ◌∷◌,
  if◌then◌else◌,
}
use waterloo_star_backend.Store.Rows.{Db, Error}
use waterloo_star_backend.Store.Conn.{
  Conn, Result, ok, err, M, ◌>>=◌, pure, throw, no_rows_as, query, draw, send, clock, lift, Mail,
  TxRunner, Ended, IsTransactional,
}
use waterloo_star_backend.Handlers.Replies.{attempt}

abbrev pub After : {A : Type 0} → (Db → Type 0) → (A → Db → Type 0) → Result A × Db → Type 0
After I Q (ok a, d) = Q a d
After I Q (err e, d) = I d

pub record Triple {A : Type 0} (I P : Db → Type 0) (m : M A) (Q : A → Db → Type 0) : Type 0 where
  pub holds : (c : Conn) → P c.db → After I Q ((m c).0, (m c).1.db)

module _ {A : Type 0} {I P : Db → Type 0} {Q : A → Db → Type 0} where
  pub pure-Triple : (a : A) → ((d : Db) → P d → Q a d) → Triple I P (pure a) Q
  unfolding pure
  pure-Triple a h = record { holds = λ c p. h c.db p }

  pub throw-Triple : (e : Error) → ((d : Db) → P d → I d) → Triple I P (throw e) Q
  unfolding throw
  throw-Triple e h = record { holds = λ c p. h c.db p }

  pub query-Triple :
      (f : ℕ → Db → Result A × Db)
      → ((d : Db) → P d → I d)
      → ((now : ℕ) (d : Db) → P d → After I Q (f now d))
      → Triple I P (query f) Q
  unfolding query
  query-Triple f fails h = record { holds = λ c p. go c c.faults p }
    where
      go :
          (c : Conn) (faults : List Bool)
          → P c.db
          → let r = query f (record c { faults = faults }) in After I Q (r.0, r.1.db)
      go c [] p = h c.now c.db p
      go c (true ∷ rest) p = fails c.db p
      go c (false ∷ rest) p = h c.now c.db p

  pub lift-Triple :
      (o : Option A)
      → ((d : Db) → P d → I d)
      → ((a : A) (d : Db) → o ≡ some a → P d → Q a d)
      → Triple I P (lift o) Q
  unfolding lift
  lift-Triple none fails h = record { holds = λ c p. fails c.db p }
  lift-Triple (some a) fails h = record { holds = λ c p. h a c.db refl p }

  pub >>=-Triple :
      {B : Type 0} {R : B → Db → Type 0} (m : M A) (f : A → M B)
      → Triple I P m Q
      → ((a : A) → Triple I (Q a) (f a) R)
      → Triple I P (m >>= f) R
  unfolding ◌>>=◌
  >>=-Triple {B} {R} m f k l = record { holds = λ c p. go (m c) (k.holds c p) }
    where
      go :
          (r : Result A × Conn)
          → After I Q (r.0, r.1.db)
          → let s = ◌>>=◌ (λ _. r) f r.1 in After I R (s.0, s.1.db)
      go (ok a, c) q = (l a).holds c q
      go (err e, c) i = i

  pub attempt-Triple : (m : M A) → Triple I P m Q → Triple I P (attempt m) (λ r d. After I Q (r, d))
  unfolding attempt
  attempt-Triple m k = record { holds = λ c p. k.holds c p }

  pub no_rows_as-Triple : (e : Error) (m : M A) → Triple I P m Q → Triple I P (no_rows_as e m) Q
  unfolding no_rows_as
  no_rows_as-Triple e m k = record { holds = λ c p. go (m c) (k.holds c p) }
    where
      go :
          (r : Result A × Conn)
          → After I Q (r.0, r.1.db)
          → let s = no_rows_as e (λ _. r) r.1 in After I Q (s.0, s.1.db)
      go (ok a, c) q = q
      go (err x, c) i = i

  -- A transaction that fails leaves what it found.
  pub run-Triple :
      (tx : TxRunner)
      → IsTransactional tx
      → (m : M A) → ((d : Db) → P d → I d)
      → Triple I P m Q
      → Triple I P (tx.run A m) Q
  run-Triple tx t m fails k = record {
    holds = λ c p. go c p (m c) (tx.run A m c) (k.holds c p) (t.ends A m c);
  }
    where
      go :
          (c : Conn)
          → P c.db
          → (f r : Result A × Conn) → After I Q (f.0, f.1.db)
          → Ended c f r
          → After I Q (r.0, r.1.db)
      go c p (err e, d) (err e', c') q (same, kept) = subst I (sym kept) (fails c.db p)
      go c p (err e, d) (ok y, c') q (same, kept) = absurd (cc)
      go c p (ok y, d) (err e, c') q (inl (same, kept)) = absurd (cc)
      go c p (ok y, d) (err e, c') q (inr (same, kept)) = subst I (sym kept) (fails c.db p)
      go c p (ok y, d) (ok y', c') q (inr (same, kept)) = absurd (cc)
      go c p (ok y, d) (ok y', c') q (inl (same, kept)) =
          let e : y ≡ y' = cc in subst (λ z. Q z c'.db) e (subst (Q y) (sym kept) q)

pub draw-Triple : {I P : Db → Type 0} → ((d : Db) → P d → I d) → Triple I P draw (λ _. P)
unfolding draw
draw-Triple {I} {P} fails = record { holds = λ c p. go c c.draws p }
  where
    go :
        (c : Conn) (draws : List ℕ)
        → P c.db
        → let r = draw (record c { draws = draws }) in After I (λ _. P) (r.0, r.1.db)
    go c [] p = fails c.db p
    go c (x ∷ rest) p = p

pub clock-Triple : {I P : Db → Type 0} → Triple I P clock (λ _. P)
unfolding clock
clock-Triple = record { holds = λ c p. p }

pub send-Triple :
    {I P : Db → Type 0} (mail : Mail) → ((d : Db) → P d → I d) → Triple I P (send mail) (λ _. P)
unfolding send
send-Triple {I} {P} mail fails = record { holds = λ c p. go c c.faults p }
  where
    go :
        (c : Conn) (faults : List Bool)
        → P c.db
        → let r = send mail (record c { faults = faults }) in After I (λ _. P) (r.0, r.1.db)
    go c [] p = p
    go c (true ∷ rest) p = fails c.db p
    go c (false ∷ rest) p = p

pub if-Triple :
    {A : Type 0} {I P : Db → Type 0} {Q : A → Db → Type 0} (b : Bool) (m n : M A)
    → (b ≡ true → Triple I P m Q)
    → (b ≡ false → Triple I P n Q)
    → Triple I P (if b then m else n) Q
if-Triple true m n h k = h refl
if-Triple false m n h k = k refl
