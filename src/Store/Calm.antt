-- ===== src/Store/Calm.antt =====
-- A run that succeeds meets no fault on its way, so it does what it does on a connection that
-- never fails. The rules here show it step by step; the connection without faults then computes.
use waterloo_star_backend.Common.{ℕ, ◌≡◌, refl, ap, ◌∙◌, Bool, true, false, List, [], ◌∷◌}
use waterloo_star_backend.Store.Rows.{Db, Error}
use waterloo_star_backend.Store.Conn.{
  Conn, Result, ok, err, M, ◌>>=◌, pure, throw, no_rows_as, query, draw,
}

abbrev pub calm : Conn → Conn
calm c = record c { faults = [] }

pub record IsCalm {A : Type 0} (m : M A) : Type 0 where
  pub runs : (c d : Conn) (a : A) → m c ≡ (ok a, d) → m (calm c) ≡ (ok a, calm d)

module _ {A : Type 0} where
  pub pure-IsCalm : (a : A) → IsCalm (pure a)
  unfolding pure
  pure-IsCalm a = record { runs = λ c d x h. cc }

  pub throw-IsCalm : (e : Error) → IsCalm (throw {A = A} e)
  unfolding throw
  throw-IsCalm e = record { runs = λ c d x h. absurd (cc) }

  pub query-IsCalm : (f : ℕ → Db → Result A × Db) → IsCalm (query f)
  unfolding query
  query-IsCalm f = record { runs = λ c d x h. go c d x c.faults h }
    where
      settled : Result A × Conn → Result A × Conn
      settled q = (q.0, calm q.1)

      go :
          (c d : Conn) (a : A) (faults : List Bool)
          → query f (record c { faults = faults }) ≡ (ok a, d)
          → query f (calm c) ≡ (ok a, calm d)
      go c d a [] h = ap settled h
      go c d a (true ∷ rest) h = absurd (cc)
      go c d a (false ∷ rest) h = ap settled h

  pub no_rows_as-IsCalm : (e : Error) (m : M A) → IsCalm m → IsCalm (no_rows_as e m)
  unfolding no_rows_as
  no_rows_as-IsCalm e m k = record { runs = λ c d x h. go c d x (m c) refl h }
    where
      settled : Result A × Conn → Result A × Conn
      settled q = (q.0, calm q.1)

      go :
          (c d : Conn) (a : A) (p : Result A × Conn)
          → m c ≡ p
          → no_rows_as e (λ _. p) c ≡ (ok a, d)
          → no_rows_as e m (calm c) ≡ (ok a, calm d)
      go c d a (ok x, c₁) ran h =
          ap (λ q. no_rows_as e (λ _. q) c) (k.runs c c₁ x ran) ∙ ap settled h
      go c d a (err x, c₁) ran h = absurd (cc)

  pub >>=-IsCalm :
      {B : Type 0} (m : M A) (f : A → M B) → IsCalm m → ((a : A) → IsCalm (f a)) → IsCalm (m >>= f)
  unfolding ◌>>=◌
  >>=-IsCalm {B} m f k l = record { runs = λ c d x h. go c d x (m c) refl h }
    where
      go :
          (c d : Conn) (b : B) (p : Result A × Conn)
          → m c ≡ p
          → (◌>>=◌ (λ _. p) f) c ≡ (ok b, d)
          → (m >>= f) (calm c) ≡ (ok b, calm d)
      go c d b (ok x, c₁) ran h =
          ap (λ q. (◌>>=◌ (λ _. q) f) c) (k.runs c c₁ x ran) ∙ (l x).runs c₁ d b h
      go c d b (err x, c₁) ran h = absurd (cc)

pub ruleset calm_rules = (pure-IsCalm, throw-IsCalm, query-IsCalm, no_rows_as-IsCalm, >>=-IsCalm)

pub draw-IsCalm : IsCalm draw
unfolding draw
draw-IsCalm = record { runs = λ c d x h. go c d x c.draws h }
  where
    settled : Result ℕ × Conn → Result ℕ × Conn
    settled q = (q.0, calm q.1)

    go :
        (c d : Conn) (a : ℕ) (draws : List ℕ)
        → draw (record c { draws = draws }) ≡ (ok a, d)
        → draw (calm (record c { draws = draws })) ≡ (ok a, calm d)
    go c d a [] h = absurd (cc)
    go c d a (y ∷ rest) h = ap settled h
