-- ===== src/Store/Table.antt =====
-- A table is a list of rows under their primary keys.
use waterloo_star_backend.Common.{
  ℕ, suc, ◌+◌, ◌≡◌, refl, ◌≢◌, Bool, true, false, ◌&&◌, Option, none, some, List, [], ◌∷◌, arith,
  ◌==◌, if◌then◌else◌,
}

abbrev pub Table : Type 0 → Type 0
Table A = List (ℕ × A)

module _ {A : Type 0} where
  -- SELECT * FROM t WHERE id = $1
  unfoldable pub lookup : ℕ → Table A → Option A
  lookup k [] = none
  lookup k ((j, a) ∷ t) = if j == k then some a else lookup k t

  -- UPDATE t SET … WHERE id = $1
  unfoldable pub update : ℕ → A → Table A → Table A
  update k a [] = []
  update k a ((j, b) ∷ t) = if j == k then (j, a) ∷ t else (j, b) ∷ update k a t

  -- UPDATE t SET …, of every row
  unfoldable pub update_all : (A → A) → Table A → Table A
  update_all f [] = []
  update_all f ((j, a) ∷ t) = (j, f a) ∷ update_all f t

  -- SELECT count(*) FROM t WHERE …
  unfoldable pub count : (A → Bool) → Table A → ℕ
  count p [] = 0
  count p ((j, a) ∷ t) = if p a then suc (count p t) else count p t

  pub lookup-update :
      (k j : ℕ) (a b : A) (t : Table A)
      → lookup k t ≡ some b
      → lookup j (update k a t) ≡ (if k == j then some a else lookup j t)
  unfolding lookup update
  lookup-update k j a b [] h = cc
  lookup-update k j a b ((i, c) ∷ t) h = ground (arith, lookup-update k j a b t)

  pub lookup-update_ne :
      (k j : ℕ) (a : A) (t : Table A) → k ≢ j → lookup j (update k a t) ≡ lookup j t
  unfolding lookup update
  lookup-update_ne k j a [] h = refl
  lookup-update_ne k j a ((i, b) ∷ t) h = ground (arith, lookup-update_ne k j a t)

  -- A row that changes changes the count by what it counts for.
  pub count-update :
      (p : A → Bool) (k : ℕ) (a b : A) (t : Table A)
      → lookup k t ≡ some b
      → count p (update k a t) + (if p b then 1 else 0) ≡ count p t + (if p a then 1 else 0)
  unfolding lookup update count
  count-update p k a b [] h = cc
  count-update p k a b ((i, c) ∷ t) h = ground (arith, count-update p k a b t)

  pub count-update_all :
      (p : A → Bool) (f : A → A) (t : Table A)
      → ((a : A) → p (f a) ≡ false)
      → count p (update_all f t) ≡ 0
  unfolding update_all count
  count-update_all p f [] h = refl
  count-update_all p f ((j, a) ∷ t) h = ground (arith, h a, count-update_all p f t h)

  -- The first row that a test admits, with its key.
  unfoldable pub find : (A → Bool) → Table A → Option (ℕ × A)
  find p [] = none
  find p ((j, a) ∷ t) = let rest = find p t in if p a then some (j, a) else rest

  pub find-passes :
      (p : A → Bool) (k : ℕ) (a : A) (t : Table A) → find p t ≡ some (k, a) → p a ≡ true
  unfolding find
  find-passes p k a [] h = absurd (cc)
  find-passes p k a ((j, b) ∷ t) h = ground (arith, find-passes p k a t)

  -- DELETE FROM t WHERE …, of the rows that a test does not keep
  unfoldable pub keep_rows : (A → Bool) → Table A → Table A
  keep_rows p [] = []
  keep_rows p ((j, a) ∷ t) = let rest = keep_rows p t in if p a then (j, a) ∷ rest else rest

  unfoldable pub all_rows : (ℕ → A → Bool) → Table A → Bool
  all_rows q [] = true
  all_rows q ((j, a) ∷ t) = q j a && all_rows q t

  pub all_rows-find :
      (q : ℕ → A → Bool) (p : A → Bool) (k : ℕ) (a : A) (t : Table A)
      → all_rows q t ≡ true
      → find p t ≡ some (k, a)
      → q k a ≡ true
  unfolding find all_rows
  all_rows-find q p k a [] h f = absurd (cc)
  all_rows-find q p k a ((j, b) ∷ t) h f = ground (arith, all_rows-find q p k a t)

  pub all_rows-lookup :
      (q : ℕ → A → Bool) (k : ℕ) (a : A) (t : Table A)
      → all_rows q t ≡ true
      → lookup k t ≡ some a
      → q k a ≡ true
  unfolding lookup all_rows
  all_rows-lookup q k a [] h f = absurd (cc)
  all_rows-lookup q k a ((j, b) ∷ t) h f = ground (arith, all_rows-lookup q k a t)

  pub all_rows-update :
      (q : ℕ → A → Bool) (k : ℕ) (a : A) (t : Table A)
      → all_rows q t ≡ true
      → q k a ≡ true
      → all_rows q (update k a t) ≡ true
  unfolding update all_rows
  all_rows-update q k a [] h g = refl
  all_rows-update q k a ((j, b) ∷ t) h g = ground (arith, all_rows-update q k a t)

  pub all_rows-update_all :
      (q : ℕ → A → Bool) (f : A → A) (t : Table A)
      → ((k : ℕ) (a : A) → q k a ≡ true → q k (f a) ≡ true)
      → all_rows q t ≡ true
      → all_rows q (update_all f t) ≡ true
  unfolding update_all all_rows
  all_rows-update_all q f [] h g = refl
  all_rows-update_all q f ((j, a) ∷ t) h g = ground (arith, h j a, all_rows-update_all q f t h)

  -- Every row of a table passes a test that every result of a rewriting passes.
  pub all_rows-rewritten :
      (q : ℕ → A → Bool) (f : A → A) (t : Table A)
      → ((k : ℕ) (a : A) → q k (f a) ≡ true)
      → all_rows q (update_all f t) ≡ true
  unfolding update_all all_rows
  all_rows-rewritten q f [] h = refl
  all_rows-rewritten q f ((j, a) ∷ t) h = ground (arith, h j a, all_rows-rewritten q f t h)
