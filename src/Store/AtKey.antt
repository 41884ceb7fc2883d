-- ===== src/Store/AtKey.antt =====
-- What stays so of the row under a key.
use waterloo_star_backend.Common.{
  ℕ, ◌≡◌, refl, ◌∙◌, Bool, true, false, ◌||◌, ◌&&◌, is_none, not, none, some, [], ◌∷◌, arith, ◌==◌,
  is_some,
}
use waterloo_star_backend.Store.Table.{
  Table, lookup, update, update_all, find, all_rows, all_rows-lookup, all_rows-find,
  all_rows-update, all_rows-update_all, lookup-update,
}

-- A row is there under a key, and every row under that key passes a test. No table has two rows
-- under one key, and nothing here relies on that.
pub record AtKey {A : Type 0} (q : A → Bool) (k : ℕ) (t : Table A) : Type 0 where
  pub present : is_some (lookup k t) ≡ true
  pub passes : all_rows (λ j a. not (j == k) || q a) t ≡ true

pub lookup-update_all :
    {A : Type 0} (k : ℕ) (f : A → A) (t : Table A)
    → is_some (lookup k (update_all f t)) ≡ is_some (lookup k t)
unfolding lookup update_all
lookup-update_all k f [] = refl
lookup-update_all k f ((j, a) ∷ t) = ground (arith, lookup-update_all k f t)

module _ {A : Type 0} (q : A → Bool) (k : ℕ) where
  pub AtKey-lookup : (a : A) (t : Table A) → AtKey q k t → lookup k t ≡ some a → q a ≡ true
  AtKey-lookup a t h e =
      let passed = all_rows-lookup (λ j a. not (j == k) || q a) k a t h.passes e in ground arith

  pub AtKey-find :
      (p : A → Bool) (j : ℕ) (a : A) (t : Table A)
      → AtKey q k t
      → find p t ≡ some (j, a)
      → q a ≡ false
      → (j == k) ≡ false
  AtKey-find p j a t h e n =
      let passed = all_rows-find (λ j a. not (j == k) || q a) p j a t h.passes e in ground arith

  pub AtKey-lookup_other :
      (j : ℕ) (a : A) (t : Table A)
      → AtKey q k t
      → lookup j t ≡ some a
      → q a ≡ false
      → (j == k) ≡ false
  AtKey-lookup_other j a t h e n =
      let passed = all_rows-lookup (λ j a. not (j == k) || q a) j a t h.passes e in ground arith

  pub AtKey-insert :
      (j : ℕ) (a : A) (t : Table A) → AtKey q k t → lookup j t ≡ none → AtKey q k ((j, a) ∷ t)
  unfolding lookup all_rows
  AtKey-insert j a t h e =
      let present = h.present in
      let passes = h.passes in record { present = ground arith; passes = ground arith }

  -- A row is rewritten so that it passes where it passed before.
  pub AtKey-update :
      (j : ℕ) (a b : A) (t : Table A)
      → AtKey q k t
      → lookup j t ≡ some a
      → (q a ≡ true → q b ≡ true)
      → AtKey q k (update j b t)
  AtKey-update j a b t h e keep =
      let present = h.present in
      let passed = all_rows-lookup (λ j a. not (j == k) || q a) j a t h.passes e in
      record {
        present = ground (arith, lookup-update j k b a t e);
        passes = all_rows-update (λ j a. not (j == k) || q a) j b t h.passes (ground (arith, keep));
      }

  pub AtKey-update_all :
      (f : A → A) (t : Table A)
      → AtKey q k t
      → ((a : A) → q a ≡ true → q (f a) ≡ true)
      → AtKey q k (update_all f t)
  AtKey-update_all f t h keep = record {
    present = lookup-update_all k f t ∙ h.present;
    passes =
        all_rows-update_all (λ j a. not (j == k) || q a) f t (λ j a e. ground (arith, keep a))
          h.passes;
  }

module _ {A : Type 0} where
  -- No two rows under one key: what a primary key says.
  unfoldable pub is_keyed : Table A → Bool
  is_keyed [] = true
  is_keyed ((j, a) ∷ t) = is_none (lookup j t) && is_keyed t

  none-all_rows :
      (q : A → Bool) (k : ℕ) (t : Table A)
      → lookup k t ≡ none
      → all_rows (λ j a. not (j == k) || q a) t ≡ true
  unfolding lookup all_rows
  none-all_rows q k [] h = refl
  none-all_rows q k ((j, a) ∷ t) h = ground (arith, none-all_rows q k t)

  -- The only row under a key is rewritten.
  pub is_keyed-AtKey :
      (q : A → Bool) (k : ℕ) (a b : A) (t : Table A)
      → is_keyed t ≡ true
      → lookup k t ≡ some a
      → q b ≡ true
      → AtKey q k (update k b t)
  unfolding is_keyed update all_rows
  is_keyed-AtKey q k a b t h e given = record {
    present = ground (arith, lookup-update k k b a t e);
    passes = only t h;
  }
    where
      only :
          (t : Table A)
          → is_keyed t ≡ true
          → all_rows (λ j a. not (j == k) || q a) (update k b t) ≡ true
      only [] h = refl
      only ((j, c) ∷ t) h = ground (arith, only t, none-all_rows q k t, given)
