-- ===== src/RateLimit/Assoc.antt =====
-- The two containers of a limiter: the map, an association list, and the recency list.
use waterloo_star_backend.Common.{
  ◌+◌, ◌≡◌, refl, ◌≢◌, Bool, true, false, Option, none, some, List, [], ◌∷◌, arith, length, ite,
}

module _ {K V : Type 0} (dec : Discrete K) where
  -- `m[k]`
  unfoldable pub lookup : K → List (K × V) → Option V
  lookup k [] = none
  lookup k ((j, v) ∷ m) = ite (dec j k) (some v) (lookup k m)

  -- `delete(m, k)`
  unfoldable pub delete : K → List (K × V) → List (K × V)
  delete k [] = []
  delete k ((j, v) ∷ m) = ite (dec j k) m ((j, v) ∷ delete k m)

  -- `m[k] = v` for a key that is there
  unfoldable pub assign : K → V → List (K × V) → List (K × V)
  assign k v [] = []
  assign k v ((j, w) ∷ m) = ite (dec j k) ((k, v) ∷ m) ((j, w) ∷ assign k v m)

  -- No key stands twice.
  abbrev pub IsMap : List (K × V) → Type 0
  IsMap [] = Unit
  IsMap ((j, _) ∷ m) = (lookup j m ≡ none) × IsMap m

module _ {K : Type 0} where
  -- `l.Back()`
  unfoldable pub back : List K → Option K
  back [] = none
  back (k ∷ []) = some k
  back (k ∷ j ∷ l) = back (j ∷ l)

  -- A list with no back is empty.
  pub back-none : (l : List K) → back l ≡ none → l ≡ []
  unfolding back
  back-none [] h = refl
  back-none (j ∷ []) h = cc
  back-none (j ∷ i ∷ l) h = absurd (cc (back-none (i ∷ l) h))

module _ {K : Type 0} (dec : Discrete K) where
  unfoldable pub contains : K → List K → Bool
  contains k [] = false
  contains k (j ∷ l) = ite (dec j k) true (contains k l)

  -- `l.Remove(e)`, for the element that holds `k`
  unfoldable pub remove : K → List K → List K
  remove k [] = []
  remove k (j ∷ l) = ite (dec j k) l (j ∷ remove k l)

  abbrev pub IsDistinct : List K → Type 0
  IsDistinct [] = Unit
  IsDistinct (j ∷ l) = (contains j l ≡ false) × IsDistinct l

  pub contains-remove_ne : (k q : K) (l : List K) → q ≢ k → contains q (remove k l) ≡ contains q l
  unfolding contains remove
  contains-remove_ne k q [] h = refl
  contains-remove_ne k q (j ∷ l) h = ground (arith, contains-remove_ne k q l)

  -- What has gone is gone, and everything else stays in place.
  pub contains-remove_self : (k : K) (l : List K) → IsDistinct l → contains k (remove k l) ≡ false
  unfolding contains remove
  contains-remove_self k [] h = refl
  contains-remove_self k (j ∷ l) h = ground (arith, contains-remove_self k l)

  pub remove-IsDistinct : (k : K) (l : List K) → IsDistinct l → IsDistinct (remove k l)
  unfolding remove
  remove-IsDistinct k [] h = h
  remove-IsDistinct k (j ∷ l) h = ground (arith, remove-IsDistinct k l, contains-remove_ne k j l)

  pub length-remove :
      (k : K) (l : List K) → contains k l ≡ true → length (remove k l) + 1 ≡ length l
  unfolding contains remove
  length-remove k [] h = cc
  length-remove k (j ∷ l) h = ground (arith, length-remove k l)

  pub remove_absent : (k : K) (l : List K) → contains k l ≡ false → remove k l ≡ l
  unfolding contains remove
  remove_absent k [] h = refl
  remove_absent k (j ∷ l) h = ground (arith, remove_absent k l)

  -- The element at the back is an element.
  pub contains-back : (k : K) (l : List K) → back l ≡ some k → contains k l ≡ true
  unfolding contains back
  contains-back k [] h = cc
  contains-back k (j ∷ []) h = ground arith
  contains-back k (j ∷ i ∷ l) h = ground (arith, contains-back k (i ∷ l))

module _ {K V : Type 0} (dec : Discrete K) where
  pub lookup-delete_ne :
      (k q : K) (m : List (K × V)) → q ≢ k → lookup dec q (delete dec k m) ≡ lookup dec q m
  unfolding lookup delete
  lookup-delete_ne k q [] h = refl
  lookup-delete_ne k q (e ∷ m) h = ground (arith, lookup-delete_ne k q m)

  pub lookup-delete_self :
      (k : K) (m : List (K × V)) → IsMap dec m → lookup dec k (delete dec k m) ≡ none
  unfolding lookup delete
  lookup-delete_self k [] h = refl
  lookup-delete_self k (e ∷ m) h = ground (arith, lookup-delete_self k m)

  pub delete-IsMap : (k : K) (m : List (K × V)) → IsMap dec m → IsMap dec (delete dec k m)
  unfolding delete
  delete-IsMap k [] h = h
  delete-IsMap k (e ∷ m) h = ground (arith, delete-IsMap k m, lookup-delete_ne k e.0 m)

  pub length-delete :
      (k : K) (v : V) (m : List (K × V))
      → lookup dec k m ≡ some v
      → length (delete dec k m) + 1 ≡ length m
  unfolding lookup delete
  length-delete k v [] h = cc
  length-delete k v (e ∷ m) h = ground (arith, length-delete k v m)

  pub lookup-assign_ne :
      (k q : K) (v : V) (m : List (K × V))
      → q ≢ k
      → lookup dec q (assign dec k v m) ≡ lookup dec q m
  unfolding lookup assign
  lookup-assign_ne k q v [] h = refl
  lookup-assign_ne k q v (e ∷ m) h = ground (arith, lookup-assign_ne k q v m)

  pub lookup-assign_self :
      (k : K) (v w : V) (m : List (K × V))
      → lookup dec k m ≡ some w
      → lookup dec k (assign dec k v m) ≡ some v
  unfolding lookup assign
  lookup-assign_self k v w [] h = cc
  lookup-assign_self k v w (e ∷ m) h = ground (arith, lookup-assign_self k v w m)

  pub assign_absent :
      (k : K) (v : V) (m : List (K × V)) → lookup dec k m ≡ none → assign dec k v m ≡ m
  unfolding lookup assign
  assign_absent k v [] h = refl
  assign_absent k v (e ∷ m) h = ground (arith, assign_absent k v m)

  pub length-assign : (k : K) (v : V) (m : List (K × V)) → length (assign dec k v m) ≡ length m
  unfolding assign
  length-assign k v [] = refl
  length-assign k v (e ∷ m) = ground (arith, length-assign k v m)

  pub assign-IsMap : (k : K) (v : V) (m : List (K × V)) → IsMap dec m → IsMap dec (assign dec k v m)
  unfolding assign
  assign-IsMap k v [] h = h
  assign-IsMap k v (e ∷ m) h = ground (arith, assign-IsMap k v m, lookup-assign_ne k e.0 v m)
