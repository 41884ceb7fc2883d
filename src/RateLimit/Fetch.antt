-- ===== src/RateLimit/Fetch.antt =====
-- `fetch`, the first half of `consult`: what it returns, what it keeps, and whom it evicts.
use waterloo_star_backend.Common.{
  ℕ, suc, ◌+◌, ◌≤◌, ◌<◌, ◌≡◌, sym, ap, ◌∙◌, ◌≢◌, ◌⊎◌, inl, inr, none, some, List, [], ◌∷◌, arith,
  length, ltb, is_some, Bool-cases, Option-cases,
}
use waterloo_star_backend.RateLimit.Assoc.{
  lookup, assign, remove, back, contains, contains-remove_ne, contains-remove_self,
  remove-IsDistinct, length-remove, length-delete, back-none, lookup-assign_ne, lookup-assign_self,
  length-assign, assign-IsMap,
}
use waterloo_star_backend.RateLimit.Bucket.{Bucket}
use waterloo_star_backend.RateLimit.Limiter.{Limiter, drop_locked, evict, evict_locked}
use waterloo_star_backend.RateLimit.Bounded.{
  IsSound, evict_oldest_lem, back_present, evict-done, evict-round,
}

-- The invariant between two calls.
pub record IsValid {K T : Type 0} (dec : Discrete K) (l : Limiter K T) : Type 0 where
  pub sound : IsSound dec l
  pub room : 1 ≤ l.max_keys
  pub bounded : length l.buckets ≤ l.max_keys

module _ {K T : Type 0} (dec : Discrete K) where
  abbrev pub push : K → Bucket T → Limiter K T → Limiter K T
  push key b l = record l { buckets = (key, b) ∷ l.buckets; recency = key ∷ l.recency }

  abbrev pub bring_forward : K → Bucket T → Limiter K T → Limiter K T
  bring_forward key b l = record l {
    buckets = assign dec key b l.buckets;
    recency = key ∷ remove dec key l.recency;
  }

  module _ (key : K) (b : Bucket T) (l : Limiter K T) (s : IsSound dec l) where
    pub push-IsSound : lookup dec key l.buckets ≡ none → IsSound dec (push key b l)
    push-IsSound h = record {
      one_each = (h, s.one_each);
      distinct = (s.agree key ∙ ap is_some h, s.distinct);
      agree = λ q. push_agree q;
      same_size = ap suc s.same_size;
    }
      where
        push_agree :
            (q : K)
            → contains dec q (key ∷ l.recency) ≡ is_some (lookup dec q ((key, b) ∷ l.buckets))
        push_agree q = unfold contains lookup in ground (arith, s.agree q)

    pub bring_forward-IsSound :
        {b₀ : Bucket T} → lookup dec key l.buckets ≡ some b₀ → IsSound dec (bring_forward key b l)
    bring_forward-IsSound {b₀} h = record {
      one_each = assign-IsMap dec key b l.buckets s.one_each;
      distinct = (
        contains-remove_self dec key l.recency s.distinct,
        remove-IsDistinct dec key l.recency s.distinct,
      );
      agree = λ q. forward_agree q;
      same_size = ground (
        arith,
        s.same_size,
        s.agree key,
        length-assign dec key b l.buckets,
        length-remove dec key l.recency,
      );
    }
      where
        forward_agree :
            (q : K)
            → contains dec q (key ∷ remove dec key l.recency)
              ≡ is_some (lookup dec q (assign dec key b l.buckets))
        forward_agree q =
            unfold contains in
            ground (
              arith,
              s.agree q,
              contains-remove_ne dec key q l.recency,
              lookup-assign_ne dec key q b l.buckets,
              lookup-assign_self dec key b b₀ l.buckets h,
            )

    drop_length :
        (old : K) (w : Bucket T) (m : Limiter K T)
        → lookup dec old m.buckets ≡ some w
        → (n : ℕ) → length m.buckets ≤ n + 1
        → length (drop_locked dec old m).buckets ≤ n
    unfolding drop_locked
    drop_length old w m h n e = omega (arith, length-delete dec old w m.buckets h)

    back_push : (old : K) → back l.recency ≡ some old → back (key ∷ l.recency) ≡ some old
    back_push old h = go l.recency h
      where
        go : (r : List K) → back r ≡ some old → back (key ∷ r) ≡ some old
        go [] e = unfold back in cc
        go (j ∷ r) e = unfold back in e

    -- Room for one more, or the map is at its ceiling and the key at the back makes room.
    pub admit :
        1 ≤ l.max_keys
        → length l.buckets ≤ l.max_keys
        → lookup dec key l.buckets ≡ none
        → ((length l.buckets < l.max_keys) × (evict_locked dec (push key b l) ≡ push key b l))
          ⊎ ((old : K) × (length l.buckets ≡ l.max_keys)
              × (back l.recency ≡ some old)
              × (old ≢ key)
              × (evict_locked dec (push key b l) ≡ drop_locked dec old (push key b l)))
    unfolding evict_locked drop_locked
    admit room within absent = elim (Bool-cases (ltb (length l.buckets) l.max_keys)) [
      | inl more ↦
          inl (ground arith, evict-done dec (suc (length l.recency)) (push key b l) (ground arith))
      | inr at_ceiling ↦ elim (Option-cases (back l.recency)) [
        | inl none_left ↦
            absurd (ground (arith, s.same_size, ap length (back-none l.recency none_left)))
        | inr (old, last) ↦
            let pushed = push-IsSound absent in
            let (v, held) = back_present dec old l s last in
            let away : old ≢ key =
              λ e. cc (sym held ∙ ap (λ k. lookup dec k l.buckets) e ∙ absent) in
            let (w, dropped) = back_present dec old (push key b l) pushed (back_push old last) in
            let round_one =
              evict-round dec (suc (length l.recency)) old (push key b l) (ground arith)
                (back_push old last) in
            let oldest = evict_oldest_lem dec old (push key b l) pushed (back_push old last) in
            let within' : length (drop_locked dec old (push key b l)).buckets ≤ l.max_keys =
              drop_length old w (push key b l) dropped l.max_keys (omega arith) in
            inr (
              old,
              ground arith,
              last,
              away,
              round_one
                  ∙ ap (evict dec (suc (length l.recency))) oldest
                  ∙ evict-done dec (length l.recency) (drop_locked dec old (push key b l)) within',
            )
      ]
    ]
