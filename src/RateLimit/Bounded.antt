-- ===== src/RateLimit/Bounded.antt =====
-- The limiter's invariant, which every method keeps, and the ceiling on tracked keys.
use waterloo_star_backend.Common.{
  ℕ, zero, suc, ◌+◌, ◌≤◌, ◌<◌, ◌≡◌, refl, ap, ◌∙◌, inl, inr, true, false, some, arith, length, ltb,
  is_some, Bool-cases, Option-cases,
}
use waterloo_star_backend.RateLimit.Assoc.{
  lookup, delete, remove, back, contains, IsMap, IsDistinct, contains-remove_ne,
  contains-remove_self, remove-IsDistinct, length-remove, contains-back, back-none,
  lookup-delete_ne, lookup-delete_self, delete-IsMap, length-delete,
}
use waterloo_star_backend.RateLimit.Bucket.{Bucket}
use waterloo_star_backend.RateLimit.Limiter.{Limiter, drop_locked, evict_oldest, evict}

-- The map and the recency list hold the same keys, each once.
pub record IsSound {K T : Type 0} (dec : Discrete K) (l : Limiter K T) : Type 0 where
  pub one_each : IsMap dec l.buckets
  pub distinct : IsDistinct dec l.recency
  pub agree : (k : K) → contains dec k l.recency ≡ is_some (lookup dec k l.buckets)
  pub same_size : length l.buckets ≡ length l.recency

module _ {K T : Type 0} (dec : Discrete K) where
  module _ (key : K) (l : Limiter K T) (s : IsSound dec l) where
    drop_agree :
        (q : K)
        → contains dec q (remove dec key l.recency)
          ≡ is_some (lookup dec q (delete dec key l.buckets))
    drop_agree q = elim (dec q key) [
      | yes e ↦ ground (
        arith,
        e,
        contains-remove_self dec key l.recency s.distinct,
        lookup-delete_self dec key l.buckets s.one_each,
      )
      | no e ↦ ground (
        arith,
        contains-remove_ne dec key q l.recency e,
        lookup-delete_ne dec key q l.buckets e,
        s.agree q,
      )
    ]

    pub drop_locked-IsSound :
        (b : Bucket T) → lookup dec key l.buckets ≡ some b → IsSound dec (drop_locked dec key l)
    unfolding drop_locked
    drop_locked-IsSound b h = record {
      one_each = delete-IsMap dec key l.buckets s.one_each;
      distinct = remove-IsDistinct dec key l.recency s.distinct;
      agree = drop_agree;
      same_size = ground (
        arith,
        s.same_size,
        s.agree key,
        length-remove dec key l.recency,
        length-delete dec key b l.buckets h,
      );
    }

    -- What is at the back is in the map.
    pub back_present :
        back l.recency ≡ some key → (b : Bucket T) × (lookup dec key l.buckets ≡ some b)
    back_present h = elim (Option-cases (lookup dec key l.buckets)) [
      | inl none_there ↦ absurd (ground (arith, s.agree key, contains-back dec key l.recency))
      | inr there ↦ there
    ]

    pub evict_oldest_lem :
        back l.recency ≡ some key → evict_oldest dec key l ≡ drop_locked dec key l
    unfolding evict_oldest
    evict_oldest_lem h = let (b, e) = back_present h in rw (e, evict_oldest)

    pub evict_oldest-IsSound : back l.recency ≡ some key → IsSound dec (evict_oldest dec key l)
    evict_oldest-IsSound h =
        let (b, e) = back_present h in rw (evict_oldest_lem h) (drop_locked-IsSound b e)

    evict_oldest-length :
        back l.recency ≡ some key → length (evict_oldest dec key l).recency + 1 ≡ length l.recency
    unfolding drop_locked
    evict_oldest-length h =
        rw (evict_oldest_lem h)
          (length-remove dec key l.recency (contains-back dec key l.recency h))

    evict_oldest-max : (evict_oldest dec key l).max_keys ≡ l.max_keys
    unfolding evict_oldest drop_locked
    evict_oldest-max = ground arith

  pub evict-done :
      (fuel : ℕ) (l : Limiter K T) → length l.buckets ≤ l.max_keys → evict dec (suc fuel) l ≡ l
  unfolding evict
  evict-done fuel l h =
      let e : ltb l.max_keys (length l.buckets) ≡ false = ground arith in rw (e, evict)

  pub evict-round :
      (fuel : ℕ) (key : K) (l : Limiter K T)
      → l.max_keys < length l.buckets
      → back l.recency ≡ some key
      → evict dec (suc fuel) l ≡ evict dec fuel (evict_oldest dec key l)
  unfolding evict
  evict-round fuel key l h e =
      let t : ltb l.max_keys (length l.buckets) ≡ true = ground arith in rw (t, e, evict)

  -- The loop ends with the map within its ceiling, and keeps the invariant.
  pub evict-bounded :
      (fuel : ℕ) (l : Limiter K T)
      → IsSound dec l
      → length l.recency < fuel
      → IsSound dec (evict dec fuel l)
        × (length (evict dec fuel l).buckets ≤ l.max_keys)
        × ((evict dec fuel l).max_keys ≡ l.max_keys)
  evict-bounded zero l s h = elim h [ ]
  evict-bounded (suc fuel) l s h = elim (Bool-cases (ltb l.max_keys (length l.buckets))) [
    | inr done ↦
        let within : length l.buckets ≤ l.max_keys = ground arith in
        rw (evict-done fuel l within) (s, within, refl)
    | inl more ↦ elim (Option-cases (back l.recency)) [
      | inl none_left ↦
          absurd (ground (arith, s.same_size, ap length (back-none l.recency none_left)))
      | inr (key, last) ↦
          let (sound, within, same) =
            evict-bounded fuel (evict_oldest dec key l) (evict_oldest-IsSound key l s last)
              (omega (arith, evict_oldest-length key l s last)) in
          rw (evict-round fuel key l (ground arith) last)
            (sound, omega (arith, evict_oldest-max key l s), same ∙ evict_oldest-max key l s)
    ]
  ]
