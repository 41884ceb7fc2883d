-- ===== src/RateLimit/Calls.antt =====
-- Every sequence of calls, and the ceiling on what the limiter holds.
use waterloo_star_backend.Common.{
  ℕ, ◌≤◌, ◌≡◌, refl, ◌∙◌, true, false, List, [], ◌∷◌, arith, leb, if◌then◌else◌,
}
use waterloo_star_backend.RateLimit.Float.{Float64}
use waterloo_star_backend.RateLimit.Assoc.{contains, lookup}
use waterloo_star_backend.RateLimit.Bucket.{Rule}
use waterloo_star_backend.RateLimit.Limiter.{
  Limiter, make, tracked, reset as reset_limiter, allow as allow_key, peek as peek_key,
  spend as spend_key, default_max_keys,
}
use waterloo_star_backend.RateLimit.Fetch.{IsValid}
use waterloo_star_backend.RateLimit.PerKey.{consult-step}

pub data Call (K : Type 0) : Type 0 where
  allow peek spend : Rule → K → ℕ → Call K
  reset : Call K

module _ {K T : Type 0} (dec : Discrete K) ⦃fl : Float64 T⦄ where
  unfoldable pub call : Call K → Limiter K T → Limiter K T
  call (Call.allow rule key now) l = (allow_key dec rule key now l).0
  call (Call.peek rule key now) l = (peek_key dec rule key now l).0
  call (Call.spend rule key now) l = (spend_key dec rule key now l).0
  call Call.reset l = reset_limiter l

  unfoldable pub run : List (Call K) → Limiter K T → Limiter K T
  unfolding call
  run [] l = l
  run (c ∷ cs) l = run cs (call c l)

  pub make-IsValid : (n : ℕ) → IsValid dec (make {K = K} {T = T} n)
  unfolding make lookup contains
  make-IsValid n = record {
    sound = record { one_each = tt; distinct = tt; agree = λ k. refl; same_size = refl };
    room = ground arith;
    bounded = ground arith;
  }

  reset-IsValid : (l : Limiter K T) → IsValid dec l → IsValid dec (reset_limiter l)
  unfolding reset_limiter lookup contains
  reset-IsValid l v = record {
    sound = record { one_each = tt; distinct = tt; agree = λ k. refl; same_size = refl };
    room = v.room;
    bounded = omega arith;
  }

  pub call-IsValid :
      (c : Call K) (l : Limiter K T)
      → IsValid dec l
      → IsValid dec (call c l) × ((call c l).max_keys ≡ l.max_keys)
  unfolding call allow_key peek_key spend_key
  call-IsValid (Call.allow rule key now) l v =
      let (_, k) = consult-step dec rule key true false now l v in (k.valid, k.same_max)
  call-IsValid (Call.peek rule key now) l v =
      let (_, k) = consult-step dec rule key false false now l v in (k.valid, k.same_max)
  call-IsValid (Call.spend rule key now) l v =
      let (_, k) = consult-step dec rule key true true now l v in (k.valid, k.same_max)
  call-IsValid Call.reset l v = (reset-IsValid l v, unfold reset_limiter in refl)

  pub run-IsValid :
      (cs : List (Call K)) (l : Limiter K T)
      → IsValid dec l
      → IsValid dec (run cs l) × ((run cs l).max_keys ≡ l.max_keys)
  unfolding run
  run-IsValid [] l v = (v, refl)
  run-IsValid (c ∷ cs) l v =
      let (w, e) = call-IsValid c l v in let (w', e') = run-IsValid cs (call c l) w in (w', e' ∙ e)

-- Whatever calls are made, with whatever rules, keys and times, a limiter built for `n` keys
-- tracks at most `n` of them, or 20000 where `n` is 0.
pub tracked-run :
    {K : Type 0} (T : Type 0) (dec : Discrete K) ⦃fl : Float64 T⦄ (n : ℕ) (cs : List (Call K))
    → tracked (run dec cs (make {K = K} {T = T} n)) ≤ (if leb n 0 then default_max_keys else n)
unfolding tracked make
tracked-run T dec n cs =
    let (v, e) = run-IsValid dec cs (make {T = T} n) (make-IsValid dec n) in
    omega (arith, e, v.bounded)
