-- ===== src/RateLimit/Exact.antt =====
-- The limiter on exact numbers: a token is `w` units, a rate is units per nanosecond, and nothing
-- is rounded. On it the policy's arithmetic can be stated: how many calls a bucket lets through.
use waterloo_star_backend.Common.{
  ℕ, suc, ◌+◌, ◌-◌, ◌*◌, ◌/◌, ◌≤◌, ◌≡◌, refl, inl, inr, Bool, true, false, Option, some, List, [],
  ◌∷◌, arith, ltb, leb, if◌then◌else◌, Bool-cases,
}
use waterloo_star_backend.Common.Int.{ℤ, pos, pos_part, ◌+ℤ◌, ◌-ℤ◌, ltb_ℤ, leb_ℤ}
use native.Mathlib.Nat.{le_of_mul-le-mul_left}
use waterloo_star_backend.RateLimit.Float.{Float64, IsIeee}
use waterloo_star_backend.RateLimit.Bucket.{
  Rule, Bucket, has_no_limit, full, rate, refill, cap_at, pay, has_token,
}
use waterloo_star_backend.RateLimit.PerKey.{step, current, answer}

abbrev pub exact : ℕ → Float64 ℤ
exact w = record {
  of_int = λ n. pos (n * w);
  add = λ a b. a +ℤ b;
  sub = λ a b. a -ℤ b;
  lt = ltb_ℤ;
  le = leb_ℤ;
  ratio = λ burst window. pos burst;
  restored = λ elapsed r. pos (elapsed * pos_part r);
  wait = λ needed r. pos_part needed / pos_part r;
}

pub exact-IsIeee : (w : ℕ) → 1 ≤ w → IsIeee ℤ ⦃fl = exact w⦄
unfolding ◌-ℤ◌
exact-IsIeee w h = record {
  lt_irrefl = λ a. ground arith;
  lt_sub_one = λ a b e. ground arith;
  one_le = λ n e. grind arith;
  le_sub_one = λ a e. ground arith;
  needed_pos = λ a e. ground arith;
  ratio_pos = λ b v hb hv. ground arith;
}

halve : {s : ℕ} (w n b : ℕ) → 1 ≤ w → w * n ≤ b * (w + s) → s ≤ w → n ≤ 2 * b
halve {s} w n b hw h short =
    let twice : b * (w + s) ≤ b * (w + w) = grind arith in
    le_of_mul-le-mul_left {k = w} (omega arith) hw

module _ (rule : Rule) where
  -- How many of a run of `Allow` calls on one key are granted: one at `now`, and one after each
  -- of the waits.
  unfoldable pub granted : ℕ → Option (Bucket ℤ) → List ℕ → ℕ
  granted now o [] = 0
  granted now o (wait ∷ waits) =
      let (o', d) = step ⦃fl = exact rule.window⦄ rule true false (now + wait) o in
      let rest = granted (now + wait) o' waits in if d.ok then suc rest else rest

  abbrev pub sum : List ℕ → ℕ
  sum [] = 0
  sum (x ∷ xs) = x + sum xs

  -- One call, on a bucket of `t` units that was last read at `now`.
  abbrev pub level : ℕ → ℕ → Option (Bucket ℤ)
  level t now = some (record { tokens = pos t; last = now })

  filled : ℕ → ℕ → ℕ
  filled t wait =
      if ltb 0 wait
      then (if ltb (rule.burst * rule.window) (t + wait * rule.burst)
          then rule.burst * rule.window
          else t + wait * rule.burst)
      else t

  filled_le : (t wait : ℕ) → filled t wait ≤ t + wait * rule.burst
  unfolding filled
  filled_le t wait = ground arith

  module _ (hb : 1 ≤ rule.burst) (hw : 1 ≤ rule.window) where
    limited : has_no_limit rule ≡ false
    unfolding has_no_limit
    limited = ground arith

    refill_level :
        (t now wait : ℕ)
        → refill ⦃fl = exact rule.window⦄ rule (now + wait) (record { tokens = pos t; last = now })
          ≡ record { tokens = pos (filled t wait); last = now + wait }
    unfolding refill filled full cap_at ◌+ℤ◌ rate
    refill_level t now wait = rw limited (ground arith)

    answer-level :
        (c now : ℕ)
        → let (o, d) =
            answer ⦃fl = exact rule.window⦄ rule true false
              (record { tokens = pos c; last = now }) in
          (o ≡ level (if leb rule.window c then c - rule.window else c) now)
          × (d.ok ≡ leb rule.window c)
    unfolding answer has_token pay ◌-ℤ◌
    answer-level c now = elim (Bool-cases (leb rule.window c)) [
      | inl enough ↦ (ground arith, ground arith)
      | inr short ↦ (ground arith, ground arith)
    ]

    -- One round of the count, by whether the call was granted: the rest of the run starts at
    -- the level that the call leaves.
    count_round :
        (ok : Bool) (c x s : ℕ) (rest : ℕ → ℕ)
        → leb rule.window c ≡ ok
        → c ≤ x
        → ((u : ℕ) → rule.window * rest u ≤ u + rule.burst * s)
        → rule.window
            * (let n = rest (if ok then c - rule.window else c) in if ok then suc n else n)
          ≤ x + rule.burst * s
    count_round true c x s rest e le ih =
        let enough : rule.window ≤ c = ground arith in omega (arith, ih (c - rule.window))
    count_round false c x s rest e le ih = omega (arith, ih c)

    -- the run from a level, whatever bounds the level that its first call finds
    granted_from :
        (t now wait : ℕ) (waits : List ℕ) (x : ℕ)
        → filled t wait ≤ x
        → ((u : ℕ)
            → rule.window * granted (now + wait) (level u (now + wait)) waits
              ≤ u + rule.burst * sum waits)
        → rule.window * granted now (level t now) (wait ∷ waits) ≤ x + rule.burst * sum waits
    unfolding granted step current
    granted_from t now wait waits x le ih =
        let (left, ok) = answer-level (filled t wait) (now + wait) in
        rw (limited, refill_level t now wait, left, ok)
          (count_round (leb rule.window (filled t wait)) (filled t wait) x (sum waits)
            (λ u. granted (now + wait) (level u (now + wait)) waits) refl le ih)

    granted-level :
        (waits : List ℕ) (t now : ℕ)
        → rule.window * granted now (level t now) waits ≤ t + rule.burst * sum waits
    granted-level [] t now = unfold granted in omega arith
    granted-level (wait ∷ waits) t now = omega (
      arith,
      granted_from t now wait waits (t + wait * rule.burst) (filled_le t wait)
          (λ u. granted-level waits u (now + wait)),
    )

    filled-le-full :
        (t wait : ℕ) → t ≤ rule.burst * rule.window → filled t wait ≤ rule.burst * rule.window
    unfolding filled
    filled-le-full t wait h = ground arith

    -- On exact numbers a bucket never lets through more calls than its burst and what its rate
    -- restores between the first call and the last: of `Allow` calls on a bucket last read at
    -- `last` that holds at most its burst, the first after `wait` and one after each of `waits`,
    -- `window` times the number granted is at most `burst` times `window` and `waits` together.
    pub granted-le :
        (t last wait : ℕ) (waits : List ℕ)
        → t ≤ rule.burst * rule.window
        → rule.window * granted last (level t last) (wait ∷ waits)
          ≤ rule.burst * (rule.window + sum waits)
    granted-le t last wait waits h = omega (
      arith,
      granted_from t last wait waits (rule.burst * rule.window) (filled-le-full t wait h)
          (λ u. granted-level waits u (last + wait)),
    )

    -- On exact numbers, in any stretch no longer than the window, a bucket of burst B that
    -- holds at most its burst grants at most 2B `Allow` calls.
    pub granted_twice :
        (t last wait : ℕ) (waits : List ℕ)
        → t ≤ rule.burst * rule.window
        → sum waits ≤ rule.window
        → granted last (level t last) (wait ∷ waits) ≤ 2 * rule.burst
    granted_twice t last wait waits h short = halve _ _ _ hw (granted-le t last wait waits h) short
