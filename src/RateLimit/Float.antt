-- ===== src/RateLimit/Float.antt =====
-- What the limiter does with a float64. The type, its operations and the few laws of IEEE 754
-- that are relied on are parameters: the model does not say how a double rounds.
use waterloo_star_backend.Common.{ℕ, ◌≡◌, ◌≤◌, Bool, true, false}

pub record Float64 (T : Type 0) : Type 0 where
  -- float64(n)
  pub of_int : ℕ → T
  pub add : T → T → T
  pub sub : T → T → T
  -- a < b and a <= b
  pub lt : T → T → Bool
  pub le : T → T → Bool
  -- float64(burst) / float64(window)
  pub ratio : ℕ → ℕ → T
  -- float64(elapsed) * rate
  pub restored : ℕ → T → T
  -- time.Duration(needed / rate), for positive operands, where the quotient fits an int64
  pub wait : T → T → ℕ

-- The laws, none of which asks for exact arithmetic: rounding is monotonic, small whole numbers
-- are exact, and the order is that of the numbers.
pub record IsIeee (T : Type 0) ⦃fl : Float64 T⦄ : Type 0 where
  pub lt_irrefl : (a : T) → fl.lt a a ≡ false
  pub lt_sub_one : (a b : T) → fl.lt a b ≡ false → fl.lt a (fl.sub b (fl.of_int 1)) ≡ false
  pub one_le : (n : ℕ) → 1 ≤ n → fl.le (fl.of_int 1) (fl.of_int n) ≡ true
  pub le_sub_one :
      (a : T) → fl.le (fl.of_int 1) a ≡ false → fl.le (fl.of_int 1) (fl.sub a (fl.of_int 1)) ≡ false
  -- 1 - a is above 0 where a is not 1 or more
  pub needed_pos :
      (a : T) → fl.le (fl.of_int 1) a ≡ false → fl.le (fl.sub (fl.of_int 1) a) (fl.of_int 0) ≡ false
  -- a whole number from 1 up, divided by another, is above 0
  pub ratio_pos : (b w : ℕ) → 1 ≤ b → 1 ≤ w → fl.le (fl.ratio b w) (fl.of_int 0) ≡ false
