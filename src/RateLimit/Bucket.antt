-- ===== src/RateLimit/Bucket.antt =====
-- One bucket: `Rule`, `Decision`, `Rule.rate`, `retryAfter`, and the parts of `consult` that
-- touch the bucket alone.
use waterloo_star_backend.Common.{ℕ, ◌+◌, ◌-◌, ◌%◌, Bool, ◌||◌, ltb, leb, ◌==◌, if◌then◌else◌}
use waterloo_star_backend.RateLimit.Float.{Float64}
use Prim.Native.String.{String}

pub record Rule : Type 0 where
  pub name : String
  pub burst : ℕ
  pub window : ℕ

pub record Decision : Type 0 where
  pub ok : Bool
  pub retry_after : ℕ

abbrev pub second : ℕ
second = 1_000_000_000

-- `rule.Burst <= 0 || rule.Window <= 0`
unfoldable pub has_no_limit : Rule → Bool
has_no_limit rule = leb rule.burst 0 || leb rule.window 0

-- A duration, rounded up to the second and at least one second.
unfoldable pub round_up : ℕ → ℕ
round_up d =
    let rounded = if d % second == 0 then d else d + (second - d % second) in
    if ltb rounded second then second else rounded

pub record Bucket (T : Type 0) : Type 0 where
  pub tokens : T
  pub last : ℕ

module _ {T : Type 0} ⦃fl : Float64 T⦄ where
  -- tokens restored per nanosecond
  unfoldable pub rate : Rule → T
  rate rule = if has_no_limit rule then fl.of_int 0 else fl.ratio rule.burst rule.window

  -- how long until the bucket holds one whole token
  unfoldable pub retry_after : T → Rule → ℕ
  retry_after tokens rule =
      if fl.le (rate rule) (fl.of_int 0)
      then rule.window
      else (let needed = fl.sub (fl.of_int 1) tokens in
          if fl.le needed (fl.of_int 0) then 0 else round_up (fl.wait needed (rate rule)))

  unfoldable pub full : Rule → T
  full rule = fl.of_int rule.burst

  -- `if b.tokens > full { b.tokens = full }`
  unfoldable pub cap_at : T → T → T
  cap_at top tokens = if fl.lt top tokens then top else tokens

  -- refill for the elapsed time, capped at full
  unfoldable pub refill : Rule → ℕ → Bucket T → Bucket T
  unfolding cap_at full
  refill rule now b =
      if ltb b.last now
      then record {
        tokens = cap_at (full rule) (fl.add b.tokens (fl.restored (now - b.last) (rate rule)));
        last = now;
      }
      else b

  -- `b.tokens--`
  unfoldable pub pay : Bucket T → Bucket T
  pay b = record b { tokens = fl.sub b.tokens (fl.of_int 1) }

  -- `b.tokens >= 1`
  unfoldable pub has_token : Bucket T → Bool
  has_token b = fl.le (fl.of_int 1) b.tokens
