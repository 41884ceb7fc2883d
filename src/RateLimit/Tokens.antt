-- ===== src/RateLimit/Tokens.antt =====
-- What a key's bucket holds, and what a caller is told.
use waterloo_star_backend.Common.{
  ℕ, ◌+◌, ◌%◌, ◌≤◌, ◌<◌, ◌≡◌, refl, sym, ap, ◌∙◌, ◌⊎◌, inl, inr, Bool, true, false, ◌&&◌, Option,
  none, some, arith, if◌then◌else◌, Bool-cases,
}
use waterloo_star_backend.RateLimit.Float.{Float64, IsIeee}
use waterloo_star_backend.RateLimit.Assoc.{lookup}
use waterloo_star_backend.RateLimit.Bucket.{
  Rule, Decision, Bucket, second, has_no_limit, round_up, rate, retry_after, full, refill, pay,
  has_token,
}
use waterloo_star_backend.RateLimit.Limiter.{Limiter, consult, peek}
use waterloo_star_backend.RateLimit.Fetch.{IsValid}
use waterloo_star_backend.RateLimit.PerKey.{current, answer, step, consult-step}

-- A wait is rounded up to whole seconds, at least one, and by less than a second unless it is
-- shorter than that.
pub round_up_bounds :
    (d : ℕ)
    → (d ≤ round_up d)
      × (second ≤ round_up d)
      × (round_up d % second ≡ 0)
      × ((round_up d < d + second) ⊎ (round_up d ≡ second))
unfolding round_up
round_up_bounds d = ground arith

-- What a decision may say: no wait for what may proceed, and whole seconds, at least one, for
-- what may not.
abbrev pub IsHonest : Decision → Type 0
IsHonest d =
    ((d.ok ≡ true) × (d.retry_after ≡ 0))
    ⊎ ((d.ok ≡ false) × (second ≤ d.retry_after) × (d.retry_after % second ≡ 0))

-- A bucket holds no more than its rule's burst.
abbrev pub IsCapped : {T : Type 0} ⦃fl : Float64 T⦄ → Rule → Option (Bucket T) → Type 0
IsCapped rule none = Unit
IsCapped ⦃fl⦄ rule (some b) = fl.lt (full rule) b.tokens ≡ false

module _ {T : Type 0} ⦃fl : Float64 T⦄ (ieee : IsIeee T) where
  rate_pos : (rule : Rule) → has_no_limit rule ≡ false → fl.le (rate rule) (fl.of_int 0) ≡ false
  unfolding rate has_no_limit
  rate_pos rule limited =
      rw limited (ieee.ratio_pos rule.burst rule.window (ground arith) (ground arith))

  retry_after-round_up :
      (tokens : T) (rule : Rule)
      → has_no_limit rule ≡ false
      → fl.le (fl.of_int 1) tokens ≡ false
      → retry_after tokens rule ≡ round_up (fl.wait (fl.sub (fl.of_int 1) tokens) (rate rule))
  unfolding retry_after
  retry_after-round_up tokens rule limited low =
      rw (rate_pos rule limited, ieee.needed_pos tokens low)

  refused-IsHonest :
      (tokens : T) (rule : Rule)
      → has_no_limit rule ≡ false
      → fl.le (fl.of_int 1) tokens ≡ false
      → IsHonest (record { ok = false; retry_after = retry_after tokens rule })
  refused-IsHonest tokens rule limited low =
      let (_, least, whole, _) =
        round_up_bounds (fl.wait (fl.sub (fl.of_int 1) tokens) (rate rule)) in
      rw (retry_after-round_up tokens rule limited low) (inr (refl, least, whole))

  answer-IsHonest :
      (rule : Rule) (take force : Bool) (b : Bucket T)
      → has_no_limit rule ≡ false
      → IsHonest (answer rule take force b).1
  unfolding answer has_token pay
  answer-IsHonest rule take force b limited = elim (Bool-cases (has_token b)) [
    | inl granted ↦ rw granted (inl (refl, refl))
    | inr low ↦ rw low (go low (take && force))
  ]
    where
      go :
          fl.le (fl.of_int 1) b.tokens ≡ false
          → (c : Bool)
          → IsHonest (record {
            ok = false;
            retry_after = retry_after (if c then pay b else b).tokens rule;
          })
      go low true = refused-IsHonest (pay b).tokens rule limited (ieee.le_sub_one b.tokens low)
      go low false = refused-IsHonest b.tokens rule limited low

  -- Every answer of the limiter is honest: a call that may proceed is told to wait 0, and one
  -- that may not is told a whole number of seconds, at least one.
  pub consult-IsHonest :
      {K : Type 0} (dec : Discrete K) (rule : Rule) (key : K) (take force : Bool) (now : ℕ)
      (l : Limiter K T)
      → IsValid dec l
      → IsHonest (consult dec rule key take force now l).1
  unfolding step
  consult-IsHonest dec rule key take force now l v =
      let (e, _) = consult-step dec rule key take force now l v in
      rw e (go (lookup dec key l.buckets))
    where
      go : (o : Option (Bucket T)) → IsHonest (step rule take force now o).1
      go o = elim (Bool-cases (has_no_limit rule)) [
        | inl free ↦ rw free (inl (refl, refl))
        | inr limited ↦ rw limited (answer-IsHonest rule take force (current rule now o) limited)
      ]

  current-IsCapped :
      (rule : Rule) (now : ℕ) (o : Option (Bucket T))
      → IsCapped rule o
      → IsCapped rule (some (current rule now o))
  unfolding current refill
  current-IsCapped rule now none h = ieee.lt_irrefl _
  current-IsCapped rule now (some b) h = ground (arith, ieee.lt_irrefl (full rule))

  answer-IsCapped :
      (rule : Rule) (take force : Bool) (b : Bucket T)
      → IsCapped rule (some b)
      → IsCapped rule (answer rule take force b).0
  unfolding answer pay
  answer-IsCapped rule take force b h = ground (arith, ieee.lt_sub_one (full rule) b.tokens h)

  -- A call on a key's bucket of at most the burst leaves at most the burst, whatever time has
  -- passed.
  pub step-IsCapped :
      (rule : Rule) (take force : Bool) (now : ℕ) (o : Option (Bucket T))
      → IsCapped rule o
      → IsCapped rule (step rule take force now o).0
  unfolding step
  step-IsCapped rule take force now o h = elim (Bool-cases (has_no_limit rule)) [
    | inl free ↦ rw free h
    | inr limited ↦ rw limited (answer-IsCapped rule take force _ (current-IsCapped rule now o h))
  ]

  refill_twice :
      (rule : Rule) (now : ℕ) (o : Option (Bucket T))
      → refill rule now (current rule now o) ≡ current rule now o
  unfolding refill current
  refill_twice rule now none = ground arith
  refill_twice rule now (some b) = ground arith

  refill_twice' :
      (rule : Rule) (now : ℕ) (o : Option (Bucket T))
      → current rule now (some (current rule now o)) ≡ current rule now o
  unfolding current
  refill_twice' rule now o = refill_twice rule now o

  answer-granted :
      (rule : Rule) (take force : Bool) (b : Bucket T)
      → has_token b ≡ true
      → (answer rule take force b).1 ≡ record { ok = true; retry_after = 0 }
  unfolding answer
  answer-granted rule take force b h = rw h

  full-granted :
      (rule : Rule) (now : ℕ)
      → has_no_limit rule ≡ false
      → has_token {T = T} (current rule now none) ≡ true
  unfolding has_token current full has_no_limit
  full-granted rule now limited = ieee.one_le rule.burst (ground arith)

  -- what a `Peek` leaves: the bucket, or nothing where the bucket is full
  peek_leaves :
      (rule : Rule) (b : Bucket T)
      → ((answer rule false false b).0 ≡ some b)
        ⊎ (((answer rule false false b).0 ≡ none) × (has_token b ≡ true))
  unfolding answer
  peek_leaves rule b = ground arith

  answer-peek :
      (rule : Rule) (take force : Bool) (now : ℕ) (b : Bucket T)
      → has_no_limit rule ≡ false
      → current rule now (some b) ≡ b
      → (answer rule take force (current rule now (answer rule false false b).0)).1
        ≡ (answer rule take force b).1
  answer-peek rule take force now b limited same = elim (peek_leaves rule b) [
    | inl kept ↦ rw (kept, same)
    | inr (dropped, granted) ↦ rw (
      dropped,
      answer-granted rule take force b granted,
      answer-granted rule take force (current rule now none) (full-granted rule now limited),
    )
  ]

  -- After a `Peek` of a bucket, also one that drops it because it is full, a call on it with the same
  -- rule at the same time gets the answer that it would have got without it.
  step-peek :
      (rule : Rule) (take force : Bool) (now : ℕ) (o : Option (Bucket T))
      → (step rule take force now (step rule false false now o).0).1
        ≡ (step rule take force now o).1
  unfolding step
  step-peek rule take force now o = elim (Bool-cases (has_no_limit rule)) [
    | inl free ↦ rw free
    | inr limited ↦
        rw limited
          (answer-peek rule take force now (current rule now o) limited (refill_twice' rule now o))
  ]

  -- Asking costs nothing: after a `Peek` of a key, a call on the same key with the same rule and at
  -- the same time is answered as it would have been without it, on a limiter that keeps its
  -- invariant. Calls on other keys are not meant: a `Peek` of a new key may evict the least recently used of a full map.
  pub consult-peek :
      {K : Type 0} (dec : Discrete K) (rule : Rule) (key : K) (take force : Bool) (now : ℕ)
      (l : Limiter K T)
      → IsValid dec l
      → (consult dec rule key take force now (peek dec rule key now l).0).1
        ≡ (consult dec rule key take force now l).1
  unfolding peek
  consult-peek dec rule key take force now l v =
      let (_, k) = consult-step dec rule key false false now l v in
      let peeked = (consult dec rule key false false now l).0 in
      let (after, _) = consult-step dec rule key take force now peeked k.valid in
      let (before, _) = consult-step dec rule key take force now l v in
      after
      ∙ ap (λ o. (step rule take force now o).1) k.own
      ∙ step-peek rule take force now (lookup dec key l.buckets)
      ∙ sym before
