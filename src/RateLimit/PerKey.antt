-- ===== src/RateLimit/PerKey.antt =====
-- The limiter against its specification: one bucket to a key, each a state machine of its own.
-- The specification has no map, no recency list and no ceiling.
use waterloo_star_backend.Common.{
  ℕ, ◌≡◌, refl, inl, inr, Bool, true, false, ◌&&◌, Option, none, some, if◌then◌else◌, Option-cases,
  Bool-cases,
}
use waterloo_star_backend.RateLimit.Float.{Float64}
use waterloo_star_backend.RateLimit.Assoc.{lookup}
use waterloo_star_backend.RateLimit.Bucket.{
  Rule, Decision, Bucket, has_no_limit, retry_after, full, refill, pay, has_token,
}
use waterloo_star_backend.RateLimit.Limiter.{Limiter, drop_locked, fetch, store, settle, consult}
use waterloo_star_backend.RateLimit.Fetch.{IsValid}
use waterloo_star_backend.RateLimit.Keeps.{
  Keeps, bring_forward-Keeps, evict_locked-Keeps, store-Keeps, drop_locked-Keeps,
}

module _ {T : Type 0} ⦃fl : Float64 T⦄ where
  -- The bucket as a call finds it: brought up to date, or new and full.
  unfoldable pub current : Rule → ℕ → Option (Bucket T) → Bucket T
  current rule now none = record { tokens = full rule; last = now }
  current rule now (some b) = refill rule now b

  -- What the call leaves, and what it answers.
  unfoldable pub answer : Rule → Bool → Bool → Bucket T → Option (Bucket T) × Decision
  answer rule take force b =
      if has_token b
      then (
        (if take then some (pay b) else if fl.le (full rule) b.tokens then none else some b),
        record { ok = true; retry_after = 0 },
      )
      else (let b' = if take && force then pay b else b in
          (some b', record { ok = false; retry_after = retry_after b'.tokens rule }))

  unfoldable pub step : Rule → Bool → Bool → ℕ → Option (Bucket T) → Option (Bucket T) × Decision
  unfolding current answer
  step rule take force now o =
      if has_no_limit rule
      then (o, record { ok = true; retry_after = 0 })
      else answer rule take force (current rule now o)

module _ {K T : Type 0} (dec : Discrete K) ⦃fl : Float64 T⦄ where
  module _ (rule : Rule) (key : K) (now : ℕ) (l : Limiter K T) (v : IsValid dec l) where
    abbrev found : Bucket T
    found = current rule now (lookup dec key l.buckets)

    fetch-Keeps :
        ((fetch dec rule key now l).0 ≡ found)
        × Keeps dec key l (fetch dec rule key now l).1 (some found)
    unfolding fetch current
    fetch-Keeps = elim (Option-cases (lookup dec key l.buckets)) [
      | inl absent ↦ rw (absent, fetch, current) (refl, evict_locked-Keeps dec key _ l v absent)
      | inr (b, present) ↦
          rw (present, fetch, current) (refl, bring_forward-Keeps dec key _ l v present)
    ]

  -- The limiter and the decision are those of the specification.
  abbrev pub Agrees :
      K → Limiter K T → Limiter K T × Decision → Option (Bucket T) × Decision → Type 0
  Agrees key l p q = (p.1 ≡ q.1) × Keeps dec key l p.0 q.0

  module _ (rule : Rule) (key : K) {b : Bucket T} (l l' : Limiter K T) where
    settle-answer :
        (take force : Bool)
        → Keeps dec key l l' (some b)
        → Agrees key l (settle dec rule key take force (b, l')) (answer rule take force b)
    unfolding settle answer
    settle-answer take force k = elim (Bool-cases (has_token b)) [
      | inr refused ↦ rw refused (refl, store-Keeps dec key l l' k _)
      | inl granted ↦ rw granted (granted_case take)
    ]
      where
        peek_case :
            (c : Bool)
            → Agrees key l
                (if c
                  then (drop_locked dec key l', record { ok = true; retry_after = 0 })
                  else (l', record { ok = true; retry_after = 0 }))
                (if c then none else some b, record { ok = true; retry_after = 0 })
        peek_case true = (refl, drop_locked-Keeps dec key l l' k)
        peek_case false = (refl, k)

        granted_case :
            (t : Bool)
            → Agrees key l
                (if t
                  then (store dec key (pay b) l', record { ok = true; retry_after = 0 })
                  else (if fl.le (full rule) b.tokens
                      then (drop_locked dec key l', record { ok = true; retry_after = 0 })
                      else (l', record { ok = true; retry_after = 0 })))
                (
                  if t then some (pay b) else if fl.le (full rule) b.tokens then none else some b,
                  record { ok = true; retry_after = 0 },
                )
        granted_case true = (refl, store-Keeps dec key l l' k (pay b))
        granted_case false = peek_case (fl.le (full rule) b.tokens)

  IsValid-Keeps :
      (key : K) (l : Limiter K T) → IsValid dec l → Keeps dec key l l (lookup dec key l.buckets)
  IsValid-Keeps key l v = record {
    valid = v;
    same_max = refl;
    own = refl;
    others = λ q e. inl refl;
  }

  -- Every call of `consult` answers, and leaves the key's bucket, as the specification does from
  -- the key's own bucket alone, keeps the limiter's invariant, and leaves the bucket of every
  -- other key alone, but for the least recently used of a full map, which a new key evicts.
  pub consult-step :
      (rule : Rule) (key : K) (take force : Bool) (now : ℕ) (l : Limiter K T)
      → IsValid dec l
      → Agrees key l
          (consult dec rule key take force now l)
          (step rule take force now (lookup dec key l.buckets))
  unfolding consult step
  consult-step rule key take force now l v = elim (Bool-cases (has_no_limit rule)) [
    | inl free ↦ rw free (refl, IsValid-Keeps key l v)
    | inr limited ↦
        let (same, k) = fetch-Keeps rule key now l v in
        rw (limited, same) (settle-answer rule key l (fetch dec rule key now l).1 take force k)
  ]
