-- ===== src/RateLimit/Limiter.antt =====
-- `Limiter`: `New`, `Allow`, `Peek`, `Spend`, `consult`, `dropLocked`, `evictLocked`, `Tracked` and
-- `Reset`. Each method holds the lock from its first read to its return, so a method is one step.
use waterloo_star_backend.Common.{
  ℕ, zero, suc, Bool, true, false, ◌&&◌, none, some, List, [], ◌∷◌, length, ltb, leb, if◌then◌else◌,
}
use waterloo_star_backend.RateLimit.Float.{Float64}
use waterloo_star_backend.RateLimit.Assoc.{lookup, delete, assign, remove, back}
use waterloo_star_backend.RateLimit.Bucket.{
  Rule, Decision, Bucket, has_no_limit, retry_after, full, refill, pay, has_token,
}

abbrev pub default_max_keys : ℕ
default_max_keys = 20_000

pub record Limiter (K T : Type 0) : Type 0 where
  pub buckets : List (K × Bucket T)
  -- front = most recently used
  pub recency : List K
  pub max_keys : ℕ

module _ {K T : Type 0} where
  -- `New`
  unfoldable pub make : ℕ → Limiter K T
  make max_keys = record {
    buckets = [];
    recency = [];
    max_keys = if leb max_keys 0 then default_max_keys else max_keys;
  }

  unfoldable pub tracked : Limiter K T → ℕ
  tracked l = length l.buckets

  unfoldable pub reset : Limiter K T → Limiter K T
  reset l = record l { buckets = []; recency = [] }

module _ {K T : Type 0} (dec : Discrete K) where
  unfoldable pub drop_locked : K → Limiter K T → Limiter K T
  drop_locked key l = record l {
    buckets = delete dec key l.buckets;
    recency = remove dec key l.recency;
  }

  -- one round of `evictLocked`, for the key at the back: the bucket is dropped where there is one
  unfoldable pub evict_oldest : K → Limiter K T → Limiter K T
  unfolding drop_locked
  evict_oldest key l = elim (lookup dec key l.buckets) [
    | none ↦ record l { recency = remove dec key l.recency }
    | some _ ↦ drop_locked key l
  ]

  -- the loop, on fuel
  unfoldable pub evict : ℕ → Limiter K T → Limiter K T
  evict zero l = l
  evict (suc fuel) l = elim (ltb l.max_keys (length l.buckets)) [
    | false ↦ l
    | true ↦ elim (back l.recency) [ none ↦ l | some key ↦ evict fuel (evict_oldest key l) ]
  ]

  -- A round drops one element of the recency list, so its length is fuel enough.
  unfoldable pub evict_locked : Limiter K T → Limiter K T
  evict_locked l = evict (suc (length l.recency)) l

  -- the bucket is shared with the map: a write to it is a write to the map
  unfoldable pub store : K → Bucket T → Limiter K T → Limiter K T
  store key b l = record l { buckets = assign dec key b l.buckets }

module _ {K T : Type 0} (dec : Discrete K) ⦃fl : Float64 T⦄ where
  -- the bucket of the key, brought up to date, and the limiter with the key at the front
  unfoldable pub fetch : Rule → K → ℕ → Limiter K T → Bucket T × Limiter K T
  unfolding evict_locked
  fetch rule key now l = elim (lookup dec key l.buckets) [
    | none ↦
        let b : Bucket T = record { tokens = full rule; last = now } in
        (
          b,
          evict_locked dec (record l { buckets = (key, b) ∷ l.buckets; recency = key ∷ l.recency }),
        )
    | some b ↦ (
      refill rule now b,
      record l {
        buckets = assign dec key (refill rule now b) l.buckets;
        recency = key ∷ remove dec key l.recency;
      },
    )
  ]

  -- the `switch` of `consult`
  unfoldable pub settle : Rule → K → Bool → Bool → Bucket T × Limiter K T → Limiter K T × Decision
  unfolding store drop_locked
  settle rule key take force (b, l) =
      if has_token b
      then (if take
          then (store dec key (pay b) l, record { ok = true; retry_after = 0 })
          else (if fl.le (full rule) b.tokens
              then (drop_locked dec key l, record { ok = true; retry_after = 0 })
              else (l, record { ok = true; retry_after = 0 })))
      else (let b' = if take && force then pay b else b in
          (store dec key b' l, record { ok = false; retry_after = retry_after b'.tokens rule }))

  unfoldable pub consult : Rule → K → Bool → Bool → ℕ → Limiter K T → Limiter K T × Decision
  unfolding fetch settle
  consult rule key take force now l =
      if has_no_limit rule
      then (l, record { ok = true; retry_after = 0 })
      else settle rule key take force (fetch rule key now l)

  unfoldable pub allow : Rule → K → ℕ → Limiter K T → Limiter K T × Decision
  allow rule key = consult rule key true false

  unfoldable pub peek : Rule → K → ℕ → Limiter K T → Limiter K T × Decision
  peek rule key = consult rule key false false

  unfoldable pub spend : Rule → K → ℕ → Limiter K T → Limiter K T × Decision
  spend rule key = consult rule key true true
