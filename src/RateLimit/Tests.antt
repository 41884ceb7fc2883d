-- ===== src/RateLimit/Tests.antt =====
-- The limiter at concrete inputs, on exact numbers: five attempts, refilled over fifteen minutes.
use waterloo_star_backend.Common.{
  ℕ, ◌*◌, ◌+◌, ◌≤◌, ◌≡◌, refl, true, false, List, [], ◌∷◌, arith, leb, if◌then◌else◌,
}
use native.Mathlib.Decide.{ℕ_discrete as dec}
use waterloo_star_backend.Common.Int.{ℤ}
use waterloo_star_backend.RateLimit.Float.{Float64}
use waterloo_star_backend.RateLimit.Assoc.{lookup}
use waterloo_star_backend.RateLimit.Bucket.{Rule, second}
use waterloo_star_backend.RateLimit.Limiter.{
  Limiter, make, consult, peek, tracked, default_max_keys,
}
use waterloo_star_backend.RateLimit.Fetch.{IsValid}
use waterloo_star_backend.RateLimit.Calls.{Call, run, make-IsValid, run-IsValid, tracked-run}
use waterloo_star_backend.RateLimit.PerKey.{Agrees, step, consult-step}
use waterloo_star_backend.RateLimit.Tokens.{IsHonest, IsCapped, consult-IsHonest, consult-peek}
use waterloo_star_backend.RateLimit.Capped.{run-make-IsCapped}
use waterloo_star_backend.RateLimit.Policy.{
  hours, notify_global, notify_global-daily, notify_global-monthly,
}
use waterloo_star_backend.RateLimit.Exact.{exact, exact-IsIeee, granted, sum, level, granted-le}

abbrev minute : ℕ
minute = 60 * second

abbrev login : Rule
login = record { name = "login_per_email"; burst = 5; window = 15 * minute }

instance abbrev arithmetic : Float64 ℤ
arithmetic = exact (15 * minute)

-- Six failures on key 1, then one each on keys 2 and 3, with room for two keys.
abbrev flood : List (Call ℕ)
flood =
    Call.spend login 1 10
    ∷ Call.spend login 1 10
    ∷ Call.spend login 1 10
    ∷ Call.spend login 1 10
    ∷ Call.spend login 1 10
    ∷ Call.spend login 1 10
    ∷ Call.allow login 2 20
    ∷ []

abbrev busy : Limiter ℕ ℤ
busy = run dec flood (make 2)

busy-IsValid : IsValid dec busy
busy-IsValid = (run-IsValid dec flood (make 2) (make-IsValid dec 2)).0

tracked-run_example :
    tracked (run dec flood (make {K = ℕ} {T = ℤ} 2)) ≤ (if leb 2 0 then default_max_keys else 2)
tracked-run_example = tracked-run ℤ dec 2 flood

-- A third key evicts key 1.
consult-step_example :
    Agrees dec 3 busy
      (consult dec login 3 true false 30 busy)
      (step login true false 30 (lookup dec 3 busy.buckets))
consult-step_example = consult-step dec login 3 true false 30 busy busy-IsValid

consult-IsHonest_example : IsHonest (consult dec login 1 true false 30 busy).1
consult-IsHonest_example =
    consult-IsHonest (exact-IsIeee (15 * minute) (omega arith)) dec login 1 true false 30 busy
      busy-IsValid

run-make-IsCapped_example :
    IsCapped login (lookup dec 1 (run dec flood (make {K = ℕ} {T = ℤ} 2)).buckets)
run-make-IsCapped_example =
    run-make-IsCapped dec (exact-IsIeee (15 * minute) (omega arith)) login 1 2 flood (
      (λ e. refl),
      ((λ e. refl), ((λ e. refl), ((λ e. refl), ((λ e. refl), ((λ e. refl), ((λ e. refl), tt)))))),
    )

-- Key 1 is spent, and still is after a look.
consult-peek_example :
    (consult dec login 1 true false 30 (peek dec login 1 30 busy).0).1
    ≡ (consult dec login 1 true false 30 busy).1
consult-peek_example =
    consult-peek (exact-IsIeee (15 * minute) (omega arith)) dec login 1 true false 30 busy
      busy-IsValid

abbrev waits : List ℕ
waits = 0 ∷ 0 ∷ minute ∷ (5 * minute) ∷ (4 * minute) ∷ []

granted-le_example :
    (15 * minute) * granted login 7 (level login (2 * (15 * minute)) 7) (minute ∷ waits)
    ≤ 5 * (15 * minute + sum login waits)
granted-le_example =
    granted-le login (omega arith) (omega arith) (2 * (15 * minute)) 7 minute waits (omega arith)

-- A full bucket, and an email every six hours after the first.
abbrev quiet_day : List ℕ
quiet_day = hours 6 ∷ hours 6 ∷ hours 6 ∷ []

notify_global-daily_example :
    granted notify_global 0 (level notify_global (30 * hours 24) 0) (0 ∷ quiet_day) ≤ 60
notify_global-daily_example =
    notify_global-daily (30 * hours 24) 0 0 quiet_day (omega arith) (omega arith)

notify_global-monthly_example :
    granted notify_global 0 (level notify_global (30 * hours 24) 0) (0 ∷ quiet_day) ≤ 960
notify_global-monthly_example =
    notify_global-monthly (30 * hours 24) 0 0 quiet_day (omega arith) (omega arith)
