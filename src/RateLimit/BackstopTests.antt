-- ===== src/RateLimit/BackstopTests.antt =====
-- The service-wide rules at concrete inputs, on exact numbers: thirty emails spend the daily cap,
-- and thirty registrations the backstop of their route.
use Prim.Native.String.{len}
use waterloo_star_backend.Common.{ℕ, zero, suc, ◌≡◌, refl, ◌≢◌, false, List, [], ◌∷◌}
use waterloo_star_backend.Common.Int.{ℤ, ◌-ℤ◌, ◌+ℤ◌}
use waterloo_star_backend.Common.Text.{Text, text_eq, text_discrete}
use waterloo_star_backend.RateLimit.Float.{Float64}
use waterloo_star_backend.RateLimit.Assoc.{lookup, delete, assign, remove, back}
use waterloo_star_backend.RateLimit.Bucket.{
  full, has_no_limit, refill, pay, has_token, rate, retry_after, round_up,
}
use waterloo_star_backend.RateLimit.Limiter.{
  Limiter, make, allow, peek, consult, fetch, settle, store, evict_locked, evict,
}
use waterloo_star_backend.RateLimit.Exact.{exact}
use waterloo_star_backend.RateLimit.Calls.{Call, run, call, make-IsValid, run-IsValid}
use waterloo_star_backend.RateLimit.Policy.{
  notify_global, register_global, register_per_email, hours, minutes,
}
use waterloo_star_backend.RateLimit.Middleware.{
  Strings, LimitedRoute, global_key, key_by_email, post_route, stopped,
}
use waterloo_star_backend.RateLimit.Gate.{limit_route, charge_caps}
use waterloo_star_backend.RateLimit.Backstop.{Spares, charge_caps-refused, limit_route-refused}

abbrev dec : Discrete Text
dec = text_discrete

-- A text stands for its length.
abbrev toy_strings : Strings
toy_strings = record {
  same = λ s t. false;
  chars = λ s. len s ∷ [];
  to_lower = λ t. t;
  fingerprint = λ t. t;
}

instance abbrev arithmetic : Float64 ℤ
arithmetic = exact (hours 24)

abbrev times : {A : Type 0} → ℕ → A → List A
times zero a = []
times (suc n) a = a ∷ times n a

abbrev emails : List (Call Text)
emails = times 30 (Call.allow notify_global (global_key toy_strings notify_global) 500)

abbrev capped : Limiter Text ℤ
capped = run dec emails (make 5)

abbrev recipient : Text
recipient = 4 ∷ []

not_the_cap : recipient ≢ global_key toy_strings notify_global
unfolding global_key
not_the_cap e = absurd (cc)

charge_caps-refused_example :
    let r = charge_caps toy_strings dec recipient 501 capped in
    (r.1 ≡ false) × Spares dec recipient (global_key toy_strings notify_global) capped r.0
unfolding peek consult has_no_limit fetch settle store evict_locked evict run call allow make lookup
    delete assign remove back text_discrete text_eq full refill pay has_token rate retry_after
    round_up global_key ◌-ℤ◌ ◌+ℤ◌
charge_caps-refused_example =
    charge_caps-refused dec toy_strings recipient 501 capped recipient
      (run-IsValid dec emails (make 5) (make-IsValid dec 5)).0 refl not_the_cap

abbrev per_minutes : Float64 ℤ
per_minutes = exact (minutes 10)

abbrev register_route : LimitedRoute
register_route =
    post_route "/auth/register" key_by_email register_per_email register_global
      "Too many sign-up attempts. Try again in %s."

abbrev registrations : List (Call Text)
registrations = times 30 (Call.allow register_global (global_key toy_strings register_global) 500)

abbrev crowded : Limiter Text ℤ
crowded = run dec ⦃fl = per_minutes⦄ registrations (make 5)

not_the_backstop : recipient ≢ global_key toy_strings register_global
unfolding global_key
not_the_backstop e = absurd (cc)

limit_route-refused_example :
    let r =
      limit_route toy_strings dec ⦃fl = per_minutes⦄ register_route recipient [] 501 crowded in
    ((wait : ℕ) × (r.1 ≡ stopped register_route wait))
    × Spares dec ⦃fl = per_minutes⦄ recipient (global_key toy_strings register_global) crowded r.0
unfolding allow consult has_no_limit fetch settle store evict_locked evict run call make lookup
    delete assign remove back text_discrete text_eq full refill pay has_token rate retry_after
    round_up global_key ◌-ℤ◌ ◌+ℤ◌
limit_route-refused_example =
    limit_route-refused dec ⦃fl = per_minutes⦄ toy_strings register_route recipient [] 501 crowded
      recipient (run-IsValid dec ⦃fl = per_minutes⦄ registrations (make 5) (make-IsValid dec 5)).0
      refl refl not_the_backstop
