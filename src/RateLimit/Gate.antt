-- ===== src/RateLimit/Gate.antt =====
-- The middleware `RateLimit` itself, `chargeFailedLogin`, and the caps of `notify`.
use waterloo_star_backend.Common.{
  ℕ, Bool, false, Option, none, some, [], ◌∷◌, ◌++◌, ltb, if◌then◌else◌,
}
use waterloo_star_backend.Common.Text.{Text, is_empty}
use waterloo_star_backend.RateLimit.Float.{Float64}
use waterloo_star_backend.RateLimit.Bucket.{Decision}
use waterloo_star_backend.RateLimit.Limiter.{Limiter, allow, peek, spend}
use waterloo_star_backend.RateLimit.Policy.{login_per_email, notify_per_recipient, notify_global}
use waterloo_star_backend.RateLimit.Middleware.{
  or_empty, LimitedRoute, Passage, Request, Strings, global_key, limited_routes, match_route,
  passes, per_key_key, route_identity, stopped,
}

module _ (strings : Strings) where
  module _ {T : Type 0} (dec : Discrete Text) ⦃fl : Float64 T⦄ where
    abbrev decide :
        LimitedRoute → Option Text → Limiter Text T × Decision → Limiter Text T × Passage
    decide route key (l, d) = if d.ok then (l, passes key) else (l, stopped route d.retry_after)

    -- After the backstop: the check of the identity's own bucket
    unfoldable pub check_identity :
        LimitedRoute → Text → Text → ℕ → Limiter Text T → Limiter Text T × Passage
    check_identity route [] client_ip now l = (l, passes none)
    check_identity route (x ∷ identity) client_ip now l =
        let key = per_key_key strings route.per_key (x ∷ identity) client_ip in
        if route.charge_on_failure_only
        then decide route (some key) (peek dec route.per_key key now l)
        else decide route none (allow dec route.per_key key now l)

    abbrev after_global :
        LimitedRoute → Text → Text → ℕ → Limiter Text T × Decision → Limiter Text T × Passage
    after_global route identity client_ip now (l, d) =
        if d.ok
        then check_identity route identity client_ip now l
        else (l, stopped route d.retry_after)

    unfoldable pub limit_route :
        LimitedRoute → Text → Text → ℕ → Limiter Text T → Limiter Text T × Passage
    limit_route route identity client_ip now l =
        if ltb 0 route.global.burst
        then after_global route identity client_ip now
            (allow dec route.global (global_key strings route.global) now l)
        else check_identity route identity client_ip now l

    abbrev limit_matched :
        Option LimitedRoute → Request → ℕ → Limiter Text T → Limiter Text T × Passage
    limit_matched none c now l = (l, passes none)
    limit_matched (some route) c now l =
        limit_route route (or_empty strings (route_identity strings c route.kind)) c.client_ip now l

    -- `RateLimit`
    unfoldable pub rate_limit : Request → ℕ → Limiter Text T → Limiter Text T × Passage
    rate_limit c now l = limit_matched (match_route strings limited_routes c) c now l

    -- The key that the middleware left, if it left one
    unfoldable pub charge_failed_login : Option Text → ℕ → Limiter Text T → Limiter Text T
    charge_failed_login none now l = l
    charge_failed_login (some key) now l =
        if is_empty key then l else (spend dec login_per_email key now l).0

    -- The caps that `notify` of notifications.go consults, and whether the email goes out
    abbrev send_capped : Limiter Text T × Decision → Limiter Text T × Bool
    send_capped (l, d) = (l, d.ok)

    abbrev after_recipient : ℕ → Limiter Text T × Decision → Limiter Text T × Bool
    after_recipient now (l, d) =
        if d.ok
        then send_capped (allow dec notify_global (global_key strings notify_global) now l)
        else (l, false)

    abbrev after_peek : Text → ℕ → Limiter Text T × Decision → Limiter Text T × Bool
    after_peek recipient now (l, d) =
        if d.ok
        then after_recipient now (
            allow dec notify_per_recipient
              (strings.chars notify_per_recipient.name ++ (strings.chars ":" ++ recipient)) now l)
        else (l, false)

    unfoldable pub charge_caps : Text → ℕ → Limiter Text T → Limiter Text T × Bool
    charge_caps recipient now l =
        after_peek recipient now (peek dec notify_global (global_key strings notify_global) now l)
