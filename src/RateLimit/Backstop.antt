-- ===== src/RateLimit/Backstop.antt =====
-- What the service-wide rules cost whoever they refuse: internal/httpapi/ratelimit_mw.go and
-- notifications.go.
use waterloo_star_backend.Common.{ℕ, ◌≡◌, refl, ◌≢◌, ◌⊎◌, Bool, true, false, ltb}
use waterloo_star_backend.Common.Text.{Text}
use waterloo_star_backend.RateLimit.Float.{Float64}
use waterloo_star_backend.RateLimit.Assoc.{lookup}
use waterloo_star_backend.RateLimit.Bucket.{Rule}
use waterloo_star_backend.RateLimit.Limiter.{Limiter, allow, peek, consult}
use waterloo_star_backend.RateLimit.Fetch.{IsValid}
use waterloo_star_backend.RateLimit.Keeps.{IsEvicted}
use waterloo_star_backend.RateLimit.PerKey.{consult-step}
use waterloo_star_backend.RateLimit.Policy.{notify_global}
use waterloo_star_backend.RateLimit.Middleware.{LimitedRoute, stopped, global_key, Strings}
use waterloo_star_backend.RateLimit.Gate.{limit_route, charge_caps}

module _ {T : Type 0} (dec : Discrete Text) ⦃fl : Float64 T⦄ where
  -- A call costs no other key, but for the one that a full map drops.
  abbrev pub Spares : Text → Text → Limiter Text T → Limiter Text T → Type 0
  Spares q key l l' = (lookup dec q l'.buckets ≡ lookup dec q l.buckets) ⊎ IsEvicted dec key q l l'

  consult-Spares :
      (rule : Rule) (key : Text) (take force : Bool) (now : ℕ) (l : Limiter Text T)
      → IsValid dec l
      → (q : Text) → q ≢ key
      → Spares q key l (consult dec rule key take force now l).0
  consult-Spares rule key take force now l v q e =
      (consult-step dec rule key take force now l v).1.others q e

  module _ (strings : Strings) where
    -- A notification that the service-wide cap refuses is not sent, and costs no key but that cap's
    -- own a token, the recipient's among them; the bucket of a key stays as it was, unless it was
    -- the least recently used of a full map.
    pub charge_caps-refused :
        (recipient : Text) (now : ℕ) (l : Limiter Text T) (q : Text)
        → IsValid dec l
        → (peek dec notify_global (global_key strings notify_global) now l).1.ok ≡ false
        → q ≢ global_key strings notify_global
        → let r = charge_caps strings dec recipient now l in
          (r.1 ≡ false) × Spares q (global_key strings notify_global) l r.0
    unfolding charge_caps peek
    charge_caps-refused recipient now l q v refused e = rw refused (
      refl,
      consult-Spares notify_global (global_key strings notify_global) false false now l v q e,
    )

    -- A request that a backstop refuses is answered 429, and costs no key but the backstop's own
    -- a token, the one of its address, link or account among them; the bucket of a key stays as it
    -- was, unless it was the least recently used of a full map.
    pub limit_route-refused :
        (route : LimitedRoute) (identity client_ip : Text) (now : ℕ) (l : Limiter Text T) (q : Text)
        → IsValid dec l
        → ltb 0 route.global.burst ≡ true
        → (allow dec route.global (global_key strings route.global) now l).1.ok ≡ false
        → q ≢ global_key strings route.global
        → let r = limit_route strings dec route identity client_ip now l in
          ((wait : ℕ) × (r.1 ≡ stopped route wait))
          × Spares q (global_key strings route.global) l r.0
    unfolding limit_route allow
    limit_route-refused route identity client_ip now l q v limited refused e =
        rw (limited, refused)
          (
            (_, refl),
            consult-Spares route.global (global_key strings route.global) true false now l v q e,
          )
