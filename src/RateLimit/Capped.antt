-- ===== src/RateLimit/Capped.antt =====
-- What a key's bucket holds over any run of calls on the limiter.
use waterloo_star_backend.Common.{ℕ, ◌≡◌, sym, subst, inl, inr, Bool, true, false, List, [], ◌∷◌}
use waterloo_star_backend.RateLimit.Float.{Float64, IsIeee}
use waterloo_star_backend.RateLimit.Assoc.{lookup}
use waterloo_star_backend.RateLimit.Bucket.{Rule}
use waterloo_star_backend.RateLimit.Limiter.{Limiter, make, consult, allow, peek, spend, reset}
use waterloo_star_backend.RateLimit.Fetch.{IsValid}
use waterloo_star_backend.RateLimit.PerKey.{consult-step}
use waterloo_star_backend.RateLimit.Calls.{Call, call, run, call-IsValid, make-IsValid}
use waterloo_star_backend.RateLimit.Tokens.{IsCapped, step-IsCapped}

-- Every call of a run on the key is made with the rule. The middleware's keys have the name of
-- their rule in front, so no key has two rules.
abbrev pub CallsWith : {K : Type 0} → Rule → K → Call K → Type 0
CallsWith rule key (Call.allow r k now) = k ≡ key → r ≡ rule
CallsWith rule key (Call.peek r k now) = k ≡ key → r ≡ rule
CallsWith rule key (Call.spend r k now) = k ≡ key → r ≡ rule
CallsWith rule key Call.reset = Unit {0}

abbrev pub RunsWith : {K : Type 0} → Rule → K → List (Call K) → Type 0
RunsWith rule key [] = Unit {0}
RunsWith rule key (c ∷ cs) = CallsWith rule key c × RunsWith rule key cs

module _ {K T : Type 0} (dec : Discrete K) ⦃fl : Float64 T⦄ (ieee : IsIeee T) (rule : Rule)
    (key : K) where
  abbrev Caps : Limiter K T → Type 0
  Caps l = IsCapped rule (lookup dec key l.buckets)

  consult-IsCapped :
      (r : Rule) (k : K) (take force : Bool) (now : ℕ) (l : Limiter K T)
      → IsValid dec l
      → (k ≡ key → r ≡ rule)
      → Caps l
      → Caps (consult dec r k take force now l).0
  consult-IsCapped r k take force now l v same h =
      let (_, ks) = consult-step dec r k take force now l v in
      let l' = (consult dec r k take force now l).0 in
      elim (dec key k) [
        | yes e ↦
            let there : IsCapped r (lookup dec k l.buckets) =
              subst (λ x. IsCapped x (lookup dec k l.buckets)) (sym (same (sym e)))
                (subst (λ x. IsCapped rule (lookup dec x l.buckets)) e h) in
            subst (λ x. IsCapped rule (lookup dec x l'.buckets)) (sym e)
              (subst (λ x. IsCapped x (lookup dec k l'.buckets)) (same (sym e))
                (subst (IsCapped r) (sym ks.own) (step-IsCapped ieee r take force now _ there)))
        | no other ↦ elim (ks.others key other) [
          | inl kept ↦ subst (IsCapped rule) (sym kept) h
          | inr (crowded, new, last, gone) ↦ subst (IsCapped rule) (sym gone) tt
        ]
      ]

  call-IsCapped :
      (c : Call K) (l : Limiter K T)
      → IsValid dec l
      → CallsWith rule key c
      → Caps l
      → Caps (call dec c l)
  unfolding call allow peek spend reset lookup
  call-IsCapped (Call.allow r k now) l v same h = consult-IsCapped r k true false now l v same h
  call-IsCapped (Call.peek r k now) l v same h = consult-IsCapped r k false false now l v same h
  call-IsCapped (Call.spend r k now) l v same h = consult-IsCapped r k true true now l v same h
  call-IsCapped Call.reset l v same h = tt

  run-IsCapped :
      (cs : List (Call K)) (l : Limiter K T)
      → IsValid dec l
      → RunsWith rule key cs
      → Caps l
      → Caps (run dec cs l)
  unfolding run
  run-IsCapped [] l v same h = h
  run-IsCapped (c ∷ cs) l v (first, rest) h =
      run-IsCapped cs (call dec c l) (call-IsValid dec c l v).0 rest (call-IsCapped c l v first h)

  -- Whatever calls are made on a limiter since it was built, on whatever keys and at whatever
  -- times: if those on one key are all made with one rule, the bucket that the limiter has for that
  -- key, if it has one, holds at most that rule's burst.
  pub run-make-IsCapped :
      (n : ℕ) (cs : List (Call K))
      → RunsWith rule key cs
      → IsCapped rule (lookup dec key (run dec cs (make {K = K} {T = T} n)).buckets)
  unfolding make lookup
  run-make-IsCapped n cs same = run-IsCapped cs (make n) (make-IsValid dec n) same tt
