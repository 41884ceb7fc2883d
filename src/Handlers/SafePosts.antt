-- ===== src/Handlers/SafePosts.antt =====
-- What a response of the takedown and restore handlers says of the database.
use waterloo_star_backend.Common.{
  ℕ, ◌≡◌, refl, inl, inr, Bool, true, false, ◌&&◌, Option, none, some, ◌==◌, ltb, if◌then◌else◌,
  Bool-cases, length, is_none,
}
use Prim.Native.String.{String}
use waterloo_star_backend.Common.Text.{Text}
use waterloo_star_backend.Store.Rows.{User, Post, Error, no_rows, already_removed, not_removed}
use waterloo_star_backend.Store.Conn.{Conn, Result, ok, err, M, ◌>>=◌, pure, throw}
use waterloo_star_backend.Handlers.Replies.{
  Response, shown, Principal, require_admin, attempt, Outcome, refusal_of, zero_body,
}
use waterloo_star_backend.Handlers.AdminAccounts.{min_reason_length}
use waterloo_star_backend.Handlers.AdminPosts.{
  post_action, post_error, post_refusal, post_handler, trimmed_or_empty,
}
use waterloo_star_backend.Handlers.Reads.{Reads}
use waterloo_star_backend.Handlers.Safe.{OneRow, OneRow-read, Acts, IsSafe, admit-IsSafe}

module _ (asked : Option Principal) (p : Principal) (admitted : require_admin asked ≡ some p)
    (c : Conn) (show : M (Post × User)) (reads : Reads show) where
  abbrev responded : M Outcome → M (Response (Post × User))
  responded m = do
    o ← m
    if o.status == 200 then (do out ← show; pure (shown out)) else pure (refusal_of o)

  abbrev after_post : String → Result (Unit {0}) → M Outcome
  after_post kind (ok _) = pure (post_error 200 zero_body)
  after_post kind (err e) = elim (post_refusal kind e) [ none ↦ throw e | some o ↦ pure o ]

  refused_post-IsSafe :
      (kind : String) (e : Error) (d : Conn)
      → d.db ≡ c.db
      → IsSafe asked c (responded (after_post kind (err e)) d)
  unfolding post_refusal ◌>>=◌ pure throw
  refused_post-IsSafe kind no_rows d same = (p, admitted, same)
  refused_post-IsSafe kind already_removed d same = (p, admitted, same)
  refused_post-IsSafe kind not_removed d same = (p, admitted, same)
  refused_post-IsSafe kind Error.database d same = inl same
  refused_post-IsSafe kind Error.unique_violation d same = inl same
  refused_post-IsSafe kind Error.outside d same = inl same
  refused_post-IsSafe kind Error.reason_required d same = inl same
  refused_post-IsSafe kind Error.self_action d same = inl same
  refused_post-IsSafe kind Error.last_admin d same = inl same
  refused_post-IsSafe kind Error.role_unchanged d same = inl same
  refused_post-IsSafe kind Error.already_suspended d same = inl same
  refused_post-IsSafe kind Error.not_suspended d same = inl same
  refused_post-IsSafe kind Error.already_verified d same = inl same
  refused_post-IsSafe kind Error.no_takedown d same = inl same

  shown-IsSafe :
      (kind : String) (d : Conn)
      → OneRow p c d
      → IsSafe asked c (responded (after_post kind (ok tt)) d)
  unfolding ◌>>=◌ pure
  shown-IsSafe kind d done = go (show d) (reads.keeps d)
    where
      go :
          (r : Result (Post × User) × Conn)
          → r.1.db ≡ d.db
          → IsSafe asked c (◌>>=◌ (λ _. r) (λ out. pure (shown out)) d)
      go (ok out, e) same = (p, admitted, OneRow-read p c d e same done)
      go (err x, e) same = inr (p, admitted, OneRow-read p c d e same done)

  acted_post-IsSafe :
      (kind : String) (m : M (Unit {0}))
      → Acts p c (m c)
      → IsSafe asked c (responded (do r ← attempt m; after_post kind r) c)
  unfolding ◌>>=◌ attempt
  acted_post-IsSafe kind m h = go (m c) h
    where
      go :
          (r : Result (Unit {0}) × Conn)
          → Acts p c r
          → IsSafe asked c (responded (after_post kind r.0) r.1)
      go (ok _, d) done = shown-IsSafe kind d done
      go (err e, d) same = refused_post-IsSafe kind e d same

  -- An outcome that is not 200, before the action.
  early-IsSafe :
      (o : Outcome)
      → (o.status == 400) ≡ true
      → (o.status == 200) ≡ false
      → IsSafe asked c (responded (pure o) c)
  unfolding ◌>>=◌ pure
  early-IsSafe o bad never = rw (never, bad) (p, admitted, refl)

  post_action-IsSafe :
      (kind : String) (reason : Option Text) (required : Bool) (act : Text → M (Unit {0}))
      → ((text : Text) → Acts p c (act text c))
      → IsSafe asked c (responded (post_action kind reason required act) c)
  unfolding post_action
  post_action-IsSafe kind reason required act h =
      let n = length (trimmed_or_empty reason) in
      elim (Bool-cases (required && is_none reason)) [
        | inl missing ↦ rw missing (early-IsSafe _ refl refl)
        | inr given ↦ elim (Bool-cases (required && ltb n min_reason_length)) [
          | inl short ↦ rw (given, short) (early-IsSafe _ refl refl)
          | inr enough ↦ elim (Bool-cases (ltb 1000 n)) [
            | inl long ↦ rw (given, enough, long) (early-IsSafe _ refl refl)
            | inr fits ↦
                rw (given, enough, fits)
                  (acted_post-IsSafe kind (act (trimmed_or_empty reason))
                    (h (trimmed_or_empty reason)))
          ]
        ]
      ]

pub post_handler-IsSafe :
    (kind : String) (asked : Option Principal) (reason : Option Text) (required : Bool)
    (act : ℕ → Text → M (Unit {0})) (show : M (Post × User))
    → Reads show
    → (c : Conn) → ((p : Principal) (text : Text) → Acts p c (act p.user_id text c))
    → IsSafe asked c (post_handler kind asked reason required act show c)
unfolding post_handler
post_handler-IsSafe kind asked reason required act show reads c h =
    admit-IsSafe asked _ c (λ p admitted.
      post_action-IsSafe asked p admitted c show reads kind reason required (act p.user_id) (h p))
