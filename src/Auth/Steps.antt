-- ===== src/Auth/Steps.antt =====
-- Code that runs where its steps succeed: one rule for each kind of step of internal/httpapi/auth.go.
use waterloo_star_backend.Common.{
  ℕ, ◌+◌, ◌≡◌, refl, ◌∙◌, ap, Bool, false, Option, some, List, [], ◌∷◌,
}
use waterloo_star_backend.Common.Text.{Text}
use waterloo_star_backend.Store.Rows.{Db, Role}
use waterloo_star_backend.Store.Conn.{Conn, M, Result, ok, ◌>>=◌, pure, query, draw, clock, lift}
use waterloo_star_backend.Handlers.Replies.{attempt}
use waterloo_star_backend.Auth.Platform.{
  Platform, Claims, hash_token, new_opaque_token, mint_access_token, access_token_ttl,
}
use waterloo_star_backend.Auth.Accounts.{found_row, when_found}

pub >>=-ok :
    {A B : Type 0} (m : M A) (f : A → M B) (c : Conn) {a : A} {c' : Conn} {r : Result B × Conn}
    → m c ≡ (ok a, c')
    → f a c' ≡ r
    → (m >>= f) c ≡ r
unfolding ◌>>=◌
>>=-ok m f c e rest = ap (λ q. (◌>>=◌ (λ _. q) f) c) e ∙ rest

pub query-ok :
    {A : Type 0} (f : ℕ → Db → Result A × Db) (c : Conn) {a : A} {d : Db}
    → c.faults ≡ []
    → f c.now c.db ≡ (ok a, d)
    → query f c ≡ (ok a, record c { db = d })
unfolding query
query-ok f c calm e = rw (calm, e) refl

pub query-passes :
    {A : Type 0} (f : ℕ → Db → Result A × Db) (c : Conn) (rest : List Bool) {a : A} {d : Db}
    → c.faults ≡ false ∷ rest
    → f c.now c.db ≡ (ok a, d)
    → query f c ≡ (ok a, record c { db = d; faults = rest })
unfolding query
query-passes f c rest due e = rw (due, e) refl

pub when_found-ok :
    {A B : Type 0} (m : M A) (missing : M B) (rest : A → M B) (c : Conn) {a : A} {c' : Conn}
    {r : Result B × Conn}
    → m c ≡ (ok a, c')
    → rest a c' ≡ r
    → when_found m missing rest c ≡ r
unfolding when_found attempt
when_found-ok m missing rest c e after =
    >>=-ok (attempt m) (found_row missing rest) c (ap (λ q. (ok q.0, q.1)) e) after

module _ (p : Platform) where
  pub new_opaque_token-ok :
      (bytes : ℕ) (rest : List ℕ) (c : Conn)
      → c.draws ≡ bytes ∷ rest
      → new_opaque_token p c
        ≡ (ok (p.encode bytes, hash_token p (p.encode bytes)), record c { draws = rest })
  unfolding new_opaque_token ◌>>=◌ draw pure
  new_opaque_token-ok bytes rest c e = rw e refl

  draw-ok :
      (n : ℕ) (rest : List ℕ) (c : Conn)
      → c.draws ≡ n ∷ rest
      → draw c ≡ (ok n, record c { draws = rest })
  unfolding draw
  draw-ok n rest c e = rw e refl

  lift-ok : {A : Type 0} (o : Option A) (c : Conn) {a : A} → o ≡ some a → lift o c ≡ (ok a, c)
  unfolding lift
  lift-ok o c e = rw e refl

  abbrev pub claims_of : ℕ → Role → Bool → ℕ → ℕ → Claims
  claims_of user_id role verified now token_id = record {
    user_id = user_id;
    role = role;
    verified = verified;
    issued_at = now;
    expires_at = now + access_token_ttl;
    token_id = token_id;
  }

  pub mint_access_token-ok :
      (user_id : ℕ) (role : Role) (verified : Bool) (token_id : ℕ) (rest : List ℕ) (c : Conn)
      (signed : Text)
      → c.draws ≡ token_id ∷ rest
      → p.signed_string (claims_of user_id role verified c.now token_id) ≡ some signed
      → mint_access_token p user_id role verified c
        ≡ (ok (signed, c.now + access_token_ttl), record c { draws = rest })
  unfolding mint_access_token pure clock
  mint_access_token-ok user_id role verified token_id rest c signed e f =
      >>=-ok _ _ _ refl
        (>>=-ok _ _ _ (draw-ok token_id rest c e) (>>=-ok _ _ _ (lift-ok _ _ f) refl))
