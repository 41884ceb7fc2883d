-- ===== src/Auth/Guarded.antt =====
-- Invariants that the statements of internal/httpapi/auth.go keep, where a session starts for no
-- account but an allowed one: the rules of each statement, and of the rows that are read.
use waterloo_star_backend.Common.{
  ℕ, ◌≡◌, refl, Bool, true, false, Option, none, some, ◌∷◌, is_none, if◌then◌else◌,
}
use waterloo_star_backend.Common.Text.{Text}
use waterloo_star_backend.Store.Table.{lookup, update, update_all, find}
use waterloo_star_backend.Store.Rows.{Db, User, RefreshToken, LinkToken, no_rows}
use waterloo_star_backend.Store.Conn.{Result, ok, err, M}
use waterloo_star_backend.Store.Queries.{found, revoke_if}
use waterloo_star_backend.Store.Sessions.{
  Link, set_links, links, revoke_at, consume_at, consume_if, if_user, unless_taken,
}
use waterloo_star_backend.Store.Hoare.{Triple, After, >>=-Triple, attempt-Triple, throw-Triple}
use waterloo_star_backend.Store.Invariants.{Keeps}
use waterloo_star_backend.Handlers.Replies.{attempt}
use waterloo_star_backend.Auth.Accounts.{when_found, found_row}

-- Whether an account is not suspended
abbrev pub is_open : User → Bool
is_open u = is_none u.suspended_at

abbrev pub fresh_session : ℕ → ℕ → RefreshToken
fresh_session id expires_at = record { user_id = id; expires_at = expires_at; revoked_at = none }

pub record Guarded (I : Db → Type 0) (Allowed : ℕ → Type 0) : Type 0 where
  pub reads_email :
      (q : User → Bool) (id : ℕ) (u : User) (d : Db)
      → I d
      → find q d.users ≡ some (id, u)
      → is_open u ≡ true
      → Allowed id
  pub reads_id :
      (id : ℕ) (u : User) (d : Db)
      → I d
      → lookup id d.users ≡ some u
      → is_open u ≡ true
      → Allowed id
  pub creates_user :
      (id : ℕ) (u : User) (d : Db)
      → I d
      → lookup id d.users ≡ none
      → I (record d { users = (id, u) ∷ d.users })
  pub verifies :
      (id now : ℕ) (u : User) (d : Db)
      → I d
      → lookup id d.users ≡ some u
      → I (record d { users = update id (record u { verified = true; updated_at = now }) d.users })
  pub rehashes :
      (id now : ℕ) (u : User) (hash : Text) (d : Db)
      → I d
      → lookup id d.users ≡ some u
      → I (record d {
        users = update id (record u { password_hash = hash; updated_at = now }) d.users;
      })
  pub consumes :
      (l : Link) (hash now : ℕ) (d : Db) → I d → I (set_links l (consume_at hash now (links l d)) d)
  pub consumes_all :
      (l : Link) (id now : ℕ) (d : Db)
      → I d
      → I (set_links l (update_all (consume_if id now) (links l d)) d)
  pub creates_link :
      (l : Link) (hash : ℕ) (t : LinkToken) (d : Db)
      → I d
      → lookup hash (links l d) ≡ none
      → I (set_links l ((hash, t) ∷ links l d) d)
  pub starts :
      (hash id expires_at : ℕ) (d : Db)
      → Allowed id
      → I d
      → lookup hash d.refresh_tokens ≡ none
      → I (record d { refresh_tokens = (hash, fresh_session id expires_at) ∷ d.refresh_tokens })
  pub revokes :
      (hash now : ℕ) (d : Db)
      → I d
      → I (record d { refresh_tokens = revoke_at hash now d.refresh_tokens })
  pub evicts :
      (id now : ℕ) (d : Db)
      → I d
      → I (record d { refresh_tokens = update_all (revoke_if id now) d.refresh_tokens })

abbrev pub RowAllowed : (ℕ → Type 0) → ℕ × User → Type 0
RowAllowed Allowed row = is_open (row.1) ≡ true → Allowed (row.0)

pub when_found-Triple :
    {A B : Type 0} {I P : Db → Type 0} {Q : A → Db → Type 0} {R : B → Db → Type 0} (m : M A)
    (missing : M B) (rest : A → M B)
    → Triple I P m Q
    → Triple I I missing R
    → ((a : A) → Triple I (Q a) (rest a) R)
    → Triple I P (when_found m missing rest) R
unfolding when_found
when_found-Triple {A} {B} {I} {P} {Q} {R} m missing rest k none_found next =
    >>=-Triple (attempt m) (found_row missing rest) (attempt-Triple m k) go
  where
    go : (r : Result A) → Triple I (λ d. After I Q (r, d)) (found_row missing rest r) R
    go (ok a) = next a
    go (err no_rows) = none_found
    go (err e) = throw-Triple e (λ d i. i)

pub when_found-Keeps :
    {A B : Type 0} {I : Db → Type 0} (m : M A) (missing : M B) (rest : A → M B)
    → Keeps I m
    → Keeps I missing
    → ((a : A) → Keeps I (rest a))
    → Keeps I (when_found m missing rest)
when_found-Keeps m missing rest k l h = when_found-Triple m missing rest k l h

pub found-After :
    {A : Type 0} (I : Db → Type 0) (o : Option A) (d : Db) → I d → After I (λ _. I) (found o d)
found-After I none d i = i
found-After I (some a) d i = i

module _ {A : Type 0} (I : Db → Type 0) (d : Db) (i : I d) (r : Result A × Db) where
  pub if_user-After : (o : Option User) → After I (λ _. I) r → After I (λ _. I) (if_user o d r)
  if_user-After none h = i
  if_user-After (some u) h = h

  pub unless_taken-After :
      {B : Type 0} (o : Option B)
      → (o ≡ none → After I (λ _. I) r)
      → After I (λ _. I) (unless_taken o d r)
  unless_taken-After none h = h refl
  unless_taken-After (some b) h = i

pub if-After :
    {A : Type 0} (I : Db → Type 0) (b : Bool) (r s : Result A × Db)
    → After I (λ _. I) r
    → After I (λ _. I) s
    → After I (λ _. I) (if b then r else s)
if-After I true r s h k = h
if-After I false r s h k = k
