-- ===== src/Auth/Platform.antt =====
-- What the code of accounts and sessions takes from outside the repository: the case mapping of
-- Go and of PostgreSQL, SHA-256, base64, bcrypt and the signing of a JWT; and the tokens that
-- internal/auth/random.go and token.go make of these.
use waterloo_star_backend.Common.{ℕ, Bool, Option, ◌+◌, ◌*◌}
use waterloo_star_backend.Common.Text.{Text}
use waterloo_star_backend.Store.Rows.{Role}
use waterloo_star_backend.Store.Conn.{M, ◌>>=◌, pure, draw, lift, clock}
use waterloo_star_backend.RateLimit.Policy.{minutes, hours}

-- `auth.Principal`, and with the other claims what an access token says.
pub record Claims : Type 0 where
  pub user_id : ℕ
  pub role : Role
  pub verified : Bool
  pub issued_at : ℕ
  pub expires_at : ℕ
  pub token_id : ℕ

pub record Platform : Type 0 where
  -- `strings.ToLower`, and `lower` of the database
  pub to_lower : Text → Text
  pub sql_lower : Text → Text
  -- SHA-256, as a number
  pub sha256 : Text → ℕ
  -- base64.RawURLEncoding, of 32 random bytes
  pub encode : ℕ → Text
  -- bcrypt, with a random salt
  pub generate_from_password : ℕ → Text → Option Text
  pub compare_hash_and_password : Text → Text → Bool
  pub signed_string : Claims → Option Text

abbrev pub access_token_ttl : ℕ
access_token_ttl = minutes 15

abbrev pub refresh_token_ttl : ℕ
refresh_token_ttl = 30 * hours 24

abbrev pub verification_token_ttl : ℕ
verification_token_ttl = hours 24

abbrev pub password_reset_ttl : ℕ
password_reset_ttl = hours 1

module _ (p : Platform) where
  unfoldable pub hash_token : Text → ℕ
  hash_token raw = p.sha256 raw

  -- The raw token, and the hash to store
  unfoldable pub new_opaque_token : M (Text × ℕ)
  new_opaque_token = draw >>= λ bytes. pure (p.encode bytes, hash_token (p.encode bytes))

  -- The signed token, and when it expires
  unfoldable pub mint_access_token : ℕ → Role → Bool → M (Text × ℕ)
  mint_access_token user_id role verified = do
    now ← clock
    token_id ← draw
    signed ← lift (
        p.signed_string (record {
          user_id = user_id;
          role = role;
          verified = verified;
          issued_at = now;
          expires_at = now + access_token_ttl;
          token_id = token_id;
        }))
    pure (signed, now + access_token_ttl)
