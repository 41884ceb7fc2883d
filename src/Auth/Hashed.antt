-- ===== src/Auth/Hashed.antt =====
-- What HashPassword of internal/auth/password.go gives.
use waterloo_star_backend.Common.{ℕ, ◌≡◌, Option, none, some}
use waterloo_star_backend.Common.Text.{Text}
use waterloo_star_backend.Store.Rows.{Db}
use waterloo_star_backend.Store.Conn.{draw}
use waterloo_star_backend.Store.Hoare.{Triple, >>=-Triple, draw-Triple, lift-Triple, throw-Triple}
use waterloo_star_backend.Handlers.Replies.{Message}
use waterloo_star_backend.Auth.Platform.{Platform}
use waterloo_star_backend.Auth.Validate.{hash_password, hashed, validate_password}
use waterloo_star_backend.Auth.Rotation.{Any}

module _ (p : Platform) where
  -- A hash that bcrypt gives for a password, with some salt
  abbrev pub IsHashOf : Text → Text → Type 0
  IsHashOf hash plain = (salt : ℕ) × (p.generate_from_password salt plain ≡ some hash)

  pub hash_password-IsHashOf :
      {P : Db → Type 0} (plain : Text)
      → Triple Any P (hash_password p plain) (λ hash d. P d × IsHashOf hash plain)
  unfolding hash_password
  hash_password-IsHashOf {P} plain = go (validate_password plain)
    where
      go :
          (o : Option Message)
          → Triple Any P (hashed p plain o) (λ hash d. P d × IsHashOf hash plain)
      go (some problem) = throw-Triple _ λ d h. tt
      go none = >>=-Triple draw _ (draw-Triple λ d h. tt) λ salt.
          lift-Triple (p.generate_from_password salt plain) (λ d h. tt) λ hash d e h. (h, (salt, e))
