-- ===== src/Auth/Validate.antt =====
-- What a registration and a password must satisfy: validateRegistration and isUWaterlooDomain of
-- internal/httpapi/auth.go, and ValidatePassword and HashPassword of internal/auth/password.go.
use Prim.Native.String.{String}
use waterloo_star_backend.Common.{
  ℕ, Bool, true, ◌&&◌, ◌||◌, not, Option, none, some, List, [], ◌∷◌, ◌++◌, leb, ltb, ◌==◌,
  if◌then◌else◌, length,
}
use waterloo_star_backend.Common.Text.{Text, byte_length, is_empty, text_eq, ends_with}
use waterloo_star_backend.Store.Conn.{M, ◌>>=◌, throw, draw, lift}
use waterloo_star_backend.Store.Rows.{outside}
use waterloo_star_backend.Handlers.Replies.{Message}
use waterloo_star_backend.Auth.Platform.{Platform}

abbrev pub max_password_bytes : ℕ
max_password_bytes = 72

abbrev pub min_password_runes : ℕ
min_password_runes = 10

unfoldable pub validate_password : Text → Option Message
validate_password plain =
    if ltb (length plain) min_password_runes
    then some ("password must be at least 10 characters" ∷ [])
    else if ltb max_password_bytes (byte_length plain)
    then some ("password must be at most 72 bytes" ∷ [])
    else none

abbrev pub hashed : Platform → Text → Option Message → M Text
hashed p plain (some problem) = throw outside
hashed p plain none = draw >>= λ salt. lift (p.generate_from_password salt plain)

unfoldable pub hash_password : Platform → Text → M Text
hash_password p plain = hashed p plain (validate_password plain)

-- uwaterloo.ca, and .uwaterloo.ca
abbrev pub uwaterloo_suffix : Text
uwaterloo_suffix = 117 ∷ 119 ∷ 97 ∷ 116 ∷ 101 ∷ 114 ∷ 108 ∷ 111 ∷ 111 ∷ 46 ∷ 99 ∷ 97 ∷ []

-- `strings.TrimSuffix(t, ".")`
unfoldable pub trim_dot : Text → Text
trim_dot [] = []
trim_dot (c ∷ t) = let rest = trim_dot t in if c == 46 && is_empty t then [] else c ∷ rest

unfoldable pub is_uwaterloo_domain : Platform → Text → Bool
is_uwaterloo_domain p domain =
    let d = p.to_lower (trim_dot domain) in
    text_eq d uwaterloo_suffix || ends_with (46 ∷ uwaterloo_suffix) d

-- `strings.LastIndex(t, "@")`, as the text before it and the text after it
unfoldable pub split_at : Text → Option (Text × Text)
split_at [] = none
split_at (c ∷ t) = elim (split_at t) [
  | some parts ↦ some (c ∷ parts.0, parts.1)
  | none ↦ if c == 64 then some ([], t) else none
]

-- [A-Za-z0-9_.-]
unfoldable pub is_username_char : ℕ → Bool
is_username_char c =
    (leb 65 c && leb c 90)
    || (leb 97 c && leb c 122)
    || (leb 48 c && leb c 57)
    || c == 95
    || c == 46
    || c == 45

unfoldable pub all_chars : (ℕ → Bool) → Text → Bool
all_chars q [] = true
all_chars q (c ∷ t) = q c && all_chars q t

unfoldable pub is_username : Text → Bool
is_username t = leb 3 (length t) && leb (length t) 32 && all_chars is_username_char t

abbrev pub Problems : Type 0
Problems = List (String × Message)

abbrev pub invalid_address : Problems
invalid_address = ("email", "Enter a valid email address." ∷ []) ∷ []

unfoldable pub email_problems : Platform → Text → Problems
email_problems p email = elim (split_at email) [
  | none ↦ invalid_address
  | some parts ↦
      if is_empty parts.0 || is_empty parts.1
      then invalid_address
      else if not (is_uwaterloo_domain p parts.1)
      then ("email", "Use your University of Waterloo address, ending in uwaterloo.ca." ∷ []) ∷ []
      else []
]

unfoldable pub username_problems : Text → Problems
username_problems username =
    if is_username username
    then []
    else ("username", "3 to 32 characters: letters, numbers, dot, dash or underscore." ∷ []) ∷ []

unfoldable pub password_problems : Text → Problems
password_problems password = elim (validate_password password) [
  | none ↦ []
  | some problem ↦ ("password", problem) ∷ []
]

unfoldable pub validate_registration : Platform → Text → Text → Text → Problems
validate_registration p email username password =
    email_problems p email ++ username_problems username ++ password_problems password
