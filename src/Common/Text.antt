-- ===== src/Common/Text.antt =====
-- Go strings as lists of code points, with `strings.TrimSpace`. The strings that reach the code
-- are decoded JSON, so each is well-formed UTF-8 and `utf8.RuneCountInString` is the length.
use waterloo_star_backend.Common.Tests.{leb, ltb, ◌==◌, if◌then◌else◌}
use Prim.Native.Nat.{ℕ, ◌+◌}
use mathlib.Core.Path.{◌≡◌, refl, sym, subst}
use mathlib.Core.Bool.{Bool, true, false, ◌&&◌, ◌||◌}
use mathlib.Core.List.{List, [], ◌∷◌}
use native.Mathlib.Omega.{arith}

abbrev pub Text : Type 0
Text = List ℕ

-- `unicode.IsSpace`
unfoldable pub is_space : ℕ → Bool
is_space c =
    (leb 9 c && leb c 13)
    || c == 32
    || c == 0x85
    || c == 0xa0
    || c == 0x1680
    || (leb 0x2000 c && leb c 0x200a)
    || c == 0x2028
    || c == 0x2029
    || c == 0x202f
    || c == 0x205f
    || c == 0x3000

unfoldable pub trim_left : Text → Text
trim_left [] = []
trim_left (c ∷ t) = let rest = trim_left t in if is_space c then rest else c ∷ t

abbrev pub is_empty : Text → Bool
is_empty [] = true
is_empty (_ ∷ _) = false

unfoldable pub trim_right : Text → Text
trim_right [] = []
trim_right (c ∷ t) = let rest = trim_right t in if is_space c && is_empty rest then [] else c ∷ rest

unfoldable pub trim_space : Text → Text
unfolding trim_left trim_right
trim_space t = trim_right (trim_left t)

trim_right_twice : (t : Text) → trim_right (trim_right t) ≡ trim_right t
unfolding trim_right
trim_right_twice [] = refl
trim_right_twice (c ∷ t) = ground (arith, trim_right_twice t)

trim_left-trim_right-trim_left :
    (t : Text) → trim_left (trim_right (trim_left t)) ≡ trim_right (trim_left t)
unfolding trim_right trim_left
trim_left-trim_right-trim_left [] = refl
trim_left-trim_right-trim_left (c ∷ t) = ground (arith, trim_left-trim_right-trim_left t)

pub trim_space_twice : (t : Text) → trim_space (trim_space t) ≡ trim_space t
unfolding trim_space
trim_space_twice t = rw (trim_left-trim_right-trim_left t, trim_right_twice (trim_left t))

-- `len(s)`: the bytes of a string in UTF-8
unfoldable pub byte_length : Text → ℕ
byte_length [] = 0
byte_length (c ∷ t) =
    (if ltb c 0x80 then 1 else if ltb c 0x800 then 2 else if ltb c 0x10000 then 3 else 4)
    + byte_length t

-- `==` of two strings
unfoldable pub text_eq : Text → Text → Bool
text_eq [] [] = true
text_eq (c ∷ s) (d ∷ t) = c == d && text_eq s t
text_eq _ _ = false

pub text_eq→eq : (t u : Text) → text_eq t u ≡ true → t ≡ u
unfolding text_eq
text_eq→eq [] [] h = refl
text_eq→eq [] (d ∷ u) h = absurd (cc)
text_eq→eq (c ∷ t) [] h = absurd (cc)
text_eq→eq (c ∷ t) (d ∷ u) h = ground (arith, text_eq→eq t u)

pub text_eq_refl : (t : Text) → text_eq t t ≡ true
unfolding text_eq
text_eq_refl [] = refl
text_eq_refl (c ∷ t) = ground (arith, text_eq_refl t)

-- `strings.HasSuffix(t, end)`, and LIKE '%end'
unfoldable pub ends_with : Text → Text → Bool
ends_with end [] = text_eq end []
ends_with end (c ∷ t) = text_eq end (c ∷ t) || ends_with end t

unfoldable pub text_discrete : Discrete Text
unfolding text_eq
text_discrete s t = decided (text_eq s t) refl
  where
    decided : (b : Bool) → text_eq s t ≡ b → Dec (s ≡ t)
    decided true e = yes (text_eq→eq s t e)
    decided false e = no (λ same. absurd (
        let r = text_eq_refl s in
        let k : text_eq s s ≡ false = subst (λ x. text_eq s x ≡ false) (sym same) e in cc))
