-- ===== src/Prelude/Texts.antt =====
-- Go strings as lists of bytes, with what the program takes from package strings. The texts are
-- ASCII: above it TrimSpace and ToUpper follow Unicode tables that are not modelled.
use Prim.Native.Nat.{ℕ, ◌+◌, ◌-◌, ◌/◌, ◌%◌}
use Prim.Native.Char.{code}
use Prim.Native.String.{String}
use mathlib.Core.Path.{◌≡◌, refl}
use mathlib.Core.Logic.{◌↔◌, inl, inr}
use mathlib.Core.Bool.{Bool, true, false, ◌&&◌, ◌||◌}
use mathlib.Core.List.{List, [], ◌∷◌, ◌++◌}
use native.Mathlib.Omega.{arith}
use mathlib.Core.Option.{none, some}
use pay_flow_mock.Prelude.Maps.{map_get}
use pay_flow_mock.Prelude.Tests.{leb, ◌==◌, if◌then◌else◌, Bool-cases}

abbrev pub Text : Type 0
Text = List ℕ

-- The bytes of a literal.
abbrev pub codes : String → Text
codes String.[] = []
codes (String.◌∷◌ c s) = code c ∷ codes s

unfoldable pub text_eq : Text → Text → Bool
text_eq [] [] = true
text_eq (x ∷ xs) (y ∷ ys) = x == y && text_eq xs ys
text_eq _ _ = false

pub text_eq_iff : (s t : Text) → (text_eq s t ≡ true) ↔ (s ≡ t)
unfolding text_eq
text_eq_iff [] [] = ground arith
text_eq_iff (x ∷ xs) (y ∷ ys) = ground (arith, text_eq_iff xs ys)
text_eq_iff [] (y ∷ ys) = ground arith
text_eq_iff (x ∷ xs) [] = ground arith

pub text_eq_refl : (s : Text) → text_eq s s ≡ true
text_eq_refl s = (text_eq_iff s s).1 refl

-- `s == ""`
abbrev pub is_empty : Text → Bool
is_empty [] = true
is_empty (c ∷ s) = false

-- strings.TrimSpace
abbrev is_space : ℕ → Bool
is_space c = c == 32 || (leb 9 c && leb c 13)

unfoldable pub trim_left : Text → Text
trim_left [] = []
trim_left (c ∷ s) = if is_space c then trim_left s else c ∷ s

abbrev keep_before : ℕ → Text → Text
keep_before c [] = if is_space c then [] else c ∷ []
keep_before c (d ∷ s) = c ∷ d ∷ s

unfoldable pub trim_right : Text → Text
trim_right [] = []
trim_right (c ∷ s) = keep_before c (trim_right s)

unfoldable pub trim_space : Text → Text
unfolding trim_left trim_right
trim_space s = trim_right (trim_left s)

-- strings.ToUpper and strings.ToLower
abbrev upper_byte : ℕ → ℕ
upper_byte c = if leb b'a' c && leb c b'z' then c - 32 else c

unfoldable pub to_upper : Text → Text
to_upper [] = []
to_upper (c ∷ s) = upper_byte c ∷ to_upper s

abbrev lower_byte : ℕ → ℕ
lower_byte c = if leb b'A' c && leb c b'Z' then c + 32 else c

unfoldable pub to_lower : Text → Text
to_lower [] = []
to_lower (c ∷ s) = lower_byte c ∷ to_lower s

to_upper-trim_left : (s : Text) → to_upper (trim_left s) ≡ trim_left (to_upper s)
unfolding to_upper trim_left
to_upper-trim_left [] = refl
to_upper-trim_left (c ∷ s) = ground (arith, to_upper-trim_left s)

to_upper-keep_before :
    (c : ℕ) (s : Text) → to_upper (keep_before c s) ≡ keep_before (upper_byte c) (to_upper s)
unfolding to_upper
to_upper-keep_before c [] = ground arith
to_upper-keep_before c (d ∷ s) = refl

to_upper-trim_right : (s : Text) → to_upper (trim_right s) ≡ trim_right (to_upper s)
unfolding to_upper trim_right
to_upper-trim_right [] = refl
to_upper-trim_right (c ∷ s) = rw (to_upper-keep_before c (trim_right s), to_upper-trim_right s)

-- The verb `%q` of fmt: a Go string literal.
abbrev hex_digit : ℕ → ℕ
hex_digit n = if leb n 9 then 48 + n else 87 + n

abbrev escapes : List (ℕ × ℕ)
escapes =
    (7, b'a')
    ∷ (8, b'b')
    ∷ (9, b't')
    ∷ (10, b'n')
    ∷ (11, b'v')
    ∷ (12, b'f')
    ∷ (13, b'r')
    ∷ (34, 34)
    ∷ (92, 92)
    ∷ []

abbrev pub quoted_byte : ℕ → Text
quoted_byte c = elim (map_get ◌==◌ c escapes) [
  | some letter ↦ 92 ∷ letter ∷ []
  | none ↦
      if leb 32 c && leb c 126
      then c ∷ []
      else codes "\\x" ++ (hex_digit (c / 16) ∷ hex_digit (c % 16) ∷ [])
]

unfoldable pub quoted_bytes : Text → Text
quoted_bytes [] = []
quoted_bytes (c ∷ s) = quoted_byte c ++ quoted_bytes s

unfoldable pub quoted : Text → Text
unfolding quoted_bytes
quoted s = codes "\"" ++ (quoted_bytes s ++ codes "\"")

-- The two orders in which the program normalises a currency agree.
pub to_upper-trim_space : (s : Text) → to_upper (trim_space s) ≡ trim_space (to_upper s)
unfolding trim_space
to_upper-trim_space s = rw (to_upper-trim_right (trim_left s), to_upper-trim_left s)

pub to_upper_idem : (s : Text) → to_upper (to_upper s) ≡ to_upper s
unfolding to_upper
to_upper_idem [] = refl
to_upper_idem (c ∷ s) = ground (arith, to_upper_idem s)

keep_before-trim_right :
    (c : ℕ) (s : Text) → trim_right (keep_before c s) ≡ keep_before c (trim_right s)
unfolding trim_right
keep_before-trim_right c [] = ground arith
keep_before-trim_right c (d ∷ s) = refl

trim_right_idem : (s : Text) → trim_right (trim_right s) ≡ trim_right s
unfolding trim_right
trim_right_idem [] = refl
trim_right_idem (c ∷ s) = rw (keep_before-trim_right c (trim_right s), trim_right_idem s)

-- What starts with no space still does without its spaces at the end.
keep_before-trim_left :
    (c : ℕ) (s : Text) → is_space c ≡ false → trim_left (keep_before c s) ≡ keep_before c s
unfolding trim_left
keep_before-trim_left c [] h = ground arith
keep_before-trim_left c (d ∷ s) h = ground arith

trim_left-trim_space : (s : Text) → trim_left (trim_right (trim_left s)) ≡ trim_right (trim_left s)
unfolding trim_left trim_right
trim_left-trim_space [] = refl
trim_left-trim_space (c ∷ s) = elim (Bool-cases (is_space c)) [
  | inl space ↦ rw space (trim_left-trim_space s)
  | inr other ↦ rw other (keep_before-trim_left c (trim_right s) other)
]

pub trim_space_idem : (s : Text) → trim_space (trim_space s) ≡ trim_space s
unfolding trim_space
trim_space_idem s = rw (trim_left-trim_space s, trim_right_idem (trim_left s))
