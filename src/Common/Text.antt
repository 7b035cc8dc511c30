-- ===== src/Common/Text.antt =====
-- A JavaScript string: the list of its UTF-16 code units, with the methods that the source calls.
use Prim.Native.Nat.{ℕ, ◌+◌, ◌-◌, ◌≤◌}
use Prim.Native.Char.{code}
use Prim.Native.String.{String}
use mathlib.Core.Path.{◌≡◌, refl}
use mathlib.Core.Logic.{◌↔◌}
use mathlib.Core.Bool.{Bool, true, false, not, ◌&&◌, ◌||◌}
use mathlib.Core.Option.{Option, none, some}
use mathlib.Core.List.{List, [], ◌∷◌, ◌++◌, reverse}
use native.Mathlib.Omega.{arith}
use validateur_facturx.Common.Tests.{leb, ltb, ◌==◌, if◌then◌else◌}
use validateur_facturx.Common.Lists.{length, replicate, length-append, length-replicate}

abbrev pub Text : Type 0
Text = List ℕ

-- A literal of the source; each of its characters is one code unit.
abbrev pub codes : String → Text
codes String.[] = []
codes (String.◌∷◌ c s) = code c ∷ codes s

-- `===` on strings
abbrev pub text_eq : Text → Text → Bool
text_eq [] [] = true
text_eq (a ∷ s) (b ∷ t) = a == b && text_eq s t
text_eq _ _ = false

pub text_eq_iff : (s t : Text) → (text_eq s t ≡ true) ↔ (s ≡ t)
text_eq_iff [] [] = ground arith
text_eq_iff [] (b ∷ t) = ground arith
text_eq_iff (a ∷ s) [] = ground arith
text_eq_iff (a ∷ s) (b ∷ t) = ground (arith, text_eq_iff s t)

pub text_eq_refl : (s : Text) → text_eq s s ≡ true
text_eq_refl s = (text_eq_iff s s).1 refl

abbrev pub starts_with : Text → Text → Bool
starts_with s [] = true
starts_with (a ∷ s) (b ∷ t) = a == b && starts_with s t
starts_with [] (b ∷ t) = false

-- `\d`
abbrev pub is_digit : ℕ → Bool
is_digit c = leb b'0' c && leb c b'9'

-- `\s`, and what `trim` removes
unfoldable pub is_space : ℕ → Bool
is_space c =
    (leb 9 c && leb c 13)
    || c == 0x20
    || c == 0xa0
    || c == 0x1680
    || (leb 0x2000 c && leb c 0x200a)
    || c == 0x2028
    || c == 0x2029
    || c == 0x202f
    || c == 0x205f
    || c == 0x3000
    || c == 0xfeff

unfoldable pub trim_start : Text → Text
trim_start [] = []
trim_start (c ∷ s) = if is_space c then trim_start s else c ∷ s

unfoldable pub trim : Text → Text
unfolding trim_start is_space
trim s = reverse (trim_start (reverse (trim_start s)))

-- `padStart(n, fill)` with a fill of one code unit
abbrev pub pad_start : ℕ → ℕ → Text → Text
pad_start n fill s = replicate (n - length s) fill ++ s

pub length-pad_start : (n fill : ℕ) (s : Text) → n ≤ length (pad_start n fill s)
length-pad_start n fill s =
    omega
      (arith, length-append (replicate (n - length s) fill) s, length-replicate (n - length s) fill)

-- A string that may be absent, as a condition: `null`, `undefined` and the empty string are falsy.
abbrev pub truthy : Option Text → Bool
truthy none = false
truthy (some []) = false
truthy (some (c ∷ s)) = true

-- `includes` on an array of strings
abbrev pub includes : List Text → Text → Bool
includes [] t = false
includes (s ∷ ss) t = text_eq s t || includes ss t

-- `toLowerCase` and `toUpperCase`, as far as they give letters of ASCII: a character whose lower or upper
-- case is not made of those is kept, since the texts that the source compares with are ASCII.
abbrev pub to_lower : ℕ → ℕ
to_lower c = if leb b'A' c && leb c b'Z' then c + 32 else if c == 0x212A then b'k' else c

-- Some characters have two or three letters as their upper case.
abbrev pub upper_char : ℕ → Text
upper_char c =
    if leb b'a' c && leb c b'z'
    then (c - 32) ∷ []
    else if c == 0xDF
    then b'S' ∷ b'S' ∷ []
    else if c == 0x131
    then b'I' ∷ []
    else if c == 0x17F
    then b'S' ∷ []
    else if c == 0xFB00
    then b'F' ∷ b'F' ∷ []
    else if c == 0xFB01
    then b'F' ∷ b'I' ∷ []
    else if c == 0xFB02
    then b'F' ∷ b'L' ∷ []
    else if c == 0xFB03
    then b'F' ∷ b'F' ∷ b'I' ∷ []
    else if c == 0xFB04
    then b'F' ∷ b'F' ∷ b'L' ∷ []
    else if c == 0xFB05 || c == 0xFB06
    then b'S' ∷ b'T' ∷ []
    else c ∷ []

abbrev pub to_upper : Text → Text
to_upper [] = []
to_upper (c ∷ s) = upper_char c ++ to_upper s

pub text_eq_sym : (s t : Text) → text_eq s t ≡ text_eq t s
text_eq_sym [] [] = refl
text_eq_sym [] (b ∷ t) = refl
text_eq_sym (a ∷ s) [] = refl
text_eq_sym (a ∷ s) (b ∷ t) = ground (arith, text_eq_sym s t)

-- `<` on strings, by code units
abbrev pub text_lt : Text → Text → Bool
text_lt s [] = false
text_lt [] (b ∷ t) = true
text_lt (a ∷ s) (b ∷ t) = ltb a b || (a == b && text_lt s t)

abbrev pub ends_with : Text → Text → Bool
ends_with s t = starts_with (reverse s) (reverse t)

-- `join`
abbrev pub join : Text → List Text → Text
join separator [] = []
join separator (t ∷ []) = t
join separator (t ∷ u ∷ ts) = t ++ (separator ++ join separator (u ∷ ts))

-- `[A-Z]`
abbrev pub is_upper : ℕ → Bool
is_upper c = leb b'A' c && leb c b'Z'

-- What `/\s/g` leaves.
abbrev pub not_space : ℕ → Bool
not_space c = not (is_space c)
