-- ===== src/Money/Digits.antt =====
-- `toString` and `BigInt(...)` on natural numbers, which packages/facturx/src/money.ts prints and
-- parses amounts with. The fuel of the printing loop is the number itself, plus one.
use validateur_facturx.Common.{
  ℕ, zero, suc, ◌+◌, ◌-◌, ◌*◌, ◌/◌, ◌%◌, ◌<◌, ◌≤◌, ◌≡◌, refl, ap, ◌∙◌, ltb→lt, arith, true, false,
  [], ◌∷◌, ◌++◌, ltb, if◌then◌else◌, All, replicate, Bool-cases, inl, inr, length,
}
use validateur_facturx.Common.Text.{Text, is_digit}

-- Digits are emitted from the right; the loop ends at the leading digit.
digits_from : ℕ → ℕ → Text → Text
digits_from zero n out = out
digits_from (suc fuel) n out =
    let digit = b'0' + n % 10 in
    let rest = digits_from fuel (n / 10) (digit ∷ out) in if ltb n 10 then digit ∷ out else rest

unfoldable pub to_string : ℕ → Text
unfolding digits_from
to_string n = digits_from (suc n) n []

-- The number that decimal digits spell behind `n`.
abbrev pub value_from : ℕ → Text → ℕ
value_from n [] = n
value_from n (c ∷ s) = value_from (n * 10 + (c - b'0')) s

abbrev pub IsDigit : ℕ → Type 0
IsDigit c = is_digit c ≡ true

digits_from-value :
    (fuel n : ℕ) (out : Text) → n < fuel → value_from 0 (digits_from fuel n out) ≡ value_from n out
unfolding digits_from
digits_from-value zero n out h = absurd (omega arith)
digits_from-value (suc fuel) n out h = elim (Bool-cases (ltb n 10)) [
  | inl one ↦ rw one (ap (λ m. value_from m out) (omega (arith, ltb→lt _ _ one)))
  | inr more ↦ rw more (
      digits_from-value fuel (n / 10) ((b'0' + n % 10) ∷ out) (ground arith)
      ∙ ap (λ m. value_from m out) (omega arith))
]

digits_from-digits :
    (fuel n : ℕ) (out : Text) → All IsDigit out → All IsDigit (digits_from fuel n out)
unfolding digits_from
digits_from-digits zero n out h = h
digits_from-digits (suc fuel) n out h =
    let d : IsDigit (b'0' + n % 10) = ground arith in
    ground (arith, digits_from-digits fuel (n / 10) ((b'0' + n % 10) ∷ out) (d, h))

length-digits_from : (fuel n : ℕ) (out : Text) → length out < length (digits_from (suc fuel) n out)
unfolding digits_from
length-digits_from zero n out = ground arith
length-digits_from (suc fuel) n out =
    ground (arith, length-digits_from fuel (n / 10) ((b'0' + n % 10) ∷ out))

-- A printed number is read back.
pub value-to_string : (n : ℕ) → value_from 0 (to_string n) ≡ n
unfolding to_string
value-to_string n = digits_from-value (suc n) n [] (omega arith)

pub to_string-digits : (n : ℕ) → All IsDigit (to_string n)
unfolding to_string
to_string-digits n = digits_from-digits (suc n) n [] tt

pub length-to_string : (n : ℕ) → 0 < length (to_string n)
unfolding to_string
length-to_string n = length-digits_from n n []

pub zeros-digits : (k : ℕ) → All IsDigit (replicate k b'0')
zeros-digits zero = tt
zeros-digits (suc k) = (refl, zeros-digits k)

pub value-zeros : (k : ℕ) (s : Text) → value_from 0 (replicate k b'0' ++ s) ≡ value_from 0 s
value-zeros zero s = refl
value-zeros (suc k) s = value-zeros k s

-- A number below 100 has at most two digits.
pub length-to_string_small : (n : ℕ) → n < 100 → length (to_string n) ≤ 2
unfolding to_string digits_from
length-to_string_small zero h = omega arith
length-to_string_small (suc m) h = elim (Bool-cases (ltb (suc m) 10)) [
  | inl one ↦ rw one (omega arith)
  | inr more ↦ let next : ltb (suc m / 10) 10 ≡ true = ground arith in rw (more, next) (omega arith)
]

pub to_string_two :
    (n : ℕ) → 10 ≤ n → n < 100 → to_string n ≡ (b'0' + n / 10 % 10) ∷ (b'0' + n % 10) ∷ []
unfolding to_string digits_from
to_string_two zero h1 h2 = absurd (omega arith)
to_string_two (suc m) h1 h2 =
    let more : ltb (suc m) 10 ≡ false = ground arith in
    let next : ltb (suc m / 10) 10 ≡ true = ground arith in rw (more, next) refl
