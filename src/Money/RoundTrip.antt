-- ===== src/Money/RoundTrip.antt =====
-- packages/facturx/src/money.ts: `parseDecimal` reads back what `format` prints.
use mathlib.Core.List.{reverse, reverse-reverse, reverse_aux, append-nil}
use mathlib.Core.Path.{subst}
use validateur_facturx.Common.{
  ℕ, ◌+◌, ◌-◌, ◌<◌, ◌≡◌, refl, ap, ◌∙◌, arith, Bool, true, false, [], ◌∷◌, ◌++◌, ◌==◌,
  if◌then◌else◌, Bool-cases, inl, inr, all, All, All-append, length, replicate, take, drop,
  take-append-drop, length-drop, length-take, All-take, All-drop, Option, none, some,
}
use validateur_facturx.Common.Int.{ℤ, pos, negsuc, nat_abs, is_neg}
use validateur_facturx.Common.Text.{
  Text, is_digit, is_space, trim, trim_start, pad_start, length-pad_start,
}
use validateur_facturx.Money.{Decimal, decimal}
use validateur_facturx.Money.Digits.{
  IsDigit, to_string, value_from, value-to_string, to_string-digits, zeros-digits, value-zeros,
}
use validateur_facturx.Money.Literal.{
  split_dot, strip_sign, matches_unsigned, matches_decimal, assemble, parse_trimmed, parse_decimal,
  point, format, is_empty, signed, sign_text, starts_negative,
}

-- Text in which nothing is trimmed.
abbrev pub Solid : Text → Type 0
Solid = All (λ c. is_space c ≡ false)

trim_start-Solid : (s : Text) → Solid s → trim_start s ≡ s
unfolding trim_start
trim_start-Solid [] h = refl
trim_start-Solid (c ∷ s) (p, h) = rw p refl

Solid-reverse_aux : (s t : Text) → Solid s → Solid t → Solid (reverse_aux s t)
Solid-reverse_aux [] t h k = k
Solid-reverse_aux (c ∷ s) t (p, h) k = Solid-reverse_aux s (c ∷ t) h (p, k)

pub trim-Solid : (s : Text) → Solid s → trim s ≡ s
unfolding trim
trim-Solid s h =
    rw (trim_start-Solid s h, trim_start-Solid (reverse s) (Solid-reverse_aux s [] h tt))
      (reverse-reverse s)

digit-Solid : (c : ℕ) → IsDigit c → is_space c ≡ false
unfolding is_space
digit-Solid c h = ground arith

pub digits-Solid : (s : Text) → All IsDigit s → Solid s
digits-Solid [] h = tt
digits-Solid (c ∷ s) (p, h) = (digit-Solid c p, digits-Solid s h)

pub All-all : (s : Text) → All IsDigit s → all is_digit s ≡ true
All-all [] h = refl
All-all (c ∷ s) (p, h) = rw (p, All-all s h) refl

split_dot_digits : (s : Text) → All IsDigit s → split_dot s ≡ (s, none)
unfolding split_dot
split_dot_digits [] h = refl
split_dot_digits (c ∷ s) (p, h) =
    let ne : (c == b'.') ≡ false = ground arith in rw (ne, split_dot_digits s h) refl

split_dot_pointed : (s t : Text) → All IsDigit s → split_dot (s ++ b'.' ∷ t) ≡ (s, some t)
unfolding split_dot
split_dot_pointed [] t h = refl
split_dot_pointed (c ∷ s) t (p, h) =
    let ne : (c == b'.') ≡ false = ground arith in rw (ne, split_dot_pointed s t h) refl

not_empty : (s : Text) → 0 < length s → is_empty s ≡ false
not_empty [] h = absurd (omega arith)
not_empty (c ∷ s) h = refl

abbrev cut_of : Text → ℕ → Text × Option Text
cut_of digits scale =
    if scale == 0
    then (digits, none)
    else (take (length digits - scale) digits, some (drop (length digits - scale) digits))

cut_of-parts :
    (digits : Text) (scale : ℕ)
    → All IsDigit digits
    → scale < length digits
    → (split_dot (point digits scale) ≡ cut_of digits scale)
      × (matches_unsigned (cut_of digits scale).0 (cut_of digits scale).1 ≡ true)
unfolding point matches_unsigned
cut_of-parts digits scale h lt = elim (Bool-cases (scale == 0)) [
  | inl whole ↦
      rw whole
        (split_dot_digits digits h, rw (All-all digits h, not_empty digits (omega arith)) refl)
  | inr pointed ↦
      let cut = length digits - scale in
      rw pointed (
        split_dot_pointed (take cut digits) (drop cut digits) (All-take _ cut digits h),
        rw
            (
              All-all (take cut digits) (All-take _ cut digits h),
              All-all (drop cut digits) (All-drop _ cut digits h),
              not_empty (take cut digits) (omega (arith, length-take cut digits (omega arith))),
            )
            refl,
      )
]

assemble-cut_of :
    (negative : Bool) (digits : Text) (scale : ℕ)
    → scale < length digits
    → assemble negative (cut_of digits scale).0 (cut_of digits scale).1
      ≡ decimal (signed negative (value_from 0 digits)) scale
unfolding assemble
assemble-cut_of negative digits scale lt = elim (Bool-cases (scale == 0)) [
  | inl whole ↦ rw whole (ap (decimal (signed negative (value_from 0 digits))) (ground arith))
  | inr pointed ↦
      let cut = length digits - scale in
      rw (pointed, take-append-drop cut digits, length-drop cut digits)
        (ap (decimal (signed negative (value_from 0 digits))) (omega arith))
]

-- A text that begins with a digit carries no sign.
abbrev Unsigned : Text → Type 0
Unsigned s = (strip_sign s ≡ s) × (starts_negative s ≡ false) × (is_empty s ≡ false)

digits-Unsigned : (s t : Text) → All IsDigit s → 0 < length s → Unsigned (s ++ t)
unfolding strip_sign
digits-Unsigned [] t h lt = absurd (omega arith)
digits-Unsigned (c ∷ s) t (p, h) lt = (ground arith, ground arith, refl)

point-Unsigned :
    (digits : Text) (scale : ℕ)
    → All IsDigit digits
    → scale < length digits
    → Unsigned (point digits scale)
unfolding point
point-Unsigned digits scale h lt = elim (Bool-cases (scale == 0)) [
  | inl whole ↦
      rw whole (subst Unsigned (append-nil digits) (digits-Unsigned digits [] h (omega arith)))
  | inr pointed ↦
      let cut = length digits - scale in
      rw pointed (
        digits-Unsigned (take cut digits) (b'.' ∷ drop cut digits) (All-take _ cut digits h)
          (omega (arith, length-take cut digits (omega arith))))
]

point-Solid : (digits : Text) (scale : ℕ) → All IsDigit digits → Solid (point digits scale)
unfolding point is_space
point-Solid digits scale h = elim (Bool-cases (scale == 0)) [
  | inl whole ↦ rw whole (digits-Solid digits h)
  | inr pointed ↦
      let cut = length digits - scale in
      rw pointed (
        All-append _ (take cut digits) (b'.' ∷ drop cut digits)
          (digits-Solid _ (All-take _ cut digits h))
          (refl, digits-Solid _ (All-drop _ cut digits h)))
]

-- The two signs of a printed amount.
strip_sign_minus : (s : Text) → strip_sign (b'-' ∷ s) ≡ s
unfolding strip_sign
strip_sign_minus s = refl

parse_trimmed-signed :
    (negative : Bool) (digits : Text) (scale : ℕ)
    → All IsDigit digits
    → scale < length digits
    → parse_trimmed (sign_text negative ++ point digits scale)
      ≡ some (decimal (signed negative (value_from 0 digits)) scale)
unfolding parse_trimmed matches_decimal
parse_trimmed-signed true digits scale h lt =
    let (cut, fits) = cut_of-parts digits scale h lt in
    rw (strip_sign_minus (point digits scale), cut, fits, assemble-cut_of true digits scale lt) refl
parse_trimmed-signed false digits scale h lt =
    let (cut, fits) = cut_of-parts digits scale h lt in
    let (bare, no_sign, full) = point-Unsigned digits scale h lt in
    rw (bare, no_sign, full, cut, fits, assemble-cut_of false digits scale lt) refl

value-signed : (v : ℤ) → signed (is_neg v) (nat_abs v) ≡ v
value-signed (pos n) = ground arith
value-signed (negsuc n) = ground arith

sign-Solid : (negative : Bool) (s : Text) → Solid s → Solid (sign_text negative ++ s)
unfolding is_space
sign-Solid true s h = (refl, h)
sign-Solid false s h = h

-- The digits that `format` prints for an amount.
pub digits_of : Decimal → Text
digits_of d = pad_start (d.scale + 1) b'0' (to_string (nat_abs d.value))

pub digits_of-digits : (d : Decimal) → All IsDigit (digits_of d)
unfolding digits_of
digits_of-digits d =
    All-append IsDigit (replicate (d.scale + 1 - length (to_string (nat_abs d.value))) b'0') _
      (zeros-digits _) (to_string-digits (nat_abs d.value))

pub format_lem :
    (d : Decimal) → format d ≡ sign_text (is_neg d.value) ++ point (digits_of d) d.scale
unfolding format digits_of
format_lem d = refl

pub trim-format : (d : Decimal) → trim (format d) ≡ format d
unfolding format digits_of
trim-format d = trim-Solid (format d) (
    sign-Solid (is_neg d.value) (point (digits_of d) d.scale)
      (point-Solid (digits_of d) d.scale (digits_of-digits d)))

-- Every amount is read back from its plain form, with its scale.
pub parse_decimal-format : (d : Decimal) → parse_decimal (some (format d)) ≡ some d
unfolding parse_decimal
parse_decimal-format d =
    let n = nat_abs d.value in
    let lt : d.scale < length (digits_of d) =
      unfold digits_of in omega (arith, length-pad_start (d.scale + 1) b'0' (to_string n)) in
    let value : value_from 0 (digits_of d) ≡ n =
      unfold digits_of in
      value-zeros (d.scale + 1 - length (to_string n)) (to_string n) ∙ value-to_string n in
    rw trim-format (
      ap parse_trimmed (format_lem d)
      ∙ parse_trimmed-signed (is_neg d.value) (digits_of d) d.scale (digits_of-digits d) lt
      ∙ ap (λ v. some (decimal v d.scale))
          (ap (signed (is_neg d.value)) value ∙ value-signed d.value))
