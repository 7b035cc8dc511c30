-- ===== src/Identifiers/RoundTrip.antt =====
-- packages/facturx/src/identifiers.ts: the VAT number computed from a SIREN is accepted.
use validateur_facturx.Common.{
  ℕ, ◌-◌, ◌<◌, ◌≡◌, refl, sym, ◌∙◌, ap, arith, true, false, [], ◌∷◌, ◌++◌, Bool-cases, inl, inr,
  length, some, none, all, All, length-append, replicate, length-replicate, All-append,
}
use validateur_facturx.Common.Text.{
  Text, text_eq_refl, is_digit, is_space, pad_start, to_upper, upper_char,
}
use validateur_facturx.Money.Digits.{
  IsDigit, to_string, to_string-digits, zeros-digits, length-to_string, length-to_string_small,
}
use validateur_facturx.Identifiers.{
  strip_formatting, is_kept, is_blank, only_digits, check_siren, validate_siren, vat_key,
  vat_number_of, vat_number_from_siren, check_vat, check_vat_key, validate_french_vat_number,
  accepted,
}
use validateur_facturx.Money.RoundTrip.{Solid, trim-Solid, digits-Solid}
use mathlib.Core.Path.{subst}
use validateur_facturx.Identifiers.Siren.{check_siren_iff}

digit-kept : (c : ℕ) → IsDigit c → is_kept c ≡ true
unfolding is_space
digit-kept c h = ground arith

keep_kept : (s : Text) → All IsDigit s → strip_formatting s ≡ s
unfolding strip_formatting
keep_kept [] h = refl
keep_kept (c ∷ s) (d, h) = rw (digit-kept c d) (ap (λ r. c ∷ r) (keep_kept s h))

digit_upper : (c : ℕ) → IsDigit c → upper_char c ≡ c ∷ []
digit_upper c h = ground arith

upper_digits : (s : Text) → All IsDigit s → to_upper s ≡ s
upper_digits [] h = refl
upper_digits (c ∷ s) (d, h) =
    let same : upper_char c ≡ c ∷ [] = digit_upper c d in
    rw same (ap (λ r. c ∷ r) (upper_digits s h))

two_chars : (s : Text) → length s ≡ 2 → (x : ℕ) × (y : ℕ) × (s ≡ x ∷ y ∷ [])
two_chars [] h = absurd (omega arith)
two_chars (x ∷ []) h = absurd (omega arith)
two_chars (x ∷ y ∷ []) h = (x, y, refl)
two_chars (x ∷ y ∷ z ∷ s) h = absurd (omega arith)

all-All : (s : Text) → all is_digit s ≡ true → All IsDigit s
all-All [] h = tt
all-All (c ∷ s) h = (ground arith, all-All s (ground arith))

only_digits-All : (s : Text) → only_digits s ≡ true → All IsDigit s
only_digits-All [] h = cc
only_digits-All (c ∷ s) h = all-All (c ∷ s) h

-- A key below 100 is padded to two digits.
padded_key :
    (n : ℕ)
    → n < 100
    → (x : ℕ) × (y : ℕ) × (pad_start 2 b'0' (to_string n) ≡ x ∷ y ∷ []) × IsDigit x × IsDigit y
padded_key n h =
    let zeros : Text = replicate (2 - length (to_string n)) b'0' in
    let wide : length (pad_start 2 b'0' (to_string n)) ≡ 2 = omega (
      arith,
      length-to_string_small n h,
      length-to_string n,
      length-append zeros (to_string n),
      length-replicate {A = ℕ} (2 - length (to_string n)) b'0',
    ) in
    let digits : All IsDigit (pad_start 2 b'0' (to_string n)) =
      All-append IsDigit zeros (to_string n) (zeros-digits (2 - length (to_string n)))
        (to_string-digits n) in
    let (x, y, e) = two_chars (pad_start 2 b'0' (to_string n)) wide in
    let (dx, (dy, _)) : All IsDigit (x ∷ y ∷ []) = subst (All IsDigit) e digits in (x, y, e, dx, dy)

vat_key-lt : (n : Text) → vat_key n < 100
unfolding vat_key
vat_key-lt n = omega arith

check_siren_normalised : (n : Text) → (check_siren n).normalised ≡ n
unfolding check_siren
check_siren_normalised n = ground arith

check_siren-accepted : (n : Text) → (check_siren n).valid ≡ true → check_siren n ≡ accepted n
unfolding check_siren
check_siren-accepted n h = ground arith

validate_siren_normalised :
    (raw : Text)
    → (validate_siren (some raw)).valid ≡ true
    → (check_siren (validate_siren (some raw)).normalised).valid ≡ true
unfolding validate_siren
validate_siren_normalised raw h = elim (Bool-cases (is_blank (some raw))) [
  | inl e ↦ let refusal : (validate_siren (some raw)).valid ≡ false = rw e refl in absurd cc
  | inr e ↦
      let same : validate_siren (some raw) ≡ check_siren (strip_formatting raw) = rw e refl in
      rw (same, check_siren_normalised (strip_formatting raw)) (sym (ap (λ r. r.valid) same) ∙ h)
]

-- What the VAT number of an accepted SIREN is made of.
vat_of_valid :
    (raw vat : Text)
    → vat_number_from_siren (some raw) ≡ some vat
    → (n : Text) × (vat ≡ vat_number_of n) × ((check_siren n).valid ≡ true)
unfolding vat_number_from_siren
vat_of_valid raw vat h = elim (Bool-cases (validate_siren (some raw)).valid) [
  | inl e ↦
      let found : vat_number_from_siren (some raw)
          ≡ some (vat_number_of (validate_siren (some raw)).normalised) =
        rw e refl in
      ((validate_siren (some raw)).normalised, cc, validate_siren_normalised raw e)
  | inr e ↦ let missing : vat_number_from_siren (some raw) ≡ none = rw e refl in absurd cc
]

not_blank : (c : ℕ) (s : Text) → Solid (c ∷ s) → is_blank (some (c ∷ s)) ≡ false
unfolding is_blank
not_blank c s h = rw (trim-Solid (c ∷ s) h) refl

digits_not_blank : (n : Text) → only_digits n ≡ true → is_blank (some n) ≡ false
digits_not_blank [] h = cc
digits_not_blank (c ∷ s) h = not_blank c s (digits-Solid (c ∷ s) (only_digits-All (c ∷ s) h))

-- An accepted SIREN, with no formatting left, is accepted as it stands.
accepted_again : (n : Text) → (check_siren n).valid ≡ true → validate_siren (some n) ≡ accepted n
unfolding validate_siren
accepted_again n h =
    let (digits, _, _) = (check_siren_iff n).0 h in
    rw (digits_not_blank n digits, keep_kept n (only_digits-All n digits))
      (check_siren-accepted n h)

vat_number_shape :
    (n : Text) (x y : ℕ)
    → pad_start 2 b'0' (to_string (vat_key n)) ≡ x ∷ y ∷ []
    → vat_number_of n ≡ b'F' ∷ b'R' ∷ x ∷ y ∷ n
unfolding vat_number_of
vat_number_shape n x y k = ap (λ (r : Text). b'F' ∷ b'R' ∷ (r ++ n)) k

vat_kept : (s : Text) → All IsDigit s → strip_formatting (b'F' ∷ b'R' ∷ s) ≡ b'F' ∷ b'R' ∷ s
unfolding strip_formatting is_space
vat_kept s h = ap (λ (r : Text). b'F' ∷ b'R' ∷ r) (keep_kept s h)

vat_upper : (s : Text) → All IsDigit s → to_upper (b'F' ∷ b'R' ∷ s) ≡ b'F' ∷ b'R' ∷ s
vat_upper s h = ap (λ (r : Text). b'F' ∷ b'R' ∷ r) (upper_digits s h)

-- The key and the SIREN of the number, tested against the number computed from that SIREN.
vat_key_accepted :
    (n : Text) (x y : ℕ)
    → (check_siren n).valid ≡ true
    → IsDigit x
    → IsDigit y
    → vat_number_of n ≡ b'F' ∷ b'R' ∷ x ∷ y ∷ n
    → check_vat_key (b'F' ∷ b'R' ∷ x ∷ y ∷ n) ≡ accepted (b'F' ∷ b'R' ∷ x ∷ y ∷ n)
unfolding check_vat_key vat_number_from_siren
vat_key_accepted n x y ok dx dy e =
    rw (accepted_again n ok, dx, dy, e, text_eq_refl (b'F' ∷ b'R' ∷ x ∷ y ∷ n)) refl

check_vat-accepted :
    (n : Text) (x y : ℕ)
    → length n ≡ 9
    → check_vat_key (b'F' ∷ b'R' ∷ x ∷ y ∷ n) ≡ accepted (b'F' ∷ b'R' ∷ x ∷ y ∷ n)
    → check_vat (b'F' ∷ b'R' ∷ x ∷ y ∷ n) ≡ accepted (b'F' ∷ b'R' ∷ x ∷ y ∷ n)
unfolding check_vat
check_vat-accepted n x y nine h = rw nine h

shape_accepted :
    (n : Text) (x y : ℕ)
    → (check_siren n).valid ≡ true
    → IsDigit x
    → IsDigit y
    → vat_number_of n ≡ b'F' ∷ b'R' ∷ x ∷ y ∷ n
    → validate_french_vat_number (some (b'F' ∷ b'R' ∷ x ∷ y ∷ n))
      ≡ accepted (b'F' ∷ b'R' ∷ x ∷ y ∷ n)
unfolding validate_french_vat_number is_space
shape_accepted n x y ok dx dy e =
    let (digits, nine, _) = (check_siren_iff n).0 ok in
    let tail : All IsDigit (x ∷ y ∷ n) = (dx, (dy, only_digits-All n digits)) in
    let blank = not_blank b'F' (b'R' ∷ x ∷ y ∷ n) (refl, (refl, digits-Solid (x ∷ y ∷ n) tail)) in
    rw blank (
      ap check_vat (ap to_upper (vat_kept (x ∷ y ∷ n) tail) ∙ vat_upper (x ∷ y ∷ n) tail)
      ∙ check_vat-accepted n x y nine (vat_key_accepted n x y ok dx dy e))

-- The number made of an accepted SIREN.
vat_number_accepted :
    (n : Text)
    → (check_siren n).valid ≡ true
    → validate_french_vat_number (some (vat_number_of n)) ≡ accepted (vat_number_of n)
vat_number_accepted n ok =
    let (x, y, k, dx, dy) = padded_key (vat_key n) (vat_key-lt n) in
    let vat = vat_number_shape n x y k in
    subst (λ v. validate_french_vat_number (some v) ≡ accepted v) (sym vat)
      (shape_accepted n x y ok dx dy vat)

-- The VAT number that is computed from any SIREN is accepted as it stands.
pub vat_number_round_trip :
    (raw vat : Text)
    → vat_number_from_siren (some raw) ≡ some vat
    → validate_french_vat_number (some vat) ≡ accepted vat
vat_number_round_trip raw vat h =
    let (n, e, ok) = vat_of_valid raw vat h in
    subst (λ v. validate_french_vat_number (some v) ≡ accepted v) (sym e) (vat_number_accepted n ok)
