-- ===== src/Identifiers/Siren.antt =====
-- packages/facturx/src/identifiers.ts: which numbers are accepted as a SIREN.
use validateur_facturx.Common.{
  ℕ, ◌≡◌, ◌≢◌, ◌↔◌, refl, sym, arith, true, false, [], ◌∷◌, ◌++◌, Bool-cases, inl, inr, length,
  ◌==◌, all,
}
use validateur_facturx.Common.Text.{Text, text_eq, text_eq_iff, is_digit}
use validateur_facturx.Money.Digits.{IsDigit}
use validateur_facturx.Identifiers.{
  check_siren, only_digits, passes_luhn, luhn_total, luhn_value, la_poste_siren,
}
use validateur_facturx.Identifiers.Luhn.{passes_luhn_detects}
use mathlib.Core.Path.{subst}

la_poste_passes : passes_luhn la_poste_siren ≡ true
unfolding passes_luhn luhn_total luhn_value
la_poste_passes = refl

-- A number is accepted as a SIREN exactly when it is made of digits, there are nine of them, and they
-- pass the Luhn test: La Poste's SIREN, which is accepted before that test, passes it too.
pub check_siren_iff :
    (n : Text)
    → ((check_siren n).valid ≡ true)
      ↔ ((only_digits n ≡ true) × (length n ≡ 9) × (passes_luhn n ≡ true))
unfolding check_siren
check_siren_iff n =
    let la_poste : text_eq n la_poste_siren ≡ true → passes_luhn n ≡ true = λ e.
      subst (λ s. passes_luhn s ≡ true) (sym ((text_eq_iff n la_poste_siren).0 e))
        la_poste_passes in
    elim (Bool-cases (only_digits n)) [
      | inr d ↦ rw d ((λ h. absurd cc), λ h. absurd cc)
      | inl d ↦ elim (Bool-cases (length n == 9)) [
        | inr l ↦ rw (d, l) ((λ h. absurd cc), λ h. ground arith)
        | inl l ↦ elim (Bool-cases (text_eq n la_poste_siren)) [
          | inl p ↦ rw (d, l, p) ((λ h. (refl, ground arith, la_poste p)), λ h. refl)
          | inr p ↦ elim (Bool-cases (passes_luhn n)) [
            | inl q ↦ rw (d, l, p, q) ((λ h. (refl, ground arith, refl)), λ h. refl)
            | inr q ↦ rw (d, l, p, q) ((λ h. absurd cc), λ h. absurd cc)
          ]
        ]
      ]
    ]

only_digits_changed :
    (before after : Text) (a b : ℕ)
    → IsDigit b
    → only_digits (before ++ a ∷ after) ≡ true
    → (IsDigit a) × (only_digits (before ++ b ∷ after) ≡ true)
only_digits_changed [] after a b hb h = ground arith
only_digits_changed (c ∷ before) after a b hb h =
    let (first, rest) = all_changed before after a b hb (ground arith) in (first, ground arith)
  where
    all_changed :
        (before after : Text) (a b : ℕ)
        → IsDigit b
        → all is_digit (before ++ a ∷ after) ≡ true
        → (IsDigit a) × (all is_digit (before ++ b ∷ after) ≡ true)
    all_changed [] after a b hb h = ground arith
    all_changed (c ∷ before) after a b hb h =
        let (first, rest) = all_changed before after a b hb (ground arith) in (first, ground arith)

-- A SIREN that is accepted is refused when any one of its digits is changed into another digit.
pub check_siren_detects :
    (before after : Text) (a b : ℕ)
    → IsDigit b
    → a ≢ b
    → (check_siren (before ++ a ∷ after)).valid ≡ true
    → (check_siren (before ++ b ∷ after)).valid ≡ false
check_siren_detects before after a b hb h ok =
    let (digits, _, luhn) = (check_siren_iff (before ++ a ∷ after)).0 ok in
    let (ha, _) = only_digits_changed before after a b hb digits in
    let broken = passes_luhn_detects before after a b ha hb h luhn in
    elim (Bool-cases (check_siren (before ++ b ∷ after)).valid) [
      | inr e ↦ e
      | inl e ↦ let (_, _, passed) = (check_siren_iff (before ++ b ∷ after)).0 e in absurd cc
    ]
