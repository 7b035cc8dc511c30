-- ===== src/DraftCheck/Mod97.antt =====
-- packages/facturx/src/generate/check-draft.ts: what the check digits of an IBAN guarantee.
use validateur_facturx.Common.{
  ℕ, ◌+◌, ◌-◌, ◌*◌, ◌%◌, ◌<◌, ◌≡◌, refl, sym, ap, ◌∙◌, arith, [], ◌∷◌, ◌++◌, take, drop,
}
use validateur_facturx.Common.Text.{Text}
use validateur_facturx.Money.Digits.{value_from}
use validateur_facturx.DraftCheck.Iban.{iban_digits, reduce_digits, reduce_chars, iban_remainder}

-- The digits that the letters and digits of a text stand for.
unfoldable pub expand : Text → Text
expand [] = []
expand (char ∷ chars) = iban_digits char ++ expand chars

value_from-mod : (n : ℕ) (s : Text) → value_from n s % 97 ≡ value_from (n % 97) s % 97
value_from-mod n [] = omega arith
value_from-mod n (c ∷ s) =
    value_from-mod (n * 10 + (c - b'0')) s
    ∙ ap (λ m. value_from m s % 97) (omega arith)
    ∙ sym (value_from-mod (n % 97 * 10 + (c - b'0')) s)

value_from-append : (n : ℕ) (s t : Text) → value_from n (s ++ t) ≡ value_from (value_from n s) t
value_from-append n [] t = refl
value_from-append n (c ∷ s) t = value_from-append (n * 10 + (c - b'0')) s t

reduce_digits-value : (r : ℕ) (s : Text) → r < 97 → reduce_digits r s ≡ value_from r s % 97
unfolding reduce_digits
reduce_digits-value r [] h = omega arith
reduce_digits-value r (c ∷ s) h =
    reduce_digits-value ((r * 10 + (c - b'0')) % 97) s (omega arith)
    ∙ sym (value_from-mod (r * 10 + (c - b'0')) s)

reduce_chars-value : (r : ℕ) (s : Text) → r < 97 → reduce_chars r s ≡ value_from r (expand s) % 97
unfolding reduce_chars expand
reduce_chars-value r [] h = omega arith
reduce_chars-value r (c ∷ s) h =
    let step = reduce_digits-value r (iban_digits c) h in
    ap (λ m. reduce_chars m s) step
    ∙ reduce_chars-value (value_from r (iban_digits c) % 97) s (omega arith)
    ∙ sym (value_from-mod (value_from r (iban_digits c)) (expand s))
    ∙ ap (λ m. m % 97) (sym (value_from-append r (iban_digits c) (expand s)))

-- The running remainder is that of the whole number: the four leading characters moved to the end, each
-- letter written as its two digits, read as one decimal number of up to 66 digits, modulo 97.
pub iban_remainder-value :
    (iban : Text) → iban_remainder iban ≡ value_from 0 (expand (drop 4 iban ++ take 4 iban)) % 97
unfolding iban_remainder
iban_remainder-value iban = reduce_chars-value 0 (drop 4 iban ++ take 4 iban) (omega arith)
