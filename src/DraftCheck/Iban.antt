-- ===== src/DraftCheck/Iban.antt =====
-- packages/facturx/src/generate/check-draft.ts: the check digits of an IBAN.
use validateur_facturx.Common.{
  ℕ, ◌+◌, ◌-◌, ◌*◌, ◌%◌, Bool, false, not, [], ◌∷◌, ◌++◌, ◌&&◌, ◌||◌, ◌==◌, leb, length, all, take,
  drop, keep, if◌then◌else◌,
}
use validateur_facturx.Common.Text.{Text, is_digit, is_upper, not_space, to_upper}
use validateur_facturx.Money.Digits.{to_string}

-- `replace(/[\s-]/g, '')`
abbrev pub is_iban_char : ℕ → Bool
is_iban_char c = not_space c && not (c == b'-')

unfoldable pub normalise_iban : Text → Text
normalise_iban raw = to_upper (keep is_iban_char raw)

-- `[A-Z0-9]`
abbrev pub is_alphanumeric : ℕ → Bool
is_alphanumeric c = is_upper c || is_digit c

-- `^[A-Z]{2}\d{2}[A-Z0-9]{10,30}$`
unfoldable pub has_iban_form : Text → Bool
has_iban_form (a ∷ b ∷ c ∷ d ∷ rest) =
    is_upper a
    && (is_upper b
        && (is_digit c
            && (is_digit d
                && (all is_alphanumeric rest && (leb 10 (length rest) && leb (length rest) 30)))))
has_iban_form _ = false

-- A letter is two digits, from A = 10 on.
unfoldable pub iban_digits : ℕ → Text
iban_digits char = if is_digit char then char ∷ [] else to_string (char - 55)

-- The inner loop, over the digits of one character.
unfoldable pub reduce_digits : ℕ → Text → ℕ
reduce_digits remainder [] = remainder
reduce_digits remainder (digit ∷ digits) =
    reduce_digits ((remainder * 10 + (digit - b'0')) % 97) digits

unfoldable pub reduce_chars : ℕ → Text → ℕ
unfolding reduce_digits iban_digits
reduce_chars remainder [] = remainder
reduce_chars remainder (char ∷ chars) =
    reduce_chars (reduce_digits remainder (iban_digits char)) chars

unfoldable pub iban_remainder : Text → ℕ
unfolding reduce_chars
iban_remainder iban = reduce_chars 0 (drop 4 iban ++ take 4 iban)

unfoldable pub is_valid_iban : Text → Bool
is_valid_iban raw = let iban = normalise_iban raw in has_iban_form iban && iban_remainder iban == 1
