-- ===== src/Identifiers.antt =====
-- packages/facturx/src/identifiers.ts: SIREN, SIRET and French VAT numbers.
mod Tests
pub mod Luhn
pub mod Siren
pub mod RoundTrip
use validateur_facturx.Common.{
  ℕ, ◌+◌, ◌-◌, ◌*◌, ◌%◌, Bool, true, false, not, List, [], ◌∷◌, ◌++◌, map, Option, none, some, ◌&&◌,
  ◌||◌, ◌==◌, ltb, length, take, drop, keep, all, if◌then◌else◌,
}
use validateur_facturx.Common.Text.{
  Text, codes, text_eq, trim, is_space, is_digit, starts_with, pad_start, to_upper,
}
use validateur_facturx.Money.Digits.{to_string, value_from}
use mathlib.Core.List.{reverse}

pub record IdentifierValidation : Type 0 where
  pub valid : Bool
  pub normalised : Text
  pub reason : Option Text

abbrev pub la_poste_siren : Text
la_poste_siren = codes "356000000"

-- `[\s.\-/]`
abbrev pub is_formatting : ℕ → Bool
is_formatting c = is_space c || (c == b'.' || (c == b'-' || c == b'/'))

abbrev pub is_kept : ℕ → Bool
is_kept c = not (is_formatting c)

unfoldable pub strip_formatting : Text → Text
strip_formatting raw = keep is_kept raw

-- What one digit adds to the total.
unfoldable pub luhn_value : Bool → ℕ → ℕ
luhn_value true digit = let twice = digit * 2 in if ltb 9 twice then twice - 9 else twice
luhn_value false digit = digit

-- The loop, over the digits from the last one on.
unfoldable pub luhn_total : ℕ → Bool → Text → ℕ
unfolding luhn_value
luhn_total total double [] = total
luhn_total total double (c ∷ s) = luhn_total (total + luhn_value double (c - b'0')) (not double) s

unfoldable pub passes_luhn : Text → Bool
unfolding luhn_total
passes_luhn digits = luhn_total 0 false (reverse digits) % 10 == 0

abbrev pub sum_digits : ℕ → Text → ℕ
sum_digits total [] = total
sum_digits total (c ∷ s) = sum_digits (total + (c - b'0')) s

unfoldable pub digit_sum : Text → ℕ
digit_sum digits = sum_digits 0 digits

-- `raw == null || raw.trim() === ''`
unfoldable pub is_blank : Option Text → Bool
is_blank none = true
is_blank (some raw) = text_eq (trim raw) []

abbrev pub text_of : Option Text → Text
text_of none = []
text_of (some s) = s

-- `^\d+$`
abbrev pub only_digits : Text → Bool
only_digits [] = false
only_digits (c ∷ s) = all is_digit (c ∷ s)

abbrev pub accepted : Text → IdentifierValidation
accepted normalised = record { valid = true; normalised = normalised; reason = none }

abbrev pub refused : Text → Text → IdentifierValidation
refused normalised reason = record { valid = false; normalised = normalised; reason = some reason }

abbrev plural : ℕ → Text
plural n = if ltb 1 n then codes "s" else []

abbrev wrong_length : Text → ℕ → Text → Text
wrong_length name expected normalised =
    codes "Le "
    ++ (name
        ++ (codes " doit comporter exactement "
            ++ (to_string expected
                ++ (codes " chiffres ("
                    ++ (to_string (length normalised)
                        ++ (codes " fourni" ++ (plural (length normalised) ++ codes ").")))))))

-- `validateSiren` on the normalised digits
unfoldable pub check_siren : Text → IdentifierValidation
check_siren normalised =
    if not (only_digits normalised)
    then refused normalised (codes "Le SIREN ne doit contenir que des chiffres.")
    else if not (length normalised == 9)
    then refused normalised (wrong_length (codes "SIREN") 9 normalised)
    else if text_eq normalised la_poste_siren
    then accepted normalised
    else if not (passes_luhn normalised)
    then refused normalised
        (codes "La clé de contrôle du SIREN est incorrecte : vérifiez la saisie.")
    else accepted normalised

unfoldable pub validate_siren : Option Text → IdentifierValidation
validate_siren raw =
    if is_blank raw
    then refused [] (codes "Le SIREN est obligatoire.")
    else check_siren (strip_formatting (text_of raw))

-- `validateSiret` on the normalised digits
unfoldable pub check_siret : Text → IdentifierValidation
check_siret normalised =
    if not (only_digits normalised)
    then refused normalised (codes "Le SIRET ne doit contenir que des chiffres.")
    else if not (length normalised == 14)
    then refused normalised (wrong_length (codes "SIRET") 14 normalised)
    else if starts_with normalised la_poste_siren
    then if digit_sum normalised % 5 == 0
      then accepted normalised
      else refused normalised (codes "La clé de contrôle de ce SIRET La Poste est incorrecte.")
    else if not (passes_luhn normalised)
    then refused normalised
        (codes "La clé de contrôle du SIRET est incorrecte : vérifiez la saisie.")
    else accepted normalised

unfoldable pub validate_siret : Option Text → IdentifierValidation
validate_siret raw =
    if is_blank raw
    then refused [] (codes "Le SIRET est obligatoire.")
    else check_siret (strip_formatting (text_of raw))

unfoldable pub siren_from_siret : Option Text → Option Text
siren_from_siret raw =
    let result = validate_siret raw in
    if result.valid then some (take 9 result.normalised) else none

unfoldable pub vat_key : Text → ℕ
vat_key siren = (12 + 3 * (value_from 0 siren % 97)) % 97

unfoldable pub vat_number_of : Text → Text
vat_number_of siren = codes "FR" ++ (pad_start 2 b'0' (to_string (vat_key siren)) ++ siren)

unfoldable pub vat_number_from_siren : Option Text → Option Text
vat_number_from_siren raw =
    let result = validate_siren raw in
    if not result.valid then none else some (vat_number_of result.normalised)

-- `^\d{2}$`
abbrev pub two_digits : Text → Bool
two_digits key = length key == 2 && all is_digit key

abbrev expected_text : Option Text → Text
expected_text none = codes "null"
expected_text (some expected) = expected

abbrev option_text_eq : Option Text → Text → Bool
option_text_eq none t = false
option_text_eq (some s) t = text_eq s t

-- `validateFrenchVatNumber` on the normalised characters, behind the tests of its prefix and length
unfoldable pub check_vat_key : Text → IdentifierValidation
check_vat_key normalised =
    let siren = drop 4 normalised in
    let siren_result = validate_siren (some siren) in
    let expected = vat_number_from_siren (some siren) in
    if not siren_result.valid
    then refused normalised (
        trim (
          codes "Le SIREN contenu dans le numéro de TVA est invalide : "
          ++ text_of siren_result.reason))
    else if not (two_digits (take 2 (drop 2 normalised)))
    then accepted normalised
    else if not (option_text_eq expected normalised)
    then refused normalised (
        codes "La clé du numéro de TVA est incorrecte : pour ce SIREN, le numéro attendu est "
        ++ (expected_text expected ++ codes "."))
    else accepted normalised

unfoldable pub check_vat : Text → IdentifierValidation
check_vat normalised =
    if not (starts_with normalised (codes "FR"))
    then refused normalised (codes "Un numéro de TVA français doit commencer par « FR ».")
    else if not (length normalised == 13)
    then refused normalised (
        codes
          "Un numéro de TVA français comporte 13 caractères : FR, une clé à 2 caractères, puis le SIREN à 9 chiffres.")
    else check_vat_key normalised

unfoldable pub validate_french_vat_number : Option Text → IdentifierValidation
validate_french_vat_number raw =
    if is_blank raw
    then refused [] (codes "Le numéro de TVA est obligatoire.")
    else check_vat (to_upper (strip_formatting (text_of raw)))

abbrev space : Text
space = codes " "

unfoldable pub format_siren : Text → Text
format_siren raw =
    let digits = strip_formatting raw in
    if not (length digits == 9)
    then raw
    else take 3 digits ++ (space ++ (take 3 (drop 3 digits) ++ (space ++ drop 6 digits)))

unfoldable pub format_siret : Text → Text
format_siret raw =
    let digits = strip_formatting raw in
    if not (length digits == 14)
    then raw
    else take 3 digits
      ++ (space
          ++ (take 3 (drop 3 digits)
              ++ (space ++ (take 3 (drop 6 digits) ++ (space ++ drop 9 digits)))))
