-- ===== src/Identifiers/Tests.antt =====
-- packages/facturx/src/identifiers.ts on concrete inputs, and the theorems applied to them.
use validateur_facturx.Common.{◌≡◌, refl, arith, false, some}
use validateur_facturx.Common.Text.{Text, codes, is_space, trim, trim_start}
use validateur_facturx.Money.Digits.{to_string}
use validateur_facturx.Identifiers.{
  check_siren, validate_siren, validate_siret, check_siret, passes_luhn, luhn_total, luhn_value,
  is_blank, strip_formatting, vat_number_from_siren, vat_number_of, vat_key,
  validate_french_vat_number, accepted, digit_sum, siren_from_siret,
}
use validateur_facturx.Identifiers.Luhn.{passes_luhn_detects}
use validateur_facturx.Identifiers.Siren.{check_siren_detects}
use validateur_facturx.Identifiers.RoundTrip.{vat_number_round_trip}

abbrev a_siren : Text
a_siren = codes "443061841"

siren_from_siret_formatted : siren_from_siret (some (codes "443 061 841 00047")) ≡ some a_siren
unfolding siren_from_siret validate_siret check_siret is_blank strip_formatting passes_luhn
    luhn_total luhn_value trim trim_start is_space digit_sum
siren_from_siret_formatted = refl

check_siren_detects_example : (check_siren (codes "443961841")).valid ≡ false
unfolding check_siren passes_luhn luhn_total luhn_value
check_siren_detects_example =
    check_siren_detects (codes "443") (codes "61841") b'0' b'9' refl (λ e. absurd (omega arith))
      refl

passes_luhn_detects_example : passes_luhn (codes "443961841") ≡ false
unfolding passes_luhn luhn_total luhn_value
passes_luhn_detects_example =
    passes_luhn_detects (codes "443") (codes "61841") b'0' b'9' refl refl
      (λ e. absurd (omega arith)) refl

vat_number_round_trip_example :
    validate_french_vat_number (some (codes "FR64443061841")) ≡ accepted (codes "FR64443061841")
unfolding vat_number_from_siren validate_siren check_siren is_blank strip_formatting passes_luhn
    luhn_total luhn_value trim trim_start is_space vat_number_of vat_key to_string
vat_number_round_trip_example =
    vat_number_round_trip (codes "443 061 841") (codes "FR64443061841") refl
