-- ===== src/DraftCheck/Tests.antt =====
-- packages/facturx/src/generate/check-draft.ts at concrete drafts, dates and account numbers.
use validateur_facturx.Common.{
  ◌≡◌, ◌≢◌, ◌↔◌, ◌≤◌, ◌%◌, refl, inl, arith, true, false, [], ◌∷◌, some,
}
use validateur_facturx.Common.Text.{Text, codes, is_space, trim, trim_start}
use validateur_facturx.Money.Digits.{to_string, value_from}
use validateur_facturx.Money.Literal.{parse_decimal}
use validateur_facturx.Identifiers.{
  check_siren, validate_siren, passes_luhn, luhn_total, luhn_value, is_blank, strip_formatting,
}
use validateur_facturx.Invoice.Draft.{DraftLine}
use validateur_facturx.Invoice.Compute.{ComputedInvoice}
use validateur_facturx.Invoice.Samples.{draft_line}
use validateur_facturx.DraftCheck.Issues.{has_errors}
use validateur_facturx.DraftCheck.Dates.{
  is_real_date, is_iso_date, date_utc, year_of, month_of, day_of,
}
use validateur_facturx.DraftCheck.Iban.{
  normalise_iban, has_iban_form, iban_remainder, is_valid_iban,
}
use validateur_facturx.DraftCheck.Party.{seller, check_owner}
use validateur_facturx.DraftCheck.Lines.{collect_reasons, check_reason_groups}
use validateur_facturx.DraftCheck.Samples.{an_iban, ready_draft, ready}
use validateur_facturx.DraftCheck.Calendar.{IsCivil, is_real_date_iff}
use validateur_facturx.DraftCheck.Mod97.{expand, iban_remainder-value}
use validateur_facturx.DraftCheck.Typing.{is_valid_iban-detects}
use validateur_facturx.DraftCheck.Ready.{IsReady, check_draft-IsReady}

an_iban_valid : is_valid_iban an_iban ≡ true
unfolding is_valid_iban normalise_iban has_iban_form iban_remainder is_space to_string
an_iban_valid = refl

is_valid_iban-detects_example : is_valid_iban (codes "FR76 3000 6000 0112 3456 7890 159") ≡ false
is_valid_iban-detects_example =
    is_valid_iban-detects (codes "FR76 3000 6000 0112 3456 7890 1") (codes "9") b'8' b'5'
      (inl (refl, refl)) (λ e. absurd (omega arith)) an_iban_valid

real_date : (is_real_date (codes "2024-02-29") ≡ true) × (is_real_date (codes "2026-02-29") ≡ false)
unfolding is_real_date is_iso_date date_utc
real_date = (refl, refl)

check_draft-IsReady_example : (inv : ComputedInvoice) × IsReady ready_draft inv
check_draft-IsReady_example = check_draft-IsReady ready_draft ready

is_real_date_iff_example :
    (is_real_date (codes "2024-02-29") ≡ true)
    ↔ (is_iso_date (codes "2024-02-29") ≡ true)
      × (100 ≤ year_of (codes "2024-02-29"))
      × IsCivil
          (year_of (codes "2024-02-29"))
          (month_of (codes "2024-02-29"))
          (day_of (codes "2024-02-29"))
is_real_date_iff_example = is_real_date_iff (codes "2024-02-29")

iban_remainder-value_example :
    iban_remainder (codes "FR7630006000011234567890189")
    ≡ value_from 0 (expand (codes "30006000011234567890189FR76")) % 97
iban_remainder-value_example = iban_remainder-value (codes "FR7630006000011234567890189")

-- A SIREN typed with its spaces is accepted by itself, and its own VAT number is then refused.
formatted_siren :
    ((validate_siren (some (codes "443 061 841"))).valid ≡ true)
    × (has_errors (
          check_owner
            (codes "FR64443061841")
            (some (codes "443 061 841"))
            seller
            (codes "de l'émetteur"))
        ≡ true)
unfolding has_errors check_owner validate_siren check_siren is_blank strip_formatting passes_luhn
    luhn_total luhn_value trim trim_start is_space
formatted_siren = (refl, refl)

abbrev exempt_line : Text → Text → DraftLine
exempt_line rate reason = record draft_line {
  vat_category = codes "E";
  vat_rate_percent = rate;
  exemption_reason = some reason;
}

-- Two reasons in one VAT group are reported where the rates are typed alike, and not where they are equal but
-- typed differently.
conflicting_reasons :
    (check_reason_groups (
        collect_reasons []
          (exempt_line (codes "0") (codes "A") ∷ exempt_line (codes "0") (codes "B") ∷ []))
      ≢ [])
    × (check_reason_groups (
          collect_reasons []
            (exempt_line (codes "0") (codes "A") ∷ exempt_line (codes "0.00") (codes "B") ∷ []))
        ≡ [])
unfolding check_reason_groups collect_reasons parse_decimal trim trim_start is_space
conflicting_reasons = ((λ e. cc), refl)
