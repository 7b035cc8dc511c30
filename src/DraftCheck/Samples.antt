-- ===== src/DraftCheck/Samples.antt =====
-- packages/facturx/src/generate/check-draft.ts: a draft that it accepts.
use validateur_facturx.Common.{◌≡◌, refl, true, some}
use validateur_facturx.Common.Int.{◌*ℤ◌, ◌+ℤ◌, ◌-ℤ◌}
use validateur_facturx.Common.Text.{Text, codes, is_space, trim, trim_start}
use validateur_facturx.Money.{
  round_div, pow10, rescale, multiply, compare, subtract, align, is_zero,
}
use validateur_facturx.Money.Digits.{to_string}
use validateur_facturx.Money.Literal.{parse_decimal, format}
use validateur_facturx.Identifiers.{
  check_siren, validate_siren, validate_siret, check_siret, passes_luhn, luhn_total, luhn_value,
  is_blank, strip_formatting, vat_key, validate_french_vat_number, check_vat, check_vat_key,
  vat_number_from_siren, vat_number_of, digit_sum, siren_from_siret,
}
use validateur_facturx.Invoice.Draft.{InvoiceDraft}
use validateur_facturx.Invoice.Compute.{
  compute_invoice, group_lines, tax_group, compute_line, compute_lines, prepaid_of, totals_of,
  required,
}
use validateur_facturx.Invoice.Samples.{draft, party}
use validateur_facturx.DraftCheck.Issues.{has_errors}
use validateur_facturx.DraftCheck.Dates.{is_real_date, is_iso_date, date_utc}
use validateur_facturx.DraftCheck.Iban.{
  normalise_iban, has_iban_form, iban_remainder, is_valid_iban,
}
use validateur_facturx.DraftCheck.Header.{
  check_header, check_number, check_issue_date, check_due_date, check_delivery_date,
  check_type_code, check_currency, check_iban, check_payment_means,
}
use validateur_facturx.DraftCheck.Party.{
  check_party, check_name, check_country, check_address, check_identifiers, check_owner,
  check_vat_number, check_vat_id,
}
use validateur_facturx.DraftCheck.Lines.{
  check_lines, check_each_line, check_line, check_labels, check_quantity, check_unit_price,
  check_vat_fields, check_vat_coherence, check_zero_rate, check_reason, check_no_reason,
  check_standard_rate, strip_trailing_zeros, collect_reasons, check_reason_groups,
  check_delivery_country,
}
use validateur_facturx.DraftCheck.Whole.{
  check_draft, all_issues, check_fields, check_amounts, check_due, check_prepaid,
}

abbrev pub an_iban : Text
an_iban = codes "FR76 3000 6000 0112 3456 7890 189"

abbrev pub ready_draft : InvoiceDraft
ready_draft = record draft {
  seller = record party {
    siret = some (codes "443 061 841 00047");
    vat_id = some (codes "FR64443061841");
  };
  due_date = some (codes "2026-10-01");
  iban = some an_iban;
}

pub ready : (check_draft ready_draft).is_ok ≡ true
unfolding check_draft all_issues check_fields check_amounts has_errors check_header check_number
    trim trim_start is_space check_issue_date is_real_date is_iso_date date_utc check_due_date
    check_delivery_date check_type_code check_currency check_iban is_valid_iban has_iban_form
    normalise_iban iban_remainder to_string check_payment_means check_party check_name check_country
    check_address check_identifiers check_vat_id check_vat_number check_owner validate_siret
    check_siret is_blank strip_formatting passes_luhn luhn_total luhn_value digit_sum
    validate_french_vat_number check_vat check_vat_key vat_key check_siren siren_from_siret
    check_lines check_each_line check_line check_labels check_quantity check_unit_price
    check_vat_fields check_vat_coherence check_zero_rate check_reason check_no_reason
    check_standard_rate strip_trailing_zeros format parse_decimal is_zero compare subtract align
    rescale pow10 round_div ◌*ℤ◌ ◌+ℤ◌ ◌-ℤ◌ collect_reasons check_reason_groups
    check_delivery_country compute_invoice compute_lines compute_line required prepaid_of
    group_lines totals_of multiply tax_group check_due check_prepaid validate_siren
    vat_number_from_siren vat_number_of
ready = refl
