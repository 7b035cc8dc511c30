-- ===== src/Invoice/Samples.antt =====
-- A draft, and what packages/facturx/src/generate/compute.ts makes of it.
use validateur_facturx.Common.{◌≡◌, refl, [], ◌∷◌, none, some, ok}
use validateur_facturx.Common.Int.{pos, ◌*ℤ◌, ◌+ℤ◌, ◌-ℤ◌}
use validateur_facturx.Common.Text.{codes}
use validateur_facturx.Money.{decimal, round_div, pow10, rescale, multiply}
use validateur_facturx.Money.Digits.{to_string}
use validateur_facturx.Money.Literal.{parse_decimal}
use validateur_facturx.Invoice.Draft.{DraftAddress, DraftParty, DraftLine, InvoiceDraft}
use validateur_facturx.Invoice.Compute.{
  ComputedLine, ComputedInvoice, compute_invoice, group_lines, tax_group, compute_line,
  compute_lines, prepaid_of, totals_of, required,
}

abbrev pub address : DraftAddress
address = record {
  line1 = codes "1 rue A";
  line2 = none;
  postcode = codes "75001";
  city = codes "Paris";
  country_code = codes "FR";
}

abbrev pub party : DraftParty
party = record { name = codes "A"; siret = none; siren = none; vat_id = none; address = address }

abbrev pub draft_line : DraftLine
draft_line = record {
  name = codes "Pain";
  description = none;
  quantity = codes "3";
  unit_code = codes "C62";
  unit_price = codes "1.115";
  vat_category = codes "S";
  vat_rate_percent = codes "5.5";
  exemption_reason = none;
}

abbrev pub draft : InvoiceDraft
draft = record {
  invoice_number = codes "F1";
  type_code = none;
  issue_date = codes "2026-09-01";
  due_date = none;
  delivery_date = none;
  delivery_country_code = none;
  currency = none;
  buyer_reference = none;
  purchase_order_reference = none;
  seller = party;
  buyer = party;
  lines = draft_line ∷ [];
  payment_means_code = none;
  iban = none;
  payment_terms = none;
  prepaid_amount = some (codes "1");
  notes = [];
}

abbrev pub computed_line : ComputedLine
computed_line = record {
  source = draft_line;
  line_id = codes "1";
  quantity = decimal (pos 3) 0;
  unit_price = decimal (pos 1115) 3;
  net_amount = decimal (pos 335) 2;
  vat_category = codes "S";
  vat_rate_percent = decimal (pos 55) 1;
}

-- 3 at 1.115 is 3.345, which is 3.35; 5.5 % of it is 0.18425, which is 0.18.
abbrev pub computed : ComputedInvoice
computed = record {
  lines = computed_line ∷ [];
  tax_groups =
      record {
        category_code = codes "S";
        rate_percent = decimal (pos 550) 2;
        basis_amount = decimal (pos 335) 2;
        calculated_amount = decimal (pos 18) 2;
        exemption_reason = none;
      }
      ∷ [];
  totals = record {
    line_total_amount = decimal (pos 335) 2;
    tax_basis_total_amount = decimal (pos 335) 2;
    tax_total_amount = decimal (pos 18) 2;
    grand_total_amount = decimal (pos 353) 2;
    prepaid_amount = decimal (pos 100) 2;
    due_payable_amount = decimal (pos 253) 2;
  };
}

pub compute_draft : compute_invoice draft ≡ ok computed
unfolding compute_invoice compute_lines compute_line required parse_decimal prepaid_of to_string
    rescale group_lines totals_of multiply round_div ◌*ℤ◌ pow10 ◌+ℤ◌ tax_group ◌-ℤ◌
compute_draft = refl
