-- ===== src/Checks/Tests.antt =====
-- The theorems on packages/facturx/src/checks.ts at concrete documents.
use validateur_facturx.Common.{
  if◌then◌else◌, sym, ◌∙◌, Result, ok, err, ◌≡◌, refl, true, [], ◌∷◌, length, keep, get_elem?,
  Option, none, some,
}
use validateur_facturx.Common.Int.{pos, ◌*ℤ◌, ◌+ℤ◌, ◌-ℤ◌}
use validateur_facturx.Common.Text.{Text, codes, text_eq, text_eq_iff}
use validateur_facturx.Money.Digits.{to_string}
use validateur_facturx.Money.Literal.{parse_decimal}
use validateur_facturx.Money.{
  rescale, multiply, round_div, pow10, Decimal, decimal, sum, abs, is_zero,
}
use validateur_facturx.Cii.{CiiParty, CiiInvoice, CiiLine, amount, money, prepaid_element}
use validateur_facturx.Profiles.{basic}
use validateur_facturx.Invoice.Compute.{
  vat_on, ComputedInvoice, compute_invoice, group_lines, tax_group, compute_line, compute_lines,
  prepaid_of, totals_of, required,
}
use validateur_facturx.Invoice.Samples.{draft, computed, compute_draft}
use validateur_facturx.Invoice.Balance.{compute_invoice_sound}
use validateur_facturx.Checks.{
  check_arithmetic, computed_tax, matches_gap, line_name, suspect_lines_for_line_total,
}
use validateur_facturx.Checks.Vat.{computed_tax-vat_on}
use validateur_facturx.Checks.Generated.{States, check_arithmetic-passes}
use validateur_facturx.DraftCheck.Samples.{ready_draft, ready}
use validateur_facturx.Cii.Values.{XmlValue}
use validateur_facturx.Cii.Read.{parse_cii}
use validateur_facturx.Cii.Document.{serialise_cii, invoice_tree}
use validateur_facturx.Cii.View.{view_document}
use validateur_facturx.Checks.Composed.{IsRestated, parse_cii-IsRestated, accepted_draft_passes}
use validateur_facturx.Checks.Suspects.{omitted_line_named}

abbrev nobody : CiiParty
nobody = record {
  name = none;
  legal_id = none;
  legal_id_scheme = none;
  vat_id = none;
  global_id = none;
  global_id_scheme = none;
  address = record {
    line1 = none;
    line2 = none;
    postcode = none;
    city = none;
    country_code = none;
  };
}

abbrev line_worth : Option Decimal → CiiLine
line_worth a = record {
  id = none;
  name = none;
  description = none;
  quantity = none;
  unit_code = none;
  net_unit_price = none;
  net_amount = a;
  vat_category_code = none;
  vat_rate_percent = none;
}

abbrev read_back : Decimal → Option Decimal
read_back d = amount (some (money d))

-- The document that states the computed sample.
abbrev stated : CiiInvoice
stated = record {
  guideline_urn = none;
  profile = some basic;
  invoice_number = none;
  type_code = none;
  issue_date = none;
  due_date = none;
  currency = none;
  buyer_reference = none;
  seller = nobody;
  buyer = nobody;
  lines = line_worth (read_back (decimal (pos 335) 2)) ∷ [];
  tax_breakdown =
      record {
        basis_amount = read_back (decimal (pos 335) 2);
        calculated_amount = read_back (decimal (pos 18) 2);
        category_code = none;
        rate_percent = read_back (decimal (pos 550) 2);
        exemption_reason = none;
      }
      ∷ [];
  totals = record {
    line_total_amount = read_back (decimal (pos 335) 2);
    allowance_total_amount = none;
    charge_total_amount = none;
    tax_basis_total_amount = read_back (decimal (pos 335) 2);
    tax_total_amount = read_back (decimal (pos 18) 2);
    grand_total_amount = read_back (decimal (pos 353) 2);
    prepaid_amount = read_back (decimal (pos 100) 2);
    due_payable_amount = read_back (decimal (pos 253) 2);
  };
  notes = [];
}

stated-States : States computed stated
unfolding prepaid_element is_zero
stated-States = record {
  lines = refl;
  groups = ((refl, refl, refl), tt);
  line_total = refl;
  tax_basis = refl;
  tax_total = refl;
  grand_total = refl;
  due = refl;
  prepaid = refl;
  allowance = refl;
  charge = refl;
}

check_arithmetic-passes_example : (check_arithmetic stated).all_passed ≡ true
check_arithmetic-passes_example =
    check_arithmetic-passes computed stated (compute_invoice_sound draft compute_draft).2
      stated-States refl

computed_tax-vat_on_example :
    computed_tax (decimal (pos 335) 2) (decimal (pos 550) 2)
    ≡ vat_on (decimal (pos 335) 2) (decimal (pos 550) 2)
computed_tax-vat_on_example = computed_tax-vat_on (decimal (pos 335) 2) (decimal (pos 550) 2)

abbrev small : CiiLine
small = line_worth (some (decimal (pos 100) 2))

abbrev omitted : CiiLine
omitted = line_worth (some (decimal (pos 700) 2))

-- Two lines are declared of three.
abbrev two_of_three : CiiInvoice
two_of_three = record stated {
  lines = small ∷ small ∷ omitted ∷ [];
  totals = record (stated.totals) {
    line_total_amount = some (sum (decimal (pos 100) 2 ∷ decimal (pos 100) 2 ∷ []));
  };
}

omitted_line_named_example :
    get_elem?
      (suspect_lines_for_line_total two_of_three)
      (length (keep (matches_gap (abs (decimal (pos 700) 2))) (small ∷ small ∷ [])))
    ≡ some (
        line_name omitted
          (length (keep (matches_gap (abs (decimal (pos 700) 2))) (small ∷ small ∷ []))))
unfolding is_zero
omitted_line_named_example =
    omitted_line_named two_of_three (small ∷ small ∷ []) [] omitted (decimal (pos 700) 2) refl refl
      refl refl (refl, (refl, tt)) tt refl

-- A parser that knows one document
abbrev parse_one : Text → XmlValue → Text → Result Text XmlValue
parse_one source value other =
    if text_eq other source then ok value else err (codes "unexpected text")

abbrev ready_inv : ComputedInvoice
ready_inv = computed

compute_ready : compute_invoice ready_draft ≡ ok ready_inv
unfolding compute_invoice compute_lines compute_line required parse_decimal prepaid_of to_string
    rescale group_lines totals_of multiply round_div ◌*ℤ◌ pow10 ◌+ℤ◌ tax_group ◌-ℤ◌
compute_ready = refl

abbrev parse_ready : Text → Result Text XmlValue
parse_ready =
    parse_one (serialise_cii ready_draft ready_inv none)
      (view_document (invoice_tree ready_draft ready_inv none))

parse_ready-reads :
    parse_ready (serialise_cii ready_draft ready_inv none)
    ≡ ok (view_document (invoice_tree ready_draft ready_inv none))
parse_ready-reads =
    let source = serialise_cii ready_draft ready_inv none in
    rw ((text_eq_iff source source).1 refl) refl

ok-injective : (a b : ComputedInvoice) → ◌≡◌ {A = Result Text ComputedInvoice} (ok a) (ok b) → a ≡ b
ok-injective a b h = cc

ready-only :
    (inv : ComputedInvoice)
    → compute_invoice ready_draft ≡ ok inv
    → parse_ready (serialise_cii ready_draft inv none)
      ≡ ok (view_document (invoice_tree ready_draft inv none))
ready-only inv h =
    let same : ready_inv ≡ inv = ok-injective ready_inv inv (sym compute_ready ∙ h) in
    rw (sym same) parse_ready-reads

parse_cii-IsRestated_example :
    (doc : CiiInvoice) × (parse_cii parse_ready (serialise_cii ready_draft ready_inv none) ≡ ok doc)
    × IsRestated ready_draft ready_inv doc
parse_cii-IsRestated_example =
    parse_cii-IsRestated parse_ready none ready_draft ready_inv parse_ready-reads

accepted_draft_passes_example :
    (inv : ComputedInvoice) × (doc : CiiInvoice) × (compute_invoice ready_draft ≡ ok inv)
    × (parse_cii parse_ready (serialise_cii ready_draft inv none) ≡ ok doc)
    × ((check_arithmetic doc).all_passed ≡ true)
    × (doc.issue_date ≡ some (codes "2026-09-01"))
accepted_draft_passes_example = accepted_draft_passes parse_ready none ready_draft ready ready-only
