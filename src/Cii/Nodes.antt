-- ===== src/Cii/Nodes.antt =====
-- packages/facturx/src/generate/cii.ts and extract/cii.ts: what is read from one written element.
use validateur_facturx.Common.{◌≡◌, refl, true, false, [], ◌∷◌, none, some, Bool-cases, inl, inr}
use validateur_facturx.Common.Text.{Text, codes, text_eq, trim, trim_start, truthy}
use validateur_facturx.Money.{Decimal, is_zero}
use validateur_facturx.Money.Literal.{format, parse_decimal}
use validateur_facturx.Money.RoundTrip.{trim-format, parse_decimal-format}
use validateur_facturx.Invoice.Compute.{ComputedLine, ComputedTaxGroup, ComputedTotals}
use validateur_facturx.Xml.{nodes}
use validateur_facturx.Cii.{
  CiiLine, CiiTaxBreakdown, CiiTotals, non_empty, money, amount, element_text, prepaid_element,
}
use validateur_facturx.Cii.Values.{
  XmlValue, str, no_field, field, get_field, child, path, as_array, text_of, amount_at,
}
use validateur_facturx.Cii.Read.{parse_line, parse_tax_breakdown, parse_totals}
use validateur_facturx.Cii.Write.{line_node, tax_node}
use validateur_facturx.Cii.Document.{summation_node}
use validateur_facturx.Cii.View.{local_name, read_text, attr_fields, view_node, plain_or, add_field}
use validateur_facturx.Cii.Amounts.{
  read_text-money, read_text-format, non_empty-some, format-ne-nil,
}

-- Attributes do not change the text of an element.
text_of-plain_or :
    (s key : Text) (value : XmlValue)
    → text_eq key (codes "#text") ≡ false
    → text_of (plain_or s (field key value no_field)) ≡ non_empty (trim s)
unfolding text_of trim trim_start
text_of-plain_or [] key value h = rw h refl
text_of-plain_or (c ∷ s) key value h = refl

amount_at-money :
    (d : Decimal) → amount_at (some (str (read_text (money d)))) ≡ amount (some (money d))
unfolding amount_at text_of amount element_text
amount_at-money d = rw (read_text-money d) refl

amount_at-format : (d : Decimal) → amount_at (some (str (read_text (format d)))) ≡ some d
unfolding amount_at text_of
amount_at-format d =
    rw (read_text-format d, trim-format d, non_empty-some (format d) (format-ne-nil d))
      (parse_decimal-format d)

-- An amount with an attribute
amount_at-attr :
    (d : Decimal) (key : Text) (value : XmlValue)
    → text_eq key (codes "#text") ≡ false
    → amount_at (some (plain_or (read_text (format d)) (field key value no_field))) ≡ some d
unfolding amount_at
amount_at-attr d key value h =
    rw
      (
        text_of-plain_or (read_text (format d)) key value h,
        read_text-format d,
        trim-format d,
        non_empty-some (format d) (format-ne-nil d),
      )
      (parse_decimal-format d)

-- What is read of a line: its number, its price and its amounts are those of the computed line.
pub record StatesLine (line : ComputedLine) (read : CiiLine) : Type 0 where
  pub quantity : read.quantity ≡ some line.quantity
  pub unit_price : read.net_unit_price ≡ some line.unit_price
  pub net_amount : read.net_amount ≡ amount (some (money line.net_amount))
  pub vat_rate : read.vat_rate_percent ≡ amount (some (money line.vat_rate_percent))
  pub vat_category : read.vat_category_code ≡ element_text (some (read_text line.vat_category))
  pub name : read.name ≡ element_text (some (read_text line.source.name))

pub line-StatesLine :
    (line : ComputedLine) → StatesLine line (parse_line (view_node (line_node line)))
unfolding parse_line view_node line_node nodes child path get_field add_field local_name attr_fields
    as_array text_of element_text
line-StatesLine line = record {
  quantity = amount_at-attr line.quantity _ _ refl;
  unit_price = amount_at-format line.unit_price;
  net_amount = amount_at-money line.net_amount;
  vat_rate = amount_at-money line.vat_rate_percent;
  vat_category = refl;
  name = refl;
}

pub record StatesGroup (group : ComputedTaxGroup) (read : CiiTaxBreakdown) : Type 0 where
  pub basis_amount : read.basis_amount ≡ amount (some (money group.basis_amount))
  pub rate_percent : read.rate_percent ≡ amount (some (money group.rate_percent))
  pub calculated_amount : read.calculated_amount ≡ amount (some (money group.calculated_amount))
  pub category_code : read.category_code ≡ element_text (some (read_text group.category_code))

pub group-StatesGroup :
    (group : ComputedTaxGroup)
    → StatesGroup group (parse_tax_breakdown (view_node (tax_node group)))
unfolding parse_tax_breakdown view_node tax_node nodes child get_field add_field local_name
    attr_fields text_of element_text
group-StatesGroup group = elim (Bool-cases (truthy group.exemption_reason)) [
  | inl e ↦ rw e record {
    basis_amount = amount_at-money group.basis_amount;
    rate_percent = amount_at-money group.rate_percent;
    calculated_amount = amount_at-money group.calculated_amount;
    category_code = refl;
  }
  | inr e ↦ rw e record {
    basis_amount = amount_at-money group.basis_amount;
    rate_percent = amount_at-money group.rate_percent;
    calculated_amount = amount_at-money group.calculated_amount;
    category_code = refl;
  }
]

-- The totals that a document states are the computed ones, printed; there is no allowance and no
-- charge.
pub record StatesTotals (totals : ComputedTotals) (read : CiiTotals) : Type 0 where
  pub line_total : read.line_total_amount ≡ amount (some (money totals.line_total_amount))
  pub tax_basis : read.tax_basis_total_amount ≡ amount (some (money totals.tax_basis_total_amount))
  pub tax_total : read.tax_total_amount ≡ amount (some (money totals.tax_total_amount))
  pub grand_total : read.grand_total_amount ≡ amount (some (money totals.grand_total_amount))
  pub due : read.due_payable_amount ≡ amount (some (money totals.due_payable_amount))
  pub prepaid : read.prepaid_amount ≡ amount (prepaid_element totals.prepaid_amount)
  pub allowance : read.allowance_total_amount ≡ none
  pub charge : read.charge_total_amount ≡ none

amount_at-money_attr :
    (d : Decimal) (key : Text) (value : XmlValue)
    → text_eq key (codes "#text") ≡ false
    → amount_at (some (plain_or (read_text (money d)) (field key value no_field)))
      ≡ amount (some (money d))
unfolding amount_at amount element_text
amount_at-money_attr d key value h =
    rw (text_of-plain_or (read_text (money d)) key value h, read_text-money d) refl

parse_decimal-none : parse_decimal none ≡ none
unfolding parse_decimal
parse_decimal-none = refl

prepaid-zero : (d : Decimal) → is_zero d ≡ true → parse_decimal none ≡ amount (prepaid_element d)
unfolding amount element_text prepaid_element
prepaid-zero d h = rw h refl

prepaid-present :
    (d : Decimal)
    → is_zero d ≡ false
    → amount_at (some (str (read_text (money d)))) ≡ amount (prepaid_element d)
unfolding prepaid_element
prepaid-present d h = rw h (amount_at-money d)

pub totals-StatesTotals :
    (totals : ComputedTotals) (currency : Text)
    → StatesTotals totals (parse_totals (some (view_node (summation_node totals currency))))
unfolding parse_totals view_node summation_node nodes child get_field add_field local_name
    attr_fields amount_at
totals-StatesTotals totals currency = elim (Bool-cases (is_zero totals.prepaid_amount)) [
  | inl e ↦ rw e record {
    line_total = amount_at-money totals.line_total_amount;
    tax_basis = amount_at-money totals.tax_basis_total_amount;
    tax_total = amount_at-money_attr totals.tax_total_amount _ _ refl;
    grand_total = amount_at-money totals.grand_total_amount;
    due = amount_at-money totals.due_payable_amount;
    prepaid = prepaid-zero totals.prepaid_amount e;
    allowance = parse_decimal-none;
    charge = parse_decimal-none;
  }
  | inr e ↦ rw e record {
    line_total = amount_at-money totals.line_total_amount;
    tax_basis = amount_at-money totals.tax_basis_total_amount;
    tax_total = amount_at-money_attr totals.tax_total_amount _ _ refl;
    grand_total = amount_at-money totals.grand_total_amount;
    due = amount_at-money totals.due_payable_amount;
    prepaid = prepaid-present totals.prepaid_amount e;
    allowance = parse_decimal-none;
    charge = parse_decimal-none;
  }
]
