-- ===== src/Cii.antt =====
-- packages/facturx/src/extract/cii.ts: the typed model of a parsed invoice, and how an element's text
-- becomes a field. packages/facturx/src/generate/cii.ts: how an amount is printed.
mod Tests
pub mod Values
pub mod Detect
pub mod Read
pub mod Write
pub mod Document
pub mod View
pub mod Amounts
pub mod Nodes
pub mod IssueDate
pub mod Restated
pub mod Sections
use validateur_facturx.Common.{List, [], ◌∷◌, Option, none, some, if◌then◌else◌}
use validateur_facturx.Common.Text.{Text, trim}
use validateur_facturx.Money.{Decimal, monetary_scale, rescale, is_zero}
use validateur_facturx.Money.Literal.{parse_decimal, format}
use validateur_facturx.Profiles.{FacturxProfile}

pub record CiiAddress : Type 0 where
  pub line1 : Option Text
  pub line2 : Option Text
  pub postcode : Option Text
  pub city : Option Text
  pub country_code : Option Text

pub record CiiParty : Type 0 where
  pub name : Option Text
  pub legal_id : Option Text
  pub legal_id_scheme : Option Text
  pub vat_id : Option Text
  pub global_id : Option Text
  pub global_id_scheme : Option Text
  pub address : CiiAddress

pub record CiiTaxBreakdown : Type 0 where
  pub basis_amount : Option Decimal
  pub calculated_amount : Option Decimal
  pub category_code : Option Text
  pub rate_percent : Option Decimal
  pub exemption_reason : Option Text

pub record CiiLine : Type 0 where
  pub id : Option Text
  pub name : Option Text
  pub description : Option Text
  pub quantity : Option Decimal
  pub unit_code : Option Text
  pub net_unit_price : Option Decimal
  pub net_amount : Option Decimal
  pub vat_category_code : Option Text
  pub vat_rate_percent : Option Decimal

pub record CiiTotals : Type 0 where
  pub line_total_amount : Option Decimal
  pub allowance_total_amount : Option Decimal
  pub charge_total_amount : Option Decimal
  pub tax_basis_total_amount : Option Decimal
  pub tax_total_amount : Option Decimal
  pub grand_total_amount : Option Decimal
  pub prepaid_amount : Option Decimal
  pub due_payable_amount : Option Decimal

pub record CiiInvoice : Type 0 where
  pub guideline_urn : Option Text
  pub profile : Option FacturxProfile
  pub invoice_number : Option Text
  pub type_code : Option Text
  pub issue_date : Option Text
  pub due_date : Option Text
  pub currency : Option Text
  pub buyer_reference : Option Text
  pub seller : CiiParty
  pub buyer : CiiParty
  pub lines : List CiiLine
  pub tax_breakdown : List CiiTaxBreakdown
  pub totals : CiiTotals
  pub notes : List Text

abbrev pub non_empty : Text → Option Text
non_empty t = elim t [ [] ↦ none | c ∷ s ↦ some (c ∷ s) ]

-- `text` on an element that the parser gives as a string, or that is absent.
unfoldable pub element_text : Option Text → Option Text
element_text none = none
element_text (some t) = non_empty (trim t)

unfoldable pub amount : Option Text → Option Decimal
unfolding element_text
amount node = parse_decimal (element_text node)

-- `money` of the serialiser
unfoldable pub money : Decimal → Text
money d = format (rescale d monetary_scale)

-- The deposit's element, which is left out of the XML where the deposit is zero.
unfoldable pub prepaid_element : Decimal → Option Text
prepaid_element d = if is_zero d then none else some (money d)
