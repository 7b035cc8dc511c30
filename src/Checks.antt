-- ===== src/Checks.antt =====
-- packages/facturx/src/checks.ts: arithmetic self-checks on a parsed invoice.
pub mod Vat
pub mod Generated
pub mod Composed
pub mod Suspects
mod Tests
use validateur_facturx.Common.{
  ℕ, suc, ◌+◌, Bool, true, false, ◌&&◌, not, List, [], ◌∷◌, ◌++◌, map, if◌then◌else◌, all, keep,
  Option, none, some,
}
use validateur_facturx.Common.Int.{pos, ltb_ℤ}
use validateur_facturx.Common.Text.{Text, codes}
use validateur_facturx.Money.{
  Decimal, decimal, zero_decimal, monetary_scale, is_zero, rescale, add, subtract, multiply, sum,
  abs, equals_at_monetary_scale,
}
use validateur_facturx.Money.Digits.{to_string}
use validateur_facturx.Money.Literal.{format, format_french}
use validateur_facturx.Profiles.{profile_can_express_prepaid_amount}
use validateur_facturx.Cii.{CiiInvoice, CiiLine, CiiTaxBreakdown}

pub record ArithmeticCheck : Type 0 where
  pub rule_id : Text
  pub label : Text
  pub passed : Bool
  pub declared : Option Decimal
  pub computed : Option Decimal
  pub difference : Option Decimal
  pub detail : Text

pub record VatRateCheck : Type 0 where
  pub rate_percent : Option Decimal
  pub category_code : Option Text
  pub declared_basis : Option Decimal
  pub declared_tax : Option Decimal
  pub computed_tax : Option Decimal
  pub passed : Bool
  pub detail : Text

pub record ArithmeticReport : Type 0 where
  pub checks : List ArithmeticCheck
  pub vat_rates : List VatRateCheck
  pub all_passed : Bool

-- Which side of the expected amount the declared one is on, from `computed - declared`.
unfoldable pub direction : Decimal → Text
direction difference =
    if ltb_ℤ (pos 0) difference.value then codes "inférieur" else codes "supérieur"

unfoldable pub describe_mismatch : Decimal → Decimal → Option Text → Text
describe_mismatch declared computed currency =
    let difference = subtract computed declared in
    codes "La facture déclare "
    ++ (format_french declared currency
        ++ (codes ", mais le calcul donne "
            ++ (format_french computed currency
                ++ (codes ". Le montant déclaré est "
                    ++ (direction difference
                        ++ (codes " de "
                            ++ (format_french (abs difference) currency
                                ++ codes " au montant attendu.")))))))

unfoldable pub check :
    Text → Text → Option Decimal → Option Decimal → Option Text → Text → ArithmeticCheck
check rule_id label (some declared) (some computed) currency skipped_detail =
    let passed = equals_at_monetary_scale declared computed in
    record {
      rule_id = rule_id;
      label = label;
      passed = passed;
      declared = some declared;
      computed = some computed;
      difference = some (subtract computed declared);
      detail =
          if passed
          then codes "Cohérent (" ++ (format_french declared currency ++ codes ").")
          else describe_mismatch declared computed currency;
    }
check rule_id label declared computed currency skipped_detail = record {
  rule_id = rule_id;
  label = label;
  passed = true;
  declared = declared;
  computed = computed;
  difference = none;
  detail = skipped_detail;
}

-- `filter` on present amounts
abbrev pub present : List (Option Decimal) → List Decimal
present [] = []
present (none ∷ amounts) = present amounts
present (some amount ∷ amounts) = amount ∷ present amounts

-- The sum of the amounts that are stated, where there is an element at all.
unfoldable pub sum_stated : List (Option Decimal) → Option Decimal
sum_stated [] = none
sum_stated (a ∷ amounts) = some (sum (present (a ∷ amounts)))

-- `??` with a zero amount
abbrev pub or_zero : Option Decimal → Decimal
or_zero none = zero_decimal
or_zero (some d) = d

unfoldable pub computed_tax_basis :
    Option Decimal → Option Decimal → Option Decimal → Option Decimal
computed_tax_basis none allowance charge = none
computed_tax_basis (some line_total) allowance charge =
    some (add (subtract line_total (or_zero allowance)) (or_zero charge))

unfoldable pub computed_grand_total : Option Decimal → Option Decimal → Option Decimal
computed_grand_total (some tax_basis) (some tax_total) = some (add tax_basis tax_total)
computed_grand_total _ _ = none

unfoldable pub computed_due : Bool → Option Decimal → Option Decimal → Option Decimal
computed_due true (some grand_total) prepaid = some (subtract grand_total (or_zero prepaid))
computed_due _ _ _ = none

-- `divideByHundred` shifts the point by two places.
abbrev pub divide_by_hundred : Decimal → Decimal
divide_by_hundred d = decimal d.value (d.scale + 2)

-- BT-117 from BT-116 and BT-119. The constant `HUNDRED`, parsed from "100", has scale 0.
unfoldable pub computed_tax : Decimal → Decimal → Decimal
computed_tax basis rate =
    let product = multiply basis rate in
    let scaled = rescale (decimal product.value (product.scale + 0)) product.scale in
    rescale (divide_by_hundred scaled) monetary_scale

abbrev rate_label : Decimal → Text
rate_label rate = format (rescale rate 2) ++ codes " %"

-- One entry of the VAT breakdown whose basis and rate are stated.
unfoldable pub check_stated_rate :
    CiiTaxBreakdown → Decimal → Decimal → Option Decimal → Option Text → VatRateCheck
check_stated_rate entry basis rate none currency = record {
  rate_percent = some rate;
  category_code = entry.category_code;
  declared_basis = some basis;
  declared_tax = none;
  computed_tax = some (computed_tax basis rate);
  passed = true;
  detail = codes "TVA à " ++ (rate_label rate ++ codes " : montant non déclaré.");
}
check_stated_rate entry basis rate (some declared) currency =
    let computed = computed_tax basis rate in
    let passed = equals_at_monetary_scale declared computed in
    record {
      rate_percent = some rate;
      category_code = entry.category_code;
      declared_basis = some basis;
      declared_tax = some declared;
      computed_tax = some computed;
      passed = passed;
      detail =
          if passed
          then codes "TVA à "
            ++ (rate_label rate
                ++ (codes " : cohérente ("
                    ++ (format_french declared currency
                        ++ (codes " sur une base de "
                            ++ (format_french basis currency ++ codes ").")))))
          else codes "TVA à "
            ++ (rate_label rate
                ++ (codes " : la facture déclare "
                    ++ (format_french declared currency
                        ++ (codes ", mais "
                            ++ (format_french basis currency
                                ++ (codes " × "
                                    ++ (rate_label rate
                                        ++ (codes " donne "
                                            ++ (format_french computed currency
                                                ++ codes ".")))))))));
    }

unfoldable pub check_rate_of :
    CiiTaxBreakdown → Option Decimal → Option Decimal → Option Text → VatRateCheck
check_rate_of entry (some basis) (some rate) currency =
    check_stated_rate entry basis rate entry.calculated_amount currency
check_rate_of entry basis rate currency = record {
  rate_percent = rate;
  category_code = entry.category_code;
  declared_basis = basis;
  declared_tax = entry.calculated_amount;
  computed_tax = none;
  passed = true;
  detail = codes "TVA : non vérifiable, la base ou le taux est absent.";
}

abbrev pub check_rate : Option Text → CiiTaxBreakdown → VatRateCheck
check_rate currency entry = check_rate_of entry entry.basis_amount entry.rate_percent currency

-- The five checks on the totals, in the order of the report.
unfoldable pub total_checks : CiiInvoice → List ArithmeticCheck
total_checks invoice =
    let totals = invoice.totals in
    let can_check_due = profile_can_express_prepaid_amount invoice.profile in
    check (codes "BR-CO-10") (codes "Total HT des lignes") totals.line_total_amount
      (sum_stated (map (λ line. line.net_amount) invoice.lines)) invoice.currency
      (codes "Non vérifiable : la facture ne comporte pas de lignes exploitables.")
    ∷ check (codes "BR-CO-13") (codes "Total HT de la facture") totals.tax_basis_total_amount
        (computed_tax_basis totals.line_total_amount totals.allowance_total_amount
          totals.charge_total_amount)
        invoice.currency (codes "Non vérifiable : le total des lignes est absent.")
    ∷ check (codes "BR-CO-14") (codes "Total de TVA") totals.tax_total_amount
        (sum_stated (map (λ entry. entry.calculated_amount) invoice.tax_breakdown)) invoice.currency
        (codes "Non vérifiable : la ventilation de TVA est absente.")
    ∷ check (codes "BR-CO-15") (codes "Total TTC") totals.grand_total_amount
        (computed_grand_total totals.tax_basis_total_amount totals.tax_total_amount)
        invoice.currency (codes "Non vérifiable : le total HT ou le total de TVA est absent.")
    ∷ check (codes "BR-CO-16") (codes "Net à payer") totals.due_payable_amount
        (computed_due can_check_due totals.grand_total_amount totals.prepaid_amount)
        invoice.currency
        (if can_check_due
          then codes "Non vérifiable : le total TTC est absent."
          else codes
              "Non vérifiable : le profil MINIMUM ne permet pas de déclarer les acomptes (BT-113). Un écart avec le total TTC peut donc être parfaitement régulier.")
    ∷ []

unfoldable pub check_arithmetic : CiiInvoice → ArithmeticReport
check_arithmetic invoice =
    let checks = total_checks invoice in
    let vat_rates = map (check_rate invoice.currency) invoice.tax_breakdown in
    record {
      checks = checks;
      vat_rates = vat_rates;
      all_passed = all (λ c. c.passed) checks && all (λ r. r.passed) vat_rates;
    }

-- Whether a line's amount, in magnitude, is the gap.
unfoldable pub matches_gap : Decimal → CiiLine → Bool
matches_gap target line = elim line.net_amount [
  | none ↦ false
  | some amount ↦ equals_at_monetary_scale (abs amount) target
]

-- `line.id ?? line.name ?? …`
abbrev pub line_name : CiiLine → ℕ → Text
line_name line index = elim line.id [
  | some id ↦ id
  | none ↦ elim line.name [ some name ↦ name | none ↦ codes "ligne " ++ to_string (index + 1) ]
]

-- `map` over the filtered lines, with their index in the filtered list.
unfoldable pub name_lines : List CiiLine → ℕ → List Text
name_lines [] index = []
name_lines (line ∷ lines) index = line_name line index ∷ name_lines lines (index + 1)

-- The lines named for a gap between the declared total and the sum of the amounts.
unfoldable pub suspects_for : Decimal → List Decimal → List CiiLine → List Text
suspects_for declared [] lines = []
suspects_for declared (a ∷ amounts) lines =
    let difference = subtract (sum (a ∷ amounts)) declared in
    if is_zero difference then [] else name_lines (keep (matches_gap (abs difference)) lines) 0

unfoldable pub suspect_lines_for_line_total : CiiInvoice → List Text
suspect_lines_for_line_total invoice = elim invoice.totals.line_total_amount [
  | none ↦ []
  | some declared ↦
      suspects_for declared (present (map (λ line. line.net_amount) invoice.lines)) invoice.lines
]
