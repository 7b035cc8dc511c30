-- ===== src/Invoice/Compute.antt =====
-- packages/facturx/src/generate/compute.ts: every total of an invoice, derived from its lines.
-- A thrown `DraftAmountError` is `err` with its message.
use validateur_facturx.Common.{
  ℕ, ◌+◌, Bool, List, [], ◌∷◌, ◌++◌, map, if◌then◌else◌, find, Option, none, some, Result, ok, err,
}
use validateur_facturx.Common.Failing.{◌>>=◌}
use validateur_facturx.Common.Int.{ℤ, nat_abs, is_neg}
use validateur_facturx.Common.Text.{Text, codes, text_eq, truthy, includes}
use validateur_facturx.Money.{
  Decimal, decimal, zero_decimal, monetary_scale, rescale, add, subtract, multiply, sum,
}
use validateur_facturx.Money.Digits.{to_string}
use validateur_facturx.Money.Literal.{parse_decimal, sign_text}
use validateur_facturx.Invoice.Draft.{DraftLine, InvoiceDraft, reason_required_categories}

pub record ComputedLine : Type 0 where
  pub source : DraftLine
  pub line_id : Text
  pub quantity : Decimal
  pub unit_price : Decimal
  pub net_amount : Decimal
  pub vat_category : Text
  pub vat_rate_percent : Decimal

pub record ComputedTaxGroup : Type 0 where
  pub category_code : Text
  pub rate_percent : Decimal
  pub basis_amount : Decimal
  pub calculated_amount : Decimal
  pub exemption_reason : Option Text

pub record ComputedTotals : Type 0 where
  pub line_total_amount : Decimal
  pub tax_basis_total_amount : Decimal
  pub tax_total_amount : Decimal
  pub grand_total_amount : Decimal
  pub prepaid_amount : Decimal
  pub due_payable_amount : Decimal

pub record ComputedInvoice : Type 0 where
  pub lines : List ComputedLine
  pub tax_groups : List ComputedTaxGroup
  pub totals : ComputedTotals

unfoldable pub required : Text → Text → Result Text Decimal
required raw field = elim (parse_decimal (some raw)) [
  | none ↦
      err
        (codes "Montant illisible pour « " ++ (field ++ (codes " » : « " ++ (raw ++ codes " »."))))
  | some value ↦ ok value
]

-- VAT on a basis: the product's point moves two places to the left, then one rounding.
unfoldable pub vat_on : Decimal → Decimal → Decimal
vat_on basis rate_percent =
    let product = multiply basis rate_percent in
    rescale (decimal product.value (product.scale + 2)) monetary_scale

-- `bigint.toString()`
unfoldable pub int_text : ℤ → Text
unfolding to_string
int_text z = sign_text (is_neg z) ++ to_string (nat_abs z)

unfoldable pub group_key : Text → Decimal → Text
unfolding rescale int_text
group_key category rate = category ++ b'|' ∷ int_text (rescale rate monetary_scale).value

-- `line.name || …`
abbrev pub line_label : DraftLine → ℕ → Text
line_label line index =
    if truthy (some line.name) then line.name else codes "ligne " ++ to_string (index + 1)

-- The line, once its three numbers are read; the net amount is rounded here, once.
abbrev pub line_of : DraftLine → ℕ → Decimal → Decimal → Decimal → ComputedLine
line_of line index quantity unit_price vat_rate_percent = record {
  source = line;
  line_id = to_string (index + 1);
  quantity = quantity;
  unit_price = unit_price;
  net_amount = rescale (multiply quantity unit_price) monetary_scale;
  vat_category = line.vat_category;
  vat_rate_percent = vat_rate_percent;
}

unfoldable pub compute_line : DraftLine → ℕ → Result Text ComputedLine
compute_line line index = do
  let label = line_label line index
  quantity ← required line.quantity (codes "quantité (" ++ (label ++ codes ")"))
  unit_price ← required line.unit_price (codes "prix unitaire (" ++ (label ++ codes ")"))
  vat_rate_percent ← required line.vat_rate_percent (codes "taux de TVA (" ++ (label ++ codes ")"))
  ok (line_of line index quantity unit_price vat_rate_percent)

-- `draft.lines.map(computeLine)`, from the given index on
unfoldable pub compute_lines : List DraftLine → ℕ → Result Text (List ComputedLine)
compute_lines [] index = ok []
compute_lines (line ∷ lines) index = do
  computed ← compute_line line index
  rest ← compute_lines lines (index + 1)
  ok (computed ∷ rest)

-- An entry of the insertion-ordered map of groups; `line` is the first line of the group.
pub record Group : Type 0 where
  pub key : Text
  pub lines : List ComputedLine
  pub line : ComputedLine

abbrev pub key_of : ComputedLine → Text
key_of line = group_key line.vat_category line.vat_rate_percent

unfoldable pub insert_line : ComputedLine → List Group → List Group
insert_line line [] = record { key = key_of line; lines = line ∷ []; line = line } ∷ []
insert_line line (g ∷ gs) =
    if text_eq g.key (key_of line)
    then record g { lines = g.lines ++ line ∷ [] } ∷ gs
    else g ∷ insert_line line gs

unfoldable pub group_lines : List Group → List ComputedLine → List Group
unfolding insert_line group_key
group_lines groups [] = groups
group_lines groups (line ∷ lines) = group_lines (insert_line line groups) lines

abbrev pub net_amounts : List ComputedLine → List Decimal
net_amounts = map (λ line. line.net_amount)

abbrev has_reason : ComputedLine → Bool
has_reason line = truthy line.source.exemption_reason

-- The reason of the first line that states one.
abbrev reason_of : Option ComputedLine → Option Text
reason_of none = none
reason_of (some line) = line.source.exemption_reason

unfoldable pub tax_group : Group → ComputedTaxGroup
unfolding vat_on rescale sum
tax_group group =
    let basis_amount = sum (net_amounts group.lines) in
    let rate_percent = rescale group.line.vat_rate_percent monetary_scale in
    record {
      category_code = group.line.vat_category;
      rate_percent = rate_percent;
      basis_amount = basis_amount;
      calculated_amount = vat_on basis_amount rate_percent;
      exemption_reason =
          if includes reason_required_categories group.line.vat_category
          then reason_of (find has_reason group.lines)
          else none;
    }

unfoldable pub prepaid_of : Option Text → Result Text Decimal
prepaid_of none = ok (rescale zero_decimal monetary_scale)
prepaid_of (some []) = ok (rescale zero_decimal monetary_scale)
prepaid_of (some (c ∷ s)) = do
  value ← required (c ∷ s) (codes "acompte versé")
  ok (rescale value monetary_scale)

-- The totals, given the lines, their groups and the deposit.
unfoldable pub totals_of : List ComputedLine → List ComputedTaxGroup → Decimal → ComputedTotals
unfolding sum add subtract
totals_of lines tax_groups prepaid_amount =
    let line_total_amount = sum (net_amounts lines) in
    let tax_total_amount = sum (map (λ g. g.calculated_amount) tax_groups) in
    let grand_total_amount = add line_total_amount tax_total_amount in
    record {
      line_total_amount = line_total_amount;
      tax_basis_total_amount = line_total_amount;
      tax_total_amount = tax_total_amount;
      grand_total_amount = grand_total_amount;
      prepaid_amount = prepaid_amount;
      due_payable_amount = subtract grand_total_amount prepaid_amount;
    }

unfoldable pub compute_invoice : InvoiceDraft → Result Text ComputedInvoice
compute_invoice draft = do
  lines ← compute_lines draft.lines 0
  let tax_groups = map tax_group (group_lines [] lines)
  prepaid_amount ← prepaid_of draft.prepaid_amount
  ok (record {
    lines = lines;
    tax_groups = tax_groups;
    totals = totals_of lines tax_groups prepaid_amount;
  })
