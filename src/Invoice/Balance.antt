-- ===== src/Invoice/Balance.antt =====
-- packages/facturx/src/generate/compute.ts: the equations between the totals of an invoice.
use validateur_facturx.Common.{
  ℕ, ◌+◌, ◌≡◌, refl, ap, ◌∙◌, sym, List, [], ◌∷◌, map, All, Option, none, some, ok,
}
use validateur_facturx.Common.Int.{◌+ℤ◌, ◌-ℤ◌, zero-+ℤ}
use validateur_facturx.Common.Failing.{>>=_returned}
use validateur_facturx.Common.Text.{Text}
use validateur_facturx.Money.{Decimal, decimal, sum, multiply, zero_decimal}
use mathlib.Core.Path.{subst}
use validateur_facturx.Money.Scaling.{rescale_scale}
use validateur_facturx.Invoice.Draft.{DraftLine, InvoiceDraft}
use validateur_facturx.Invoice.Reading.{Lines, compute_lines-Lines, ok_injective}
use validateur_facturx.Invoice.Compute.{
  ComputedLine, ComputedInvoice, group_lines, net_amounts, tax_group, compute_lines,
  compute_invoice, prepaid_of, totals_of, required,
}
use validateur_facturx.Invoice.Cents.{
  IsCents, Monetary, sum-cents, cents, group_lines-cents, group_lines-Monetary, basis-cents,
  add-cents, subtract-cents,
}
use validateur_facturx.Invoice.Tax.{
  tax_amounts, basis_amounts, IsTaxed, tax_amounts-Cents, tax_groups-IsTaxed,
}

Lines-Monetary :
    (lines : List DraftLine) (index : ℕ) (cs : List ComputedLine)
    → Lines lines index cs
    → Monetary cs
Lines-Monetary [] index [] h = tt
Lines-Monetary [] index (c ∷ cs) h = elim h [ ]
Lines-Monetary (line ∷ lines) index [] h = elim h [ ]
Lines-Monetary (line ∷ lines) index (c ∷ cs) (h, hs) = (
  ap (λ (l : ComputedLine). l.net_amount.scale) h.shape
      ∙ rescale_scale (multiply c.quantity c.unit_price) 2,
  Lines-Monetary lines (index + 1) cs hs,
)

prepaid_of-Cents : (p : Option Text) {d : Decimal} → prepaid_of p ≡ ok d → IsCents d
unfolding prepaid_of
prepaid_of-Cents none h =
    ap (λ (d : Decimal). d.scale) (sym (ok_injective h)) ∙ rescale_scale zero_decimal 2
prepaid_of-Cents (some []) h =
    ap (λ (d : Decimal). d.scale) (sym (ok_injective h)) ∙ rescale_scale zero_decimal 2
prepaid_of-Cents (some (c ∷ s)) h =
    let (v, _, e) = >>=_returned (required (c ∷ s) _) _ h in
    ap (λ (d : Decimal). d.scale) (sym (ok_injective e)) ∙ rescale_scale v 2

-- The equations between the amounts of an invoice that EN 16931 states, over integer cents:
-- BR-CO-10 and 13 (BT-106 and BT-109 are the sum of the line amounts), the bases of the VAT groups
-- add up to them, BR-CO-14 (BT-110 is the sum of the group taxes), BR-CO-15 (BT-112 is BT-109 plus
-- BT-110) and BR-CO-16 (BT-115 is BT-112 less BT-113).
pub record IsBalanced (inv : ComputedInvoice) : Type 0 where
  pub monetary : All IsCents (net_amounts inv.lines)
  pub line_total : inv.totals.line_total_amount ≡ decimal (cents (net_amounts inv.lines)) 2
  pub tax_basis : inv.totals.tax_basis_total_amount ≡ inv.totals.line_total_amount
  pub bases : sum (basis_amounts inv.tax_groups) ≡ inv.totals.line_total_amount
  pub taxed : All IsTaxed inv.tax_groups
  pub tax_total : inv.totals.tax_total_amount ≡ decimal (cents (tax_amounts inv.tax_groups)) 2
  pub grand_total :
      inv.totals.grand_total_amount
      ≡ decimal (inv.totals.line_total_amount.value +ℤ inv.totals.tax_total_amount.value) 2
  pub prepaid : IsCents inv.totals.prepaid_amount
  pub due :
      inv.totals.due_payable_amount
      ≡ decimal (inv.totals.grand_total_amount.value -ℤ inv.totals.prepaid_amount.value) 2

invoice_of : List ComputedLine → Decimal → ComputedInvoice
invoice_of lines prepaid =
    let groups = map tax_group (group_lines [] lines) in
    record { lines = lines; tax_groups = groups; totals = totals_of lines groups prepaid }

invoice_of-IsBalanced :
    (lines : List ComputedLine) (prepaid : Decimal)
    → Monetary lines
    → IsCents prepaid
    → IsBalanced (invoice_of lines prepaid)
unfolding invoice_of totals_of
invoice_of-IsBalanced lines prepaid h p =
    let gs = group_lines [] lines in
    let monetary = group_lines-Monetary [] lines h tt in
    let (basis_scales, basis_sum) = basis-cents gs monetary in
    let lt = sum-cents (net_amounts lines) h in
    let tax = sum-cents (tax_amounts (map tax_group gs)) (tax_amounts-Cents gs) in
    let gt =
      add-cents (sum (net_amounts lines)) (sum (tax_amounts (map tax_group gs)))
        (ap (λ (d : Decimal). d.scale) lt) (ap (λ (d : Decimal). d.scale) tax) in
    record {
      monetary = h;
      line_total = lt;
      tax_basis = refl;
      bases =
          sum-cents (basis_amounts (map tax_group gs)) basis_scales
          ∙ ap (λ t. decimal t 2)
              (basis_sum ∙ group_lines-cents [] lines ∙ zero-+ℤ (cents (net_amounts lines)))
          ∙ sym lt;
      taxed = tax_groups-IsTaxed gs monetary;
      tax_total = tax;
      grand_total = gt;
      prepaid = p;
      due = subtract-cents _ prepaid (ap (λ (d : Decimal). d.scale) gt) p;
    }

-- When the computation succeeds, its lines are the draft's, read and rounded one by one in order, its
-- VAT groups are the grouping of the lines by category and rate, and its amounts balance.
pub compute_invoice_sound :
    (draft : InvoiceDraft) {inv : ComputedInvoice}
    → compute_invoice draft ≡ ok inv
    → Lines draft.lines 0 inv.lines
      × (inv.tax_groups ≡ map tax_group (group_lines [] inv.lines))
      × IsBalanced inv
unfolding compute_invoice
compute_invoice_sound draft {inv} h =
    let (lines, a, h1) = >>=_returned (compute_lines draft.lines 0) _ h in
    let (prepaid, b, h2) = >>=_returned (prepaid_of draft.prepaid_amount) _ h1 in
    let read = compute_lines-Lines draft.lines 0 a in
    subst
      (λ i.
        Lines draft.lines 0 i.lines
        × (i.tax_groups ≡ map tax_group (group_lines [] i.lines))
        × IsBalanced i)
      (ok_injective h2)
      (
        read,
        refl,
        unfold invoice_of in
            invoice_of-IsBalanced lines prepaid (Lines-Monetary draft.lines 0 lines read)
              (prepaid_of-Cents draft.prepaid_amount b),
      )
