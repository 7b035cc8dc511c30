-- ===== src/Checks/Generated.antt =====
-- packages/facturx/src/generate/compute.ts, generate/cii.ts and extract/cii.ts, checks.ts: an invoice
-- that the generator computed, printed and that was read back passes the arithmetic checks.
use validateur_facturx.Common.{
  Bool-cases, inl, inr, ◌≡◌, refl, ap, ap₂, ◌∙◌, sym, arith, true, List, [], ◌∷◌, map, all, All,
  Option, none, some,
}
use validateur_facturx.Common.Int.{ℤ, pos, negsuc, ◌+ℤ◌, ◌-ℤ◌, ◌*ℤ◌, int_laws}
use validateur_facturx.Common.Text.{Text}
use validateur_facturx.Money.{
  Decimal, decimal, rescale, sum, equals_at_monetary_scale, is_zero, is_zero_ℤ,
}
use validateur_facturx.Money.Scaling.{rescale_self}
use validateur_facturx.Money.Rounding.{IsRounded-unique}
use validateur_facturx.Money.Order.{equals_iff}
use validateur_facturx.Money.Exact.{add-zero_decimal, subtract-zero_decimal}
use validateur_facturx.Profiles.{profile_can_express_prepaid_amount}
use validateur_facturx.Money.Literal.{parse_decimal, format}
use validateur_facturx.Money.RoundTrip.{parse_decimal-format, trim-format}
use validateur_facturx.Cii.{CiiInvoice, CiiTaxBreakdown, amount, money, prepaid_element}
use validateur_facturx.Cii.Amounts.{format-ne-nil, non_empty-some}
use validateur_facturx.Invoice.Compute.{
  net_amounts, ComputedLine, ComputedTaxGroup, ComputedInvoice, vat_on,
}
use validateur_facturx.Invoice.Cents.{IsCents, sum-cents, add-cents, subtract-cents}
use validateur_facturx.Invoice.Tax.{tax_amounts, IsTaxed, vat_on-IsRounded, vat_on_scale}
use validateur_facturx.Invoice.Balance.{IsBalanced}
use validateur_facturx.Checks.{
  check_rate_of, check_stated_rate, computed_due, total_checks, computed_tax_basis,
  computed_grand_total, check, check_arithmetic, check_rate, computed_tax, sum_stated, present,
}
use validateur_facturx.Checks.Vat.{computed_tax-vat_on}

-- What is read from a printed amount of money is that amount.
amount-money : (d : Decimal) → IsCents d → amount (some (money d)) ≡ some d
unfolding amount money
amount-money d h =
    rw (rescale_self d 2 h, trim-format d, non_empty-some (format d) (format-ne-nil d))
      (parse_decimal-format d)

-- The tax entries of a document are those of the groups, printed and read back.
abbrev pub StatesGroups : List ComputedTaxGroup → List CiiTaxBreakdown → Type 0
StatesGroups [] [] = Unit
StatesGroups (g ∷ gs) (e ∷ es) =
    ((e.basis_amount ≡ amount (some (money g.basis_amount)))
      × (e.rate_percent ≡ amount (some (money g.rate_percent)))
      × (e.calculated_amount ≡ amount (some (money g.calculated_amount))))
    × StatesGroups gs es
StatesGroups [] (e ∷ es) = ⊥
StatesGroups (g ∷ gs) [] = ⊥

-- A document states an invoice: its amounts are what is read from the printed amounts of the
-- invoice, it has no allowance and no charge, and the deposit is present where it is not zero.
pub record States (inv : ComputedInvoice) (doc : CiiInvoice) : Type 0 where
  pub lines :
      map (λ l. l.net_amount) doc.lines ≡ map (λ l. amount (some (money l.net_amount))) inv.lines
  pub groups : StatesGroups inv.tax_groups doc.tax_breakdown
  pub line_total : doc.totals.line_total_amount ≡ amount (some (money inv.totals.line_total_amount))
  pub tax_basis :
      doc.totals.tax_basis_total_amount ≡ amount (some (money inv.totals.tax_basis_total_amount))
  pub tax_total : doc.totals.tax_total_amount ≡ amount (some (money inv.totals.tax_total_amount))
  pub grand_total :
      doc.totals.grand_total_amount ≡ amount (some (money inv.totals.grand_total_amount))
  pub due : doc.totals.due_payable_amount ≡ amount (some (money inv.totals.due_payable_amount))
  pub prepaid : doc.totals.prepaid_amount ≡ amount (prepaid_element inv.totals.prepaid_amount)
  pub allowance : doc.totals.allowance_total_amount ≡ none
  pub charge : doc.totals.charge_total_amount ≡ none

pub equals_at_monetary_self : (d : Decimal) → equals_at_monetary_scale d d ≡ true
unfolding equals_at_monetary_scale
equals_at_monetary_self d = (equals_iff (rescale d 2) (rescale d 2)).1 refl

present-some : (ds : List Decimal) → present (map some ds) ≡ ds
present-some [] = refl
present-some (d ∷ ds) = ap (λ r. d ∷ r) (present-some ds)

-- A check passes where what is computed is what is declared, or nothing can be computed.
check-agrees :
    (rule label : Text) (d : Decimal) (currency : Option Text) (skipped : Text)
    → (check rule label (some d) (some d) currency skipped).passed ≡ true
unfolding check
check-agrees rule label d currency skipped = equals_at_monetary_self d

check-skips :
    (rule label : Text) (declared : Option Decimal) (currency : Option Text) (skipped : Text)
    → (check rule label declared none currency skipped).passed ≡ true
unfolding check
check-skips rule label none currency skipped = refl
check-skips rule label (some d) currency skipped = refl

-- A check whose two sides are known to be one amount.
check-same :
    (d c : Decimal)
    → c ≡ d
    → (rule label : Text) (currency : Option Text) (skipped : Text)
    → (check rule label (some d) (some c) currency skipped).passed ≡ true
check-same d c h rule label currency skipped = rw h (check-agrees rule label d currency skipped)

check-sum :
    (ds : List Decimal) (d : Decimal)
    → sum ds ≡ d
    → (rule label : Text) (currency : Option Text) (skipped : Text)
    → (check rule label (some d) (sum_stated (map some ds)) currency skipped).passed ≡ true
unfolding sum_stated
check-sum [] d h rule label currency skipped = check-skips rule label (some d) currency skipped
check-sum (x ∷ ds) d h rule label currency skipped =
    rw (present-some ds) (check-same d (sum (x ∷ ds)) h rule label currency skipped)

lines-some :
    (cs : List ComputedLine)
    → All IsCents (net_amounts cs)
    → map (λ l. amount (some (money l.net_amount))) cs ≡ map some (net_amounts cs)
lines-some [] h = refl
lines-some (c ∷ cs) (p, h) = ap₂ (λ a b. a ∷ b) (amount-money c.net_amount p) (lines-some cs h)

taxes-some :
    (gs : List ComputedTaxGroup) (es : List CiiTaxBreakdown)
    → All IsTaxed gs
    → StatesGroups gs es
    → map (λ e. e.calculated_amount) es ≡ map some (tax_amounts gs)
taxes-some [] [] h s = refl
taxes-some [] (e ∷ es) h s = elim s [ ]
taxes-some (g ∷ gs) [] h s = elim s [ ]
taxes-some (g ∷ gs) (e ∷ es) (p, h) ((_, _, tax), s) =
    ap₂ (λ a b. a ∷ b) (tax ∙ amount-money g.calculated_amount p.tax_cents) (taxes-some gs es h s)

-- The tax of a group is what the validator computes from its basis and its rate.
computed_tax-group :
    (g : ComputedTaxGroup)
    → IsTaxed g
    → computed_tax g.basis_amount g.rate_percent ≡ g.calculated_amount
computed_tax-group g t =
    computed_tax-vat_on g.basis_amount g.rate_percent
    ∙ ap₂ decimal
        (IsRounded-unique (g.basis_amount.value *ℤ g.rate_percent.value) 10000
          (vat_on g.basis_amount g.rate_percent).value g.calculated_amount.value (omega arith)
          (vat_on-IsRounded g.basis_amount g.rate_percent t.basis_cents t.rate_cents) t.tax)
        (vat_on_scale g.basis_amount g.rate_percent ∙ sym t.tax_cents)

check_rate-passes :
    (currency : Option Text) (e : CiiTaxBreakdown) (b r c : Decimal)
    → e.basis_amount ≡ some b
    → e.rate_percent ≡ some r
    → e.calculated_amount ≡ some c
    → computed_tax b r ≡ c
    → (check_rate currency e).passed ≡ true
unfolding check_rate_of check_stated_rate
check_rate-passes currency e b r c hb hr hc h = rw (hb, hr, hc, h) (equals_at_monetary_self c)

vat_rates-pass :
    (currency : Option Text) (gs : List ComputedTaxGroup) (es : List CiiTaxBreakdown)
    → All IsTaxed gs
    → StatesGroups gs es
    → all (λ r. r.passed) (map (check_rate currency) es) ≡ true
vat_rates-pass currency [] [] h s = refl
vat_rates-pass currency [] (e ∷ es) h s = elim s [ ]
vat_rates-pass currency (g ∷ gs) [] h s = elim s [ ]
vat_rates-pass currency (g ∷ gs) (e ∷ es) (p, h) ((basis, rate, tax), s) =
    rw
      (check_rate-passes currency e g.basis_amount g.rate_percent g.calculated_amount
        (basis ∙ amount-money g.basis_amount p.basis_cents)
        (rate ∙ amount-money g.rate_percent p.rate_cents)
        (tax ∙ amount-money g.calculated_amount p.tax_cents) (computed_tax-group g p))
      (vat_rates-pass currency gs es h s)

is_zero-sub : (x p : ℤ) → is_zero_ℤ p ≡ true → x ≡ x -ℤ p
is_zero-sub x (pos n) h = let e : n ≡ 0 = ground arith in rw e (omega int_laws)
is_zero-sub x (negsuc n) h = cc

amount-none : amount none ≡ none
unfolding amount parse_decimal
amount-none = refl

-- What the validator computes for the amount due, from the deposit that was read back.
due-read :
    (grand prepaid due : Decimal)
    → IsCents grand
    → IsCents prepaid
    → due ≡ decimal (grand.value -ℤ prepaid.value) 2
    → computed_due true (some grand) (amount (prepaid_element prepaid)) ≡ some due
unfolding computed_due prepaid_element is_zero
due-read grand prepaid due g p h = elim (Bool-cases (is_zero_ℤ prepaid.value)) [
  | inl zero_prepaid ↦
      rw (zero_prepaid, amount-none)
        (ap some (
          subtract-zero_decimal grand
          ∙ ap₂ decimal (is_zero-sub grand.value prepaid.value zero_prepaid) g
          ∙ sym h))
  | inr paid ↦
      rw (paid, amount-money prepaid p) (ap some (subtract-cents grand prepaid g p ∙ sym h))
]

taxes-IsCents : (gs : List ComputedTaxGroup) → All IsTaxed gs → All IsCents (tax_amounts gs)
taxes-IsCents [] h = tt
taxes-IsCents (g ∷ gs) (p, h) = (p.tax_cents, taxes-IsCents gs h)

-- A document that states a balanced invoice, in a profile that carries the deposit, passes every
-- arithmetic check of the validator: BR-CO-10, 13, 14, 15 and 16, and the VAT of every group.
pub check_arithmetic-passes :
    (inv : ComputedInvoice) (doc : CiiInvoice)
    → IsBalanced inv
    → States inv doc
    → profile_can_express_prepaid_amount doc.profile ≡ true
    → (check_arithmetic doc).all_passed ≡ true
unfolding check_arithmetic total_checks computed_tax_basis computed_grand_total
check_arithmetic-passes inv doc b s profile =
    let t = inv.totals in
    let lt : IsCents t.line_total_amount = ap (λ (d : Decimal). d.scale) b.line_total in
    let tt_ : IsCents t.tax_total_amount = ap (λ (d : Decimal). d.scale) b.tax_total in
    let gt : IsCents t.grand_total_amount = ap (λ (d : Decimal). d.scale) b.grand_total in
    let du : IsCents t.due_payable_amount = ap (λ (d : Decimal). d.scale) b.due in
    let tb : IsCents t.tax_basis_total_amount = ap (λ (d : Decimal). d.scale) b.tax_basis ∙ lt in
    rw
      (
        profile,
        s.line_total,
        s.tax_basis,
        s.tax_total,
        s.grand_total,
        s.due,
        s.prepaid,
        s.allowance,
        s.charge,
        s.lines,
        taxes-some inv.tax_groups doc.tax_breakdown b.taxed s.groups,
        lines-some inv.lines b.monetary,
        amount-money t.line_total_amount lt,
        amount-money t.tax_basis_total_amount tb,
        amount-money t.tax_total_amount tt_,
        amount-money t.grand_total_amount gt,
        amount-money t.due_payable_amount du,
      )
      (rw
        (
          check-sum (net_amounts inv.lines) t.line_total_amount
              (sum-cents _ b.monetary ∙ sym b.line_total),
          check-same t.tax_basis_total_amount _
              (add-zero_decimal _ ∙ subtract-zero_decimal t.line_total_amount ∙ sym b.tax_basis),
          check-sum (tax_amounts inv.tax_groups) t.tax_total_amount
              (sum-cents _ (taxes-IsCents inv.tax_groups b.taxed) ∙ sym b.tax_total),
          check-same t.grand_total_amount _ (
              add-cents t.tax_basis_total_amount t.tax_total_amount tb tt_
              ∙ ap (λ x. decimal (x +ℤ t.tax_total_amount.value) 2)
                  (ap (λ (d : Decimal). d.value) b.tax_basis)
              ∙ sym b.grand_total),
          due-read t.grand_total_amount t.prepaid_amount t.due_payable_amount gt b.prepaid b.due,
          check-agrees,
        )
        (vat_rates-pass doc.currency inv.tax_groups doc.tax_breakdown b.taxed s.groups))
