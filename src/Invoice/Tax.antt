-- ===== src/Invoice/Tax.antt =====
-- packages/facturx/src/generate/compute.ts: the tax of a VAT group.

use validateur_facturx.Common.{◌+◌, ◌-◌, ◌≡◌, ap, arith, List, [], ◌∷◌, map, All}
use validateur_facturx.Common.Int.{◌*ℤ◌}
use validateur_facturx.Money.{Decimal, decimal, rescale, sum, multiply, pow10}
use mathlib.Core.Path.{subst}
use validateur_facturx.Money.Rounding.{IsRounded, rescale-IsRounded}
use validateur_facturx.Money.Scaling.{rescale_scale}
use validateur_facturx.Invoice.Compute.{ComputedTaxGroup, Group, net_amounts, tax_group, vat_on}
use validateur_facturx.Invoice.Cents.{IsCents, Monetary, sum-cents}

abbrev pub tax_amounts : List ComputedTaxGroup → List Decimal
tax_amounts = map (λ g. g.calculated_amount)

abbrev pub basis_amounts : List ComputedTaxGroup → List Decimal
basis_amounts = map (λ g. g.basis_amount)

pub vat_on_scale : (basis rate : Decimal) → IsCents (vat_on basis rate)
unfolding vat_on
vat_on_scale basis rate =
    rescale_scale (decimal (multiply basis rate).value ((multiply basis rate).scale + 2)) 2

pub tax_group-IsCents : (g : Group) → IsCents (tax_group g).calculated_amount
unfolding tax_group
tax_group-IsCents g = vat_on_scale (sum (net_amounts g.lines)) (rescale g.line.vat_rate_percent 2)

pub tax_amounts-Cents : (gs : List Group) → All IsCents (tax_amounts (map tax_group gs))
tax_amounts-Cents [] = tt
tax_amounts-Cents (g ∷ gs) = (tax_group-IsCents g, tax_amounts-Cents gs)

pub vat_on-IsRounded :
    (basis rate : Decimal)
    → IsCents basis
    → IsCents rate
    → IsRounded (basis.value *ℤ rate.value) 10000 (vat_on basis rate).value
unfolding vat_on multiply pow10
vat_on-IsRounded basis rate p q =
    let e : basis.scale + rate.scale + 2 - 2 ≡ 4 = omega arith in
    let product = decimal (basis.value *ℤ rate.value) (basis.scale + rate.scale + 2) in
    subst (λ k. IsRounded (basis.value *ℤ rate.value) (pow10 k) (rescale product 2).value) e
      (rescale-IsRounded product 2 (omega arith))

-- A VAT group states its basis in cents, and the tax on it: basis times rate over a hundred, rounded
-- once to the cent, half away from zero.
pub record IsTaxed (g : ComputedTaxGroup) : Type 0 where
  pub basis_cents : IsCents g.basis_amount
  pub rate_cents : IsCents g.rate_percent
  pub tax_cents : IsCents g.calculated_amount
  pub tax : IsRounded (g.basis_amount.value *ℤ g.rate_percent.value) 10000 g.calculated_amount.value

pub tax_group-IsTaxed : (g : Group) → Monetary g.lines → IsTaxed (tax_group g)
unfolding tax_group
tax_group-IsTaxed g h =
    let basis = sum (net_amounts g.lines) in
    let rate = rescale g.line.vat_rate_percent 2 in
    let basis_scale : IsCents basis =
      ap (λ (d : Decimal). d.scale) (sum-cents (net_amounts g.lines) h) in
    let rate_scale : IsCents rate = rescale_scale g.line.vat_rate_percent 2 in
    record {
      basis_cents = basis_scale;
      rate_cents = rate_scale;
      tax_cents = vat_on_scale basis rate;
      tax = vat_on-IsRounded basis rate basis_scale rate_scale;
    }

pub tax_groups-IsTaxed :
    (gs : List Group) → All (λ g. Monetary g.lines) gs → All IsTaxed (map tax_group gs)
tax_groups-IsTaxed [] h = tt
tax_groups-IsTaxed (g ∷ gs) (p, h) = (tax_group-IsTaxed g p, tax_groups-IsTaxed gs h)
