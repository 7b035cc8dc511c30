-- ===== src/Checks/Vat.antt =====
-- packages/facturx/src/checks.ts against packages/facturx/src/generate/compute.ts: the two ways of
-- computing the VAT on a basis, and the wording of a mismatch.
use validateur_facturx.Common.{◌+◌, ◌≡◌, refl, ap, ◌∙◌, sym, arith, true, false}
use validateur_facturx.Common.Int.{ℤ, pos, negsuc, ltb_ℤ, neg}
use validateur_facturx.Common.Text.{codes}
use validateur_facturx.Money.{Decimal, decimal, rescale, multiply, compare, subtract}
use validateur_facturx.Money.Scaling.{rescale_self}
use validateur_facturx.Money.Order.{sign, compare_sound, compare_swap}
use validateur_facturx.Invoice.Compute.{vat_on}
use validateur_facturx.Checks.{computed_tax, divide_by_hundred, direction}

-- The validator computes the VAT on a basis exactly as the generator does, although it goes through
-- one more `rescale`: both round basis times rate over a hundred once, to the cent.
pub computed_tax-vat_on : (basis rate : Decimal) → computed_tax basis rate ≡ vat_on basis rate
unfolding computed_tax vat_on multiply
computed_tax-vat_on basis rate =
    let value = (multiply basis rate).value in
    let s = basis.scale + rate.scale in
    let product = decimal value (s + 0) in
    ap (λ x. rescale (divide_by_hundred x) 2)
      (rescale_self product s (omega arith) ∙ ap (decimal value) (omega arith))

sign-pos : (v : ℤ) → sign v ≡ pos 1 → ltb_ℤ (pos 0) v ≡ true
sign-pos v h = ground arith

sign-neg : (v : ℤ) → sign v ≡ negsuc 0 → ltb_ℤ (pos 0) v ≡ false
sign-neg v h = ground arith

-- The message says « inférieur » exactly when the declared amount is below the computed one, by the
-- order of `compare`, and « supérieur » when it is above.
direction_sound :
    (declared computed : Decimal)
    → (compare declared computed ≡ negsuc 0
        → direction (subtract computed declared) ≡ codes "inférieur")
      × (compare declared computed ≡ pos 1
          → direction (subtract computed declared) ≡ codes "supérieur")
unfolding direction
direction_sound declared computed =
    let v = (subtract computed declared).value in
    let sound = (compare_sound computed declared).1 in
    let swap = compare_swap declared computed in
    (
      λ h. rw (sign-pos v (sym sound ∙ swap ∙ ap neg h)) refl,
      λ h. rw (sign-neg v (sym sound ∙ swap ∙ ap neg h)) refl,
    )
