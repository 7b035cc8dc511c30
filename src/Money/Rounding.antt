-- ===== src/Money/Rounding.antt =====
-- packages/facturx/src/money.ts: `rescale` to a smaller scale rounds half away from zero.
use native.Mathlib.Nat.{div-add-mod', mod-lt, zero-div, zero-mod, lt_of_mul-lt-mul_right}
use validateur_facturx.Common.{
  ◌↔◌, ap, ap₂, ℕ, suc, ◌+◌, ◌-◌, ◌*◌, ◌/◌, ◌%◌, ◌≤◌, ◌<◌, ◌≡◌, refl, arith, Bool-cases, inl, inr,
  ltb, ltb→lt, false, ◌==◌, if◌then◌else◌,
}
use validateur_facturx.Common.Int.{
  ℤ, pos, negsuc, ◌+ℤ◌, ◌*ℤ◌, pos_part, neg_part, nat_abs, neg, sub_ℕ, is_neg, eq_of_parts,
}
use mathlib.Core.Path.{subst}
use validateur_facturx.Money.{decimal, Decimal, pow10, round_div, rescale}
use validateur_facturx.Money.Scaling.{pow10_pos, rescale_scale}

-- `r` is the integer nearest to `z / p`, ties going away from zero, with the sign of `z`.
pub record IsRounded (z : ℤ) (p : ℕ) (r : ℤ) : Type 0 where
  pub not_short : 2 * nat_abs z < 2 * (nat_abs r * p) + p
  pub not_long : 2 * (nat_abs r * p) ≤ 2 * nat_abs z + p
  pub stays_positive : neg_part z ≡ 0 → neg_part r ≡ 0
  pub stays_negative : pos_part z ≡ 0 → pos_part r ≡ 0

-- The magnitude of the rounded quotient.
round_nat : ℕ → ℕ → ℕ
round_nat n p = if ltb (n % p * 2) p then n / p else n / p + 1

twice_pos : (m : ℕ) → pos m *ℤ pos 2 ≡ pos (m * 2)
unfolding ◌*ℤ◌
twice_pos m = ground arith

round_div_pos : (n p : ℕ) → round_div (pos n) p ≡ pos (round_nat n p)
unfolding round_div round_nat ◌+ℤ◌
round_div_pos n p = rw twice_pos (ground arith)

-- The magnitude of a negative remainder.
magnitude_lem : (m : ℕ) → (if is_neg (sub_ℕ 0 m) then neg (sub_ℕ 0 m) else sub_ℕ 0 m) ≡ pos m
magnitude_lem m = ground arith

round_div_negsuc : (n p : ℕ) → round_div (negsuc n) p ≡ sub_ℕ 0 (round_nat (suc n) p)
unfolding round_div round_nat ◌+ℤ◌
round_div_negsuc n p = rw (magnitude_lem, twice_pos) (ground arith)

round_nat_bounds :
    (n p : ℕ)
    → 0 < p
    → (2 * n < 2 * (round_nat n p * p) + p) × (2 * (round_nat n p * p) ≤ 2 * n + p)
unfolding round_nat
round_nat_bounds n p h = elim (Bool-cases (ltb (n % p * 2) p)) [
  | inl low ↦
      let lt = ltb→lt _ _ low in
      rw low (omega (arith, div-add-mod' n p), omega (arith, div-add-mod' n p))
  | inr high ↦
      let ge : p ≤ n % p * 2 = ground arith in
      rw high (omega (arith, div-add-mod' n p, mod-lt n h), omega (arith, div-add-mod' n p))
]

round_nat_zero : (p : ℕ) → 0 < p → round_nat 0 p ≡ 0
unfolding round_nat
round_nat_zero p h = ground (arith, zero-div p, zero-mod p)

round_div-IsRounded : (z : ℤ) (p : ℕ) → 0 < p → IsRounded z p (round_div z p)
round_div-IsRounded (pos n) p h =
    let (short, long) = round_nat_bounds n p h in
    rw round_div_pos (ground (arith, round_nat_zero p h))
round_div-IsRounded (negsuc n) p h =
    let (short, long) = round_nat_bounds (suc n) p h in rw round_div_negsuc (ground arith)

-- Lowering the scale gives the nearest amount at that scale: the value is off by at most half a
-- unit, a tie goes away from zero, and the sign is kept.
pub rescale-IsRounded :
    (d : Decimal) (scale : ℕ)
    → scale < d.scale
    → IsRounded d.value (pow10 (d.scale - scale)) (rescale d scale).value
unfolding rescale
rescale-IsRounded d scale h =
    let ne : (d.scale == scale) ≡ false = ground arith in
    let ge : ltb d.scale scale ≡ false = ground arith in
    rw (ne, ge) (round_div-IsRounded d.value _ (pow10_pos (d.scale - scale)))

magnitude_unique : (n p q r : ℕ) → 0 < p → 2 * n < 2 * (q * p) + p → 2 * (r * p) ≤ 2 * n + p → r ≤ q
magnitude_unique n p q r hp a b =
    let lt : r * p < (q + 1) * p = omega arith in omega (arith, lt_of_mul-lt-mul_right p lt)

same_sign :
    (z r v : ℤ)
    → nat_abs r ≡ nat_abs v
    → (neg_part z ≡ 0 → neg_part r ≡ 0)
    → (pos_part z ≡ 0 → pos_part r ≡ 0)
    → (neg_part z ≡ 0 → neg_part v ≡ 0)
    → (pos_part z ≡ 0 → pos_part v ≡ 0)
    → r ≡ v
same_sign (pos n) r v e a b c d = eq_of_parts r v (omega (arith, a refl, c refl))
same_sign (negsuc n) r v e a b c d = eq_of_parts r v (omega (arith, b refl, d refl))

-- Only one integer meets the description.
pub IsRounded-unique : (z : ℤ) (p : ℕ) (r v : ℤ) → 0 < p → IsRounded z p r → IsRounded z p v → r ≡ v
IsRounded-unique z p r v hp i j =
    let a = magnitude_unique (nat_abs z) p (nat_abs v) (nat_abs r) hp j.not_short i.not_long in
    let b = magnitude_unique (nat_abs z) p (nat_abs r) (nat_abs v) hp i.not_short j.not_long in
    same_sign z r v (omega arith) i.stays_positive i.stays_negative j.stays_positive
      j.stays_negative

-- Lowering the scale yields `r` exactly when `r` is the nearest value at that scale, ties going away
-- from zero.
pub rescale_iff :
    (d : Decimal) (scale : ℕ) (r : ℤ)
    → scale < d.scale
    → (rescale d scale ≡ decimal r scale) ↔ IsRounded d.value (pow10 (d.scale - scale)) r
rescale_iff d scale r h = (
  λ e.
      subst (IsRounded d.value (pow10 (d.scale - scale))) (ap (λ (x : Decimal). x.value) e)
        (rescale-IsRounded d scale h),
  λ i.
      ap₂ decimal
        (IsRounded-unique d.value (pow10 (d.scale - scale)) (rescale d scale).value r (pow10_pos _)
          (rescale-IsRounded d scale h) i)
        (rescale_scale d scale),
)
