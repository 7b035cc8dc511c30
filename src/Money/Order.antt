-- ===== src/Money/Order.antt =====
-- packages/facturx/src/money.ts: `compare` and `equals` against cross-multiplied values.
use native.Mathlib.Nat.{mul-lt-mul_of_pos_right}
use validateur_facturx.Common.{
  Bool-cases, lt→ltb, ltb→lt, inl, inr, ℕ, ◌+◌, ◌-◌, ◌*◌, ◌≤◌, ◌<◌, ◌≡◌, ◌↔◌, refl, ap, ap₂, ◌∙◌,
  sym, arith, min, max, true, ltb, if◌then◌else◌,
}
use validateur_facturx.Common.Int.{
  ℤ, pos, negsuc, ◌*ℤ◌, ◌-ℤ◌, neg, ltb_ℤ, pos_part, neg_part, *ℤ_pos_pos, int_laws, eq_of_parts,
}
use validateur_facturx.Money.{Decimal, pow10, compare, subtract, equals, is_zero_ℤ}
use validateur_facturx.Money.Scaling.{units, rescale_up, pow10-add, pow10_pos}
use validateur_facturx.Money.Exact.{subtract_lem}

-- -1, 0 or 1 by comparing two integers
abbrev pub order : ℤ → ℤ → ℤ
order x y = if ltb_ℤ x y then negsuc 0 else if ltb_ℤ y x then pos 1 else pos 0

-- The sign of an integer.
abbrev pub sign : ℤ → ℤ
sign x = order x (pos 0)

ltb-scale : (u v p : ℕ) → 0 < p → ltb (u * p) (v * p) ≡ ltb u v
ltb-scale u v p h = elim (Bool-cases (ltb u v)) [
  | inl lt ↦ rw lt (lt→ltb _ _ (mul-lt-mul_of_pos_right (ltb→lt u v lt) h))
  | inr ge ↦
      let le : v ≤ u = ground arith in let k : v * p ≤ u * p = grind arith in rw ge (ground arith)
]

order-scale : (x y : ℤ) (p : ℕ) → 0 < p → order (x *ℤ pos p) (y *ℤ pos p) ≡ order x y
order-scale x y p h =
    let e : pos_part (x *ℤ pos p) + neg_part (y *ℤ pos p) ≡ (pos_part x + neg_part y) * p =
      omega int_laws in
    let f : pos_part (y *ℤ pos p) + neg_part (x *ℤ pos p) ≡ (pos_part y + neg_part x) * p =
      omega int_laws in
    rw
      (
        e,
        f,
        ltb-scale (pos_part x + neg_part y) (pos_part y + neg_part x) p h,
        ltb-scale (pos_part y + neg_part x) (pos_part x + neg_part y) p h,
      )
      refl

-- An amount times the other's power of ten: both sides count units of the two scales' sum.
abbrev pub cross : Decimal → Decimal → ℤ
cross a b = a.value *ℤ pos (pow10 b.scale)

compare-units :
    (a b : Decimal)
    → compare a b ≡ order (units a (max a.scale b.scale)) (units b (max a.scale b.scale))
unfolding compare
compare-units a b =
    let ha : a.scale ≤ max a.scale b.scale = omega arith in
    let hb : b.scale ≤ max a.scale b.scale = omega arith in
    rw (rescale_up a _ ha, rescale_up b _ hb) refl

cross-units :
    (a b : Decimal) → cross a b ≡ units a (max a.scale b.scale) *ℤ pos (pow10 (min a.scale b.scale))
cross-units a b =
    let e : b.scale ≡ max a.scale b.scale - a.scale + min a.scale b.scale = omega arith in
    rw *ℤ_pos_pos (ap (λ k. a.value *ℤ pos k) (ap pow10 e ∙ pow10-add _ _))

order-sub : (x y : ℤ) → order x y ≡ sign (x -ℤ y)
unfolding ◌-ℤ◌
order-sub x y = ground arith

-- `compare` orders amounts of any two scales by their exact values: it gives the sign of the
-- difference of the cross-multiplied values, and of the amount that `subtract` returns.
pub compare_sound :
    (a b : Decimal)
    → (compare a b ≡ order (cross a b) (cross b a)) × (compare a b ≡ sign (subtract a b).value)
compare_sound a b =
    let m = max a.scale b.scale in
    let k = min a.scale b.scale in
    let swapped : cross b a ≡ units b m *ℤ pos (pow10 k) =
      let e : a.scale ≡ m - b.scale + k = omega arith in
      rw *ℤ_pos_pos (ap (λ j. b.value *ℤ pos j) (ap pow10 e ∙ pow10-add _ _)) in
    (
      compare-units a b
          ∙ sym (order-scale (units a m) (units b m) (pow10 k) (pow10_pos k))
          ∙ ap₂ order (sym (cross-units a b)) (sym swapped),
      compare-units a b
          ∙ order-sub (units a m) (units b m)
          ∙ ap (λ (d : Decimal). sign d.value) (sym (subtract_lem a b)),
    )

order_self : (y : ℤ) → is_zero_ℤ (order y y) ≡ true
order_self y = ground arith

order_eq : (x y : ℤ) → (is_zero_ℤ (order x y) ≡ true) ↔ (x ≡ y)
order_eq x y = (λ h. eq_of_parts x y (ground arith), λ e. rw e (order_self y))

-- `equals` holds exactly of amounts with one exact value, whatever their scales.
pub equals_iff : (a b : Decimal) → (equals a b ≡ true) ↔ (cross a b ≡ cross b a)
unfolding equals
equals_iff a b = rw ((compare_sound a b).0) (order_eq _ _)

order_swap : (x y : ℤ) → order y x ≡ neg (order x y)
order_swap x y = ground arith

-- Comparing the other way round gives the opposite.
pub compare_swap : (a b : Decimal) → compare b a ≡ neg (compare a b)
compare_swap a b =
    (compare_sound b a).0
    ∙ order_swap (cross a b) (cross b a)
    ∙ ap neg (sym ((compare_sound a b).0))
