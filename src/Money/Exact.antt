-- ===== src/Money/Exact.antt =====
-- packages/facturx/src/money.ts: adding, subtracting and summing lose nothing.
-- `units d s` counts an amount in units of a scale that is fine enough; the operations are
-- compared with integer arithmetic on those counts.
use validateur_facturx.Common.{◌-◌, ℕ, ◌≤◌, ◌≡◌, refl, ap, ap₂, ◌∙◌, sym, arith, max, List, [], ◌∷◌}
use validateur_facturx.Common.Int.{
  ◌*ℤ◌, +ℤ_comm, zero-+ℤ, ℤ, pos, ◌+ℤ◌, ◌-ℤ◌, +ℤ-*ℤ, -ℤ-*ℤ, +ℤ_assoc, int_laws,
}
use validateur_facturx.Money.{zero_decimal, pow10, Decimal, decimal, add, subtract, sum, sum_from}
use validateur_facturx.Money.Scaling.{units, rescale_up, units_step, units_self, decimal-eq}
use native.Mathlib.Nat.{le_refl}
use mathlib.Core.Logic.{∥∥₁_elim}
use mathlib.Core.List.{Perm, Permᴰ}

pub add_lem :
    (a b : Decimal)
    → add a b
      ≡ decimal
          (units a (max a.scale b.scale) +ℤ units b (max a.scale b.scale))
          (max a.scale b.scale)
unfolding add
add_lem a b =
    let ha : a.scale ≤ max a.scale b.scale = omega arith in
    let hb : b.scale ≤ max a.scale b.scale = omega arith in
    rw (rescale_up a _ ha, rescale_up b _ hb) refl

pub subtract_lem :
    (a b : Decimal)
    → subtract a b
      ≡ decimal
          (units a (max a.scale b.scale) -ℤ units b (max a.scale b.scale))
          (max a.scale b.scale)
unfolding subtract
subtract_lem a b =
    let ha : a.scale ≤ max a.scale b.scale = omega arith in
    let hb : b.scale ≤ max a.scale b.scale = omega arith in
    rw (rescale_up a _ ha, rescale_up b _ hb) refl

pub add_scale : (a b : Decimal) → (add a b).scale ≡ max a.scale b.scale
add_scale a b = ap (λ (d : Decimal). d.scale) (add_lem a b)

pub subtract_scale : (a b : Decimal) → (subtract a b).scale ≡ max a.scale b.scale
subtract_scale a b = ap (λ (d : Decimal). d.scale) (subtract_lem a b)

pub units-add :
    (a b : Decimal) (s : ℕ) → a.scale ≤ s → b.scale ≤ s → units (add a b) s ≡ units a s +ℤ units b s
units-add a b s ha hb =
    let m = max a.scale b.scale in
    rw
      (
        add_lem,
        +ℤ-*ℤ,
        units_step a m s (omega arith) (omega arith),
        units_step b m s (omega arith) (omega arith),
      )
      refl

pub units-subtract :
    (a b : Decimal) (s : ℕ)
    → a.scale ≤ s
    → b.scale ≤ s
    → units (subtract a b) s ≡ units a s -ℤ units b s
units-subtract a b s ha hb =
    let m = max a.scale b.scale in
    rw
      (
        subtract_lem,
        -ℤ-*ℤ,
        units_step a m s (omega arith) (omega arith),
        units_step b m s (omega arith) (omega arith),
      )
      refl

-- The finest scale among the amounts, and at least that of money.
abbrev pub finest : List Decimal → ℕ
finest [] = 2
finest (d ∷ ds) = max d.scale (finest ds)

-- The integer sum of the amounts, counted in units of the scale `s`.
abbrev pub total : List Decimal → ℕ → ℤ
total [] s = pos 0
total (d ∷ ds) s = units d s +ℤ total ds s

two-le-finest : (ds : List Decimal) → 2 ≤ finest ds
two-le-finest [] = omega arith
two-le-finest (d ∷ ds) = omega (arith, two-le-finest ds)

scale-sum_from :
    (acc : Decimal) (ds : List Decimal)
    → 2 ≤ acc.scale
    → (sum_from acc ds).scale ≡ max acc.scale (finest ds)
unfolding sum_from
scale-sum_from acc [] h = omega arith
scale-sum_from acc (d ∷ ds) h =
    let e : (add acc d).scale ≡ max acc.scale d.scale = add_scale acc d in
    omega (arith, scale-sum_from (add acc d) ds (omega arith))

units-sum_from :
    (acc : Decimal) (ds : List Decimal) (s : ℕ)
    → acc.scale ≤ s
    → finest ds ≤ s
    → units (sum_from acc ds) s ≡ units acc s +ℤ total ds s
unfolding sum_from
units-sum_from acc [] s h k = omega int_laws
units-sum_from acc (d ∷ ds) s h k =
    let e : (add acc d).scale ≡ max acc.scale d.scale = add_scale acc d in
    rw
      (
        units-sum_from (add acc d) ds s (omega arith) (omega arith),
        units-add acc d s (omega arith) (omega arith),
        +ℤ_assoc,
      )
      refl

sum_scale : (ds : List Decimal) → (sum ds).scale ≡ finest ds
unfolding sum
sum_scale ds = omega (arith, scale-sum_from (decimal (pos 0) 2) ds (omega arith), two-le-finest ds)

-- The sum of amounts has the finest scale among them, and its value is the exact integer sum of
-- the amounts in units of that scale.
pub sum-eq-total : (ds : List Decimal) → sum ds ≡ decimal (total ds (finest ds)) (finest ds)
unfolding sum
sum-eq-total ds =
    let start = decimal (pos 0) 2 in
    let two : 2 ≤ finest ds = two-le-finest ds in
    decimal-eq
      (sym (units_self (sum ds) (finest ds) (omega (arith, sum_scale ds)))
        ∙ units-sum_from start ds (finest ds) two (le_refl (finest ds))
        ∙ omega int_laws)
      (sum_scale ds)

finest_permᴰ : {xs ys : List Decimal} → Permᴰ xs ys → finest xs ≡ finest ys
finest_permᴰ Permᴰ.nil = refl
finest_permᴰ (Permᴰ.cons e p) = rw e (omega (arith, finest_permᴰ p))
finest_permᴰ (Permᴰ.swap e f) = rw (e, f) (omega arith)
finest_permᴰ (Permᴰ.trans p q) = finest_permᴰ p ∙ finest_permᴰ q

total_permᴰ : {xs ys : List Decimal} (s : ℕ) → Permᴰ xs ys → total xs s ≡ total ys s
total_permᴰ s Permᴰ.nil = refl
total_permᴰ s (Permᴰ.cons e p) = ap₂ (λ a b. units a s +ℤ b) e (total_permᴰ s p)
total_permᴰ s (Permᴰ.swap e f) = rw (e, f) (omega int_laws)
total_permᴰ s (Permᴰ.trans p q) = total_permᴰ s p ∙ total_permᴰ s q

pub Decimal-set : IsSet Decimal
Decimal-set = hlevel

-- The sum does not depend on the order of the amounts: not its value, and not its scale.
pub sum-perm : (xs ys : List Decimal) → Perm xs ys → sum xs ≡ sum ys
sum-perm xs ys p = ∥∥₁_elim p (Decimal-set (sum xs) (sum ys)) λ q.
    sum-eq-total xs
    ∙ decimal-eq (ap (total xs) (finest_permᴰ q) ∙ total_permᴰ (finest ys) q) (finest_permᴰ q)
    ∙ sym (sum-eq-total ys)

zero-units : (k : ℕ) → pos 0 *ℤ pos k ≡ pos 0
zero-units k = omega int_laws

-- A zero amount of scale 0 changes nothing.
pub add-zero_decimal : (d : Decimal) → add d zero_decimal ≡ d
add-zero_decimal d =
    add_lem d zero_decimal
    ∙ decimal-eq
        (ap₂ ◌+ℤ◌ (units_self d (max d.scale 0) (omega arith))
            (zero-units (pow10 (max d.scale 0 - 0)))
          ∙ +ℤ_comm d.value (pos 0)
          ∙ zero-+ℤ d.value)
        (omega arith)

pub subtract-zero_decimal : (d : Decimal) → subtract d zero_decimal ≡ d
subtract-zero_decimal d =
    subtract_lem d zero_decimal
    ∙ decimal-eq
        (ap₂ ◌-ℤ◌ (units_self d (max d.scale 0) (omega arith))
            (zero-units (pow10 (max d.scale 0 - 0)))
          ∙ omega int_laws)
        (omega arith)
