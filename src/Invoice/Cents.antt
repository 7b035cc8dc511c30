-- ===== src/Invoice/Cents.antt =====
-- packages/facturx/src/generate/compute.ts: sums of amounts in cents, over the lines and over their groups.
use mathlib.Core.List.{map-append}
use validateur_facturx.Common.{
  ◌≡◌, refl, ap, ap₂, ◌∙◌, arith, max, Bool-cases, inl, inr, List, [], ◌∷◌, ◌++◌, map, All,
}
use validateur_facturx.Common.Int.{ℤ, pos, ◌+ℤ◌, ◌-ℤ◌, int_laws}
use validateur_facturx.Common.Text.{text_eq}
use validateur_facturx.Money.{Decimal, decimal, sum, add, subtract}
use validateur_facturx.Money.Scaling.{units_self}
use validateur_facturx.Money.Exact.{finest, total, sum-eq-total, add_lem, subtract_lem}
use validateur_facturx.Invoice.Compute.{
  ComputedLine, Group, key_of, insert_line, group_lines, net_amounts, tax_group,
}

-- An amount of money: two decimals.
abbrev pub IsCents : Decimal → Type 0
IsCents d = d.scale ≡ 2

pub finest_cents : (ds : List Decimal) → All IsCents ds → finest ds ≡ 2
finest_cents [] h = refl
finest_cents (d ∷ ds) (p, h) = omega (arith, finest_cents ds h)

-- The plain integer sum of the values.
abbrev pub cents : List Decimal → ℤ
cents [] = pos 0
cents (d ∷ ds) = d.value +ℤ cents ds

pub total-cents : (ds : List Decimal) → All IsCents ds → total ds 2 ≡ cents ds
total-cents [] h = refl
total-cents (d ∷ ds) (p, h) = ap₂ ◌+ℤ◌ (units_self d 2 (omega arith)) (total-cents ds h)

-- A sum of amounts of money is the integer sum of their values, in cents.
pub sum-cents : (ds : List Decimal) → All IsCents ds → sum ds ≡ decimal (cents ds) 2
sum-cents ds h =
    sum-eq-total ds
    ∙ ap₂ decimal (ap (total ds) (finest_cents ds h) ∙ total-cents ds h) (finest_cents ds h)

pub cents-append : (xs ys : List Decimal) → cents (xs ++ ys) ≡ cents xs +ℤ cents ys
cents-append [] ys = omega int_laws
cents-append (x ∷ xs) ys = rw (cents-append xs ys) (omega int_laws)

-- Every line of a group is an amount of money.
abbrev pub Monetary : List ComputedLine → Type 0
Monetary lines = All IsCents (net_amounts lines)

abbrev pub group_cents : List Group → ℤ
group_cents [] = pos 0
group_cents (g ∷ gs) = cents (net_amounts g.lines) +ℤ group_cents gs

pub insert_line-cents :
    (line : ComputedLine) (gs : List Group)
    → group_cents (insert_line line gs) ≡ group_cents gs +ℤ line.net_amount.value
unfolding insert_line
insert_line-cents line [] = omega int_laws
insert_line-cents line (g ∷ gs) = elim (Bool-cases (text_eq g.key (key_of line))) [
  | inl same ↦ rw (same, map-append, cents-append) (omega int_laws)
  | inr other ↦
      rw other
        (ap (λ t. cents (net_amounts g.lines) +ℤ t) (insert_line-cents line gs) ∙ omega int_laws)
]

pub group_lines-cents :
    (gs : List Group) (lines : List ComputedLine)
    → group_cents (group_lines gs lines) ≡ group_cents gs +ℤ cents (net_amounts lines)
unfolding group_lines
group_lines-cents gs [] = omega int_laws
group_lines-cents gs (line ∷ lines) =
    group_lines-cents (insert_line line gs) lines ∙ rw (insert_line-cents line gs) (omega int_laws)

pub Cents-append : (xs ys : List Decimal) → All IsCents xs → All IsCents ys → All IsCents (xs ++ ys)
Cents-append [] ys h k = k
Cents-append (x ∷ xs) ys (p, h) k = (p, Cents-append xs ys h k)

pub insert_line-Monetary :
    (line : ComputedLine) (gs : List Group)
    → IsCents line.net_amount
    → All (λ g. Monetary g.lines) gs
    → All (λ g. Monetary g.lines) (insert_line line gs)
unfolding insert_line
insert_line-Monetary line [] p h = ((p, tt), tt)
insert_line-Monetary line (g ∷ gs) p (q, h) = elim (Bool-cases (text_eq g.key (key_of line))) [
  | inl same ↦ rw same (rw map-append (Cents-append (net_amounts g.lines) _ q (p, tt)), h)
  | inr other ↦ rw other (q, insert_line-Monetary line gs p h)
]

pub group_lines-Monetary :
    (gs : List Group) (lines : List ComputedLine)
    → Monetary lines
    → All (λ g. Monetary g.lines) gs
    → All (λ g. Monetary g.lines) (group_lines gs lines)
unfolding group_lines
group_lines-Monetary gs [] h k = k
group_lines-Monetary gs (line ∷ lines) (p, h) k =
    group_lines-Monetary (insert_line line gs) lines h (insert_line-Monetary line gs p k)

pub tax_group-basis :
    (g : Group)
    → Monetary g.lines
    → (tax_group g).basis_amount ≡ decimal (cents (net_amounts g.lines)) 2
unfolding tax_group
tax_group-basis g h = sum-cents (net_amounts g.lines) h

pub basis-cents :
    (gs : List Group)
    → All (λ g. Monetary g.lines) gs
    → All IsCents (map (λ t. t.basis_amount) (map tax_group gs))
      × (cents (map (λ t. t.basis_amount) (map tax_group gs)) ≡ group_cents gs)
basis-cents [] h = (tt, refl)
basis-cents (g ∷ gs) (p, h) =
    let e = tax_group-basis g p in
    let (scales, same) = basis-cents gs h in
    ((ap (λ (d : Decimal). d.scale) e, scales), ap₂ (λ (d : Decimal) (t : ℤ). d.value +ℤ t) e same)

pub add-cents : (a b : Decimal) → IsCents a → IsCents b → add a b ≡ decimal (a.value +ℤ b.value) 2
add-cents a b p q =
    add_lem a b
    ∙ ap₂ decimal
        (ap₂ ◌+ℤ◌ (units_self a (max a.scale b.scale) (omega arith))
          (units_self b (max a.scale b.scale) (omega arith)))
        (omega arith)

pub subtract-cents :
    (a b : Decimal) → IsCents a → IsCents b → subtract a b ≡ decimal (a.value -ℤ b.value) 2
subtract-cents a b p q =
    subtract_lem a b
    ∙ ap₂ decimal
        (ap₂ ◌-ℤ◌ (units_self a (max a.scale b.scale) (omega arith))
          (units_self b (max a.scale b.scale) (omega arith)))
        (omega arith)
