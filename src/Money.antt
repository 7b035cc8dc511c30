-- ===== src/Money.antt =====
-- packages/facturx/src/money.ts: exact decimal amounts as scaled integers.
-- The operations stand here; the laws, the text forms and the tests are in the children.
pub mod Scaling
pub mod Exact
pub mod Rounding
pub mod Order
pub mod Digits
pub mod Literal
pub mod RoundTrip
mod Tests
use validateur_facturx.Common.{
  ℕ, zero, suc, ◌+◌, ◌-◌, ◌*◌, max, Bool, true, false, List, [], ◌∷◌, ltb, leb, ◌==◌, if◌then◌else◌,
}
use validateur_facturx.Common.Int.{ℤ, pos, negsuc, ◌+ℤ◌, ◌-ℤ◌, ◌*ℤ◌, neg, ltb_ℤ, is_neg, tdiv, tmod}

-- `value` is the decimal shifted left by `scale` digits.
pub record Decimal : Type 0 where
  pub value : ℤ
  pub scale : ℕ

abbrev pub monetary_scale : ℕ
monetary_scale = 2

abbrev pub decimal : ℤ → ℕ → Decimal
decimal value scale = record { value = value; scale = scale }

abbrev pub zero_decimal : Decimal
zero_decimal = decimal (pos 0) 0

-- The loop of `pow10`; the result is a positive `bigint`.
unfoldable pub pow10 : ℕ → ℕ
pow10 zero = 1
pow10 (suc n) = pow10 n * 10

-- The branch of `rescale` that lowers the scale, with `divisor` the power of ten dropped:
-- `bigint` division truncates, and a remainder of at least half moves the quotient away from zero.
unfoldable pub round_div : ℤ → ℕ → ℤ
round_div value divisor =
    let quotient = tdiv value divisor in
    let remainder = tmod value divisor in
    let magnitude = if is_neg remainder then neg remainder else remainder in
    let twice = magnitude *ℤ pos 2 in
    if ltb_ℤ twice (pos divisor)
    then quotient
    else quotient +ℤ (if is_neg value then negsuc 0 else pos 1)

unfoldable pub rescale : Decimal → ℕ → Decimal
rescale d scale =
    if d.scale == scale
    then d
    else if ltb d.scale scale
    then decimal (d.value *ℤ pos (pow10 (scale - d.scale))) scale
    else decimal (round_div d.value (pow10 (d.scale - scale))) scale

-- `align` yields both values and their common scale.
unfoldable pub align : Decimal → Decimal → ℤ × ℤ × ℕ
align a b =
    let scale = max a.scale b.scale in ((rescale a scale).value, (rescale b scale).value, scale)

unfoldable pub add : Decimal → Decimal → Decimal
unfolding align
add a b = let (x, y, scale) = align a b in decimal (x +ℤ y) scale

unfoldable pub subtract : Decimal → Decimal → Decimal
unfolding align
subtract a b = let (x, y, scale) = align a b in decimal (x -ℤ y) scale

unfoldable pub multiply : Decimal → Decimal → Decimal
multiply a b = decimal (a.value *ℤ b.value) (a.scale + b.scale)

-- `reduce` with its accumulator
unfoldable pub sum_from : Decimal → List Decimal → Decimal
sum_from acc [] = acc
sum_from acc (value ∷ values) = sum_from (add acc value) values

unfoldable pub sum : List Decimal → Decimal
unfolding sum_from
sum values = sum_from (decimal (pos 0) monetary_scale) values

-- -1, 0 or 1
unfoldable pub compare : Decimal → Decimal → ℤ
unfolding align
compare a b =
    let (x, y, _) = align a b in if ltb_ℤ x y then negsuc 0 else if ltb_ℤ y x then pos 1 else pos 0

abbrev pub is_zero_ℤ : ℤ → Bool
is_zero_ℤ (pos n) = n == 0
is_zero_ℤ (negsuc n) = false

unfoldable pub equals : Decimal → Decimal → Bool
unfolding compare
equals a b = is_zero_ℤ (compare a b)

unfoldable pub is_zero : Decimal → Bool
is_zero d = is_zero_ℤ d.value

unfoldable pub negate : Decimal → Decimal
negate d = decimal (neg d.value) d.scale

unfoldable pub abs : Decimal → Decimal
unfolding negate
abs d = if is_neg d.value then negate d else d

unfoldable pub equals_at_monetary_scale : Decimal → Decimal → Bool
unfolding equals rescale
equals_at_monetary_scale a b = equals (rescale a monetary_scale) (rescale b monetary_scale)
