-- ===== src/Money/Tests.antt =====
-- Runs of packages/facturx/src/money.ts, and the theorems at concrete amounts.
use mathlib.Core.List.Perm
use validateur_facturx.Common.{◌-◌, ◌≡◌, ◌↔◌, refl, arith, true, List, [], ◌∷◌, none, some}
use validateur_facturx.Common.Int.{pos, negsuc, ◌+ℤ◌, ◌*ℤ◌}
use validateur_facturx.Common.Text.{codes}
use validateur_facturx.Money.{
  Decimal, decimal, pow10, round_div, rescale, add, subtract, sum, compare, equals,
}
use validateur_facturx.Money.Exact.{finest, total, sum-eq-total, sum-perm}
use validateur_facturx.Money.Rounding.{IsRounded, rescale_iff}
use validateur_facturx.Money.Order.{order, cross, sign, compare_sound, equals_iff}
use validateur_facturx.Money.Literal.{parse_decimal, format, format_french}
use validateur_facturx.Money.RoundTrip.{parse_decimal-format}

-- 2.345 and -2.345 go to 2.35 and -2.35.
half_up : rescale (decimal (pos 2345) 3) 2 ≡ decimal (pos 235) 2
unfolding rescale round_div pow10 ◌*ℤ◌ ◌+ℤ◌
half_up = refl

half_down : rescale (decimal (negsuc 2344) 3) 2 ≡ decimal (negsuc 234) 2
unfolding rescale round_div pow10 ◌*ℤ◌ ◌+ℤ◌
half_down = refl

sum_mixed : sum (decimal (pos 1) 1 ∷ decimal (pos 25) 3 ∷ []) ≡ decimal (pos 125) 3
unfolding sum add rescale pow10 ◌*ℤ◌ ◌+ℤ◌
sum_mixed = refl

sum_nothing : sum [] ≡ decimal (pos 0) 2
unfolding sum
sum_nothing = refl

parse_sign : parse_decimal (some (codes " -12.50 ")) ≡ some (decimal (negsuc 1249) 2)
unfolding parse_decimal
parse_sign = refl

parse_trailing : parse_decimal (some (codes "7.")) ≡ some (decimal (pos 7) 0)
unfolding parse_decimal
parse_trailing = refl

parse_refused : parse_decimal (some (codes "1,5")) ≡ none
unfolding parse_decimal
parse_refused = refl

format_padded : format (decimal (negsuc 4) 2) ≡ codes "-0.05"
unfolding format
format_padded = refl

french :
    format_french (decimal (pos 1234567) 2) (some (codes "EUR")) ≡ codes "12\u{202f}345,67\u{a0}€"
unfolding format_french round_div pow10
french = refl

rescale_iff_example :
    (rescale (decimal (negsuc 2344) 3) 2 ≡ decimal (negsuc 234) 2)
    ↔ IsRounded (negsuc 2344) (pow10 (3 - 2)) (negsuc 234)
rescale_iff_example = rescale_iff (decimal (negsuc 2344) 3) 2 (negsuc 234) (omega arith)

equals_iff_example : (equals (decimal (pos 10) 1) (decimal (pos 1) 0) ≡ true) ↔ (
    cross (decimal (pos 10) 1) (decimal (pos 1) 0) ≡ cross (decimal (pos 1) 0) (decimal (pos 10) 1))
equals_iff_example = equals_iff (decimal (pos 10) 1) (decimal (pos 1) 0)

abbrev two_amounts : List Decimal
two_amounts = decimal (pos 1) 1 ∷ decimal (pos 25) 3 ∷ []

sum-eq-total_example :
    sum two_amounts ≡ decimal (total two_amounts (finest two_amounts)) (finest two_amounts)
sum-eq-total_example = sum-eq-total two_amounts

sum-perm_example : sum two_amounts ≡ sum (decimal (pos 25) 3 ∷ decimal (pos 1) 1 ∷ [])
sum-perm_example =
    sum-perm two_amounts (decimal (pos 25) 3 ∷ decimal (pos 1) 1 ∷ []) (Perm.swap _ _ [])

compare_sound_example :
    (compare (decimal (pos 10) 1) (decimal (pos 1) 0)
      ≡ order
          (cross (decimal (pos 10) 1) (decimal (pos 1) 0))
          (cross (decimal (pos 1) 0) (decimal (pos 10) 1)))
    × (compare (decimal (pos 10) 1) (decimal (pos 1) 0)
        ≡ sign (subtract (decimal (pos 10) 1) (decimal (pos 1) 0)).value)
compare_sound_example = compare_sound (decimal (pos 10) 1) (decimal (pos 1) 0)

parse_decimal-format_example :
    parse_decimal (some (format (decimal (negsuc 4) 2))) ≡ some (decimal (negsuc 4) 2)
parse_decimal-format_example = parse_decimal-format (decimal (negsuc 4) 2)
