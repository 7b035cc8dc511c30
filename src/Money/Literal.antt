-- ===== src/Money/Literal.antt =====
-- packages/facturx/src/money.ts: `parseDecimal`, `format` and `formatFrench`.
use validateur_facturx.Common.{
  ℕ, ◌+◌, ◌-◌, ◌%◌, Bool, true, false, ◌&&◌, ◌||◌, not, [], ◌∷◌, ◌++◌, ◌==◌, if◌then◌else◌, all,
  length, take, drop, Option, none, some,
}
use validateur_facturx.Common.Int.{ℤ, pos, neg, nat_abs, is_neg}
use validateur_facturx.Common.Text.{Text, codes, is_digit, text_eq, trim, pad_start}
use validateur_facturx.Money.{Decimal, decimal, monetary_scale, rescale}
use validateur_facturx.Money.Digits.{to_string, value_from}

abbrev pub is_empty : Text → Bool
is_empty [] = true
is_empty (c ∷ s) = false

-- `indexOf('.')` with both slices: what stands before the first dot, and behind it if there is one.
unfoldable pub split_dot : Text → Text × Option Text
split_dot [] = ([], none)
split_dot (c ∷ s) =
    let (before, behind) = split_dot s in if c == b'.' then ([], some s) else (c ∷ before, behind)

-- `replace(/^[+-]/, '')`
unfoldable pub strip_sign : Text → Text
strip_sign [] = []
strip_sign (c ∷ s) = if c == b'+' || c == b'-' then s else c ∷ s

-- `\d+(\.\d*)?` or `\.\d+`, given the two sides of the first dot
unfoldable pub matches_unsigned : Text → Option Text → Bool
matches_unsigned before none = all is_digit before && not (is_empty before)
matches_unsigned before (some behind) =
    all is_digit before && all is_digit behind && not (is_empty before && is_empty behind)

-- `DECIMAL_PATTERN.test`
unfoldable pub matches_decimal : Text → Bool
unfolding matches_unsigned split_dot strip_sign
matches_decimal s =
    let (before, behind) = split_dot (strip_sign s) in matches_unsigned before behind

abbrev pub starts_negative : Text → Bool
starts_negative [] = false
starts_negative (c ∷ s) = c == b'-'

-- The value behind a sign that was read.
abbrev pub signed : Bool → ℕ → ℤ
signed negative value = if negative then neg (pos value) else pos value

-- An unsigned text that matches the pattern, cut at its dot.
unfoldable pub assemble : Bool → Text → Option Text → Decimal
assemble negative before none = decimal (signed negative (value_from 0 before)) 0
assemble negative before (some behind) =
    decimal (signed negative (value_from 0 (before ++ behind))) (length behind)

unfoldable pub parse_trimmed : Text → Option Decimal
unfolding matches_decimal assemble
parse_trimmed trimmed =
    let (before, behind) = split_dot (strip_sign trimmed) in
    if is_empty trimmed || not (matches_decimal trimmed)
    then none
    else some (assemble (starts_negative trimmed) before behind)

-- `null` and `undefined` are `none`.
unfoldable pub parse_decimal : Option Text → Option Decimal
unfolding parse_trimmed trim
parse_decimal none = none
parse_decimal (some raw) = parse_trimmed (trim raw)

abbrev pub sign_text : Bool → Text
sign_text negative = if negative then b'-' ∷ [] else []

-- The digits of an amount with its point.
unfoldable pub point : Text → ℕ → Text
point digits scale =
    if scale == 0
    then digits
    else take (length digits - scale) digits ++ b'.' ∷ drop (length digits - scale) digits

unfoldable pub format : Decimal → Text
unfolding to_string point
format d =
    let digits = pad_start (d.scale + 1) b'0' (to_string (nat_abs d.value)) in
    sign_text (is_neg d.value) ++ point digits d.scale

-- The thousands separator, a narrow no-break space (U+202F).
abbrev pub thin_space : ℕ
thin_space = 0x202f

-- `replace(/\B(?=(\d{3})+(?!\d))/g, sep)` behind the first digit: a separator stands wherever the
-- digits that are left come in threes.
unfoldable pub group_tail : Text → Text
group_tail [] = []
group_tail (c ∷ s) =
    if length (c ∷ s) % 3 == 0 then thin_space ∷ c ∷ group_tail s else c ∷ group_tail s

unfoldable pub group_digits : Text → Text
unfolding group_tail
group_digits [] = []
group_digits (c ∷ s) = c ∷ group_tail s

-- The symbol behind the amount; an empty currency counts as none.
unfoldable pub currency_suffix : Option Text → Text
currency_suffix none = []
currency_suffix (some []) = []
currency_suffix (some (c ∷ s)) = 0xa0 ∷ (if text_eq (c ∷ s) (codes "EUR") then codes "€" else c ∷ s)

-- `split('.')` of a plain form with two decimals, and the default of an absent fraction.
unfoldable pub french_parts : Text → Text
unfolding split_dot group_digits
french_parts plain =
    let (integer, fraction) = split_dot plain in
    group_digits integer ++ b',' ∷ elim fraction [ none ↦ codes "00" | some f ↦ f ]

unfoldable pub format_french : Decimal → Option Text → Text
unfolding format french_parts currency_suffix rescale
format_french d currency =
    let plain = format (rescale d monetary_scale) in
    let negative = starts_negative plain in
    sign_text negative
    ++ (french_parts (if negative then drop 1 plain else plain) ++ currency_suffix currency)
