-- ===== src/Checks/Suspects.antt =====
-- packages/facturx/src/checks.ts: which lines are named for a wrong line total, and how.
use mathlib.Core.List.{map-append}
use validateur_facturx.Common.{
  ℕ, ◌+◌, ◌≡◌, ◌≢◌, refl, ap, ap₂, ◌∙◌, sym, arith, Bool, true, false, Bool-cases, inl, inr, List,
  [], ◌∷◌, ◌++◌, map, keep, length, get_elem?, All, Option, none, some,
}
use validateur_facturx.Common.Int.{◌-ℤ◌, int_laws}
use validateur_facturx.Money.{Decimal, decimal, sum, subtract, abs, is_zero}
use validateur_facturx.Cii.{CiiInvoice, CiiLine}
use validateur_facturx.Invoice.Cents.{
  IsCents, cents, sum-cents, cents-append, subtract-cents, Cents-append,
}
use validateur_facturx.Checks.{
  present, matches_gap, line_name, name_lines, suspects_for, suspect_lines_for_line_total,
}
use validateur_facturx.Checks.Generated.{equals_at_monetary_self}

present-append : (xs ys : List (Option Decimal)) → present (xs ++ ys) ≡ present xs ++ present ys
present-append [] ys = refl
present-append (none ∷ xs) ys = present-append xs ys
present-append (some x ∷ xs) ys = ap (λ r. x ∷ r) (present-append xs ys)

keep-append :
    (p : CiiLine → Bool) (xs ys : List CiiLine) → keep p (xs ++ ys) ≡ keep p xs ++ keep p ys
keep-append p [] ys = refl
keep-append p (x ∷ xs) ys = elim (Bool-cases (p x)) [
  | inl kept ↦ rw kept (ap (λ r. x ∷ r) (keep-append p xs ys))
  | inr left ↦ rw left (keep-append p xs ys)
]

name_lines-at :
    (xs ys : List CiiLine) (line : CiiLine) (index : ℕ)
    → get_elem? (name_lines (xs ++ line ∷ ys) index) (length xs)
      ≡ some (line_name line (index + length xs))
unfolding name_lines
name_lines-at [] ys line index = ap (λ k. some (line_name line k)) (omega arith)
name_lines-at (x ∷ xs) ys line index =
    name_lines-at xs ys line (index + 1) ∙ ap (λ k. some (line_name line k)) (omega arith)

-- The amounts that the lines state.
abbrev pub amounts : List CiiLine → List Decimal
amounts lines = present (map (λ l. l.net_amount) lines)

amounts-append : (xs ys : List CiiLine) → amounts (xs ++ ys) ≡ amounts xs ++ amounts ys
amounts-append xs ys =
    ap present (map-append _ xs ys)
    ∙ present-append (map (λ l. l.net_amount) xs) (map (λ l. l.net_amount) ys)

-- The gap between the sum of all the lines and a declared total that leaves one line out.
gap_lem :
    (before behind : List CiiLine) (line : CiiLine) (a : Decimal)
    → line.net_amount ≡ some a
    → IsCents a
    → All IsCents (amounts before)
    → All IsCents (amounts behind)
    → subtract (sum (amounts (before ++ line ∷ behind))) (sum (amounts before ++ amounts behind))
      ≡ a
gap_lem before behind line a h p hb ha =
    let xs = amounts before in
    let ys = amounts behind in
    let split : amounts (before ++ line ∷ behind) ≡ xs ++ a ∷ ys =
      amounts-append before (line ∷ behind)
      ∙ ap (λ o. xs ++ present (o ∷ map (λ l. l.net_amount) behind)) h in
    let all_sum = sum-cents (xs ++ a ∷ ys) (Cents-append xs (a ∷ ys) hb (p, ha)) in
    let declared_sum = sum-cents (xs ++ ys) (Cents-append xs ys hb ha) in
    let value : cents (xs ++ a ∷ ys) -ℤ cents (xs ++ ys) ≡ a.value =
      rw (cents-append xs (a ∷ ys), cents-append xs ys) (omega int_laws) in
    rw (split, all_sum, declared_sum)
      (subtract-cents (decimal (cents (xs ++ a ∷ ys)) 2) (decimal (cents (xs ++ ys)) 2) refl refl
        ∙ ap₂ decimal value (sym p))

matches_gap_self :
    (line : CiiLine) (a : Decimal) → line.net_amount ≡ some a → matches_gap (abs a) line ≡ true
unfolding matches_gap
matches_gap_self line a h = rw h (equals_at_monetary_self (abs a))

suspects_for-named :
    (before behind : List CiiLine) (line : CiiLine) (declared gap : Decimal) (ds : List Decimal)
    → subtract (sum ds) declared ≡ gap
    → ds ≢ []
    → is_zero gap ≡ false
    → matches_gap (abs gap) line ≡ true
    → get_elem?
        (suspects_for declared ds (before ++ line ∷ behind))
        (length (keep (matches_gap (abs gap)) before))
      ≡ some (line_name line (length (keep (matches_gap (abs gap)) before)))
unfolding suspects_for
suspects_for-named before behind line declared gap [] e ne z m = absurd (ne refl)
suspects_for-named before behind line declared gap (d ∷ ds) e ne z m =
    rw (e, z, keep-append (matches_gap (abs gap)) before (line ∷ behind), m)
      (name_lines-at (keep (matches_gap (abs gap)) before) (keep (matches_gap (abs gap)) behind)
          line 0
        ∙ ap (λ k. some (line_name line k)) (omega arith))

append_cons-ne-nil : (xs ys : List Decimal) (a : Decimal) → xs ++ a ∷ ys ≢ []
append_cons-ne-nil [] ys a h = cc
append_cons-ne-nil (x ∷ xs) ys a h = cc

amounts-ne-nil :
    (before behind : List CiiLine) (line : CiiLine) (a : Decimal)
    → line.net_amount ≡ some a
    → amounts (before ++ line ∷ behind) ≢ []
amounts-ne-nil before behind line a h e =
    let split : amounts (before ++ line ∷ behind) ≡ amounts before ++ a ∷ amounts behind =
      amounts-append before (line ∷ behind)
      ∙ ap (λ o. amounts before ++ present (o ∷ map (λ l. l.net_amount) behind)) h in
    append_cons-ne-nil (amounts before) (amounts behind) a (sym split ∙ e)

-- A line left out of the declared total is named, where its amount is not zero: it stands behind the
-- lines before it whose amounts match the gap too. Its identifier or its name is used; a line with
-- neither is numbered by its place among the lines that match, not by its place on the invoice.
pub omitted_line_named :
    (doc : CiiInvoice) (before behind : List CiiLine) (line : CiiLine) (a : Decimal)
    → doc.lines ≡ before ++ line ∷ behind
    → line.net_amount ≡ some a
    → IsCents a
    → is_zero a ≡ false
    → All IsCents (amounts before)
    → All IsCents (amounts behind)
    → doc.totals.line_total_amount ≡ some (sum (amounts before ++ amounts behind))
    → get_elem? (suspect_lines_for_line_total doc) (length (keep (matches_gap (abs a)) before))
      ≡ some (line_name line (length (keep (matches_gap (abs a)) before)))
unfolding suspect_lines_for_line_total
omitted_line_named doc before behind line a e h p z hb ha t =
    rw (t, e)
      (suspects_for-named before behind line (sum (amounts before ++ amounts behind)) a
        (amounts (before ++ line ∷ behind)) (gap_lem before behind line a h p hb ha)
        (amounts-ne-nil before behind line a h) z (matches_gap_self line a h))
