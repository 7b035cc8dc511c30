-- ===== src/DraftCheck/Coherent.antt =====
-- packages/facturx/src/generate/check-draft.ts: the VAT of the lines of a draft without errors.
use validateur_facturx.Common.{
  ℕ, ◌+◌, ◌≡◌, refl, sym, ◌∙◌, ap, arith, Bool, true, false, List, [], ◌∷◌, ◌++◌, Option, some, All,
  if◌then◌else◌, Bool-cases, Option-cases, inl, inr,
}
use validateur_facturx.Common.Text.{Text, codes, includes, text_eq}
use validateur_facturx.Money.{Decimal, compare, is_zero, zero_decimal}
use validateur_facturx.Money.Literal.{parse_decimal}
use validateur_facturx.Invoice.Draft.{
  DraftLine, vat_categories, zero_rated_categories, reason_required_categories,
}
use validateur_facturx.Money.Digits.{to_string}
use validateur_facturx.DraftCheck.Issues.{DraftIssue, error, issue, has_errors, is_missing}
use validateur_facturx.DraftCheck.Lines.{
  is_positive, check_each_line, check_line, check_labels, check_quantity, check_unit_price,
  check_vat_fields, check_vat_coherence, check_zero_rate, check_reason, check_no_reason,
  check_standard_rate,
}

-- A list of problems holds no error when neither of its halves does.
pub no_errors-append :
    (xs ys : List DraftIssue)
    → has_errors (xs ++ ys) ≡ false
    → (has_errors xs ≡ false) × (has_errors ys ≡ false)
unfolding has_errors
no_errors-append [] ys h = (refl, h)
no_errors-append (x ∷ xs) ys h = ground (arith, no_errors-append xs ys)

-- VAT that is coherent with its category: the standard rate is positive, the other rates are zero, and
-- a category that needs a reason has one.
pub record IsCoherent (line : DraftLine) : Type 0 where
  pub known : includes vat_categories line.vat_category ≡ true
  pub rate : Decimal
  pub read : parse_decimal (some line.vat_rate_percent) ≡ some rate
  pub standard :
      text_eq line.vat_category (codes "S") ≡ true → is_positive (compare rate zero_decimal) ≡ true
  pub zero_rate : includes zero_rated_categories line.vat_category ≡ true → is_zero rate ≡ true
  pub reason :
      includes reason_required_categories line.vat_category ≡ true
      → is_missing line.exemption_reason ≡ false

-- A check that reports an error under a test, and reports none, did not see its test pass.
pub guard_off :
    (test : Bool) (field message : Text) (rule_id : Option Text) (rest : List DraftIssue)
    → has_errors (if test then issue field error message rule_id else rest) ≡ false
    → (test ≡ false) × (has_errors rest ≡ false)
unfolding has_errors
guard_off true field message rule_id rest h = absurd cc
guard_off false field message rule_id rest h = (refl, h)

zero_rate_ok :
    (category : Text) (rate : Decimal) (at human : Text)
    → has_errors (check_zero_rate category rate at human) ≡ false
    → includes zero_rated_categories category ≡ true
    → is_zero rate ≡ true
unfolding check_zero_rate
zero_rate_ok category rate at human h k =
    let off = (guard_off _ _ _ _ [] h).0 in ground (arith, off, k)

reason_ok :
    (category : Text) (reason : Option Text) (at human : Text)
    → has_errors (check_reason category reason at human) ≡ false
    → includes reason_required_categories category ≡ true
    → is_missing reason ≡ false
unfolding check_reason
reason_ok category reason at human h k =
    let off = (guard_off _ _ _ _ [] h).0 in ground (arith, off, k)

standard_rate_ok :
    (category : Text) (rate : Decimal) (at human : Text)
    → has_errors (check_standard_rate category rate at human) ≡ false
    → text_eq category (codes "S") ≡ true
    → is_positive (compare rate zero_decimal) ≡ true
unfolding has_errors check_standard_rate
standard_rate_ok category rate at human h k =
    elim (Bool-cases (is_positive (compare rate zero_decimal))) [
      | inl e ↦ e
      | inr e ↦
          let bad : has_errors (check_standard_rate category rate at human) ≡ true =
            rw (k, e) refl in
          absurd cc
    ]

vat_fields_accepted :
    (line : DraftLine) (at human : Text)
    → has_errors (check_vat_fields line at human) ≡ false
    → (rate : Decimal) × (includes vat_categories line.vat_category ≡ true)
      × (parse_decimal (some line.vat_rate_percent) ≡ some rate)
      × (has_errors (check_vat_coherence line.vat_category rate line.exemption_reason at human)
          ≡ false)
unfolding has_errors check_vat_fields
vat_fields_accepted line at human h =
    elim (Bool-cases (includes vat_categories line.vat_category)) [
      | inr e ↦
          let bad : has_errors (check_vat_fields line at human) ≡ true = rw e refl in absurd cc
      | inl e ↦ elim (Option-cases (parse_decimal (some line.vat_rate_percent))) [
        | inl p ↦
            let bad : has_errors (check_vat_fields line at human) ≡ true = rw (e, p) refl in
            absurd cc
        | inr (rate, p) ↦
            let reached : check_vat_fields line at human
                ≡ check_vat_coherence line.vat_category rate line.exemption_reason at human =
              rw (e, p) refl in
            (rate, e, p, ap has_errors (sym reached) ∙ h)
      ]
    ]

line-IsCoherent :
    (line : DraftLine) (at human : Text)
    → has_errors (check_vat_fields line at human) ≡ false
    → IsCoherent line
unfolding check_vat_coherence
line-IsCoherent line at human h =
    let (rate, known, read, quiet) = vat_fields_accepted line at human h in
    let (h0, h1) = no_errors-append (check_zero_rate line.vat_category rate at human) _ quiet in
    let (h2, h3) =
      no_errors-append (check_reason line.vat_category line.exemption_reason at human) _ h1 in
    let (h4, h5) =
      no_errors-append (check_no_reason line.vat_category line.exemption_reason at human) _ h3 in
    record {
      known = known;
      rate = rate;
      read = read;
      standard = standard_rate_ok _ rate at human h5;
      zero_rate = zero_rate_ok _ rate at human h0;
      reason = reason_ok _ _ at human h2;
    }

pub lines-IsCoherent :
    (lines : List DraftLine) (index : ℕ)
    → has_errors (check_each_line lines index) ≡ false
    → All IsCoherent lines
unfolding check_each_line check_line
lines-IsCoherent [] index h = tt
lines-IsCoherent (line ∷ lines) index h =
    let at = codes "lines." ++ to_string index in
    let human = codes "Ligne " ++ to_string (index + 1) in
    let (first, rest) = no_errors-append (check_line line index) _ h in
    let (h0, h1) = no_errors-append (check_labels line at human) _ first in
    let (h2, h3) = no_errors-append (check_quantity line.quantity at human) _ h1 in
    let (h4, h5) = no_errors-append (check_unit_price line.unit_price at human) _ h3 in
    (line-IsCoherent line at human h5, lines-IsCoherent lines (index + 1) rest)
