-- ===== src/DraftCheck/Ready.antt =====
-- packages/facturx/src/generate/check-draft.ts: what a draft without errors is.
use validateur_facturx.Common.{
  ◌≤◌, ◌%◌, take, drop, ◌≡◌, refl, sym, ◌∙◌, ap, arith, true, false, not, [], ◌++◌, Option, none,
  some, Result, ok, err, ◌||◌, All, get_or, Bool-cases, inl, inr,
}
use validateur_facturx.Common.Text.{Text, codes, text_lt, truthy, includes}
use validateur_facturx.Money.{compare, zero_decimal}
use validateur_facturx.Invoice.Draft.{InvoiceDraft, draft_type_codes}
use validateur_facturx.Invoice.Compute.{ComputedInvoice, ComputedTotals, compute_invoice}
use validateur_facturx.DraftCheck.Coherent.{
  IsCoherent, no_errors-append, guard_off, lines-IsCoherent,
}
use validateur_facturx.DraftCheck.Issues.{has_errors, is_missing}
use validateur_facturx.DraftCheck.Dates.{is_real_date, is_iso_date, year_of, month_of, day_of}
use validateur_facturx.DraftCheck.Iban.{is_valid_iban, iban_remainder, normalise_iban}
use validateur_facturx.DraftCheck.DateOrder.{day_number, not_before}
use validateur_facturx.DraftCheck.Calendar.{is_real_date_iff, IsCivil}
use validateur_facturx.DraftCheck.Mod97.{iban_remainder-value, expand}
use validateur_facturx.Money.Digits.{value_from}
use validateur_facturx.DraftCheck.Header.{
  check_header, check_number, check_issue_date, check_due_date, check_delivery_date,
  check_type_code, check_currency, check_iban,
}
use validateur_facturx.DraftCheck.Party.{seller, buyer, check_party}
use validateur_facturx.DraftCheck.Lines.{check_lines, is_positive, check_each_line, is_empty_list}
use validateur_facturx.DraftCheck.Whole.{
  check_draft, check_fields, check_amounts, check_due, check_prepaid, all_issues,
}

-- A day of the calendar, from the year 100 on, written as AAAA-MM-JJ.
abbrev pub IsDate : Text → Type 0
IsDate s = (is_iso_date s ≡ true) × (100 ≤ year_of s) × IsCivil (year_of s) (month_of s) (day_of s)

-- An IBAN is right when its characters, the first four moved to the end and each letter as its two
-- digits, are a number that is 1 modulo 97.
abbrev pub HasIbanKey : Text → Type 0
HasIbanKey iban = value_from 0 (expand (drop 4 iban ++ take 4 iban)) % 97 ≡ 1

pub record IsReady (draft : InvoiceDraft) (inv : ComputedInvoice) : Type 0 where
  pub computed : compute_invoice draft ≡ ok inv
  pub some_line : is_empty_list draft.lines ≡ false
  pub coherent : All IsCoherent draft.lines
  pub issue_date : IsDate draft.issue_date
  pub due_date :
      truthy draft.due_date ≡ true
      → IsDate (get_or [] draft.due_date)
        × (day_number draft.issue_date ≤ day_number (get_or [] draft.due_date))
  pub delivery_date : truthy draft.delivery_date ≡ true → IsDate (get_or [] draft.delivery_date)
  pub type_code :
      truthy draft.type_code ≡ true → includes draft_type_codes (get_or [] draft.type_code) ≡ true
  pub iban : truthy draft.iban ≡ true → HasIbanKey (normalise_iban (get_or [] draft.iban))
  pub terms :
      is_positive (compare inv.totals.due_payable_amount zero_decimal) ≡ true
      → truthy draft.due_date || truthy draft.payment_terms ≡ true
  pub prepaid :
      is_positive (compare inv.totals.prepaid_amount inv.totals.grand_total_amount) ≡ false

issue_date_ok :
    (date : Text) → has_errors (check_issue_date date) ≡ false → is_real_date date ≡ true
unfolding check_issue_date
issue_date_ok date h =
    let off = (guard_off (is_missing (some date)) _ _ _ _ h).1 in
    let real = (guard_off (not (is_real_date date)) _ _ _ [] off).0 in ground (arith, real)

due-IsDate_ok :
    (due : Option Text) (date : Text)
    → has_errors (check_due_date due date) ≡ false
    → is_real_date date ≡ true
    → truthy due ≡ true
    → IsDate (get_or [] due) × (day_number date ≤ day_number (get_or [] due))
unfolding has_errors check_due_date
due-IsDate_ok none date h real k = absurd cc
due-IsDate_ok (some due) date h real k = elim (Bool-cases (is_real_date due)) [
  | inr e ↦
      let bad : has_errors (check_due_date (some due) date) ≡ true = rw (k, e) refl in absurd cc
  | inl e ↦ elim (Bool-cases (text_lt due date)) [
    | inl l ↦
        let bad : has_errors (check_due_date (some due) date) ≡ true = rw (k, e, real, l) refl in
        absurd cc
    | inr l ↦
        let due_day = (is_real_date_iff due).0 e in
        let issue_day = (is_real_date_iff date).0 real in
        (due_day, not_before due date due_day.0 issue_day.0 l)
  ]
]

delivery-IsDate_ok :
    (date : Option Text)
    → has_errors (check_delivery_date date) ≡ false
    → truthy date ≡ true
    → IsDate (get_or [] date)
unfolding check_delivery_date
delivery-IsDate_ok none h k = absurd cc
delivery-IsDate_ok (some date) h k =
    let off = (guard_off _ _ _ _ [] h).0 in (is_real_date_iff date).0 (ground (arith, off, k))

type_code_ok :
    (code : Option Text)
    → has_errors (check_type_code code) ≡ false
    → truthy code ≡ true
    → includes draft_type_codes (get_or [] code) ≡ true
unfolding check_type_code
type_code_ok none h k = absurd cc
type_code_ok (some code) h k = let off = (guard_off _ _ _ _ [] h).0 in ground (arith, off, k)

iban_ok :
    (iban : Option Text)
    → has_errors (check_iban iban) ≡ false
    → truthy iban ≡ true
    → HasIbanKey (normalise_iban (get_or [] iban))
unfolding check_iban is_valid_iban
iban_ok none h k = absurd cc
iban_ok (some iban) h k =
    let off = (guard_off _ _ _ _ [] h).0 in
    let key : iban_remainder (normalise_iban iban) ≡ 1 = ground (arith, off, k) in
    sym (iban_remainder-value (normalise_iban iban)) ∙ key

terms_ok :
    (draft : InvoiceDraft) (totals : ComputedTotals)
    → has_errors (check_due draft totals) ≡ false
    → is_positive (compare totals.due_payable_amount zero_decimal) ≡ true
    → truthy draft.due_date || truthy draft.payment_terms ≡ true
unfolding check_due
terms_ok draft totals h k = let off = (guard_off _ _ _ _ [] h).0 in ground (arith, off, k)

prepaid_ok :
    (totals : ComputedTotals)
    → has_errors (check_prepaid totals) ≡ false
    → is_positive (compare totals.prepaid_amount totals.grand_total_amount) ≡ false
unfolding check_prepaid
prepaid_ok totals h = (guard_off _ _ _ _ [] h).0

amounts_ok :
    (draft : InvoiceDraft) (computed : Result Text ComputedInvoice)
    → has_errors (check_amounts draft computed) ≡ false
    → (inv : ComputedInvoice) × (computed ≡ ok inv)
      × (has_errors (check_due draft inv.totals) ≡ false)
      × (has_errors (check_prepaid inv.totals) ≡ false)
unfolding check_amounts
amounts_ok draft (err message) h = let bad = (guard_off true _ _ _ [] h).0 in absurd cc
amounts_ok draft (ok inv) h =
    let (h0, h1) = no_errors-append (check_due draft inv.totals) _ h in (inv, refl, h0, h1)

-- `all_issues` goes on to the amounts once the fields are right.
all_issues_ok :
    (draft : InvoiceDraft)
    → has_errors (all_issues draft) ≡ false
    → (has_errors (check_fields draft) ≡ false)
      × (has_errors (check_amounts draft (compute_invoice draft)) ≡ false)
unfolding all_issues
all_issues_ok draft h = elim (Bool-cases (has_errors (check_fields draft))) [
  | inl e ↦ let all : all_issues draft ≡ check_fields draft = rw e refl in absurd cc
  | inr e ↦
      let all : all_issues draft
          ≡ check_fields draft ++ check_amounts draft (compute_invoice draft) =
        rw e refl in
      no_errors-append _ _ (ap has_errors (sym all) ∙ h)
]

record HeaderOk (draft : InvoiceDraft) : Type 0 where
  issue_date : has_errors (check_issue_date draft.issue_date) ≡ false
  due_date : has_errors (check_due_date draft.due_date draft.issue_date) ≡ false
  delivery_date : has_errors (check_delivery_date draft.delivery_date) ≡ false
  type_code : has_errors (check_type_code draft.type_code) ≡ false
  iban : has_errors (check_iban draft.iban) ≡ false

header_ok : (draft : InvoiceDraft) → has_errors (check_header draft) ≡ false → HeaderOk draft
unfolding check_header
header_ok draft h =
    let (h0, h1) = no_errors-append (check_number draft.invoice_number) _ h in
    let (h2, h3) = no_errors-append (check_issue_date draft.issue_date) _ h1 in
    let (h4, h5) = no_errors-append (check_due_date draft.due_date draft.issue_date) _ h3 in
    let (h6, h7) = no_errors-append (check_delivery_date draft.delivery_date) _ h5 in
    let (h8, h9) = no_errors-append (check_type_code draft.type_code) _ h7 in
    let (h10, h11) = no_errors-append (check_currency (get_or (codes "EUR") draft.currency)) _ h9 in
    let (h12, h13) = no_errors-append (check_iban draft.iban) _ h11 in
    record { issue_date = h2; due_date = h4; delivery_date = h6; type_code = h8; iban = h12 }

fields_ok :
    (draft : InvoiceDraft)
    → has_errors (check_fields draft) ≡ false
    → (has_errors (check_header draft) ≡ false) × (has_errors (check_lines draft) ≡ false)
unfolding check_fields
fields_ok draft h =
    let (h0, h1) = no_errors-append (check_header draft) _ h in
    let (h2, h3) =
      no_errors-append (check_party draft.seller seller (codes "de l'émetteur")) _ h1 in
    let (h4, h5) = no_errors-append (check_party draft.buyer buyer (codes "du client")) _ h3 in
    (h0, h5)

lines_ok :
    (draft : InvoiceDraft)
    → has_errors (check_lines draft) ≡ false
    → (is_empty_list draft.lines ≡ false) × All IsCoherent draft.lines
unfolding check_lines
lines_ok draft h =
    let (some_line, rest) = guard_off (is_empty_list draft.lines) _ _ _ _ h in
    let (each, others) = no_errors-append (check_each_line draft.lines 0) _ rest in
    (some_line, lines-IsCoherent draft.lines 0 each)

-- When the check accepts a draft, its invoice is computed without an error, the draft has a line, the
-- VAT of every line is coherent with its category, the date of issue and a given due date or delivery
-- date are days of the calendar, the due date is not before the date of issue, a given type code is one of
-- those supported, the number that a given IBAN stands for is 1 modulo 97, a positive due amount
-- has a due date or terms of payment, and the prepaid amount is at most the total.
pub check_draft-IsReady :
    (draft : InvoiceDraft)
    → (check_draft draft).is_ok ≡ true
    → (inv : ComputedInvoice) × IsReady draft inv
unfolding check_draft
check_draft-IsReady draft h =
    let (fields, amounts) = all_issues_ok draft (ground arith) in
    let (head, lines) = fields_ok draft fields in
    let header = header_ok draft head in
    let (some_line, coherent) = lines_ok draft lines in
    let (inv, computed, due, prepaid) = amounts_ok draft (compute_invoice draft) amounts in
    let real = issue_date_ok draft.issue_date header.issue_date in
    (
      inv,
      record {
        computed = computed;
        some_line = some_line;
        coherent = coherent;
        issue_date = (is_real_date_iff draft.issue_date).0 real;
        due_date = due-IsDate_ok draft.due_date draft.issue_date header.due_date real;
        delivery_date = delivery-IsDate_ok draft.delivery_date header.delivery_date;
        type_code = type_code_ok draft.type_code header.type_code;
        iban = iban_ok draft.iban header.iban;
        terms = terms_ok draft inv.totals due;
        prepaid = prepaid_ok inv.totals prepaid;
      },
    )
