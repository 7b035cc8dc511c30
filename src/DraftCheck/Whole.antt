-- ===== src/DraftCheck/Whole.antt =====
-- packages/facturx/src/generate/check-draft.ts: `checkDraft`.
use validateur_facturx.Common.{
  Bool, not, List, [], ◌++◌, none, some, Result, ok, err, ◌&&◌, if◌then◌else◌,
}
use validateur_facturx.Common.Text.{Text, codes, truthy}
use validateur_facturx.Money.{compare, zero_decimal}
use validateur_facturx.Invoice.Draft.{InvoiceDraft}
use validateur_facturx.Invoice.Compute.{ComputedInvoice, ComputedTotals, compute_invoice}
use validateur_facturx.DraftCheck.Issues.{DraftIssue, error, issue, has_errors}
use validateur_facturx.DraftCheck.Header.{check_header}
use validateur_facturx.DraftCheck.Party.{seller, buyer, check_party}
use validateur_facturx.DraftCheck.Lines.{check_lines, is_positive}

pub record DraftCheckResult : Type 0 where
  pub is_ok : Bool
  pub issues : List DraftIssue

unfoldable pub check_due : InvoiceDraft → ComputedTotals → List DraftIssue
check_due draft totals =
    if is_positive (compare totals.due_payable_amount zero_decimal)
      && (not (truthy draft.due_date) && not (truthy draft.payment_terms))
    then issue (codes "dueDate") error
        (codes
          "Un montant restant dû est facturé : la facture doit porter une date d'échéance ou des conditions de paiement.")
        (some (codes "BR-CO-25"))
    else []

unfoldable pub check_prepaid : ComputedTotals → List DraftIssue
check_prepaid totals =
    if is_positive (compare totals.prepaid_amount totals.grand_total_amount)
    then issue (codes "prepaidAmount") error
        (codes "L'acompte déjà versé dépasse le total TTC de la facture.") none
    else []

-- The body of the `try`, and its `catch`.
unfoldable pub check_amounts : InvoiceDraft → Result Text ComputedInvoice → List DraftIssue
check_amounts draft (ok computed) = check_due draft computed.totals ++ check_prepaid computed.totals
check_amounts draft (err message) = issue (codes "lines") error message none

unfoldable pub check_fields : InvoiceDraft → List DraftIssue
check_fields draft =
    check_header draft
    ++ (check_party draft.seller seller (codes "de l'émetteur")
        ++ (check_party draft.buyer buyer (codes "du client") ++ check_lines draft))

unfoldable pub all_issues : InvoiceDraft → List DraftIssue
unfolding check_fields check_amounts
all_issues draft =
    if has_errors (check_fields draft)
    then check_fields draft
    else check_fields draft ++ check_amounts draft (compute_invoice draft)

unfoldable pub check_draft : InvoiceDraft → DraftCheckResult
unfolding all_issues
check_draft draft = record {
  is_ok = not (has_errors (all_issues draft));
  issues = all_issues draft;
}
