-- ===== src/DraftCheck/Header.antt =====
-- packages/facturx/src/generate/check-draft.ts: `checkHeader`.
use validateur_facturx.Common.{
  Bool, not, List, [], ◌∷◌, ◌++◌, Option, none, some, ◌&&◌, ◌==◌, all, length, get_or,
  if◌then◌else◌,
}
use validateur_facturx.Common.Text.{Text, codes, text_lt, truthy, includes, is_upper, join}
use validateur_facturx.Invoice.Draft.{InvoiceDraft, draft_type_codes}
use validateur_facturx.DraftCheck.Issues.{DraftIssue, error, issue, is_missing, around}
use validateur_facturx.DraftCheck.Dates.{is_real_date}
use validateur_facturx.DraftCheck.Iban.{is_valid_iban}

abbrev pub credit_transfer_means : List Text
credit_transfer_means = codes "30" ∷ codes "58" ∷ []

unfoldable pub check_number : Text → List DraftIssue
check_number invoice_number =
    if is_missing (some invoice_number)
    then issue (codes "invoiceNumber") error (codes "Le numéro de facture est obligatoire.")
        (some (codes "BR-02"))
    else []

abbrev invalid_date : Text → Text → Text
invalid_date before date =
    around before date (codes " » n'est pas une date valide au format AAAA-MM-JJ.")

unfoldable pub check_issue_date : Text → List DraftIssue
check_issue_date issue_date =
    if is_missing (some issue_date)
    then issue (codes "issueDate") error (codes "La date d'émission est obligatoire.")
        (some (codes "BR-03"))
    else if not (is_real_date issue_date)
    then issue (codes "issueDate") error (invalid_date (codes "La date d'émission « ") issue_date)
        none
    else []

unfoldable pub check_due_date : Option Text → Text → List DraftIssue
check_due_date none issue_date = []
check_due_date (some due_date) issue_date =
    if not (truthy (some due_date))
    then []
    else if not (is_real_date due_date)
    then issue (codes "dueDate") error (invalid_date (codes "La date d'échéance « ") due_date) none
    else if is_real_date issue_date && text_lt due_date issue_date
    then issue (codes "dueDate") error
        (codes "La date d'échéance est antérieure à la date d'émission.") none
    else []

unfoldable pub check_delivery_date : Option Text → List DraftIssue
check_delivery_date none = []
check_delivery_date (some date) =
    if truthy (some date) && not (is_real_date date)
    then issue (codes "deliveryDate") error (invalid_date (codes "La date de livraison « ") date)
        none
    else []

unfoldable pub check_type_code : Option Text → List DraftIssue
check_type_code none = []
check_type_code (some code) =
    if truthy (some code) && not (includes draft_type_codes code)
    then issue (codes "typeCode") error
        (codes "Type de document « "
          ++ around code (codes " » non pris en charge. Valeurs possibles : ")
              (join (codes ", ") draft_type_codes ++ codes "."))
        (some (codes "BR-CO-03"))
    else []

-- `^[A-Z]{3}$`
abbrev pub is_currency : Text → Bool
is_currency s = length s == 3 && all is_upper s

unfoldable pub check_currency : Text → List DraftIssue
check_currency currency =
    if not (is_currency currency)
    then issue (codes "currency") error
        (around (codes "La devise « ") currency
          (codes " » doit être un code ISO 4217 à trois lettres, par exemple « EUR »."))
        (some (codes "BR-05"))
    else []

unfoldable pub check_iban : Option Text → List DraftIssue
check_iban none = []
check_iban (some iban) =
    if truthy (some iban) && not (is_valid_iban iban)
    then issue (codes "iban") error
        (around (codes "L'IBAN « ") iban (
          codes
            " » est incorrect : sa clé de contrôle ne correspond pas. Une facture avec un IBAN erroné est valide au sens de la norme mais ne sera pas payée."))
        none
    else []

unfoldable pub check_payment_means : Option Text → Option Text → List DraftIssue
check_payment_means code iban =
    if includes credit_transfer_means (get_or [] code) && is_missing iban
    then issue (codes "iban") error
        (codes
          "Un virement est indiqué comme moyen de paiement, mais aucun IBAN n'est renseigné. La norme impose de préciser le compte à créditer (BT-84). Indiquez un IBAN, ou choisissez un autre moyen de paiement.")
        (some (codes "BR-CO-27"))
    else []

unfoldable pub check_header : InvoiceDraft → List DraftIssue
check_header draft =
    check_number draft.invoice_number
    ++ (check_issue_date draft.issue_date
        ++ (check_due_date draft.due_date draft.issue_date
            ++ (check_delivery_date draft.delivery_date
                ++ (check_type_code draft.type_code
                    ++ (check_currency (get_or (codes "EUR") draft.currency)
                        ++ (check_iban draft.iban
                            ++ check_payment_means draft.payment_means_code draft.iban))))))
