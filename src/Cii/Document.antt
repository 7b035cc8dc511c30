-- ===== src/Cii/Document.antt =====
-- packages/facturx/src/generate/cii.ts: `serialiseCii`.
use validateur_facturx.Common.{
  Bool, true, false, not, List, [], ◌∷◌, ◌++◌, map, Option, none, some, ◌||◌, keep, get_or,
  if◌then◌else◌,
}
use validateur_facturx.Common.Text.{Text, codes, truthy}
use validateur_facturx.Money.{is_zero}
use validateur_facturx.Profiles.{basic, profile_urn}
use validateur_facturx.Invoice.Draft.{InvoiceDraft}
use validateur_facturx.Invoice.Compute.{ComputedTotals, ComputedInvoice}
use validateur_facturx.DraftCheck.Iban.{is_iban_char}
use validateur_facturx.Xml.{XmlNode, el, render_xml}
use validateur_facturx.Cii.{money}
use validateur_facturx.Cii.Write.{
  Note, french_legal_notes, namespaces, leaf, when, date_node, upper, party_node, line_node,
  tax_node,
}

-- `includeFrenchLegalNotes === false` is `some false`.
abbrev pub all_notes : List Text → Option Bool → List Note
all_notes texts (some false) = map (λ t. record { code = none; content = t }) texts
all_notes texts (some true) =
    map (λ t. record { code = none; content = t }) texts ++ french_legal_notes
all_notes texts none = map (λ t. record { code = none; content = t }) texts ++ french_legal_notes

unfoldable pub note_node : Note → XmlNode
note_node note =
    el (codes "ram:IncludedNote")
      (some (leaf (codes "ram:Content") note.content)
        ∷ when (truthy note.code) (leaf (codes "ram:SubjectCode") (get_or [] note.code))
        ∷ [])
      []

unfoldable pub context_node : XmlNode
context_node =
    el (codes "rsm:ExchangedDocumentContext")
      (some (
          el (codes "ram:GuidelineSpecifiedDocumentContextParameter")
            (some (leaf (codes "ram:ID") (profile_urn basic)) ∷ []) [])
        ∷ [])
      []

unfoldable pub document_node : InvoiceDraft → Option Bool → XmlNode
document_node draft legal_notes =
    el (codes "rsm:ExchangedDocument")
      (some (leaf (codes "ram:ID") draft.invoice_number)
        ∷ some (leaf (codes "ram:TypeCode") (get_or (codes "380") draft.type_code))
        ∷ some (date_node (codes "ram:IssueDateTime") draft.issue_date)
        ∷ map (λ n. some (note_node n)) (all_notes draft.notes legal_notes))
      []

unfoldable pub agreement_node : InvoiceDraft → XmlNode
agreement_node draft =
    el (codes "ram:ApplicableHeaderTradeAgreement")
      (when (truthy draft.buyer_reference)
          (leaf (codes "ram:BuyerReference") (get_or [] draft.buyer_reference))
        ∷ some (party_node (codes "ram:SellerTradeParty") draft.seller)
        ∷ some (party_node (codes "ram:BuyerTradeParty") draft.buyer)
        ∷ when (truthy draft.purchase_order_reference) (
            el (codes "ram:BuyerOrderReferencedDocument")
              (some (leaf (codes "ram:IssuerAssignedID") (get_or [] draft.purchase_order_reference))
                ∷ [])
              [])
        ∷ [])
      []

unfoldable pub delivery_node : InvoiceDraft → XmlNode
delivery_node draft =
    el (codes "ram:ApplicableHeaderTradeDelivery")
      (when (truthy draft.delivery_country_code) (
          el (codes "ram:ShipToTradeParty")
            (some (
                el (codes "ram:PostalTradeAddress")
                  (some
                      (leaf (codes "ram:CountryID") (upper (get_or [] draft.delivery_country_code)))
                    ∷ [])
                  [])
              ∷ [])
            [])
        ∷ some (
            el (codes "ram:ActualDeliverySupplyChainEvent")
              (some (
                  date_node (codes "ram:OccurrenceDateTime")
                    (get_or draft.issue_date draft.delivery_date))
                ∷ [])
              [])
        ∷ [])
      []

unfoldable pub payment_means_node : InvoiceDraft → XmlNode
payment_means_node draft =
    el (codes "ram:SpecifiedTradeSettlementPaymentMeans")
      (some (
          leaf (codes "ram:TypeCode")
            (get_or (if truthy draft.iban then codes "30" else codes "1") draft.payment_means_code))
        ∷ when (truthy draft.iban) (
            el (codes "ram:PayeePartyCreditorFinancialAccount")
              (some (leaf (codes "ram:IBANID") (upper (keep is_iban_char (get_or [] draft.iban))))
                ∷ [])
              [])
        ∷ [])
      []

unfoldable pub payment_terms_node : InvoiceDraft → XmlNode
payment_terms_node draft =
    el (codes "ram:SpecifiedTradePaymentTerms")
      (when (truthy draft.payment_terms)
          (leaf (codes "ram:Description") (get_or [] draft.payment_terms))
        ∷ when (truthy draft.due_date)
            (date_node (codes "ram:DueDateDateTime") (get_or [] draft.due_date))
        ∷ [])
      []

unfoldable pub summation_node : ComputedTotals → Text → XmlNode
summation_node totals currency =
    el (codes "ram:SpecifiedTradeSettlementHeaderMonetarySummation")
      (some (leaf (codes "ram:LineTotalAmount") (money totals.line_total_amount))
        ∷ some (leaf (codes "ram:TaxBasisTotalAmount") (money totals.tax_basis_total_amount))
        ∷ some (
            XmlNode.leaf (codes "ram:TaxTotalAmount") (money totals.tax_total_amount)
              ((codes "currencyID", some currency) ∷ []))
        ∷ some (leaf (codes "ram:GrandTotalAmount") (money totals.grand_total_amount))
        ∷ when (not (is_zero totals.prepaid_amount))
            (leaf (codes "ram:TotalPrepaidAmount") (money totals.prepaid_amount))
        ∷ some (leaf (codes "ram:DuePayableAmount") (money totals.due_payable_amount))
        ∷ [])
      []

unfoldable pub settlement_node : InvoiceDraft → ComputedInvoice → XmlNode
settlement_node draft computed =
    let currency = get_or (codes "EUR") draft.currency in
    el (codes "ram:ApplicableHeaderTradeSettlement")
      (some (leaf (codes "ram:InvoiceCurrencyCode") currency)
        ∷ some (payment_means_node draft)
        ∷ (map (λ g. some (tax_node g)) computed.tax_groups
            ++ (when (truthy draft.payment_terms || truthy draft.due_date)
                  (payment_terms_node draft)
                ∷ some (summation_node computed.totals currency)
                ∷ [])))
      []

unfoldable pub transaction_node : InvoiceDraft → ComputedInvoice → XmlNode
transaction_node draft computed =
    el (codes "rsm:SupplyChainTradeTransaction")
      (map (λ l. some (line_node l)) computed.lines
        ++ (some (agreement_node draft)
            ∷ some (delivery_node draft)
            ∷ some (settlement_node draft computed)
            ∷ []))
      []

unfoldable pub invoice_tree : InvoiceDraft → ComputedInvoice → Option Bool → XmlNode
invoice_tree draft computed legal_notes =
    el (codes "rsm:CrossIndustryInvoice")
      (some context_node
        ∷ some (document_node draft legal_notes)
        ∷ some (transaction_node draft computed)
        ∷ [])
      namespaces

unfoldable pub serialise_cii : InvoiceDraft → ComputedInvoice → Option Bool → Text
serialise_cii draft computed legal_notes = render_xml (invoice_tree draft computed legal_notes)
