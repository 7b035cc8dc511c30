-- ===== src/Cii/Restated.antt =====
-- packages/facturx/src/generate/cii.ts and extract/cii.ts: what is read from a whole written document.
use validateur_facturx.Common.{
  ◌≡◌, refl, ap, ◌∙◌, Bool, List, [], ◌∷◌, map, Option, some, get_or, ◌||◌,
}
use validateur_facturx.Common.Text.{Text, codes, truthy}
use validateur_facturx.Invoice.Draft.{InvoiceDraft}
use validateur_facturx.Invoice.Compute.{ComputedInvoice}
use validateur_facturx.Xml.{XmlNode}
use validateur_facturx.Cii.Values.{XmlValue, child, as_array}
use validateur_facturx.Cii.Write.{date_node, line_node, tax_node, when, leaf}
use validateur_facturx.Cii.Document.{
  context_node, document_node, note_node, all_notes, agreement_node, delivery_node,
  payment_means_node, payment_terms_node, summation_node, settlement_node, transaction_node,
  invoice_tree,
}
use validateur_facturx.Cii.View.{local_name, attr_fields, view_node, named}
use validateur_facturx.Cii.Sections.{
  child-one, as_array-el, named-when, named-map_other, named-spread, named-past_spread,
}

module _ (draft : InvoiceDraft) (inv : ComputedInvoice) (legal_notes : Option Bool) where
  abbrev root_value : Option XmlValue
  root_value = some (view_node (invoice_tree draft inv legal_notes))

  pub child-context :
      child root_value (codes "ExchangedDocumentContext") ≡ some (view_node context_node)
  unfolding invoice_tree attr_fields
  child-context =
      child-one _ (codes "ExchangedDocumentContext") _ _ context_node refl
        (unfold local_name context_node document_node transaction_node in refl)

  pub child-document :
      child root_value (codes "ExchangedDocument")
      ≡ some (view_node (document_node draft legal_notes))
  unfolding invoice_tree attr_fields
  child-document =
      child-one _ (codes "ExchangedDocument") _ _ (document_node draft legal_notes) refl
        (unfold local_name context_node document_node transaction_node in refl)

  pub child-transaction :
      child root_value (codes "SupplyChainTradeTransaction")
      ≡ some (view_node (transaction_node draft inv))
  unfolding invoice_tree attr_fields
  child-transaction =
      child-one _ (codes "SupplyChainTradeTransaction") _ _ (transaction_node draft inv) refl
        (unfold local_name context_node document_node transaction_node in refl)

  abbrev tail_nodes : List (Option XmlNode)
  tail_nodes =
      some (agreement_node draft)
      ∷ some (delivery_node draft)
      ∷ some (settlement_node draft inv)
      ∷ []

  pub lines-read :
      as_array (
        child
          (some (view_node (transaction_node draft inv)))
          (codes "IncludedSupplyChainTradeLineItem"))
      ≡ map view_node (map line_node inv.lines)
  unfolding transaction_node attr_fields
  lines-read =
      as_array-el _ (codes "IncludedSupplyChainTradeLineItem") _ _ refl
      ∙ ap (map view_node) (
          named-spread line_node (codes "IncludedSupplyChainTradeLineItem") inv.lines tail_nodes
            (λ l. unfold local_name line_node in refl)
            (unfold local_name agreement_node delivery_node settlement_node in refl))

  pub child-agreement :
      child (some (view_node (transaction_node draft inv))) (codes "ApplicableHeaderTradeAgreement")
      ≡ some (view_node (agreement_node draft))
  unfolding transaction_node attr_fields
  child-agreement =
      child-one _ (codes "ApplicableHeaderTradeAgreement") _ _ (agreement_node draft) refl (
        named-past_spread line_node (codes "ApplicableHeaderTradeAgreement") inv.lines tail_nodes _
          (λ l. unfold local_name line_node in refl)
          (unfold local_name agreement_node delivery_node settlement_node in refl))

  pub child-settlement :
      child
        (some (view_node (transaction_node draft inv)))
        (codes "ApplicableHeaderTradeSettlement")
      ≡ some (view_node (settlement_node draft inv))
  unfolding transaction_node attr_fields
  child-settlement =
      child-one _ (codes "ApplicableHeaderTradeSettlement") _ _ (settlement_node draft inv) refl (
        named-past_spread line_node (codes "ApplicableHeaderTradeSettlement") inv.lines tail_nodes _
          (λ l. unfold local_name line_node in refl)
          (unfold local_name agreement_node delivery_node settlement_node in refl))

  abbrev currency : Text
  currency = get_or (codes "EUR") draft.currency

  abbrev last_nodes : List (Option XmlNode)
  last_nodes =
      when (truthy draft.payment_terms || truthy draft.due_date) (payment_terms_node draft)
      ∷ some (summation_node inv.totals currency)
      ∷ []

  last-tax : named (codes "ApplicableTradeTax") last_nodes ≡ []
  unfolding local_name payment_terms_node summation_node
  last-tax =
      named-when (codes "ApplicableTradeTax") (truthy draft.payment_terms || truthy draft.due_date)
        (payment_terms_node draft) (some (summation_node inv.totals currency) ∷ []) refl

  last-summation :
      named (codes "SpecifiedTradeSettlementHeaderMonetarySummation") last_nodes
      ≡ summation_node inv.totals currency ∷ []
  unfolding local_name payment_terms_node summation_node
  last-summation =
      named-when (codes "SpecifiedTradeSettlementHeaderMonetarySummation")
        (truthy draft.payment_terms || truthy draft.due_date) (payment_terms_node draft)
        (some (summation_node inv.totals currency) ∷ []) refl

  pub groups-read :
      as_array (child (some (view_node (settlement_node draft inv))) (codes "ApplicableTradeTax"))
      ≡ map view_node (map tax_node inv.tax_groups)
  unfolding settlement_node attr_fields
  groups-read =
      as_array-el _ (codes "ApplicableTradeTax") _ _ refl
      ∙ ap (map view_node) (
          unfold local_name payment_means_node in
          named-spread tax_node (codes "ApplicableTradeTax") inv.tax_groups last_nodes
            (λ g. unfold local_name tax_node in refl) last-tax)

  pub child-summation :
      child
        (some (view_node (settlement_node draft inv)))
        (codes "SpecifiedTradeSettlementHeaderMonetarySummation")
      ≡ some (view_node (summation_node inv.totals currency))
  unfolding settlement_node attr_fields
  child-summation =
      let name = codes "SpecifiedTradeSettlementHeaderMonetarySummation" in
      child-one _ name _ _ (summation_node inv.totals currency) refl (
        unfold local_name payment_means_node in
        named-past_spread tax_node name inv.tax_groups last_nodes _
          (λ g. unfold local_name tax_node in refl) last-summation)

  pub child-number :
      child (some (view_node (document_node draft legal_notes))) (codes "ID")
      ≡ some (view_node (leaf (codes "ram:ID") draft.invoice_number))
  unfolding document_node attr_fields
  child-number = child-one _ (codes "ID") _ _ (leaf (codes "ram:ID") draft.invoice_number) refl (
      unfold local_name date_node in
      ap (λ cs. leaf (codes "ram:ID") draft.invoice_number ∷ cs)
        (named-map_other note_node (codes "ID") (all_notes draft.notes legal_notes)
          (λ n. unfold local_name note_node in refl)))

  pub child-issue_date :
      child (some (view_node (document_node draft legal_notes))) (codes "IssueDateTime")
      ≡ some (view_node (date_node (codes "ram:IssueDateTime") draft.issue_date))
  unfolding document_node attr_fields
  child-issue_date =
      child-one _ (codes "IssueDateTime") _ _
        (date_node (codes "ram:IssueDateTime") draft.issue_date) refl
        (unfold local_name date_node in
          ap (λ cs. date_node (codes "ram:IssueDateTime") draft.issue_date ∷ cs)
            (named-map_other note_node (codes "IssueDateTime") (all_notes draft.notes legal_notes)
              (λ n. unfold local_name note_node in refl)))
