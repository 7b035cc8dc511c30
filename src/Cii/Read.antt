-- ===== src/Cii/Read.antt =====
-- packages/facturx/src/extract/cii.ts: the typed model of a document, read from the value that the XML
-- parser returns. The parser is a library: its `parse` is an argument, with `err` where it throws.
use validateur_facturx.Common.{
  Bool, true, false, List, [], ◌∷◌, ◌++◌, map, Option, none, some, Result, ok, err, ◌&&◌, ◌||◌,
  ◌==◌, all, length, take, drop, or_else, if◌then◌else◌,
}
use validateur_facturx.Common.Text.{Text, codes, text_eq, is_digit}
use validateur_facturx.Profiles.{profile_from_urn}
use validateur_facturx.Cii.{CiiAddress, CiiParty, CiiTaxBreakdown, CiiLine, CiiTotals, CiiInvoice}
use validateur_facturx.Cii.Values.{XmlValue, child, path, as_array, first, text, attr, amount_at}

-- `^\d{8}$`
abbrev pub is_compact_date : Text → Bool
is_compact_date raw = length raw == 8 && all is_digit raw

unfoldable pub dashed_date : Text → Text
dashed_date raw = take 4 raw ++ b'-' ∷ (take 2 (drop 4 raw) ++ b'-' ∷ take 2 (drop 6 raw))

abbrev pub is_format_102 : Option Text → Bool
is_format_102 none = false
is_format_102 (some format) = text_eq format (codes "102")

unfoldable pub convert_date : Option Text → Option Text → Option Text
convert_date none format = none
convert_date (some raw) format =
    if is_format_102 format || is_compact_date raw
    then (if is_compact_date raw then some (dashed_date raw) else some raw)
    else some raw

unfoldable pub parse_cii_date : Option XmlValue → Option Text
parse_cii_date node =
    let date_node = or_else (child node (codes "DateTimeString")) node in
    convert_date (text date_node) (attr date_node (codes "format"))

unfoldable pub parse_address : Option XmlValue → CiiAddress
parse_address node = record {
  line1 = text (child node (codes "LineOne"));
  line2 = text (child node (codes "LineTwo"));
  postcode = text (child node (codes "PostcodeCode"));
  city = text (child node (codes "CityName"));
  country_code = text (child node (codes "CountryID"));
}

abbrev pub is_vat_scheme : Option Text → Bool
is_vat_scheme none = false
is_vat_scheme (some scheme) = text_eq scheme (codes "VA")

-- The first registration whose scheme is `VA`.
unfoldable pub vat_registration : List XmlValue → Option XmlValue
vat_registration [] = none
vat_registration (registration ∷ rest) =
    if is_vat_scheme (attr (child (some registration) (codes "ID")) (codes "schemeID"))
    then some registration
    else vat_registration rest

unfoldable pub parse_party : Option XmlValue → CiiParty
parse_party node =
    let legal_org = child node (codes "SpecifiedLegalOrganization") in
    let registrations = as_array (child node (codes "SpecifiedTaxRegistration")) in
    let global_id = child node (codes "GlobalID") in
    record {
      name = text (child node (codes "Name"));
      legal_id = text (child legal_org (codes "ID"));
      legal_id_scheme = attr (child legal_org (codes "ID")) (codes "schemeID");
      vat_id = text (child (vat_registration registrations) (codes "ID"));
      global_id = text global_id;
      global_id_scheme = attr global_id (codes "schemeID");
      address = parse_address (child node (codes "PostalTradeAddress"));
    }

unfoldable pub parse_line : XmlValue → CiiLine
parse_line value =
    let node = some value in
    let agreement = child node (codes "SpecifiedLineTradeAgreement") in
    let delivery = child node (codes "SpecifiedLineTradeDelivery") in
    let settlement = child node (codes "SpecifiedLineTradeSettlement") in
    let product = child node (codes "SpecifiedTradeProduct") in
    let billed_quantity = child delivery (codes "BilledQuantity") in
    let line_tax = first (as_array (child settlement (codes "ApplicableTradeTax"))) in
    record {
      id = text (path node (codes "AssociatedDocumentLineDocument" ∷ codes "LineID" ∷ []));
      name = text (child product (codes "Name"));
      description = text (child product (codes "Description"));
      quantity = amount_at billed_quantity;
      unit_code = attr billed_quantity (codes "unitCode");
      net_unit_price =
          amount_at
            (path agreement (codes "NetPriceProductTradePrice" ∷ codes "ChargeAmount" ∷ []));
      net_amount = amount_at (
          path settlement
            (codes "SpecifiedTradeSettlementLineMonetarySummation" ∷ codes "LineTotalAmount" ∷ []));
      vat_category_code = text (child line_tax (codes "CategoryCode"));
      vat_rate_percent = amount_at (child line_tax (codes "RateApplicablePercent"));
    }

unfoldable pub parse_tax_breakdown : XmlValue → CiiTaxBreakdown
parse_tax_breakdown value =
    let node = some value in
    record {
      basis_amount = amount_at (child node (codes "BasisAmount"));
      calculated_amount = amount_at (child node (codes "CalculatedAmount"));
      category_code = text (child node (codes "CategoryCode"));
      rate_percent = amount_at (child node (codes "RateApplicablePercent"));
      exemption_reason = text (child node (codes "ExemptionReason"));
    }

unfoldable pub parse_totals : Option XmlValue → CiiTotals
parse_totals summation = record {
  line_total_amount = amount_at (child summation (codes "LineTotalAmount"));
  allowance_total_amount = amount_at (child summation (codes "AllowanceTotalAmount"));
  charge_total_amount = amount_at (child summation (codes "ChargeTotalAmount"));
  tax_basis_total_amount = amount_at (child summation (codes "TaxBasisTotalAmount"));
  tax_total_amount = amount_at (child summation (codes "TaxTotalAmount"));
  grand_total_amount = amount_at (child summation (codes "GrandTotalAmount"));
  prepaid_amount = amount_at (child summation (codes "TotalPrepaidAmount"));
  due_payable_amount = amount_at (child summation (codes "DuePayableAmount"));
}

-- The texts that are not null, in order.
unfoldable pub note_texts : List XmlValue → List Text
note_texts [] = []
note_texts (note ∷ rest) = elim (text (child (some note) (codes "Content"))) [
  | none ↦ note_texts rest
  | some content ↦ content ∷ note_texts rest
]

unfoldable pub read_root : Option XmlValue → CiiInvoice
read_root root =
    let document = child root (codes "ExchangedDocument") in
    let transaction = child root (codes "SupplyChainTradeTransaction") in
    let agreement = child transaction (codes "ApplicableHeaderTradeAgreement") in
    let settlement = child transaction (codes "ApplicableHeaderTradeSettlement") in
    let summation = child settlement (codes "SpecifiedTradeSettlementHeaderMonetarySummation") in
    let guideline_urn = text (
      path root (
        codes "ExchangedDocumentContext"
        ∷ codes "GuidelineSpecifiedDocumentContextParameter"
        ∷ codes "ID"
        ∷ [])) in
    let payment_terms = first (as_array (child settlement (codes "SpecifiedTradePaymentTerms"))) in
    record {
      guideline_urn = guideline_urn;
      profile = profile_from_urn guideline_urn;
      invoice_number = text (child document (codes "ID"));
      type_code = text (child document (codes "TypeCode"));
      issue_date = parse_cii_date (child document (codes "IssueDateTime"));
      due_date = parse_cii_date (child payment_terms (codes "DueDateDateTime"));
      currency = text (child settlement (codes "InvoiceCurrencyCode"));
      buyer_reference = text (child agreement (codes "BuyerReference"));
      seller = parse_party (child agreement (codes "SellerTradeParty"));
      buyer = parse_party (child agreement (codes "BuyerTradeParty"));
      lines =
          map parse_line (as_array (child transaction (codes "IncludedSupplyChainTradeLineItem")));
      tax_breakdown =
          map parse_tax_breakdown (as_array (child settlement (codes "ApplicableTradeTax")));
      totals = parse_totals summation;
      notes = note_texts (as_array (child document (codes "IncludedNote")));
    }

pub data CiiParseError : Type 0 where
  malformed_xml not_a_cii_document : CiiParseError

abbrev pub error_message : CiiParseError → Text
error_message malformed_xml =
    codes
      "Le XML n'a pas pu être analysé : il est mal formé (balise non fermée, caractère interdit ou encodage incorrect)."
error_message not_a_cii_document =
    codes
      "Ce fichier XML n'est pas une facture CII : l'élément racine « CrossIndustryInvoice » est absent."

-- `!root`: an absent property, or an empty string.
abbrev pub is_falsy : Option XmlValue → Bool
is_falsy none = true
is_falsy (some (XmlValue.str [])) = true
is_falsy _ = false

unfoldable pub read_parsed : Result Text XmlValue → Result CiiParseError CiiInvoice
read_parsed (err cause) = err malformed_xml
read_parsed (ok parsed) =
    let root = child (some parsed) (codes "CrossIndustryInvoice") in
    if is_falsy root then err not_a_cii_document else ok (read_root root)

unfoldable pub parse_cii : (Text → Result Text XmlValue) → Text → Result CiiParseError CiiInvoice
parse_cii parse source = read_parsed (parse source)
