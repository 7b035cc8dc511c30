-- ===== src/Cii/Write.antt =====
-- packages/facturx/src/generate/cii.ts: the XML of a draft and its computed amounts.
use validateur_facturx.Common.{
  Bool, not, List, [], ◌∷◌, Option, none, some, ◌==◌, keep, get_or, or_else, if◌then◌else◌,
}
use validateur_facturx.Common.Text.{Text, codes, text_eq, truthy, not_space, to_upper}
use validateur_facturx.Money.Literal.{format}
use validateur_facturx.Identifiers.{strip_formatting, siren_from_siret, vat_number_from_siren}
use validateur_facturx.Invoice.Draft.{DraftAddress, DraftParty}
use validateur_facturx.Invoice.Compute.{ComputedLine, ComputedTaxGroup}
use validateur_facturx.Xml.{Attrs, XmlNode, el}
use validateur_facturx.Cii.{money, non_empty}

abbrev pub namespaces : Attrs
namespaces =
    (codes "xmlns:rsm", some (codes "urn:un:unece:uncefact:data:standard:CrossIndustryInvoice:100"))
    ∷ (
      codes "xmlns:ram",
      some (
          codes
            "urn:un:unece:uncefact:data:standard:ReusableAggregateBusinessInformationEntity:100"),
    )
    ∷ (
      codes "xmlns:udt",
      some (codes "urn:un:unece:uncefact:data:standard:UnqualifiedDataType:100"),
    )
    ∷ []

abbrev pub scheme_siren : Text
scheme_siren = codes "0002"

abbrev pub scheme_siret : Text
scheme_siret = codes "0009"

-- A note, with its subject code
pub record Note : Type 0 where
  pub code : Option Text
  pub content : Text

abbrev legal_note : Text → Text → Note
legal_note code content = record { code = some code; content = content }

abbrev pub french_legal_notes : List Note
french_legal_notes =
    legal_note (codes "PMD") (
      codes
        "Pénalités de retard : taux d'intérêt légal majoré de 10 points, exigibles sans rappel.")
    ∷ legal_note (codes "PMT")
        (codes "Indemnité forfaitaire pour frais de recouvrement en cas de retard : 40 euros.")
    ∷ legal_note (codes "AAB") (codes "Escompte pour paiement anticipé : néant.")
    ∷ []

-- A leaf without attributes
abbrev pub leaf : Text → Text → XmlNode
leaf name value = XmlNode.leaf name value []

-- `value ? node : null`
abbrev pub when : Bool → XmlNode → Option XmlNode
when test child = if test then some child else none

-- `replace(/-/g, '')`
unfoldable pub cii_date : Text → Text
cii_date iso = keep (λ c. not (c == b'-')) iso

unfoldable pub date_node : Text → Text → XmlNode
date_node name iso =
    el name
      (some (
          XmlNode.leaf (codes "udt:DateTimeString") (cii_date iso)
            ((codes "format", some (codes "102")) ∷ []))
        ∷ [])
      []

unfoldable pub digits_only : Option Text → Option Text
digits_only none = none
digits_only (some value) = non_empty (strip_formatting value)

abbrev pub upper : Text → Text
upper s = to_upper s

unfoldable pub vat_id_of : DraftParty → Option Text → Option Text
vat_id_of party siren = or_else (upper_vat party.vat_id) derived
  where
    upper_vat : Option Text → Option Text
    upper_vat none = none
    upper_vat (some vat_id) = some (upper (keep not_space vat_id))

    derived : Option Text
    derived =
        if text_eq (upper party.address.country_code) (codes "FR")
        then vat_number_from_siren siren
        else none

abbrev identifier : Text → Text → Text → XmlNode
identifier name value scheme = XmlNode.leaf name value ((codes "schemeID", some scheme) ∷ [])

unfoldable pub address_node : DraftAddress → XmlNode
address_node address =
    el (codes "ram:PostalTradeAddress")
      (when (truthy (some address.postcode)) (leaf (codes "ram:PostcodeCode") address.postcode)
        ∷ when (truthy (some address.line1)) (leaf (codes "ram:LineOne") address.line1)
        ∷ when (truthy address.line2) (leaf (codes "ram:LineTwo") (get_or [] address.line2))
        ∷ when (truthy (some address.city)) (leaf (codes "ram:CityName") address.city)
        ∷ some (leaf (codes "ram:CountryID") (upper address.country_code))
        ∷ [])
      []

abbrev pub siren_of : DraftParty → Option Text
siren_of party = or_else (digits_only party.siren) (siren_from_siret (digits_only party.siret))

unfoldable pub party_node : Text → DraftParty → XmlNode
party_node name party =
    let siret = digits_only party.siret in
    let siren = siren_of party in
    let vat_id = vat_id_of party siren in
    el name
      (some (leaf (codes "ram:Name") party.name)
        ∷ when (truthy siren) (
            el (codes "ram:SpecifiedLegalOrganization")
              (some (identifier (codes "ram:ID") (get_or [] siren) scheme_siren) ∷ []) [])
        ∷ some (address_node party.address)
        ∷ when (truthy siret) (
            el (codes "ram:URIUniversalCommunication")
              (some (identifier (codes "ram:URIID") (get_or [] siret) scheme_siret) ∷ []) [])
        ∷ when (truthy vat_id) (
            el (codes "ram:SpecifiedTaxRegistration")
              (some (identifier (codes "ram:ID") (get_or [] vat_id) (codes "VA")) ∷ []) [])
        ∷ [])
      []

unfoldable pub line_node : ComputedLine → XmlNode
line_node line =
    el (codes "ram:IncludedSupplyChainTradeLineItem")
      (some (
          el (codes "ram:AssociatedDocumentLineDocument")
            (some (leaf (codes "ram:LineID") line.line_id) ∷ []) [])
        ∷ some (
            el (codes "ram:SpecifiedTradeProduct")
              (some (leaf (codes "ram:Name") line.source.name) ∷ []) [])
        ∷ some (
            el (codes "ram:SpecifiedLineTradeAgreement")
              (some (
                  el (codes "ram:NetPriceProductTradePrice")
                    (some (leaf (codes "ram:ChargeAmount") (format line.unit_price)) ∷ []) [])
                ∷ [])
              [])
        ∷ some (
            el (codes "ram:SpecifiedLineTradeDelivery")
              (some (
                  XmlNode.leaf (codes "ram:BilledQuantity") (format line.quantity)
                    ((codes "unitCode", some line.source.unit_code) ∷ []))
                ∷ [])
              [])
        ∷ some (
            el (codes "ram:SpecifiedLineTradeSettlement")
              (some (
                  el (codes "ram:ApplicableTradeTax")
                    (some (leaf (codes "ram:TypeCode") (codes "VAT"))
                      ∷ some (leaf (codes "ram:CategoryCode") line.vat_category)
                      ∷ some
                          (leaf (codes "ram:RateApplicablePercent") (money line.vat_rate_percent))
                      ∷ [])
                    [])
                ∷ some (
                    el (codes "ram:SpecifiedTradeSettlementLineMonetarySummation")
                      (some (leaf (codes "ram:LineTotalAmount") (money line.net_amount)) ∷ []) [])
                ∷ [])
              [])
        ∷ [])
      []

unfoldable pub tax_node : ComputedTaxGroup → XmlNode
tax_node group =
    el (codes "ram:ApplicableTradeTax")
      (some (leaf (codes "ram:CalculatedAmount") (money group.calculated_amount))
        ∷ some (leaf (codes "ram:TypeCode") (codes "VAT"))
        ∷ when (truthy group.exemption_reason)
            (leaf (codes "ram:ExemptionReason") (get_or [] group.exemption_reason))
        ∷ some (leaf (codes "ram:BasisAmount") (money group.basis_amount))
        ∷ some (leaf (codes "ram:CategoryCode") group.category_code)
        ∷ some (leaf (codes "ram:RateApplicablePercent") (money group.rate_percent))
        ∷ [])
      []
