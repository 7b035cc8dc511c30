-- ===== src/DraftCheck/Party.antt =====
-- packages/facturx/src/generate/check-draft.ts: `checkParty`.
use validateur_facturx.Common.{
  Bool, not, List, [], ◌∷◌, ◌++◌, Option, none, some, ◌&&◌, ◌==◌, leb, all, length, take, drop,
  keep, get_or, or_else, if◌then◌else◌,
}
use validateur_facturx.Common.Text.{
  Text, codes, text_eq, trim, truthy, is_upper, not_space, to_upper, starts_with, ends_with,
}
use validateur_facturx.Identifiers.{
  validate_siret, validate_siren, validate_french_vat_number, siren_from_siret,
}
use validateur_facturx.Invoice.Draft.{DraftAddress, DraftParty}
use validateur_facturx.DraftCheck.Issues.{DraftIssue, error, warning, issue, is_missing, around}
use validateur_facturx.DraftCheck.Iban.{is_alphanumeric}

pub data PartyPath : Type 0 where
  seller buyer : PartyPath

abbrev pub path_text : PartyPath → Text
path_text seller = codes "seller"
path_text buyer = codes "buyer"

abbrev at : PartyPath → Text → Text
at path field = path_text path ++ b'.' ∷ field

abbrev rule_for : PartyPath → Text → Text → Text
rule_for seller of_seller of_buyer = of_seller
rule_for buyer of_seller of_buyer = of_buyer

unfoldable pub check_name : Text → PartyPath → Text → List DraftIssue
check_name name path label =
    if is_missing (some name)
    then issue (at path (codes "name")) error
        (around (codes "Le nom ") label (codes " est obligatoire."))
        (some (rule_for path (codes "BR-06") (codes "BR-07")))
    else []

abbrev pub upper_trimmed : Text → Text
upper_trimmed s = to_upper (trim s)

-- `^[A-Z]{2}$`
abbrev pub is_country : Text → Bool
is_country s = length s == 2 && all is_upper s

unfoldable pub check_country : Text → PartyPath → Text → List DraftIssue
check_country country path label =
    if is_missing (some country)
    then issue (at path (codes "address.countryCode")) error
        (around (codes "Le pays ") label (codes " est obligatoire."))
        (some (rule_for path (codes "BR-09") (codes "BR-11")))
    else if not (is_country (upper_trimmed country))
    then issue (at path (codes "address.countryCode")) error
        (around (codes "Le code pays ") label
          (codes " doit être un code ISO à deux lettres, par exemple « FR »."))
        none
    else []

abbrev check_address_field : Text → Text → Text → PartyPath → Text → List DraftIssue
check_address_field key value name path label =
    if is_missing (some value)
    then issue (at path (codes "address." ++ key)) warning
        (name ++ around (codes " de l'adresse ") label (codes " n'est pas renseignée.")) none
    else []

unfoldable pub check_address : DraftAddress → PartyPath → Text → List DraftIssue
check_address address path label =
    check_address_field (codes "line1") address.line1 (codes "La voie") path label
    ++ (check_address_field (codes "postcode") address.postcode (codes "Le code postal") path label
        ++ check_address_field (codes "city") address.city (codes "La ville") path label)

abbrev pub is_french : Text → Bool
is_french country = text_eq (upper_trimmed country) (codes "FR")

-- The reason of a refused identifier is always given.
abbrev invalid_identifier : Text → Text → Option Text → Text
invalid_identifier kind label reason =
    kind
    ++ around label (codes " invalide : ")
        (get_or (codes "clé de contrôle incorrecte") reason ++ codes ".")

abbrev missing_siret : PartyPath → List DraftIssue
missing_siret seller =
    issue (codes "seller.siret") error
      (codes "Le SIRET de l'émetteur est obligatoire sur une facture française.")
      (some (codes "BR-FR-01"))
missing_siret buyer =
    issue (codes "buyer.siret") warning
      (codes
        "Le SIRET du client n'est pas renseigné : sans lui, la facture ne pourra pas être routée vers son destinataire par l'annuaire.")
      none

unfoldable pub check_identifiers : DraftParty → PartyPath → Text → List DraftIssue
check_identifiers party path label =
    if truthy party.siret
    then if (validate_siret party.siret).valid
      then []
      else issue (at path (codes "siret")) error
          (invalid_identifier (codes "SIRET ") label (validate_siret party.siret).reason) none
    else if truthy party.siren
    then if (validate_siren party.siren).valid
      then []
      else issue (at path (codes "siren")) error
          (invalid_identifier (codes "SIREN ") label (validate_siren party.siren).reason) none
    else if is_french party.address.country_code
    then missing_siret path
    else []

-- `^[A-Z]{2}[A-Z0-9]{2,13}$`
unfoldable pub is_vat_form : Text → Bool
is_vat_form s =
    leb 2 (length (drop 2 s))
    && (leb (length (drop 2 s)) 13 && (all is_upper (take 2 s) && all is_alphanumeric (drop 2 s)))

-- A VAT number that does not end in the party's SIREN belongs to another company.
unfoldable pub check_owner : Text → Option Text → PartyPath → Text → List DraftIssue
check_owner upper none path label = []
check_owner upper (some siren) path label =
    if truthy (some siren) && not (ends_with upper siren)
    then issue (at path (codes "vatId")) error
        (codes "Le numéro de TVA "
          ++ (label
              ++ (codes " ("
                  ++ around upper (codes ") ne correspond pas au SIREN ") (siren ++ codes "."))))
        none
    else []

-- `vatId`, without its spaces and in upper case
unfoldable pub check_vat_number : Text → DraftParty → PartyPath → Text → List DraftIssue
check_vat_number upper party path label =
    if starts_with upper (codes "FR")
    then if (validate_french_vat_number (some upper)).valid
      then check_owner upper (or_else party.siren (siren_from_siret party.siret)) path label
      else issue (at path (codes "vatId")) error
          (codes "Numéro de TVA "
            ++ around label (codes " invalide : ") (
                get_or (codes "format incorrect") (validate_french_vat_number (some upper)).reason
                ++ codes "."))
          none
    else if not (is_vat_form upper)
    then issue (at path (codes "vatId")) error
        (around (codes "Numéro de TVA ") label
          (codes " invalide : il doit commencer par un code pays à deux lettres."))
        none
    else []

abbrev pub upper_vat_id : Text → Text
upper_vat_id vat_id = to_upper (keep not_space vat_id)

unfoldable pub check_vat_id : DraftParty → PartyPath → Text → List DraftIssue
check_vat_id party path label =
    if truthy party.vat_id
    then check_vat_number (upper_vat_id (get_or [] party.vat_id)) party path label
    else []

unfoldable pub check_party : DraftParty → PartyPath → Text → List DraftIssue
check_party party path label =
    check_name party.name path label
    ++ (check_country party.address.country_code path label
        ++ (check_address party.address path label
            ++ (check_identifiers party path label ++ check_vat_id party path label)))
