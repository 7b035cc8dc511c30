-- ===== src/Pdp/Attempt.antt =====
-- apps/api/src/pdp/transmission.service.ts: one transmission attempt, and what it records.
-- The archive and the platform's adapter are parameters: what they return is a value or an error.
use validateur_facturx.Common.{
  or_else, ℕ, Bool, List, [], ◌∷◌, ◌++◌, map, Option, none, some, Result, ok, err, ◌&&◌, ◌||◌, ◌==◌,
  leb, find, all, keep, length, if◌then◌else◌,
}
use validateur_facturx.Common.Failing.{◌>>=◌}
use validateur_facturx.Common.Text.{Text, codes, is_digit, not_space}
use validateur_facturx.Pdp.Store.{
  Transmission, Invoice, ArchiveEntry, facturx_pdf, Buyer, ClientOrg,
}
use validateur_facturx.Pdp.Queue.{QueueError, not_transmittable, has_kind}

pub record ElectronicAddress : Type 0 where
  pub address : Text
  pub scheme : Text

-- `^\d{n}$`
abbrev all_digits : ℕ → Text → Bool
all_digits n s = length s == n && all is_digit s

abbrev text_or_empty : Option Text → Text
text_or_empty none = []
text_or_empty (some s) = s

-- An identifier without its scheme is labelled by its shape.
unfoldable pub by_shape : Text → Option ElectronicAddress
by_shape candidate =
    if all_digits 14 candidate
    then some (record { address = candidate; scheme = codes "0009" })
    else if all_digits 9 candidate
    then some (record { address = candidate; scheme = codes "0002" })
    else none

unfoldable pub electronic_address :
    Option Text → Option Text → Option Text → Option ElectronicAddress
unfolding by_shape
electronic_address (some (c ∷ a)) (some (d ∷ s)) fallback =
    some (record { address = c ∷ a; scheme = d ∷ s })
electronic_address address scheme fallback =
    by_shape (keep not_space (text_or_empty (or_else address fallback)))

pub record TransmitRequest : Type 0 where
  pub artifact : List ℕ
  pub filename : Text
  pub mime_type : Text
  pub idempotency_key : Text
  pub recipient : ElectronicAddress
  pub sender : ElectronicAddress

-- `[A-Za-z0-9._-]`
abbrev is_filename_char : ℕ → Bool
is_filename_char c =
    (leb b'A' c && leb c b'Z')
    || ((leb b'a' c && leb c b'z') || (is_digit c || (c == b'.' || (c == b'_' || c == b'-'))))

abbrev filename_char : ℕ → ℕ
filename_char c = if is_filename_char c then c else b'_'

abbrev first_entry : List ArchiveEntry → Option ArchiveEntry
first_entry [] = none
first_entry (e ∷ es) = some e

unfoldable pub entry_to_send : List ArchiveEntry → Option ArchiveEntry
entry_to_send entries = elim (find (has_kind facturx_pdf) entries) [
  | some entry ↦ some entry
  | none ↦ first_entry entries
]

unfoldable pub required_address :
    Option ElectronicAddress → Text → Result QueueError ElectronicAddress
required_address none message = err (not_transmittable message)
required_address (some a) message = ok a

unfoldable pub required_entry : Option ArchiveEntry → Result QueueError ArchiveEntry
required_entry none = err (
    not_transmittable (
      codes "L'artefact scellé de cette facture est introuvable ; la transmission est impossible."))
required_entry (some entry) = ok entry

abbrev sender_missing : ClientOrg → Text
sender_missing client_org =
    codes "« "
    ++ (client_org.name
        ++ codes
            " » n'a pas d'adresse électronique de facturation. Renseignez son SIRET ou son adresse de routage avant de transmettre.")

abbrev recipient_missing : Buyer → Text
recipient_missing buyer =
    codes "Le client « "
    ++ (buyer.name
        ++ codes
            " » n'a pas d'adresse électronique de routage sur cette facture. La plateforme ne pourrait pas la livrer.")

-- `archiving.retrieve(tenantId, entryId)`
abbrev pub Archive : Type 0
Archive = Text → Text → Result QueueError (List ℕ)

unfoldable pub build_request : Archive → Transmission → Invoice → Result QueueError TransmitRequest
unfolding required_entry required_address entry_to_send electronic_address
build_request retrieve row invoice = do
  entry ← required_entry (entry_to_send invoice.archive_entries)
  bytes ← retrieve invoice.tenant_id entry.id
  let is_pdf = has_kind facturx_pdf entry
  let client_org = invoice.client_org
  sender ←
      required_address
        (electronic_address client_org.e_invoicing_address client_org.e_invoicing_scheme
          (or_else client_org.siret client_org.siren))
        (sender_missing client_org)
  recipient ←
      required_address
        (electronic_address invoice.buyer.e_address invoice.buyer.e_scheme invoice.buyer.legal_id)
        (recipient_missing invoice.buyer)
  ok (record {
    artifact = bytes;
    filename =
        map filename_char invoice.invoice_number
        ++ b'.' ∷ (if is_pdf then codes "pdf" else codes "xml");
    mime_type = if is_pdf then codes "application/pdf" else codes "application/xml";
    idempotency_key = row.idempotency_key;
    recipient = recipient;
    sender = sender;
  })
