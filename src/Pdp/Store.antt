-- ===== src/Pdp/Store.antt =====
-- The rows of packages/db/prisma/schema.prisma that apps/api/src/pdp reads and writes. A date is its
-- number of milliseconds; the rows of a table are a list, and a write replaces the row with the given
-- identifier. The JSON columns `payload` and `metadata`, which are written and not read back here, are
-- left out. Rows are never deleted: the exception of an update whose row is gone is not modelled.
use validateur_facturx.Common.{
  ℕ, Bool, List, [], ◌∷◌, ◌++◌, Option, ◌&&◌, ◌==◌, find, any, if◌then◌else◌,
}
use validateur_facturx.Common.Text.{Text, text_eq}
use validateur_facturx.Pdp.Lifecycle.{InvoiceState}

pub data TransmissionState : Type 0 where
  pending sent acknowledged failed : TransmissionState

pub record Transmission : Type 0 where
  pub id : Text
  pub invoice_id : Text
  pub pdp_connection_id : Text
  pub idempotency_key : Text
  pub state : TransmissionState
  pub attempt : ℕ
  pub external_id : Option Text
  pub last_error : Option Text
  pub next_attempt_at : ℕ
  pub claimed_at : Option ℕ
  pub claimed_by : Option Text
  pub sent_at : Option ℕ
  pub acknowledged_at : Option ℕ

pub data InvoiceDirection : Type 0 where
  issued received : InvoiceDirection

-- The kinds of artifact that the queries select.
pub data ArtifactKind : Type 0 where
  facturx_pdf cii_xml : ArtifactKind

pub record ArchiveEntry : Type 0 where
  pub id : Text
  pub artifact_kind : ArtifactKind
  pub content_hash : Text

-- What the queries select of an invoice's client and of its buyer.
pub record ClientOrg : Type 0 where
  pub id : Text
  pub name : Text
  pub siret : Option Text
  pub siren : Option Text
  pub e_invoicing_address : Option Text
  pub e_invoicing_scheme : Option Text

pub record Buyer : Type 0 where
  pub name : Text
  pub e_address : Option Text
  pub e_scheme : Option Text
  pub legal_id : Option Text

-- The entries are the newest first.
pub record Invoice : Type 0 where
  pub id : Text
  pub tenant_id : Text
  pub direction : InvoiceDirection
  pub state : InvoiceState
  pub invoice_number : Text
  pub client_org : ClientOrg
  pub buyer : Buyer
  pub archive_entries : List ArchiveEntry

pub record PdpConnection : Type 0 where
  pub id : Text
  pub client_org_id : Text
  pub active : Bool

pub data StatusSource : Type 0 where
  internal pa ppf : StatusSource

pub record LifecycleStatus : Type 0 where
  pub invoice_id : Text
  pub code : Text
  pub label : Option Text
  pub source : StatusSource
  pub occurred_at : ℕ

pub record AuditEntry : Type 0 where
  pub tenant_id : Text
  pub user_id : Option Text
  pub action : Text
  pub entity_id : Text

pub record Database : Type 0 where
  pub transmissions : List Transmission
  pub invoices : List Invoice
  pub connections : List PdpConnection
  pub statuses : List LifecycleStatus
  pub audit_log : List AuditEntry

-- `update({ where: { id }, data })` on the rows of a table
abbrev pub update_transmission :
    Text → (Transmission → Transmission) → List Transmission → List Transmission
update_transmission id f [] = []
update_transmission id f (t ∷ ts) =
    if text_eq t.id id then f t ∷ ts else t ∷ update_transmission id f ts

abbrev pub update_invoice : Text → (Invoice → Invoice) → List Invoice → List Invoice
update_invoice id f [] = []
update_invoice id f (i ∷ is) = if text_eq i.id id then f i ∷ is else i ∷ update_invoice id f is

-- The unique constraint on statuses.
abbrev pub same_status : LifecycleStatus → LifecycleStatus → Bool
same_status a b =
    text_eq a.invoice_id b.invoice_id && (text_eq a.code b.code && a.occurred_at == b.occurred_at)

abbrev pub has_status : LifecycleStatus → List LifecycleStatus → Bool
has_status s = any (same_status s)

-- `createMany({ data: [status], skipDuplicates: true })`
abbrev pub create_status : LifecycleStatus → List LifecycleStatus → List LifecycleStatus
create_status s statuses = if has_status s statuses then statuses else statuses ++ s ∷ []

abbrev pub with_key : Text → Transmission → Bool
with_key key t = text_eq t.idempotency_key key

abbrev pub find_key : Text → List Transmission → Option Transmission
find_key key = find (with_key key)
