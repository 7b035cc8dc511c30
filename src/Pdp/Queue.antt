-- ===== src/Pdp/Queue.antt =====
-- apps/api/src/pdp/transmission.service.ts: the operations of the transmission queue.
-- Between its reads and its transaction `enqueue` waits, and other writers may run: `prepare` is what
-- it reads, `create` the transaction on the database of that later moment.
use validateur_facturx.Common.{
  ℕ, ◌-◌, ◌*◌, Bool, true, false, not, List, [], ◌∷◌, ◌++◌, map, Option, none, some, Result, ok,
  err, ◌&&◌, ltb, leb, find, keep, take, if◌then◌else◌,
}
use validateur_facturx.Common.Sorting.{sort_by}
use validateur_facturx.Common.Text.{Text, codes, text_eq, includes}
use validateur_facturx.Pdp.Lifecycle.{InvoiceState, validated, draft, queued}
use validateur_facturx.Pdp.Store.{
  Transmission, TransmissionState, pending, Invoice, issued, received, ArchiveEntry, ArtifactKind,
  facturx_pdf, cii_xml, PdpConnection, Database, update_invoice, find_key, InvoiceDirection,
}

abbrev pub backoff_seconds : List ℕ
backoff_seconds = 30 ∷ 120 ∷ 600 ∷ 1800 ∷ 3600 ∷ []

abbrev pub max_attempts : ℕ
max_attempts = 6

abbrev pub claim_lease_ms : ℕ
claim_lease_ms = 5 * 60 * 1000

pub data QueueError : Type 0 where
  not_transmittable no_active_connection other : Text → QueueError

pub record EnqueueResult : Type 0 where
  pub transmission_id : Text
  pub idempotency_key : Text
  pub already_queued : Bool

abbrev pub has_kind : ArtifactKind → ArchiveEntry → Bool
has_kind kind entry = is_same kind entry.artifact_kind
  where
    is_same : ArtifactKind → ArtifactKind → Bool
    is_same facturx_pdf facturx_pdf = true
    is_same cii_xml cii_xml = true
    is_same _ _ = false

-- The Factur-X document, and the XML where there is none.
unfoldable pub artifact_of : List ArchiveEntry → Option ArchiveEntry
artifact_of entries = elim (find (has_kind facturx_pdf) entries) [
  | some entry ↦ some entry
  | none ↦ find (has_kind cii_xml) entries
]

abbrev pub is_issued : InvoiceDirection → Bool
is_issued issued = true
is_issued received = false

abbrev pub owned_by : Text → Text → Invoice → Bool
owned_by tenant_id invoice_id i = text_eq i.id invoice_id && text_eq i.tenant_id tenant_id

abbrev pub is_active_for : Text → PdpConnection → Bool
is_active_for client_org_id c = text_eq c.client_org_id client_org_id && c.active

-- What the reads of `enqueue` find: a row that exists, or what the transaction needs.
pub data Prepared : Type 0 where
  existing : Text → Text → Prepared
  fresh : Invoice → PdpConnection → Text → Prepared

module _ (sha256 : Text → Text) where
  unfoldable pub transmission_key : Text → Text → Text
  transmission_key invoice_id content_hash =
      codes "fx-" ++ take 40 (sha256 (invoice_id ++ b':' ∷ content_hash))

  unfoldable pub prepare : Database → Text → Text → Result QueueError Prepared
  unfolding artifact_of transmission_key
  prepare db tenant_id invoice_id = elim (find (owned_by tenant_id invoice_id) db.invoices) [
    | none ↦ err (not_transmittable (codes "Facture introuvable."))
    | some invoice ↦
        if not (is_issued invoice.direction)
        then err (
            not_transmittable (
              codes
                "Seules les factures émises peuvent être transmises. Une facture reçue a déjà été transmise par son fournisseur."))
        else elim (artifact_of invoice.archive_entries) [
          | none ↦ err (
              not_transmittable
                (codes "Cette facture n'a aucun artefact scellé ; il n'y a rien à transmettre."))
          | some artifact ↦ elim (find (is_active_for invoice.client_org.id) db.connections) [
            | none ↦ err (no_active_connection invoice.client_org.name)
            | some connection ↦
                let key = transmission_key invoice.id artifact.content_hash in
                elim (find_key key db.transmissions) [
                  | some row ↦ ok (existing row.id key)
                  | none ↦ ok (fresh invoice connection key)
                ]
          ]
        ]
  ]

-- The columns that `create` leaves out take their default of the schema: `attempt` is 1.
abbrev pub new_row : Text → Invoice → PdpConnection → Text → ℕ → Transmission
new_row id invoice connection key now = record {
  id = id;
  invoice_id = invoice.id;
  pdp_connection_id = connection.id;
  idempotency_key = key;
  state = pending;
  attempt = 1;
  external_id = none;
  last_error = none;
  next_attempt_at = now;
  claimed_at = none;
  claimed_by = none;
  sent_at = none;
  acknowledged_at = none;
}

-- `VALIDATED` or `DRAFT`
abbrev pub awaits_queue : InvoiceState → Bool
awaits_queue validated = true
awaits_queue draft = true
awaits_queue _ = false

abbrev pub set_queued : Invoice → Invoice
set_queued i = record i { state = queued }

-- The transaction; a key that exists by then is a violation of the unique constraint, which is
-- answered with the winner's row.
unfoldable pub create :
    Database → Prepared → Text → Text → Option Text → ℕ → EnqueueResult × Database
create db (existing id key) new_id tenant_id user_id now =
    (record { transmission_id = id; idempotency_key = key; already_queued = true }, db)
create db (fresh invoice connection key) new_id tenant_id user_id now =
    elim (find_key key db.transmissions) [
      | some winner ↦
          (record { transmission_id = winner.id; idempotency_key = key; already_queued = true }, db)
      | none ↦ (
        record { transmission_id = new_id; idempotency_key = key; already_queued = false },
        record db {
          transmissions = db.transmissions ++ new_row new_id invoice connection key now ∷ [];
          invoices =
              if awaits_queue invoice.state
              then update_invoice invoice.id set_queued db.invoices
              else db.invoices;
          audit_log =
              db.audit_log
              ++ record {
                tenant_id = tenant_id;
                user_id = user_id;
                action = codes "invoice.queued";
                entity_id = invoice.id;
              }
                ∷ [];
        },
      )
    ]

abbrev is_pending : TransmissionState → Bool
is_pending pending = true
is_pending _ = false

-- No lease, or one that has gone stale.
abbrev pub lease_free : ℕ → Option ℕ → Bool
lease_free now none = true
lease_free now (some claimed_at) = ltb claimed_at (now - claim_lease_ms)

-- The `WHERE` clause, for a row that no other transaction has locked.
abbrev pub is_due : ℕ → List Text → Transmission → Bool
is_due now locked t =
    is_pending t.state
    && (leb t.next_attempt_at now && (lease_free now t.claimed_at && not (includes locked t.id)))

abbrev pub due_time : Transmission → ℕ
due_time t = t.next_attempt_at

abbrev pub stamp : Text → ℕ → Transmission → Transmission
stamp worker now t = record t { claimed_at = some now; claimed_by = some worker }

abbrev pub id_of : Transmission → Text
id_of t = t.id

-- `UPDATE … WHERE "id" IN (…)`
abbrev pub stamp_rows : List Text → Text → ℕ → List Transmission → List Transmission
stamp_rows ids worker now [] = []
stamp_rows ids worker now (t ∷ ts) =
    (if includes ids t.id then stamp worker now t else t) ∷ stamp_rows ids worker now ts

-- The rows of the inner `SELECT`; `locked` are the rows that other workers hold.
unfoldable pub selected : ℕ → ℕ → List Text → List Transmission → List Transmission
unfolding sort_by
selected limit now locked ts = take limit (sort_by due_time (keep (is_due now locked) ts))

unfoldable pub claim :
    Text → ℕ → ℕ → List Text → List Transmission → List Transmission × List Transmission
unfolding selected
claim worker limit now locked ts =
    let rows = selected limit now locked ts in
    (map (stamp worker now) rows, stamp_rows (map id_of rows) worker now ts)
