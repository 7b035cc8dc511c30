-- ===== src/Pdp/Samples.antt =====
-- apps/api/src/pdp: rows for the tests.
use validateur_facturx.Common.{ℕ, true, [], ◌∷◌, none, some}
use validateur_facturx.Common.Text.{Text, codes}
use validateur_facturx.Pdp.Lifecycle.{validated}
use validateur_facturx.Pdp.Store.{
  Transmission, Invoice, issued, ArchiveEntry, facturx_pdf, PdpConnection, Database,
}
use validateur_facturx.Pdp.Queue.{other, new_row}
use validateur_facturx.Pdp.Retries.{Failure}

abbrev pub some_artifact : ArchiveEntry
some_artifact = record { id = codes "a1"; artifact_kind = facturx_pdf; content_hash = codes "0f" }

abbrev pub some_invoice : Invoice
some_invoice = record {
  id = codes "i1";
  tenant_id = codes "t1";
  direction = issued;
  state = validated;
  invoice_number = codes "F-2026/001";
  client_org = record {
    id = codes "o1";
    name = codes "Atelier";
    siret = some (codes "44306184100005");
    siren = none;
    e_invoicing_address = none;
    e_invoicing_scheme = none;
  };
  buyer = record {
    name = codes "Client";
    e_address = some (codes "552100554");
    e_scheme = none;
    legal_id = none;
  };
  archive_entries = some_artifact ∷ [];
}

abbrev pub some_connection : PdpConnection
some_connection = record { id = codes "c1"; client_org_id = codes "o1"; active = true }

abbrev pub some_database : Database
some_database = record {
  transmissions = [];
  invoices = some_invoice ∷ [];
  connections = some_connection ∷ [];
  statuses = [];
  audit_log = [];
}

abbrev pub row_at : Text → ℕ → Transmission
row_at id now = new_row id some_invoice some_connection (codes "fx-1") now

abbrev pub some_row : Transmission
some_row = row_at (codes "r1") 1000

abbrev pub refused_connection : Failure
refused_connection = record { error = other (codes "ECONNREFUSED"); now = 2000; random = 7 }
