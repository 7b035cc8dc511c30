-- ===== src/Archive/Service.antt =====
-- apps/api/src/archiving/archiving.service.ts: sealing an artifact and reading it back. The identifier
-- of a new row and the time are arguments; SHA-256 and the store are parameters.
use validateur_facturx.Common.{
  ℕ, ◌+◌, Bool, true, false, List, [], ◌∷◌, ◌++◌, Option, none, some, Result, ok, err, ◌&&◌, find,
  if◌then◌else◌,
}
use validateur_facturx.Common.Text.{Text, text_eq}
use validateur_facturx.DraftCheck.Dates.{CivilDate, from_month}
use validateur_facturx.Archive.Store.{Bytes, StoredArtifact, StoreError, ArtifactStore}

abbrev pub retention_years : ℕ
retention_years = 10

pub record ArchiveEntry : Type 0 where
  pub id : Text
  pub tenant_id : Text
  pub invoice_id : Option Text
  pub content_hash : Text
  pub storage_key : Text
  pub mime_type : Text
  pub size_bytes : ℕ
  pub artifact_kind : Text
  pub sealed_at : ℕ
  pub retention_until : CivilDate

pub record SealRequest : Type 0 where
  pub tenant_id : Text
  pub invoice_id : Option Text
  pub bytes : Bytes
  pub mime_type : Text
  pub artifact_kind : Text
  pub extension : Text
  pub issued_at : CivilDate

-- `setUTCFullYear`: the 29th of February of a year that has none is the 1st of March.
unfoldable pub retention_until : CivilDate → ℕ → CivilDate
retention_until issued_at years = from_month (issued_at.year + years) issued_at.month issued_at.day

abbrev pub same_invoice : Option Text → Option Text → Bool
same_invoice none none = true
same_invoice (some a) (some b) = text_eq a b
same_invoice _ _ = false

-- The `where` of the read and of the upsert: the tenant, the invoice and the hash.
abbrev pub is_same_artifact : Text → Option Text → Text → ArchiveEntry → Bool
is_same_artifact tenant_id invoice_id hash e =
    text_eq e.tenant_id tenant_id
    && (same_invoice e.invoice_id invoice_id && text_eq e.content_hash hash)

unfoldable pub new_entry : Text → ℕ → SealRequest → StoredArtifact → ArchiveEntry
new_entry id now request stored = record {
  id = id;
  tenant_id = request.tenant_id;
  invoice_id = request.invoice_id;
  content_hash = stored.content_hash;
  storage_key = stored.storage_key;
  mime_type = request.mime_type;
  size_bytes = stored.size_bytes;
  artifact_kind = request.artifact_kind;
  sealed_at = now;
  retention_until = retention_until request.issued_at retention_years;
}

-- The row that is there already, or a new one; a row is never changed.
unfoldable pub record_entry :
    List ArchiveEntry → Text → ℕ → SealRequest → StoredArtifact → ArchiveEntry × List ArchiveEntry
record_entry entries id now request stored =
    elim (find (is_same_artifact request.tenant_id request.invoice_id stored.content_hash)
      entries) [
        | some existing ↦ (existing, entries)
        | none ↦ (new_entry id now request stored, entries ++ new_entry id now request stored ∷ [])
      ]

abbrev pub is_entry : Text → Text → ArchiveEntry → Bool
is_entry tenant_id id e = text_eq e.id id && text_eq e.tenant_id tenant_id

pub data RetrieveError : Type 0 where
  no_entry : Text → RetrieveError
  not_read : StoreError → RetrieveError
  compromised : Text → RetrieveError

module _ (sha256 : Bytes → Text) {State : Type 0} (store : ArtifactStore State) where
  unfoldable pub seal :
      State
      → List ArchiveEntry
      → Text
      → ℕ
      → SealRequest
      → Result StoreError (ArchiveEntry × List ArchiveEntry × State)
  seal state entries id now request = elim (store.put state request.bytes request.extension) [
    | err e ↦ err e
    | ok (stored, after) ↦
        let (entry, rows) = record_entry entries id now request stored in ok (entry, rows, after)
  ]

  -- The bytes of an entry, where their hash is still the recorded one.
  unfoldable pub read_entry : State → ArchiveEntry → Result RetrieveError (ArchiveEntry × Bytes)
  read_entry state entry = elim (store.get state entry.storage_key) [
    | err e ↦ err (not_read e)
    | ok bytes ↦
        if text_eq (sha256 bytes) entry.content_hash
        then ok (entry, bytes)
        else err (compromised entry.storage_key)
  ]

  unfoldable pub retrieve :
      State → List ArchiveEntry → Text → Text → Result RetrieveError (ArchiveEntry × Bytes)
  retrieve state entries tenant_id entry_id = elim (find (is_entry tenant_id entry_id) entries) [
    | none ↦ err (no_entry entry_id)
    | some entry ↦ read_entry state entry
  ]
