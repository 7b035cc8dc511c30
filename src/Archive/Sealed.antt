-- ===== src/Archive/Sealed.antt =====
-- apps/api/src/archiving/archiving.service.ts refines a map from entries to documents that only grows.
pub mod Refines
use validateur_facturx.Common.{
  ℕ, ◌≡◌, ◌≢◌, refl, sym, ap, ap₂, ◌∙◌, arith, Bool, true, false, List, [], ◌∷◌, ◌++◌, Option, none,
  some, Result, ok, err, ◌&&◌, find, if◌then◌else◌, All, All-append, Bool-cases, Option-cases, ◌⊎◌,
  inl, inr,
}
use validateur_facturx.Common.Finding.{
  find-append_found, find-append_missing, find_passes, All-find,
}
use validateur_facturx.Common.Text.{Text, text_eq, text_eq_iff}
use validateur_facturx.Archive.Store.{Bytes, StoredArtifact, StoreError, ArtifactStore, IsWriteOnce}
use validateur_facturx.Archive.Service.{
  ArchiveEntry, SealRequest, new_entry, record_entry, seal, read_entry, retrieve, is_entry,
  is_same_artifact, RetrieveError,
}

abbrev pub returned : Result RetrieveError (ArchiveEntry × Bytes) → Option Bytes
returned (err e) = none
returned (ok (entry, bytes)) = some bytes

module _ (sha256 : Bytes → Text) {State : Type 0} (store : ArtifactStore State) where
  -- The abstract archive: the document of an entry, where the service returns one.
  unfoldable pub document : State → List ArchiveEntry → Text → Text → Option Bytes
  document state entries tenant_id id = returned (retrieve sha256 store state entries tenant_id id)

  -- The store holds, under the key of the entry, bytes with the hash of the entry.
  pub record IsReadable (state : State) (entry : ArchiveEntry) : Type 0 where
    pub bytes : Bytes
    pub held : store.get state entry.storage_key ≡ ok bytes
    pub intact : sha256 bytes ≡ entry.content_hash

  -- Every entry is readable, and is the one that its identifier finds.
  pub record IsArchive (state : State) (entries : List ArchiveEntry) : Type 0 where
    pub readable : All (IsReadable state) entries
    pub found : All (λ e. find (is_entry e.tenant_id e.id) entries ≡ some e) entries

  document-found :
      (state : State) (entries : List ArchiveEntry) (tenant_id id : Text) (e : ArchiveEntry)
      → find (is_entry tenant_id id) entries ≡ some e
      → (r : IsReadable state e) → document state entries tenant_id id ≡ some r.bytes
  unfolding document retrieve read_entry
  document-found state entries tenant_id id e f r =
      let same : text_eq (sha256 r.bytes) e.content_hash ≡ true = (text_eq_iff _ _).1 r.intact in
      let read : retrieve sha256 store state entries tenant_id id ≡ ok (e, r.bytes) =
        rw (retrieve, f, read_entry, r.held, same) refl in
      ap returned read

  document-missing :
      (state : State) (entries : List ArchiveEntry) (tenant_id id : Text)
      → find (is_entry tenant_id id) entries ≡ none
      → document state entries tenant_id id ≡ none
  unfolding document retrieve
  document-missing state entries tenant_id id f =
      let read : retrieve sha256 store state entries tenant_id id
          ≡ err (RetrieveError.no_entry id) =
        rw (retrieve, f) refl in
      ap returned read

  none_with_id :
      (entries : List ArchiveEntry) (tenant_id id : Text)
      → All (λ e. e.id ≢ id) entries
      → find (is_entry tenant_id id) entries ≡ none
  none_with_id [] tenant_id id h = refl
  none_with_id (e ∷ es) tenant_id id (p, h) = elim (Bool-cases (text_eq e.id id)) [
    | inl q ↦ absurd (p ((text_eq_iff e.id id).0 q))
    | inr q ↦ rw q (none_with_id es tenant_id id h)
  ]

  ok-injective {ℓ} : {V : Type ℓ} (a b : V) → ◌≡◌ {A = Result StoreError V} (ok a) (ok b) → a ≡ b
  ok-injective a b h = cc

  Result-cases {ℓ} :
      {V : Type ℓ} (r : Result StoreError V)
      → ((e : StoreError) × (r ≡ err e)) ⊎ ((v : V) × (r ≡ ok v))
  Result-cases (err e) = inl (e, refl)
  Result-cases (ok v) = inr (v, refl)

  -- What sealing did: the bytes are stored, and the row is there.
  record IsSealing (state : State) (entries : List ArchiveEntry) (id : Text) (now : ℕ)
      (request : SealRequest) (e : ArchiveEntry) (rows : List ArchiveEntry) (after : State)
      : Type 0 where
    stored : StoredArtifact
    put : store.put state request.bytes request.extension ≡ ok (stored, after)
    row : record_entry entries id now request stored ≡ (e, rows)

  seal-IsSealing :
      (state : State) (entries : List ArchiveEntry) (id : Text) (now : ℕ) (request : SealRequest)
      (e : ArchiveEntry) (rows : List ArchiveEntry) (after : State)
      → seal sha256 store state entries id now request ≡ ok (e, rows, after)
      → IsSealing state entries id now request e rows after
  unfolding seal
  seal-IsSealing state entries id now request e rows after h =
      elim (Result-cases (store.put state request.bytes request.extension)) [
        | inl (x, q) ↦
            let step : seal sha256 store state entries id now request ≡ err x = rw (seal, q) refl in
            cc
        | inr (r, q) ↦
            let step : seal sha256 store state entries id now request
                ≡ ok (
                  (record_entry entries id now request r.0).0,
                  (record_entry entries id now request r.0).1,
                  r.1,
                ) =
              rw (seal, q) refl in
            let same = ok-injective _ _ (sym step ∙ h) in
            record {
              stored = r.0;
              put = q ∙ ap (λ s. ok (r.0, s)) (ap (λ t. t.2) same);
              row = ap (λ t. (t.0, t.1)) same;
            }
      ]

  -- The row that is there, or a new one at the end.
  record_entry-cases :
      (entries : List ArchiveEntry) (id : Text) (now : ℕ) (request : SealRequest)
      (stored : StoredArtifact) (e : ArchiveEntry) (rows : List ArchiveEntry)
      → record_entry entries id now request stored ≡ (e, rows)
      → ((find (is_same_artifact request.tenant_id request.invoice_id stored.content_hash) entries
            ≡ some e)
          × (entries ≡ rows))
        ⊎ ((new_entry id now request stored ≡ e)
            × (entries ++ new_entry id now request stored ∷ [] ≡ rows))
  unfolding record_entry
  record_entry-cases entries id now request stored e rows h =
      let search =
        find (is_same_artifact request.tenant_id request.invoice_id stored.content_hash) entries in
      elim (Option-cases search) [
        | inl n ↦
            let step : record_entry entries id now request stored ≡ (
              new_entry id now request stored,
              entries ++ new_entry id now request stored ∷ [],
            ) =
              rw (record_entry, n) refl in
            let same = sym step ∙ h in inr (ap (λ t. t.0) same, ap (λ t. t.1) same)
        | inr (x, f) ↦
            let step : record_entry entries id now request stored ≡ (x, entries) =
              rw (record_entry, f) refl in
            let same = sym step ∙ h in inl (f ∙ ap some (ap (λ t. t.0) same), ap (λ t. t.1) same)
      ]

  -- The abstract step: one document is there afterwards, and no other changes.
  pub record IsInserted (state : State) (entries : List ArchiveEntry) (request : SealRequest)
      (e : ArchiveEntry) (after : State) (rows : List ArchiveEntry) : Type 0 where
    pub archive : IsArchive after rows
    pub sealed : document after rows request.tenant_id e.id ≡ some request.bytes
    pub kept :
        (tenant_id id : Text) (old : Bytes)
        → document state entries tenant_id id ≡ some old
        → document after rows tenant_id id ≡ some old
    pub others :
        (tenant_id id : Text)
        → id ≢ e.id
        → document after rows tenant_id id ≡ document state entries tenant_id id

  module _ (write_once : IsWriteOnce sha256 store)
      (no_collision : (a b : Bytes) → sha256 a ≡ sha256 b → a ≡ b) (state : State)
      (entries : List ArchiveEntry) (archive : IsArchive state entries) where
    module _ (request : SealRequest) (stored : StoredArtifact) (after : State)
        (put : store.put state request.bytes request.extension ≡ ok (stored, after)) where
      still-IsReadable : (e : ArchiveEntry) → IsReadable state e → IsReadable after e
      still-IsReadable e r = record {
        bytes = r.bytes;
        held = write_once.kept state request.bytes request.extension stored after put _ _ r.held;
        intact = r.intact;
      }

      all_still-IsReadable :
          (es : List ArchiveEntry) → All (IsReadable state) es → All (IsReadable after) es
      all_still-IsReadable [] h = tt
      all_still-IsReadable (e ∷ es) (p, h) = (still-IsReadable e p, all_still-IsReadable es h)

      -- A document is the same where the same row is found before and after.
      same_document :
          (rows : List ArchiveEntry) (tenant_id id : Text) (e : ArchiveEntry)
          → find (is_entry tenant_id id) entries ≡ some e
          → find (is_entry tenant_id id) rows ≡ some e
          → document after rows tenant_id id ≡ document state entries tenant_id id
      unfolding still-IsReadable document
      same_document rows tenant_id id e before now_ =
          let r = All-find (IsReadable state) _ entries e archive.readable before in
          document-found after rows tenant_id id e now_ (still-IsReadable e r)
          ∙ sym (document-found state entries tenant_id id e before r)

      unchanged :
          (tenant_id id : Text)
          → document after entries tenant_id id ≡ document state entries tenant_id id
      unchanged tenant_id id = elim (Option-cases (find (is_entry tenant_id id) entries)) [
        | inl n ↦
            document-missing after entries tenant_id id n
            ∙ sym (document-missing state entries tenant_id id n)
        | inr (e, f) ↦ same_document entries tenant_id id e f f
      ]

      sealed_again :
          (e : ArchiveEntry)
          → find (is_same_artifact request.tenant_id request.invoice_id stored.content_hash) entries
            ≡ some e
          → IsInserted state entries request e after entries
      unfolding still-IsReadable
      sealed_again e f =
          let r = All-find (IsReadable state) _ entries e archive.readable f in
          let own =
            All-find (λ x. find (is_entry x.tenant_id x.id) entries ≡ some x) _ entries e
              archive.found f in
          let passes = find_passes _ entries e f in
          let tenant : e.tenant_id ≡ request.tenant_id =
            (text_eq_iff _ _).0 (ground (arith, passes)) in
          let hash : e.content_hash ≡ stored.content_hash =
            (text_eq_iff _ _).0 (ground (arith, passes)) in
          let addressed =
            write_once.addressed state request.bytes request.extension stored after put in
          let same = no_collision r.bytes request.bytes (r.intact ∙ hash ∙ addressed) in
          let here : document after entries e.tenant_id e.id ≡ some request.bytes =
            document-found after entries e.tenant_id e.id e own (still-IsReadable e r)
            ∙ ap some same in
          record {
            archive = record {
              readable = all_still-IsReadable entries archive.readable;
              found = archive.found;
            };
            sealed = ap (λ t. document after entries t e.id) (sym tenant) ∙ here;
            kept = λ tenant_id id old h. unchanged tenant_id id ∙ h;
            others = λ tenant_id id differ. unchanged tenant_id id;
          }
