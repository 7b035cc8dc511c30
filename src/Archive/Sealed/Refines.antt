-- ===== src/Archive/Sealed/Refines.antt =====
-- apps/api/src/archiving/archiving.service.ts: a seal is an insertion in the map of documents.
use validateur_facturx.Common.{
  ℕ, ◌≡◌, ◌≢◌, refl, sym, ◌∙◌, true, List, [], ◌∷◌, ◌++◌, none, some, ok, find, All, All-append,
  Bool-cases, Option-cases, inl, inr,
}
use validateur_facturx.Common.Finding.{find-append_found, find-append_missing}
use validateur_facturx.Common.Text.{Text, text_eq, text_eq_iff}
use validateur_facturx.Archive.Store.{Bytes, StoredArtifact, ArtifactStore, IsWriteOnce}
use validateur_facturx.Archive.Service.{ArchiveEntry, SealRequest, new_entry, seal, is_entry}
use validateur_facturx.Archive.Sealed.{
  document, IsReadable, IsArchive, IsInserted, document-found, document-missing, none_with_id,
  seal-IsSealing, record_entry-cases, all_still-IsReadable, same_document, sealed_again,
}

module _ (sha256 : Bytes → Text) {State : Type 0} (store : ArtifactStore State)
    (write_once : IsWriteOnce sha256 store)
    (no_collision : (a b : Bytes) → sha256 a ≡ sha256 b → a ≡ b) (state : State)
    (entries : List ArchiveEntry) (archive : IsArchive sha256 store state entries) where
  found-append :
      (es : List ArchiveEntry) (x : ArchiveEntry)
      → All (λ e. find (is_entry e.tenant_id e.id) entries ≡ some e) es
      → All (λ e. find (is_entry e.tenant_id e.id) (entries ++ x ∷ []) ≡ some e) es
  found-append [] x h = tt
  found-append (e ∷ es) x (p, h) =
      (find-append_found (is_entry e.tenant_id e.id) entries (x ∷ []) e p, found-append es x h)

  self-found : (x : ArchiveEntry) → find (is_entry x.tenant_id x.id) (x ∷ []) ≡ some x
  self-found x =
      let id_ : text_eq x.id x.id ≡ true = (text_eq_iff x.id x.id).1 refl in
      let tenant : text_eq x.tenant_id x.tenant_id ≡ true =
        (text_eq_iff x.tenant_id x.tenant_id).1 refl in
      rw (id_, tenant) refl

  other-missing :
      (x : ArchiveEntry) (tenant_id id : Text)
      → id ≢ x.id
      → find (is_entry tenant_id id) (x ∷ []) ≡ none
  other-missing x tenant_id id differ = elim (Bool-cases (text_eq x.id id)) [
    | inl e ↦ absurd (differ (sym ((text_eq_iff x.id id).0 e)))
    | inr e ↦ rw e refl
  ]

  module _ (id : Text) (now : ℕ) (request : SealRequest) (stored : StoredArtifact) (after : State)
      (fresh : All (λ e. e.id ≢ id) entries)
      (put : store.put state request.bytes request.extension ≡ ok (stored, after)) where
    abbrev added : ArchiveEntry
    added = new_entry id now request stored

    abbrev rows : List ArchiveEntry
    rows = entries ++ added ∷ []

    added-IsReadable : IsReadable sha256 store after added
    unfolding new_entry
    added-IsReadable = record {
      bytes = request.bytes;
      held = write_once.stored state request.bytes request.extension stored after put;
      intact = sym (write_once.addressed state request.bytes request.extension stored after put);
    }

    added-found : find (is_entry added.tenant_id added.id) rows ≡ some added
    unfolding new_entry
    added-found =
        find-append_missing (is_entry added.tenant_id added.id) entries (added ∷ [])
          (none_with_id sha256 store entries added.tenant_id added.id fresh)
        ∙ self-found added

    rows-found :
        (tenant_id i : Text) (e : ArchiveEntry)
        → find (is_entry tenant_id i) entries ≡ some e
        → document sha256 store after rows tenant_id i
          ≡ document sha256 store state entries tenant_id i
    rows-found tenant_id i e f =
        same_document sha256 store write_once no_collision state entries archive request stored
          after put rows tenant_id i e f
          (find-append_found (is_entry tenant_id i) entries (added ∷ []) e f)

    rows-kept :
        (tenant_id i : Text) (old : Bytes)
        → document sha256 store state entries tenant_id i ≡ some old
        → document sha256 store after rows tenant_id i ≡ some old
    rows-kept tenant_id i old h = elim (Option-cases (find (is_entry tenant_id i) entries)) [
      | inl n ↦ let bad = sym (document-missing sha256 store state entries tenant_id i n) ∙ h in cc
      | inr (e, f) ↦ rows-found tenant_id i e f ∙ h
    ]

    rows-others :
        (tenant_id i : Text)
        → i ≢ id
        → document sha256 store after rows tenant_id i
          ≡ document sha256 store state entries tenant_id i
    unfolding new_entry
    rows-others tenant_id i differ = elim (Option-cases (find (is_entry tenant_id i) entries)) [
      | inl n ↦
          document-missing sha256 store after rows tenant_id i (
            find-append_missing (is_entry tenant_id i) entries (added ∷ []) n
            ∙ other-missing added tenant_id i differ)
          ∙ sym (document-missing sha256 store state entries tenant_id i n)
      | inr (e, f) ↦ rows-found tenant_id i e f
    ]

    sealed_new : IsInserted sha256 store state entries request added after rows
    unfolding new_entry added-IsReadable
    sealed_new =
        let readable =
          all_still-IsReadable sha256 store write_once no_collision state entries archive request
            stored after put entries archive.readable in
        record {
          archive = record {
            readable =
                All-append (IsReadable sha256 store after) entries (added ∷ []) readable
                  (added-IsReadable, tt);
            found =
                All-append _ entries (added ∷ []) (found-append entries added archive.found)
                  (added-found, tt);
          };
          sealed =
              document-found sha256 store after rows request.tenant_id id added added-found
                added-IsReadable;
          kept = rows-kept;
          others = rows-others;
        }

  -- Sealing with a store that keeps its promises refines the insertion in a map from entries to documents, where
  -- no two documents have one hash and the new row has a new identifier: afterwards the entry that is
  -- returned gives the sealed bytes, every document that could be read is read as before, no entry
  -- of another identifier has changed, and the archive is again one whose entries are all readable.
  pub seal-IsInserted :
      (id : Text) (now : ℕ) (request : SealRequest) (e : ArchiveEntry) (rows : List ArchiveEntry)
      (after : State)
      → All (λ x. x.id ≢ id) entries
      → seal sha256 store state entries id now request ≡ ok (e, rows, after)
      → IsInserted sha256 store state entries request e after rows
  seal-IsInserted id now request e rows after fresh h =
      let s = seal-IsSealing sha256 store state entries id now request e rows after h in
      elim (record_entry-cases sha256 store entries id now request s.stored e rows s.row) [
        | inl (f, same) ↦ rw (sym same) (
            sealed_again sha256 store write_once no_collision state entries archive request s.stored
              after s.put e f)
        | inr (made, added) ↦
            rw (sym made, sym added) (sealed_new id now request s.stored after fresh s.put)
      ]
