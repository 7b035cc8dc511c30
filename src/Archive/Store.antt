-- ===== src/Archive/Store.antt =====
-- apps/api/src/archiving/artifact-store.ts: the interface of a store of artifacts, and what it promises.
use validateur_facturx.Common.{ℕ, ◌≡◌, Bool, List, Result, ok}
use validateur_facturx.Common.Text.{Text}

-- Bytes, and what was stored of them
abbrev pub Bytes : Type 0
Bytes = List ℕ

pub record StoredArtifact : Type 0 where
  pub storage_key : Text
  pub content_hash : Text
  pub size_bytes : ℕ

pub data StoreError : Type 0 where
  invalid_key : Text → StoreError
  immutable : Text → StoreError
  not_written : StoreError
  not_found : Text → StoreError

-- A method that fails leaves the store as it is.
pub record ArtifactStore (State : Type 0) : Type 0 where
  pub put : State → Bytes → Text → Result StoreError (StoredArtifact × State)
  pub get : State → Text → Result StoreError Bytes
  pub is_stored : State → Text → Bool

-- The two promises of the interface: content-addressed, and write-once.
pub record IsWriteOnce (sha256 : Bytes → Text) {State : Type 0} (store : ArtifactStore State)
    : Type 0 where
  pub addressed :
      (s : State) (bytes : Bytes) (extension : Text) (a : StoredArtifact) (after : State)
      → store.put s bytes extension ≡ ok (a, after)
      → a.content_hash ≡ sha256 bytes
  pub stored :
      (s : State) (bytes : Bytes) (extension : Text) (a : StoredArtifact) (after : State)
      → store.put s bytes extension ≡ ok (a, after)
      → store.get after a.storage_key ≡ ok bytes
  pub kept :
      (s : State) (bytes : Bytes) (extension : Text) (a : StoredArtifact) (after : State)
      → store.put s bytes extension ≡ ok (a, after)
      → (key : Text) (old : Bytes) → store.get s key ≡ ok old
      → store.get after key ≡ ok old
