-- ===== src/Archive/Filesystem.antt =====
-- apps/api/src/archiving/stores/filesystem.store.ts: the store in a directory. The files are a list of paths
-- with their bytes. SHA-256, `resolve` and whether the file system accepts a write are parameters.
use validateur_facturx.Common.{
  Bool, true, false, not, List, [], ◌∷◌, ◌++◌, Option, none, some, Result, ok, err, ◌&&◌, length,
  take, drop, if◌then◌else◌,
}
use validateur_facturx.Common.Text.{Text, codes, text_eq, starts_with}
use validateur_facturx.Archive.Store.{
  Bytes, StoredArtifact, StoreError, invalid_key, immutable, not_written, not_found, ArtifactStore,
}

abbrev pub Files : Type 0
Files = List (Text × Bytes)

unfoldable pub read_file : Text → Files → Option Bytes
read_file path [] = none
read_file path ((p, bytes) ∷ files) = if text_eq p path then some bytes else read_file path files

abbrev pub file_exists : Text → Files → Bool
file_exists path files = elim (read_file path files) [ none ↦ false | some bytes ↦ true ]

-- `join` of the two directories and the name
unfoldable pub key_for : Text → Text → Text
key_for hash extension =
    take 2 hash ++ b'/' ∷ (take 2 (drop 2 hash) ++ b'/' ∷ (hash ++ b'.' ∷ extension))

abbrev pub artifact : Text → Text → Bytes → StoredArtifact
artifact key hash bytes = record {
  storage_key = key;
  content_hash = hash;
  size_bytes = length bytes;
}

module _ (sha256 : Bytes → Text) (resolve : Text → Text → Text) (root : Text)
    (can_write : Text → Bool) where
  -- Nothing outside the root is read or written.
  unfoldable pub path_for : Text → Result StoreError Text
  path_for storage_key =
      let path = resolve root storage_key in
      if not (text_eq path root) && not (starts_with path (root ++ codes "/"))
      then err (invalid_key storage_key)
      else ok path

  -- `put`, at the path of its key
  unfoldable pub put_at :
      Files → Bytes → Text → Text → Text → Result StoreError (StoredArtifact × Files)
  put_at files bytes hash key path = elim (read_file path files) [
    | some existing ↦
        if text_eq bytes existing then ok (artifact key hash bytes, files) else err (immutable key)
    | none ↦
        if can_write path
        then ok (artifact key hash bytes, (path, bytes) ∷ files)
        else err not_written
  ]

  unfoldable pub put_file : Files → Bytes → Text → Result StoreError (StoredArtifact × Files)
  put_file files bytes extension =
      let hash = sha256 bytes in
      let key = key_for hash extension in
      elim (path_for key) [ err e ↦ err e | ok path ↦ put_at files bytes hash key path ]

  unfoldable pub get_file : Files → Text → Result StoreError Bytes
  get_file files storage_key = elim (path_for storage_key) [
    | err e ↦ err (not_found storage_key)
    | ok path ↦ elim (read_file path files) [
      | none ↦ err (not_found storage_key)
      | some bytes ↦ ok bytes
    ]
  ]

  unfoldable pub has_file : Files → Text → Bool
  has_file files storage_key = elim (path_for storage_key) [
    | err e ↦ false
    | ok path ↦ file_exists path files
  ]

  abbrev pub filesystem_store : ArtifactStore Files
  filesystem_store = record { put = put_file; get = get_file; is_stored = has_file }
