-- ===== src/Archive/WriteOnce.antt =====
-- apps/api/src/archiving/stores/filesystem.store.ts keeps the promises of artifact-store.ts.
use validateur_facturx.Common.{
  ◌≡◌, refl, sym, ap, ◌∙◌, Bool, ◌∷◌, none, some, Result, ok, err, Bool-cases, Option-cases, ◌⊎◌,
  inl, inr,
}
use validateur_facturx.Common.Text.{Text, text_eq, text_eq_iff}
use validateur_facturx.Archive.Store.{Bytes, StoredArtifact, StoreError, IsWriteOnce}
use validateur_facturx.Archive.Filesystem.{
  Files, read_file, artifact, key_for, path_for, put_at, put_file, get_file, filesystem_store,
}

ok-injective {ℓ} : {V : Type ℓ} (a b : V) → ◌≡◌ {A = Result StoreError V} (ok a) (ok b) → a ≡ b
ok-injective a b h = cc

-- Another path is read as before.
read_file-cons :
    (path p : Text) (bytes old : Bytes) (files : Files)
    → read_file path files ≡ none
    → read_file p files ≡ some old
    → read_file p ((path, bytes) ∷ files) ≡ some old
unfolding read_file
read_file-cons path p bytes old files absent h = elim (Bool-cases (text_eq path p)) [
  | inl e ↦
      let same : path ≡ p = (text_eq_iff path p).0 e in
      let bad : read_file p files ≡ none = ap (λ q. read_file q files) (sym same) ∙ absent in cc
  | inr e ↦ rw e h
]

record IsPut (files : Files) (bytes : Bytes) (path : Text) (after : Files) : Type 0 where
  there : read_file path after ≡ some bytes
  others : (p : Text) (old : Bytes) → read_file p files ≡ some old → read_file p after ≡ some old

module _ (sha256 : Bytes → Text) (resolve : Text → Text → Text) (root : Text)
    (can_write : Text → Bool) where
  put_at-IsPut :
      (files : Files) (bytes : Bytes) (hash key path : Text) (a : StoredArtifact) (after : Files)
      → put_at sha256 resolve root can_write files bytes hash key path ≡ ok (a, after)
      → (a ≡ artifact key hash bytes) × IsPut files bytes path after
  unfolding put_at
  put_at-IsPut files bytes hash key path a after h = elim (Option-cases (read_file path files)) [
    | inl n ↦ elim (Bool-cases (can_write path)) [
      | inl w ↦
          let step : put_at sha256 resolve root can_write files bytes hash key path
              ≡ ok (artifact key hash bytes, (path, bytes) ∷ files) =
            rw (put_at, n, w) refl in
          let pair = ok-injective _ _ (sym step ∙ h) in
          let put : IsPut files bytes path ((path, bytes) ∷ files) = record {
            there = unfold read_file in rw ((text_eq_iff path path).1 refl) refl;
            others = λ p old. read_file-cons path p bytes old files n;
          } in
          (sym (ap (λ r. r.0) pair), rw (sym (ap (λ r. r.1) pair)) put)
      | inr w ↦
          let step : put_at sha256 resolve root can_write files bytes hash key path
              ≡ err StoreError.not_written =
            rw (put_at, n, w) refl in
          cc
    ]
    | inr (existing, e) ↦ elim (Bool-cases (text_eq bytes existing)) [
      | inl w ↦
          let step : put_at sha256 resolve root can_write files bytes hash key path
              ≡ ok (artifact key hash bytes, files) =
            rw (put_at, e, w) refl in
          let pair = ok-injective _ _ (sym step ∙ h) in
          let put : IsPut files bytes path files = record {
            there = e ∙ ap some (sym ((text_eq_iff bytes existing).0 w));
            others = λ p old found. found;
          } in
          (sym (ap (λ r. r.0) pair), rw (sym (ap (λ r. r.1) pair)) put)
      | inr w ↦
          let step : put_at sha256 resolve root can_write files bytes hash key path
              ≡ err (StoreError.immutable key) =
            rw (put_at, e, w) refl in
          cc
    ]
  ]

  Result-cases :
      (r : Result StoreError Text)
      → ((e : StoreError) × (r ≡ err e)) ⊎ ((path : Text) × (r ≡ ok path))
  Result-cases (err e) = inl (e, refl)
  Result-cases (ok path) = inr (path, refl)

  -- A put that returns has a path inside the root, where the bytes now are.
  record IsPutFile (files : Files) (bytes : Bytes) (extension : Text) (a : StoredArtifact)
      (after : Files) : Type 0 where
    path : Text
    inside : path_for sha256 resolve root can_write (key_for (sha256 bytes) extension) ≡ ok path
    made : a ≡ artifact (key_for (sha256 bytes) extension) (sha256 bytes) bytes
    put : IsPut files bytes path after

  put_file-IsPutFile :
      (files : Files) (bytes : Bytes) (extension : Text) (a : StoredArtifact) (after : Files)
      → put_file sha256 resolve root can_write files bytes extension ≡ ok (a, after)
      → IsPutFile files bytes extension a after
  unfolding put_file
  put_file-IsPutFile files bytes extension a after h =
      let key = key_for (sha256 bytes) extension in
      elim (Result-cases (path_for sha256 resolve root can_write key)) [
        | inl (e, p) ↦
            let step : put_file sha256 resolve root can_write files bytes extension ≡ err e =
              rw (put_file, p) refl in
            cc
        | inr (path, p) ↦
            let step : put_file sha256 resolve root can_write files bytes extension
                ≡ put_at sha256 resolve root can_write files bytes (sha256 bytes) key path =
              rw (put_file, p) refl in
            let (made, put) =
              put_at-IsPut files bytes (sha256 bytes) key path a after (sym step ∙ h) in
            record { path = path; inside = p; made = made; put = put }
      ]

  get_file-found :
      (files : Files) (key path : Text) (bytes : Bytes)
      → path_for sha256 resolve root can_write key ≡ ok path
      → read_file path files ≡ some bytes
      → get_file sha256 resolve root can_write files key ≡ ok bytes
  unfolding get_file
  get_file-found files key path bytes p h = rw (get_file, p, h) refl

  get_file-path :
      (files : Files) (key : Text) (bytes : Bytes)
      → get_file sha256 resolve root can_write files key ≡ ok bytes
      → (path : Text) × (path_for sha256 resolve root can_write key ≡ ok path)
        × (read_file path files ≡ some bytes)
  unfolding get_file
  get_file-path files key bytes h =
      elim (Result-cases (path_for sha256 resolve root can_write key)) [
        | inl (e, p) ↦
            let step : get_file sha256 resolve root can_write files key
                ≡ err (StoreError.not_found key) =
              rw (get_file, p) refl in
            cc
        | inr (path, p) ↦ elim (Option-cases (read_file path files)) [
          | inl n ↦
              let step : get_file sha256 resolve root can_write files key
                  ≡ err (StoreError.not_found key) =
                rw (get_file, p, n) refl in
              cc
          | inr (found, e) ↦
              let step : get_file sha256 resolve root can_write files key ≡ ok found =
                rw (get_file, p, e) refl in
              (path, p, e ∙ ap some (ok-injective found bytes (sym step ∙ h)))
        ]
      ]

  pub filesystem_store-IsWriteOnce :
      IsWriteOnce sha256 (filesystem_store sha256 resolve root can_write)
  filesystem_store-IsWriteOnce = record {
    addressed = λ s bytes extension a after h.
        let r = put_file-IsPutFile s bytes extension a after h in ap (λ x. x.content_hash) r.made;
    stored = λ s bytes extension a after h.
        let r = put_file-IsPutFile s bytes extension a after h in
        ap (get_file sha256 resolve root can_write after) (ap (λ x. x.storage_key) r.made)
        ∙ get_file-found after (key_for (sha256 bytes) extension) r.path bytes r.inside r.put.there;
    kept = λ s bytes extension a after h key old found.
        let r = put_file-IsPutFile s bytes extension a after h in
        let (path, p, e) = get_file-path s key old found in
        get_file-found after key path old p (r.put.others path old e);
  }
