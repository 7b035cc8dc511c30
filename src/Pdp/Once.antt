-- ===== src/Pdp/Once.antt =====
-- apps/api/src/pdp/transmission.service.ts: a document that is queued again has its first transmission.
use validateur_facturx.Common.{
  ℕ, ◌≡◌, refl, sym, ◌∙◌, ap, true, [], ◌∷◌, Option, none, some, inl, inr, Bool-cases, Option-cases,
  ok, err, Result, find,
}
use mathlib.Core.Path.{subst}
use validateur_facturx.Common.Text.{Text, codes, text_eq_refl}
use validateur_facturx.Pdp.Store.{Invoice, PdpConnection, Database, find_key}
use validateur_facturx.Pdp.Queue.{
  Prepared, fresh, existing, create, new_row, prepare, transmission_key, artifact_of, is_issued,
  owned_by, is_active_for, QueueError, not_transmittable, no_active_connection,
}
use validateur_facturx.Pdp.Steps.{Steps}
use validateur_facturx.Pdp.Keys.{
  ident, idents, lookup, find_key-lookup, map-append-ident, lookup-append, steps-lookup,
}

-- The row that a transaction answers with is the one that has the key.
create-lookup :
    (db : Database) (i : Invoice) (c : PdpConnection) (key id tenant_id : Text)
    (user_id : Option Text) (now : ℕ)
    → let done = create db (fresh i c key) id tenant_id user_id now in
      lookup key (idents done.1) ≡ some done.0.transmission_id
unfolding create
create-lookup db i c key id tenant_id user_id now =
    let ts = db.transmissions in
    let row = new_row id i c key now in
    elim (Option-cases (find_key key ts)) [
      | inl e ↦
          let free = (find_key-lookup key ts).0 e in
          rw (create, e)
            (ap (lookup key) (map-append-ident ts (row ∷ []))
              ∙ lookup-append key (idents db) (ident row) free
              ∙ rw (text_eq_refl key) refl)
      | inr (w, e) ↦ rw (create, e) ((find_key-lookup key ts).1 w e)
    ]

-- A key that is taken changes nothing.
create_taken :
    (db : Database) (i : Invoice) (c : PdpConnection) (key id tenant_id : Text)
    (user_id : Option Text) (now : ℕ) (row : Text)
    → lookup key (idents db) ≡ some row
    → create db (fresh i c key) id tenant_id user_id now
      ≡ (record { transmission_id = row; idempotency_key = key; already_queued = true }, db)
unfolding create
create_taken db i c key id tenant_id user_id now row h =
    elim (Option-cases (find_key key db.transmissions)) [
      | inl e ↦
          let free = (find_key-lookup key db.transmissions).0 e in
          let taken : none ≡ some row = sym free ∙ h in absurd cc
      | inr (w, e) ↦
          let same : some w.id ≡ some row =
            sym ((find_key-lookup key db.transmissions).1 w e) ∙ h in
          let eq : w.id ≡ row = cc in rw (create, e, eq) refl
    ]

-- A sealed document: an invoice and the hash of what was sealed for it.
pub record Document : Type 0 where
  pub invoice_id : Text
  pub content_hash : Text

-- The document of an invoice that a tenant asks to send.
unfoldable pub document_of : Database → Text → Text → Option Document
document_of db tenant_id invoice_id = elim (find (owned_by tenant_id invoice_id) db.invoices) [
  | none ↦ none
  | some invoice ↦ elim (artifact_of invoice.archive_entries) [
    | none ↦ none
    | some artifact ↦
        some (record { invoice_id = invoice.id; content_hash = artifact.content_hash })
  ]
]

unfoldable pub prepared_key : Prepared → Text
prepared_key (existing id key) = key
prepared_key (fresh invoice connection key) = key

-- A row that the reads have found has the key.
unfoldable IsFound : Database → Prepared → Type 0
IsFound db (existing id key) = lookup key (idents db) ≡ some id
IsFound db (fresh invoice connection key) = Unit

module _ (sha256 : Text → Text) where
  record IsPreparedFor (db : Database) (d : Document) (p : Prepared) : Type 0 where
    key : prepared_key p ≡ transmission_key sha256 d.invoice_id d.content_hash
    found : IsFound db p

  ok-injective : (p q : Prepared) → ◌≡◌ {A = Result QueueError Prepared} (ok p) (ok q) → p ≡ q
  ok-injective p q h = cc

  document-injective : (a b : Document) → ◌≡◌ {A = Option Document} (some a) (some b) → a ≡ b
  document-injective a b h = cc

  settled :
      (db : Database) (own d : Document) (q p : Prepared)
      → own ≡ d
      → q ≡ p
      → IsPreparedFor db own q
      → IsPreparedFor db d p
  settled db own d q p is_own is_p h =
      subst (IsPreparedFor db d) is_p (subst (λ x. IsPreparedFor db x q) is_own h)

  prepare_sound :
      (db : Database) (tenant_id invoice_id : Text) (d : Document) (p : Prepared)
      → document_of db tenant_id invoice_id ≡ some d
      → prepare sha256 db tenant_id invoice_id ≡ ok p
      → IsPreparedFor db d p
  unfolding document_of prepare prepared_key IsFound
  prepare_sound db tenant_id invoice_id d p doc h =
      let run = prepare sha256 db tenant_id invoice_id in
      elim (Option-cases (find (owned_by tenant_id invoice_id) db.invoices)) [
        | inl e ↦
            let no_doc : document_of db tenant_id invoice_id ≡ none = rw (document_of, e) refl in
            absurd cc
        | inr (i, e) ↦ elim (Bool-cases (is_issued i.direction)) [
          | inr f ↦
              let failed : run
                  ≡ err (
                      not_transmittable (
                        codes
                          "Seules les factures émises peuvent être transmises. Une facture reçue a déjà été transmise par son fournisseur.")) =
                rw (prepare, e, f) refl in
              absurd cc
          | inl f ↦ elim (Option-cases (artifact_of i.archive_entries)) [
            | inl g ↦
                let no_doc : document_of db tenant_id invoice_id ≡ none =
                  rw (document_of, e, g) refl in
                absurd cc
            | inr (a, g) ↦
                elim (Option-cases (find (is_active_for i.client_org.id) db.connections)) [
                  | inl k ↦
                      let failed : run ≡ err (no_active_connection i.client_org.name) =
                        rw (prepare, e, f, g, k) refl in
                      absurd cc
                  | inr (c, k) ↦
                      let key = transmission_key sha256 i.id a.content_hash in
                      let own : Document = record {
                        invoice_id = i.id;
                        content_hash = a.content_hash;
                      } in
                      let is_own : own ≡ d =
                        document-injective own d (sym (rw (document_of, e, g) refl) ∙ doc) in
                      elim (Option-cases (find_key key db.transmissions)) [
                        | inl n ↦
                            let step : run ≡ ok (fresh i c key) =
                              rw (prepare, e, f, g, k, n) refl in
                            settled db own d (fresh i c key) p is_own
                              (ok-injective _ _ (sym step ∙ h)) (record { key = refl; found = tt })
                        | inr (row, n) ↦
                            let step : run ≡ ok (existing row.id key) =
                              rw (prepare, e, f, g, k, n) refl in
                            settled db own d (existing row.id key) p is_own
                              (ok-injective _ _ (sym step ∙ h))
                              (record {
                                key = refl;
                                found = (find_key-lookup key db.transmissions).1 row n;
                              })
                      ]
                ]
          ]
        ]
      ]

-- The row that a transaction answers with has the key, also where the reads had found it.
answered :
    (db later : Database) (p : Prepared) (id tenant_id : Text) (user_id : Option Text) (now : ℕ)
    → IsFound db p
    → Steps db later
    → let done = create later p id tenant_id user_id now in
      lookup (prepared_key p) (idents done.1) ≡ some done.0.transmission_id
unfolding IsFound prepared_key create
answered db later (existing row key) id tenant_id user_id now h steps = steps-lookup key row steps h
answered db later (fresh i c key) id tenant_id user_id now h steps =
    create-lookup later i c key id tenant_id user_id now

some_text-injective : (a b : Text) → ◌≡◌ {A = Option Text} (some a) (some b) → a ≡ b
some_text-injective a b h = cc

-- Once a key has a row, whatever the reads had found, the transaction answers with that row.
answered_again :
    (db later : Database) (p : Prepared) (id tenant_id : Text) (user_id : Option Text) (now : ℕ)
    (row : Text)
    → IsFound db p
    → Steps db later
    → lookup (prepared_key p) (idents later) ≡ some row
    → create later p id tenant_id user_id now ≡ (
      record { transmission_id = row; idempotency_key = prepared_key p; already_queued = true },
      later,
    )
unfolding IsFound prepared_key create
answered_again db later (existing found key) id tenant_id user_id now row h steps taken =
    let same : found ≡ row =
      some_text-injective found row (sym (steps-lookup key found steps h) ∙ taken) in
    rw same refl
answered_again db later (fresh i c key) id tenant_id user_id now row h steps taken =
    create_taken later i c key id tenant_id user_id now row taken

-- A document that has been queued is not queued again. Each of two calls of `enqueue` reads the database, and
-- runs its transaction when other writers may have changed it; the two may overlap in any way, as long
-- as the transaction of the first runs before that of the second. When both are for the same sealed document, the
-- second answers with the transmission of the first under the key of that document, says that it was
-- queued already, and writes nothing.
pub enqueue_once :
    (sha256 : Text → Text) (read first read2 second : Database) (tenant tenant2 invoice_id : Text)
    (document : Document) (p p2 : Prepared) (id id2 : Text) (user user2 : Option Text)
    (now now2 : ℕ)
    → document_of read tenant invoice_id ≡ some document
    → document_of read2 tenant2 invoice_id ≡ some document
    → prepare sha256 read tenant invoice_id ≡ ok p
    → prepare sha256 read2 tenant2 invoice_id ≡ ok p2
    → Steps read first
    → Steps read2 second
    → Steps (create first p id tenant user now).1 second
    → create second p2 id2 tenant2 user2 now2 ≡ (
      record {
        transmission_id = (create first p id tenant user now).0.transmission_id;
        idempotency_key = transmission_key sha256 document.invoice_id document.content_hash;
        already_queued = true;
      },
      second,
    )
enqueue_once sha256 read first read2 second tenant tenant2 invoice_id document p p2 id id2 user
      user2 now now2 doc doc2 prepared prepared2 until until2 steps =
    let for_first = prepare_sound sha256 read tenant invoice_id document p doc prepared in
    let for_second = prepare_sound sha256 read2 tenant2 invoice_id document p2 doc2 prepared2 in
    let same_key : prepared_key p ≡ prepared_key p2 = for_first.key ∙ sym for_second.key in
    let row = (create first p id tenant user now).0.transmission_id in
    let taken =
      steps-lookup (prepared_key p) row steps
        (answered read first p id tenant user now for_first.found until) in
    let taken2 = subst (λ k. lookup k (idents second) ≡ some row) same_key taken in
    answered_again read2 second p2 id2 tenant2 user2 now2 row for_second.found until2 taken2
    ∙ ap
        (λ k.
          (record { transmission_id = row; idempotency_key = k; already_queued = true }, second))
        for_second.key
