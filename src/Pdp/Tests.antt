-- ===== src/Pdp/Tests.antt =====
-- apps/api/src/pdp on concrete inputs, and the theorems applied to them.
use validateur_facturx.Common.{
  ◌+◌, ◌*◌, ◌≤◌, ◌<◌, ◌≡◌, ◌↔◌, refl, arith, true, false, none, some, List, [], ◌∷◌, ◌++◌, keep,
  length, max, All, map,
}
use validateur_facturx.Common.Text.{Text, codes, includes, is_space}
use validateur_facturx.Pdp.Lifecycle.{
  queued, archived, delivered, advance_state, is_lifecycle_code, definition_of, implied_state,
  lifecycle_definitions, state_rank, advance_to,
}
use validateur_facturx.Pdp.Order.{follow, furthest, follow_rank, follow-perm, follow_monotone}
use validateur_facturx.Pdp.Store.{Transmission, Database}
use validateur_facturx.Pdp.Queue.{
  claim, selected, is_due, id_of, create, fresh, existing, Prepared, prepare, artifact_of,
  transmission_key,
}
use validateur_facturx.Pdp.Attempt.{electronic_address, by_shape}
use validateur_facturx.Pdp.Outcome.{failed_row, parks, delay_seconds}
use validateur_facturx.Pdp.Retries.{after_failures, is_failed, failures_park, retry_delay}
use validateur_facturx.Pdp.Leases.{Before, selected_sound, claim_exclusive}
use validateur_facturx.Pdp.Steps.{Steps, done, then_step, claims, enqueues, claimed_database}
use validateur_facturx.Pdp.Keys.{idents, lookup, IsUnique, steps-IsUnique}
use validateur_facturx.Pdp.Once.{Document, document_of, enqueue_once}
use validateur_facturx.Pdp.Samples.{
  some_invoice, some_connection, some_database, row_at, some_row, refused_connection,
}
use mathlib.Core.List.{Perm, Permᴰ}

advance_state_mise_a_disposition :
    advance_state queued (codes "MISE_A_DISPOSITION") ≡ some delivered
unfolding advance_state is_lifecycle_code implied_state definition_of lifecycle_definitions
    advance_to state_rank
advance_state_mise_a_disposition = refl

-- A bare SIRET is labelled by its shape.
electronic_address_siret :
    electronic_address none none (some (codes "443 061 841 00005"))
    ≡ some (record { address = codes "44306184100005"; scheme = codes "0009" })
unfolding electronic_address by_shape is_space
electronic_address_siret = refl

abbrev two_statuses : List Text
two_statuses = codes "MISE_A_DISPOSITION" ∷ codes "DEPOSEE" ∷ []

abbrev two_statuses_swapped : List Text
two_statuses_swapped = codes "DEPOSEE" ∷ codes "MISE_A_DISPOSITION" ∷ []

follow_rank_example :
    state_rank (follow queued two_statuses) ≡ max (state_rank queued) (furthest two_statuses)
follow_rank_example = follow_rank queued two_statuses

follow-perm_example : follow queued two_statuses ≡ follow queued two_statuses_swapped
follow-perm_example = follow-perm queued two_statuses two_statuses_swapped ∣ Permᴰ.swap refl refl ∣₁

follow_monotone_example :
    (state_rank queued ≤ state_rank (follow queued two_statuses))
    × (follow queued two_statuses ≡ archived ↔ queued ≡ archived)
follow_monotone_example = follow_monotone queued two_statuses

failures_park_example :
    ((after_failures some_row (refused_connection ∷ refused_connection ∷ [])).attempt ≡ 3)
    × ((is_failed (after_failures some_row (refused_connection ∷ refused_connection ∷ [])).state
          ≡ true)
        ↔ (6 < 3))
failures_park_example =
    failures_park some_row refused_connection (refused_connection ∷ []) (refl, (refl, tt))

retry_delay_example :
    let next = (failed_row some_row refused_connection.error 2000 7 some_row).next_attempt_at in
    (2000 + delay_seconds 1 * 1000 ≤ next)
    × (next < 2000 + (delay_seconds 1 + 30) * 1000)
    × (30 ≤ delay_seconds 1)
    × (delay_seconds 1 ≤ delay_seconds 2)
    × (delay_seconds 1 ≤ 3600)
unfolding parks
retry_delay_example = retry_delay some_row refused_connection.error 2000 7 (omega arith) refl

abbrev three_rows : List Transmission
three_rows = row_at (codes "r1") 3000 ∷ row_at (codes "r2") 1000 ∷ row_at (codes "r3") 9000 ∷ []

selected_sound_example :
    (rest : List Transmission) × Perm
      (keep (is_due 5000 []) three_rows)
      (selected 1 5000 [] three_rows ++ rest)
    × Before (selected 1 5000 [] three_rows) rest
    × (length (selected 1 5000 [] three_rows) ≤ 1)
    × (1 ≤ length rest → length (selected 1 5000 [] three_rows) ≡ 1)
selected_sound_example = selected_sound 1 5000 [] three_rows

claim_exclusive_example :
    let first = claim (codes "w1") 1 5000 [] three_rows in
    let second = claim (codes "w2") 10 60000 [] first.1 in
    All (λ t. includes (map id_of first.0) t.id ≡ false) second.0
claim_exclusive_example =
    claim_exclusive (codes "w1") (codes "w2") 1 10 5000 60000 [] [] three_rows (omega arith)

abbrev after_create : Database
after_create =
    (create some_database (fresh some_invoice some_connection (codes "k")) (codes "r1") (codes "t1")
      none 10).1

-- A transmission is queued, then claimed.
abbrev queued_and_claimed :
    Steps some_database
      (claimed_database after_create (claim (codes "w") 5 20 [] after_create.transmissions).1)
queued_and_claimed =
    then_step
      (then_step (done some_database) (
        enqueues some_database (fresh some_invoice some_connection (codes "k")) (codes "r1")
          (codes "t1") none 10))
      (claims after_create (codes "w") 5 20 [])

steps-IsUnique_example :
    let last =
      claimed_database after_create (claim (codes "w") 5 20 [] after_create.transmissions).1 in
    IsUnique (idents last)
    × ((key id : Text)
        → lookup key (idents some_database) ≡ some id
        → lookup key (idents last) ≡ some id)
unfolding IsUnique
steps-IsUnique_example = steps-IsUnique queued_and_claimed tt

abbrev whole_text : Text → Text
whole_text text = text

abbrev some_document : Document
some_document = record { invoice_id = codes "i1"; content_hash = codes "0f" }

abbrev first_read : Prepared
first_read = fresh some_invoice some_connection (codes "fx-i1:0f")

abbrev first_queued : Database
first_queued = (create some_database first_read (codes "r1") (codes "t1") none 10).1

abbrev second_read : Prepared
second_read = existing (codes "r1") (codes "fx-i1:0f")

enqueue_once_example : create first_queued second_read (codes "r2") (codes "t1") none 20 ≡ (
  record {
    transmission_id =
        (create some_database first_read (codes "r1") (codes "t1") none 10).0.transmission_id;
    idempotency_key = transmission_key whole_text (codes "i1") (codes "0f");
    already_queued = true;
  },
  first_queued,
)
unfolding document_of prepare artifact_of transmission_key create
enqueue_once_example =
    enqueue_once whole_text some_database some_database first_queued first_queued (codes "t1")
      (codes "t1") (codes "i1") some_document first_read second_read (codes "r1") (codes "r2") none
      none 10 20 refl refl refl refl (done some_database) (done first_queued) (done first_queued)
