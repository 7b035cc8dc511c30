-- ===== src/Pdp/Sync.antt =====
-- apps/api/src/pdp/pdp-sync.service.ts: what one polled status writes, and the cursor of a poll.
use validateur_facturx.Common.{
  ℕ, ◌+◌, Bool, true, false, List, [], ◌∷◌, ◌++◌, Option, none, some, ◌&&◌, find, if◌then◌else◌,
}
use validateur_facturx.Common.Sorting.{sort_by}
use validateur_facturx.Common.Text.{Text, codes, text_eq, includes}
use validateur_facturx.Pdp.Lifecycle.{
  InvoiceState, rejected, implied_state, lifecycle_label, is_lifecycle_code,
}
use validateur_facturx.Pdp.Store.{
  Transmission, TransmissionState, pending, sent, acknowledged, failed, LifecycleStatus, pa,
  Database, update_transmission, update_invoice, create_status, has_status,
}
use validateur_facturx.Pdp.Outcome.{apply_to}

abbrev pub acknowledging_codes : List Text
acknowledging_codes =
    codes "MISE_A_DISPOSITION"
    ∷ codes "RECUE_PAR_LA_PLATEFORME_DESTINATAIRE"
    ∷ codes "APPROUVEE"
    ∷ codes "APPROUVEE_PARTIELLEMENT"
    ∷ []

pub record StatusUpdate : Type 0 where
  pub external_id : Text
  pub code : Text
  pub occurred_at : ℕ

abbrev is_sent : TransmissionState → Bool
is_sent sent = true
is_sent _ = false

abbrev is_rejected : Option InvoiceState → Bool
is_rejected (some rejected) = true
is_rejected _ = false

abbrev pub acknowledge_row : ℕ → Transmission → Transmission
acknowledge_row occurred_at t = record t {
  state = acknowledged;
  acknowledged_at = some occurred_at;
}

-- `updateMany({ where: { id, state: 'PENDING' } })`, on a row in the given state
abbrev pub refuse_in : Text → TransmissionState → Transmission → Transmission
refuse_in code pending t = record t {
  state = failed;
  last_error = some (codes "Refusée par la plateforme : " ++ code);
}
refuse_in code sent t = t
refuse_in code acknowledged t = t
refuse_in code failed t = t

abbrev pub refuse_row : Text → Transmission → Transmission
refuse_row code t = refuse_in code t.state t

unfoldable pub acknowledges : Text → TransmissionState → Bool
acknowledges code state = includes acknowledging_codes code && is_sent state

unfoldable pub refuses : Text → Bool
refuses code = is_lifecycle_code code && is_rejected (implied_state code)

unfoldable pub status_of : Transmission → StatusUpdate → LifecycleStatus
status_of transmission update = record {
  invoice_id = transmission.invoice_id;
  code = update.code;
  label = lifecycle_label update.code;
  source = pa;
  occurred_at = update.occurred_at;
}

unfoldable pub acknowledged_rows :
    Transmission → StatusUpdate → List Transmission → List Transmission
unfolding acknowledges
acknowledged_rows transmission update ts =
    if acknowledges update.code transmission.state
    then update_transmission transmission.id (acknowledge_row update.occurred_at) ts
    else ts

unfoldable pub refused_rows : Transmission → StatusUpdate → List Transmission → List Transmission
unfolding refuses
refused_rows transmission update ts =
    if refuses update.code
    then update_transmission transmission.id (refuse_row update.code) ts
    else ts

-- The transaction; `transmission` is the row as the poller has read it.
unfoldable pub apply_status : Database → Transmission → StatusUpdate → Bool × Database
unfolding status_of acknowledged_rows refused_rows
apply_status db transmission update =
    if has_status (status_of transmission update) db.statuses then (false, db) else (
      true,
      record db {
        statuses = create_status (status_of transmission update) db.statuses;
        invoices = update_invoice transmission.invoice_id (apply_to update.code) db.invoices;
        transmissions =
            refused_rows transmission update
              (acknowledged_rows transmission update db.transmissions);
      },
    )

pub record StatusPollReport : Type 0 where
  pub fetched : ℕ
  pub recorded : ℕ
  pub unmatched : ℕ

abbrev occurred : StatusUpdate → ℕ
occurred u = u.occurred_at

-- `[...updates].sort(…)` by date
unfoldable pub ordered_updates : List StatusUpdate → List StatusUpdate
unfolding sort_by
ordered_updates = sort_by occurred

abbrev is_option_text : Option Text → Text → Bool
is_option_text none t = false
is_option_text (some s) t = text_eq s t

abbrev pub matches_update : Text → StatusUpdate → Transmission → Bool
matches_update connection_id update t =
    is_option_text t.external_id update.external_id && text_eq t.pdp_connection_id connection_id

abbrev count_if : Bool → ℕ → ℕ
count_if true n = n + 1
count_if false n = n

pub record Poll : Type 0 where
  pub database : Database
  pub recorded : ℕ
  pub unmatched : ℕ
  pub watermark : Option ℕ

unfoldable pub poll_update : Text → Poll → StatusUpdate → Poll
unfolding apply_status
poll_update connection_id p update =
    elim (find (matches_update connection_id update) p.database.transmissions) [
      | none ↦ record p { unmatched = p.unmatched + 1; watermark = some update.occurred_at }
      | some transmission ↦
          let (written, next) = apply_status p.database transmission update in
          record {
            database = next;
            recorded = count_if written p.recorded;
            unmatched = p.unmatched;
            watermark = some update.occurred_at;
          }
    ]

unfoldable pub poll_updates : Text → Poll → List StatusUpdate → Poll
unfolding poll_update
poll_updates connection_id p [] = p
poll_updates connection_id p (u ∷ us) =
    poll_updates connection_id (poll_update connection_id p u) us
