-- ===== src/Pdp/Outcome.antt =====
-- apps/api/src/pdp/transmission.service.ts: what an attempt records, and the retry by hand.
use validateur_facturx.Common.{
  ℕ, ◌+◌, ◌*◌, ◌/◌, ◌^◌, min, Bool, true, false, ◌++◌, Option, none, some, Result, ok, err, ◌&&◌,
  ◌||◌, ltb, find, take, get_elem?, Bool-cases, refl, ◌≡◌, inl, inr, if◌then◌else◌,
}
use validateur_facturx.Common.Text.{Text, codes, text_eq}
use validateur_facturx.Money.Digits.{to_string}
use validateur_facturx.Pdp.Lifecycle.{apply_code, lifecycle_label}
use validateur_facturx.Pdp.Store.{
  Transmission, TransmissionState, pending, sent, acknowledged, failed, Invoice, LifecycleStatus,
  internal, pa, Database, update_transmission, update_invoice, create_status,
}
use validateur_facturx.Pdp.Queue.{
  QueueError, not_transmittable, no_active_connection, other, backoff_seconds, max_attempts,
}

-- `error instanceof NotTransmittableError`
abbrev pub is_permanent : QueueError → Bool
is_permanent (not_transmittable m) = true
is_permanent (no_active_connection m) = false
is_permanent (other m) = false

abbrev pub message_of : QueueError → Text
message_of (not_transmittable m) = m
message_of (no_active_connection m) = m
message_of (other m) = m

-- `BACKOFF_SECONDS[i]`, which is never out of range here
abbrev number_or_zero : Option ℕ → ℕ
number_or_zero none = 0
number_or_zero (some n) = n

unfoldable pub delay_seconds : ℕ → ℕ
delay_seconds attempt = number_or_zero (get_elem? backoff_seconds (min attempt 4))

-- `Math.floor(Math.random() * m)`: the random number is a multiple of 2^-53 below 1.
unfoldable pub jitter : ℕ → ℕ → ℕ
jitter random m = random * m / 2 ^ 53

unfoldable pub parks : Transmission → QueueError → Bool
parks row error = is_permanent error || ltb max_attempts (row.attempt + 1)

-- The columns that a failure writes, from the row as the worker claimed it.
unfoldable pub failed_row : Transmission → QueueError → ℕ → ℕ → Transmission → Transmission
unfolding parks delay_seconds jitter
failed_row row error now random current =
    let delay = delay_seconds row.attempt in
    record current {
      state = if parks row error then failed else pending;
      attempt = row.attempt + 1;
      last_error = some (take 1000 (message_of error));
      claimed_at = none;
      claimed_by = none;
      next_attempt_at =
          if parks row error
          then row.next_attempt_at
          else now + (delay + jitter random (min delay 30)) * 1000;
    }

abbrev failure_label : Bool → ℕ → Text
failure_label true attempt =
    codes "Transmission abandonnée après " ++ (to_string attempt ++ codes " tentative(s)")
failure_label false attempt =
    codes "Échec de transmission (tentative " ++ (to_string attempt ++ codes ")")

abbrev failure_code : Bool → Text
failure_code true = codes "TRANSMISSION_ABANDONNEE"
failure_code false = codes "TRANSMISSION_ECHOUEE"

unfoldable pub failure_status : Transmission → QueueError → ℕ → LifecycleStatus
unfolding parks
failure_status row error now = record {
  invoice_id = row.invoice_id;
  code = failure_code (parks row error);
  label = some (failure_label (parks row error) (row.attempt + 1));
  source = internal;
  occurred_at = now;
}

pub data AttemptOutcome : Type 0 where
  was_sent retry_later was_parked : AttemptOutcome

unfoldable pub record_failure :
    Database → Transmission → QueueError → ℕ → ℕ → AttemptOutcome × Database
unfolding failed_row failure_status
record_failure db row error now random = (
  (if parks row error then was_parked else retry_later),
  record db {
    transmissions = update_transmission row.id (failed_row row error now random) db.transmissions;
    statuses = create_status (failure_status row error now) db.statuses;
  },
)

unfoldable pub sent_row : Text → ℕ → Transmission → Transmission
sent_row external_id now current = record current {
  state = sent;
  external_id = some external_id;
  sent_at = some now;
  last_error = none;
  claimed_at = none;
  claimed_by = none;
}

abbrev pub apply_to : Text → Invoice → Invoice
apply_to code i = record i { state = apply_code i.state code }

unfoldable pub sent_status : Transmission → ℕ → LifecycleStatus
sent_status row accepted_at = record {
  invoice_id = row.invoice_id;
  code = codes "DEPOSEE";
  label = lifecycle_label (codes "DEPOSEE");
  source = pa;
  occurred_at = accepted_at;
}

unfoldable pub record_sent : Database → Transmission → Text → ℕ → ℕ → Database
unfolding sent_row sent_status
record_sent db row external_id accepted_at now = record db {
  transmissions = update_transmission row.id (sent_row external_id now) db.transmissions;
  statuses = create_status (sent_status row accepted_at) db.statuses;
  invoices = update_invoice row.invoice_id (apply_to (codes "DEPOSEE")) db.invoices;
}

abbrev pub was_transmitted : TransmissionState → Bool
was_transmitted sent = true
was_transmitted acknowledged = true
was_transmitted _ = false

abbrev pub reset_row : ℕ → Transmission → Transmission
reset_row now current = record current {
  state = pending;
  next_attempt_at = now;
  attempt = 0;
  claimed_at = none;
  claimed_by = none;
}

abbrev pub with_id : Text → Transmission → Bool
with_id id t = text_eq t.id id

-- `invoice: { tenantId }`
abbrev invoice_of_tenant : Text → Transmission → Invoice → Bool
invoice_of_tenant tenant_id t i = text_eq i.id t.invoice_id && text_eq i.tenant_id tenant_id

abbrev tenant_row : Database → Text → Text → Transmission → Bool
tenant_row db tenant_id id t =
    with_id id t && any_invoice (find (invoice_of_tenant tenant_id t) db.invoices)
  where
    any_invoice : Option Invoice → Bool
    any_invoice none = false
    any_invoice (some i) = true

abbrev already_sent_message : Text
already_sent_message =
    codes
      "Cette facture a déjà été transmise. La renvoyer créerait un doublon chez le destinataire."

-- A retry, once its row has been looked up.
unfoldable pub retry_found : Database → ℕ → Option Transmission → Result QueueError Database
retry_found db now none = err (not_transmittable (codes "Transmission introuvable."))
retry_found db now (some row) =
    if was_transmitted row.state
    then err (not_transmittable already_sent_message)
    else ok
        (record db { transmissions = update_transmission row.id (reset_row now) db.transmissions })

unfoldable pub retry : Database → Text → Text → ℕ → Result QueueError Database
unfolding retry_found
retry db tenant_id id now = retry_found db now (find (tenant_row db tenant_id id) db.transmissions)

-- A retry that is not refused writes one row, which had not been transmitted.
pub retry_returned :
    (db : Database) (now : ℕ) (found : Option Transmission) (next : Database)
    → retry_found db now found ≡ ok next
    → (row : Transmission) × (was_transmitted row.state ≡ false)
      × (next ≡ record db {
        transmissions = update_transmission row.id (reset_row now) db.transmissions;
      })
unfolding retry_found
retry_returned db now none next h = cc
retry_returned db now (some row) next h = elim (Bool-cases (was_transmitted row.state)) [
  | inl w ↦
      let refused : retry_found db now (some row) ≡ err (not_transmittable already_sent_message) =
        rw w refl in
      cc
  | inr w ↦
      let reset : retry_found db now (some row)
          ≡ ok (record db {
            transmissions = update_transmission row.id (reset_row now) db.transmissions;
          }) =
        rw w refl in
      (row, w, cc)
]
