-- ===== src/Pdp/Drain.antt =====
-- apps/api/src/pdp/transmission.service.ts: an attempt from its request to what it records, a batch of
-- attempts, and the sweep that queues what an interrupted request left.
use validateur_facturx.Common.{
  ℕ, ◌+◌, List, [], ◌∷◌, Option, none, some, Result, ok, err, find, length, Bool,
}
use validateur_facturx.Common.Failing.{◌>>=◌}
use validateur_facturx.Common.Text.{Text, codes, text_eq}
use validateur_facturx.Pdp.Store.{Transmission, Invoice, Database}
use validateur_facturx.Pdp.Queue.{QueueError, other, claim}
use validateur_facturx.Pdp.Attempt.{TransmitRequest, Archive, build_request}
use validateur_facturx.Pdp.Outcome.{
  AttemptOutcome, was_sent, retry_later, was_parked, record_sent, record_failure,
}

-- The adapter that the registry resolves and its platform: an identifier and the date of acceptance,
-- or an error.
abbrev pub Platform : Type 0
Platform = TransmitRequest → Result QueueError (Text × ℕ)

abbrev invoice_of : Transmission → Invoice → Bool
invoice_of row i = text_eq i.id row.invoice_id

abbrev required_invoice : Option Invoice → Result QueueError Invoice
required_invoice none = err (other (codes "No record was found for a query."))
required_invoice (some i) = ok i

unfoldable pub send : Archive → Platform → Database → Transmission → Result QueueError (Text × ℕ)
unfolding build_request
send retrieve transmit db row = do
  invoice ← required_invoice (find (invoice_of row) db.invoices)
  request ← build_request retrieve row invoice
  transmit request

-- What the attempt records on the database of the moment at which the platform has answered.
unfoldable pub settle :
    Database → Transmission → Result QueueError (Text × ℕ) → ℕ → ℕ → AttemptOutcome × Database
unfolding record_sent record_failure
settle db row (ok (external_id, accepted_at)) now random =
    (was_sent, record_sent db row external_id accepted_at now)
settle db row (err error) now random = record_failure db row error now random

unfoldable pub attempt :
    Archive → Platform → Database → Transmission → ℕ → ℕ → AttemptOutcome × Database
unfolding send settle
attempt retrieve transmit db row now random =
    settle db row (send retrieve transmit db row) now random

pub record DrainReport : Type 0 where
  pub claimed : ℕ
  pub sent : ℕ
  pub failed : ℕ
  pub parked : ℕ

abbrev count : AttemptOutcome → DrainReport → DrainReport
count was_sent r = record r { sent = r.sent + 1 }
count was_parked r = record r { parked = r.parked + 1 }
count retry_later r = record r { failed = r.failed + 1 }

-- The loop over the claimed rows; `random` gives each attempt its random number.
unfoldable pub attempts :
    Archive
    → Platform
    → (ℕ → ℕ)
    → ℕ
    → List Transmission
    → Database
    → DrainReport
    → DrainReport × Database
unfolding attempt
attempts retrieve transmit random now [] db report = (report, db)
attempts retrieve transmit random now (row ∷ rows) db report =
    let (outcome, next) = attempt retrieve transmit db row now (random (length rows)) in
    attempts retrieve transmit random now rows next (count outcome report)

unfoldable pub drain :
    Archive → Platform → (ℕ → ℕ) → Text → ℕ → ℕ → List Text → Database → DrainReport × Database
unfolding attempts claim
drain retrieve transmit random worker limit now locked db =
    let (rows, transmissions) = claim worker limit now locked db.transmissions in
    attempts retrieve transmit random now rows (record db { transmissions = transmissions })
      (record { claimed = length rows; sent = 0; failed = 0; parked = 0 })
