-- ===== src/Pdp/Steps.antt =====
-- apps/api/src/pdp: the writes to the queue as steps, in any order and by any number of workers. A
-- step takes the row or the invoice that it read earlier as an argument, so that every interleaving of
-- the readers and the writers is a sequence of steps.
use validateur_facturx.Common.{ℕ, ◌≡◌, List, Option, ok}
use validateur_facturx.Common.Text.{Text}
use validateur_facturx.Pdp.Store.{Transmission, Database}
use validateur_facturx.Pdp.Queue.{QueueError, Prepared, create, claim}
use validateur_facturx.Pdp.Outcome.{record_sent, record_failure, retry}
use validateur_facturx.Pdp.Sync.{StatusUpdate, apply_status}

abbrev pub claimed_database : Database → List Transmission → Database
claimed_database db ts = record db { transmissions = ts }

pub data Step : Database → Database → Type 0 where
  enqueues :
      (db : Database) (prepared : Prepared) (id tenant_id : Text) (user_id : Option Text) (now : ℕ)
      → Step db (create db prepared id tenant_id user_id now).1
  claims :
      (db : Database) (worker : Text) (limit now : ℕ) (locked : List Text)
      → Step db (claimed_database db (claim worker limit now locked db.transmissions).1)
  sends :
      (db : Database) (row : Transmission) (external_id : Text) (accepted_at now : ℕ)
      → Step db (record_sent db row external_id accepted_at now)
  fails :
      (db : Database) (row : Transmission) (error : QueueError) (now random : ℕ)
      → Step db (record_failure db row error now random).1
  retries :
      (db next : Database) (tenant_id id : Text) (now : ℕ)
      → retry db tenant_id id now ≡ ok next
      → Step db next
  polls :
      (db : Database) (row : Transmission) (update : StatusUpdate)
      → Step db (apply_status db row update).1

pub data Steps : Database → Database → Type 0 where
  done : (db : Database) → Steps db db
  then_step : {a b c : Database} → Steps a b → Step b c → Steps a c
