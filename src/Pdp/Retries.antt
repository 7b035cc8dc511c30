-- ===== src/Pdp/Retries.antt =====
-- apps/api/src/pdp/transmission.service.ts: when a transmission that keeps failing is parked, and how
-- long it waits between attempts.
use validateur_facturx.Common.{
  ℕ, zero, suc, ◌+◌, ◌*◌, ◌^◌, ◌≤◌, ◌<◌, min, ◌≡◌, ◌↔◌, arith, Bool, true, false, List, [], ◌∷◌,
  All, length,
}
use validateur_facturx.Pdp.Store.{Transmission, TransmissionState, failed}
use validateur_facturx.Pdp.Queue.{QueueError}
use validateur_facturx.Pdp.Outcome.{is_permanent, parks, failed_row, delay_seconds, jitter}

-- A failed attempt: its error, its date and its random number.
pub record Failure : Type 0 where
  pub error : QueueError
  pub now : ℕ
  pub random : ℕ

-- A row after its attempts have failed one by one; each worker has claimed the row as it then stood.
abbrev pub after_failures : Transmission → List Failure → Transmission
after_failures row [] = row
after_failures row (f ∷ fs) = after_failures (failed_row row f.error f.now f.random row) fs

abbrev pub is_failed : TransmissionState → Bool
is_failed failed = true
is_failed _ = false

abbrev pub IsTemporary : Failure → Type 0
IsTemporary f = is_permanent f.error ≡ false

-- Once a list of temporary failures, not empty, has gone by, each attempt is counted, and the row is
-- parked exactly when the count has passed six: a row that `enqueue` has created, whose count starts
-- at 1, by its sixth failure, and one that was retried by hand, from 0, by its seventh.
pub failures_park :
    (row : Transmission) (f : Failure) (fs : List Failure)
    → All IsTemporary (f ∷ fs)
    → ((after_failures row (f ∷ fs)).attempt ≡ row.attempt + length (f ∷ fs))
      × ((is_failed (after_failures row (f ∷ fs)).state ≡ true)
          ↔ (6 < row.attempt + length (f ∷ fs)))
unfolding failed_row parks
failures_park row f [] (t, _) = rw t (ground arith)
failures_park row f (g ∷ fs) (t, ts) =
    let ih = failures_park (failed_row row f.error f.now f.random row) g fs ts in ground arith

delay_bounds :
    (n : ℕ)
    → (30 ≤ delay_seconds n) × (delay_seconds n ≤ delay_seconds (suc n)) × (delay_seconds n ≤ 3600)
unfolding delay_seconds
delay_bounds zero = (omega arith, omega arith, omega arith)
delay_bounds (suc zero) = (omega arith, omega arith, omega arith)
delay_bounds (suc (suc zero)) = (omega arith, omega arith, omega arith)
delay_bounds (suc (suc (suc zero))) = (omega arith, omega arith, omega arith)
delay_bounds (suc (suc (suc (suc n)))) =
    let last : min (suc (suc (suc (suc n)))) 4 ≡ 4 = omega arith in
    let next : min (suc (suc (suc (suc (suc n))))) 4 ≡ 4 = omega arith in
    rw (last, next) (omega arith, omega arith, omega arith)

jitter-lt : (random : ℕ) → random < 2 ^ 53 → jitter random 30 < 30
unfolding jitter
jitter-lt random h = omega arith

-- A failure that does not park the row sets its next attempt at least thirty seconds ahead, and no
-- more than an hour and thirty seconds; later failures never wait less, but for the random part, which
-- is less than thirty seconds.
pub retry_delay :
    (row : Transmission) (e : QueueError) (now random : ℕ)
    → random < 2 ^ 53
    → parks row e ≡ false
    → let next = (failed_row row e now random row).next_attempt_at in
      (now + delay_seconds row.attempt * 1000 ≤ next)
      × (next < now + (delay_seconds row.attempt + 30) * 1000)
      × (30 ≤ delay_seconds row.attempt)
      × (delay_seconds row.attempt ≤ delay_seconds (suc row.attempt))
      × (delay_seconds row.attempt ≤ 3600)
unfolding failed_row
retry_delay row e now random h p =
    let (low, mono, high) = delay_bounds row.attempt in
    let thirty : min (delay_seconds row.attempt) 30 ≡ 30 = omega arith in
    let less = jitter-lt random h in rw (p, thirty) (omega arith, omega arith, low, mono, high)
