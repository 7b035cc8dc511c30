-- ===== src/Pdp.antt =====
-- apps/api/src/pdp: the exchange with the certified platforms.
mod Tests
pub mod Lifecycle
pub mod Order
pub mod Store
pub mod Queue
pub mod Attempt
pub mod Outcome
pub mod Drain
pub mod Sync
pub mod Retries
pub mod Leases
pub mod Steps
pub mod Keys
pub mod Once
mod Samples
