-- ===== src/Invoice.antt =====
-- packages/facturx/src/generate: the draft that a user submits, and what is derived from it.
pub mod Draft
pub mod Compute
pub mod Grouping
pub mod Cents
pub mod Tax
pub mod Balance
pub mod Reading
pub mod Samples
mod Tests
