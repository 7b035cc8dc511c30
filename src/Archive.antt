-- ===== src/Archive.antt =====
-- apps/api/src/archiving: the sealed archive of invoices.
mod Tests
pub mod Store
pub mod Filesystem
pub mod WriteOnce
pub mod Service
pub mod Sealed
