-- ===== src/DraftCheck.antt =====
-- packages/facturx/src/generate/check-draft.ts: the checks of a draft before anything is generated.
mod Tests
pub mod Samples
pub mod Issues
pub mod Dates
pub mod DateOrder
pub mod Calendar
pub mod Iban
pub mod Mod97
pub mod Typing
pub mod Header
pub mod Party
pub mod Lines
pub mod Whole
pub mod Coherent
pub mod Ready
