-- ===== src/Auth.antt =====
-- packages/auth: who may do what, and for how long a session lasts.
mod Tests
pub mod Permissions
pub mod Session
pub mod Lifetime
pub mod Revocation
pub mod Credential
pub mod Links
pub mod Newest
pub mod Password
pub mod Reset
