-- ===== src/Keys.antt =====
-- Master keys, what is encrypted under them, and their rotation.
pub mod Keyring
pub mod Store
pub mod Service
pub mod Secrets
pub mod Reencrypt
pub mod Vault
pub mod Tables
pub mod Rotation
pub mod Remaining
pub mod Progress
pub mod Shrinks
pub mod Readable
pub mod Settles
pub mod Jobs
pub mod Liveness
pub mod Requests
pub mod Failures
pub mod Startup
pub mod Built
mod Examples
