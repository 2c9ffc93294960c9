-- ===== src/Domain.antt =====
-- The data that the components share: backend/src/ops_composer/domain and auth/models.py.
pub mod Json
pub mod Audit
pub mod Ops
pub mod WebShell
pub mod Auth
pub mod Assets
pub mod Errors
pub mod Encryption
