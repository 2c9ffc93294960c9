-- ===== src/Auth.antt =====
-- backend/src/ops_composer/auth/service.py: the guards that the services call first.
pub mod Totp
pub mod Users
pub mod Sessions
pub mod Admin
pub mod BreakGlass
pub mod Steps
pub mod Frame
pub mod Owners
pub mod Versions
pub mod Stale
pub mod RateLimits
pub mod Login
pub mod Lockout
pub mod Verified
mod Examples
mod UserExamples
mod LoginExamples
use ops_composer.Prelude.{not}
use ops_composer.Db.{Tx, raise_if}
use ops_composer.Domain.Auth.{Permission, SessionPrincipal}
use ops_composer.Domain.Errors.{permission_denied}

unfoldable pub require_permission : SessionPrincipal → Permission → Tx (Unit {0})
require_permission principal permission =
    raise_if (not (principal.permissions permission)) permission_denied
