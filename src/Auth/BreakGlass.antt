-- ===== src/Auth/BreakGlass.antt =====
-- backend/src/ops_composer/auth/service.py: what the command line does for the sole owner, and logout.
-- `canonical` is `canonical_username` and `lower` PostgreSQL's.
use ops_composer.Prelude.{ℕ, String, not, ◌==◌, text_eq, delete_where}
use ops_composer.Db.{Tx, modify, return, raise_if, require, ◌>>=◌, ◌>>◌}
use ops_composer.Domain.Auth.{UserIdentity, SessionPrincipal}
use ops_composer.Domain.Audit.{AuditAction, AuditSource}
use ops_composer.Domain.Errors.{value_error}
use ops_composer.Audit
use ops_composer.Auth.Users.{
  is_active_owner, count_active_owners, find_user_by_username, reset_mfa, update_password_hash,
  delete_user_sessions, set_enrollment, set_touched,
}
use ops_composer.Auth.Admin.{by_actor, by_user, validate_username, validate_password}

-- The only active owner, by name.
unfoldable pub sole_owner : (String → String) → String → Tx UserIdentity
unfolding find_user_by_username count_active_owners
sole_owner lower username = do
  found ← find_user_by_username lower username
  user ← require found value_error
  raise_if (not (is_active_owner user)) value_error
  n ← count_active_owners
  raise_if (not (n == 1)) value_error
  return user

-- `phrase` is the confirmation that the normalized name asks for.
unfoldable pub break_glass_reset_mfa :
    (canonical lower phrase : String → String) → String → String → ℕ → Tx UserIdentity
unfolding sole_owner reset_mfa Audit.append
break_glass_reset_mfa canonical lower phrase username confirmation now = do
  raise_if (not (text_eq confirmation (phrase (canonical username)))) value_error
  user ← sole_owner lower (canonical username)
  reset_mfa user.user_id now
  Audit.append (by_user AuditAction.user_mfa_break_glass AuditSource.cli user.user_id)
  return (set_enrollment now user)

unfoldable pub break_glass_reset_password :
    (canonical lower phrase hash_password : String → String)
    → String
    → String
    → String
    → ℕ
    → Tx UserIdentity
unfolding validate_username validate_password sole_owner update_password_hash delete_user_sessions
    Audit.append
break_glass_reset_password canonical lower phrase hash_password username confirmation new_password
      now =
    do
      validate_username (canonical username)
      raise_if (not (text_eq confirmation (phrase (canonical username)))) value_error
      validate_password new_password
      user ← sole_owner lower (canonical username)
      update_password_hash user.user_id (hash_password new_password) now
      delete_user_sessions user.user_id
      Audit.append (by_user AuditAction.user_password_changed AuditSource.cli user.user_id)
      return (set_touched now user)

unfoldable pub delete_session : ℕ → Tx (Unit {0})
unfolding delete_where
delete_session session_id =
    modify λ db. record db { sessions = delete_where (λ s. s.session_id == session_id) db.sessions }

unfoldable pub logout : SessionPrincipal → Tx (Unit {0})
unfolding delete_session Audit.append
logout principal = do
  delete_session principal.session_id
  Audit.append (by_actor AuditAction.auth_logout_succeeded principal)
