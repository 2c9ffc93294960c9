-- ===== src/Auth/Frame/Recovery.antt =====
-- What the commands for the sole owner, and logout, of auth/service.py do to `users`.
use ops_composer.Prelude.{ℕ, String, not, List, ◌==◌, text_eq, update_where}
use ops_composer.Db.{
  return, raise_if, require, Keeps, Keeps-bind, Keeps-raise_if, Keeps-require, ◌>>◌,
}
use ops_composer.Domain.Auth.{UserIdentity, SessionPrincipal}
use ops_composer.Domain.Audit.{AuditAction, AuditSource}
use ops_composer.Domain.Errors.{value_error}
use ops_composer.Audit
use ops_composer.Auth.Users.{
  has_user_id, is_active_owner, count_active_owners, find_user_by_username, reset_mfa,
  update_password_hash, delete_user_sessions, set_enrollment, set_touched,
}
use ops_composer.Auth.Admin.{by_actor, by_user, validate_username, validate_password}
use ops_composer.Auth.BreakGlass.{
  sole_owner, break_glass_reset_mfa, break_glass_reset_password, delete_session, logout,
}
use ops_composer.Auth.Frame.{
  OnUsers, append-Keeps, ends_with, reset_mfa-Keeps, delete_user_sessions-Keeps,
}

module _ (P : List UserIdentity → Type 0) where
  sole_owner-Keeps :
      (lower : String → String) (username : String) → Keeps (OnUsers P) (sole_owner lower username)
  unfolding sole_owner find_user_by_username count_active_owners
  sole_owner-Keeps lower username =
      Keeps-bind (OnUsers P) (find_user_by_username lower username) _ (λ db p. p)
        λ found.
          Keeps-bind (OnUsers P) (require found value_error) _
            (Keeps-require (OnUsers P) found value_error)
            λ user.
              Keeps-bind (OnUsers P) (raise_if (not (is_active_owner user)) value_error) _
                (Keeps-raise_if (OnUsers P) (not (is_active_owner user)) value_error)
                λ _.
                  Keeps-bind (OnUsers P) count_active_owners
                    (λ n. raise_if (not (n == 1)) value_error >> return user) (λ db p. p)
                    λ n.
                      Keeps-bind (OnUsers P) (raise_if (not (n == 1)) value_error)
                        (λ _. return user) (Keeps-raise_if (OnUsers P) (not (n == 1)) value_error)
                        λ _ db p. p

  pub break_glass_reset_mfa-Keeps :
      (canonical lower phrase : String → String) (username confirmation : String) (now : ℕ)
      → ((user_id : ℕ) (us : List UserIdentity)
          → P us
          → P (update_where (has_user_id user_id) (set_enrollment now) us))
      → Keeps (OnUsers P) (break_glass_reset_mfa canonical lower phrase username confirmation now)
  unfolding break_glass_reset_mfa
  break_glass_reset_mfa-Keeps canonical lower phrase username confirmation now resets =
      Keeps-bind (OnUsers P)
        (raise_if (not (text_eq confirmation (phrase (canonical username)))) value_error) _
        (Keeps-raise_if (OnUsers P) (not (text_eq confirmation (phrase (canonical username))))
          value_error)
        λ _.
          Keeps-bind (OnUsers P) (sole_owner lower (canonical username))
            (λ user. do
              reset_mfa user.user_id now
              Audit.append (by_user AuditAction.user_mfa_break_glass AuditSource.cli user.user_id)
              return (set_enrollment now user))
            (sole_owner-Keeps lower (canonical username))
            λ user.
              ends_with P (set_enrollment now user) (reset_mfa user.user_id now)
                (by_user AuditAction.user_mfa_break_glass AuditSource.cli user.user_id)
                (reset_mfa-Keeps P user.user_id now (resets user.user_id))

  pub break_glass_reset_password-Keeps :
      (canonical lower phrase hash_password : String → String)
      (username confirmation new_password : String) (now : ℕ)
      → ((user_id : ℕ) (us : List UserIdentity)
          → P us
          → P (update_where (has_user_id user_id) (set_touched now) us))
      → Keeps (OnUsers P) (
          break_glass_reset_password canonical lower phrase hash_password username confirmation
            new_password now)
  unfolding break_glass_reset_password validate_username validate_password update_password_hash
  break_glass_reset_password-Keeps canonical lower phrase hash_password username confirmation
        new_password now touches =
      Keeps-bind (OnUsers P) (validate_username (canonical username)) _
        (Keeps-raise_if (OnUsers P) _ _)
        λ _.
          Keeps-bind (OnUsers P)
            (raise_if (not (text_eq confirmation (phrase (canonical username)))) value_error) _
            (Keeps-raise_if (OnUsers P) (not (text_eq confirmation (phrase (canonical username))))
              value_error)
            λ _.
              Keeps-bind (OnUsers P) (validate_password new_password) _
                (Keeps-raise_if (OnUsers P) _ _)
                λ _.
                  Keeps-bind (OnUsers P) (sole_owner lower (canonical username))
                    (λ user. do
                      update_password_hash user.user_id (hash_password new_password) now
                      delete_user_sessions user.user_id
                      Audit.append
                          (by_user AuditAction.user_password_changed AuditSource.cli user.user_id)
                      return (set_touched now user))
                    (sole_owner-Keeps lower (canonical username))
                    λ user.
                      Keeps-bind (OnUsers P)
                        (update_password_hash user.user_id (hash_password new_password) now)
                        (λ _. do
                          delete_user_sessions user.user_id
                          Audit.append (
                              by_user AuditAction.user_password_changed AuditSource.cli
                                user.user_id)
                          return (set_touched now user))
                        (λ db p. touches user.user_id db.users p)
                        λ _.
                          ends_with P (set_touched now user) (delete_user_sessions user.user_id)
                            (by_user AuditAction.user_password_changed AuditSource.cli user.user_id)
                            (delete_user_sessions-Keeps P user.user_id)

  pub logout-Keeps : (principal : SessionPrincipal) → Keeps (OnUsers P) (logout principal)
  unfolding logout delete_session
  logout-Keeps principal =
      Keeps-bind (OnUsers P) (delete_session principal.session_id)
        (λ _. Audit.append (by_actor AuditAction.auth_logout_succeeded principal)) (λ db p. p)
        λ _. append-Keeps P (by_actor AuditAction.auth_logout_succeeded principal)
