-- ===== src/Auth/Frame.antt =====
-- What the statements and units of work of auth/repository.py and auth/service.py do to `users`.
pub mod Changes
pub mod Recovery
use ops_composer.Prelude.{
  ℕ, String, ◌≡◌, refl, Bool, true, false, not, Option, none, some, List, [], ◌∷◌, ◌++◌, ◌||◌, ◌&&◌,
  inl, inr, arith, Bool-cases, Option-cases, if◌then◌else◌, exists_where, first_where, update_where,
  ◌==◌,
}
use ops_composer.Db.{
  Db, Tx, Result, ok, err, return, raise_if, require, After, Keeps, Keeps-bind, Keeps-raise_if,
  Keeps-require, After-bind, ◌>>=◌, ◌>>◌,
}
use ops_composer.Domain.Auth.{
  UserRole, UserStatus, UserIdentity, PasswordCredential, SessionPrincipal, ActivationToken,
  Permission, AuthSession, Challenge, ChallengePurpose,
}
use ops_composer.Domain.Audit.{AuditEvent, AuditAction, AuditSource}
use ops_composer.Domain.Errors.{
  Failure, activation_expired, invalid_credentials, permission_denied, ck_users_active_owner,
  user_conflict, user_version_conflict,
}
use ops_composer.Audit
use ops_composer.Auth.{require_permission}
use ops_composer.Auth.Users
use ops_composer.Auth.Users.{
  is_active, is_active_owner, is_at, set_user, has_password, set_activated, awaits_activation,
  activate_user, update_found, activate_found, consume_found, requires_mfa, is_pending, get_user,
  same_user, insert_user, add_user, set_enrollment, has_user_id, invalidate_activation_tokens,
  add_activation_token, same_token, consume_activation_token, is_redeemable, delete_user_sessions,
  reset_mfa,
}
use ops_composer.Auth.Sessions.{
  AuthSettings, Drawn, add_session, same_session, put_mfa_factor, add_challenge, same_challenge,
  begin_enrollment, issue, issue_challenge,
}
use ops_composer.Auth.Admin.{
  may_manage, require_recent_reauthentication, is_recent, by_actor, activation_token, create_tx,
  create_user, as_user_conflict, validate_username, new_user, reissue_activation, reset_user_mfa,
  issue_activated, enforce_active_owner, committed, as_last_owner, is_refused, update_tx,
  update_action, activate_tx, activate, validate_password, update_user, by_user,
}

module _ (P : List UserIdentity → Type 0) where
  abbrev pub OnUsers : Db → Type 0
  OnUsers db = P db.users

  pub append-Keeps : (event : AuditEvent) → Keeps OnUsers (Audit.append event)
  unfolding Audit.append
  append-Keeps event db p = p

  pub get_user-Keeps : (user_id : ℕ) → Keeps OnUsers (get_user user_id)
  unfolding get_user
  get_user-Keeps user_id db p = p

  pub delete_user_sessions-Keeps : (user_id : ℕ) → Keeps OnUsers (delete_user_sessions user_id)
  unfolding delete_user_sessions
  delete_user_sessions-Keeps user_id db p = p

  pub invalidate-Keeps :
      (user_id now : ℕ) → Keeps OnUsers (invalidate_activation_tokens user_id now)
  unfolding invalidate_activation_tokens
  invalidate-Keeps user_id now db p = p

  pub add_activation_token-Keeps : (t : ActivationToken) → Keeps OnUsers (add_activation_token t)
  unfolding add_activation_token
  add_activation_token-Keeps t db p =
      elim (Bool-cases (exists_where (same_token t) db.user_activation_tokens)) [
        | inl e ↦ rw e tt
        | inr e ↦ rw e p
      ]

  -- The end of a unit of work: a last statement, the audit event, and what is returned.
  pub ends_with :
      {A : Type 0} (a : A) (m : Tx (Unit {0})) (event : AuditEvent)
      → Keeps OnUsers m
      → Keeps OnUsers (do _ ← m; _ ← Audit.append event; return a)
  ends_with a m event h =
      Keeps-bind OnUsers m (λ _. Audit.append event >> return a) h
        λ _.
          Keeps-bind OnUsers (Audit.append event) (λ _. return a) (append-Keeps event) λ _ db p. p

  pub may_manage-Keeps : (actor : SessionPrincipal) (now : ℕ) → Keeps OnUsers (may_manage actor now)
  unfolding may_manage require_permission require_recent_reauthentication
  may_manage-Keeps actor now =
      Keeps-bind OnUsers (require_permission actor Permission.user_manage)
        (λ _. require_recent_reauthentication actor now)
        (Keeps-raise_if OnUsers _ permission_denied) λ _. Keeps-raise_if OnUsers _ _

  pub reissue_activation-Keeps :
      (settings : AuthSettings) (drawn : Drawn) (actor : SessionPrincipal) (user_id now : ℕ)
      → Keeps OnUsers (reissue_activation settings drawn actor user_id now)
  unfolding reissue_activation
  reissue_activation-Keeps settings drawn actor user_id now =
      Keeps-bind OnUsers (may_manage actor now) _ (may_manage-Keeps actor now) λ _.
        Keeps-bind OnUsers (get_user user_id) _ (get_user-Keeps user_id) λ found.
          Keeps-bind OnUsers (require found activation_expired) _
            (Keeps-require OnUsers found activation_expired)
            λ user.
              Keeps-bind OnUsers (raise_if (not (is_pending user.status)) activation_expired) _
                (Keeps-raise_if OnUsers (not (is_pending user.status)) activation_expired)
                λ _.
                  Keeps-bind OnUsers (invalidate_activation_tokens user_id now) _
                    (invalidate-Keeps user_id now)
                    λ _.
                      ends_with user
                        (add_activation_token (activation_token settings drawn actor user_id now))
                        (by_actor AuditAction.user_activation_reissued actor)
                        (add_activation_token-Keeps
                          (activation_token settings drawn actor user_id now))

  pub reset_mfa-Keeps :
      (user_id now : ℕ)
      → ((us : List UserIdentity)
          → P us
          → P (update_where (has_user_id user_id) (set_enrollment now) us))
      → Keeps OnUsers (reset_mfa user_id now)
  unfolding reset_mfa
  reset_mfa-Keeps user_id now resets db p = resets db.users p

  pub reset_user_mfa-Keeps :
      (actor : SessionPrincipal) (user_id now : ℕ)
      → ((us : List UserIdentity)
          → P us
          → P (update_where (has_user_id user_id) (set_enrollment now) us))
      → Keeps OnUsers (reset_user_mfa actor user_id now)
  unfolding reset_user_mfa
  reset_user_mfa-Keeps actor user_id now resets =
      Keeps-bind OnUsers (may_manage actor now) _ (may_manage-Keeps actor now) λ _.
        Keeps-bind OnUsers (raise_if (actor.user_id == user_id) permission_denied) _
          (Keeps-raise_if OnUsers (actor.user_id == user_id) permission_denied)
          λ _. Keeps-bind OnUsers (get_user user_id) _ (get_user-Keeps user_id) λ found.
            Keeps-bind OnUsers (require found invalid_credentials)
              (λ _.
                reset_mfa user_id now >> Audit.append (by_actor AuditAction.user_mfa_reset actor))
              (Keeps-require OnUsers found invalid_credentials)
              λ _.
                Keeps-bind OnUsers (reset_mfa user_id now)
                  (λ _. Audit.append (by_actor AuditAction.user_mfa_reset actor))
                  (reset_mfa-Keeps user_id now resets)
                  λ _. append-Keeps (by_actor AuditAction.user_mfa_reset actor)

  insert_user-Keeps :
      (lower : String → String) (new : UserIdentity) (credential : PasswordCredential)
      → ((us : List UserIdentity)
          → exists_where (same_user lower new) us ≡ false
          → P us
          → P (us ++ new ∷ []))
      → Keeps OnUsers (insert_user lower new credential)
  unfolding insert_user
  insert_user-Keeps lower new credential grows db p =
      elim (Bool-cases (exists_where (same_user lower new) db.users)) [
        | inl e ↦ rw e tt
        | inr e ↦ rw e (grows db.users e p)
      ]

  pub create_tx-Keeps :
      (settings : AuthSettings) (lower : String → String) (drawn : Drawn) (actor : SessionPrincipal)
      (new : UserIdentity) (now : ℕ)
      → ((us : List UserIdentity)
          → exists_where (same_user lower new) us ≡ false
          → P us
          → P (us ++ new ∷ []))
      → Keeps OnUsers (create_tx settings lower drawn actor new now)
  unfolding create_tx add_user
  create_tx-Keeps settings lower drawn actor new now grows =
      Keeps-bind OnUsers (add_user lower new) _
        (insert_user-Keeps lower new
          (record { user_id = new.user_id; password_hash = none; password_updated_at = none })
          grows)
        λ created.
          ends_with created
            (add_activation_token (activation_token settings drawn actor created.user_id now))
            (by_actor AuditAction.user_created actor)
            (add_activation_token-Keeps (activation_token settings drawn actor created.user_id now))

  as_user_conflict-After :
      (r : Result (UserIdentity × Db)) → After OnUsers r → After OnUsers (as_user_conflict r)
  as_user_conflict-After (ok a) h = h
  as_user_conflict-After (err e) h = tt

  pub create_user-Keeps :
      (settings : AuthSettings) (canonical lower : String → String) (drawn : Drawn) (user_id : ℕ)
      (actor : SessionPrincipal) (username : String) (role : UserRole) (now : ℕ)
      → ((us : List UserIdentity)
          → exists_where (same_user lower (new_user user_id (canonical username) role now)) us
            ≡ false
          → P us
          → P (us ++ new_user user_id (canonical username) role now ∷ []))
      → Keeps OnUsers (create_user settings canonical lower drawn user_id actor username role now)
  unfolding create_user validate_username
  create_user-Keeps settings canonical lower drawn user_id actor username role now grows =
      Keeps-bind OnUsers (may_manage actor now) _ (may_manage-Keeps actor now) λ _.
        Keeps-bind OnUsers (validate_username (canonical username)) _ (Keeps-raise_if OnUsers _ _)
          λ _ db p.
            as_user_conflict-After
              (create_tx settings lower drawn actor (new_user user_id (canonical username) role now)
                now db)
              (create_tx-Keeps settings lower drawn actor
                (new_user user_id (canonical username) role now) now grows db p)
