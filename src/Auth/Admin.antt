-- ===== src/Auth/Admin.antt =====
-- backend/src/ops_composer/auth/service.py: how users are created, activated, changed and reset. The
-- clock is read once per call; `canonical` is `canonical_username` and `lower` PostgreSQL's.
use ops_composer.Prelude.{
  ℕ, ◌+◌, String, Bool, true, false, not, none, some, List, ◌&&◌, ◌||◌, ◌==◌, leb, ltb,
  if◌then◌else◌, exists_where, is_set, char_count,
}
use ops_composer.Db.{Tx, Result, ok, err, return, raise_if, require, ◌>>=◌, ◌>>◌}
use ops_composer.Domain.Auth.{
  UserStatus, UserRole, UserIdentity, SessionPrincipal, ChallengePurpose, Permission,
  ActivationToken,
}
use ops_composer.Domain.Audit.{AuditAction, AuditOutcome, AuditSource, AuditEvent}
use ops_composer.Domain.Errors.{
  Failure, admin_already_exists, activation_expired, invalid_credentials, permission_denied,
  reauthentication_required, user_conflict, user_version_conflict, last_owner_required, value_error,
  ck_users_active_owner,
}
use ops_composer.Audit
use ops_composer.Auth.{require_permission}
use ops_composer.Auth.Users
use ops_composer.Auth.Users.{
  is_active, is_pending, is_owner, requires_mfa, is_active_owner, count_users, count_active_owners,
  get_user, find_user_by_username, add_admin, add_user, activate_user, invalidate_activation_tokens,
  add_activation_token, consume_activation_token, delete_user_sessions, reset_mfa,
  update_password_hash,
}
use ops_composer.Auth.Sessions.{AuthSettings, Drawn, issue, issue_challenge}

-- 24 hours in microseconds.
abbrev pub activation_ttl : ℕ
activation_ttl = 86400000000

abbrev pub is_recent : SessionPrincipal → ℕ → Bool
is_recent principal now =
    is_set principal.reauthenticated_at
    && (elim principal.elevated_until [ none ↦ false | some t ↦ ltb now t ])

unfoldable pub require_recent_reauthentication : SessionPrincipal → ℕ → Tx (Unit {0})
require_recent_reauthentication principal now =
    raise_if (not (is_recent principal now)) reauthentication_required

-- What an operation on users asks of the actor.
unfoldable pub may_manage : SessionPrincipal → ℕ → Tx (Unit {0})
unfolding require_permission require_recent_reauthentication
may_manage actor now = do
  require_permission actor Permission.user_manage
  require_recent_reauthentication actor now

abbrev pub by_actor : AuditAction → SessionPrincipal → AuditEvent
by_actor action actor = record {
  event_action = action;
  event_outcome = AuditOutcome.succeeded;
  source = AuditSource.api;
  actor_user_id = some actor.user_id;
  session_id = some actor.session_id;
  run_id = none;
  worker_id = none;
}

abbrev pub by_user : AuditAction → AuditSource → ℕ → AuditEvent
by_user action source user_id = record {
  event_action = action;
  event_outcome = AuditOutcome.succeeded;
  source = source;
  actor_user_id = some user_id;
  session_id = none;
  run_id = none;
  worker_id = none;
}

-- The trigger users_require_active_owner.
unfoldable pub enforce_active_owner : Tx (Unit {0})
unfolding exists_where
enforce_active_owner db =
    raise_if (not (exists_where is_active_owner db.users)) ck_users_active_owner db

-- A unit of work that sets a role or a status: the trigger is deferred to its commit.
unfoldable pub committed : {A : Type 0} → Tx A → Tx A
unfolding enforce_active_owner
committed m = do a ← m; enforce_active_owner; return a

unfoldable pub validate_username : String → Tx (Unit {0})
validate_username username =
    raise_if (char_count username == 0 || not (leb (char_count username) 64)) value_error

unfoldable pub validate_password : String → Tx (Unit {0})
validate_password password =
    raise_if (ltb (char_count password) 12 || ltb 200 (char_count password)) value_error

abbrev pub first_owner : ℕ → String → ℕ → UserIdentity
first_owner user_id username now = record {
  user_id = user_id;
  username = username;
  status = UserStatus.active;
  role = UserRole.owner;
  mfa_enrollment_required = true;
  activated_at = some now;
  version = 1;
  created_at = now;
  updated_at = now;
}

unfoldable pub bootstrap :
    (canonical lower hash_password : String → String) → ℕ → String → String → ℕ → Tx UserIdentity
unfolding validate_username validate_password count_users add_admin Audit.append
bootstrap canonical lower hash_password user_id username password now = do
  validate_username (canonical username)
  validate_password password
  n ← count_users
  raise_if (not (n == 0)) admin_already_exists
  created ← add_admin lower (first_owner user_id (canonical username) now) (record {
    user_id = user_id;
    password_hash = some (hash_password password);
    password_updated_at = some now;
  })
  Audit.append (by_user AuditAction.admin_bootstrapped AuditSource.cli user_id)
  return created

abbrev pub new_user : ℕ → String → UserRole → ℕ → UserIdentity
new_user user_id username role now = record {
  user_id = user_id;
  username = username;
  status = UserStatus.pending_activation;
  role = role;
  mfa_enrollment_required = requires_mfa role;
  activated_at = none;
  version = 1;
  created_at = now;
  updated_at = now;
}

-- The token of an activation code, which is drawn with an id.
abbrev pub activation_token : AuthSettings → Drawn → SessionPrincipal → ℕ → ℕ → ActivationToken
activation_token settings drawn actor user_id now = record {
  activation_token_id = drawn.id;
  user_id = user_id;
  token_hash = settings.hash_token drawn.token;
  created_by = actor.user_id;
  expires_at = now + activation_ttl;
  consumed_at = none;
  created_at = now;
}

-- `except AdminAlreadyExistsError`
abbrev pub user_conflict_of : Failure → Failure
user_conflict_of admin_already_exists = user_conflict
user_conflict_of e = e

abbrev pub as_user_conflict : {A : Type 0} → Result A → Result A
as_user_conflict (ok a) = ok a
as_user_conflict (err e) = err (user_conflict_of e)

unfoldable pub create_tx :
    AuthSettings → (String → String) → Drawn → SessionPrincipal → UserIdentity → ℕ → Tx UserIdentity
unfolding add_user add_activation_token Audit.append
create_tx settings lower drawn actor identity now = do
  created ← add_user lower identity
  add_activation_token (activation_token settings drawn actor created.user_id now)
  Audit.append (by_actor AuditAction.user_created actor)
  return created

unfoldable pub create_user :
    AuthSettings
    → (canonical lower : String → String) → Drawn
    → ℕ
    → SessionPrincipal
    → String
    → UserRole
    → ℕ
    → Tx UserIdentity
unfolding may_manage validate_username create_tx
create_user settings canonical lower drawn user_id actor username role now = do
  may_manage actor now
  validate_username (canonical username)
  λ db.
      as_user_conflict (
        create_tx settings lower drawn actor (new_user user_id (canonical username) role now) now
          db)

unfoldable pub reissue_activation :
    AuthSettings → Drawn → SessionPrincipal → ℕ → ℕ → Tx UserIdentity
unfolding may_manage get_user invalidate_activation_tokens add_activation_token Audit.append
reissue_activation settings drawn actor user_id now = do
  may_manage actor now
  found ← get_user user_id
  user ← require found activation_expired
  raise_if (not (is_pending user.status)) activation_expired
  invalidate_activation_tokens user_id now
  add_activation_token (activation_token settings drawn actor user_id now)
  Audit.append (by_actor AuditAction.user_activation_reissued actor)
  return user

abbrev pub same_role : UserRole → UserRole → Bool
same_role UserRole.owner UserRole.owner = true
same_role UserRole.admin UserRole.admin = true
same_role UserRole.operator UserRole.operator = true
same_role UserRole.auditor UserRole.auditor = true
same_role _ _ = false

abbrev pub update_action : UserRole → UserRole → UserStatus → AuditAction
update_action before role UserStatus.disabled = AuditAction.user_disabled
update_action before role _ =
    if same_role role before then AuditAction.user_updated else AuditAction.user_role_changed

-- The changes of status that are refused.
abbrev pub is_refused : UserIdentity → UserStatus → Bool
is_refused before status =
    (is_pending before.status && is_active status)
    || ((not (is_pending before.status) && is_pending status)
        || (is_active status && not (is_set before.activated_at)))

unfoldable pub update_tx : SessionPrincipal → ℕ → UserRole → UserStatus → ℕ → ℕ → Tx UserIdentity
unfolding get_user Users.update_user delete_user_sessions Audit.append
update_tx actor user_id role status expected_version now = do
  found ← get_user user_id
  before ← require found invalid_credentials
  raise_if (is_refused before status) user_conflict
  changed ← Users.update_user user_id role status expected_version now
  updated ← require changed user_version_conflict
  delete_user_sessions user_id
  Audit.append (by_actor (update_action before.role role status) actor)
  return updated

-- The constraint, by its name.
abbrev pub last_owner_of : Failure → Failure
last_owner_of ck_users_active_owner = last_owner_required
last_owner_of e = e

abbrev pub as_last_owner : {A : Type 0} → Result A → Result A
as_last_owner (ok a) = ok a
as_last_owner (err e) = err (last_owner_of e)

unfoldable pub update_user : SessionPrincipal → ℕ → UserRole → UserStatus → ℕ → ℕ → Tx UserIdentity
unfolding may_manage update_tx committed
update_user actor user_id role status expected_version now = do
  may_manage actor now
  λ db. as_last_owner (committed (update_tx actor user_id role status expected_version now) db)

unfoldable pub reset_user_mfa : SessionPrincipal → ℕ → ℕ → Tx (Unit {0})
unfolding may_manage get_user reset_mfa Audit.append
reset_user_mfa actor user_id now = do
  may_manage actor now
  raise_if (actor.user_id == user_id) permission_denied
  found ← get_user user_id
  _ ← require found invalid_credentials
  reset_mfa user_id now
  Audit.append (by_actor AuditAction.user_mfa_reset actor)

-- A new session, or a challenge to enroll a factor.
unfoldable pub issue_activated :
    AuthSettings → Drawn → List ℕ × ℕ → Bool → UserIdentity → ℕ → Tx (Unit {0})
unfolding issue issue_challenge
issue_activated settings drawn sealed needs_mfa user now =
    if needs_mfa && settings.totp_enabled
    then (do
      _ ← issue_challenge settings drawn now user ChallengePurpose.mfa_enrollment (some sealed)
      return tt)
    else (do _ ← issue settings drawn now user false none (not settings.totp_enabled); return tt)

unfoldable pub activate_tx :
    AuthSettings
    → (hash_password : String → String) → Drawn
    → List ℕ × ℕ
    → String
    → String
    → ℕ
    → Tx UserIdentity
unfolding consume_activation_token activate_user issue_activated Audit.append
activate_tx settings hash_password drawn sealed activation_code password now = do
  grant ← consume_activation_token (settings.hash_token activation_code) now
  granted ← require grant activation_expired
  user ← activate_user granted.user_id (hash_password password) (requires_mfa granted.role) now
  issue_activated settings drawn sealed (requires_mfa granted.role) user now
  Audit.append (by_user AuditAction.user_activated AuditSource.api user.user_id)
  return user

unfoldable pub activate :
    AuthSettings
    → (hash_password : String → String) → Drawn
    → List ℕ × ℕ
    → String
    → String
    → ℕ
    → Tx UserIdentity
unfolding validate_password activate_tx committed
activate settings hash_password drawn sealed activation_code password now = do
  validate_password password
  committed (activate_tx settings hash_password drawn sealed activation_code password now)
