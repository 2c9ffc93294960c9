-- ===== src/Auth/UserExamples.antt =====
-- The theorems on users at a small database: an owner who is signed in again, and an operator.
use ops_composer.Prelude.{
  ℕ, String, ◌≡◌, ◌≢◌, refl, true, false, none, some, [], ◌∷◌, ◌==◌, exists_where,
}
use ops_composer.Db.{Db, ok}
use ops_composer.Domain.Auth.{
  UserStatus, UserRole, UserIdentity, SessionPrincipal, PasswordCredential, AuthSession,
  permissions_for_role,
}
use ops_composer.Domain.Audit.{AuditAction}
use ops_composer.Samples.{empty_db}
use ops_composer.Auth.Users.{set_user}
use ops_composer.Auth.Admin.{update_user, by_actor}
use ops_composer.Auth.Steps.{here, next, updated}
use ops_composer.Auth.Owners.{HasOwner, Reach-HasOwner}
use ops_composer.Auth.Versions.{IsKeyed}
use ops_composer.Auth.Stale.{update_user_once, update_user-signed_out}

abbrev user_with : ℕ → String → UserRole → UserIdentity
user_with user_id username role = record {
  user_id = user_id;
  username = username;
  status = UserStatus.active;
  role = role;
  mfa_enrollment_required = false;
  activated_at = some 1;
  version = 1;
  created_at = 1;
  updated_at = 1;
}

abbrev password_of : ℕ → PasswordCredential
password_of user_id = record {
  user_id = user_id;
  password_hash = some "h";
  password_updated_at = some 1;
}

abbrev session_of : ℕ → AuthSession
session_of user_id = record {
  session_id = user_id;
  user_id = user_id;
  token_hash = "t";
  csrf_hash = "c";
  expires_at = 100;
  created_at = 1;
  mfa_verified_at = none;
  reauthenticated_at = none;
  elevated_until = none;
}

abbrev owner_session : SessionPrincipal
owner_session = record {
  session_id = 1;
  user_id = 1;
  username = "ada";
  role = UserRole.owner;
  permissions = permissions_for_role UserRole.owner;
  mfa_enabled = true;
  mfa_enrollment_required = false;
  mfa_verified_at = some 2;
  reauthenticated_at = some 2;
  elevated_until = some 50;
  csrf_hash = "c";
  expires_at = 100;
}

abbrev two_users : Db
two_users = record empty_db {
  users = user_with 1 "ada" UserRole.owner ∷ user_with 2 "bob" UserRole.operator ∷ [];
  user_credentials = password_of 1 ∷ password_of 2 ∷ [];
  sessions = session_of 1 ∷ session_of 2 ∷ [];
}

abbrev promoted : UserIdentity
promoted = set_user UserRole.admin UserStatus.active false 9 (user_with 2 "bob" UserRole.operator)

abbrev after_promotion : Db
after_promotion = record two_users {
  users = user_with 1 "ada" UserRole.owner ∷ promoted ∷ [];
  sessions = session_of 1 ∷ [];
  audit_events = by_actor AuditAction.user_role_changed owner_session ∷ [];
}

promotes :
    update_user owner_session 2 UserRole.admin UserStatus.active 1 9 two_users
    ≡ ok (promoted, after_promotion)
unfolding update_user permissions_for_role
promotes = refl

two_users-HasOwner : HasOwner two_users
unfolding exists_where
two_users-HasOwner = refl

two_users-IsKeyed : IsKeyed two_users.users
unfolding exists_where
two_users-IsKeyed = (refl, (refl, tt))

Reach-HasOwner_example : HasOwner after_promotion
Reach-HasOwner_example =
    Reach-HasOwner
      (next here (updated owner_session 2 UserRole.admin UserStatus.active 1 9 promotes))
      two_users-HasOwner

update_user_once_example :
    update_user owner_session 2 UserRole.auditor UserStatus.active 1 12 after_promotion
    ≢ ok (promoted, after_promotion)
update_user_once_example =
    update_user_once owner_session owner_session 2 UserRole.admin UserRole.auditor UserStatus.active
      UserStatus.active 1 9 12 two_users after_promotion after_promotion after_promotion promoted
      promoted two_users-IsKeyed promotes here

update_user-signed_out_example :
    exists_where (λ (s : AuthSession). s.user_id == 2) after_promotion.sessions ≡ false
update_user-signed_out_example =
    update_user-signed_out owner_session 2 UserRole.admin UserStatus.active 1 9 two_users
      after_promotion promoted promotes
