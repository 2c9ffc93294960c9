-- ===== src/Domain/Auth.antt =====
-- backend/src/ops_composer/auth/models.py: roles, permissions and principals, and the rows of the tables
-- of auth/repository.py.
use ops_composer.Prelude.{ℕ, String, Bool, true, false, Option, List}

pub data UserStatus : Type 0 where
  pending_activation active disabled : UserStatus

pub data UserRole : Type 0 where
  owner admin operator auditor : UserRole

pub data Permission : Type 0 where
  asset_read asset_write credential_write playbook_write run_standard run_shell run_cancel web_shell
        audit_read user_read user_manage key_rotate :
      Permission

-- `ROLE_PERMISSIONS` and `permissions_for_role`; a set is its membership test.
unfoldable pub permissions_for_role : UserRole → Permission → Bool
permissions_for_role owner p = true
permissions_for_role admin user_manage = false
permissions_for_role admin key_rotate = false
permissions_for_role admin _ = true
permissions_for_role operator asset_read = true
permissions_for_role operator run_standard = true
permissions_for_role operator run_cancel = true
permissions_for_role operator _ = false
permissions_for_role auditor asset_read = true
permissions_for_role auditor audit_read = true
permissions_for_role auditor user_read = true
permissions_for_role auditor _ = false

pub record UserIdentity : Type 0 where
  pub user_id : ℕ
  pub username : String
  pub status : UserStatus
  pub role : UserRole
  pub mfa_enrollment_required : Bool
  pub activated_at : Option ℕ
  pub version : ℕ
  pub created_at : ℕ
  pub updated_at : ℕ

pub record SessionPrincipal : Type 0 where
  pub session_id : ℕ
  pub user_id : ℕ
  pub username : String
  pub role : UserRole
  pub permissions : Permission → Bool
  pub mfa_enabled : Bool
  pub mfa_enrollment_required : Bool
  pub mfa_verified_at : Option ℕ
  pub reauthenticated_at : Option ℕ
  pub elevated_until : Option ℕ
  pub csrf_hash : String
  pub expires_at : ℕ

-- The columns of `users` that UserIdentity leaves out.
pub record PasswordCredential : Type 0 where
  pub user_id : ℕ
  pub password_hash : Option String
  pub password_updated_at : Option ℕ

-- A row of `sessions`.
pub record AuthSession : Type 0 where
  pub session_id : ℕ
  pub user_id : ℕ
  pub token_hash : String
  pub csrf_hash : String
  pub expires_at : ℕ
  pub created_at : ℕ
  pub mfa_verified_at : Option ℕ
  pub reauthenticated_at : Option ℕ
  pub elevated_until : Option ℕ

pub data ChallengePurpose : Type 0 where
  login_mfa mfa_enrollment : ChallengePurpose

-- A row of `auth_challenges`.
pub record Challenge : Type 0 where
  pub challenge_id : ℕ
  pub user_id : ℕ
  pub token_hash : String
  pub purpose : ChallengePurpose
  pub expires_at : ℕ
  pub consumed_at : Option ℕ
  pub created_at : ℕ

-- A row of `user_mfa_factors`.
pub record MfaFactor : Type 0 where
  pub user_id : ℕ
  pub encrypted_totp_secret : List ℕ
  pub encryption_key_version : ℕ
  pub last_accepted_step : Option ℕ
  pub confirmed_at : Option ℕ
  pub created_at : ℕ
  pub updated_at : ℕ

-- A row of `user_recovery_codes`.
pub record RecoveryCode : Type 0 where
  pub recovery_code_id : ℕ
  pub user_id : ℕ
  pub code_hash : String
  pub used_at : Option ℕ
  pub created_at : ℕ

-- A row of `user_activation_tokens`.
pub record ActivationToken : Type 0 where
  pub activation_token_id : ℕ
  pub user_id : ℕ
  pub token_hash : String
  pub created_by : ℕ
  pub expires_at : ℕ
  pub consumed_at : Option ℕ
  pub created_at : ℕ

-- A row of `auth_rate_limits`.
pub record RateLimit : Type 0 where
  pub scope : String
  pub subject_hash : String
  pub window_started_at : ℕ
  pub attempt_count : ℕ
  pub expires_at : ℕ
