-- ===== src/Auth/LoginExamples.antt =====
-- The limit of logins at a client that tries a name that is not there.
use ops_composer.Prelude.{
  ℕ, true, false, some, holds_text, [], ◌∷◌, ◌≡◌, refl, arith, first_where, update_where,
  delete_where, exists_where,
}
use ops_composer.Db.{Db, ok, err, run_tx}
use ops_composer.Audit
use ops_composer.Domain.Auth.{UserStatus, UserRole, UserIdentity}
use ops_composer.Auth.Totp.{get_mfa_factor}
use ops_composer.Auth.Sessions.{issue, add_session, principal_of}
use ops_composer.Auth.Verified.{IsVerified, login-IsVerified}
use ops_composer.Samples.{empty_db}
use ops_composer.Domain.Audit.{AuditSource}
use ops_composer.Domain.Errors.{invalid_credentials, auth_rate_limited}
use ops_composer.Auth.Users.{find_user_by_username}
use ops_composer.Auth.RateLimits.{
  upsert_limit, consume_rate_limit, check_limit, consume_limit, clear_rate_limit,
}
use ops_composer.Auth.Login.{
  LoginSettings, AuthResult, password_hash_of, rehash, issue_session, issue_result, login_tx, login,
}
use ops_composer.Auth.Lockout.{Attempt, Refused, none_yet, one_more, try, login_limited}

-- Two attempts in a minute.
abbrev settings : LoginSettings
settings = record {
  auth = record { totp_enabled = true; session_ttl = 1000; hash_token = λ s. s };
  ip_limit = 10;
  ip_window_seconds = 60;
  username_ip_limit = 2;
  username_ip_window_seconds = 60;
  canonical = λ s. s;
  lower = λ s. s;
  hash_subject = λ scope s. s;
  pair = λ name client. name;
  verify = λ stored password. record { valid = false; needs_rehash = false };
  hash_password = λ s. s;
}

abbrev attempt_at : ℕ → Attempt
attempt_at now = record {
  source = AuditSource.api;
  drawn = record { id = 1; token = "t"; csrf_token = "c" };
  sealed = ([], 1);
  password = "guess";
  now = now;
}

tried_once :
    (mid : Db) × (try settings "root" "10.0.0.9" (attempt_at 61000000) empty_db
      ≡ (err invalid_credentials, mid))
unfolding login consume_limit check_limit consume_rate_limit upsert_limit login_tx
    find_user_by_username password_hash_of run_tx first_where
tried_once = (_, refl)

tried_twice :
    (mid : Db) × (try settings "root" "10.0.0.9" (attempt_at 62000000) tried_once.0
      ≡ (err invalid_credentials, mid))
unfolding tried_once login consume_limit check_limit consume_rate_limit upsert_limit login_tx
    find_user_by_username password_hash_of run_tx first_where update_where
tried_twice = (_, refl)

both :
    Refused settings "root" "10.0.0.9" 60000000
      (attempt_at 61000000 ∷ attempt_at 62000000 ∷ [])
      empty_db
      tried_twice.0
both = one_more refl tried_once.1 (one_more refl tried_twice.1 none_yet)

login_limited_example :
    (try settings "root" "10.0.0.9" (attempt_at 63000000) tried_twice.0).0 ≡ err auth_rate_limited
login_limited_example =
    login_limited settings "root" "10.0.0.9" 60000000
      (attempt_at 61000000 ∷ attempt_at 62000000 ∷ []) empty_db tried_twice.0 (attempt_at 63000000)
      both (omega arith) refl

abbrev operator : UserIdentity
operator = record {
  user_id = 4;
  username = "ana";
  status = UserStatus.active;
  role = UserRole.operator;
  mfa_enrollment_required = false;
  activated_at = some 1;
  version = 1;
  created_at = 1;
  updated_at = 1;
}

abbrev users_db : Db
users_db = record empty_db {
  users = operator ∷ [];
  user_credentials =
      record { user_id = 4; password_hash = some "guess"; password_updated_at = some 1 } ∷ [];
}

-- The hash of a password is itself.
abbrev plain : LoginSettings
plain = record settings {
  verify = λ stored password. record { valid = holds_text stored password; needs_rehash = false };
}

logged_in :
    (outcome : AuthResult × Db) × (try plain "ana" "10.0.0.9" (attempt_at 61000000) users_db
      ≡ (ok outcome.0, outcome.1))
unfolding login consume_limit check_limit consume_rate_limit upsert_limit login_tx
    find_user_by_username password_hash_of run_tx first_where rehash clear_rate_limit delete_where
    get_mfa_factor issue_result issue_session issue add_session exists_where principal_of
    Audit.append
logged_in = ((_, _), refl)

login-IsVerified_example : IsVerified plain "ana" "guess" users_db
login-IsVerified_example =
    login-IsVerified plain "ana" "guess" "10.0.0.9" (attempt_at 61000000) users_db logged_in.0.1
      refl logged_in.1
