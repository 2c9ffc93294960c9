-- ===== src/Auth/Login.antt =====
-- `login` of backend/src/ops_composer/auth/service.py: two counted attempts, and a unit of work. The
-- clock is read once; `verify` is `verify_password`, and `pair` joins a name and a client.
use ops_composer.Prelude.{
  ℕ, List, String, Bool, true, false, not, Option, none, some, ◌&&◌, ◌||◌, ◌==◌, is_set,
  if◌then◌else◌, first_where,
}
use ops_composer.Db.{Db, Tx, Result, ok, err, return, gets, raise_if, require, run_tx, ◌>>=◌, ◌>>◌}
use ops_composer.Domain.Auth.{
  UserIdentity, SessionPrincipal, ChallengePurpose, Challenge, MfaFactor,
}
use ops_composer.Domain.Audit.{AuditAction, AuditSource, AuditEvent}
use ops_composer.Domain.Errors.{invalid_credentials}
use ops_composer.Audit
use ops_composer.Auth.Totp.{get_mfa_factor}
use ops_composer.Auth.Users.{is_active, requires_mfa, find_user_by_username, update_password_hash}
use ops_composer.Auth.Sessions.{AuthSettings, Drawn, issue, issue_challenge}
use ops_composer.Auth.Admin.{by_user}
use ops_composer.Auth.RateLimits.{RateLimitSpec, ConsumedRateLimit, clear_rate_limit, consume_limit}

pub record PasswordVerification : Type 0 where
  pub valid : Bool
  pub needs_rehash : Bool

-- The settings of a login, and what it takes from packages.
pub record LoginSettings : Type 0 where
  pub auth : AuthSettings
  pub ip_limit : ℕ
  pub ip_window_seconds : ℕ
  pub username_ip_limit : ℕ
  pub username_ip_window_seconds : ℕ
  pub canonical : String → String
  pub lower : String → String
  pub hash_subject : String → String → String
  pub pair : String → String → String
  pub verify : Option String → String → PasswordVerification
  pub hash_password : String → String

pub data AuthResult : Type 0 where
  session : SessionPrincipal → AuthResult
  challenge : Challenge → AuthResult

-- The hash of a user that may be none.
unfoldable pub password_hash_of : Db → Option UserIdentity → Option String
unfolding first_where
password_hash_of db none = none
password_hash_of db (some u) =
    elim (first_where (λ c. c.user_id == u.user_id) db.user_credentials) [
      | none ↦ none
      | some c ↦ c.password_hash
    ]

-- `factor is not None and factor.confirmed_at is not None`
abbrev pub is_enabled : Option MfaFactor → Bool
is_enabled none = false
is_enabled (some f) = is_set f.confirmed_at

abbrev pub must_enroll : UserIdentity → Bool → Bool
must_enroll u factor_enabled =
    u.mfa_enrollment_required || (requires_mfa u.role && not factor_enabled)

unfoldable pub issue_session : AuthSettings → Drawn → ℕ → UserIdentity → Bool → Bool → Tx AuthResult
unfolding issue
issue_session settings drawn now u mfa_enabled elevated = do
  principal ← issue settings drawn now u mfa_enabled none elevated
  return (session principal)

unfoldable pub issue_step :
    AuthSettings → Drawn → ℕ → UserIdentity → ChallengePurpose → Option (List ℕ × ℕ) → Tx AuthResult
unfolding issue_challenge
issue_step settings drawn now u purpose sealed = do
  issued ← issue_challenge settings drawn now u purpose sealed
  return (challenge issued)

-- The session or the next step of a user whose password is right; `sealed` is the secret of an
-- enrollment.
unfoldable pub issue_result :
    AuthSettings → Drawn → List ℕ × ℕ → ℕ → UserIdentity → Bool → Tx AuthResult
unfolding issue_session issue_step
issue_result settings drawn sealed now u factor_enabled =
    if not settings.totp_enabled
    then issue_session settings drawn now u factor_enabled true
    else if must_enroll u factor_enabled
    then issue_step settings drawn now u ChallengePurpose.mfa_enrollment (some sealed)
    else if factor_enabled
    then issue_step settings drawn now u ChallengePurpose.login_mfa none
    else issue_session settings drawn now u false false

abbrev pub issued_session_id : AuthResult → Option ℕ
issued_session_id (session p) = some p.session_id
issued_session_id (challenge c) = none

abbrev pub login_event : AuditSource → UserIdentity → AuthResult → AuditEvent
login_event source u result = record (by_user AuditAction.auth_login_succeeded source u.user_id) {
  session_id = issued_session_id result;
}

abbrev pub is_refused_user : Option UserIdentity → PasswordVerification → Bool
is_refused_user none verification = true
is_refused_user (some u) verification = not (is_active u.status) || not verification.valid

unfoldable pub rehash :
    LoginSettings → PasswordVerification → UserIdentity → String → ℕ → Tx (Unit {0})
unfolding update_password_hash
rehash settings verification u password now =
    if verification.needs_rehash
    then update_password_hash u.user_id (settings.hash_password password) now
    else return tt

-- The unit of work of a login.
unfoldable pub login_tx :
    LoginSettings
    → AuditSource
    → Drawn
    → List ℕ × ℕ
    → ConsumedRateLimit
    → String
    → String
    → ℕ
    → Tx AuthResult
unfolding find_user_by_username password_hash_of rehash clear_rate_limit get_mfa_factor issue_result
    Audit.append
login_tx settings source drawn sealed bucket username password now = do
  found ← find_user_by_username settings.lower username
  stored ← gets (λ db. password_hash_of db found)
  let verification = settings.verify stored password
  raise_if (is_refused_user found verification) invalid_credentials
  u ← require found invalid_credentials
  rehash settings verification u password now
  clear_rate_limit bucket.scope bucket.subject_hash bucket.window_started_at
  factor ← gets (λ db. get_mfa_factor u.user_id db.user_mfa_factors)
  result ← issue_result settings.auth drawn sealed now u (is_enabled factor)
  Audit.append (login_event source u result)
  return result

abbrev pub ip_limit : LoginSettings → String → RateLimitSpec
ip_limit settings client_key = record {
  scope = "login:ip";
  subject = client_key;
  maximum = settings.ip_limit;
  window_seconds = settings.ip_window_seconds;
}

abbrev pub username_ip_limit : LoginSettings → String → String → RateLimitSpec
username_ip_limit settings username client_key = record {
  scope = "login:username_ip";
  subject = settings.pair username client_key;
  maximum = settings.username_ip_limit;
  window_seconds = settings.username_ip_window_seconds;
}

-- What follows a counted attempt: the next part, unless the attempt is over the limit.
abbrev pub then_within : {A B : Type 0} → Result A × Db → (A → Db → Result B × Db) → Result B × Db
then_within (ok a, db) next = next a db
then_within (err e, db) next = (err e, db)

unfoldable pub login :
    LoginSettings
    → AuditSource
    → Drawn
    → List ℕ × ℕ
    → String
    → String
    → String
    → ℕ
    → Db
    → Result AuthResult × Db
unfolding consume_limit login_tx run_tx
login settings source drawn sealed username password client_key now db =
    let name = settings.canonical username in
    then_within (consume_limit settings.hash_subject (ip_limit settings client_key) now db)
      λ _ counted.
        then_within
          (consume_limit settings.hash_subject (username_ip_limit settings name client_key) now
            counted)
          λ bucket mid. run_tx (login_tx settings source drawn sealed bucket name password now) mid
