-- ===== src/Auth/Sessions.antt =====
-- backend/src/ops_composer/auth/service.py and auth/repository.py: how sessions and challenges are
-- issued. Tokens and ids that are drawn, `hash_token` and the cipher are arguments.
use ops_composer.Prelude.{
  ℕ, ◌+◌, String, Bool, not, Option, none, some, List, [], ◌∷◌, ◌++◌, ◌&&◌, ◌||◌, ◌==◌, ltb,
  text_eq, if◌then◌else◌, exists_where, first_where, update_where, is_set,
}
use ops_composer.Db.{Db, Tx, ok, err, return, gets, modify, raise_if, ◌>>=◌, ◌>>◌}
use ops_composer.Domain.Auth.{
  UserIdentity, SessionPrincipal, AuthSession, ChallengePurpose, Challenge, MfaFactor,
  permissions_for_role,
}
use ops_composer.Domain.Errors.{totp_disabled, invalid_session, database_error}
use ops_composer.Auth.Users.{is_active, requires_mfa, is_confirmed_of, has_user_id}

-- The settings that the service reads, its clock and its hashes.
pub record AuthSettings : Type 0 where
  pub totp_enabled : Bool
  pub session_ttl : ℕ
  pub hash_token : String → String

-- Minutes in microseconds.
abbrev pub reauthentication_ttl : ℕ
reauthentication_ttl = 600000000

abbrev pub auth_challenge_ttl : ℕ
auth_challenge_ttl = 300000000

-- What a call draws: a session or challenge id, its token and the CSRF token.
pub record Drawn : Type 0 where
  pub id : ℕ
  pub token : String
  pub csrf_token : String

abbrev pub same_session : AuthSession → AuthSession → Bool
same_session new s = s.session_id == new.session_id || text_eq s.token_hash new.token_hash

unfoldable pub add_session : AuthSession → Tx (Unit {0})
unfolding exists_where
add_session new db =
    if exists_where (same_session new) db.sessions
    then err database_error
    else ok (tt, record db { sessions = db.sessions ++ new ∷ [] })

abbrev pub new_session : AuthSettings → Drawn → ℕ → UserIdentity → Option ℕ → Bool → AuthSession
new_session settings drawn now user mfa_verified_at elevated = record {
  session_id = drawn.id;
  user_id = user.user_id;
  token_hash = settings.hash_token drawn.token;
  csrf_hash = settings.hash_token drawn.csrf_token;
  expires_at = now + settings.session_ttl;
  created_at = now;
  mfa_verified_at = mfa_verified_at;
  reauthenticated_at = if elevated then some now else none;
  elevated_until = if elevated then some (now + reauthentication_ttl) else none;
}

-- The principal of a session.
unfoldable pub principal_of : Bool → AuthSession → UserIdentity → SessionPrincipal
unfolding permissions_for_role
principal_of mfa_enabled s u = record {
  session_id = s.session_id;
  user_id = s.user_id;
  username = u.username;
  role = u.role;
  permissions = permissions_for_role u.role;
  mfa_enabled = mfa_enabled;
  mfa_enrollment_required = u.mfa_enrollment_required;
  mfa_verified_at = s.mfa_verified_at;
  reauthenticated_at = s.reauthenticated_at;
  elevated_until = s.elevated_until;
  csrf_hash = s.csrf_hash;
  expires_at = s.expires_at;
}

-- `_issue`
unfoldable pub issue :
    AuthSettings → Drawn → ℕ → UserIdentity → Bool → Option ℕ → Bool → Tx SessionPrincipal
unfolding add_session principal_of
issue settings drawn now user mfa_enabled mfa_verified_at elevated =
    let session = new_session settings drawn now user mfa_verified_at elevated in
    do add_session session; return (principal_of mfa_enabled session user)

-- ON CONFLICT (user_id) DO UPDATE: the factor is unconfirmed again.
abbrev pub replace_factor : MfaFactor → MfaFactor → MfaFactor
replace_factor new f = record f {
  encrypted_totp_secret = new.encrypted_totp_secret;
  encryption_key_version = new.encryption_key_version;
  last_accepted_step = none;
  confirmed_at = none;
  updated_at = new.updated_at;
}

unfoldable pub put_mfa_factor : MfaFactor → Tx (Unit {0})
unfolding exists_where update_where
put_mfa_factor new = modify λ db. record db {
  user_mfa_factors =
      if exists_where (λ f. f.user_id == new.user_id) db.user_mfa_factors
      then update_where (λ f. f.user_id == new.user_id) (replace_factor new) db.user_mfa_factors
      else db.user_mfa_factors ++ new ∷ [];
}

abbrev pub same_challenge : Challenge → Challenge → Bool
same_challenge new c = c.challenge_id == new.challenge_id || text_eq c.token_hash new.token_hash

unfoldable pub add_challenge : Challenge → Tx (Unit {0})
unfolding exists_where
add_challenge new db =
    if exists_where (same_challenge new) db.auth_challenges
    then err database_error
    else ok (tt, record db { auth_challenges = db.auth_challenges ++ new ∷ [] })

-- `begin_enrollment` comes with the sealed secret and the version of its key.
unfoldable pub begin_enrollment : Option (List ℕ × ℕ) → ℕ → UserIdentity → Tx (Unit {0})
unfolding put_mfa_factor
begin_enrollment none now user = return tt
begin_enrollment (some (envelope, key_version)) now user = put_mfa_factor (record {
  user_id = user.user_id;
  encrypted_totp_secret = envelope;
  encryption_key_version = key_version;
  last_accepted_step = none;
  confirmed_at = none;
  created_at = now;
  updated_at = now;
})

abbrev pub new_challenge : AuthSettings → Drawn → ℕ → UserIdentity → ChallengePurpose → Challenge
new_challenge settings drawn now user purpose = record {
  challenge_id = drawn.id;
  user_id = user.user_id;
  token_hash = settings.hash_token drawn.token;
  purpose = purpose;
  expires_at = now + auth_challenge_ttl;
  consumed_at = none;
  created_at = now;
}

-- `_issue_challenge`
unfoldable pub issue_challenge :
    AuthSettings → Drawn → ℕ → UserIdentity → ChallengePurpose → Option (List ℕ × ℕ) → Tx Challenge
unfolding begin_enrollment add_challenge
issue_challenge settings drawn now user purpose sealed = do
  raise_if (not settings.totp_enabled) totp_disabled
  begin_enrollment sealed now user
  add_challenge (new_challenge settings drawn now user purpose)
  return (new_challenge settings drawn now user purpose)

-- FROM sessions s JOIN users u … AND u.status = 'ACTIVE'
unfoldable pub join_user : Db → Option AuthSession → Option SessionPrincipal
unfolding first_where exists_where principal_of
join_user db none = none
join_user db (some s) =
    elim (first_where (λ u. has_user_id s.user_id u && is_active u.status) db.users) [
      | none ↦ none
      | some u ↦
          some (principal_of (exists_where (is_confirmed_of s.user_id) db.user_mfa_factors) s u)
    ]

unfoldable pub resolve_session : String → ℕ → Tx (Option SessionPrincipal)
unfolding first_where join_user
resolve_session token_hash now = gets (λ db.
    join_user db
      (first_where (λ s. text_eq s.token_hash token_hash && ltb now s.expires_at) db.sessions))

unfoldable pub elevate_session : ℕ → ℕ → ℕ → Tx (Option SessionPrincipal)
unfolding update_where first_where join_user
elevate_session session_id reauthenticated_at elevated_until db =
    let elevated : Db = record db {
      sessions =
          update_where (λ s. s.session_id == session_id)
            (λ s. record s {
              reauthenticated_at = some reauthenticated_at;
              elevated_until = some elevated_until;
            })
            db.sessions;
    } in
    ok (
      join_user elevated (first_where (λ s. s.session_id == session_id) elevated.sessions),
      elevated,
    )

-- What `resolve` refuses of a session that stands, with TOTP in force.
abbrev pub is_unverified : SessionPrincipal → Bool
is_unverified p =
    p.mfa_enrollment_required
    || ((requires_mfa p.role && not p.mfa_enabled)
        || (p.mfa_enabled && not (is_set p.mfa_verified_at)))

unfoldable pub check_session : AuthSettings → Option SessionPrincipal → Tx SessionPrincipal
check_session settings none db = err invalid_session
check_session settings (some p) db =
    (raise_if (settings.totp_enabled && is_unverified p) invalid_session >> return p) db

unfoldable pub resolve : AuthSettings → String → ℕ → Tx SessionPrincipal
unfolding resolve_session check_session
resolve settings session_token now = do
  found ← resolve_session (settings.hash_token session_token) now
  check_session settings found
