-- ===== src/Auth/Users.antt =====
-- backend/src/ops_composer/auth/repository.py: the statements on users and their activation tokens. The
-- columns of `users` are in two lists, `users` and `user_credentials`; `lower` is PostgreSQL's.
use ops_composer.Prelude.{
  ℕ, suc, String, Bool, true, false, not, Option, none, some, List, [], ◌∷◌, ◌++◌, ◌&&◌, ◌||◌, ◌==◌,
  ltb, text_eq, if◌then◌else◌, exists_where, first_where, rows_where, update_where, delete_where,
  is_set, length,
}
use ops_composer.Db.{Tx, ok, err, gets, modify}
use ops_composer.Domain.Auth.{
  UserStatus, UserRole, UserIdentity, PasswordCredential, ActivationToken, MfaFactor,
}
use ops_composer.Domain.Errors.{admin_already_exists, runtime_error, database_error}

abbrev pub has_user_id : ℕ → UserIdentity → Bool
has_user_id user_id u = u.user_id == user_id

abbrev pub is_active : UserStatus → Bool
is_active UserStatus.active = true
is_active _ = false

abbrev pub is_pending : UserStatus → Bool
is_pending UserStatus.pending_activation = true
is_pending _ = false

abbrev pub is_owner : UserRole → Bool
is_owner UserRole.owner = true
is_owner _ = false

-- `role in MFA_REQUIRED_ROLES`
abbrev pub requires_mfa : UserRole → Bool
requires_mfa UserRole.owner = true
requires_mfa UserRole.admin = true
requires_mfa _ = false

abbrev pub is_active_owner : UserIdentity → Bool
is_active_owner u = is_owner u.role && is_active u.status

unfoldable pub count_users : Tx ℕ
count_users = gets (λ db. length db.users)

unfoldable pub count_active_owners : Tx ℕ
unfolding rows_where
count_active_owners = gets (λ db. length (rows_where is_active_owner db.users))

unfoldable pub get_user : ℕ → Tx (Option UserIdentity)
unfolding first_where
get_user user_id = gets (λ db. first_where (has_user_id user_id) db.users)

unfoldable pub find_user_by_username : (String → String) → String → Tx (Option UserIdentity)
unfolding first_where
find_user_by_username lower username =
    gets (λ db. first_where (λ u. text_eq (lower u.username) username) db.users)

-- The primary key and uq_users_username_canonical.
abbrev pub same_user : (String → String) → UserIdentity → UserIdentity → Bool
same_user lower new u = u.user_id == new.user_id || text_eq (lower u.username) (lower new.username)

-- `add_admin` inserts a password with the user, `add_user` none.
unfoldable pub insert_user : (String → String) → UserIdentity → PasswordCredential → Tx UserIdentity
unfolding exists_where
insert_user lower new credential db =
    if exists_where (same_user lower new) db.users
    then err admin_already_exists
    else ok (
      new,
      record db {
        users = db.users ++ new ∷ [];
        user_credentials = db.user_credentials ++ credential ∷ [];
      },
    )

unfoldable pub add_admin : (String → String) → UserIdentity → PasswordCredential → Tx UserIdentity
unfolding insert_user
add_admin lower = insert_user lower

unfoldable pub add_user : (String → String) → UserIdentity → Tx UserIdentity
unfolding insert_user
add_user lower identity =
    insert_user lower identity
      (record { user_id = identity.user_id; password_hash = none; password_updated_at = none })

abbrev pub is_confirmed_of : ℕ → MfaFactor → Bool
is_confirmed_of user_id f = f.user_id == user_id && is_set f.confirmed_at

-- `SET role = …, status = …, …`
abbrev pub set_user : UserRole → UserStatus → Bool → ℕ → UserIdentity → UserIdentity
set_user role status has_factor updated_at u = record u {
  role = role;
  status = status;
  mfa_enrollment_required =
      if requires_mfa role && not has_factor then true else u.mfa_enrollment_required;
  version = suc u.version;
  updated_at = updated_at;
}

-- WHERE user_id = … AND version = …
abbrev pub is_at : ℕ → ℕ → UserIdentity → Bool
is_at user_id version u = u.user_id == user_id && u.version == version

-- The user's password, which `users_password_state_check` wants of an active user.
abbrev pub has_password : ℕ → PasswordCredential → Bool
has_password user_id c = c.user_id == user_id && is_set c.password_hash

-- UPDATE … RETURNING, with the row that the WHERE clause finds.
unfoldable pub update_found :
    ℕ → UserRole → UserStatus → ℕ → ℕ → Option UserIdentity → Tx (Option UserIdentity)
unfolding update_where exists_where
update_found user_id role status expected_version updated_at none db = ok (none, db)
update_found user_id role status expected_version updated_at (some u) db =
    let has_factor = exists_where (is_confirmed_of user_id) db.user_mfa_factors in
    if is_active status && not (exists_where (has_password user_id) db.user_credentials)
    then err database_error
    else ok (
      some (set_user role status has_factor updated_at u),
      record db {
        users =
            update_where (is_at user_id expected_version)
              (set_user role status has_factor updated_at) db.users;
      },
    )

unfoldable pub update_user : ℕ → UserRole → UserStatus → ℕ → ℕ → Tx (Option UserIdentity)
unfolding first_where update_found
update_user user_id role status expected_version updated_at db =
    update_found user_id role status expected_version updated_at
      (first_where (is_at user_id expected_version) db.users) db

abbrev pub awaits_activation : ℕ → UserIdentity → Bool
awaits_activation user_id u = u.user_id == user_id && is_pending u.status

abbrev pub set_activated : Bool → ℕ → UserIdentity → UserIdentity
set_activated mfa_enrollment_required activated_at u = record u {
  status = UserStatus.active;
  mfa_enrollment_required = mfa_enrollment_required;
  activated_at = some activated_at;
  updated_at = activated_at;
  version = suc u.version;
}

abbrev pub set_password : String → ℕ → PasswordCredential → PasswordCredential
set_password password_hash now c = record c {
  password_hash = some password_hash;
  password_updated_at = some now;
}

unfoldable pub activate_found : ℕ → String → Bool → ℕ → Option UserIdentity → Tx UserIdentity
unfolding update_where
activate_found user_id password_hash mfa_enrollment_required activated_at none db =
    err runtime_error
activate_found user_id password_hash mfa_enrollment_required activated_at (some u) db = ok (
  set_activated mfa_enrollment_required activated_at u,
  record db {
    users =
        update_where (awaits_activation user_id)
          (set_activated mfa_enrollment_required activated_at) db.users;
    user_credentials =
        update_where (λ c. c.user_id == user_id) (set_password password_hash activated_at)
          db.user_credentials;
  },
)

unfoldable pub activate_user : ℕ → String → Bool → ℕ → Tx UserIdentity
unfolding first_where activate_found
activate_user user_id password_hash mfa_enrollment_required activated_at db =
    activate_found user_id password_hash mfa_enrollment_required activated_at
      (first_where (awaits_activation user_id) db.users) db

abbrev pub set_consumed : ℕ → ActivationToken → ActivationToken
set_consumed consumed_at t = record t { consumed_at = some consumed_at }

unfoldable pub invalidate_activation_tokens : ℕ → ℕ → Tx (Unit {0})
unfolding update_where
invalidate_activation_tokens user_id consumed_at = modify λ db. record db {
  user_activation_tokens =
      update_where (λ t. t.user_id == user_id && not (is_set t.consumed_at))
        (set_consumed consumed_at) db.user_activation_tokens;
}

-- The keys of the table: the id, the hash, and one live token of a user.
abbrev pub same_token : ActivationToken → ActivationToken → Bool
same_token new t =
    t.activation_token_id == new.activation_token_id
    || (text_eq t.token_hash new.token_hash
        || (t.user_id == new.user_id && not (is_set t.consumed_at)))

unfoldable pub add_activation_token : ActivationToken → Tx (Unit {0})
unfolding exists_where
add_activation_token new db =
    if exists_where (same_token new) db.user_activation_tokens
    then err database_error
    else ok (tt, record db { user_activation_tokens = db.user_activation_tokens ++ new ∷ [] })

-- WHERE t.token_hash = … AND t.consumed_at IS NULL AND t.expires_at > … , joined with the pending users.
unfoldable pub is_redeemable : List UserIdentity → String → ℕ → ActivationToken → Bool
unfolding exists_where
is_redeemable users token_hash now t =
    text_eq t.token_hash token_hash
    && (not (is_set t.consumed_at)
        && (ltb now t.expires_at && exists_where (awaits_activation t.user_id) users))

-- The user of the grant, or none.
unfoldable pub consume_found : String → ℕ → Option ActivationToken → Tx (Option UserIdentity)
unfolding first_where update_where is_redeemable
consume_found token_hash now none db = ok (none, db)
consume_found token_hash now (some t) db = ok (
  first_where (awaits_activation t.user_id) db.users,
  record db {
    user_activation_tokens =
        update_where (is_redeemable db.users token_hash now) (set_consumed now)
          db.user_activation_tokens;
  },
)

unfoldable pub consume_activation_token : String → ℕ → Tx (Option UserIdentity)
unfolding first_where is_redeemable consume_found
consume_activation_token token_hash now db =
    consume_found token_hash now
      (first_where (is_redeemable db.users token_hash now) db.user_activation_tokens) db

unfoldable pub delete_user_sessions : ℕ → Tx (Unit {0})
unfolding delete_where
delete_user_sessions user_id =
    modify λ db. record db { sessions = delete_where (λ s. s.user_id == user_id) db.sessions }

abbrev pub set_enrollment : ℕ → UserIdentity → UserIdentity
set_enrollment updated_at u = record u {
  mfa_enrollment_required = true;
  updated_at = updated_at;
  version = suc u.version;
}

unfoldable pub reset_mfa : ℕ → ℕ → Tx (Unit {0})
unfolding delete_where update_where
reset_mfa user_id updated_at = modify λ db. record db {
  user_recovery_codes = delete_where (λ c. c.user_id == user_id) db.user_recovery_codes;
  user_mfa_factors = delete_where (λ f. f.user_id == user_id) db.user_mfa_factors;
  sessions = delete_where (λ s. s.user_id == user_id) db.sessions;
  users = update_where (has_user_id user_id) (set_enrollment updated_at) db.users;
}

-- `update_password_hash`
abbrev pub set_touched : ℕ → UserIdentity → UserIdentity
set_touched updated_at u = record u { updated_at = updated_at; version = suc u.version }

unfoldable pub update_password_hash : ℕ → String → ℕ → Tx (Unit {0})
unfolding update_where
update_password_hash user_id password_hash updated_at = modify λ db. record db {
  users = update_where (has_user_id user_id) (set_touched updated_at) db.users;
  user_credentials =
      update_where (λ c. c.user_id == user_id) (set_password password_hash updated_at)
        db.user_credentials;
}
