-- ===== src/Auth/Frame/Changes.antt =====
-- What changes of role and status, and activations, of auth/service.py do to `users`.
use ops_composer.Prelude.{
  ℕ, String, Bool, true, false, not, Option, none, some, List, ◌&&◌, inl, inr, Bool-cases,
  if◌then◌else◌, exists_where, first_where, update_where,
}
use ops_composer.Db.{
  Db, Tx, Result, ok, err, return, raise_if, require, After, Keeps, Keeps-bind, Keeps-raise_if,
  Keeps-require, ◌>>=◌, ◌>>◌,
}
use ops_composer.Domain.Auth.{
  UserRole, UserStatus, UserIdentity, SessionPrincipal, ActivationToken, AuthSession, Challenge,
  ChallengePurpose,
}
use ops_composer.Domain.Audit.{AuditAction, AuditSource}
use ops_composer.Domain.Errors.{
  activation_expired, invalid_credentials, totp_disabled, ck_users_active_owner, user_conflict,
  user_version_conflict,
}
use ops_composer.Audit
use ops_composer.Auth.Users
use ops_composer.Auth.Users.{
  is_active, is_active_owner, is_at, set_user, has_password, set_activated, awaits_activation,
  activate_user, update_found, activate_found, consume_found, requires_mfa, is_pending, get_user,
  same_user, insert_user, add_user, set_enrollment, has_user_id, invalidate_activation_tokens,
  add_activation_token, same_token, consume_activation_token, is_redeemable, delete_user_sessions,
  reset_mfa,
}
use ops_composer.Auth.Sessions.{
  AuthSettings, Drawn, add_session, same_session, put_mfa_factor, add_challenge, same_challenge,
  begin_enrollment, issue, issue_challenge, new_session, new_challenge, principal_of,
}
use ops_composer.Auth.Admin.{
  may_manage, by_actor, issue_activated, enforce_active_owner, committed, as_last_owner, is_refused,
  update_tx, update_action, activate_tx, activate, validate_password, update_user, by_user,
}
use ops_composer.Auth.Frame.{
  OnUsers, get_user-Keeps, delete_user_sessions-Keeps, may_manage-Keeps, ends_with,
}

module _ (P : List UserIdentity → Type 0) where
  pub committed-Keeps :
      {A : Type 0} (m : Tx A) → Keeps (OnUsers P) m → Keeps (OnUsers P) (committed m)
  unfolding committed enforce_active_owner
  committed-Keeps m h =
      Keeps-bind (OnUsers P) m (λ a. enforce_active_owner >> return a) h
        λ a.
          Keeps-bind (OnUsers P) enforce_active_owner (λ _. return a)
            (λ db.
              Keeps-raise_if (OnUsers P) (not (exists_where is_active_owner db.users))
                ck_users_active_owner db)
            λ _ db p. p

  pub as_last_owner-After :
      {A : Type 0} (r : Result (A × Db)) → After (OnUsers P) r → After (OnUsers P) (as_last_owner r)
  as_last_owner-After (ok a) h = h
  as_last_owner-After (err e) h = tt

  -- The statements that change a user's role, status or activation.
  update_found-Keeps :
      (user_id : ℕ) (role : UserRole) (status : UserStatus) (version now : ℕ)
      → ((has_factor : Bool) (us : List UserIdentity)
          → P us
          → P (update_where (is_at user_id version) (set_user role status has_factor now) us))
      → (o : Option UserIdentity)
      → Keeps (OnUsers P) (update_found user_id role status version now o)
  unfolding update_found
  update_found-Keeps user_id role status version now changes none db p = p
  update_found-Keeps user_id role status version now changes (some u) db p =
      elim (Bool-cases
        (is_active status && not (exists_where (has_password user_id) db.user_credentials))) [
          | inl t ↦ rw t tt
          | inr t ↦ rw t (changes _ db.users p)
        ]

  pub update_user-Keeps :
      (actor : SessionPrincipal) (user_id : ℕ) (role : UserRole) (status : UserStatus)
      (version now : ℕ)
      → ((has_factor : Bool) (us : List UserIdentity)
          → P us
          → P (update_where (is_at user_id version) (set_user role status has_factor now) us))
      → Keeps (OnUsers P) (update_user actor user_id role status version now)
  unfolding update_user update_tx Users.update_user
  update_user-Keeps actor user_id role status version now changes =
      Keeps-bind (OnUsers P) (may_manage actor now) _ (may_manage-Keeps P actor now) λ _ db p.
        as_last_owner-After (committed (update_tx actor user_id role status version now) db) (
          committed-Keeps (update_tx actor user_id role status version now)
            (Keeps-bind (OnUsers P) (get_user user_id) _ (get_user-Keeps P user_id) λ found.
              Keeps-bind (OnUsers P) (require found invalid_credentials) _
                (Keeps-require (OnUsers P) found invalid_credentials)
                λ before.
                  Keeps-bind (OnUsers P) (raise_if (is_refused before status) user_conflict) _
                    (Keeps-raise_if (OnUsers P) (is_refused before status) user_conflict)
                    λ _.
                      Keeps-bind (OnUsers P) (Users.update_user user_id role status version now) _
                        (λ mid.
                          update_found-Keeps user_id role status version now changes
                            (first_where (is_at user_id version) mid.users) mid)
                        λ changed.
                          Keeps-bind (OnUsers P) (require changed user_version_conflict)
                            (λ u. do
                              _ ← delete_user_sessions user_id
                              _ ←
                                  Audit.append
                                    (by_actor (update_action before.role role status) actor)
                              return u)
                            (Keeps-require (OnUsers P) changed user_version_conflict)
                            λ u.
                              ends_with P u (delete_user_sessions user_id)
                                (by_actor (update_action before.role role status) actor)
                                (delete_user_sessions-Keeps P user_id))
            db p)

  consume_found-Keeps :
      (token_hash : String) (now : ℕ) (o : Option ActivationToken)
      → Keeps (OnUsers P) (consume_found token_hash now o)
  unfolding consume_found
  consume_found-Keeps token_hash now none db p = p
  consume_found-Keeps token_hash now (some t) db p = p

  activate_found-Keeps :
      (user_id : ℕ) (password_hash : String) (enroll : Bool) (now : ℕ)
      → ((us : List UserIdentity)
          → P us
          → P (update_where (awaits_activation user_id) (set_activated enroll now) us))
      → (o : Option UserIdentity)
      → Keeps (OnUsers P) (activate_found user_id password_hash enroll now o)
  unfolding activate_found
  activate_found-Keeps user_id password_hash enroll now changes none db p = tt
  activate_found-Keeps user_id password_hash enroll now changes (some u) db p = changes db.users p

  add_session-Keeps : (s : AuthSession) → Keeps (OnUsers P) (add_session s)
  unfolding add_session
  add_session-Keeps s db p = elim (Bool-cases (exists_where (same_session s) db.sessions)) [
    | inl e ↦ rw e tt
    | inr e ↦ rw e p
  ]

  add_challenge-Keeps : (c : Challenge) → Keeps (OnUsers P) (add_challenge c)
  unfolding add_challenge
  add_challenge-Keeps c db p =
      elim (Bool-cases (exists_where (same_challenge c) db.auth_challenges)) [
        | inl e ↦ rw e tt
        | inr e ↦ rw e p
      ]

  begin_enrollment-Keeps :
      (sealed : Option (List ℕ × ℕ)) (now : ℕ) (user : UserIdentity)
      → Keeps (OnUsers P) (begin_enrollment sealed now user)
  unfolding begin_enrollment put_mfa_factor
  begin_enrollment-Keeps none now user db p = p
  begin_enrollment-Keeps (some (envelope, key_version)) now user db p = p

  Keeps-if :
      {A : Type 0} (b : Bool) (m n : Tx A)
      → Keeps (OnUsers P) m
      → Keeps (OnUsers P) n
      → Keeps (OnUsers P) (if b then m else n)
  Keeps-if true m n h k = h
  Keeps-if false m n h k = k

  pub issue-Keeps :
      (settings : AuthSettings) (drawn : Drawn) (now : ℕ) (user : UserIdentity) (mfa_enabled : Bool)
      (verified : Option ℕ) (elevated : Bool)
      → Keeps (OnUsers P) (issue settings drawn now user mfa_enabled verified elevated)
  unfolding issue
  issue-Keeps settings drawn now user mfa_enabled verified elevated =
      let session = new_session settings drawn now user verified elevated in
      Keeps-bind (OnUsers P) (add_session session)
        (λ _. return (principal_of mfa_enabled session user)) (add_session-Keeps session)
        λ _ db p. p

  pub issue_challenge-Keeps :
      (settings : AuthSettings) (drawn : Drawn) (now : ℕ) (user : UserIdentity)
      (purpose : ChallengePurpose) (sealed : Option (List ℕ × ℕ))
      → Keeps (OnUsers P) (issue_challenge settings drawn now user purpose sealed)
  unfolding issue_challenge
  issue_challenge-Keeps settings drawn now user purpose sealed =
      let challenge = new_challenge settings drawn now user purpose in
      Keeps-bind (OnUsers P) (raise_if (not settings.totp_enabled) totp_disabled)
        (λ _. do
          _ ← begin_enrollment sealed now user
          _ ← add_challenge challenge
          return challenge)
        (Keeps-raise_if (OnUsers P) (not settings.totp_enabled) totp_disabled)
        λ _.
          Keeps-bind (OnUsers P) (begin_enrollment sealed now user)
            (λ _. do _ ← add_challenge challenge; return challenge)
            (begin_enrollment-Keeps sealed now user)
            λ _.
              Keeps-bind (OnUsers P) (add_challenge challenge) (λ _. return challenge)
                (add_challenge-Keeps challenge) λ _ db p. p

  issue_activated-Keeps :
      (settings : AuthSettings) (drawn : Drawn) (sealed : List ℕ × ℕ) (needs_mfa : Bool)
      (user : UserIdentity) (now : ℕ)
      → Keeps (OnUsers P) (issue_activated settings drawn sealed needs_mfa user now)
  unfolding issue_activated
  issue_activated-Keeps settings drawn sealed needs_mfa user now =
      let enroll =
        issue_challenge settings drawn now user ChallengePurpose.mfa_enrollment (some sealed) in
      let start = issue settings drawn now user false none (not settings.totp_enabled) in
      Keeps-if (needs_mfa && settings.totp_enabled) (do _ ← enroll; return tt)
        (do _ ← start; return tt)
        (Keeps-bind (OnUsers P) enroll (λ _. return tt)
          (issue_challenge-Keeps settings drawn now user ChallengePurpose.mfa_enrollment
            (some sealed))
          λ _ db p. p)
        (Keeps-bind (OnUsers P) start (λ _. return tt)
          (issue-Keeps settings drawn now user false none (not settings.totp_enabled)) λ _ db p. p)

  pub activate-Keeps :
      (settings : AuthSettings) (hash_password : String → String) (drawn : Drawn)
      (sealed : List ℕ × ℕ) (code password : String) (now : ℕ)
      → ((user_id : ℕ) (enroll : Bool) (us : List UserIdentity)
          → P us
          → P (update_where (awaits_activation user_id) (set_activated enroll now) us))
      → Keeps (OnUsers P) (activate settings hash_password drawn sealed code password now)
  unfolding activate activate_tx validate_password activate_user consume_activation_token
  activate-Keeps settings hash_password drawn sealed code password now changes =
      Keeps-bind (OnUsers P) (validate_password password) _ (Keeps-raise_if (OnUsers P) _ _) λ _.
        committed-Keeps (activate_tx settings hash_password drawn sealed code password now) (
          Keeps-bind (OnUsers P) (consume_activation_token (settings.hash_token code) now) _
            (λ db.
              consume_found-Keeps (settings.hash_token code) now
                (first_where (is_redeemable db.users (settings.hash_token code) now)
                  db.user_activation_tokens)
                db)
            λ grant.
              Keeps-bind (OnUsers P) (require grant activation_expired) _
                (Keeps-require (OnUsers P) grant activation_expired)
                λ granted.
                  Keeps-bind (OnUsers P)
                    (activate_user granted.user_id (hash_password password)
                      (requires_mfa granted.role) now)
                    _
                    (λ db.
                      activate_found-Keeps granted.user_id (hash_password password)
                        (requires_mfa granted.role) now
                        (changes granted.user_id (requires_mfa granted.role))
                        (first_where (awaits_activation granted.user_id) db.users) db)
                    λ user.
                      ends_with P user
                        (issue_activated settings drawn sealed (requires_mfa granted.role) user now)
                        (by_user AuditAction.user_activated AuditSource.api user.user_id)
                        (issue_activated-Keeps settings drawn sealed (requires_mfa granted.role)
                          user now))
