-- ===== src/Auth/Owners.antt =====
-- About the active owners that the units of work of auth/service.py leave.
use ops_composer.Prelude.{
  ℕ, String, ◌≡◌, refl, true, List, [], ◌∷◌, ◌++◌, inl, inr, arith, Bool-cases, exists_where,
  exists_where-append, update_where,
}
use ops_composer.Db.{
  Db, Tx, Result, ok, err, return, After, After-ok, After-any, Keeps, Keeps-bind, Keeps-raise_if,
  After-bind, ◌>>◌,
}
use ops_composer.Domain.Auth.{UserStatus, UserRole, UserIdentity, SessionPrincipal}
use ops_composer.Auth.Users.{is_active_owner, has_user_id, set_touched, set_enrollment}
use ops_composer.Auth.Sessions.{AuthSettings, Drawn}
use ops_composer.Auth.Admin.{
  enforce_active_owner, committed, update_tx, update_user, as_last_owner, may_manage,
  validate_password, activate_tx, activate,
}
use ops_composer.Auth.Steps.{
  Step, created, reissued, updated, mfa_reset, mfa_recovered, password_recovered, logged_out,
  activated, Reach, here, next,
}
use ops_composer.Auth.Frame.{
  may_manage-Keeps, reissue_activation-Keeps, reset_user_mfa-Keeps, create_user-Keeps,
}
use ops_composer.Auth.Frame.Recovery.{
  break_glass_reset_mfa-Keeps, break_glass_reset_password-Keeps, logout-Keeps,
}

abbrev pub HasOwner : Db → Type 0
HasOwner db = exists_where is_active_owner db.users ≡ true

abbrev Owned : List UserIdentity → Type 0
Owned us = exists_where is_active_owner us ≡ true

enforce-HasOwner : (db : Db) → After HasOwner (enforce_active_owner db)
unfolding enforce_active_owner
enforce-HasOwner db = elim (Bool-cases (exists_where is_active_owner db.users)) [
  | inl e ↦ rw e e
  | inr e ↦ rw e tt
]

-- Whatever a unit of work does, its commit sees to the owner.
committed-HasOwner : {A : Type 0} (m : Tx A) → Keeps HasOwner (committed m)
unfolding committed
committed-HasOwner m db _ =
    After-bind (λ _. Unit) HasOwner m (λ a. enforce_active_owner >> return a) db (After-any (m db))
      λ a mid _.
        After-bind HasOwner HasOwner enforce_active_owner (λ _. return a) mid (enforce-HasOwner mid)
          λ u d p. p

as_last_owner-After :
    {A : Type 0} (r : Result (A × Db)) → After HasOwner r → After HasOwner (as_last_owner r)
as_last_owner-After (ok a) h = h
as_last_owner-After (err e) h = tt

update_user-HasOwner :
    (actor : SessionPrincipal) (user_id : ℕ) (role : UserRole) (status : UserStatus)
    (version now : ℕ)
    → Keeps HasOwner (update_user actor user_id role status version now)
unfolding update_user
update_user-HasOwner actor user_id role status version now =
    Keeps-bind HasOwner (may_manage actor now) _ (may_manage-Keeps Owned actor now) λ _ db p.
      as_last_owner-After (committed (update_tx actor user_id role status version now) db)
        (committed-HasOwner (update_tx actor user_id role status version now) db p)

activate-HasOwner :
    (settings : AuthSettings) (hash_password : String → String) (drawn : Drawn)
    (sealed : List ℕ × ℕ) (code password : String) (now : ℕ)
    → Keeps HasOwner (activate settings hash_password drawn sealed code password now)
unfolding activate validate_password
activate-HasOwner settings hash_password drawn sealed code password now =
    Keeps-bind HasOwner (validate_password password) _ (Keeps-raise_if HasOwner _ _)
      λ _. committed-HasOwner (activate_tx settings hash_password drawn sealed code password now)

resets-Owned :
    (user_id now : ℕ) (us : List UserIdentity)
    → Owned us
    → Owned (update_where (has_user_id user_id) (set_enrollment now) us)
unfolding exists_where update_where
resets-Owned user_id now [] h = h
resets-Owned user_id now (u ∷ us) h = ground (arith, resets-Owned user_id now us)

touches-Owned :
    (user_id now : ℕ) (us : List UserIdentity)
    → Owned us
    → Owned (update_where (has_user_id user_id) (set_touched now) us)
unfolding exists_where update_where
touches-Owned user_id now [] h = h
touches-Owned user_id now (u ∷ us) h = ground (arith, touches-Owned user_id now us)

grows-Owned : (us : List UserIdentity) (u : UserIdentity) → Owned us → Owned (us ++ u ∷ [])
grows-Owned us u h = rw (exists_where-append is_active_owner us (u ∷ []), h) refl

Step-HasOwner : {db db' : Db} → Step db db' → HasOwner db → HasOwner db'
Step-HasOwner
      (created settings canonical lower drawn user_id actor username role now {u} {db} {db'} e) h =
    After-ok HasOwner _
      (create_user-Keeps Owned settings canonical lower drawn user_id actor username role now
        (λ us _ p. grows-Owned us _ p) db h)
      e
Step-HasOwner (reissued settings drawn actor user_id now {u} {db} {db'} e) h =
    After-ok HasOwner _ (reissue_activation-Keeps Owned settings drawn actor user_id now db h) e
Step-HasOwner (updated actor user_id role status version now {u} {db} {db'} e) h =
    After-ok HasOwner _ (update_user-HasOwner actor user_id role status version now db h) e
Step-HasOwner (mfa_reset actor user_id now {u} {db} {db'} e) h =
    After-ok HasOwner _
      (reset_user_mfa-Keeps Owned actor user_id now (resets-Owned user_id now) db h) e
Step-HasOwner (mfa_recovered canonical lower phrase username confirmation now {u} {db} {db'} e) h =
    After-ok HasOwner _
      (break_glass_reset_mfa-Keeps Owned canonical lower phrase username confirmation now
        (λ id. resets-Owned id now) db h)
      e
Step-HasOwner
      (password_recovered canonical lower phrase hash_password username confirmation new_password
        now {u} {db} {db'} e)
      h =
    After-ok HasOwner _
      (break_glass_reset_password-Keeps Owned canonical lower phrase hash_password username
        confirmation new_password now (λ id. touches-Owned id now) db h)
      e
Step-HasOwner (logged_out principal {u} {db} {db'} e) h =
    After-ok HasOwner _ (logout-Keeps Owned principal db h) e
Step-HasOwner (activated settings hash_password drawn sealed code password now {u} {db} {db'} e) h =
    After-ok HasOwner _
      (activate-HasOwner settings hash_password drawn sealed code password now db h) e

-- Once there is an active owner, there is one after every sequence of user creations, reissued and used
-- activations, changes of role and status, resets of MFA by an administrator, resets of MFA or password
-- from the command line, and logouts.
pub Reach-HasOwner : {db db' : Db} → Reach db db' → HasOwner db → HasOwner db'
Reach-HasOwner here h = h
Reach-HasOwner (next before step) h = Step-HasOwner step (Reach-HasOwner before h)
