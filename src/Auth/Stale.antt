-- ===== src/Auth/Stale.antt =====
-- About `update_user` of auth/service.py with a version that was read before.
use ops_composer.Prelude.{
  ℕ, ◌≡◌, ◌≢◌, refl, true, false, not, Option, List, arith, exists_where, exists_where-delete_where,
  first_where, ◌==◌,
}
use ops_composer.Db.{
  Db, Tx, Result, ok, err, return, raise_if, require, After, After-ok, After-any, Keeps,
  Keeps-raise_if, Keeps-require, After-bind, ◌>>=◌, ◌>>◌,
}
use ops_composer.Domain.Auth.{UserStatus, UserRole, UserIdentity, SessionPrincipal}
use ops_composer.Domain.Errors.{
  user_conflict, user_version_conflict, invalid_credentials, ck_users_active_owner,
}
use ops_composer.Audit
use ops_composer.Auth.Users
use ops_composer.Auth.Users.{get_user, is_at, is_active_owner, delete_user_sessions, update_found}
use ops_composer.Auth.Admin.{
  may_manage, update_tx, update_user, committed, enforce_active_owner, as_last_owner, is_refused,
  by_actor, update_action,
}
use ops_composer.Auth.Steps.{Reach}
use ops_composer.Auth.Frame.{
  OnUsers, may_manage-Keeps, get_user-Keeps, delete_user_sessions-Keeps, ends_with,
}
use ops_composer.Auth.Versions.{IsPast, IsKeyed, write, write-IsPast, write-refused, Reach-IsPast}

module _ (actor : SessionPrincipal) (user_id : ℕ) (role : UserRole) (status : UserStatus)
    (version now : ℕ) where
  -- What follows the UPDATE.
  abbrev closes : UserIdentity → UserIdentity → Tx UserIdentity
  closes before updated = do
    delete_user_sessions user_id
    Audit.append (by_actor (update_action before.role role status) actor)
    return updated

  closes-Keeps :
      (P : List UserIdentity → Type 0) (before u : UserIdentity)
      → Keeps (OnUsers P) (closes before u)
  closes-Keeps P before u =
      ends_with P u (delete_user_sessions user_id)
        (by_actor (update_action before.role role status) actor)
        (delete_user_sessions-Keeps P user_id)

  module _ (P : List UserIdentity → Type 0) (Q : Db → Type 0)
      (writes : (before : UserIdentity) (o : Option UserIdentity) (db : Db)
        → first_where (is_at user_id version) db.users ≡ o
        → P db.users
        → After Q (write user_id role status version now (closes before) o db)) where
    update_tx-After :
        (db : Db) → P db.users → After Q (update_tx actor user_id role status version now db)
    unfolding update_tx Users.update_user
    update_tx-After db p =
        After-bind (OnUsers P) Q (get_user user_id) _ db (get_user-Keeps P user_id db p)
          λ found d1 p1.
            After-bind (OnUsers P) Q (require found invalid_credentials) _ d1
              (Keeps-require (OnUsers P) found invalid_credentials d1 p1)
              λ before d2 p2.
                After-bind (OnUsers P) Q (raise_if (is_refused before status) user_conflict)
                  (λ _ mid.
                    write user_id role status version now (closes before)
                      (first_where (is_at user_id version) mid.users) mid)
                  d2 (Keeps-raise_if (OnUsers P) (is_refused before status) user_conflict d2 p2)
                  λ _ mid q.
                    writes before (first_where (is_at user_id version) mid.users) mid refl q

    committed-After : {A : Type 0} (m : Tx A) (db : Db) → After Q (m db) → After Q (committed m db)
    unfolding committed enforce_active_owner
    committed-After m db h =
        After-bind Q Q m (λ a. enforce_active_owner >> return a) db h
          λ a mid q.
            After-bind Q Q enforce_active_owner (λ _. return a) mid
              (Keeps-raise_if Q (not (exists_where is_active_owner mid.users)) ck_users_active_owner
                mid q)
              λ _ d r. r

    renamed-After : {A : Type 0} (r : Result (A × Db)) → After Q r → After Q (as_last_owner r)
    renamed-After (ok a) h = h
    renamed-After (err e) h = tt

    update_user-After :
        (db : Db) → P db.users → After Q (update_user actor user_id role status version now db)
    unfolding update_user
    update_user-After db p =
        After-bind (OnUsers P) Q (may_manage actor now) _ db (may_manage-Keeps P actor now db p)
          λ _ mid q.
            renamed-After (committed (update_tx actor user_id role status version now) mid) (
              committed-After (update_tx actor user_id role status version now) mid
                (update_tx-After mid q))

update_user-IsPast :
    (actor : SessionPrincipal) (user_id : ℕ) (role : UserRole) (status : UserStatus)
    (version now : ℕ) (db : Db)
    → IsKeyed db.users
    → After
        (OnUsers (IsPast user_id version))
        (update_user actor user_id role status version now db)
update_user-IsPast actor user_id role status version now =
    update_user-After actor user_id role status version now IsKeyed
      (OnUsers (IsPast user_id version))
      λ before.
        write-IsPast user_id role status version now
          (closes actor user_id role status version now before)
          (closes-Keeps actor user_id role status version now (IsPast user_id version) before)

update_user-refused :
    (actor : SessionPrincipal) (user_id : ℕ) (role : UserRole) (status : UserStatus)
    (version now : ℕ) (db : Db)
    → IsPast user_id version db.users
    → After (λ _. true ≡ false) (update_user actor user_id role status version now db)
update_user-refused actor user_id role status version now =
    update_user-After actor user_id role status version now (IsPast user_id version)
      (λ _. true ≡ false)
      λ before.
        write-refused user_id role status version now
          (closes actor user_id role status version now before)

-- In a table of users whose ids are distinct: once a change of a user returned, no change that names the
-- same version of the user returns again, whoever makes it, and whatever came between of these units of
-- work, in any order and number: creations of users, new activations, changes of roles and statuses,
-- resets of second factors, activations, the two break-glass resets and logouts.
pub update_user_once :
    (actor other : SessionPrincipal) (user_id : ℕ) (role role' : UserRole)
    (status status' : UserStatus) (version now later : ℕ) (db db1 db2 db3 : Db)
    (u u' : UserIdentity)
    → IsKeyed db.users
    → update_user actor user_id role status version now db ≡ ok (u, db1)
    → Reach db1 db2
    → update_user other user_id role' status' version later db2 ≢ ok (u', db3)
update_user_once actor other user_id role role' status status' version now later db db1 db2 db3 u u'
      keyed first between again =
    let past =
      After-ok (OnUsers (IsPast user_id version)) _
        (update_user-IsPast actor user_id role status version now db keyed) first in
    let refused =
      update_user-refused other user_id role' status' version later db2
        (Reach-IsPast user_id version between past) in
    let wrong : true ≡ false = After-ok (λ _. true ≡ false) _ refused again in
    absurd (ground (arith, wrong))

abbrev pub HasNoSession : ℕ → Db → Type 0
HasNoSession user_id db = exists_where (λ s. s.user_id == user_id) db.sessions ≡ false

module _ (actor : SessionPrincipal) (user_id : ℕ) (role : UserRole) (status : UserStatus)
    (version now : ℕ) where
  closes-HasNoSession :
      (before u : UserIdentity) (db : Db)
      → After (HasNoSession user_id) (closes actor user_id role status version now before u db)
  unfolding delete_user_sessions Audit.append
  closes-HasNoSession before u db =
      exists_where-delete_where (λ s. s.user_id == user_id) (λ s. s.user_id == user_id) (λ s h. h)
        db.sessions

  write-HasNoSession :
      (before : UserIdentity) (o : Option UserIdentity) (db : Db)
      → After (HasNoSession user_id) (
          write user_id role status version now
            (closes actor user_id role status version now before)
            o
            db)
  write-HasNoSession before o db =
      After-bind (λ _. Unit) (HasNoSession user_id) (update_found user_id role status version now o)
        (λ changed.
          require changed user_version_conflict
          >>= closes actor user_id role status version now before)
        db (After-any (update_found user_id role status version now o db))
        λ changed mid _.
          After-bind (λ _. Unit) (HasNoSession user_id) (require changed user_version_conflict)
            (closes actor user_id role status version now before) mid
            (After-any (require changed user_version_conflict mid))
            λ u last _. closes-HasNoSession before u last

  -- After a change of a user's role or status that returns, the user has no session.
  pub update_user-signed_out :
      (db db' : Db) (u : UserIdentity)
      → update_user actor user_id role status version now db ≡ ok (u, db')
      → exists_where (λ s. s.user_id == user_id) db'.sessions ≡ false
  update_user-signed_out db db' u h =
      After-ok (HasNoSession user_id) _
        (update_user-After actor user_id role status version now (λ _. Unit) (HasNoSession user_id)
          (λ before o mid _ _. write-HasNoSession before o mid) db tt)
        h
