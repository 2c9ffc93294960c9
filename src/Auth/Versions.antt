-- ===== src/Auth/Versions.antt =====
-- About the versions of users in auth/repository.py and auth/service.py.
use ops_composer.Prelude.{
  ℕ, suc, ◌<◌, String, ◌≡◌, refl, sym, ap, ◌∙◌, subst, Bool, true, false, not, Option, none, some,
  List, [], ◌∷◌, ◌++◌, ◌&&◌, inl, inr, arith, Bool-cases, All, All-map, All-append,
  All-update_where, exists_where, exists_where-append, exists_where-update_where_same,
  exists_where_mono, exists_of_first_where, not_exists_where-All, first_where, first_where_holds,
  All-first_where, update_where, ◌==◌, ==_iff, &&_left, &&_right,
}
use ops_composer.Db.{Db, Tx, ok, err, require, >>=-ok, >>=-err, After, After-ok, Keeps, ◌>>=◌}
use ops_composer.Domain.Auth.{UserStatus, UserRole, UserIdentity}
use ops_composer.Auth.Users.{
  has_user_id, is_at, set_user, set_enrollment, set_touched, set_activated, awaits_activation,
  same_user, update_found, has_password, is_active, is_confirmed_of,
}
use ops_composer.Domain.Errors.{user_version_conflict, database_error}
use ops_composer.Auth.Frame.{
  OnUsers, create_user-Keeps, reissue_activation-Keeps, reset_user_mfa-Keeps,
}
use ops_composer.Auth.Frame.Recovery.{
  break_glass_reset_mfa-Keeps, break_glass_reset_password-Keeps, logout-Keeps,
}
use ops_composer.Auth.Frame.Changes.{update_user-Keeps, activate-Keeps}
use ops_composer.Auth.Admin.{new_user}
use ops_composer.Auth.Steps.{
  Step, created, reissued, updated, mfa_reset, mfa_recovered, password_recovered, logged_out,
  activated, Reach, here, next,
}

-- The rows of a user whose version is past `version`, of which there is one.
abbrev pub IsPast : ℕ → ℕ → List UserIdentity → Type 0
IsPast user_id version us =
    All (λ u. has_user_id user_id u ≡ true → version < u.version) us
    × (exists_where (has_user_id user_id) us ≡ true)

-- The primary key.
abbrev pub IsKeyed : List UserIdentity → Type 0
IsKeyed [] = Unit
IsKeyed (u ∷ us) = (exists_where (has_user_id u.user_id) us ≡ false) × IsKeyed us

-- Updates that count the version up.
pub update-IsPast :
    (user_id version : ℕ) (p : UserIdentity → Bool) (f : UserIdentity → UserIdentity)
    → ((u : UserIdentity) → (f u).user_id ≡ u.user_id)
    → ((u : UserIdentity) → (f u).version ≡ suc u.version)
    → (us : List UserIdentity) → IsPast user_id version us
    → IsPast user_id version (update_where p f us)
update-IsPast user_id version p f same up us h = (
  All-update_where (λ u. has_user_id user_id u ≡ true → version < u.version)
      (λ u. has_user_id user_id u ≡ true → version < u.version) p f us
      (λ u k. elim (Bool-cases (p u)) [
        | inl e ↦
            rw (e, same u, up u)
              (λ t. let older : version < u.version = k t in omega (arith, older))
        | inr e ↦ rw e k
      ])
      h.0,
  exists_where-update_where_same (has_user_id user_id) p f (λ u. ap (λ n. n == user_id) (same u)) us
      ∙ h.1,
)

pub grow-IsPast :
    (user_id version : ℕ) (lower : String → String) (new : UserIdentity) (us : List UserIdentity)
    → exists_where (same_user lower new) us ≡ false
    → IsPast user_id version us
    → IsPast user_id version (us ++ new ∷ [])
grow-IsPast user_id version lower new us fresh h = (
  All-append (λ u. has_user_id user_id u ≡ true → version < u.version) us (new ∷ []) h.0
      (
        λ t.
            let own : new.user_id ≡ user_id = (==_iff new.user_id user_id).0 t in
            let twice : exists_where (same_user lower new) us ≡ true =
              exists_where_mono (has_user_id user_id) (same_user lower new)
                (λ u k.
                  let theirs : u.user_id ≡ new.user_id = (==_iff u.user_id user_id).0 k ∙ sym own in
                  rw ((==_iff u.user_id new.user_id).1 theirs) refl)
                us h.1 in
            absurd (ground (arith, fresh, twice)),
        tt,
      ),
  exists_where-append (has_user_id user_id) us (new ∷ []) ∙ rw h.1 refl,
)

-- In a keyed table, the row at a version is the only row of its user.
keyed_at :
    (user_id version : ℕ) (us : List UserIdentity) (u : UserIdentity)
    → IsKeyed us
    → first_where (is_at user_id version) us ≡ some u
    → All (λ r. has_user_id user_id r ≡ true → is_at user_id version r ≡ true) us
unfolding first_where
keyed_at user_id version [] u k h = tt
keyed_at user_id version (r ∷ us) u k h = elim (Bool-cases (is_at user_id version r)) [
  | inl e ↦
      let own : r.user_id ≡ user_id =
        (==_iff r.user_id user_id).0 (&&_left (r.user_id == user_id) (r.version == version) e) in
      (
        λ _. e,
        All-map (λ x. has_user_id user_id x ≡ false)
            (λ x. has_user_id user_id x ≡ true → is_at user_id version x ≡ true) us
            (λ x no yes. absurd (ground (arith, no, yes)))
            (not_exists_where-All (has_user_id user_id) us
              (subst (λ n. exists_where (has_user_id n) us ≡ false) own k.0)),
      )
  | inr e ↦
      let rest : first_where (is_at user_id version) us ≡ some u = rw e at h in
      (
        λ mine.
            let own : r.user_id ≡ user_id = (==_iff r.user_id user_id).0 mine in
            let none_left : exists_where (has_user_id user_id) us ≡ false =
              subst (λ n. exists_where (has_user_id n) us ≡ false) own k.0 in
            let one_left : exists_where (has_user_id user_id) us ≡ true =
              exists_where_mono (is_at user_id version) (has_user_id user_id)
                (λ x t. &&_left (x.user_id == user_id) (x.version == version) t) us
                (exists_of_first_where (is_at user_id version) us rest) in
            absurd (ground (arith, none_left, one_left)),
        keyed_at user_id version us u k.1 rest,
      )
]

module _ (user_id : ℕ) (role : UserRole) (status : UserStatus) (version now : ℕ) where
  set_user-IsPast :
      (has_factor : Bool) (us : List UserIdentity) (u : UserIdentity)
      → IsKeyed us
      → first_where (is_at user_id version) us ≡ some u
      → IsPast user_id version
          (update_where (is_at user_id version) (set_user role status has_factor now) us)
  set_user-IsPast has_factor us u k h = (
    All-update_where (λ r. has_user_id user_id r ≡ true → is_at user_id version r ≡ true)
        (λ r. has_user_id user_id r ≡ true → version < r.version) (is_at user_id version)
        (set_user role status has_factor now) us
        (λ r only. elim (Bool-cases (is_at user_id version r)) [
          | inl e ↦
              let same : r.version ≡ version =
                (==_iff r.version version).0
                  (&&_right (r.user_id == user_id) (r.version == version) e) in
              rw e (λ t. omega (arith, same))
          | inr e ↦ rw e (λ t. absurd (ground (arith, e, only t)))
        ])
        (keyed_at user_id version us u k h),
    exists_where-update_where_same (has_user_id user_id) (is_at user_id version)
          (set_user role status has_factor now) (λ r. refl) us
        ∙ exists_where_mono (is_at user_id version) (has_user_id user_id)
            (λ x t. &&_left (x.user_id == user_id) (x.version == version) t) us
            (exists_of_first_where (is_at user_id version) us h),
  )

  module _ {A : Type 0} (then_run : UserIdentity → Tx A) where
    -- The statement, and what comes after it.
    abbrev pub write : Option UserIdentity → Tx A
    write o = update_found user_id role status version now o >>= λ changed.
        require changed user_version_conflict >>= then_run

    pub write-IsPast :
        ((u : UserIdentity) → Keeps (OnUsers (IsPast user_id version)) (then_run u))
        → (o : Option UserIdentity) (db : Db) → first_where (is_at user_id version) db.users ≡ o
        → IsKeyed db.users
        → After (OnUsers (IsPast user_id version)) (write o db)
    unfolding update_found
    write-IsPast keeps none db h k = tt
    write-IsPast keeps (some u) db h k =
        let has_factor = exists_where (is_confirmed_of user_id) db.user_mfa_factors in
        let changed : Db = record db {
          users =
              update_where (is_at user_id version) (set_user role status has_factor now) db.users;
        } in
        let statement = update_found user_id role status version now (some u) in
        let rest : Option UserIdentity → Tx A = λ x. require x user_version_conflict >>= then_run in
        elim (Bool-cases
          (is_active status && not (exists_where (has_password user_id) db.user_credentials))) [
            | inl t ↦
                let refused : statement db ≡ err database_error = rw t refl in
                subst (After (OnUsers (IsPast user_id version)))
                  (sym (>>=-err statement rest db refused)) tt
            | inr t ↦
                let returned : statement db
                    ≡ ok (some (set_user role status has_factor now u), changed) =
                  rw t refl in
                subst (After (OnUsers (IsPast user_id version)))
                  (sym (>>=-ok statement rest db returned))
                  (keeps (set_user role status has_factor now u) changed
                    (set_user-IsPast has_factor db.users u k h))
          ]

    -- A version that is past is not found.
    pub write-refused :
        (o : Option UserIdentity) (db : Db)
        → first_where (is_at user_id version) db.users ≡ o
        → IsPast user_id version db.users
        → After (λ _. true ≡ false) (write o db)
    unfolding update_found
    write-refused none db h past = tt
    write-refused (some u) db h past =
        let at : is_at user_id version u ≡ true =
          first_where_holds (is_at user_id version) db.users h in
        let mine : has_user_id user_id u ≡ true =
          &&_left (u.user_id == user_id) (u.version == version) at in
        let same : u.version ≡ version =
          (==_iff u.version version).0
            (&&_right (u.user_id == user_id) (u.version == version) at) in
        let later : version < u.version =
          All-first_where (λ r. has_user_id user_id r ≡ true → version < r.version)
            (is_at user_id version) db.users h past.0 mine in
        absurd (omega (arith, same, later))

IsPast-Step :
    (user_id version : ℕ) {db db' : Db}
    → Step db db'
    → IsPast user_id version db.users
    → IsPast user_id version db'.users
IsPast-Step id v
      (created settings canonical lower drawn user_id actor username role now {u} {db} {db'} e) h =
    After-ok (OnUsers (IsPast id v)) _
      (create_user-Keeps (IsPast id v) settings canonical lower drawn user_id actor username role
        now (grow-IsPast id v lower (new_user user_id (canonical username) role now)) db h)
      e
IsPast-Step id v (reissued settings drawn actor user_id now {u} {db} {db'} e) h =
    After-ok (OnUsers (IsPast id v)) _
      (reissue_activation-Keeps (IsPast id v) settings drawn actor user_id now db h) e
IsPast-Step id v (updated actor user_id role status version now {u} {db} {db'} e) h =
    After-ok (OnUsers (IsPast id v)) _
      (update_user-Keeps (IsPast id v) actor user_id role status version now
        (λ f us.
          update-IsPast id v (is_at user_id version) (set_user role status f now) (λ r. refl)
            (λ r. refl) us)
        db h)
      e
IsPast-Step id v (mfa_reset actor user_id now {u} {db} {db'} e) h =
    After-ok (OnUsers (IsPast id v)) _
      (reset_user_mfa-Keeps (IsPast id v) actor user_id now
        (update-IsPast id v (has_user_id user_id) (set_enrollment now) (λ r. refl) (λ r. refl)) db
        h)
      e
IsPast-Step id v (mfa_recovered canonical lower phrase username confirmation now {u} {db} {db'} e)
      h =
    After-ok (OnUsers (IsPast id v)) _
      (break_glass_reset_mfa-Keeps (IsPast id v) canonical lower phrase username confirmation now
        (λ user_id.
          update-IsPast id v (has_user_id user_id) (set_enrollment now) (λ r. refl) (λ r. refl))
        db h)
      e
IsPast-Step id v
      (password_recovered canonical lower phrase hash_password username confirmation new_password
        now {u} {db} {db'} e)
      h =
    After-ok (OnUsers (IsPast id v)) _
      (break_glass_reset_password-Keeps (IsPast id v) canonical lower phrase hash_password username
        confirmation new_password now
        (λ user_id.
          update-IsPast id v (has_user_id user_id) (set_touched now) (λ r. refl) (λ r. refl))
        db h)
      e
IsPast-Step id v (logged_out principal {u} {db} {db'} e) h =
    After-ok (OnUsers (IsPast id v)) _ (logout-Keeps (IsPast id v) principal db h) e
IsPast-Step id v (activated settings hash_password drawn sealed code password now {u} {db} {db'} e)
      h =
    After-ok (OnUsers (IsPast id v)) _
      (activate-Keeps (IsPast id v) settings hash_password drawn sealed code password now
        (λ user_id enroll us.
          update-IsPast id v (awaits_activation user_id) (set_activated enroll now) (λ r. refl)
            (λ r. refl) us)
        db h)
      e

pub Reach-IsPast :
    (user_id version : ℕ) {db db' : Db}
    → Reach db db'
    → IsPast user_id version db.users
    → IsPast user_id version db'.users
Reach-IsPast user_id version here h = h
Reach-IsPast user_id version (next before step) h =
    IsPast-Step user_id version step (Reach-IsPast user_id version before h)
