-- ===== src/Keys/Requests.antt =====
-- `request_rotation` of backend/src/ops_composer/services/encryption.py, and the batches that follow.
use ops_composer.Prelude.{
  ℕ, ◌<◌, false, not, ◌&&◌, some, List, [], ◌∷◌, ◌++◌, ◌≡◌, refl, sym, ap, ◌∙◌, subst, inl, inr,
  arith, ==_refl, length, All-map, All-append, exists_where, exists_where-append,
  not_exists_where-All, Bool-cases,
}
use ops_composer.Db.{Db, Result, ok, err}
use ops_composer.Audit
use ops_composer.Auth.{require_permission}
use ops_composer.Auth.Admin.{require_recent_reauthentication, is_recent}
use ops_composer.Domain.Auth.{SessionPrincipal, Permission}
use ops_composer.Domain.Audit.{AuditSource}
use ops_composer.Domain.Encryption.{KeyRotationState, KeyRotationJob, EncryptedRecord}
use ops_composer.Keys.Keyring.{Packages, MasterKeyring, key_of}
use ops_composer.Keys.Service.{new_job, remaining_of, requested_event, request_rotation}
use ops_composer.Keys.Store.{is_active, has_job_id, create_rotation_job, usage, usages}
use ops_composer.Keys.Secrets.{IsLawful}
use ops_composer.Keys.Vault.{vault, AreKeyed}
use ops_composer.Keys.Remaining.{remaining_of-usages}
use ops_composer.Keys.Shrinks.{left_of}
use ops_composer.Keys.Settles.{AreReadable}
use ops_composer.Keys.Jobs.{IsSole}
use ops_composer.Keys.Liveness.{Round, batches, IsJob, IsDone, batches_succeed}

create_rotation_job-ok :
    (job made : KeyRotationJob) (db db' : Db)
    → create_rotation_job job db ≡ ok (made, db')
    → (exists_where (has_job_id job.key_rotation_job_id) db.key_rotation_jobs ≡ false)
      × ((is_active job && exists_where is_active db.key_rotation_jobs) ≡ false)
      × (made ≡ job)
      × (db' ≡ record db { key_rotation_jobs = db.key_rotation_jobs ++ job ∷ [] })
unfolding create_rotation_job
create_rotation_job-ok job made db db' h =
    elim (Bool-cases (exists_where (has_job_id job.key_rotation_job_id) db.key_rotation_jobs)) [
      | inl taken ↦ absurd (let e = rw taken at h in cc)
      | inr fresh ↦
          elim (Bool-cases (is_active job && exists_where is_active db.key_rotation_jobs)) [
            | inl other ↦ absurd (let e = rw (fresh, other) at h in cc)
            | inr sole ↦ let e = rw (fresh, sole) at h in (fresh, sole, cc, cc)
          ]
    ]

-- A request that returns: the job, and the database but for its audit event.
requested :
    (keyring : MasterKeyring) (source : AuditSource) (actor : SessionPrincipal) (job_id now : ℕ)
    (db db' : Db) {made : KeyRotationJob}
    → request_rotation keyring source actor job_id now db ≡ ok (made, db')
    → (mid : Db) × (create_rotation_job
          (new_job job_id keyring.primary_version actor.user_id
            (remaining_of keyring.primary_version (usages db))
            now)
          db
        ≡ ok (made, mid))
      × (db' ≡ record mid { audit_events = mid.audit_events ++ requested_event source actor ∷ [] })
unfolding request_rotation require_permission require_recent_reauthentication usage Audit.append
requested keyring source actor job_id now db db' {made} h =
    elim (Bool-cases (not (actor.permissions Permission.key_rotate))) [
      | inl denied ↦ absurd (let e = rw denied at h in cc)
      | inr allowed ↦ elim (Bool-cases (not (is_recent actor now))) [
        | inl old ↦ absurd (let e = rw (allowed, old) at h in cc)
        | inr recent ↦ go (create_rotation_job job db) refl (rw (allowed, recent) at h)
      ]
    ]
  where
    job : KeyRotationJob
    job =
        new_job job_id keyring.primary_version actor.user_id
          (remaining_of keyring.primary_version (usages db)) now

    go :
        (r : Result (KeyRotationJob × Db))
        → create_rotation_job job db ≡ r
        → elim r as (λ _. Result (KeyRotationJob × Db)) [
          | ok (j, mid) ↦ ok (
            j,
            record mid { audit_events = mid.audit_events ++ requested_event source actor ∷ [] },
          )
          | err e ↦ err e
        ]
          ≡ ok (made, db')
        → (mid : Db) × (create_rotation_job job db ≡ ok (made, mid))
          × (db'
              ≡ record mid { audit_events = mid.audit_events ++ requested_event source actor ∷ [] })
    go (ok (j, mid)) e k = let same : j ≡ made = cc in (mid, e ∙ ap (λ i. ok (i, mid)) same, cc)
    go (err x) e k = cc

-- What a request that returns leaves: its job waits for the primary version, it counts the records
-- under other versions, and no other job is active.
record Requested (keyring : MasterKeyring) (job_id : ℕ) (db db' : Db) (job : KeyRotationJob)
    : Type 0 where
  counted : job.remaining_count ≡ some (left_of keyring.primary_version db)
  waits : IsJob KeyRotationState.pending keyring.primary_version job_id db'
  same_left : left_of keyring.primary_version db' ≡ left_of keyring.primary_version db
  same_vault : (packages : Packages) → vault packages keyring db' ≡ vault packages keyring db

appended-IsSole :
    (target job_id : ℕ) (job : KeyRotationJob) (jobs : List KeyRotationJob)
    → job.key_rotation_job_id ≡ job_id
    → job.state ≡ KeyRotationState.pending
    → job.target_key_version ≡ target
    → exists_where (has_job_id job_id) jobs ≡ false
    → exists_where is_active jobs ≡ false
    → IsSole KeyRotationState.pending target job_id (jobs ++ job ∷ [])
unfolding exists_where
appended-IsSole target job_id job jobs id waits at fresh idle = record {
  there =
      exists_where-append (has_job_id job_id) jobs (job ∷ []) ∙ rw (fresh, id, ==_refl job_id) refl;
  at_state =
      All-append _ jobs (job ∷ [])
        (All-map (λ j. has_job_id job_id j ≡ false) _ jobs
          (λ j other found. absurd (cc (other, found)))
          (not_exists_where-All (has_job_id job_id) jobs fresh))
        ((λ _. (waits, at)), tt);
  only =
      All-append _ jobs (job ∷ [])
        (All-map (λ j. is_active j ≡ false) _ jobs (λ j ended live. absurd (cc (ended, live)))
          (not_exists_where-All is_active jobs idle))
        ((λ _. rw (id, ==_refl job_id) refl), tt);
}

request_rotation-Requested :
    (keyring : MasterKeyring) (source : AuditSource) (actor : SessionPrincipal) (job_id now : ℕ)
    (db db' : Db) {job : KeyRotationJob}
    → request_rotation keyring source actor job_id now db ≡ ok (job, db')
    → Requested keyring job_id db db' job
request_rotation-Requested keyring source actor job_id now db db' {job} h =
    let primary = keyring.primary_version in
    let (mid, made, logged) = requested keyring source actor job_id now db db' h in
    let (fresh, idle, same, stored) = create_rotation_job-ok _ job db mid made in
    let whole =
      logged
      ∙ ap
          (λ (d : Db). record d {
            audit_events = d.audit_events ++ requested_event source actor ∷ [];
          })
          stored in
    record {
      counted = rw same (ap (λ n. some n) (remaining_of-usages primary db));
      waits =
          rw whole
            (appended-IsSole primary job_id _ db.key_rotation_jobs refl refl refl fresh idle);
      same_left = rw whole refl;
      same_vault = λ packages. rw whole refl;
    }

-- Where AES-GCM and json are lawful, nonces have 12 bytes, the keyring has its primary key, the tables
-- have their primary keys, every encrypted record decrypts and nobody else holds a lock: after a
-- request that returns, as many batches as its job counts records, and one more, leave the job
-- succeeded and no record under another version.
pub request_rotation-succeeds :
    (packages : Packages) (keyring : MasterKeyring) (lawful : IsLawful packages)
    (nonces : EncryptedRecord → List ℕ) (drawn : (r : EncryptedRecord) → length (nonces r) ≡ 12)
    {key : List ℕ} (has_primary : key_of keyring keyring.primary_version ≡ some key)
    (source : AuditSource) (actor : SessionPrincipal) (job_id now count : ℕ) (db db' : Db)
    {job : KeyRotationJob} (rounds : List Round)
    → AreKeyed (vault packages keyring db)
    → AreReadable (vault packages keyring db)
    → request_rotation keyring source actor job_id now db ≡ ok (job, db')
    → job.remaining_count ≡ some count
    → count < length rounds
    → IsDone keyring.primary_version job_id (batches packages keyring nonces rounds db')
request_rotation-succeeds packages keyring lawful nonces drawn has_primary source actor job_id now
      count db db' {job} rounds keyed readable h counted enough =
    let r = request_rotation-Requested keyring source actor job_id now db db' h in
    let same = r.same_vault packages in
    let as_counted : some (left_of keyring.primary_version db) ≡ some count =
      sym r.counted ∙ counted in
    let total : left_of keyring.primary_version db ≡ count = cc in
    batches_succeed packages keyring lawful nonces drawn has_primary job_id rounds db'
      (subst AreKeyed (sym same) keyed) (subst AreReadable (sym same) readable) r.waits
      (omega (arith, r.same_left, total, enough))
