-- ===== src/Keys/Failures.antt =====
-- A batch that raises, and a second request: backend/src/ops_composer/services/encryption.py.
use ops_composer.Prelude.{
  ℕ, ◌+◌, String, Bool, true, false, Option, none, some, List, [], ◌∷◌, ◌≡◌, refl, ap, subst, inl,
  inr, is_set, All, update_where, Bool-cases,
}
use ops_composer.Db.{Db, Result, ok, err, run_tx}
use ops_composer.Audit
use ops_composer.Domain.Errors.{Failure}
use ops_composer.Domain.Encryption.{KeyRotationState, KeyRotationJob, EncryptedRecord}
use ops_composer.Keys.Keyring.{Packages, MasterKeyring}
use ops_composer.Keys.Service.{
  fail_job, rotation_failed_event, after_rotation, after_claim, process_rotation_batch,
  rotation_lease,
}
use ops_composer.Keys.Store.{
  Contention, has_job_id, usage, update_rotation_job, set_claimed, claim_found, candidate,
  claim_rotation_job,
}

-- The job of a batch that raised.
abbrev pub IsFailed : KeyRotationJob → Type 0
IsFailed j =
    (j.state ≡ KeyRotationState.failed)
    × (j.claimed_by ≡ none)
    × (is_set j.finished_at ≡ true)
    × (j.error_code ≡ some "key_rotation_failed")

-- What a batch that raised leaves of the database it found.
pub record Failed (contention : Contention) (now : ℕ) (db db' : Db) : Type 0 where
  pub job : KeyRotationJob
  pub claimed : candidate contention now db ≡ some job
  pub marked :
      All (λ j. has_job_id job.key_rotation_job_id j ≡ true → IsFailed j) db'.key_rotation_jobs
  pub credentials : db'.credential_secret_envelopes ≡ db.credential_secret_envelopes
  pub mfa_factors : db'.user_mfa_factors ≡ db.user_mfa_factors
  pub system_secrets : db'.system_secret_envelopes ≡ db.system_secret_envelopes
  pub run_secrets : db'.run_secret_inputs ≡ db.run_secret_inputs

fail_marks :
    (job_id : ℕ) (f : KeyRotationJob → KeyRotationJob) (jobs : List KeyRotationJob)
    → ((j : KeyRotationJob) → IsFailed (f j))
    → All (λ j. has_job_id job_id j ≡ true → IsFailed j) (update_where (has_job_id job_id) f jobs)
unfolding update_where
fail_marks job_id f [] fails = tt
fail_marks job_id f (j ∷ jobs) fails = elim (Bool-cases (has_job_id job_id j)) [
  | inl e ↦ rw e ((λ _. fails j), fail_marks job_id f jobs fails)
  | inr e ↦ rw e ((λ found. absurd (cc (found, e))), fail_marks job_id f jobs fails)
]

module _ (contention : Contention) (worker_id : String) (now failed_at : ℕ) (db : Db)
    (found job : KeyRotationJob) (chosen : candidate contention now db ≡ some found)
    (id : job.key_rotation_job_id ≡ found.key_rotation_job_id) where
  fail_job-Failed :
      (stored : Bool)
      → Failed contention now db (
          Audit.record_best_effort stored
            (rotation_failed_event worker_id)
            (run_tx (fail_job job failed_at) db).1)
  unfolding Audit.record_best_effort Audit.append run_tx fail_job usage update_rotation_job
  fail_job-Failed true = record {
    job = found;
    claimed = chosen;
    marked =
        rw (← id) (
          fail_marks job.key_rotation_job_id _ db.key_rotation_jobs
            (λ j. (refl, refl, refl, refl)));
    credentials = refl;
    mfa_factors = refl;
    system_secrets = refl;
    run_secrets = refl;
  }
  fail_job-Failed false = record {
    job = found;
    claimed = chosen;
    marked =
        rw (← id) (
          fail_marks job.key_rotation_job_id _ db.key_rotation_jobs
            (λ j. (refl, refl, refl, refl)));
    credentials = refl;
    mfa_factors = refl;
    system_secrets = refl;
    run_secrets = refl;
  }

  after_rotation-Failed :
      (stored : Bool) (r : Result (Bool × Db)) {e : Failure} {db' : Db}
      → after_rotation stored worker_id failed_at job db r ≡ (err e, db')
      → Failed contention now db db'
  unfolding after_rotation
  after_rotation-Failed stored (ok (done, mid)) {e} h =
      let same : ok done ≡ err e = ap (λ x. x.0) h in cc
  after_rotation-Failed stored (err x) h =
      subst (Failed contention now db) (ap (λ y. y.1) h) (fail_job-Failed stored)

module _ (packages : Packages) (keyring : MasterKeyring) (nonces : EncryptedRecord → List ℕ)
    (contention : Contention) (stored : Bool) (worker_id : String) (now failed_at : ℕ)
    (db : Db) where
  after_claim-Failed :
      (lease : ℕ) (o : Option KeyRotationJob) {e : Failure} {db' : Db}
      → candidate contention now db ≡ o
      → after_claim packages keyring nonces contention stored worker_id now failed_at db
          (claim_found worker_id now lease o db)
        ≡ (err e, db')
      → Failed contention now db db'
  unfolding after_claim claim_found
  after_claim-Failed lease none {e} chosen h = let same : ok false ≡ err e = ap (λ x. x.0) h in cc
  after_claim-Failed lease (some j) chosen h =
      after_rotation-Failed contention worker_id now failed_at db j
        (set_claimed worker_id now lease j) chosen refl stored _ h

  -- A batch that raises leaves every encrypted record as it was, and its job FAILED, finished and
  -- without a claim, with the code key_rotation_failed.
  pub process_rotation_batch-Failed :
      {e : Failure} {db' : Db}
      → process_rotation_batch packages keyring nonces contention stored worker_id now failed_at db
        ≡ (err e, db')
      → Failed contention now db db'
  unfolding process_rotation_batch claim_rotation_job
  process_rotation_batch-Failed h =
      after_claim-Failed (now + rotation_lease) (candidate contention now db) refl h
