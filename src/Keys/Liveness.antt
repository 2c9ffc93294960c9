-- ===== src/Keys/Liveness.antt =====
-- A rotation comes to its end: the batches of backend/src/ops_composer/services/encryption.py that the
-- worker's loop runs one after the other.
use ops_composer.Prelude.{
  ℕ, ◌+◌, ◌<◌, String, Bool, none, some, List, [], ◌∷◌, ◌≡◌, refl, sym, ap, ◌∙◌, subst, ◌⊎◌, inl,
  inr, arith, ◌==◌, length, update_where, Bool-cases,
}
use ops_composer.Db.{Db, Result}
use ops_composer.Domain.Encryption.{KeyRotationState, KeyRotationJob, EncryptedRecord}
use ops_composer.Keys.Keyring.{Packages, MasterKeyring, key_of}
use ops_composer.Keys.Service.{
  rotation_lease, state_after, after_claim, after_rotation, process_rotation_batch,
}
use ops_composer.Keys.Store.{has_job_id, set_claimed, set_progress, claim_found, claim_rotation_job}
use ops_composer.Keys.Secrets.{IsLawful}
use ops_composer.Keys.Vault.{vault, AreKeyed}
use ops_composer.Keys.Rotation.{process_rotation_batch-vault}
use ops_composer.Keys.Shrinks.{left_of, alone}
use ops_composer.Keys.Settles.{AreReadable, finished, rotate_returns}
use ops_composer.Keys.Jobs.{IsSole, update-IsSole, candidate_sole, no_candidate}

-- What a round of the loop has: its worker, and its clocks.
pub record Round : Type 0 where
  pub worker_id : String
  pub now : ℕ
  pub failed_at : ℕ
  pub stored : Bool

module _ (packages : Packages) (keyring : MasterKeyring) (nonces : EncryptedRecord → List ℕ) where
  -- One round, when nobody else holds a lock, and rounds one after the other.
  abbrev pub batch : Round → Db → Result Bool × Db
  unfolding process_rotation_batch
  batch round =
      process_rotation_batch packages keyring nonces alone round.stored round.worker_id round.now
        round.failed_at

  unfoldable pub batches : List Round → Db → Db
  unfolding process_rotation_batch
  batches [] db = db
  batches (round ∷ rounds) db = batches rounds (batch round db).1

-- The job is in a state, and no other job is active.
abbrev pub IsJob : KeyRotationState → ℕ → ℕ → Db → Type 0
IsJob state target job_id db = IsSole state target job_id db.key_rotation_jobs

-- No record is under another version, and the job has succeeded.
abbrev pub IsDone : ℕ → ℕ → Db → Type 0
IsDone target job_id db =
    (left_of target db ≡ 0) × IsJob KeyRotationState.succeeded target job_id db

finished-IsSole :
    (worker_id : String) (now target job_id count remaining : ℕ) (job : KeyRotationJob) (after : Db)
    → job.key_rotation_job_id ≡ job_id
    → IsJob KeyRotationState.running target job_id after
    → IsJob (state_after remaining) target job_id (finished worker_id now job count remaining after)
unfolding update_where
finished-IsSole worker_id now target job_id count remaining job after same h = rw same (
    update-IsSole KeyRotationState.running (state_after remaining) target job_id
      (set_progress (state_after remaining) count remaining now none none) (λ j. (refl, refl, refl))
      after.key_rotation_jobs h)

module _ (packages : Packages) (keyring : MasterKeyring) (lawful : IsLawful packages)
    (nonces : EncryptedRecord → List ℕ) (drawn : (r : EncryptedRecord) → length (nonces r) ≡ 12)
    {key : List ℕ} (has_primary : key_of keyring keyring.primary_version ≡ some key)
    (job_id : ℕ) where
  -- A batch of a waiting job returns, and ends the job or leaves fewer records.
  batch_advances :
      (round : Round) (db : Db)
      → AreReadable (vault packages keyring db)
      → IsJob KeyRotationState.pending keyring.primary_version job_id db
      → (remaining : ℕ) × (left_of keyring.primary_version
            (batch packages keyring nonces round db).1
          ≡ remaining)
        × IsJob
            (state_after remaining)
            keyring.primary_version
            job_id
            (batch packages keyring nonces round db).1
        × ((remaining ≡ 0) ⊎ (remaining < left_of keyring.primary_version db))
  unfolding process_rotation_batch claim_rotation_job claim_found after_claim after_rotation
  batch_advances round db readable waiting =
      let primary = keyring.primary_version in
      let (j, chosen, id, target) = candidate_sole primary job_id round.now db waiting in
      let lease = round.now + rotation_lease in
      let job = set_claimed round.worker_id round.now lease j in
      let mid = record db {
        key_rotation_jobs =
            update_where (has_job_id j.key_rotation_job_id)
              (set_claimed round.worker_id round.now lease) db.key_rotation_jobs;
      } in
      let (after, count, returned, jobs, fewer) =
        rotate_returns packages keyring has_primary nonces round.worker_id round.now job mid target
          readable in
      let final = finished round.worker_id round.now job count (left_of primary after) after in
      let result : (batch packages keyring nonces round db).1 ≡ final =
        ap
          (λ c.
            (after_claim packages keyring nonces alone round.stored round.worker_id round.now
              round.failed_at db (claim_found round.worker_id round.now lease c db)).1)
          chosen
        ∙ ap (λ r. (after_rotation round.stored round.worker_id round.failed_at job db r).1)
            returned in
      let running : IsJob KeyRotationState.running primary job_id after =
        subst (IsSole KeyRotationState.running primary job_id) (sym jobs) (
          subst
            (λ i. IsSole KeyRotationState.running primary job_id (
              update_where (has_job_id i) (set_claimed round.worker_id round.now lease)
                db.key_rotation_jobs))
            (sym id)
            (update-IsSole KeyRotationState.pending KeyRotationState.running primary job_id
              (set_claimed round.worker_id round.now lease) (λ i. (refl, refl, refl))
              db.key_rotation_jobs waiting)) in
      (
        left_of primary after,
        ap (left_of primary) result,
        subst (IsJob (state_after (left_of primary after)) primary job_id) (sym result) (
            finished-IsSole round.worker_id round.now primary job_id count (left_of primary after)
              job after id running),
        fewer,
      )

  batch-IsDone :
      (round : Round) (db : Db)
      → IsDone keyring.primary_version job_id db
      → IsDone keyring.primary_version job_id (batch packages keyring nonces round db).1
  unfolding process_rotation_batch claim_rotation_job claim_found after_claim
  batch-IsDone round db h =
      let lease = round.now + rotation_lease in
      let idle =
        ap
          (λ c.
            (after_claim packages keyring nonces alone round.stored round.worker_id round.now
              round.failed_at db (claim_found round.worker_id round.now lease c db)).1)
          (no_candidate keyring.primary_version job_id round.now db h.1) in
      subst (IsDone keyring.primary_version job_id) (sym idle) h

  batches-IsDone :
      (rounds : List Round) (db : Db)
      → IsDone keyring.primary_version job_id db
      → IsDone keyring.primary_version job_id (batches packages keyring nonces rounds db)
  unfolding batches
  batches-IsDone [] db h = h
  batches-IsDone (round ∷ rounds) db h = batches-IsDone rounds _ (batch-IsDone round db h)

  -- Where AES-GCM and json are lawful, nonces have 12 bytes, the keyring has its primary key, the
  -- tables have their primary keys, every encrypted record decrypts and nobody else holds a lock: a
  -- pending job for the primary version, the only active one, has succeeded after as many batches as
  -- there are records under other versions and one more, and no record is under another version then.
  pub batches_succeed :
      (rounds : List Round) (db : Db)
      → AreKeyed (vault packages keyring db)
      → AreReadable (vault packages keyring db)
      → IsJob KeyRotationState.pending keyring.primary_version job_id db
      → left_of keyring.primary_version db < length rounds
      → IsDone keyring.primary_version job_id (batches packages keyring nonces rounds db)
  unfolding batches
  batches_succeed [] db keyed readable waiting enough = absurd (omega (arith, enough))
  batches_succeed (round ∷ rounds) db keyed readable waiting enough =
      let primary = keyring.primary_version in
      let mid = (batch packages keyring nonces round db).1 in
      let same =
        process_rotation_batch-vault packages keyring lawful nonces drawn alone round.stored
          round.worker_id round.now round.failed_at db keyed in
      let (remaining, counted, job, fewer) = batch_advances round db readable waiting in
      elim (Bool-cases (remaining == 0)) [
        | inl none_left ↦ batches-IsDone rounds mid (
          ground (arith, counted, none_left),
          subst (λ s. IsJob s primary job_id mid) (rw none_left refl) job,
        )
        | inr some_left ↦
            batches_succeed rounds mid (subst AreKeyed (sym same) keyed)
              (subst AreReadable (sym same) readable)
              (subst (λ s. IsJob s primary job_id mid) (rw some_left refl) job)
              (ground (arith, counted, some_left, fewer, enough))
      ]
