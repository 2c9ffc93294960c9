-- ===== src/Keys/Settles.antt =====
-- The unit of work of a batch when nobody else holds a lock and every record decrypts: it returns, and
-- it leaves fewer records under other versions, or none.
use ops_composer.Prelude.{
  ℕ, ◌<◌, String, Bool, true, Option, none, some, List, [], ◌∷◌, ◌++◌, ◌≡◌, refl, ◌⊎◌, ap, ◌∙◌, inl,
  inr, ==_refl, is_set, map, length, All, map-All, update_where,
}
use ops_composer.Db.{Db, ok, require, >>=-ok}
use ops_composer.Domain.Errors.{Failure, value_error}
use ops_composer.Audit
use ops_composer.Domain.Encryption.{KeyRotationJob, EncryptedRecordKind, EncryptedRecord}
use ops_composer.Keys.Keyring.{Packages, MasterKeyring, key_of}
use ops_composer.Keys.Service.{
  reencrypt, reencrypt_all, rotate, rotation_batch_size, state_after, batch_event,
}
use ops_composer.Keys.Store.{
  of_credential, of_mfa, of_system, of_run_secret, load, load_rotation_batch, update_kind,
  update_rotation_batch, update_rotation_job, has_job_id, set_progress, usage,
}
use ops_composer.Keys.Secrets.{&>-elim, secret_of}
use ops_composer.Keys.Vault.{Entry, entry, entries, Vault, vault}
use ops_composer.Keys.Remaining.{remaining_of-usages}
use ops_composer.Keys.Rotation.{All-batch, or_else-elim}
use ops_composer.Keys.Shrinks.{
  left_of, alone, update_rotation_batch-ok, load_rotation_batch_nil, batch-Shrinks,
}
use ops_composer.Keys.Readable.{reencrypt_all-some}

abbrev pub AllReadable : List Entry → Type 0
AllReadable es = All (λ e. is_set e.secret ≡ true) es

-- Every encrypted record decrypts.
pub record AreReadable (v : Vault) : Type 0 where
  pub credentials : AllReadable v.credentials
  pub mfa_factors : AllReadable v.mfa_factors
  pub system_secrets : AllReadable v.system_secrets
  pub run_secrets : AllReadable v.run_secrets

update_kind-jobs :
    (k : EncryptedRecordKind) (news : List EncryptedRecord) (target now : ℕ) (db : Db)
    → (update_kind k news target now db).key_rotation_jobs ≡ db.key_rotation_jobs
unfolding update_kind
update_kind-jobs EncryptedRecordKind.credential news target now db = refl
update_kind-jobs EncryptedRecordKind.mfa news target now db = refl
update_kind-jobs EncryptedRecordKind.system news target now db = refl
update_kind-jobs EncryptedRecordKind.run_secret news target now db = refl

All-map_of :
    {A B : Type 0} (P : B → Type 0) (f : A → B) (xs : List A)
    → All (λ a. P (f a)) xs
    → All P (map f xs)
All-map_of P f [] h = tt
All-map_of P f (x ∷ xs) h = (h.0, All-map_of P f xs h.1)

module _ (packages : Packages) (keyring : MasterKeyring) (nonces : EncryptedRecord → List ℕ) where
  abbrev IsReadable : EncryptedRecord → Type 0
  IsReadable r = is_set (secret_of packages keyring r) ≡ true

  load-IsReadable :
      {R : Type 0} (target limit : ℕ) (of : R → EncryptedRecord) (before : R → R → Bool)
      (rows : List R)
      → AllReadable (entries packages keyring of rows)
      → All IsReadable (load alone target limit of before rows)
  unfolding load
  load-IsReadable target limit of before rows h = All-map_of IsReadable of _ (
      All-batch (λ r. IsReadable (of r)) alone target limit of before rows
        (map-All (λ e. is_set e.secret ≡ true) (λ r. entry packages keyring (of r)) rows h))

  batch-IsReadable :
      (target limit : ℕ) (db : Db)
      → AreReadable (vault packages keyring db)
      → All IsReadable (load_rotation_batch alone target limit db)
  unfolding load_rotation_batch
  batch-IsReadable target limit db h =
      or_else-elim (All IsReadable) _ _
        (load-IsReadable target limit of_credential _ db.credential_secret_envelopes h.credentials)
        (or_else-elim (All IsReadable) _ _
          (load-IsReadable target limit of_mfa _ db.user_mfa_factors h.mfa_factors)
          (or_else-elim (All IsReadable) _ _
            (load-IsReadable target limit of_system _ db.system_secret_envelopes h.system_secrets)
            (load-IsReadable target limit of_run_secret _ db.run_secret_inputs h.run_secrets)))

  none_of_none :
      (target : ℕ) (batch : List EncryptedRecord)
      → reencrypt_all packages keyring nonces target batch ≡ some []
      → batch ≡ []
  unfolding reencrypt_all
  none_of_none target [] h = refl
  none_of_none target (r ∷ batch) h =
      &>-elim (reencrypt packages keyring (nonces r) target r) _ h λ new e h1.
        &>-elim (reencrypt_all packages keyring nonces target batch) _ h1 λ others e' h2. cc

  some_of_some :
      (target : ℕ) (batch : List EncryptedRecord) {r : EncryptedRecord} {rs : List EncryptedRecord}
      → reencrypt_all packages keyring nonces target batch ≡ some (r ∷ rs)
      → batch ≡ []
      → ⊥
  unfolding reencrypt_all
  some_of_some target [] h e = cc
  some_of_some target (s ∷ batch) h e = cc

  -- What the statement that writes the batch leaves.
  abbrev Written : ℕ → ℕ → Db → List EncryptedRecord → Type 0
  Written target now mid news =
      (after : Db) × (update_rotation_batch news target now mid ≡ ok (tt, after))
      × (after.key_rotation_jobs ≡ mid.key_rotation_jobs)
      × ((left_of target after ≡ 0) ⊎ (left_of target after < left_of target mid))

  batch-Written :
      (target now : ℕ) (mid : Db) (news : List EncryptedRecord)
      → reencrypt_all packages keyring nonces target
          (load_rotation_batch alone target rotation_batch_size mid)
        ≡ some news
      → Written target now mid news
  unfolding update_rotation_batch
  batch-Written target now mid [] h =
      (mid, refl, refl, inl (load_rotation_batch_nil target 99 mid (none_of_none target _ h)))
  batch-Written target now mid (r ∷ rs) h =
      let (k, alike, fewer) =
        batch-Shrinks packages keyring nonces target now alone rotation_batch_size mid (r ∷ rs) h in
      (
        update_kind k (r ∷ rs) target now mid,
        update_rotation_batch-ok k r rs target now mid alike,
        update_kind-jobs k (r ∷ rs) target now mid,
        elim fewer [ inl empty ↦ absurd (some_of_some target _ h empty) | inr lt ↦ inr lt ],
      )

-- The database after the unit of work.
abbrev pub finished : String → ℕ → KeyRotationJob → ℕ → ℕ → Db → Db
unfolding update_where
finished worker_id now job count remaining after = record after {
  key_rotation_jobs =
      update_where (has_job_id job.key_rotation_job_id)
        (set_progress (state_after remaining) count remaining now none none)
        after.key_rotation_jobs;
  audit_events = after.audit_events ++ batch_event worker_id remaining ∷ [];
}

required :
    {A : Type 0} {o : Option A} {a : A} (e : Failure) (db : Db)
    → o ≡ some a
    → require o e db ≡ ok (a, db)
required e db h = rw h refl

rotate_steps :
    (packages : Packages) (keyring : MasterKeyring) (nonces : EncryptedRecord → List ℕ)
    (worker_id : String) (now : ℕ) (job : KeyRotationJob) (mid after : Db)
    (news : List EncryptedRecord)
    → job.target_key_version ≡ keyring.primary_version
    → reencrypt_all packages keyring nonces keyring.primary_version
        (load_rotation_batch alone keyring.primary_version rotation_batch_size mid)
      ≡ some news
    → update_rotation_batch news keyring.primary_version now mid ≡ ok (tt, after)
    → rotate packages keyring nonces alone worker_id now job mid
      ≡ ok (
        true,
        finished worker_id now job (length news) (left_of keyring.primary_version after) after,
      )
unfolding rotate usage update_rotation_job Audit.append
rotate_steps packages keyring nonces worker_id now job mid after news at_primary e written =
    let primary = keyring.primary_version in
    let batch = load_rotation_batch alone primary rotation_batch_size mid in
    rw (at_primary, ==_refl primary)
      (>>=-ok (require (reencrypt_all packages keyring nonces primary batch) value_error) _ mid
          (required value_error mid e)
        ∙ (>>=-ok (update_rotation_batch news primary now) _ mid written
            ∙ ap (λ n. ok (true, finished worker_id now job (length news) n after))
                (remaining_of-usages primary after)))

module _ (packages : Packages) (keyring : MasterKeyring) {key : List ℕ}
    (has_primary : key_of keyring keyring.primary_version ≡ some key)
    (nonces : EncryptedRecord → List ℕ) where
  pub rotate_returns :
      (worker_id : String) (now : ℕ) (job : KeyRotationJob) (mid : Db)
      → job.target_key_version ≡ keyring.primary_version
      → AreReadable (vault packages keyring mid)
      → (after : Db) × (count : ℕ) × (rotate packages keyring nonces alone worker_id now job mid
          ≡ ok (
            true,
            finished worker_id now job count (left_of keyring.primary_version after) after,
          ))
        × (after.key_rotation_jobs ≡ mid.key_rotation_jobs)
        × ((left_of keyring.primary_version after ≡ 0)
            ⊎ (left_of keyring.primary_version after < left_of keyring.primary_version mid))
  rotate_returns worker_id now job mid at_primary readable =
      let primary = keyring.primary_version in
      let (news, e) =
        reencrypt_all-some packages keyring has_primary nonces _
          (batch-IsReadable packages keyring nonces primary rotation_batch_size mid readable) in
      let (after, written, jobs, fewer) =
        batch-Written packages keyring nonces primary now mid news e in
      (
        after,
        length news,
        rotate_steps packages keyring nonces worker_id now job mid after news at_primary e written,
        jobs,
        fewer,
      )
