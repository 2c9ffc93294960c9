-- ===== src/Keys/Rotation.antt =====
-- A batch of a rotation (`process_rotation_batch` of backend/src/ops_composer/services/encryption.py)
-- changes how the secrets are encrypted, and not what they are.
use ops_composer.Prelude.{
  ℕ, String, Bool, true, false, not, Option, none, some, List, [], ◌∷◌, ◌≡◌, refl, sym, ap, subst,
  ◌∙◌, inl, inr, ◌==◌, ==_iff, map, length, All, All-map, map-All, All-take, All-order_by,
  All-rows_where, take, order_by, rows_where, exists_where, Bool-cases, Option-cases,
}
use ops_composer.Db.{Db, Result, ok, err, run_tx, After, After-bind}
use ops_composer.Audit
use ops_composer.Domain.Encryption.{KeyRotationJob, EncryptedRecordKind, EncryptedRecord}
use ops_composer.Keys.Keyring.{Packages, MasterKeyring}
use ops_composer.Keys.Service.{
  reencrypt, reencrypt_all, rotate, fail_job, after_rotation, after_claim, process_rotation_batch,
  rotation_batch_size,
}
use ops_composer.Keys.Store.{
  Contention, of_credential, of_mfa, of_system, of_run_secret, is_kind, is_left, load, or_else,
  load_rotation_batch, update_kind, update_rotation_batch, update_rotation_job, usage, claim_found,
  set_claimed, candidate, claim_rotation_job, update_each,
}
use ops_composer.Keys.Secrets.{IsLawful, &>-elim}
use ops_composer.Keys.Reencrypt.{reencrypt-rotated}
use ops_composer.Keys.Vault.{
  entries, entry, vault, IsOnly, IsKeyed, AreKeyed, Writes, update_each-entries,
}
use ops_composer.Keys.Tables.{
  Writes-set_credential, Writes-set_mfa, Writes-set_system, Writes-set_run_secret,
}

-- What holds of a table's rows holds of a batch of them.
pub All-batch :
    {R : Type 0} (P : R → Type 0) (contention : Contention) (target limit : ℕ)
    (of : R → EncryptedRecord) (before : R → R → Bool) (rows : List R)
    → All P rows
    → All P (take limit (order_by before (rows_where (is_left contention target of) rows)))
All-batch P contention target limit of before rows h = All-take P limit _ (
    All-order_by P before _ (
      All-rows_where P (is_left contention target of) rows
        (All-map P (λ r. is_left contention target of r ≡ true → P r) rows (λ r p _. p) h)))

pub or_else-elim :
    (C : List EncryptedRecord → Type 0) (xs ys : List EncryptedRecord)
    → C xs
    → C ys
    → C (or_else xs ys)
or_else-elim C [] ys cx cy = cy
or_else-elim C (x ∷ xs) ys cx cy = cx

-- The kind of the first record.
abbrev pub StartsWith : EncryptedRecordKind → List EncryptedRecord → Type 0
StartsWith k [] = Unit
StartsWith k (r ∷ rs) = r.kind ≡ k

update_rotation_batch-After :
    (P : Db → Type 0) (k : EncryptedRecordKind) (news : List EncryptedRecord) (target now : ℕ)
    (db : Db)
    → StartsWith k news
    → P db
    → P (update_kind k news target now db)
    → After P (update_rotation_batch news target now db)
unfolding update_rotation_batch
update_rotation_batch-After P k [] target now db start p q = p
update_rotation_batch-After P k (r ∷ rs) target now db start p q =
    elim (Bool-cases (exists_where (λ s. not (is_kind s.kind r.kind)) (r ∷ rs))) [
      | inl mixed ↦ rw mixed tt
      | inr alike ↦ rw alike (subst (λ j. P (update_kind j (r ∷ rs) target now db)) (sym start) q)
    ]

module _ (packages : Packages) (keyring : MasterKeyring) (nonces : EncryptedRecord → List ℕ) where
  reencrypt_all-StartsWith :
      {R : Type 0} (of : R → EncryptedRecord) (k : EncryptedRecordKind)
      → ((r : R) → (of r).kind ≡ k)
      → (target : ℕ) (batch : List R) (news : List EncryptedRecord)
      → reencrypt_all packages keyring nonces target (map of batch) ≡ some news
      → StartsWith k news
  unfolding reencrypt_all
  reencrypt_all-StartsWith of k kinds target [] news h =
      let none_left : [] ≡ news = cc in subst (StartsWith k) none_left tt
  reencrypt_all-StartsWith of k kinds target (s ∷ batch) news h =
      &>-elim (reencrypt packages keyring (nonces (of s)) target (of s)) _ h λ new e h1.
        &>-elim (reencrypt_all packages keyring nonces target (map of batch)) _ h1 λ others e' h2.
          let whole : new ∷ others ≡ news = cc in
          let row = reencrypt-rotated packages keyring (nonces (of s)) target (of s) new e in
          let same = ap (λ (x : EncryptedRecord). x.kind) row in
          subst (StartsWith k) whole (same ∙ kinds s)

module _ (packages : Packages) (keyring : MasterKeyring) (lawful : IsLawful packages)
    (nonces : EncryptedRecord → List ℕ)
    (drawn : (r : EncryptedRecord) → length (nonces r) ≡ 12) where
  -- A table's batch leaves the entries of the table.
  module _ {R : Type 0} (of : R → EncryptedRecord) (is_row : EncryptedRecord → R → Bool)
      (set : EncryptedRecord → R → R) (writes : Writes of is_row set keyring.primary_version) where
    load-entries :
        (contention : Contention) (limit : ℕ) (before : R → R → Bool) (rows : List R)
        (news : List EncryptedRecord)
        → IsKeyed (entries packages keyring of rows)
        → reencrypt_all packages keyring nonces keyring.primary_version
            (load contention keyring.primary_version limit of before rows)
          ≡ some news
        → entries packages keyring of (update_each is_row set news rows)
          ≡ entries packages keyring of rows
    unfolding load
    load-entries contention limit before rows news keyed h =
        update_each-entries packages keyring lawful nonces drawn of is_row set writes _ news rows h
          (All-batch
            (λ s. All (IsOnly (entry packages keyring (of s))) (entries packages keyring of rows))
            contention keyring.primary_version limit of before rows
            (map-All (λ e. All (IsOnly e) (entries packages keyring of rows)) _ rows keyed))

  abbrev pub SameVault : Db → Db → Type 0
  SameVault db mid = vault packages keyring mid ≡ vault packages keyring db

  -- The statement that writes the batch of a table.
  module _ {R : Type 0} (of : R → EncryptedRecord) (is_row : EncryptedRecord → R → Bool)
      (set : EncryptedRecord → R → R) (writes : Writes of is_row set keyring.primary_version)
      (k : EncryptedRecordKind) (kinds : (r : R) → (of r).kind ≡ k) where
    table-vault :
        (contention : Contention) (limit now : ℕ) (before : R → R → Bool) (rows : List R) (db : Db)
        (news : List EncryptedRecord)
        → IsKeyed (entries packages keyring of rows)
        → (entries packages keyring of (update_each is_row set news rows)
              ≡ entries packages keyring of rows
            → SameVault db (update_kind k news keyring.primary_version now db))
        → reencrypt_all packages keyring nonces keyring.primary_version
            (load contention keyring.primary_version limit of before rows)
          ≡ some news
        → After (SameVault db) (update_rotation_batch news keyring.primary_version now db)
    unfolding load
    table-vault contention limit now before rows db news keyed same h =
        update_rotation_batch-After (SameVault db) k news keyring.primary_version now db
          (reencrypt_all-StartsWith packages keyring nonces of k kinds keyring.primary_version _
            news h)
          refl (same (load-entries of is_row set writes contention limit before rows news keyed h))

  module _ (contention : Contention) (limit now : ℕ) (db : Db) (news : List EncryptedRecord)
      (keyed : AreKeyed (vault packages keyring db)) where
    abbrev Rotates : List EncryptedRecord → Type 0
    Rotates batch =
        reencrypt_all packages keyring nonces keyring.primary_version batch ≡ some news
        → After (SameVault db) (update_rotation_batch news keyring.primary_version now db)

    batch-vault : Rotates (load_rotation_batch contention keyring.primary_version limit db)
    unfolding load_rotation_batch update_kind
    batch-vault =
        or_else-elim Rotates _ _
          (table-vault of_credential _ _ (Writes-set_credential keyring.primary_version now)
            EncryptedRecordKind.credential (λ r. refl) contention limit now _
            db.credential_secret_envelopes db news keyed.credentials (λ e. cc e))
          (or_else-elim Rotates _ _
            (table-vault of_mfa _ _ (Writes-set_mfa keyring.primary_version now)
              EncryptedRecordKind.mfa (λ r. refl) contention limit now _ db.user_mfa_factors db news
              keyed.mfa_factors (λ e. cc e))
            (or_else-elim Rotates _ _
              (table-vault of_system _ _ (Writes-set_system keyring.primary_version now)
                EncryptedRecordKind.system (λ r. refl) contention limit now _
                db.system_secret_envelopes db news keyed.system_secrets (λ e. cc e))
              (table-vault of_run_secret _ _ (Writes-set_run_secret keyring.primary_version now)
                EncryptedRecordKind.run_secret (λ r. refl) contention limit now _
                db.run_secret_inputs db news keyed.run_secrets (λ e. cc e))))

  -- The unit of work of a batch, after its claim.
  rotate-vault :
      (contention : Contention) (worker_id : String) (now : ℕ) (job : KeyRotationJob) (db : Db)
      → AreKeyed (vault packages keyring db)
      → After (SameVault db) (rotate packages keyring nonces contention worker_id now job db)
  unfolding rotate update_rotation_job usage Audit.append
  rotate-vault contention worker_id now job db keyed =
      elim (Bool-cases (job.target_key_version == keyring.primary_version)) [
        | inr other ↦ rw other tt
        | inl same ↦
            let at_primary = (==_iff job.target_key_version keyring.primary_version).0 same in
            elim (Option-cases (
              reencrypt_all packages keyring nonces job.target_key_version
                (load_rotation_batch contention job.target_key_version rotation_batch_size db))) [
                  | inl fails ↦ rw (same, fails) tt
                  | inr (news, e) ↦
                      let e' = rw at_primary at e in
                      rw (same, e)
                        (After-bind (SameVault db) (SameVault db)
                          (update_rotation_batch news job.target_key_version now) _ db
                          (rw at_primary
                            (batch-vault contention rotation_batch_size now db news keyed e'))
                          (λ _ mid kept. kept))
                ]
      ]

  after_rotation-vault :
      (stored : Bool) (worker_id : String) (failed_at : ℕ) (job : KeyRotationJob) (db : Db)
      (r : Result (Bool × Db))
      → After (SameVault db) r
      → SameVault db (after_rotation stored worker_id failed_at job db r).1
  unfolding after_rotation Audit.record_best_effort Audit.append run_tx fail_job usage
      update_rotation_job
  after_rotation-vault stored worker_id failed_at job db (ok (done, mid)) h = h
  after_rotation-vault true worker_id failed_at job db (err e) h = refl
  after_rotation-vault false worker_id failed_at job db (err e) h = refl

  claimed-vault :
      (contention : Contention) (stored : Bool) (worker_id : String) (now failed_at lease : ℕ)
      (db : Db) (found : Option KeyRotationJob)
      → AreKeyed (vault packages keyring db)
      → SameVault db
          (after_claim packages keyring nonces contention stored worker_id now failed_at db
            (claim_found worker_id now lease found db)).1
  unfolding after_claim claim_found
  claimed-vault contention stored worker_id now failed_at lease db none keyed = refl
  claimed-vault contention stored worker_id now failed_at lease db (some j) keyed =
      let job = set_claimed worker_id now lease j in
      after_rotation-vault stored worker_id failed_at job db _
        (rotate-vault contention worker_id now job _ keyed)

  -- Where AES-GCM and json are lawful, nonces have 12 bytes and the tables their primary keys: whether
  -- a batch rotates records, finds no job or fails, it keeps the key and the plaintext of every
  -- encrypted record of the database.
  pub process_rotation_batch-vault :
      (contention : Contention) (stored : Bool) (worker_id : String) (now failed_at : ℕ) (db : Db)
      → AreKeyed (vault packages keyring db)
      → vault packages keyring
          (process_rotation_batch packages keyring nonces contention stored worker_id now failed_at
            db).1
        ≡ vault packages keyring db
  unfolding process_rotation_batch claim_rotation_job
  process_rotation_batch-vault contention stored worker_id now failed_at db keyed =
      claimed-vault contention stored worker_id now failed_at _ db (candidate contention now db)
        keyed
