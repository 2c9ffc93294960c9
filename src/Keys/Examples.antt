-- ===== src/Keys/Examples.antt =====
-- The theorems on keys at a toy cipher, whose tag repeats the first byte of the key, and at a database
-- with one secret of each table.
use ops_composer.Prelude.{
  ℕ, String, true, false, Option, none, some, List, [], ◌∷◌, ◌++◌, ◌≡◌, refl, ap, arith, ◌==◌,
  ==_refl, &&_right, inl, inr, Bool-cases, length, take, drop, if◌then◌else◌, length-append,
  take-append, drop-append, length-take-drop,
}
use ops_composer.Prelude.{rows_where, exists_where, first_where, order_by, update_where}
use ops_composer.Db.{Db, ok, err}
use ops_composer.Audit
use ops_composer.Samples.{empty_db}
use ops_composer.Auth.{require_permission}
use ops_composer.Auth.Admin.{require_recent_reauthentication}
use ops_composer.Domain.Auth.{UserRole, SessionPrincipal, MfaFactor}
use ops_composer.Domain.Audit.{AuditSource}
use ops_composer.Domain.Errors.{key_version_missing}
use ops_composer.Domain.Encryption.{EncryptedRecord, CredentialSecretEnvelope}
use ops_composer.Keys.Keyring.{
  Packages, MasterKeyring, raw, decode_key, decode_keys, master_keyring, same_bytes, key_of, aad,
  has_version, versions, encrypt_bytes, decrypt_bytes, encrypt_with_aad, decrypt_with_aad,
  decrypt_credential, encrypt_check,
}
use ops_composer.Keys.Store.{
  list_keys, add_key, get_system_secret, put_system_secret, usage, usages, usage_of, union,
  count_of, used_versions, create_rotation_job, candidate, claim_found, claim_rotation_job,
}
use ops_composer.Keys.Service.{
  Draws, check_settings, register, register_all, is_missing, ensure_pepper, append_all,
  ensure_keyring, remaining_of, new_job, requested_event, request_rotation, rotate, after_rotation,
  after_claim, process_rotation_batch,
}
use ops_composer.Keys.Secrets.{IsLawful, secret_of, secret_of_credential, secret_of_bytes}
use ops_composer.Keys.Built.{IsBuilt, master_keyring-IsBuilt}
use ops_composer.Keys.Vault.{vault, AreKeyed}
use ops_composer.Keys.Remaining.{left, remaining_of-usages}
use ops_composer.Keys.Shrinks.{alone}
use ops_composer.Keys.Settles.{AreReadable}
use ops_composer.Keys.Rotation.{process_rotation_batch-vault}
use ops_composer.Keys.Liveness.{Round, batches, IsDone}
use ops_composer.Keys.Requests.{request_rotation-succeeds}
use ops_composer.Keys.Failures.{Failed, process_rotation_batch-Failed}
use ops_composer.Keys.Startup.{IsCovered, HasPepper, ensure_keyring-IsCovered}

abbrev tag : List ℕ → List ℕ
tag [] = 0 ∷ 0 ∷ 0 ∷ 0 ∷ 0 ∷ 0 ∷ 0 ∷ 0 ∷ 0 ∷ 0 ∷ 0 ∷ 0 ∷ 0 ∷ 0 ∷ 0 ∷ 0 ∷ []
tag (k ∷ ks) = k ∷ k ∷ k ∷ k ∷ k ∷ k ∷ k ∷ k ∷ k ∷ k ∷ k ∷ k ∷ k ∷ k ∷ k ∷ k ∷ []

abbrev opens : List ℕ → List ℕ → Option (List ℕ)
opens key sealed = if same_bytes (take 16 sealed) (tag key) then some (drop 16 sealed) else none

abbrev password : String → List (String × String)
password word = ("password", word) ∷ []

abbrev read : List ℕ → Option (List (String × String))
read [] = none
read (b ∷ bs) = some (password "old")

abbrev toy : Packages
toy = record {
  aead_encrypt = λ key nonce plaintext aad. tag key ++ plaintext;
  aead_decrypt = λ key nonce sealed aad. opens key sealed;
  b64decode = λ s. none;
  has_nul = λ s. false;
  uuid_text = λ n. "00000000-0000-0000-0000-000000000001";
  decimal = λ n. "1";
  context = λ purpose subject. [];
  credential_context = λ id revision. [];
  dumps = λ secret. 7 ∷ [];
  loads = read;
  check_text = 1 ∷ 2 ∷ [];
  legacy_context = [];
}

length-tag : (key : List ℕ) → length (tag key) ≡ 16
length-tag [] = refl
length-tag (k ∷ ks) = refl

same_bytes_refl : (xs : List ℕ) → same_bytes xs xs ≡ true
same_bytes_refl [] = refl
same_bytes_refl (x ∷ xs) = rw (==_refl x) (same_bytes_refl xs)

same_bytes-length : (xs ys : List ℕ) → same_bytes xs ys ≡ true → length xs ≡ length ys
same_bytes-length [] [] h = refl
same_bytes-length [] (y ∷ ys) h = cc
same_bytes-length (x ∷ xs) [] h = cc
same_bytes-length (x ∷ xs) (y ∷ ys) h =
    omega (arith, same_bytes-length xs ys (&&_right (x == y) (same_bytes xs ys) h))

reread :
    (text : List ℕ) (secret : List (String × String))
    → read text ≡ some secret
    → read (7 ∷ []) ≡ some secret
reread [] secret h = cc
reread (b ∷ bs) secret h = h

toy-IsLawful : IsLawful toy
toy-IsLawful = record {
  decrypts = λ key nonce plaintext aad.
      rw (take-append 16 (tag key) plaintext (length-tag key), same_bytes_refl (tag key))
        (ap (λ xs. some xs) (drop-append 16 (tag key) plaintext (length-tag key)));
  length-encrypted =
      λ key nonce plaintext aad. omega (arith, length-append (tag key) plaintext, length-tag key);
  length-decrypted = λ key nonce sealed aad plaintext h.
      elim (Bool-cases (same_bytes (take 16 sealed) (tag key))) [
        | inl e ↦
            let opened : some (drop 16 sealed) ≡ some plaintext = rw e at h in
            let same : drop 16 sealed ≡ plaintext = cc in
            rw (← same) (
              omega (
                arith,
                same_bytes-length (take 16 sealed) (tag key) e,
                length-tag key,
                length-take-drop 16 sealed,
              ))
        | inr e ↦ absurd (let closed : none ≡ some plaintext = rw e at h in cc)
      ];
  loads-dumps = λ text secret h. reread text secret h;
  length-dumps = λ secret. omega arith;
}

abbrev nonce : EncryptedRecord → List ℕ
nonce r = 9 ∷ 9 ∷ 9 ∷ 9 ∷ 9 ∷ 9 ∷ 9 ∷ 9 ∷ 9 ∷ 9 ∷ 9 ∷ 9 ∷ []

-- Version 2 is the primary one; the secrets below are under version 1.
abbrev ring : MasterKeyring
ring = record { keys = (1, 5 ∷ []) ∷ (2, 6 ∷ []) ∷ []; primary_version = 2 }

abbrev sealed_1 : List ℕ
sealed_1 = nonce_bytes ++ (tag (5 ∷ []) ++ 7 ∷ [])
  where
    nonce_bytes : List ℕ
    nonce_bytes = 9 ∷ 9 ∷ 9 ∷ 9 ∷ 9 ∷ 9 ∷ 9 ∷ 9 ∷ 9 ∷ 9 ∷ 9 ∷ 9 ∷ []

abbrev old_credential : CredentialSecretEnvelope
old_credential = record {
  credential_id = 3;
  revision = 1;
  encrypted_secret = sealed_1;
  encryption_key_version = 1;
  updated_at = 0;
}

abbrev old_factor : MfaFactor
old_factor = record {
  user_id = 4;
  encrypted_totp_secret = sealed_1;
  encryption_key_version = 1;
  last_accepted_step = none;
  confirmed_at = some 1;
  created_at = 1;
  updated_at = 1;
}

abbrev keys_db : Db
keys_db = record empty_db {
  credential_secret_envelopes = old_credential ∷ [];
  user_mfa_factors = old_factor ∷ [];
}

abbrev owner : SessionPrincipal
owner = record {
  session_id = 1;
  user_id = 4;
  username = "owner";
  role = UserRole.owner;
  permissions = λ p. true;
  mfa_enabled = true;
  mfa_enrollment_required = false;
  mfa_verified_at = some 1;
  reauthenticated_at = some 1;
  elevated_until = some 100;
  csrf_hash = "";
  expires_at = 1000;
}

abbrev waiting_db : Db
waiting_db = record keys_db {
  key_rotation_jobs = new_job 8 2 4 2 10 ∷ [];
  audit_events = requested_event AuditSource.api owner ∷ [];
}

abbrev round : Round
round = record { worker_id = "w"; now = 20; failed_at = 21; stored = true }

-- A request that counts the two secrets.
requested :
    request_rotation ring AuditSource.api owner 8 10 keys_db ≡ ok (new_job 8 2 4 2 10, waiting_db)
unfolding request_rotation require_permission require_recent_reauthentication usage usages usage_of
    union count_of order_by rows_where exists_where remaining_of create_rotation_job Audit.append
requested = refl

keys_db-AreKeyed : AreKeyed (vault toy ring keys_db)
keys_db-AreKeyed = record {
  credentials = (((λ _ _. refl), tt), tt);
  mfa_factors = (((λ _ _. refl), tt), tt);
  system_secrets = tt;
  run_secrets = tt;
}

keys_db-AreReadable : AreReadable (vault toy ring keys_db)
unfolding secret_of secret_of_credential secret_of_bytes decrypt_credential decrypt_bytes
    decrypt_with_aad aad key_of first_where
keys_db-AreReadable = record {
  credentials = (refl, tt);
  mfa_factors = (refl, tt);
  system_secrets = tt;
  run_secrets = tt;
}

has_primary : key_of ring 2 ≡ some (6 ∷ [])
unfolding key_of first_where
has_primary = refl

-- Three rounds for two secrets.
request_rotation-succeeds_example :
    IsDone 2 8 (batches toy ring nonce (round ∷ round ∷ round ∷ []) waiting_db)
request_rotation-succeeds_example =
    request_rotation-succeeds toy ring toy-IsLawful nonce (λ r. refl) has_primary AuditSource.api
      owner 8 10 2 keys_db waiting_db (round ∷ round ∷ round ∷ []) keys_db-AreKeyed
      keys_db-AreReadable requested refl (omega arith)

process_rotation_batch-vault_example :
    vault toy ring (process_rotation_batch toy ring nonce alone true "w" 20 21 waiting_db).1
    ≡ vault toy ring waiting_db
process_rotation_batch-vault_example =
    process_rotation_batch-vault toy ring toy-IsLawful nonce (λ r. refl) alone true "w" 20 21
      waiting_db keys_db-AreKeyed

remaining_of-usages_example : remaining_of 2 (usages keys_db) ≡ left 2 (used_versions keys_db)
remaining_of-usages_example = remaining_of-usages 2 keys_db

-- Version 3 is not in the keyring: the batch raises.
abbrev bad_db : Db
bad_db = record keys_db { key_rotation_jobs = new_job 8 3 4 2 10 ∷ [] }

raises :
    (db' : Db) × (process_rotation_batch toy ring nonce alone true "w" 20 21 bad_db
      ≡ (err key_version_missing, db'))
unfolding process_rotation_batch claim_rotation_job candidate claim_found after_claim rotate
    after_rotation order_by rows_where update_where
raises = (_, refl)

process_rotation_batch-Failed_example : Failed alone 20 bad_db raises.0
process_rotation_batch-Failed_example =
    process_rotation_batch-Failed toy ring nonce alone true "w" 20 21 bad_db raises.1

abbrev draws : Draws
draws = record {
  check_nonce = λ v. 9 ∷ 9 ∷ 9 ∷ 9 ∷ 9 ∷ 9 ∷ 9 ∷ 9 ∷ 9 ∷ 9 ∷ 9 ∷ 9 ∷ [];
  pepper = 1 ∷ [];
  pepper_nonce = 9 ∷ 9 ∷ 9 ∷ 9 ∷ 9 ∷ 9 ∷ 9 ∷ 9 ∷ 9 ∷ 9 ∷ 9 ∷ 9 ∷ [];
}

starts : (db' : Db) × (ensure_keyring toy ring draws 10 none keys_db ≡ ok (tt, db'))
unfolding ensure_keyring list_keys check_settings register_all register encrypt_check encrypt_bytes
    aad encrypt_with_aad key_of add_key versions usage usages usage_of union count_of is_missing
    has_version get_system_secret ensure_pepper put_system_secret append_all Audit.append order_by
    rows_where exists_where first_where update_where
starts = (_, refl)

ensure_keyring-IsCovered_example : IsCovered ring starts.0 × HasPepper starts.0
ensure_keyring-IsCovered_example =
    ensure_keyring-IsCovered toy ring draws 10 none keys_db starts.0 starts.1

abbrev key_bytes : List ℕ
key_bytes = tag [] ++ tag []

builds :
    master_keyring toy ((1, raw key_bytes) ∷ []) 1
    ≡ some (record { keys = (1, key_bytes) ∷ []; primary_version = 1 })
unfolding master_keyring decode_keys decode_key exists_where
builds = refl

master_keyring-IsBuilt_example :
    IsBuilt (record { keys = (1, key_bytes) ∷ []; primary_version = 1 })
master_keyring-IsBuilt_example = master_keyring-IsBuilt toy ((1, raw key_bytes) ∷ []) 1 builds
