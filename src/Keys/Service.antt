-- ===== src/Keys/Service.antt =====
-- `EncryptionService` of backend/src/ops_composer/services/encryption.py: the registered keys and
-- the pepper, the request of a rotation, and its batches. What is drawn is an argument: a nonce for
-- each record, and the pepper.
use ops_composer.Prelude.{
  ℕ, ◌+◌, String, Bool, true, false, not, Option, none, some, List, [], ◌∷◌, ◌++◌, ◌&&◌, ◌==◌, ltb,
  if◌then◌else◌, exists_where, first_where, length,
}
use ops_composer.Db.{Db, Tx, Result, ok, err, return, raise_if, require, run_tx, ◌>>=◌, ◌>>◌}
use ops_composer.Domain.Auth.{Permission, SessionPrincipal}
use ops_composer.Domain.Audit.{AuditAction, AuditOutcome, AuditSource, AuditEvent}
use ops_composer.Domain.Errors.{key_version_missing, value_error, runtime_error}
use ops_composer.Domain.Encryption.{
  KeyRotationState, EncryptionKeyRecord, SystemSecretEnvelope, EncryptionUsage, total_count,
  KeyRotationJob, EncryptedRecordKind, RecordId, uuid, named, EncryptedRecord,
}
use ops_composer.Audit
use ops_composer.Auth.{require_permission}
use ops_composer.Auth.Admin.{require_recent_reauthentication, by_actor}
use ops_composer.Keys.Keyring.{
  Packages, MasterKeyring, ◌&>◌, versions, has_version, encrypt_bytes, decrypt_bytes, encrypt_check,
  validate_check, validate_legacy_check, encrypt_credential, decrypt_credential,
}
use ops_composer.Keys.Store.{
  Contention, list_keys, is_key, add_key, get_system_secret, put_system_secret, usage,
  create_rotation_job, latest_rotation_job, claim_rotation_job, load_rotation_batch,
  update_rotation_batch, update_rotation_job,
}

abbrev pub rotation_batch_size : ℕ
rotation_batch_size = 100

-- 30 seconds in microseconds.
abbrev pub rotation_lease : ℕ
rotation_lease = 30000000

abbrev pub idempotency_secret_name : String
idempotency_secret_name = "run-idempotency-pepper"

-- The settings row of the first releases: its version, if that is an integer, and its envelope, if
-- that is a text.
pub record LegacyCheck : Type 0 where
  pub version : Option ℕ
  pub envelope : Option String

-- What a start draws.
pub record Draws : Type 0 where
  pub check_nonce : ℕ → List ℕ
  pub pepper : List ℕ
  pub pepper_nonce : List ℕ

unfoldable pub check_legacy : Packages → MasterKeyring → LegacyCheck → Tx (Unit {0})
unfolding has_version validate_legacy_check
check_legacy packages keyring legacy = do
  version ← require legacy.version value_error
  encoded ← require legacy.envelope value_error
  raise_if (not (has_version keyring version)) key_version_missing
  envelope ← require (packages.b64decode encoded) value_error
  require (validate_legacy_check packages keyring version envelope) value_error

abbrev no_keys : List EncryptionKeyRecord → Bool
no_keys [] = true
no_keys (r ∷ rs) = false

-- Only a registry without keys reads the settings row.
unfoldable pub check_settings :
    Packages → MasterKeyring → Option LegacyCheck → List EncryptionKeyRecord → Tx (Unit {0})
unfolding check_legacy
check_settings packages keyring legacy (r ∷ rs) = return tt
check_settings packages keyring none [] = return tt
check_settings packages keyring (some legacy) [] = check_legacy packages keyring legacy

abbrev pub registered_event : AuditEvent
registered_event =
    Audit.system_event AuditAction.master_key_registered AuditOutcome.succeeded AuditSource.system

-- The body of the loop over the versions: the events that it emits.
unfoldable pub register :
    Packages → MasterKeyring → Draws → ℕ → ℕ → Option EncryptionKeyRecord → Tx (List AuditEvent)
unfolding encrypt_check validate_check add_key
register packages keyring draws now version none = do
  envelope ←
      require (encrypt_check packages keyring (draws.check_nonce version) version) value_error
  add_key (record {
    key_version = version;
    verification_envelope = envelope;
    registered_at = now;
    retired_at = none;
  })
  return (registered_event ∷ [])
register packages keyring draws now version (some current) = do
  require (validate_check packages keyring version current.verification_envelope) value_error
  return []

unfoldable pub register_all :
    Packages → MasterKeyring → Draws → ℕ → List EncryptionKeyRecord → List ℕ → Tx (List AuditEvent)
unfolding register first_where
register_all packages keyring draws now registered [] = return []
register_all packages keyring draws now registered (version ∷ rest) = do
  emitted ← register packages keyring draws now version (first_where (is_key version) registered)
  others ← register_all packages keyring draws now registered rest
  return (emitted ++ others)

-- A version in use that the keyring lacks.
unfoldable pub is_missing : MasterKeyring → EncryptionUsage → Bool
unfolding has_version
is_missing keyring item = ltb 0 (total_count item) && not (has_version keyring item.key_version)

unfoldable pub ensure_pepper :
    Packages → MasterKeyring → Draws → ℕ → Option SystemSecretEnvelope → Tx (Unit {0})
unfolding encrypt_bytes put_system_secret
ensure_pepper packages keyring draws now (some envelope) = return tt
ensure_pepper packages keyring draws now none = do
  sealed ←
      require
        (encrypt_bytes packages keyring draws.pepper_nonce "system-secret" idempotency_secret_name
          draws.pepper none)
        value_error
  put_system_secret (record {
    secret_name = idempotency_secret_name;
    encrypted_secret = sealed.0;
    encryption_key_version = sealed.1;
    updated_at = now;
  })

unfoldable pub append_all : List AuditEvent → Tx (Unit {0})
unfolding Audit.append
append_all [] = return tt
append_all (event ∷ events) = do Audit.append event; append_all events

unfoldable pub ensure_keyring :
    Packages → MasterKeyring → Draws → ℕ → Option LegacyCheck → Tx (Unit {0})
unfolding list_keys check_settings register_all versions usage exists_where is_missing
    get_system_secret ensure_pepper append_all
ensure_keyring packages keyring draws now legacy = do
  registered ← list_keys
  check_settings packages keyring legacy registered
  emitted ← register_all packages keyring draws now registered (versions keyring)
  items ← usage
  raise_if (exists_where (is_missing keyring) items) key_version_missing
  pepper ← get_system_secret idempotency_secret_name
  ensure_pepper packages keyring draws now pepper
  append_all emitted

unfoldable pub idempotency_pepper : Packages → MasterKeyring → Tx (List ℕ)
unfolding get_system_secret decrypt_bytes
idempotency_pepper packages keyring = do
  found ← get_system_secret idempotency_secret_name
  envelope ← require found runtime_error
  require
      (decrypt_bytes packages keyring "system-secret" envelope.secret_name envelope.encrypted_secret
        envelope.encryption_key_version)
      value_error

pub record KeyringStatus : Type 0 where
  pub primary_version : ℕ
  pub configured_versions : List ℕ
  pub usage : List EncryptionUsage
  pub latest_job : Option KeyRotationJob

unfoldable pub status : MasterKeyring → SessionPrincipal → Tx KeyringStatus
unfolding require_permission usage latest_rotation_job versions
status keyring actor = do
  require_permission actor Permission.key_rotate
  items ← usage
  job ← latest_rotation_job
  return (record {
    primary_version = keyring.primary_version;
    configured_versions = versions keyring;
    usage = items;
    latest_job = job;
  })

-- The sum over the versions but one.
unfoldable pub remaining_of : ℕ → List EncryptionUsage → ℕ
remaining_of target [] = 0
remaining_of target (item ∷ items) =
    (if item.key_version == target then 0 else total_count item) + remaining_of target items

abbrev pub new_job : ℕ → ℕ → ℕ → ℕ → ℕ → KeyRotationJob
new_job job_id target requested_by remaining now = record {
  key_rotation_job_id = job_id;
  target_key_version = target;
  state = KeyRotationState.pending;
  requested_by = requested_by;
  claimed_by = none;
  lease_expires_at = none;
  processed_count = 0;
  remaining_count = some remaining;
  error_code = none;
  created_at = now;
  started_at = none;
  finished_at = none;
  updated_at = now;
}

abbrev pub requested_event : AuditSource → SessionPrincipal → AuditEvent
requested_event source actor = record (by_actor AuditAction.master_key_rotation_requested actor) {
  source = source;
}

unfoldable pub request_rotation :
    MasterKeyring → AuditSource → SessionPrincipal → ℕ → ℕ → Tx KeyRotationJob
unfolding require_permission require_recent_reauthentication usage remaining_of create_rotation_job
    Audit.append
request_rotation keyring source actor job_id now = do
  require_permission actor Permission.key_rotate
  require_recent_reauthentication actor now
  items ← usage
  job ← create_rotation_job (
      new_job job_id keyring.primary_version actor.user_id
        (remaining_of keyring.primary_version items) now)
  Audit.append (requested_event source actor)
  return job

abbrev pub purpose_of : EncryptedRecordKind → String
purpose_of EncryptedRecordKind.credential = "credential"
purpose_of EncryptedRecordKind.mfa = "totp"
purpose_of EncryptedRecordKind.system = "system-secret"
purpose_of EncryptedRecordKind.run_secret = "run-parameters"

-- `record.record_id`, and `UUID(record.record_id)`
abbrev pub id_text : Packages → RecordId → String
id_text packages (uuid n) = packages.uuid_text n
id_text packages (named s) = s

abbrev pub uuid_of : RecordId → Option ℕ
uuid_of (uuid n) = some n
uuid_of (named s) = none

abbrev pub rotated : List ℕ → ℕ → EncryptedRecord → EncryptedRecord
rotated envelope target r = record r {
  encrypted_payload = envelope;
  encryption_key_version = target;
}

unfoldable pub reencrypt_credential :
    Packages → MasterKeyring → List ℕ → ℕ → EncryptedRecord → Option EncryptedRecord
unfolding decrypt_credential encrypt_credential
reencrypt_credential packages keyring nonce target r = r.sub_id &> λ revision.
    uuid_of r.record_id &> λ credential_id.
    decrypt_credential packages keyring credential_id revision r.encrypted_payload
      (some r.encryption_key_version)
    &> λ secret.
        encrypt_credential packages keyring nonce credential_id revision secret &> λ envelope.
        some (rotated envelope target r)

unfoldable pub reencrypt_bytes :
    Packages → MasterKeyring → List ℕ → ℕ → EncryptedRecord → Option EncryptedRecord
unfolding decrypt_bytes encrypt_bytes
reencrypt_bytes packages keyring nonce target r =
    decrypt_bytes packages keyring (purpose_of r.kind) (id_text packages r.record_id)
      r.encrypted_payload r.encryption_key_version
    &> λ plaintext.
        encrypt_bytes packages keyring nonce (purpose_of r.kind) (id_text packages r.record_id)
          plaintext (some target)
        &> λ sealed. some (rotated sealed.0 target r)

-- `_reencrypt`
unfoldable pub reencrypt :
    Packages → MasterKeyring → List ℕ → ℕ → EncryptedRecord → Option EncryptedRecord
unfolding reencrypt_credential reencrypt_bytes
reencrypt packages keyring nonce target r = elim r.kind [
  | EncryptedRecordKind.credential ↦ reencrypt_credential packages keyring nonce target r
  | _ ↦ reencrypt_bytes packages keyring nonce target r
]

unfoldable pub reencrypt_all :
    Packages
    → MasterKeyring
    → (EncryptedRecord → List ℕ)
    → ℕ
    → List EncryptedRecord
    → Option (List EncryptedRecord)
unfolding reencrypt
reencrypt_all packages keyring nonces target [] = some []
reencrypt_all packages keyring nonces target (r ∷ rs) =
    reencrypt packages keyring (nonces r) target r &> λ new.
    reencrypt_all packages keyring nonces target rs &> λ others. some (new ∷ others)

abbrev pub state_after : ℕ → KeyRotationState
state_after remaining =
    if remaining == 0 then KeyRotationState.succeeded else KeyRotationState.pending

abbrev pub batch_event : String → ℕ → AuditEvent
batch_event worker_id remaining =
    Audit.worker_event
      (if remaining == 0
        then AuditAction.master_key_rotation_succeeded
        else AuditAction.master_key_rotation_batch_completed)
      AuditOutcome.succeeded worker_id none

-- The unit of work after its claim.
unfoldable pub rotate :
    Packages
    → MasterKeyring
    → (EncryptedRecord → List ℕ)
    → Contention
    → String
    → ℕ
    → KeyRotationJob
    → Tx Bool
unfolding load_rotation_batch reencrypt_all update_rotation_batch usage remaining_of
    update_rotation_job Audit.append
rotate packages keyring nonces contention worker_id now job = do
  raise_if (not (job.target_key_version == keyring.primary_version)) key_version_missing
  batch ←
      λ db. ok (load_rotation_batch contention job.target_key_version rotation_batch_size db, db)
  records ← require (reencrypt_all packages keyring nonces job.target_key_version batch) value_error
  update_rotation_batch records job.target_key_version now
  items ← usage
  let remaining = remaining_of job.target_key_version items
  update_rotation_job job.key_rotation_job_id (state_after remaining) (length records) remaining now
      none none
  Audit.append (batch_event worker_id remaining)
  return true

-- `except Exception`: a unit of work of its own marks the job.
unfoldable pub fail_job : KeyRotationJob → ℕ → Tx (Unit {0})
unfolding usage remaining_of update_rotation_job
fail_job job now = do
  items ← usage
  update_rotation_job job.key_rotation_job_id KeyRotationState.failed 0
      (remaining_of job.target_key_version items) now none (some "key_rotation_failed")

abbrev pub rotation_failed_event : String → AuditEvent
rotation_failed_event worker_id =
    Audit.worker_event AuditAction.master_key_rotation_failed AuditOutcome.failed worker_id none

-- `failed_at` is the clock in the handler, `stored` whether its audit event is written.
unfoldable pub after_rotation :
    Bool → String → ℕ → KeyRotationJob → Db → Result (Bool × Db) → Result Bool × Db
unfolding run_tx fail_job Audit.record_best_effort
after_rotation stored worker_id failed_at job db (ok (done, db')) = (ok done, db')
after_rotation stored worker_id failed_at job db (err e) = (
  err e,
  Audit.record_best_effort stored (rotation_failed_event worker_id)
      (run_tx (fail_job job failed_at) db).1,
)

unfoldable pub after_claim :
    Packages
    → MasterKeyring
    → (EncryptedRecord → List ℕ)
    → Contention
    → Bool
    → String
    → ℕ
    → ℕ
    → Db
    → Option KeyRotationJob × Db
    → Result Bool × Db
unfolding rotate after_rotation
after_claim packages keyring nonces contention stored worker_id now failed_at db (none, mid) =
    (ok false, mid)
after_claim packages keyring nonces contention stored worker_id now failed_at db (some job, mid) =
    after_rotation stored worker_id failed_at job db
      (rotate packages keyring nonces contention worker_id now job mid)

unfoldable pub process_rotation_batch :
    Packages
    → MasterKeyring
    → (EncryptedRecord → List ℕ)
    → Contention
    → Bool
    → String
    → ℕ
    → ℕ
    → Db
    → Result Bool × Db
unfolding claim_rotation_job after_claim
process_rotation_batch packages keyring nonces contention stored worker_id now failed_at db =
    after_claim packages keyring nonces contention stored worker_id now failed_at db
      (claim_rotation_job contention worker_id now (now + rotation_lease) db)
