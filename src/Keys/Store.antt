-- ===== src/Keys/Store.antt =====
-- backend/src/ops_composer/repositories/encryption.py, statement by statement, and the keys of the
-- tables (db/migrations/keyring.py).
use ops_composer.Prelude.{
  ℕ, ◌+◌, String, Bool, true, false, not, Option, none, some, List, [], ◌∷◌, ◌++◌, map, ◌&&◌, ◌||◌,
  ◌==◌, ltb, leb, text_eq, text_ltb, holds_id, if◌then◌else◌, rows_where, update_where,
  exists_where, first_where, order_by, first, take, length,
}
use ops_composer.Db.{Db, Tx, SecretInputs, ok, err, return, gets, modify, raise_if, ◌>>◌}
use ops_composer.Domain.Auth.{MfaFactor}
use ops_composer.Domain.Errors.{key_rotation_in_progress, value_error}
use ops_composer.Domain.Encryption.{
  KeyRotationState, EncryptionKeyRecord, SystemSecretEnvelope, CredentialSecretEnvelope,
  EncryptionUsage, KeyRotationJob, EncryptedRecordKind, RecordId, uuid, named, EncryptedRecord,
}

unfoldable pub list_keys : Tx (List EncryptionKeyRecord)
unfolding order_by
list_keys =
    gets (λ db. order_by (λ r s. ltb r.key_version s.key_version) db.encryption_key_registry)

abbrev pub is_key : ℕ → EncryptionKeyRecord → Bool
is_key version r = r.key_version == version

-- ON CONFLICT (key_version) DO NOTHING
unfoldable pub add_key : EncryptionKeyRecord → Tx (Unit {0})
unfolding exists_where
add_key new = modify λ db.
    if exists_where (is_key new.key_version) db.encryption_key_registry
    then db
    else record db { encryption_key_registry = db.encryption_key_registry ++ new ∷ [] }

abbrev pub is_secret : String → SystemSecretEnvelope → Bool
is_secret name s = text_eq s.secret_name name

unfoldable pub get_system_secret : String → Tx (Option SystemSecretEnvelope)
unfolding first_where
get_system_secret name = gets (λ db. first_where (is_secret name) db.system_secret_envelopes)

-- DO UPDATE SET
abbrev pub replace_secret : SystemSecretEnvelope → SystemSecretEnvelope → SystemSecretEnvelope
replace_secret new s = record s {
  encrypted_secret = new.encrypted_secret;
  encryption_key_version = new.encryption_key_version;
  updated_at = new.updated_at;
}

-- ON CONFLICT (secret_name)
unfoldable pub put_system_secret : SystemSecretEnvelope → Tx (Unit {0})
unfolding exists_where update_where
put_system_secret new = modify λ db.
    let rows = db.system_secret_envelopes in
    record db {
      system_secret_envelopes =
          if exists_where (is_secret new.secret_name) rows
          then update_where (is_secret new.secret_name) (replace_secret new) rows
          else rows ++ new ∷ [];
    }

-- The columns that a rotation reads.
abbrev pub of_credential : CredentialSecretEnvelope → EncryptedRecord
of_credential c = record {
  kind = EncryptedRecordKind.credential;
  record_id = uuid c.credential_id;
  sub_id = some c.revision;
  encrypted_payload = c.encrypted_secret;
  encryption_key_version = c.encryption_key_version;
}

abbrev pub of_mfa : MfaFactor → EncryptedRecord
of_mfa f = record {
  kind = EncryptedRecordKind.mfa;
  record_id = uuid f.user_id;
  sub_id = none;
  encrypted_payload = f.encrypted_totp_secret;
  encryption_key_version = f.encryption_key_version;
}

abbrev pub of_system : SystemSecretEnvelope → EncryptedRecord
of_system s = record {
  kind = EncryptedRecordKind.system;
  record_id = named s.secret_name;
  sub_id = none;
  encrypted_payload = s.encrypted_secret;
  encryption_key_version = s.encryption_key_version;
}

abbrev pub of_run_secret : SecretInputs → EncryptedRecord
of_run_secret i = record {
  kind = EncryptedRecordKind.run_secret;
  record_id = uuid i.run_id;
  sub_id = none;
  encrypted_payload = i.encrypted_payload;
  encryption_key_version = i.encryption_key_version;
}

abbrev pub version_of : EncryptedRecord → ℕ
version_of r = r.encryption_key_version

-- The versions of a table's rows.
abbrev pub versions_in : {R : Type 0} → (R → EncryptedRecord) → List R → List ℕ
versions_in of rows = map (λ r. version_of (of r)) rows

-- count(*) … WHERE encryption_key_version = …
unfoldable pub count_of : ℕ → List ℕ → ℕ
unfolding rows_where
count_of v versions = length (rows_where (λ w. w == v) versions)

-- UNION keeps a version once.
unfoldable pub union : List ℕ → List ℕ
unfolding exists_where
union [] = []
union (v ∷ vs) = let rest = union vs in if exists_where (λ w. w == v) rest then rest else v ∷ rest

abbrev pub used_versions : Db → List ℕ
used_versions db =
    versions_in of_credential db.credential_secret_envelopes
    ++ (versions_in of_mfa db.user_mfa_factors
        ++ (versions_in of_system db.system_secret_envelopes
            ++ versions_in of_run_secret db.run_secret_inputs))

unfoldable pub usage_of : Db → ℕ → EncryptionUsage
unfolding count_of
usage_of db v = record {
  key_version = v;
  credential_count = count_of v (versions_in of_credential db.credential_secret_envelopes);
  mfa_count = count_of v (versions_in of_mfa db.user_mfa_factors);
  system_count = count_of v (versions_in of_system db.system_secret_envelopes);
  run_secret_count = count_of v (versions_in of_run_secret db.run_secret_inputs);
}

unfoldable pub usages : Db → List EncryptionUsage
unfolding union order_by usage_of
usages db =
    map (usage_of db) (
      order_by ltb
        (union (map (λ r. r.key_version) db.encryption_key_registry ++ used_versions db)))

unfoldable pub usage : Tx (List EncryptionUsage)
unfolding usages
usage = gets usages

-- state IN ('PENDING', 'RUNNING')
abbrev pub active : KeyRotationState → Bool
active KeyRotationState.pending = true
active KeyRotationState.running = true
active KeyRotationState.succeeded = false
active KeyRotationState.failed = false

abbrev pub is_active : KeyRotationJob → Bool
is_active j = active j.state

abbrev pub has_job_id : ℕ → KeyRotationJob → Bool
has_job_id job_id j = j.key_rotation_job_id == job_id

-- PRIMARY KEY (key_rotation_job_id), and UNIQUE for the active jobs: a violation is the conflict.
unfoldable pub create_rotation_job : KeyRotationJob → Tx KeyRotationJob
unfolding exists_where
create_rotation_job job db =
    if exists_where (has_job_id job.key_rotation_job_id) db.key_rotation_jobs
      || (is_active job && exists_where is_active db.key_rotation_jobs)
    then err key_rotation_in_progress
    else ok (job, record db { key_rotation_jobs = db.key_rotation_jobs ++ job ∷ [] })

abbrev pub later : KeyRotationJob → KeyRotationJob → Bool
later i j =
    ltb j.created_at i.created_at
    || (i.created_at == j.created_at && ltb j.key_rotation_job_id i.key_rotation_job_id)

unfoldable pub latest_rotation_job : Tx (Option KeyRotationJob)
unfolding order_by
latest_rotation_job = gets (λ db. first (order_by later db.key_rotation_jobs))

-- Whether others hold the advisory lock, a job's row or the row of a record.
pub record Contention : Type 0 where
  pub gate : Bool
  pub job_locked : KeyRotationJob → Bool
  pub record_locked : EncryptedRecord → Bool

-- A job that waits, or whose lease has ended.
abbrev pub is_due : ℕ → KeyRotationState → Option ℕ → Bool
is_due now KeyRotationState.pending lease = true
is_due now KeyRotationState.running none = false
is_due now KeyRotationState.running (some t) = leb t now
is_due now KeyRotationState.succeeded lease = false
is_due now KeyRotationState.failed lease = false

abbrev pub is_claimable : Contention → ℕ → KeyRotationJob → Bool
is_claimable contention now j =
    not contention.gate && not (contention.job_locked j) && is_due now j.state j.lease_expires_at

abbrev pub set_claimed : String → ℕ → ℕ → KeyRotationJob → KeyRotationJob
set_claimed worker_id now lease_expires_at j = record j {
  state = KeyRotationState.running;
  claimed_by = some worker_id;
  lease_expires_at = some lease_expires_at;
  started_at = elim j.started_at [ none ↦ some now | some t ↦ some t ];
  updated_at = now;
}

-- UPDATE … FROM candidate … RETURNING
unfoldable pub claim_found :
    String → ℕ → ℕ → Option KeyRotationJob → Db → Option KeyRotationJob × Db
unfolding update_where
claim_found worker_id now lease_expires_at none db = (none, db)
claim_found worker_id now lease_expires_at (some j) db = (
  some (set_claimed worker_id now lease_expires_at j),
  record db {
    key_rotation_jobs =
        update_where (has_job_id j.key_rotation_job_id) (set_claimed worker_id now lease_expires_at)
          db.key_rotation_jobs;
  },
)

unfoldable pub candidate : Contention → ℕ → Db → Option KeyRotationJob
unfolding order_by rows_where
candidate contention now db =
    first
      (order_by (λ i j. later j i) (rows_where (is_claimable contention now) db.key_rotation_jobs))

unfoldable pub claim_rotation_job : Contention → String → ℕ → ℕ → Db → Option KeyRotationJob × Db
unfolding claim_found candidate
claim_rotation_job contention worker_id now lease_expires_at db =
    claim_found worker_id now lease_expires_at (candidate contention now db) db

-- WHERE encryption_key_version <> … FOR UPDATE SKIP LOCKED
abbrev pub is_left : {R : Type 0} → Contention → ℕ → (R → EncryptedRecord) → R → Bool
is_left contention target of r =
    not (version_of (of r) == target) && not (contention.record_locked (of r))

-- One of the four SELECTs.
unfoldable pub load :
    {R : Type 0}
    → Contention
    → ℕ
    → ℕ
    → (R → EncryptedRecord)
    → (R → R → Bool)
    → List R
    → List EncryptedRecord
unfolding rows_where order_by
load contention target limit of before rows =
    map of (take limit (order_by before (rows_where (is_left contention target of) rows)))

-- The rows of the first SELECT that has some.
abbrev pub or_else : List EncryptedRecord → List EncryptedRecord → List EncryptedRecord
or_else [] rest = rest
or_else (r ∷ rs) rest = r ∷ rs

abbrev pub credential_before : CredentialSecretEnvelope → CredentialSecretEnvelope → Bool
credential_before c d =
    ltb c.credential_id d.credential_id
    || (c.credential_id == d.credential_id && ltb c.revision d.revision)

abbrev pub mfa_before : MfaFactor → MfaFactor → Bool
mfa_before f g = ltb f.user_id g.user_id

abbrev pub system_before : SystemSecretEnvelope → SystemSecretEnvelope → Bool
system_before s t = text_ltb s.secret_name t.secret_name

abbrev pub run_before : SecretInputs → SecretInputs → Bool
run_before i j = ltb i.run_id j.run_id

unfoldable pub load_rotation_batch : Contention → ℕ → ℕ → Db → List EncryptedRecord
unfolding load
load_rotation_batch contention target limit db =
    or_else
      (load contention target limit of_credential credential_before db.credential_secret_envelopes)
      (or_else (load contention target limit of_mfa mfa_before db.user_mfa_factors) (
        or_else (load contention target limit of_system system_before db.system_secret_envelopes)
          (load contention target limit of_run_secret run_before db.run_secret_inputs)))

abbrev pub is_id : RecordId → RecordId → Bool
is_id (uuid n) (uuid m) = n == m
is_id (uuid n) (named s) = false
is_id (named s) (uuid n) = false
is_id (named s) (named t) = text_eq s t

abbrev pub is_kind : EncryptedRecordKind → EncryptedRecordKind → Bool
is_kind EncryptedRecordKind.credential EncryptedRecordKind.credential = true
is_kind EncryptedRecordKind.mfa EncryptedRecordKind.mfa = true
is_kind EncryptedRecordKind.system EncryptedRecordKind.system = true
is_kind EncryptedRecordKind.run_secret EncryptedRecordKind.run_secret = true
is_kind _ _ = false

-- The WHERE clauses of the four UPDATEs, and what they set.
abbrev pub is_credential : EncryptedRecord → CredentialSecretEnvelope → Bool
is_credential r c = is_id r.record_id (uuid c.credential_id) && holds_id r.sub_id c.revision

abbrev pub set_credential :
    ℕ → ℕ → EncryptedRecord → CredentialSecretEnvelope → CredentialSecretEnvelope
set_credential key_version now r c = record c {
  encrypted_secret = r.encrypted_payload;
  encryption_key_version = key_version;
  updated_at = now;
}

abbrev pub is_mfa : EncryptedRecord → MfaFactor → Bool
is_mfa r f = is_id r.record_id (uuid f.user_id)

abbrev pub set_mfa : ℕ → ℕ → EncryptedRecord → MfaFactor → MfaFactor
set_mfa key_version now r f = record f {
  encrypted_totp_secret = r.encrypted_payload;
  encryption_key_version = key_version;
  updated_at = now;
}

abbrev pub is_system : EncryptedRecord → SystemSecretEnvelope → Bool
is_system r s = is_id r.record_id (named s.secret_name)

abbrev pub set_system : ℕ → ℕ → EncryptedRecord → SystemSecretEnvelope → SystemSecretEnvelope
set_system key_version now r s = record s {
  encrypted_secret = r.encrypted_payload;
  encryption_key_version = key_version;
  updated_at = now;
}

abbrev pub is_run_secret : EncryptedRecord → SecretInputs → Bool
is_run_secret r i = is_id r.record_id (uuid i.run_id)

abbrev pub set_run_secret : ℕ → EncryptedRecord → SecretInputs → SecretInputs
set_run_secret key_version r i = record i {
  encrypted_payload = r.encrypted_payload;
  encryption_key_version = key_version;
}

-- `execute_many`
unfoldable pub update_each :
    {R : Type 0}
    → (EncryptedRecord → R → Bool)
    → (EncryptedRecord → R → R)
    → List EncryptedRecord
    → List R
    → List R
unfolding update_where
update_each is_row set [] rows = rows
update_each is_row set (r ∷ rs) rows =
    update_each is_row set rs (update_where (is_row r) (set r) rows)

unfoldable pub update_kind : EncryptedRecordKind → List EncryptedRecord → ℕ → ℕ → Db → Db
unfolding update_each
update_kind EncryptedRecordKind.credential records key_version now db = record db {
  credential_secret_envelopes =
      update_each is_credential (set_credential key_version now) records
        db.credential_secret_envelopes;
}
update_kind EncryptedRecordKind.mfa records key_version now db = record db {
  user_mfa_factors = update_each is_mfa (set_mfa key_version now) records db.user_mfa_factors;
}
update_kind EncryptedRecordKind.system records key_version now db = record db {
  system_secret_envelopes =
      update_each is_system (set_system key_version now) records db.system_secret_envelopes;
}
update_kind EncryptedRecordKind.run_secret records key_version now db = record db {
  run_secret_inputs =
      update_each is_run_secret (set_run_secret key_version) records db.run_secret_inputs;
}

unfoldable pub update_rotation_batch : List EncryptedRecord → ℕ → ℕ → Tx (Unit {0})
unfolding update_kind exists_where
update_rotation_batch [] key_version now = return tt
update_rotation_batch (r ∷ rs) key_version now = do
  raise_if (exists_where (λ s. not (is_kind s.kind r.kind)) (r ∷ rs)) value_error
  modify (update_kind r.kind (r ∷ rs) key_version now)

abbrev pub set_progress :
    KeyRotationState → ℕ → ℕ → ℕ → Option ℕ → Option String → KeyRotationJob → KeyRotationJob
set_progress state processed remaining now lease_expires_at error_code j = record j {
  state = state;
  processed_count = j.processed_count + processed;
  remaining_count = some remaining;
  lease_expires_at = lease_expires_at;
  claimed_by = elim state [ KeyRotationState.running ↦ j.claimed_by | _ ↦ none ];
  error_code = error_code;
  finished_at = elim state [
    | KeyRotationState.succeeded ↦ some now
    | KeyRotationState.failed ↦ some now
    | _ ↦ none
  ];
  updated_at = now;
}

unfoldable pub update_rotation_job :
    ℕ → KeyRotationState → ℕ → ℕ → ℕ → Option ℕ → Option String → Tx (Unit {0})
unfolding update_where
update_rotation_job job_id state processed remaining now lease_expires_at error_code = modify λ db.
    record db {
      key_rotation_jobs =
          update_where (has_job_id job_id)
            (set_progress state processed remaining now lease_expires_at error_code)
            db.key_rotation_jobs;
    }
