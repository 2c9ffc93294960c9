-- ===== src/Domain/Encryption.antt =====
-- backend/src/ops_composer/domain/encryption.py: registered keys, envelopes, key rotation jobs, and the
-- records that a rotation encrypts again.
use ops_composer.Prelude.{ℕ, ◌+◌, String, Option, List}

pub data KeyRotationState : Type 0 where
  pending running succeeded failed : KeyRotationState

pub record EncryptionKeyRecord : Type 0 where
  pub key_version : ℕ
  pub verification_envelope : List ℕ
  pub registered_at : ℕ
  pub retired_at : Option ℕ

pub record SystemSecretEnvelope : Type 0 where
  pub secret_name : String
  pub encrypted_secret : List ℕ
  pub encryption_key_version : ℕ
  pub updated_at : ℕ

-- A row of `credential_secret_envelopes`.
pub record CredentialSecretEnvelope : Type 0 where
  pub credential_id : ℕ
  pub revision : ℕ
  pub encrypted_secret : List ℕ
  pub encryption_key_version : ℕ
  pub updated_at : ℕ

pub record EncryptionUsage : Type 0 where
  pub key_version : ℕ
  pub credential_count : ℕ
  pub mfa_count : ℕ
  pub system_count : ℕ
  pub run_secret_count : ℕ

abbrev pub total_count : EncryptionUsage → ℕ
total_count u = u.credential_count + u.mfa_count + u.system_count + u.run_secret_count

pub record KeyRotationJob : Type 0 where
  pub key_rotation_job_id : ℕ
  pub target_key_version : ℕ
  pub state : KeyRotationState
  pub requested_by : ℕ
  pub claimed_by : Option String
  pub lease_expires_at : Option ℕ
  pub processed_count : ℕ
  pub remaining_count : Option ℕ
  pub error_code : Option String
  pub created_at : ℕ
  pub started_at : Option ℕ
  pub finished_at : Option ℕ
  pub updated_at : ℕ

pub data EncryptedRecordKind : Type 0 where
  credential mfa system run_secret : EncryptedRecordKind

-- The text of a record's id: that of a UUID, or a secret's name.
pub data RecordId : Type 0 where
  uuid : ℕ → RecordId
  named : String → RecordId

pub record EncryptedRecord : Type 0 where
  pub kind : EncryptedRecordKind
  pub record_id : RecordId
  pub sub_id : Option ℕ
  pub encrypted_payload : List ℕ
  pub encryption_key_version : ℕ
