-- ===== src/Domain/Ops.antt =====
-- backend/src/ops_composer/domain/ops.py: runs, their targets and events, and worker leases.
-- A UUID is the number that its 128 bits spell; a timestamp counts microseconds.
use ops_composer.Prelude.{ℕ, ℤ, String, Bool, true, false, Option}
use ops_composer.Domain.Json.{Json}

pub data RunKind : Type 0 where
  ping command playbook : RunKind

pub data RunStatus : Type 0 where
  queued preparing running succeeded partial failed canceled timed_out interrupted rejected :
      RunStatus

-- `TERMINAL_RUN_STATUSES`
abbrev pub is_terminal : RunStatus → Bool
is_terminal queued = false
is_terminal preparing = false
is_terminal running = false
is_terminal _ = true

-- `RunStatus.value`
abbrev pub status_value : RunStatus → String
status_value queued = "QUEUED"
status_value preparing = "PREPARING"
status_value running = "RUNNING"
status_value succeeded = "SUCCEEDED"
status_value partial = "PARTIAL"
status_value failed = "FAILED"
status_value canceled = "CANCELED"
status_value timed_out = "TIMED_OUT"
status_value interrupted = "INTERRUPTED"
status_value rejected = "REJECTED"

pub data RequestFingerprintScheme : Type 0 where
  legacy_sha256 hmac_sha256_v1 : RequestFingerprintScheme

pub data RunTargetStatus : Type 0 where
  pending running succeeded failed canceled skipped unreachable interrupted : RunTargetStatus

pub data TargetKind : Type 0 where
  all hosts group : TargetKind

pub data CommandMode : Type 0 where
  command shell : CommandMode

-- A row of `runs`: the model's fields, and the column `next_event_sequence`.
pub record Run : Type 0 where
  pub run_id : ℕ
  pub source_run_id : Option ℕ
  pub kind : RunKind
  pub status : RunStatus
  pub target_spec : Json
  pub resolved_targets : Json
  pub operation_spec : Json
  pub inventory_snapshot : Json
  pub workspace_revision : Option String
  pub playbook_id : Option ℕ
  pub playbook_revision : Option ℕ
  pub credential_versions : Json
  pub timeout_seconds : ℕ
  pub forks : ℕ
  pub cancel_requested_at : Option ℕ
  pub claimed_by : Option String
  pub claimed_at : Option ℕ
  pub started_at : Option ℕ
  pub finished_at : Option ℕ
  pub return_code : Option ℤ
  pub summary : Json
  pub failure_code : Option String
  pub failure_message : Option String
  pub requested_by : ℕ
  pub idempotency_key : String
  pub request_fingerprint : String
  pub request_fingerprint_scheme : RequestFingerprintScheme
  pub created_at : ℕ
  pub updated_at : ℕ
  pub next_event_sequence : ℕ

pub record RunTarget : Type 0 where
  pub run_target_id : ℕ
  pub run_id : ℕ
  pub host_id : ℕ
  pub host_name : String
  pub host_address : String
  pub status : RunTargetStatus
  pub return_code : Option ℤ
  pub stdout : String
  pub stderr : String
  pub result : Json
  pub output_truncated : Bool
  pub changed_count : ℕ
  pub failed_count : ℕ
  pub unreachable_count : ℕ
  pub started_at : Option ℕ
  pub finished_at : Option ℕ

pub record RunEvent : Type 0 where
  pub run_event_id : ℕ
  pub run_id : ℕ
  pub run_target_id : Option ℕ
  pub sequence : ℕ
  pub event_type : String
  pub task : Option String
  pub stdout : Option String
  pub event_data : Json
  pub created_at : ℕ

pub record WorkerLease : Type 0 where
  pub worker_id : String
  pub run_id : Option ℕ
  pub heartbeat_at : ℕ
  pub expires_at : ℕ
