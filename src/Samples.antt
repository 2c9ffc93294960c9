-- ===== src/Samples.antt =====
-- Small databases for the examples: one queued run over two hosts, and the same run once claimed.
use ops_composer.Prelude.{ℕ, String, Bool, false, Option, none, some, List, [], ◌∷◌}
use ops_composer.Db.{Db, HostLock}
use ops_composer.Domain.Json.{Json}
use ops_composer.Domain.Ops.{
  Run, RunKind, RunStatus, RunTarget, RunTargetStatus, RequestFingerprintScheme,
}

abbrev pub run_with : ℕ → RunStatus → Option String → ℕ → Run
run_with run_id status claimed_by created_at = record {
  run_id = run_id;
  source_run_id = none;
  kind = RunKind.ping;
  status = status;
  target_spec = Json.null;
  resolved_targets = Json.null;
  operation_spec = Json.null;
  inventory_snapshot = Json.null;
  workspace_revision = none;
  playbook_id = none;
  playbook_revision = none;
  credential_versions = Json.null;
  timeout_seconds = 30;
  forks = 1;
  cancel_requested_at = none;
  claimed_by = claimed_by;
  claimed_at = none;
  started_at = none;
  finished_at = none;
  return_code = none;
  summary = Json.null;
  failure_code = none;
  failure_message = none;
  requested_by = 1;
  idempotency_key = "key-0001";
  request_fingerprint = "f";
  request_fingerprint_scheme = RequestFingerprintScheme.legacy_sha256;
  created_at = created_at;
  updated_at = created_at;
  next_event_sequence = 1;
}

abbrev pub queued_run : Run
queued_run = run_with 7 RunStatus.queued none 5

abbrev pub target_on : ℕ → ℕ → RunTargetStatus → RunTarget
target_on run_target_id host_id status = record {
  run_target_id = run_target_id;
  run_id = 7;
  host_id = host_id;
  host_name = "web";
  host_address = "10.0.0.1";
  status = status;
  return_code = none;
  stdout = "";
  stderr = "";
  result = Json.null;
  output_truncated = false;
  changed_count = 0;
  failed_count = 0;
  unreachable_count = 0;
  started_at = none;
  finished_at = none;
}

abbrev pub waiting : List RunTarget
waiting = target_on 70 2 RunTargetStatus.pending ∷ target_on 71 3 RunTargetStatus.pending ∷ []

abbrev pub empty_db : Db
empty_db = record {
  runs = [];
  run_targets = [];
  run_events = [];
  run_secret_inputs = [];
  worker_leases = [];
  host_execution_locks = [];
  web_shell_sessions = [];
  audit_events = [];
  sessions = [];
  users = [];
  user_credentials = [];
  user_activation_tokens = [];
  user_mfa_factors = [];
  user_recovery_codes = [];
  auth_challenges = [];
  auth_rate_limits = [];
  credential_secret_envelopes = [];
  system_secret_envelopes = [];
  encryption_key_registry = [];
  key_rotation_jobs = [];
}

-- A lock of another host, held until 100.
abbrev pub other_lock : HostLock
other_lock = record {
  host_id = 9;
  run_id = none;
  owner_id = "shell";
  acquired_at = 1;
  expires_at = 100;
  web_shell_session_id = some 4;
}

abbrev pub queued_db : Db
queued_db = record empty_db {
  runs = queued_run ∷ [];
  run_targets = waiting;
  host_execution_locks = other_lock ∷ [];
}

abbrev pub nobody : Run → Bool
nobody r = false
