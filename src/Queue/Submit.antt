-- ===== src/Queue/Submit.antt =====
-- `RunService._create` of backend/src/ops_composer/services/runs.py, for requests without a playbook of
-- the database. The reads of assets, the SHA-256 of a request, the JSON documents that describe the
-- hosts and the ids that are drawn are arguments.
use ops_composer.Prelude.{
  ℕ, suc, String, Bool, true, false, not, Option, none, some, List, [], ◌∷◌, ◌&&◌, ◌==◌, leb,
  text_eq, map, length, exists_where, if◌then◌else◌, char_count,
}
use ops_composer.Db.{Db, Tx, Result, ok, err, return, raise, raise_if, run_tx, ◌>>=◌, ◌>>◌}
use ops_composer.Domain.Assets.{Assets, ResolvedHost}
use ops_composer.Domain.Audit.{AuditAction, AuditOutcome, AuditSource, AuditEvent}
use ops_composer.Domain.Errors.{
  Failure, not_found, validation, idempotency_conflict, host_key_confirmation_required,
}
use ops_composer.Domain.Json.{Json, Fields}
use ops_composer.Domain.Ops.{
  Run, RunKind, RunStatus, RunTarget, RunTargetStatus, RunEvent, TargetKind,
  RequestFingerprintScheme,
}
use ops_composer.Audit
use ops_composer.Audit.{user_event, record_best_effort}
use ops_composer.Queue.Store.{get_by_idempotency_key, create_or_get}
use ops_composer.Queue.Events.{append_event}

-- The arguments of `_create`.
pub record RunRequest : Type 0 where
  pub requested_by : ℕ
  pub idempotency_key : String
  pub kind : RunKind
  pub target_spec : Json
  pub operation_spec : Json
  pub timeout_seconds : ℕ
  pub forks : ℕ
  pub target_kind : TargetKind
  pub host_ids : List ℕ
  pub group_id : Option ℕ
  pub workspace_revision : Option String
  pub source_run_id : Option ℕ

-- What `_fingerprint` hashes.
pub record RequestPayload : Type 0 where
  pub kind : RunKind
  pub target : Json
  pub operation : Json
  pub timeout_seconds : ℕ
  pub forks : ℕ
  pub source_run_id : Option ℕ

abbrev pub payload_of : RunRequest → RequestPayload
payload_of request = record {
  kind = request.kind;
  target = request.target_spec;
  operation = request.operation_spec;
  timeout_seconds = request.timeout_seconds;
  forks = request.forks;
  source_run_id = request.source_run_id;
}

-- The documents of a run about its hosts.
pub record Snapshots : Type 0 where
  pub resolved_targets : Json
  pub inventory_snapshot : Json
  pub credential_versions : Json

-- What a call draws, or takes from elsewhere.
pub record Sources : Type 0 where
  pub assets : Assets
  pub fingerprint : RequestPayload → String
  pub describe : List ResolvedHost → Snapshots
  pub host_count : List ResolvedHost → Json
  pub run_id : ℕ
  pub run_target_id : ResolvedHost → ℕ
  pub run_event_id : ℕ

-- `len(set(host_ids))`
unfoldable pub count_distinct : List ℕ → ℕ
unfolding exists_where
count_distinct [] = 0
count_distinct (n ∷ ns) =
    let rest = count_distinct ns in if exists_where (λ m. m == n) ns then rest else suc rest

-- `if not hosts: raise`
abbrev pub some_hosts : List ResolvedHost → Tx (List ResolvedHost)
some_hosts [] = raise validation
some_hosts (h ∷ hs) = return (h ∷ hs)

abbrev pub resolve_group : Assets → Option ℕ → Tx (List ResolvedHost)
resolve_group assets none = raise validation
resolve_group assets (some group_id) = do
  raise_if (not (assets.has_group group_id)) not_found
  some_hosts (assets.resolve_group_hosts group_id)

-- `_resolve`
unfoldable pub resolve_targets : Assets → TargetKind → List ℕ → Option ℕ → Tx (List ResolvedHost)
unfolding count_distinct
resolve_targets assets TargetKind.all host_ids group_id = some_hosts assets.resolve_all_hosts
resolve_targets assets TargetKind.hosts host_ids group_id = do
  raise_if (length host_ids == 0) validation
  raise_if (not (length (assets.resolve_host_ids host_ids) == count_distinct host_ids)) validation
  some_hosts (assets.resolve_host_ids host_ids)
resolve_targets assets TargetKind.group host_ids group_id = resolve_group assets group_id

abbrev pub host_id_of : ResolvedHost → ℕ
host_id_of h = h.host_id

-- `_require_confirmed_host_keys`
unfoldable pub require_confirmed_host_keys : Assets → List ResolvedHost → Tx (Unit {0})
require_confirmed_host_keys assets hosts =
    raise_if (not (length (assets.host_ids_without_keys (map host_id_of hosts)) == 0))
      host_key_confirmation_required

module _ (sources : Sources) (request : RunRequest) (now : ℕ) where
  abbrev pub fingerprint_of : String
  fingerprint_of = sources.fingerprint (payload_of request)

  abbrev pub new_run : List ResolvedHost → Run
  new_run hosts = record {
    run_id = sources.run_id;
    source_run_id = request.source_run_id;
    kind = request.kind;
    status = RunStatus.queued;
    target_spec = request.target_spec;
    resolved_targets = (sources.describe hosts).resolved_targets;
    operation_spec = request.operation_spec;
    inventory_snapshot = (sources.describe hosts).inventory_snapshot;
    workspace_revision = request.workspace_revision;
    playbook_id = none;
    playbook_revision = none;
    credential_versions = (sources.describe hosts).credential_versions;
    timeout_seconds = request.timeout_seconds;
    forks = request.forks;
    cancel_requested_at = none;
    claimed_by = none;
    claimed_at = none;
    started_at = none;
    finished_at = none;
    return_code = none;
    summary = Json.object Fields.empty;
    failure_code = none;
    failure_message = none;
    requested_by = request.requested_by;
    idempotency_key = request.idempotency_key;
    request_fingerprint = fingerprint_of;
    request_fingerprint_scheme = RequestFingerprintScheme.legacy_sha256;
    created_at = now;
    updated_at = now;
    next_event_sequence = 1;
  }

  abbrev pub new_target : ResolvedHost → RunTarget
  new_target host = record {
    run_target_id = sources.run_target_id host;
    run_id = sources.run_id;
    host_id = host.host_id;
    host_name = host.name;
    host_address = host.address;
    status = RunTargetStatus.pending;
    return_code = none;
    stdout = "";
    stderr = "";
    result = Json.object Fields.empty;
    output_truncated = false;
    changed_count = 0;
    failed_count = 0;
    unreachable_count = 0;
    started_at = none;
    finished_at = none;
  }

  abbrev pub queued_event : ℕ → List ResolvedHost → RunEvent
  queued_event run_id hosts = record {
    run_event_id = sources.run_event_id;
    run_id = run_id;
    run_target_id = none;
    sequence = 1;
    event_type = "run_queued";
    task = none;
    stdout = none;
    event_data = sources.host_count hosts;
    created_at = now;
  }

  abbrev pub replay_event : ℕ → AuditEvent
  replay_event run_id =
      user_event AuditAction.run_idempotent_replay AuditOutcome.noop AuditSource.api
        request.requested_by (some run_id)

  abbrev pub created_event : ℕ → AuditEvent
  created_event run_id =
      user_event AuditAction.run_created AuditOutcome.succeeded AuditSource.api request.requested_by
        (some run_id)

  abbrev pub denied_event : AuditAction → AuditEvent
  denied_event action =
      user_event action AuditOutcome.denied AuditSource.api request.requested_by none

  -- The first unit of work: a run that has the key already.
  unfoldable pub replay : Option Run → Tx (Option Run)
  unfolding Audit.append
  replay none = return none
  replay (some existing) = do
    raise_if (not (text_eq existing.request_fingerprint fingerprint_of)) idempotency_conflict
    Audit.append (replay_event existing.run_id)
    return (some existing)

  unfoldable pub look_up : Tx (Option Run)
  unfolding get_by_idempotency_key replay
  look_up = do
    existing ← get_by_idempotency_key request.requested_by request.idempotency_key
    replay existing

  -- What follows `create_or_get`: a new run, or one that another request made meanwhile.
  unfoldable pub complete : List ResolvedHost → Run → Bool → Tx Run
  unfolding require_confirmed_host_keys append_event Audit.append
  complete hosts persisted true = do
    require_confirmed_host_keys sources.assets hosts
    _ ← append_event (queued_event persisted.run_id hosts)
    Audit.append (created_event persisted.run_id)
    return persisted
  complete hosts persisted false = do Audit.append (replay_event persisted.run_id); return persisted

  -- The second unit of work.
  unfoldable pub persist : Tx Run
  unfolding resolve_targets create_or_get complete
  persist = do
    hosts ← resolve_targets sources.assets request.target_kind request.host_ids request.group_id
    stored ← create_or_get (new_run hosts) (map new_target hosts)
    raise_if (not (text_eq stored.0.request_fingerprint fingerprint_of)) idempotency_conflict
    complete hosts stored.0 stored.1

  abbrev pub is_conflict : Failure → Bool
  is_conflict idempotency_conflict = true
  is_conflict _ = false

  -- The OpsErrors of the stages target_resolution and host_key_validation.
  abbrev pub is_denied : Failure → Bool
  is_denied not_found = true
  is_denied validation = true
  is_denied host_key_confirmation_required = true
  is_denied _ = false

  -- The `except` clauses of the two units of work; `recorded` says whether the best-effort record is
  -- written.
  unfoldable pub on_conflict : Bool → Failure → Db → Db
  unfolding record_best_effort
  on_conflict recorded e db =
      if is_conflict e
      then record_best_effort recorded (denied_event AuditAction.run_idempotency_conflict) db
      else db

  unfoldable pub on_failure : Bool → Failure → Db → Db
  unfolding on_conflict record_best_effort
  on_failure recorded e db =
      if is_denied e
      then record_best_effort recorded (denied_event AuditAction.run_target_resolution_failed) db
      else on_conflict recorded e db

  unfoldable pub after_persist : Bool → Result Run × Db → Result Run × Db
  unfolding on_failure
  after_persist recorded (ok run, db) = (ok run, db)
  after_persist recorded (err e, db) = (err e, on_failure recorded e db)

  unfoldable pub after_look_up : Bool → Result (Option Run) × Db → Result Run × Db
  unfolding persist run_tx on_conflict after_persist
  after_look_up recorded (ok (some existing), db) = (ok existing, db)
  after_look_up recorded (ok none, db) = after_persist recorded (run_tx persist db)
  after_look_up recorded (err e, db) = (err e, on_conflict recorded e db)

  unfoldable pub create : Bool → Db → Result Run × Db
  unfolding look_up run_tx after_look_up
  create recorded db =
      if leb 8 (char_count request.idempotency_key) && leb (char_count request.idempotency_key) 200
      then after_look_up recorded (run_tx look_up db)
      else (err validation, db)
