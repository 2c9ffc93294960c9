-- ===== src/Queue/Lifecycle.antt =====
-- backend/src/ops_composer/repositories/runs.py: how a claimed run starts, ends and is recovered.
use mathlib.Core.Option
use ops_composer.Prelude.{
  ℕ, ℤ, String, Bool, true, false, Option, none, some, List, ◌&&◌, ◌||◌, ◌==◌, leb, text_eq,
  holds_text, rows_where, update_where, delete_where, exists_where, first_where, length,
}
use ops_composer.Db.{HostLock, Tx, ok, modify}
use ops_composer.Domain.Json.{Json}
use ops_composer.Domain.Ops.{Run, RunStatus, RunTarget, RunTargetStatus, WorkerLease}
use ops_composer.Queue.Store.{has_run_id, is_pending}

abbrev pub is_preparing : RunStatus → Bool
is_preparing RunStatus.preparing = true
is_preparing _ = false

-- status IN ('PREPARING', 'RUNNING')
abbrev pub is_executing : RunStatus → Bool
is_executing RunStatus.preparing = true
is_executing RunStatus.running = true
is_executing _ = false

-- status IN ('PENDING', 'RUNNING')
abbrev pub is_open : RunTargetStatus → Bool
is_open RunTargetStatus.pending = true
is_open RunTargetStatus.running = true
is_open _ = false

abbrev pub set_running : ℕ → Run → Run
set_running now r = record r { status = RunStatus.running; updated_at = now }

abbrev pub start_target : ℕ → RunTarget → RunTarget
start_target now t = record t { status = RunTargetStatus.running; started_at = some now }

abbrev pub end_target : RunTargetStatus → ℕ → RunTarget → RunTarget
end_target status now t = record t { status = status; finished_at = some now }

unfoldable pub mark_running : ℕ → ℕ → Tx (Unit {0})
unfolding update_where
mark_running run_id now = modify (λ db. record db {
  runs = update_where (λ r. r.run_id == run_id && is_preparing r.status) (set_running now) db.runs;
  run_targets =
      update_where (λ t. t.run_id == run_id && is_pending t.status) (start_target now)
        db.run_targets;
})

-- The dictionary that `finish` looks a status up in, with its default.
abbrev pub fallback_target_status : RunStatus → RunTargetStatus
fallback_target_status RunStatus.canceled = RunTargetStatus.canceled
fallback_target_status RunStatus.interrupted = RunTargetStatus.interrupted
fallback_target_status RunStatus.succeeded = RunTargetStatus.skipped
fallback_target_status RunStatus.partial = RunTargetStatus.skipped
fallback_target_status _ = RunTargetStatus.failed

-- What the worker reports of a finished run.
pub record Outcome : Type 0 where
  pub status : RunStatus
  pub return_code : Option ℤ
  pub summary : Json
  pub failure_code : Option String
  pub failure_message : Option String

abbrev pub set_finished : Outcome → ℕ → Run → Run
set_finished o now r = record r {
  status = o.status;
  return_code = o.return_code;
  summary = o.summary;
  failure_code = o.failure_code;
  failure_message = o.failure_message;
  finished_at = some now;
  updated_at = now;
}

-- WHERE run_id = … AND claimed_by = … AND status IN ('PREPARING', 'RUNNING')
abbrev pub owned_by : ℕ → String → Run → Bool
owned_by run_id worker_id r =
    r.run_id == run_id && holds_text r.claimed_by worker_id && is_executing r.status

abbrev pub lock_of_run : ℕ → HostLock → Bool
lock_of_run run_id l = elim l.run_id [ none ↦ false | some id ↦ id == run_id ]

abbrev pub runs_run : ℕ → WorkerLease → Bool
runs_run run_id l = elim l.run_id [ none ↦ false | some id ↦ id == run_id ]

unfoldable pub finish : ℕ → String → Outcome → ℕ → Tx (Option Run)
unfolding update_where delete_where first_where
finish run_id worker_id o now db =
    let owner = owned_by run_id worker_id in
    ok (
      Option.map (set_finished o now) (first_where owner db.runs),
      record db {
        run_targets =
            update_where (λ t. t.run_id == run_id && is_open t.status)
              (end_target (fallback_target_status o.status) now) db.run_targets;
        runs = update_where owner (set_finished o now) db.runs;
        host_execution_locks = delete_where (lock_of_run run_id) db.host_execution_locks;
        worker_leases =
            update_where (λ l. text_eq l.worker_id worker_id && runs_run run_id l)
              (λ l. record l { run_id = none }) db.worker_leases;
      },
    )

-- What the worker reports of a finished host.
pub record TargetOutcome : Type 0 where
  pub status : RunTargetStatus
  pub return_code : Option ℤ
  pub stdout : String
  pub stderr : String
  pub result : Json
  pub output_truncated : Bool
  pub changed_count : ℕ
  pub failed_count : ℕ
  pub unreachable_count : ℕ

abbrev pub set_target : TargetOutcome → ℕ → RunTarget → RunTarget
set_target o now t = record t {
  status = o.status;
  return_code = o.return_code;
  stdout = o.stdout;
  stderr = o.stderr;
  result = o.result;
  output_truncated = o.output_truncated;
  changed_count = o.changed_count;
  failed_count = o.failed_count;
  unreachable_count = o.unreachable_count;
  finished_at = some now;
}

unfoldable pub finish_target : ℕ → TargetOutcome → ℕ → Tx (Unit {0})
unfolding update_where
finish_target run_target_id o now = modify (λ db. record db {
  run_targets =
      update_where (λ t. t.run_target_id == run_target_id) (set_target o now) db.run_targets;
})

abbrev pub is_stale : ℕ → WorkerLease → Bool
is_stale now l = leb l.expires_at now

-- claimed_by IN (SELECT worker_id FROM stale) AND status IN ('PREPARING', 'RUNNING')
unfoldable pub is_abandoned : List WorkerLease → Run → Bool
unfolding exists_where
is_abandoned stale r =
    exists_where (λ l. holds_text r.claimed_by l.worker_id) stale && is_executing r.status

abbrev pub set_interrupted : ℕ → Run → Run
set_interrupted now r = record r {
  status = RunStatus.interrupted;
  finished_at = some now;
  updated_at = now;
  failure_code = some "WORKER_LEASE_EXPIRED";
  failure_message = some "worker lease expired during execution";
}

-- run_id IN (SELECT run_id FROM interrupted)
unfoldable pub among : List Run → ℕ → Bool
unfolding exists_where
among runs run_id = exists_where (has_run_id run_id) runs

abbrev pub lock_among : List Run → HostLock → Bool
lock_among runs l = elim l.run_id [ none ↦ false | some id ↦ among runs id ]

-- One statement: its parts read the tables as they were before it.
unfoldable pub recover_stale : ℕ → Tx ℕ
unfolding update_where delete_where rows_where is_abandoned among
recover_stale now db =
    let stale = rows_where (is_stale now) db.worker_leases in
    let interrupted = rows_where (is_abandoned stale) db.runs in
    ok (
      length interrupted,
      record db {
        worker_leases = delete_where (is_stale now) db.worker_leases;
        runs = update_where (is_abandoned stale) (set_interrupted now) db.runs;
        run_targets =
            update_where (λ t. among interrupted t.run_id && is_open t.status)
              (end_target RunTargetStatus.interrupted now) db.run_targets;
        host_execution_locks =
            delete_where (λ l. leb l.expires_at now || lock_among interrupted l)
              db.host_execution_locks;
      },
    )
