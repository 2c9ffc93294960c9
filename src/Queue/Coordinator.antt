-- ===== src/Queue/Coordinator.antt =====
-- `WorkerCoordinator` of backend/src/ops_composer/services/runs.py: each method is one unit of work.
-- `now` is the value of `utc_now()`, in microseconds, and a new id is an argument.
use ops_composer.Prelude.{
  ℕ, ◌+◌, ◌*◌, ◌-◌, ℤ, String, Bool, Option, none, some, List, ltb, if◌then◌else◌, length, drop,
}
use ops_composer.Db.{Db, Tx, Result, ok, err, return, require, run_tx, ◌>>=◌, ◌>>◌}
use ops_composer.Domain.Errors.{runtime_error, claim_collision}
use ops_composer.Domain.Json.{Json, Fields}
use ops_composer.Domain.Audit.{AuditAction, AuditOutcome}
use ops_composer.Domain.Ops.{Run, RunStatus, RunTargetStatus, RunEvent, status_value}
use ops_composer.Audit
use ops_composer.Audit.{worker_event, record_best_effort}
use ops_composer.Queue.Claim
use ops_composer.Queue.Lifecycle
use ops_composer.Queue.Lifecycle.{Outcome, TargetOutcome}
use ops_composer.Queue.Events

-- timedelta(seconds=…)
abbrev pub seconds : ℕ → ℕ
seconds n = n * 1000000

-- `str.encode` and `bytes.decode("utf-8", errors="replace")`
pub record Utf8 : Type 0 where
  pub encode : String → List ℕ
  pub decode_replace : List ℕ → String

unfoldable pub heartbeat : String → ℕ → Option ℕ → ℕ → Tx (Unit {0})
unfolding Claim.heartbeat
heartbeat worker_id lease_seconds run_id now =
    Claim.heartbeat worker_id run_id now (now + seconds lease_seconds)

audit_recovered : String → ℕ → Tx (Unit {0})
unfolding Audit.append
audit_recovered worker_id count =
    if ltb 0 count
    then Audit.append
        (worker_event AuditAction.stale_runs_recovered AuditOutcome.succeeded worker_id none)
    else return tt

unfoldable pub recover_stale : String → ℕ → Tx ℕ
unfolding Lifecycle.recover_stale audit_recovered
recover_stale worker_id now = do
  count ← Lifecycle.recover_stale now
  audit_recovered worker_id count
  return count

-- What `claim` does with the answer of `claim_next`.
after_claim : String → ℕ → ℕ → Option Run → Tx (Option Run)
unfolding Claim.heartbeat Audit.append
after_claim worker_id now expires none = return none
after_claim worker_id now expires (some run) = do
  Claim.heartbeat worker_id (some run.run_id) now expires
  Audit.append
      (worker_event AuditAction.run_claimed AuditOutcome.succeeded worker_id (some run.run_id))
  return (some run)

unfoldable pub claim_tx : (Run → Bool) → String → ℕ → ℕ → Tx (Option Run)
unfolding Claim.heartbeat Claim.claim_next after_claim
claim_tx skipped worker_id lease_seconds now = do
  let expires = now + seconds lease_seconds
  Claim.heartbeat worker_id none now expires
  run ← Claim.claim_next skipped worker_id now expires
  after_claim worker_id now expires run

-- `except ClaimCollisionError`: the claim is undone and counts as none.
unfoldable pub claim_caught : Bool → String → Result (Option Run) × Db → Result (Option Run) × Db
unfolding record_best_effort
claim_caught stored worker_id (err claim_collision, db) = (
  ok none,
  record_best_effort stored
      (worker_event AuditAction.host_lock_collision AuditOutcome.noop worker_id none) db,
)
claim_caught stored worker_id (result, db) = (result, db)

unfoldable pub claim : Bool → (Run → Bool) → String → ℕ → ℕ → Db → Result (Option Run) × Db
unfolding claim_tx claim_caught run_tx
claim stored skipped worker_id lease_seconds now db =
    claim_caught stored worker_id (run_tx (claim_tx skipped worker_id lease_seconds now) db)

unfoldable pub mark_running : String → ℕ → ℕ → Tx (Unit {0})
unfolding Lifecycle.mark_running Audit.append
mark_running worker_id run_id now = do
  Lifecycle.mark_running run_id now
  Audit.append (worker_event AuditAction.run_started AuditOutcome.succeeded worker_id (some run_id))

-- The last `max_event_output_bytes` bytes of an output that is too long.
unfoldable pub truncate_output : Utf8 → ℕ → Option String → Option String
truncate_output utf8 max_bytes none = none
truncate_output utf8 max_bytes (some stdout) =
    let bytes = utf8.encode stdout in
    if ltb max_bytes (length bytes)
    then some (utf8.decode_replace (drop (length bytes - max_bytes) bytes))
    else some stdout

unfoldable pub append_event : Utf8 → ℕ → RunEvent → Tx RunEvent
unfolding Events.append_event truncate_output
append_event utf8 max_bytes event =
    Events.append_event
      (record event { sequence = 1; stdout = truncate_output utf8 max_bytes event.stdout })

abbrev target_outcome : RunTargetStatus → AuditOutcome
target_outcome RunTargetStatus.succeeded = AuditOutcome.succeeded
target_outcome RunTargetStatus.skipped = AuditOutcome.succeeded
target_outcome _ = AuditOutcome.failed

unfoldable pub finish_target : String → ℕ → ℕ → TargetOutcome → ℕ → Tx (Unit {0})
unfolding Lifecycle.finish_target Audit.append
finish_target worker_id run_id run_target_id o now = do
  Lifecycle.finish_target run_target_id o now
  Audit.append
      (worker_event AuditAction.host_completed (target_outcome o.status) worker_id (some run_id))

abbrev finish_action : RunStatus → AuditAction
finish_action RunStatus.succeeded = AuditAction.run_succeeded
finish_action RunStatus.partial = AuditAction.run_partial
finish_action RunStatus.canceled = AuditAction.run_canceled
finish_action RunStatus.timed_out = AuditAction.run_timed_out
finish_action RunStatus.interrupted = AuditAction.run_interrupted
finish_action RunStatus.rejected = AuditAction.run_rejected
finish_action _ = AuditAction.run_failed

abbrev finish_outcome : RunStatus → AuditOutcome
finish_outcome RunStatus.succeeded = AuditOutcome.succeeded
finish_outcome _ = AuditOutcome.failed

abbrev return_code_json : Option ℤ → Json
return_code_json none = Json.null
return_code_json (some n) = Json.integer n

finished_event : ℕ → ℕ → Outcome → ℕ → RunEvent
finished_event event_id run_id o now = record {
  run_event_id = event_id;
  run_id = run_id;
  run_target_id = none;
  sequence = 1;
  event_type = "run_finished";
  task = none;
  stdout = none;
  event_data = Json.object (
      Fields.field "status" (Json.text (status_value o.status)) (
        Fields.field "returnCode" (return_code_json o.return_code)
          (Fields.field "summary" o.summary Fields.empty)));
  created_at = now;
}

unfoldable pub finish : String → ℕ → ℕ → Outcome → ℕ → Tx Run
unfolding Lifecycle.finish Events.append_event Audit.append finished_event
finish worker_id event_id run_id o now = do
  found ← Lifecycle.finish run_id worker_id o now
  result ← require found runtime_error
  event ← Events.append_event (finished_event event_id run_id o now)
  Audit.append
      (worker_event (finish_action o.status) (finish_outcome o.status) worker_id (some run_id))
  return result
