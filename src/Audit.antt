-- ===== src/Audit.antt =====
-- backend/src/ops_composer/services/audit.py: the audit trail of a transaction, and the best-effort
-- record beside one. An event's actor may come from the log context; here it is what the caller says.
use ops_composer.Prelude.{ℕ, String, Bool, true, false, Option, none, some, [], ◌∷◌, ◌++◌}
use ops_composer.Db.{Db, Tx, modify, run_tx}
use ops_composer.Domain.Audit.{AuditAction, AuditOutcome, AuditSource, AuditEvent}

-- `new_audit_event`, for the fields that the callers below give.
abbrev pub worker_event : AuditAction → AuditOutcome → String → Option ℕ → AuditEvent
worker_event action outcome worker_id run_id = record {
  event_action = action;
  event_outcome = outcome;
  source = AuditSource.worker;
  actor_user_id = none;
  session_id = none;
  run_id = run_id;
  worker_id = some worker_id;
}

abbrev pub user_event : AuditAction → AuditOutcome → AuditSource → ℕ → Option ℕ → AuditEvent
user_event action outcome source actor run_id = record {
  event_action = action;
  event_outcome = outcome;
  source = source;
  actor_user_id = some actor;
  session_id = none;
  run_id = run_id;
  worker_id = none;
}

-- An event of the API about a Web Shell session, and one without an actor.
abbrev pub session_event : AuditAction → AuditOutcome → ℕ → ℕ → AuditEvent
session_event action outcome actor session_id = record {
  event_action = action;
  event_outcome = outcome;
  source = AuditSource.api;
  actor_user_id = some actor;
  session_id = some session_id;
  run_id = none;
  worker_id = none;
}

abbrev pub system_event : AuditAction → AuditOutcome → AuditSource → AuditEvent
system_event action outcome source = record {
  event_action = action;
  event_outcome = outcome;
  source = source;
  actor_user_id = none;
  session_id = none;
  run_id = none;
  worker_id = none;
}

-- `unit_of_work.audit.append(event)`
unfoldable pub append : AuditEvent → Tx (Unit {0})
append event = modify (λ db. record db { audit_events = db.audit_events ++ event ∷ [] })

-- `record_best_effort`: its own unit of work, whose failure is swallowed. `stored` says whether the
-- write went through in time.
unfoldable pub record_best_effort : Bool → AuditEvent → Db → Db
unfolding append
record_best_effort true event db = (run_tx (append event) db).1
record_best_effort false event db = db
