-- ===== src/Queue/Service.antt =====
-- `RunService` of backend/src/ops_composer/services/runs.py: how a user reads and cancels runs. Each
-- method is one unit of work.
use ops_composer.Prelude.{ℕ, String, Bool, Option, none, some, List}
use ops_composer.Db.{Tx, return, raise_if, require, ◌>>=◌, ◌>>◌}
use ops_composer.Domain.Auth.{Permission, SessionPrincipal}
use ops_composer.Domain.Audit.{AuditAction, AuditOutcome, AuditSource}
use ops_composer.Domain.Errors.{not_found, run_not_cancelable}
use ops_composer.Domain.Json.{Json, Fields}
use ops_composer.Domain.Ops.{Run, RunTarget, RunEvent, is_terminal}
use ops_composer.Audit
use ops_composer.Audit.{user_event}
use ops_composer.Auth.{require_permission}
use ops_composer.Queue.Store
use ops_composer.Queue.Store.{
  run_of, has_run_id, cancelable, is_queued, is_live, set_cancel, cancel_found, request_cancel,
}
use ops_composer.Queue.Events

unfoldable pub get : ℕ → Tx Run
unfolding Store.get
get run_id = do found ← Store.get run_id; require found not_found

unfoldable pub detail : (String → String → Bool) → ℕ → Tx (Run × List RunTarget)
unfolding get Store.targets
detail name_before run_id = do
  run ← get run_id
  targets ← Store.targets name_before run_id
  return (run, targets)

unfoldable pub events_after : ℕ → ℕ → ℕ → Tx (List RunEvent)
unfolding get Events.events_after
events_after run_id sequence limit = do _ ← get run_id; Events.events_after run_id sequence limit

-- Who cancels: the actor, who needs the permission, or else the caller's `requested_by`.
abbrev pub canceler : Option SessionPrincipal → ℕ → ℕ
canceler none requested_by = requested_by
canceler (some actor) requested_by = actor.user_id

unfoldable pub may_cancel : Option SessionPrincipal → Tx (Unit {0})
unfolding require_permission
may_cancel none = return tt
may_cancel (some actor) = require_permission actor Permission.run_cancel

unfoldable pub cancel_event : ℕ → ℕ → ℕ → RunEvent
cancel_event event_id run_id now = record {
  run_event_id = event_id;
  run_id = run_id;
  run_target_id = none;
  sequence = 1;
  event_type = "cancel_requested";
  task = none;
  stdout = none;
  event_data = Json.object Fields.empty;
  created_at = now;
}

-- The unit of work of `cancel`, after the permission is checked.
unfoldable pub cancel_run : AuditSource → ℕ → ℕ → ℕ → ℕ → Tx Run
unfolding get request_cancel Events.append_event Audit.append cancel_event
cancel_run source event_id run_id requested_by now = do
  current ← get run_id
  raise_if (is_terminal current.status) run_not_cancelable
  found ← request_cancel run_id now
  run ← require found run_not_cancelable
  _ ← Events.append_event (cancel_event event_id run_id now)
  Audit.append (
      user_event AuditAction.run_cancel_requested AuditOutcome.succeeded source requested_by
        (some run_id))
  return run

unfoldable pub cancel : AuditSource → ℕ → ℕ → ℕ → Option SessionPrincipal → ℕ → Tx Run
unfolding may_cancel cancel_run
cancel source event_id run_id requested_by actor now = do
  may_cancel actor
  cancel_run source event_id run_id (canceler actor requested_by) now
