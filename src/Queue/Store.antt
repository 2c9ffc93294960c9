-- ===== src/Queue/Store.antt =====
-- backend/src/ops_composer/repositories/runs.py: how runs are created, read and canceled.
use ops_composer.Prelude.{
  ℕ, String, Bool, true, false, Option, none, some, List, [], ◌∷◌, ◌++◌, ◌&&◌, ◌||◌, ◌==◌, ltb,
  text_eq, if◌then◌else◌, rows_where, update_where, exists_where, first_where, order_by, take, drop,
}
use ops_composer.Db.{Db, Tx, ok, err, return, gets, require, ◌>>=◌, ◌>>◌}
use ops_composer.Domain.Errors.{runtime_error, database_error}
use ops_composer.Domain.Ops.{Run, RunStatus, RunTarget, RunTargetStatus}

-- WHERE run_id = …
abbrev pub has_run_id : ℕ → Run → Bool
has_run_id run_id r = r.run_id == run_id

abbrev pub target_of : ℕ → RunTarget → Bool
target_of run_id t = t.run_id == run_id

unfoldable pub run_of : ℕ → Db → Option Run
unfolding first_where
run_of run_id db = first_where (has_run_id run_id) db.runs

abbrev pub by_key : ℕ → String → Run → Bool
by_key requested_by idempotency_key r =
    r.requested_by == requested_by && text_eq r.idempotency_key idempotency_key

unfoldable pub get_by_idempotency_key : ℕ → String → Tx (Option Run)
unfolding first_where
get_by_idempotency_key requested_by idempotency_key =
    gets (λ db. first_where (by_key requested_by idempotency_key) db.runs)

-- INSERT … ON CONFLICT (requested_by, idempotency_key) DO NOTHING RETURNING. A new row's event
-- sequence is the column's default.
unfoldable pub insert_new : Run → Option Run → Option Run → Tx (Option Run)
insert_new run (some conflict) same_id db = ok (none, db)
insert_new run none (some same_id) db = err database_error
insert_new run none none db =
    let row = record run { next_event_sequence = 1 } in
    ok (some row, record db { runs = db.runs ++ row ∷ [] })

unfoldable pub insert_run : Run → Tx (Option Run)
unfolding insert_new first_where run_of
insert_run run db =
    insert_new run (first_where (by_key run.requested_by run.idempotency_key) db.runs)
      (run_of run.run_id db) db

-- PRIMARY KEY (run_target_id), UNIQUE (run_id, host_id)
abbrev pub same_target : RunTarget → RunTarget → Bool
same_target t s =
    s.run_target_id == t.run_target_id || (s.run_id == t.run_id && s.host_id == t.host_id)

-- `execute_many` inserts row by row.
unfoldable pub insert_targets : List RunTarget → Tx (Unit {0})
unfolding exists_where
insert_targets [] db = ok (tt, db)
insert_targets (t ∷ ts) db =
    if exists_where (same_target t) db.run_targets
    then err database_error
    else insert_targets ts (record db { run_targets = db.run_targets ++ t ∷ [] })

-- What follows the INSERT: the targets of a new row, or the row that was there.
unfoldable pub get_created : Run → List RunTarget → Option Run → Tx (Run × Bool)
unfolding insert_targets get_by_idempotency_key
get_created run targets (some row) = do insert_targets targets; return (row, true)
get_created run targets none = do
  existing ← get_by_idempotency_key run.requested_by run.idempotency_key
  row ← require existing runtime_error
  return (row, false)

unfoldable pub create_or_get : Run → List RunTarget → Tx (Run × Bool)
unfolding insert_run get_created
create_or_get run targets = do inserted ← insert_run run; get_created run targets inserted

unfoldable pub get : ℕ → Tx (Option Run)
unfolding run_of
get run_id = gets (run_of run_id)

-- ORDER BY created_at DESC, run_id DESC
abbrev newer : Run → Run → Bool
newer r s = ltb s.created_at r.created_at || (r.created_at == s.created_at && ltb s.run_id r.run_id)

unfoldable pub list : ℕ → ℕ → Tx (List Run)
unfolding order_by
list limit offset = gets (λ db. take limit (drop offset (order_by newer db.runs)))

-- `targets`, ordered by a comparison of host names, which is the database's collation.
unfoldable pub targets : (String → String → Bool) → ℕ → Tx (List RunTarget)
unfolding rows_where order_by
targets name_before run_id = gets (λ db.
    order_by (λ s t. name_before s.host_name t.host_name)
      (rows_where (target_of run_id) db.run_targets))

-- status IN ('QUEUED', 'PREPARING', 'RUNNING')
abbrev pub is_live : RunStatus → Bool
is_live RunStatus.queued = true
is_live RunStatus.preparing = true
is_live RunStatus.running = true
is_live _ = false

abbrev pub is_queued : RunStatus → Bool
is_queued RunStatus.queued = true
is_queued _ = false

abbrev pub is_canceled : RunStatus → Bool
is_canceled RunStatus.canceled = true
is_canceled _ = false

abbrev pub is_pending : RunTargetStatus → Bool
is_pending RunTargetStatus.pending = true
is_pending _ = false

-- The SET list of `request_cancel`.
unfoldable pub set_cancel : ℕ → Run → Run
set_cancel now r = record r {
  cancel_requested_at = some now;
  status = if is_queued r.status then RunStatus.canceled else r.status;
  finished_at = if is_queued r.status then some now else r.finished_at;
  updated_at = now;
}

abbrev pub cancelable : ℕ → Run → Bool
cancelable run_id r = r.run_id == run_id && is_live r.status

unfoldable pub cancel_targets : ℕ → ℕ → List RunTarget → List RunTarget
unfolding update_where
cancel_targets run_id now =
    update_where (λ t. t.run_id == run_id && is_pending t.status)
      (λ t. record t { status = RunTargetStatus.canceled; finished_at = some now })

-- The answer of the UPDATE: the row that the test finds, changed.
unfoldable pub cancel_found : ℕ → ℕ → Option Run → Tx (Option Run)
unfolding set_cancel cancel_targets update_where
cancel_found run_id now none db = ok (none, db)
cancel_found run_id now (some before) db =
    let row = set_cancel now before in
    ok (
      some row,
      record db {
        runs = update_where (cancelable run_id) (set_cancel now) db.runs;
        run_targets =
            if is_canceled row.status
            then cancel_targets run_id now db.run_targets
            else db.run_targets;
      },
    )

unfoldable pub request_cancel : ℕ → ℕ → Tx (Option Run)
unfolding cancel_found first_where
request_cancel run_id now db = cancel_found run_id now (first_where (cancelable run_id) db.runs) db
