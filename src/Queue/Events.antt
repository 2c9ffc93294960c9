-- ===== src/Queue/Events.antt =====
-- backend/src/ops_composer/repositories/runs.py: the ordered events of a run, the cancellation flag
-- and the sensitive parameters that are read once.
use ops_composer.Prelude.{
  ℕ, ◌+◌, Bool, false, Option, none, some, List, [], ◌∷◌, ◌++◌, ◌&&◌, ◌||◌, ◌==◌, ltb, is_set,
  if◌then◌else◌, rows_where, update_where, delete_where, exists_where, first_where, order_by, take,
}
use ops_composer.Db.{SecretInputs, Tx, ok, err, gets}
use ops_composer.Domain.Errors.{runtime_error, database_error}
use ops_composer.Domain.Ops.{Run, RunEvent}
use ops_composer.Queue.Store.{has_run_id, run_of}

abbrev pub next_sequence : Run → Run
next_sequence r = record r { next_event_sequence = r.next_event_sequence + 1 }

-- PRIMARY KEY (run_event_id), UNIQUE (run_id, sequence)
abbrev pub same_event : RunEvent → RunEvent → Bool
same_event d e =
    e.run_event_id == d.run_event_id || (e.run_id == d.run_id && e.sequence == d.sequence)

-- UPDATE … RETURNING next_event_sequence - 1 gives the value before the update.
unfoldable pub append_to : RunEvent → Option Run → Tx RunEvent
unfolding update_where exists_where
append_to event none db = err runtime_error
append_to event (some r) db =
    let row = record event { sequence = r.next_event_sequence } in
    if exists_where (same_event row) db.run_events
    then err database_error
    else ok (
      row,
      record db {
        runs = update_where (has_run_id event.run_id) next_sequence db.runs;
        run_events = db.run_events ++ row ∷ [];
      },
    )

unfoldable pub append_event : RunEvent → Tx RunEvent
unfolding append_to run_of
append_event event db = append_to event (run_of event.run_id db) db

abbrev pub event_after : ℕ → ℕ → RunEvent → Bool
event_after run_id sequence e = e.run_id == run_id && ltb sequence e.sequence

abbrev pub earlier : RunEvent → RunEvent → Bool
earlier d e = ltb d.sequence e.sequence

unfoldable pub events_after : ℕ → ℕ → ℕ → Tx (List RunEvent)
unfolding rows_where order_by
events_after run_id sequence limit =
    gets
      (λ db. take limit (order_by earlier (rows_where (event_after run_id sequence) db.run_events)))

unfoldable pub cancellation_requested : ℕ → Tx Bool
unfolding run_of
cancellation_requested run_id =
    gets (λ db. elim (run_of run_id db) [ none ↦ false | some r ↦ is_set r.cancel_requested_at ])

abbrev pub secrets_of : ℕ → SecretInputs → Bool
secrets_of run_id s = s.run_id == run_id

-- PRIMARY KEY (run_id)
unfoldable pub add_secret_inputs : SecretInputs → Tx (Unit {0})
unfolding exists_where
add_secret_inputs inputs db =
    if exists_where (secrets_of inputs.run_id) db.run_secret_inputs
    then err database_error
    else ok (tt, record db { run_secret_inputs = db.run_secret_inputs ++ inputs ∷ [] })

-- DELETE … RETURNING
unfoldable pub consume_secret_inputs : ℕ → Tx (Option SecretInputs)
unfolding delete_where first_where
consume_secret_inputs run_id db = ok (
  first_where (secrets_of run_id) db.run_secret_inputs,
  record db { run_secret_inputs = delete_where (secrets_of run_id) db.run_secret_inputs },
)
