-- ===== src/Queue/Steps.antt =====
-- The queue as a state machine: the statements that the API and the workers run, in any order.
use ops_composer.Prelude.{
  ℕ, String, ◌≡◌, refl, Bool, true, false, Option, none, some, List, inl, inr, arith, ◌==◌, All,
  first_where, exists_where, Bool-cases, Option-cases,
}
use ops_composer.Db.{Db, ok, After, After-ok}
use ops_composer.Domain.Ops.{Run, RunTarget, RunEvent, is_terminal}
use ops_composer.Queue.Store.{run_of, is_queued, request_cancel, create_or_get, has_run_id}
use ops_composer.Queue.Claim.{heartbeat, claim_next}
use ops_composer.Queue.Lifecycle.{
  is_open, mark_running, Outcome, owned_by, finish, TargetOutcome, finish_target, recover_stale,
}
use ops_composer.Queue.Events.{append_to, append_event, next_sequence, same_event}
use ops_composer.Queue.Settled.{IsSettled, update_runs-IsKeyed, update_runs-Settled}
use ops_composer.Queue.Creates.{IsFresh, create_or_get-IsSettled}
use ops_composer.Queue.Keeps.{
  mark_running-IsSettled, request_cancel-IsSettled, claim_next-IsSettled, finish_target-IsSettled,
}
use ops_composer.Queue.Ends.{finish-IsSettled, recover_stale-IsSettled}

-- A statement that returns, with what its caller sees to: the service creates queued runs with waiting
-- targets, a worker starts, reports and finishes runs that it claimed, and a finished run's status is
-- terminal.
pub data Step (db db' : Db) : Type 0 where
  created :
      (run : Run) (targets : List RunTarget) (x : Run × Bool)
      → is_queued run.status ≡ true
      → All (IsFresh run) targets
      → create_or_get run targets db ≡ ok (x, db')
      → Step db db'
  cancel_requested :
      (run_id now : ℕ) (x : Option Run) → request_cancel run_id now db ≡ ok (x, db') → Step db db'
  claimed :
      (skipped : Run → Bool) (worker_id : String) (now expires_at : ℕ) (run : Run)
      → claim_next skipped worker_id now expires_at db ≡ ok (some run, db')
      → Step db db'
  started :
      (run_id now : ℕ)
      → ((r : Run) → run_of run_id db ≡ some r → is_queued r.status ≡ false)
      → mark_running run_id now db ≡ ok (tt, db')
      → Step db db'
  reported :
      (run_target_id : ℕ) (o : TargetOutcome) (now : ℕ)
      → is_open o.status ≡ false
      → All
          (λ t.
            (t.run_target_id == run_target_id) ≡ true
            → (r : Run) → run_of t.run_id db ≡ some r
            → is_queued r.status ≡ false)
          db.run_targets
      → finish_target run_target_id o now db ≡ ok (tt, db')
      → Step db db'
  finished :
      (run_id : ℕ) (worker_id : String) (o : Outcome) (now : ℕ) (x : Run)
      → is_terminal o.status ≡ true
      → finish run_id worker_id o now db ≡ ok (some x, db')
      → Step db db'
  recovered : (now n : ℕ) → recover_stale now db ≡ ok (n, db') → Step db db'
  event_appended : (e x : RunEvent) → append_event e db ≡ ok (x, db') → Step db db'
  beat :
      (worker_id : String) (run_id : Option ℕ) (now expires_at : ℕ)
      → heartbeat worker_id run_id now expires_at db ≡ ok (tt, db')
      → Step db db'

pub data Reach (db : Db) : Db → Type 0 where
  here : Reach db db
  next : {mid db' : Db} → Reach db mid → Step mid db' → Reach db db'

append_to-IsSettled :
    (e : RunEvent) (o : Option Run) (db : Db) → IsSettled db → After IsSettled (append_to e o db)
unfolding append_to
append_to-IsSettled e none db s = tt
append_to-IsSettled e (some r) db s =
    elim (Bool-cases
      (exists_where (same_event (record e { sequence = r.next_event_sequence })) db.run_events)) [
        | inl clash ↦ rw clash tt
        | inr new ↦ rw new (record {
          keyed =
              update_runs-IsKeyed (has_run_id e.run_id) next_sequence (λ r. refl) db.runs s.keyed;
          settled =
              update_runs-Settled (has_run_id e.run_id) next_sequence (λ r. refl) db.runs
                db.run_targets (λ r t found h. ground (arith, h)) s.settled;
        })
      ]

append_event-IsSettled :
    (e : RunEvent) (db : Db) → IsSettled db → After IsSettled (append_event e db)
unfolding append_event
append_event-IsSettled e db s = append_to-IsSettled e (run_of e.run_id db) db s

heartbeat-IsSettled :
    (worker_id : String) (run_id : Option ℕ) (now expires_at : ℕ) (db : Db)
    → IsSettled db
    → After IsSettled (heartbeat worker_id run_id now expires_at db)
unfolding heartbeat
heartbeat-IsSettled worker_id run_id now expires_at db s = record {
  keyed = s.keyed;
  settled = s.settled;
}

-- A finish that returns a run found its owner.
pub finish-owned :
    (run_id : ℕ) (worker_id : String) (o : Outcome) (now : ℕ) (db db' : Db) (x : Run)
    → finish run_id worker_id o now db ≡ ok (some x, db')
    → (r : Run) × (first_where (owned_by run_id worker_id) db.runs ≡ some r)
unfolding finish
finish-owned run_id worker_id o now db db' x e =
    elim (Option-cases (first_where (owned_by run_id worker_id) db.runs)) [
      | inl no_row ↦ absurd (ground (arith, no_row))
      | inr found ↦ found
    ]

-- Every statement keeps the tables in agreement.
pub Step-IsSettled : {db db' : Db} → Step db db' → IsSettled db → IsSettled db'
Step-IsSettled {db} (created run targets x queued fresh e) s =
    After-ok IsSettled _ (create_or_get-IsSettled run targets db queued fresh s) e
Step-IsSettled {db} (cancel_requested run_id now x e) s =
    After-ok IsSettled _ (request_cancel-IsSettled run_id now db s) e
Step-IsSettled {db} {db'} (claimed skipped worker_id now expires_at run e) s =
    claim_next-IsSettled skipped worker_id now expires_at db s run db' e
Step-IsSettled {db} (started run_id now live e) s =
    After-ok IsSettled _ (mark_running-IsSettled run_id now db live s) e
Step-IsSettled {db} (reported run_target_id o now closed live e) s =
    After-ok IsSettled _ (finish_target-IsSettled run_target_id o now db closed live s) e
Step-IsSettled {db} {db'} (finished run_id worker_id o now x ends e) s =
    let (r, row) = finish-owned run_id worker_id o now db db' x e in
    After-ok IsSettled _ (finish-IsSettled run_id worker_id o now db r row ends s) e
Step-IsSettled {db} (recovered now n e) s =
    After-ok IsSettled _ (recover_stale-IsSettled now db s) e
Step-IsSettled {db} (event_appended event x e) s =
    After-ok IsSettled _ (append_event-IsSettled event db s) e
Step-IsSettled {db} (beat worker_id run_id now expires_at e) s =
    After-ok IsSettled _ (heartbeat-IsSettled worker_id run_id now expires_at db s) e

-- In every state that the queue's statements reach from tables in agreement, they agree: no target of
-- a finished run is pending or running, and all targets of a queued run are pending.
pub Reach-IsSettled : {db db' : Db} → Reach db db' → IsSettled db → IsSettled db'
Reach-IsSettled here s = s
Reach-IsSettled (next r step) s = Step-IsSettled step (Reach-IsSettled r s)
