-- ===== src/Queue/Examples.antt =====
-- The queue's theorems at concrete databases.
use ops_composer.Prelude.{
  ◌≡◌, refl, false, ◌==◌, ltb, leb, not, ◌&&◌, Option, none, some, List, [], ◌∷◌, arith, All,
  rows_where, first_where,
}
use ops_composer.Domain.Json.{Fields}
use ops_composer.Domain.Audit.{AuditAction, AuditOutcome, AuditSource}
use ops_composer.Audit.{user_event}
use ops_composer.Queue.Service
use ops_composer.Queue.Cancels.{waits_for, cancel_marks}
use ops_composer.Prelude.{exists_where}
use ops_composer.Queue.Lifecycle
use ops_composer.Queue.Lifecycle.{lock_of_run, is_abandoned, is_stale}
use ops_composer.Queue.Released.{finish_releases, runs_for, is_unfinished, recover_stale_interrupts}
use ops_composer.Db.{Db, HostLock, SecretInputs, ok}
use ops_composer.Domain.Json.{Json}
use ops_composer.Domain.Ops.{Run, RunStatus, RunTarget, RunTargetStatus, RunEvent}
use ops_composer.Locks.{take_lock, take_locks, lock_of}
use ops_composer.Queue.Store.{run_of, target_of, request_cancel}
use ops_composer.Queue.Claim.{run_lock, claim_next, claimable, older}
use ops_composer.Queue.Lifecycle.{recover_stale, Outcome, owned_by}
use ops_composer.Queue.Events.{append_event, add_secret_inputs, consume_secret_inputs}
use ops_composer.Queue.HostLocks.{claim_next_locks, claim_next_steals_none}
use ops_composer.Queue.Fifo.{claim_next_oldest}
use ops_composer.Queue.Settled.{IsSettled}
use ops_composer.Queue.Steps.{Step, cancel_requested, claimed, here, next, Reach-IsSettled}
use ops_composer.Queue.Moves.{Moves}
use ops_composer.Queue.Machine.{Step-Moves, Reach-terminal}
use ops_composer.Queue.Reports.{add_consume, consume_once}
use ops_composer.Queue.Sequence.{IsNumbered, append_event-IsNumbered}
use ops_composer.Samples.{queued_db, queued_run, nobody, other_lock, target_on}

abbrev claimed_run : Run
claimed_run = record queued_run {
  status = RunStatus.preparing;
  claimed_by = some "w";
  claimed_at = some 10;
  started_at = some 10;
  updated_at = 10;
}

abbrev claimed_db : Db
claimed_db = record queued_db {
  runs = claimed_run ∷ [];
  host_execution_locks = other_lock ∷ run_lock 7 "w" 10 40 2 ∷ run_lock 7 "w" 10 40 3 ∷ [];
}

claims : claim_next nobody "w" 10 40 queued_db ≡ ok (some claimed_run, claimed_db)
unfolding claim_next
claims = refl

claim_next_locks_example :
    All
      (λ t.
        lock_of t.host_id claimed_db.host_execution_locks ≡ some (run_lock 7 "w" 10 40 t.host_id))
      (rows_where (target_of 7) claimed_db.run_targets)
claim_next_locks_example =
    claim_next_locks nobody "w" 10 40 queued_db claimed_db claimed_run claims (omega arith)

lock_found : lock_of 9 queued_db.host_execution_locks ≡ some other_lock
unfolding lock_of
lock_found = refl

claim_next_steals_none_example : lock_of 9 claimed_db.host_execution_locks ≡ some other_lock
claim_next_steals_none_example =
    claim_next_steals_none nobody "w" 10 40 queued_db claimed_db claimed_run claims 9 other_lock
      lock_found (omega arith)

queued_db-IsSettled : IsSettled queued_db
unfolding first_where
queued_db-IsSettled = record {
  keyed = (refl, tt);
  settled = ((λ e. cc, λ _. refl), ((λ e. cc, λ _. refl), tt));
}

claim_next_oldest_example :
    ((before : Run) × (run_of 7 queued_db ≡ some before) × (before.status ≡ RunStatus.queued))
    × All
        (λ t.
          exists_where
            (λ l. l.host_id == t.host_id && ltb 10 l.expires_at)
            queued_db.host_execution_locks
          ≡ false)
        (rows_where (target_of 7) queued_db.run_targets)
    × All
        (λ s. older s claimed_run ≡ false)
        (rows_where (λ s. claimable 10 queued_db s && not (nobody s)) queued_db.runs)
claim_next_oldest_example =
    claim_next_oldest nobody "w" 10 40 queued_db claimed_db claimed_run queued_db-IsSettled.keyed
      claims

abbrev canceled_run : Run
canceled_run = record queued_run {
  cancel_requested_at = some 10;
  status = RunStatus.canceled;
  finished_at = some 10;
  updated_at = 10;
}

abbrev canceled_target : RunTarget → RunTarget
canceled_target t = record t { status = RunTargetStatus.canceled; finished_at = some 10 }

abbrev canceled_db : Db
canceled_db = record queued_db {
  runs = canceled_run ∷ [];
  run_targets =
      canceled_target (target_on 70 2 RunTargetStatus.pending)
      ∷ canceled_target (target_on 71 3 RunTargetStatus.pending)
      ∷ [];
}

cancels : request_cancel 7 10 queued_db ≡ ok (some canceled_run, canceled_db)
unfolding request_cancel
cancels = refl

cancels_again : request_cancel 7 10 canceled_db ≡ ok (none, canceled_db)
unfolding request_cancel
cancels_again = refl

canceled_found : run_of 7 canceled_db ≡ some canceled_run
unfolding run_of
canceled_found = refl

queued_found : run_of 7 queued_db ≡ some queued_run
unfolding run_of
queued_found = refl

claimed_found : run_of 7 claimed_db ≡ some claimed_run
unfolding run_of
claimed_found = refl

claim-Step : Step queued_db claimed_db
claim-Step = claimed nobody "w" 10 40 claimed_run claims

cancel-Step : Step queued_db canceled_db
cancel-Step = cancel_requested 7 10 (some canceled_run) cancels

again-Step : Step canceled_db canceled_db
again-Step = cancel_requested 7 10 none cancels_again

Reach-IsSettled_example : IsSettled canceled_db
Reach-IsSettled_example =
    Reach-IsSettled (next (next here cancel-Step) again-Step) queued_db-IsSettled

canceled_db-IsSettled : IsSettled canceled_db
canceled_db-IsSettled = Reach-IsSettled (next here cancel-Step) queued_db-IsSettled

claimed_db-IsSettled : IsSettled claimed_db
claimed_db-IsSettled = Reach-IsSettled (next here claim-Step) queued_db-IsSettled

Step-Moves_example : (r : Run) × (run_of 7 claimed_db ≡ some r) × Moves queued_run.status r.status
Step-Moves_example = Step-Moves 7 queued_run queued_db-IsSettled claim-Step queued_found

Reach-terminal_example :
    (r : Run) × (run_of 7 canceled_db ≡ some r) × (r.status ≡ canceled_run.status)
Reach-terminal_example =
    Reach-terminal 7 canceled_run canceled_db-IsSettled (next here again-Step) canceled_found refl

abbrev done : Outcome
done = record {
  status = RunStatus.succeeded;
  return_code = none;
  summary = Json.null;
  failure_code = none;
  failure_message = none;
}

not_owner : first_where (owned_by 7 "other") claimed_db.runs ≡ none
unfolding first_where
not_owner = refl

abbrev secret : SecretInputs
secret = record {
  run_id = 7;
  encrypted_payload = 1 ∷ [];
  encryption_key_version = 1;
  parameter_names = "password" ∷ [];
  created_at = 5;
}

abbrev secret_db : Db
secret_db = record queued_db { run_secret_inputs = secret ∷ [] }

adds : add_secret_inputs secret queued_db ≡ ok (tt, secret_db)
unfolding add_secret_inputs
adds = refl

add_consume_example : consume_secret_inputs 7 secret_db ≡ ok (some secret, queued_db)
add_consume_example = add_consume secret queued_db secret_db adds

consumes_none : consume_secret_inputs 7 queued_db ≡ ok (none, queued_db)
unfolding consume_secret_inputs
consumes_none = refl

consume_once_example : ◌≡◌ {A = Option SecretInputs} none none
consume_once_example =
    consume_once 7 secret_db queued_db queued_db (some secret) none add_consume_example
      consumes_none

abbrev first_event : RunEvent
first_event = record {
  run_event_id = 90;
  run_id = 7;
  run_target_id = none;
  sequence = 1;
  event_type = "run_queued";
  task = none;
  stdout = none;
  event_data = Json.null;
  created_at = 5;
}

abbrev event_db : Db
event_db = record queued_db {
  runs = record queued_run { next_event_sequence = 2 } ∷ [];
  run_events = first_event ∷ [];
}

appends : append_event first_event queued_db ≡ ok (first_event, event_db)
unfolding append_event
appends = refl

none_yet : IsNumbered 7 queued_db
unfolding rows_where
none_yet = (0, queued_run, queued_found, refl, refl)

append_event-IsNumbered_example : IsNumbered 7 event_db
append_event-IsNumbered_example =
    append_event-IsNumbered 7 first_event first_event queued_db event_db none_yet appends

-- The second host of the run is locked by a web shell, but the claim's first statement did not see it.
abbrev blocked : List HostLock
blocked = record other_lock { host_id = 3 } ∷ []

take_lock_twice : take_lock (run_lock 7 "w" 10 40 3) 10 blocked ≡ none
unfolding take_lock
take_lock_twice = refl

takes :
    take_lock (run_lock 7 "w" 10 40 2) 10 blocked
    ≡ some (record other_lock { host_id = 3 } ∷ run_lock 7 "w" 10 40 2 ∷ [])
unfolding take_lock
takes = refl

two_of_three : take_locks (run_lock 7 "w" 10 40) 10 (2 ∷ 4 ∷ []) blocked ≡ (
  2 ∷ 4 ∷ [],
  record other_lock { host_id = 3 } ∷ run_lock 7 "w" 10 40 2 ∷ run_lock 7 "w" 10 40 4 ∷ [],
)
unfolding take_locks
two_of_three = refl

abbrev marked_db : Db
marked_db = record canceled_db {
  runs = record canceled_run { next_event_sequence = 2 } ∷ [];
  run_events =
      record {
        run_event_id = 91;
        run_id = 7;
        run_target_id = none;
        sequence = 1;
        event_type = "cancel_requested";
        task = none;
        stdout = none;
        event_data = Json.object Fields.empty;
        created_at = 10;
      }
      ∷ [];
  audit_events =
      user_event AuditAction.run_cancel_requested AuditOutcome.succeeded AuditSource.api 1 (some 7)
      ∷ [];
}

cancels_run : Service.cancel_run AuditSource.api 91 7 1 10 queued_db ≡ ok (canceled_run, marked_db)
unfolding Service.cancel_run
cancels_run = refl

cancel_marks_example :
    (canceled_run.status ≡ RunStatus.canceled)
    × (canceled_run.cancel_requested_at ≡ some 10)
    × ((r : Run) × (run_of 7 marked_db ≡ some r)
        × (r.status ≡ RunStatus.canceled)
        × (r.cancel_requested_at ≡ some 10))
    × (exists_where (waits_for 7) marked_db.run_targets ≡ false)
cancel_marks_example =
    cancel_marks AuditSource.api 91 7 1 10 queued_db marked_db queued_run canceled_run queued_found
      cancels_run

-- The claimed run, ended by its worker.
abbrev ended_run : Run
ended_run = record claimed_run {
  status = RunStatus.succeeded;
  finished_at = some 20;
  updated_at = 20;
}

abbrev ended_target : RunTarget → RunTarget
ended_target t = record t { status = RunTargetStatus.skipped; finished_at = some 20 }

abbrev ended_db : Db
ended_db = record claimed_db {
  runs = ended_run ∷ [];
  run_targets =
      ended_target (target_on 70 2 RunTargetStatus.pending)
      ∷ ended_target (target_on 71 3 RunTargetStatus.pending)
      ∷ [];
  host_execution_locks = other_lock ∷ [];
}

finishes : Lifecycle.finish 7 "w" done 20 claimed_db ≡ ok (some ended_run, ended_db)
unfolding Lifecycle.finish
finishes = refl

finish_releases_example : exists_where (lock_of_run 7) ended_db.host_execution_locks ≡ false
finish_releases_example =
    finish_releases 7 "w" done 20 claimed_db ended_db (some ended_run) finishes

-- The worker of the claimed run is gone, and its lease has expired.
abbrev lost_db : Db
lost_db = record claimed_db {
  worker_leases =
      record { worker_id = "w"; run_id = some 7; heartbeat_at = 10; expires_at = 40 } ∷ [];
}

abbrev interrupted_run : Run
interrupted_run = record claimed_run {
  status = RunStatus.interrupted;
  finished_at = some 50;
  updated_at = 50;
  failure_code = some "WORKER_LEASE_EXPIRED";
  failure_message = some "worker lease expired during execution";
}

abbrev interrupted_target : RunTarget → RunTarget
interrupted_target t = record t { status = RunTargetStatus.interrupted; finished_at = some 50 }

abbrev recovered_db : Db
recovered_db = record lost_db {
  worker_leases = [];
  runs = interrupted_run ∷ [];
  run_targets =
      interrupted_target (target_on 70 2 RunTargetStatus.pending)
      ∷ interrupted_target (target_on 71 3 RunTargetStatus.pending)
      ∷ [];
  host_execution_locks = other_lock ∷ [];
}

recovers_lost : recover_stale 50 lost_db ≡ ok (1, recovered_db)
unfolding recover_stale
recovers_lost = refl

recover_stale_interrupts_example :
    All
      (λ l.
        (exists_where (runs_for l.worker_id) recovered_db.runs ≡ false)
        × All
            (λ r.
              (exists_where
                  (λ t. t.run_id == r.run_id && is_unfinished t.status)
                  recovered_db.run_targets
                ≡ false)
              × (exists_where (lock_of_run r.run_id) recovered_db.host_execution_locks ≡ false))
            (rows_where (runs_for l.worker_id) lost_db.runs))
      (rows_where (λ l. leb l.expires_at 50) lost_db.worker_leases)
recover_stale_interrupts_example = recover_stale_interrupts 50 1 lost_db recovered_db recovers_lost
