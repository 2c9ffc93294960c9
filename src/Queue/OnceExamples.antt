-- ===== src/Queue/OnceExamples.antt =====
-- Two claims of the queue, at concrete databases.
use ops_composer.Prelude.{◌≡◌, ◌≢◌, refl, none, some, [], ◌∷◌, first_where}
use ops_composer.Db.{Db, ok}
use ops_composer.Domain.Ops.{Run, RunStatus, RunTargetStatus}
use ops_composer.Queue.Claim.{run_lock, claim_next}
use ops_composer.Queue.Lifecycle.{recover_stale}
use ops_composer.Queue.Settled.{IsSettled}
use ops_composer.Queue.Steps.{here, next, recovered}
use ops_composer.Queue.Once.{claim_next_once}
use ops_composer.Samples.{run_with, queued_db, queued_run, nobody, other_lock, target_on}

abbrev claimed_run : Run
claimed_run = record queued_run {
  status = RunStatus.preparing;
  claimed_by = some "w";
  claimed_at = some 10;
  started_at = some 10;
  updated_at = 10;
}

-- A second run, over another host, which a second worker claims.
abbrev second_run : Run
second_run = record (run_with 8 RunStatus.queued none 6) { idempotency_key = "key-0002" }

abbrev two_db : Db
two_db = record queued_db {
  runs = queued_run ∷ second_run ∷ [];
  run_targets =
      target_on 70 2 RunTargetStatus.pending
      ∷ target_on 71 3 RunTargetStatus.pending
      ∷ record (target_on 80 5 RunTargetStatus.pending) { run_id = 8 }
      ∷ [];
}

two_db-IsSettled : IsSettled two_db
unfolding first_where
two_db-IsSettled = record {
  keyed = (refl, (refl, tt));
  settled = ((λ e. cc, λ _. refl), ((λ e. cc, λ _. refl), ((λ e. cc, λ _. refl), tt)));
}

abbrev one_claimed_db : Db
one_claimed_db = record two_db {
  runs = claimed_run ∷ second_run ∷ [];
  host_execution_locks = other_lock ∷ run_lock 7 "w" 10 40 2 ∷ run_lock 7 "w" 10 40 3 ∷ [];
}

claims_first : claim_next nobody "w" 10 40 two_db ≡ ok (some claimed_run, one_claimed_db)
unfolding claim_next
claims_first = refl

recovers_none : recover_stale 11 one_claimed_db ≡ ok (0, one_claimed_db)
unfolding recover_stale
recovers_none = refl

abbrev second_claimed : Run
second_claimed = record second_run {
  status = RunStatus.preparing;
  claimed_by = some "v";
  claimed_at = some 12;
  started_at = some 12;
  updated_at = 12;
}

abbrev both_claimed_db : Db
both_claimed_db = record one_claimed_db {
  runs = claimed_run ∷ second_claimed ∷ [];
  host_execution_locks =
      other_lock ∷ run_lock 7 "w" 10 40 2 ∷ run_lock 7 "w" 10 40 3 ∷ run_lock 8 "v" 12 42 5 ∷ [];
}

claims_second :
    claim_next nobody "v" 12 42 one_claimed_db ≡ ok (some second_claimed, both_claimed_db)
unfolding claim_next
claims_second = refl

claim_next_once_example : second_claimed.run_id ≢ claimed_run.run_id
claim_next_once_example =
    claim_next_once nobody nobody "w" "v" 10 40 12 42 two_db one_claimed_db one_claimed_db
      both_claimed_db claimed_run second_claimed two_db-IsSettled claims_first
      (next here (recovered 11 0 recovers_none)) claims_second
