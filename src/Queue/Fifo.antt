-- ===== src/Queue/Fifo.antt =====
-- About the order in which `claim_next` of repositories/runs.py takes runs.
use ops_composer.Prelude.{
  ℕ, String, ◌≡◌, Bool, true, false, not, some, ◌&&◌, ◌==◌, ltb, arith, All, All-map,
  All-rows_where, rows_where, exists_where, not_exists_where-All, order_by-least,
}
use ops_composer.Db.{Db, ok}
use ops_composer.Domain.Ops.{Run, RunStatus, RunTarget}
use ops_composer.Queue.Store.{run_of, is_queued, target_of}
use ops_composer.Queue.Settled.{IsKeyed}
use ops_composer.Queue.Machine.{candidate_row}
use ops_composer.Queue.Claim.{older, is_busy, claimable, candidate, set_preparing, claim_next}
use ops_composer.Queue.HostLocks.{claim_next_parts, claim_row-some}

is_queued-eq : (s : RunStatus) → is_queued s ≡ true → s ≡ RunStatus.queued
is_queued-eq s h = ground (arith, h)

older_irrefl : (r : Run) → older r r ≡ false
older_irrefl r = ground arith

older_asym : (r s : Run) → older r s ≡ true → older s r ≡ false
older_asym r s h = ground arith

older_trans : (r s t : Run) → older r s ≡ false → older s t ≡ false → older r t ≡ false
older_trans r s t h k = ground arith

candidate_oldest :
    (skipped : Run → Bool) (now : ℕ) (db : Db) (r : Run)
    → candidate skipped now db ≡ some r
    → All (λ s. older s r ≡ false) (rows_where (λ s. claimable now db s && not (skipped s)) db.runs)
unfolding candidate
candidate_oldest skipped now db r h =
    order_by-least older older_irrefl older_asym older_trans
      (rows_where (λ s. claimable now db s && not (skipped s)) db.runs) r h

-- A run that can be claimed has no target whose host is under an unexpired lock.
claimable-free :
    (now : ℕ) (db : Db) (r : Run)
    → claimable now db r ≡ true
    → All
        (λ t.
          exists_where (λ l. l.host_id == t.host_id && ltb now l.expires_at) db.host_execution_locks
          ≡ false)
        (rows_where (target_of r.run_id) db.run_targets)
unfolding claimable is_busy
claimable-free now db r h =
    let busy = λ (t : RunTarget).
      exists_where (λ l. l.host_id == t.host_id && ltb now l.expires_at) db.host_execution_locks in
    let p = λ (t : RunTarget). target_of r.run_id t && busy t in
    let free : exists_where p db.run_targets ≡ false = ground (arith, h) in
    All-rows_where (λ t. busy t ≡ false) (target_of r.run_id) db.run_targets
      (All-map (λ t. p t ≡ false) (λ t. target_of r.run_id t ≡ true → busy t ≡ false) db.run_targets
        (λ t k own. ground (arith, k, own)) (not_exists_where-All p db.run_targets free))

-- In a table of runs whose ids are distinct: a claim that returns a run takes one that was queued, on
-- none of whose hosts there was an unexpired lock. Of the queued runs whose hosts are free and whose
-- rows no other transaction holds, none precedes it by creation time and then by id.
pub claim_next_oldest :
    (skipped : Run → Bool) (worker_id : String) (now expires_at : ℕ) (db db' : Db) (run : Run)
    → IsKeyed db.runs
    → claim_next skipped worker_id now expires_at db ≡ ok (some run, db')
    → ((before : Run) × (run_of run.run_id db ≡ some before) × (before.status ≡ RunStatus.queued))
      × All
          (λ t.
            exists_where
              (λ l. l.host_id == t.host_id && ltb now l.expires_at)
              db.host_execution_locks
            ≡ false)
          (rows_where (target_of run.run_id) db.run_targets)
      × All
          (λ s. older s run ≡ false)
          (rows_where (λ s. claimable now db s && not (skipped s)) db.runs)
unfolding set_preparing run_of
claim_next_oldest skipped worker_id now expires_at db db' run keyed claimed =
    let (mid, row, _) = claim_next_parts skipped worker_id now expires_at db db' run claimed in
    let (r, chosen, same, _) = claim_row-some skipped worker_id now db mid run row in
    let (at, queued, can) = candidate_row skipped now db r chosen keyed in
    rw same (
      (r, at, is_queued-eq r.status queued),
      claimable-free now db r can,
      candidate_oldest skipped now db r chosen,
    )
