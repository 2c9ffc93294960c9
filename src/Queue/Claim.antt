-- ===== src/Queue/Claim.antt =====
-- backend/src/ops_composer/repositories/runs.py: worker leases, and how a worker claims the next run
-- and the locks of its hosts.
use ops_composer.Prelude.{
  ℕ, String, Bool, not, Option, none, some, List, [], ◌∷◌, map, ◌&&◌, ◌||◌, ◌==◌, ltb, text_eq,
  is_set, if◌then◌else◌, rows_where, update_where, exists_where, order_by, first, length,
}
use ops_composer.Db.{Db, HostLock, Tx, ok, err, return, modify, ◌>>=◌, ◌>>◌}
use ops_composer.Domain.Errors.{claim_collision}
use ops_composer.Domain.Ops.{Run, RunStatus, RunTarget, WorkerLease}
use ops_composer.Locks.{take_locks}
use ops_composer.Queue.Store.{has_run_id, target_of, is_queued}

-- INSERT … ON CONFLICT (worker_id) DO UPDATE SET (every column)
put_lease : WorkerLease → List WorkerLease → List WorkerLease
put_lease new [] = new ∷ []
put_lease new (l ∷ ls) =
    if text_eq l.worker_id new.worker_id then new ∷ ls else l ∷ put_lease new ls

abbrev pub lock_of_worker : String → HostLock → Bool
lock_of_worker worker_id l = text_eq l.owner_id worker_id && is_set l.run_id

unfoldable pub heartbeat : String → Option ℕ → ℕ → ℕ → Tx (Unit {0})
unfolding put_lease update_where
heartbeat worker_id run_id now expires_at = modify (λ db. record db {
  worker_leases =
      put_lease
        (record {
          worker_id = worker_id;
          run_id = run_id;
          heartbeat_at = now;
          expires_at = expires_at;
        })
        db.worker_leases;
  host_execution_locks =
      update_where (lock_of_worker worker_id) (λ l. record l { expires_at = expires_at })
        db.host_execution_locks;
})

-- A target's host is locked, and the lock has not expired.
unfoldable pub is_busy : ℕ → List HostLock → RunTarget → Bool
unfolding exists_where
is_busy now locks rt = exists_where (λ hl. hl.host_id == rt.host_id && ltb now hl.expires_at) locks

unfoldable pub claimable : ℕ → Db → Run → Bool
unfolding exists_where is_busy
claimable now db r =
    is_queued r.status
    && not (
        exists_where (λ rt. target_of r.run_id rt && is_busy now db.host_execution_locks rt)
          db.run_targets)

-- ORDER BY created_at, run_id
abbrev pub older : Run → Run → Bool
older r s = ltb r.created_at s.created_at || (r.created_at == s.created_at && ltb r.run_id s.run_id)

-- FOR UPDATE SKIP LOCKED: `skipped` are the rows that other open transactions hold.
unfoldable pub candidate : (Run → Bool) → ℕ → Db → Option Run
unfolding claimable rows_where order_by
candidate skipped now db =
    first (order_by older (rows_where (λ r. claimable now db r && not (skipped r)) db.runs))

unfoldable pub set_preparing : String → ℕ → Run → Run
set_preparing worker_id now r = record r {
  status = RunStatus.preparing;
  claimed_by = some worker_id;
  claimed_at = some now;
  started_at = some now;
  updated_at = now;
}

-- The first statement of `claim_next`; other transactions may commit between it and `lock_hosts`.
unfoldable pub claim_row : (Run → Bool) → String → ℕ → Tx (Option Run)
unfolding candidate set_preparing update_where
claim_row skipped worker_id now db = elim (candidate skipped now db) [
  | none ↦ ok (none, db)
  | some r ↦ ok (
    some (set_preparing worker_id now r),
    record db { runs = update_where (has_run_id r.run_id) (set_preparing worker_id now) db.runs },
  )
]

abbrev pub run_lock : ℕ → String → ℕ → ℕ → ℕ → HostLock
run_lock run_id worker_id now expires_at host_id = record {
  host_id = host_id;
  run_id = some run_id;
  owner_id = worker_id;
  acquired_at = now;
  expires_at = expires_at;
  web_shell_session_id = none;
}

-- SELECT host_id FROM run_targets WHERE run_id = … ORDER BY host_id
unfoldable pub hosts_of : ℕ → List RunTarget → List ℕ
unfolding rows_where order_by
hosts_of run_id ts = order_by ltb (map (λ t. t.host_id) (rows_where (target_of run_id) ts))

-- The other statements of `claim_next`: lock every host of the run, or roll the claim back.
unfoldable pub lock_hosts : ℕ → String → ℕ → ℕ → Tx (Unit {0})
unfolding hosts_of take_locks rows_where
lock_hosts run_id worker_id now expires_at db =
    let new = run_lock run_id worker_id now expires_at in
    let (locked_rows, locks) =
      take_locks new now (hosts_of run_id db.run_targets) db.host_execution_locks in
    let expected = length (rows_where (target_of run_id) db.run_targets) in
    if length locked_rows == expected
    then ok (tt, record db { host_execution_locks = locks })
    else err claim_collision

-- What follows the first statement: no row, no claim.
unfoldable pub lock_claimed : String → ℕ → ℕ → Option Run → Tx (Option Run)
unfolding lock_hosts
lock_claimed worker_id now lease_expires_at none = return none
lock_claimed worker_id now lease_expires_at (some run) = do
  lock_hosts run.run_id worker_id now lease_expires_at
  return (some run)

unfoldable pub claim_next : (Run → Bool) → String → ℕ → ℕ → Tx (Option Run)
unfolding claim_row lock_claimed
claim_next skipped worker_id now lease_expires_at = do
  row ← claim_row skipped worker_id now
  lock_claimed worker_id now lease_expires_at row
