-- ===== src/Queue/HostLocks.antt =====
-- About the host locks that `claim_next` of repositories/runs.py takes.
use ops_composer.Prelude.{
  ℕ, ◌<◌, String, ◌≡◌, refl, ap, subst, ◌∙◌, Bool, Option, none, some, List, map, inl, inr, arith,
  ltb, All, length, rows_where, update_where, Option-cases, length-order_by, order_by-All,
  length-map, map-All,
}
use ops_composer.Db.{Db, HostLock, ok, return, >>=-eq-ok}
use ops_composer.Domain.Ops.{Run, RunTarget}
use ops_composer.Locks.{take_locks, lock_of}
use ops_composer.Locks.Upsert.{take_locks_keep, take_locks-All}
use ops_composer.Queue.Store.{has_run_id, target_of}
use ops_composer.Queue.Claim.{
  run_lock, hosts_of, set_preparing, candidate, lock_hosts, claim_row, lock_claimed, claim_next,
}

length-hosts_of :
    (run_id : ℕ) (ts : List RunTarget)
    → length (hosts_of run_id ts) ≡ length (rows_where (target_of run_id) ts)
unfolding hosts_of
length-hosts_of run_id ts =
    length-order_by ltb (map (λ t. t.host_id) (rows_where (target_of run_id) ts))
    ∙ length-map (λ t. t.host_id) (rows_where (target_of run_id) ts)

-- What holds of the run's hosts holds of its targets' hosts.
hosts_of-All :
    (P : ℕ → Type 0) (run_id : ℕ) (ts : List RunTarget)
    → All P (hosts_of run_id ts)
    → All (λ t. P t.host_id) (rows_where (target_of run_id) ts)
unfolding hosts_of
hosts_of-All P run_id ts h =
    map-All P (λ t. t.host_id) (rows_where (target_of run_id) ts)
      (order_by-All P ltb (map (λ t. t.host_id) (rows_where (target_of run_id) ts)) h)

module _ (run_id : ℕ) (worker_id : String) (now expires_at : ℕ) (db db' : Db)
    (done : lock_hosts run_id worker_id now expires_at db ≡ ok (tt, db')) where
  abbrev new : ℕ → HostLock
  new = run_lock run_id worker_id now expires_at

  -- The statement that commits: as many rows as targets, and the table it leaves.
  pub lock_hosts_done :
      (length (take_locks new now (hosts_of run_id db.run_targets) db.host_execution_locks).0
        ≡ length (hosts_of run_id db.run_targets))
      × (db'.host_execution_locks
          ≡ (take_locks new now (hosts_of run_id db.run_targets) db.host_execution_locks).1)
      × (db'.run_targets ≡ db.run_targets)
      × (db'.runs ≡ db.runs)
  unfolding lock_hosts
  lock_hosts_done = ground (arith, done, length-hosts_of run_id db.run_targets)

  -- Every host of the run is locked by it.
  lock_hosts-All :
      now < expires_at
      → All
          (λ t. lock_of t.host_id db'.host_execution_locks ≡ some (new t.host_id))
          (rows_where (target_of run_id) db.run_targets)
  lock_hosts-All fresh =
      let (count, table, _, _) = lock_hosts_done in
      hosts_of-All (λ h. lock_of h db'.host_execution_locks ≡ some (new h)) run_id db.run_targets
        (rw table (
          take_locks-All new now (λ h. refl) (λ h. fresh) (hosts_of run_id db.run_targets)
            db.host_execution_locks count))

  -- No lock that has not expired changes.
  lock_hosts_keep :
      (g : ℕ) (l : HostLock)
      → lock_of g db.host_execution_locks ≡ some l
      → now < l.expires_at
      → lock_of g db'.host_execution_locks ≡ some l
  lock_hosts_keep g l found live =
      let (_, table, _, _) = lock_hosts_done in
      rw table (
        take_locks_keep new now (λ h. refl) (hosts_of run_id db.run_targets) db.host_execution_locks
          g l found live)

lock_claimed-some :
    (worker_id : String) (now expires_at : ℕ) (o : Option Run) (mid db' : Db) (run : Run)
    → lock_claimed worker_id now expires_at o mid ≡ ok (some run, db')
    → (o ≡ some run) × (lock_hosts run.run_id worker_id now expires_at mid ≡ ok (tt, db'))
unfolding lock_claimed
lock_claimed-some worker_id now expires_at none mid db' run h = cc
lock_claimed-some worker_id now expires_at (some r) mid db' run h =
    let (_, end, locked, back) =
      >>=-eq-ok (lock_hosts r.run_id worker_id now expires_at) (λ _. return (some r)) mid h in
    let same : r ≡ run = cc in
    let last : end ≡ db' = cc in
    (
      ap some same,
      subst (λ x. lock_hosts x.run_id worker_id now expires_at mid ≡ ok (tt, db')) same
          (rw last at locked),
    )

module _ (skipped : Run → Bool) (worker_id : String) (now expires_at : ℕ) (db db' : Db) (run : Run)
    (claimed : claim_next skipped worker_id now expires_at db ≡ ok (some run, db')) where
  -- The two parts of a claim that returns a run.
  pub claim_next_parts :
      (mid : Db) × (claim_row skipped worker_id now db ≡ ok (some run, mid))
      × (lock_hosts run.run_id worker_id now expires_at mid ≡ ok (tt, db'))
  unfolding claim_next
  claim_next_parts =
      let (o, mid, row, rest) =
        >>=-eq-ok (claim_row skipped worker_id now) (lock_claimed worker_id now expires_at) db
          claimed in
      let (e, locked) = lock_claimed-some worker_id now expires_at o mid db' run rest in
      (mid, rw e at row, locked)

-- What the first statement of a claim did.
pub claim_row-some :
    (skipped : Run → Bool) (worker_id : String) (now : ℕ) (db mid : Db) (run : Run)
    → claim_row skipped worker_id now db ≡ ok (some run, mid)
    → (r : Run) × (candidate skipped now db ≡ some r)
      × (run ≡ set_preparing worker_id now r)
      × (mid ≡ record db {
        runs = update_where (has_run_id r.run_id) (set_preparing worker_id now) db.runs;
      })
unfolding claim_row
claim_row-some skipped worker_id now db mid run h = elim (Option-cases (candidate skipped now db)) [
  | inl no_row ↦ absurd (ground (arith, no_row))
  | inr (r, row) ↦ (r, row, ground (arith, row), ground (arith, row))
]

module _ (skipped : Run → Bool) (worker_id : String) (now expires_at : ℕ) (db db' : Db) (run : Run)
    (claimed : claim_next skipped worker_id now expires_at db ≡ ok (some run, db')) where
  -- A claim that returns a run, with an expiry in the future, has locked the host of each of the run's
  -- targets for the run and the worker, until that expiry.
  pub claim_next_locks :
      now < expires_at
      → All
          (λ t.
            lock_of t.host_id db'.host_execution_locks
            ≡ some (run_lock run.run_id worker_id now expires_at t.host_id))
          (rows_where (target_of run.run_id) db'.run_targets)
  claim_next_locks fresh =
      let (mid, _, locked) = claim_next_parts skipped worker_id now expires_at db db' run claimed in
      let (_, _, same_targets, _) =
        lock_hosts_done run.run_id worker_id now expires_at mid db' locked in
      rw same_targets (lock_hosts-All run.run_id worker_id now expires_at mid db' locked fresh)

  -- A claim that returns a run leaves every host lock that has not expired as it was, so no worker and
  -- no web shell loses a host to it.
  pub claim_next_steals_none :
      (g : ℕ) (l : HostLock)
      → lock_of g db.host_execution_locks ≡ some l
      → now < l.expires_at
      → lock_of g db'.host_execution_locks ≡ some l
  claim_next_steals_none g l found live =
      let (mid, row, locked) =
        claim_next_parts skipped worker_id now expires_at db db' run claimed in
      let (_, _, _, left) = claim_row-some skipped worker_id now db mid run row in
      lock_hosts_keep run.run_id worker_id now expires_at mid db' locked g l
        (ap (λ (d : Db). lock_of g d.host_execution_locks) left ∙ found) live
