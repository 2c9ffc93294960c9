-- ===== src/Queue/Released.antt =====
-- About what `finish` and `recover_stale` of repositories/runs.py leave.
use ops_composer.Prelude.{
  ℕ, String, ◌≡◌, refl, Bool, true, false, Option, none, some, List, ◌&&◌, ◌||◌, inl, inr, arith,
  ◌==◌, ==_iff, ==_refl, leb, holds_text, if◌then◌else◌, Bool-cases, All, All-map, All-any,
  All-exists_where, All-rows_where, exists_where, exists_where-delete_where,
  exists_where-update_where_none, exists_where-rows_where, delete_where, update_where, rows_where,
}
use ops_composer.Db.{Db, HostLock, ok}
use ops_composer.Domain.Ops.{Run, RunStatus, RunTarget, RunTargetStatus, WorkerLease}
use ops_composer.Queue.Store.{has_run_id}
use ops_composer.Queue.Lifecycle.{
  Outcome, lock_of_run, finish, is_stale, is_abandoned, is_open, end_target, set_interrupted, among,
  lock_among, recover_stale,
}

-- After a run is finished, no host is locked by it.
pub finish_releases :
    (run_id : ℕ) (worker_id : String) (o : Outcome) (now : ℕ) (db db' : Db) (x : Option Run)
    → finish run_id worker_id o now db ≡ ok (x, db')
    → exists_where (lock_of_run run_id) db'.host_execution_locks ≡ false
unfolding finish
finish_releases run_id worker_id o now db db' x h =
    let left : db'.host_execution_locks
        ≡ delete_where (lock_of_run run_id) db.host_execution_locks =
      ground (arith, h) in
    rw left (
      exists_where-delete_where (lock_of_run run_id) (lock_of_run run_id) (λ l e. e)
        db.host_execution_locks)

-- A target that has not ended.
abbrev pub is_unfinished : RunTargetStatus → Bool
is_unfinished RunTargetStatus.pending = true
is_unfinished RunTargetStatus.running = true
is_unfinished _ = false

-- A worker's run: PREPARING or RUNNING, and claimed by the worker.
abbrev pub runs_for : String → Run → Bool
runs_for worker_id r =
    holds_text r.claimed_by worker_id
    && elim r.status [ RunStatus.preparing ↦ true | RunStatus.running ↦ true | _ ↦ false ]

module _ (now n : ℕ) (db db' : Db) (done : recover_stale now db ≡ ok (n, db')) where
  abbrev lost : List WorkerLease
  lost = rows_where (is_stale now) db.worker_leases

  abbrev interrupted : List Run
  interrupted = rows_where (is_abandoned lost) db.runs

  recover_stale_parts :
      (db'.runs ≡ update_where (is_abandoned lost) (set_interrupted now) db.runs)
      × (db'.run_targets
          ≡ update_where
              (λ t. among interrupted t.run_id && is_open t.status)
              (end_target RunTargetStatus.interrupted now)
              db.run_targets)
      × (db'.host_execution_locks
          ≡ delete_where
              (λ l. leb l.expires_at now || lock_among interrupted l)
              db.host_execution_locks)
  unfolding recover_stale
  recover_stale_parts = ground (arith, done)

  abbrev IsNamed : String → Type 0
  IsNamed worker_id =
      (p : String → Bool)
      → p worker_id ≡ true
      → exists_where (λ (l : WorkerLease). p l.worker_id) lost ≡ true

  named-is_abandoned :
      (worker_id : String) (r : Run)
      → IsNamed worker_id
      → runs_for worker_id r ≡ true
      → is_abandoned lost r ≡ true
  unfolding is_abandoned
  named-is_abandoned worker_id r named h =
      let held : holds_text r.claimed_by worker_id ≡ true = ground (arith, h) in
      ground (arith, h, named (holds_text r.claimed_by) held)

  -- The worker of an expired lease runs nothing afterwards.
  named-stops :
      (worker_id : String) → IsNamed worker_id → exists_where (runs_for worker_id) db'.runs ≡ false
  named-stops worker_id named = rw recover_stale_parts.0 (
      exists_where-update_where_none (runs_for worker_id) (is_abandoned lost) (set_interrupted now)
        db.runs (All-any _ row db.runs))
    where
      row :
          (r : Run)
          → runs_for worker_id (if is_abandoned lost r then set_interrupted now r else r) ≡ false
      row r = elim (Bool-cases (is_abandoned lost r)) [
        | inl gone ↦ rw gone (ground arith)
        | inr stays ↦ rw stays (elim (Bool-cases (runs_for worker_id r)) [
          | inl e ↦ cc (named-is_abandoned worker_id r named e, stays)
          | inr e ↦ e
        ])
      ]

  -- A run that was interrupted has no open target and no lock.
  interrupted-released :
      (run_id : ℕ)
      → among interrupted run_id ≡ true
      → (exists_where (λ t. t.run_id == run_id && is_unfinished t.status) db'.run_targets ≡ false)
        × (exists_where (lock_of_run run_id) db'.host_execution_locks ≡ false)
  interrupted-released run_id h =
      let (_, targets, locks) = recover_stale_parts in
      (
        rw targets (
            exists_where-update_where_none (λ t. t.run_id == run_id && is_unfinished t.status) _ _
              db.run_targets (All-any _ row db.run_targets)),
        rw locks (
            exists_where-delete_where (lock_of_run run_id)
              (λ l. leb l.expires_at now || lock_among interrupted l)
              (λ l e. lock l l.run_id refl e) db.host_execution_locks),
      )
    where
      row :
          (t : RunTarget)
          → (let u =
                if among interrupted t.run_id && is_open t.status
                then end_target RunTargetStatus.interrupted now t
                else t in
              u.run_id == run_id && is_unfinished u.status)
            ≡ false
      row t = elim (Bool-cases (t.run_id == run_id)) [
        | inl mine ↦
            let here : among interrupted t.run_id ≡ true = rw ((==_iff t.run_id run_id).0 mine) h in
            elim (Bool-cases (is_open t.status)) [
              | inl open_target ↦ rw (here, open_target) (ground arith)
              | inr ended ↦ rw (here, ended) (ground (arith, ended))
            ]
        | inr other ↦ elim (Bool-cases (among interrupted t.run_id && is_open t.status)) [
          | inl e ↦ rw e (ground (arith, other))
          | inr e ↦ rw e (ground (arith, other))
        ]
      ]

      lock :
          (l : HostLock) (o : Option ℕ)
          → l.run_id ≡ o
          → lock_of_run run_id l ≡ true
          → (leb l.expires_at now || lock_among interrupted l) ≡ true
      lock l none e k = ground (arith, rw e at k)
      lock l (some i) e k =
          let same : (i == run_id) ≡ true = rw e at k in
          let here : among interrupted i ≡ true = rw ((==_iff i run_id).0 same) h in
          rw e (ground (arith, here))

  -- After stale runs are recovered: the worker of a lease that had expired runs nothing, and a run that
  -- it was preparing or running has neither a pending or running target nor a host lock.
  pub recover_stale_interrupts :
      All
        (λ l.
          (exists_where (runs_for l.worker_id) db'.runs ≡ false)
          × All
              (λ r.
                (exists_where (λ t. t.run_id == r.run_id && is_unfinished t.status) db'.run_targets
                  ≡ false)
                × (exists_where (lock_of_run r.run_id) db'.host_execution_locks ≡ false))
              (rows_where (runs_for l.worker_id) db.runs))
        (rows_where (λ l. leb l.expires_at now) db.worker_leases)
  recover_stale_interrupts =
      All-map _ _ lost
        (λ l self.
          let named : IsNamed l.worker_id = λ p e. self (λ m. p m.worker_id) e in
          (
            named-stops l.worker_id named,
            All-rows_where _ (runs_for l.worker_id) db.runs (
                All-map _ _ db.runs
                  (λ r self' mine.
                    interrupted-released r.run_id (member l.worker_id named r self' mine))
                  (All-exists_where db.runs)),
          ))
        (All-exists_where lost)
    where
      member :
          (worker_id : String)
          → IsNamed worker_id
          → (r : Run) → ((p : Run → Bool) → p r ≡ true → exists_where p db.runs ≡ true)
          → runs_for worker_id r ≡ true
          → among interrupted r.run_id ≡ true
      member worker_id named r self mine =
          unfold among in
          exists_where-rows_where (has_run_id r.run_id) (is_abandoned lost) db.runs (
            self (λ s. has_run_id r.run_id s && is_abandoned lost s)
              (rw (==_refl r.run_id, named-is_abandoned worker_id r named mine) refl))
