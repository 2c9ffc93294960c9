-- ===== src/Queue/Keeps.antt =====
-- `mark_running`, `request_cancel`, `claim_next` and `finish_target` of repositories/runs.py against
-- the agreement of the tables.
use ops_composer.Prelude.{
  ℕ, String, ◌≡◌, refl, subst, Bool, true, false, Option, none, some, ◌&&◌, inl, inr, arith, ◌==◌,
  ==_iff, if◌then◌else◌, Bool-cases, All, All-both, All-update_where, first_where,
  first_where_holds,
}
use ops_composer.Db.{Db, ok, After}
use ops_composer.Domain.Ops.{Run, RunTarget, RunTargetStatus}
use ops_composer.Queue.Store.{
  has_run_id, run_of, is_queued, is_pending, is_canceled, cancelable, set_cancel, cancel_found,
  request_cancel,
}
use ops_composer.Queue.Claim.{set_preparing, claim_next}
use ops_composer.Queue.HostLocks.{claim_next_parts, claim_row-some, lock_hosts_done}
use ops_composer.Queue.Lifecycle.{
  is_open, is_preparing, set_running, start_target, mark_running, TargetOutcome, set_target,
  finish_target,
}
use ops_composer.Queue.Settled.{
  Agrees, IsSettled, keyed_row, same_row, own_id, update_runs-IsKeyed, update_both-Settled,
  update_runs-Settled,
}

-- `mark_running` on a run that is not queued.
pub mark_running-IsSettled :
    (run_id now : ℕ) (db : Db)
    → ((r : Run) → run_of run_id db ≡ some r → is_queued r.status ≡ false)
    → IsSettled db
    → After IsSettled (mark_running run_id now db)
unfolding mark_running run_of
mark_running-IsSettled run_id now db claimed s = record {
  keyed = update_runs-IsKeyed p (set_running now) (λ r. refl) db.runs s.keyed;
  settled =
      update_both-Settled p (set_running now) (λ r. refl) q (start_target now) (λ t. refl) db.runs
        db.run_targets step s.settled;
}
  where
    p : Run → Bool
    p r = r.run_id == run_id && is_preparing r.status

    q : RunTarget → Bool
    q t = t.run_id == run_id && is_pending t.status

    step :
        (r : Run) (t : RunTarget)
        → first_where (has_run_id t.run_id) db.runs ≡ some r
        → Agrees (some r) t
        → Agrees
            (some (if p r then set_running now r else r))
            (if q t then start_target now t else t)
    step r t found h = elim (Bool-cases (t.run_id == run_id)) [
      | inl same ↦
          let e : t.run_id ≡ run_id = (==_iff t.run_id run_id).0 same in
          let live : is_queued r.status ≡ false = claimed r (rw e at found) in
          ground (arith, live, same)
      | inr other ↦ ground (
        arith,
        other,
        (==_iff r.run_id t.run_id).0 (first_where_holds (has_run_id t.run_id) db.runs found),
      )
    ]

module _ (run_id now : ℕ) (db : Db) (s : IsSettled db) where
  cancel-Step :
      (before : Run)
      → first_where (cancelable run_id) db.runs ≡ some before
      → (r : Run) (t : RunTarget) → first_where (has_run_id t.run_id) db.runs ≡ some r
      → Agrees (some r) t
      → Agrees (some (if cancelable run_id r then set_cancel now r else r)) (
          if is_canceled (set_cancel now before).status
          then (if t.run_id == run_id && is_pending t.status
              then record t { status = RunTargetStatus.canceled; finished_at = some now }
              else t)
          else t)
  unfolding set_cancel
  cancel-Step before e r t found h = elim (Bool-cases (t.run_id == run_id)) [
    | inl same ↦
        let mine : cancelable run_id before ≡ true =
          first_where_holds (cancelable run_id) db.runs e in
        let at : before.run_id ≡ run_id = ground (arith, mine) in
        let row : first_where (has_run_id run_id) db.runs ≡ some before =
          subst (λ i. first_where (has_run_id i) db.runs ≡ some before) at
            (keyed_row db.runs (cancelable run_id) s.keyed e) in
        let one : r ≡ before = same_row db.runs t.run_id run_id same found row in
        let own : (r.run_id == run_id) ≡ true = rw (own_id db.runs t.run_id found) same in
        subst
          (λ x. Agrees (some (if cancelable run_id r then set_cancel now r else r)) (
            if is_canceled (set_cancel now x).status
            then (if t.run_id == run_id && is_pending t.status
                then record t { status = RunTargetStatus.canceled; finished_at = some now }
                else t)
            else t))
          one (ground (arith, same, own))
    | inr other ↦ ground (arith, other, own_id db.runs t.run_id found)
  ]

  cancel_found-IsSettled :
      (o : Option Run)
      → first_where (cancelable run_id) db.runs ≡ o
      → After IsSettled (cancel_found run_id now o db)
  unfolding cancel_found
  cancel_found-IsSettled none e = s
  cancel_found-IsSettled (some before) e = record {
    keyed = update_runs-IsKeyed (cancelable run_id) (set_cancel now) (λ r. refl) db.runs s.keyed;
    settled = elim (Bool-cases (is_canceled (set_cancel now before).status)) [
      | inl stops ↦ rw stops (
          update_both-Settled (cancelable run_id) (set_cancel now) (λ r. refl)
            (λ t. t.run_id == run_id && is_pending t.status)
            (λ t. record t { status = RunTargetStatus.canceled; finished_at = some now })
            (λ t. refl) db.runs db.run_targets
            (λ r t found h. rw stops at (cancel-Step before e r t found h)) s.settled)
      | inr runs_on ↦ rw runs_on (
          update_runs-Settled (cancelable run_id) (set_cancel now) (λ r. refl) db.runs
            db.run_targets (λ r t found h. rw runs_on at (cancel-Step before e r t found h))
            s.settled)
    ];
  }

  -- `request_cancel`, whatever the run's status.
  pub request_cancel-IsSettled : After IsSettled (request_cancel run_id now db)
  unfolding request_cancel
  request_cancel-IsSettled = cancel_found-IsSettled (first_where (cancelable run_id) db.runs) refl

-- A claim that returns: the run it takes was queued, and its targets wait on.
pub claim_next-IsSettled :
    (skipped : Run → Bool) (worker_id : String) (now expires_at : ℕ) (db : Db)
    → IsSettled db
    → (run : Run) (db' : Db) → claim_next skipped worker_id now expires_at db ≡ ok (some run, db')
    → IsSettled db'
unfolding set_preparing
claim_next-IsSettled skipped worker_id now expires_at db s run db' claimed =
    let (mid, row, locked) = claim_next_parts skipped worker_id now expires_at db db' run claimed in
    let (r, _, _, left) = claim_row-some skipped worker_id now db mid run row in
    let (_, _, same_targets, same_runs) =
      lock_hosts_done run.run_id worker_id now expires_at mid db' locked in
    record {
      keyed =
          rw (same_runs, left)
            (update_runs-IsKeyed (has_run_id r.run_id) (set_preparing worker_id now) (λ r. refl)
              db.runs s.keyed);
      settled =
          rw (same_targets, same_runs, left)
            (update_runs-Settled (has_run_id r.run_id) (set_preparing worker_id now) (λ r. refl)
              db.runs db.run_targets (λ r' t found h. ground (arith, h)) s.settled);
    }

-- `finish_target` with a final status, for a host whose run is not queued.
pub finish_target-IsSettled :
    (run_target_id : ℕ) (o : TargetOutcome) (now : ℕ) (db : Db)
    → is_open o.status ≡ false
    → All
        (λ t.
          (t.run_target_id == run_target_id) ≡ true
          → (r : Run) → run_of t.run_id db ≡ some r
          → is_queued r.status ≡ false)
        db.run_targets
    → IsSettled db
    → After IsSettled (finish_target run_target_id o now db)
unfolding finish_target run_of
finish_target-IsSettled run_target_id o now db closed claimed s = record {
  keyed = s.keyed;
  settled =
      All-update_where
        (λ t.
          Agrees (first_where (has_run_id t.run_id) db.runs) t
          × ((t.run_target_id == run_target_id) ≡ true
              → (r : Run) → run_of t.run_id db ≡ some r
              → is_queued r.status ≡ false))
        (λ t. Agrees (first_where (has_run_id t.run_id) db.runs) t)
        (λ t. t.run_target_id == run_target_id) (set_target o now) db.run_targets
        (λ t h. reported t (first_where (has_run_id t.run_id) db.runs) refl h.0 h.1)
        (All-both _ _ db.run_targets s.settled claimed);
}
  where
    reported :
        (t : RunTarget) (found : Option Run)
        → first_where (has_run_id t.run_id) db.runs ≡ found
        → Agrees found t
        → ((t.run_target_id == run_target_id) ≡ true
            → (r : Run) → first_where (has_run_id t.run_id) db.runs ≡ some r
            → is_queued r.status ≡ false)
        → let t' = if t.run_target_id == run_target_id then set_target o now t else t in
          Agrees (first_where (has_run_id t'.run_id) db.runs) t'
    reported t none e bad k = absurd bad
    reported t (some r) e h k = elim (Bool-cases (t.run_target_id == run_target_id)) [
      | inl mine ↦ simp (mine, e) (ground (arith, closed, k mine r e))
      | inr other ↦ simp (other, e) h
    ]
