-- ===== src/Queue/Ends.antt =====
-- `finish` and `recover_stale` of repositories/runs.py against the agreement of the tables.
use ops_composer.Prelude.{
  ℕ, String, ◌≡◌, refl, sym, subst, Bool, true, false, some, List, ◌&&◌, inl, inr, arith, ◌==◌,
  if◌then◌else◌, Bool-cases, All, All-map, All-both, All-rows_where, All-rows_where_self,
  All-first_where, first_where, first_where_holds, first_where_of_exists, first_where-rows_where,
  exists_of_first_where, rows_where, exists_where,
}
use ops_composer.Db.{Db, After}
use ops_composer.Domain.Ops.{Run, RunStatus, RunTarget, RunTargetStatus, is_terminal}
use ops_composer.Queue.Store.{has_run_id}
use ops_composer.Queue.Lifecycle.{
  is_open, Outcome, owned_by, set_finished, end_target, fallback_target_status, finish, is_stale,
  is_abandoned, set_interrupted, among, recover_stale,
}
use ops_composer.Queue.Settled.{
  Agrees, IsKeyed, IsSettled, keyed_row, same_row, own_id, update_runs-IsKeyed, update_both-Settled,
}

fallback_closed : (s : RunStatus) → is_open (fallback_target_status s) ≡ false
fallback_closed s = ground arith

-- A worker that owns the run ends it, with a terminal status.
pub finish-IsSettled :
    (run_id : ℕ) (worker_id : String) (o : Outcome) (now : ℕ) (db : Db) (owned : Run)
    → first_where (owned_by run_id worker_id) db.runs ≡ some owned
    → is_terminal o.status ≡ true
    → IsSettled db
    → After IsSettled (finish run_id worker_id o now db)
unfolding finish
finish-IsSettled run_id worker_id o now db owned row ends s = record {
  keyed =
      update_runs-IsKeyed (owned_by run_id worker_id) (set_finished o now) (λ r. refl) db.runs
        s.keyed;
  settled =
      update_both-Settled (owned_by run_id worker_id) (set_finished o now) (λ r. refl)
        (λ t. t.run_id == run_id && is_open t.status)
        (end_target (fallback_target_status o.status) now) (λ t. refl) db.runs db.run_targets step
        s.settled;
}
  where
    mine : owned_by run_id worker_id owned ≡ true
    mine = first_where_holds (owned_by run_id worker_id) db.runs row

    id : owned.run_id ≡ run_id
    id = ground (arith, mine)

    step :
        (r : Run) (t : RunTarget)
        → first_where (has_run_id t.run_id) db.runs ≡ some r
        → Agrees (some r) t
        → Agrees (some (if owned_by run_id worker_id r then set_finished o now r else r)) (
            if t.run_id == run_id && is_open t.status
            then end_target (fallback_target_status o.status) now t
            else t)
    step r t found h = elim (Bool-cases (t.run_id == run_id)) [
      | inl same ↦
          let one : r ≡ owned = same_row db.runs t.run_id run_id same found (
            subst (λ i. first_where (has_run_id i) db.runs ≡ some owned) id
              (keyed_row db.runs (owned_by run_id worker_id) s.keyed row)) in
          let chosen : owned_by run_id worker_id r ≡ true =
            subst (λ x. owned_by run_id worker_id x ≡ true) (sym one) mine in
          rw chosen (ground (arith, same, ends, fallback_closed o.status))
      | inr other ↦ ground (arith, other, own_id db.runs t.run_id found)
    ]

-- A row is among the selected exactly when the row of its id is selected.
among-rows_where :
    (runs : List Run) (p : Run → Bool) (run_id : ℕ) (r : Run)
    → IsKeyed runs
    → first_where (has_run_id run_id) runs ≡ some r
    → among (rows_where p runs) run_id ≡ p r
unfolding among
among-rows_where runs p run_id r keyed found = elim (Bool-cases (p r)) [
  | inl e ↦ rw e (
      exists_of_first_where (has_run_id run_id) (rows_where p runs)
        (first_where-rows_where (has_run_id run_id) p runs found e))
  | inr e ↦ rw e (none_among e)
]
  where
    both :
        All
          (λ s. (p s ≡ true) × (first_where (has_run_id s.run_id) runs ≡ some s))
          (rows_where p runs)
    both = All-both _ _ (rows_where p runs) (All-rows_where_self p runs) (
        All-rows_where (λ s. first_where (has_run_id s.run_id) runs ≡ some s) p runs
          (All-map _ _ runs (λ s h _. h) keyed))

    none_among : p r ≡ false → exists_where (has_run_id run_id) (rows_where p runs) ≡ false
    none_among e = elim (Bool-cases (exists_where (has_run_id run_id) (rows_where p runs))) [
      | inl there ↦
          let (s, row) = first_where_of_exists (has_run_id run_id) (rows_where p runs) there in
          let (chosen, at) =
            All-first_where (λ s. (p s ≡ true) × (first_where (has_run_id s.run_id) runs ≡ some s))
              (has_run_id run_id) (rows_where p runs) row both in
          let own : (s.run_id == run_id) ≡ true =
            first_where_holds (has_run_id run_id) (rows_where p runs) row in
          let one : s ≡ r = same_row runs s.run_id run_id own at found in cc (one, chosen, e)
      | inr absent ↦ absent
    ]

-- The recovery of stale workers' runs.
pub recover_stale-IsSettled :
    (now : ℕ) (db : Db) → IsSettled db → After IsSettled (recover_stale now db)
unfolding recover_stale
recover_stale-IsSettled now db s = record {
  keyed = update_runs-IsKeyed p (set_interrupted now) (λ r. refl) db.runs s.keyed;
  settled =
      update_both-Settled p (set_interrupted now) (λ r. refl)
        (λ t. among (rows_where p db.runs) t.run_id && is_open t.status)
        (end_target RunTargetStatus.interrupted now) (λ t. refl) db.runs db.run_targets
        (λ r t found h. ground (arith, among-rows_where db.runs p t.run_id r s.keyed found))
        s.settled;
}
  where
    p : Run → Bool
    p = is_abandoned (rows_where (is_stale now) db.worker_leases)
