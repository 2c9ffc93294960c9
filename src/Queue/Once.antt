-- ===== src/Queue/Once.antt =====
-- About `claim_next` of repositories/runs.py, whatever statements run between two calls of it.
use mathlib.Core.Option
use ops_composer.Prelude.{
  ℕ, String, ◌≡◌, ◌≢◌, ap, ◌∙◌, Bool, true, false, some, arith, ==_refl, refl, first_where,
}
use ops_composer.Db.{Db, ok}
use ops_composer.Domain.Ops.{Run}
use ops_composer.Queue.Store.{has_run_id, run_of, is_queued}
use ops_composer.Queue.Claim.{set_preparing, claim_next}
use ops_composer.Queue.HostLocks.{claim_next_parts, claim_row-some, lock_hosts_done}
use ops_composer.Queue.Settled.{IsKeyed, IsSettled, first_where-update_runs, changed}
use ops_composer.Queue.Steps.{Reach, claimed, here, next, Reach-IsSettled}
use ops_composer.Queue.Machine.{candidate_row, Reach-not_queued}

module _ (skipped : Run → Bool) (worker_id : String) (now expires_at : ℕ) (db db' : Db) (run : Run)
    (keyed : IsKeyed db.runs)
    (claims : claim_next skipped worker_id now expires_at db ≡ ok (some run, db')) where
  -- The row that a claim takes was queued.
  claim_next_was :
      (before : Run) × (run_of run.run_id db ≡ some before) × (is_queued before.status ≡ true)
  unfolding set_preparing run_of
  claim_next_was =
      let (mid, row, _) = claim_next_parts skipped worker_id now expires_at db db' run claims in
      let (c, chosen, same, _) = claim_row-some skipped worker_id now db mid run row in
      let (at, queued, _) = candidate_row skipped now db c chosen keyed in rw same (c, at, queued)

  -- The row that a claim leaves has left the queue.
  claim_next_is : (run_of run.run_id db' ≡ some run) × (is_queued run.status ≡ false)
  unfolding set_preparing run_of
  claim_next_is =
      let (mid, row, locked) =
        claim_next_parts skipped worker_id now expires_at db db' run claims in
      let (c, chosen, same, left) = claim_row-some skipped worker_id now db mid run row in
      let (at, _, _) = candidate_row skipped now db c chosen keyed in
      let (_, _, _, same_runs) =
        lock_hosts_done run.run_id worker_id now expires_at mid db' locked in
      let found =
        ap (first_where (has_run_id c.run_id)) (same_runs ∙ ap (λ (d : Db). d.runs) left)
        ∙ first_where-update_runs (has_run_id c.run_id) (set_preparing worker_id now) (λ s. refl)
            c.run_id db.runs
        ∙ ap (Option.map (changed (has_run_id c.run_id) (set_preparing worker_id now) (λ s. refl)))
            at
        ∙ rw (==_refl c.run_id) refl in
      rw same (found, refl)

-- Where the tables of runs and targets agree: no worker claims a run a second time, whatever
-- statements of the queue run between the two claims.
pub claim_next_once :
    (skipped skipped' : Run → Bool) (worker_id worker_id' : String)
    (now expires_at later expires_at' : ℕ) (db db1 db2 db3 : Db) (run run' : Run)
    → IsSettled db
    → claim_next skipped worker_id now expires_at db ≡ ok (some run, db1)
    → Reach db1 db2
    → claim_next skipped' worker_id' later expires_at' db2 ≡ ok (some run', db3)
    → run'.run_id ≢ run.run_id
claim_next_once skipped skipped' worker_id worker_id' now expires_at later expires_at' db db1 db2
      db3 run run' s first between again same =
    let s1 : IsSettled db1 =
      Reach-IsSettled (next here (claimed skipped worker_id now expires_at run first)) s in
    let (at, left) = claim_next_is skipped worker_id now expires_at db db1 run s.keyed first in
    let (r, found, gone) = Reach-not_queued run.run_id run s1 between at left in
    let s2 : IsSettled db2 = Reach-IsSettled between s1 in
    let (before, found', queued) =
      claim_next_was skipped' worker_id' later expires_at' db2 db3 run' s2.keyed again in
    let row : run_of run.run_id db2 ≡ some before = rw same at found' in
    let one : r ≡ before = cc in absurd (ground (arith, rw one at gone, queued))
