-- ===== src/Queue/Machine.antt =====
-- The state machine of a run, over the statements of repositories/runs.py in any order.
use ops_composer.Prelude.{
  ℕ, String, ◌≡◌, refl, ap, subst, ◌∙◌, Bool, true, false, not, Option, none, some, List, [], ◌∷◌,
  ◌++◌, ◌&&◌, inl, inr, arith, ◌==◌, All, All-map, All-both, All-rows_where, All-rows_where_self,
  All-order_by, rows_where, order_by, first, first_where, first_where_holds, first_where-append,
  exists_where, Bool-cases, Option-cases,
}
use ops_composer.Db.{Db, ok, After, After-ok, After-bind, ◌>>=◌, return}
use ops_composer.Domain.Ops.{Run, RunStatus, RunTarget, RunEvent, is_terminal}
use ops_composer.Queue.Store.{
  has_run_id, run_of, is_queued, by_key, insert_new, insert_run, insert_targets, get_created,
  same_target, create_or_get, get_by_idempotency_key, cancelable, request_cancel,
}
use ops_composer.Queue.Claim.{older, claimable, candidate, set_preparing, heartbeat, claim_next}
use ops_composer.Queue.HostLocks.{claim_next_parts, claim_row-some, lock_hosts_done}
use ops_composer.Queue.Lifecycle.{TargetOutcome, finish_target}
use ops_composer.Queue.Events.{append_event}
use ops_composer.Queue.Settled.{IsSettled, IsKeyed, same_row}
use ops_composer.Queue.Creates.{insert_targets_clash, insert_targets_new}
use ops_composer.Queue.Steps.{
  Step, created, cancel_requested, claimed, started, reported, finished, recovered, event_appended,
  beat, Reach, here, next, Reach-IsSettled,
}
use ops_composer.Queue.Moves.{
  Moves, Moves-refl, Follows, same_runs-Follows, update-Follows, mark_running-Follows,
  cancel_found-Follows, finish-Follows, recover_stale-Follows, append_to-Follows,
}

first-All : (P : Run → Type 0) (rs : List Run) {r : Run} → first rs ≡ some r → All P rs → P r
first-All P [] e h = cc
first-All P (s ∷ rs) {r} e h = let same : s ≡ r = cc in subst P same h.0

-- The candidate is a queued row of the table, and can be claimed.
pub candidate_row :
    (skipped : Run → Bool) (now : ℕ) (db : Db) (c : Run)
    → candidate skipped now db ≡ some c
    → IsKeyed db.runs
    → (first_where (has_run_id c.run_id) db.runs ≡ some c)
      × (is_queued c.status ≡ true)
      × (claimable now db c ≡ true)
unfolding candidate claimable
candidate_row skipped now db c e keyed =
    let p = λ (r : Run). claimable now db r && not (skipped r) in
    let (at, chosen) =
      first-All (λ r. (first_where (has_run_id r.run_id) db.runs ≡ some r) × (p r ≡ true))
        (order_by older (rows_where p db.runs)) e
        (All-order_by _ older (rows_where p db.runs) (
          All-both _ _ (rows_where p db.runs)
            (All-rows_where (λ s. first_where (has_run_id s.run_id) db.runs ≡ some s) p db.runs
              (All-map _ _ db.runs (λ s h _. h) keyed))
            (All-rows_where_self p db.runs))) in
    (at, ground (arith, chosen), ground (arith, chosen))

module _ (run_id : ℕ) (r : Run) (db : Db) (found : run_of run_id db ≡ some r) where
  claim_next-Follows :
      IsKeyed db.runs
      → (skipped : Run → Bool) (worker_id : String) (now expires_at : ℕ) (run : Run) (db' : Db)
      → claim_next skipped worker_id now expires_at db ≡ ok (some run, db')
      → Follows run_id r db'
  unfolding set_preparing run_of
  claim_next-Follows keyed skipped worker_id now expires_at run db' e =
      let (mid, row, locked) = claim_next_parts skipped worker_id now expires_at db db' run e in
      let (c, chosen, _, left) = claim_row-some skipped worker_id now db mid run row in
      let (_, _, _, same_runs) =
        lock_hosts_done run.run_id worker_id now expires_at mid db' locked in
      let (at, queued, _) = candidate_row skipped now db c chosen keyed in
      update-Follows run_id r db found (has_run_id c.run_id) (set_preparing worker_id now)
        (λ s. refl) db' (same_runs ∙ ap (λ (d : Db). d.runs) left)
        λ mine.
          let own : (r.run_id == run_id) ≡ true =
            first_where_holds (has_run_id run_id) db.runs found in
          let one : r ≡ c = same_row db.runs run_id c.run_id (ground (arith, mine, own)) found at in
          rw one (ground (arith, queued))

  insert_targets-Follows :
      (ts : List RunTarget) (mid : Db)
      → Follows run_id r mid
      → After (Follows run_id r) (insert_targets ts mid)
  insert_targets-Follows [] mid h = unfold insert_targets in h
  insert_targets-Follows (t ∷ ts) mid h =
      elim (Bool-cases (exists_where (same_target t) mid.run_targets)) [
        | inl clash ↦ rw (insert_targets_clash t ts mid clash) tt
        | inr new ↦ rw (insert_targets_new t ts mid new) (
            insert_targets-Follows ts (record mid { run_targets = mid.run_targets ++ t ∷ [] })
              (unfold run_of in h))
      ]

  get_created-Follows :
      (run : Run) (targets : List RunTarget) (o : Option Run) (mid : Db)
      → Follows run_id r mid
      → After (Follows run_id r) (get_created run targets o mid)
  unfolding get_created get_by_idempotency_key
  get_created-Follows run targets (some row) mid h =
      After-bind (Follows run_id r) (Follows run_id r) (insert_targets targets)
        (λ _. return (row, true)) mid (insert_targets-Follows targets mid h) (λ _ d k. k)
  get_created-Follows run targets none mid h =
      elim (Option-cases (first_where (by_key run.requested_by run.idempotency_key) mid.runs)) [
        | inl no_row ↦ rw (no_row, ◌>>=◌) tt
        | inr (x, row) ↦ rw (row, ◌>>=◌) h
      ]

  insert_run-Follows : (run : Run) → After (Follows run_id r) (insert_run run db)
  unfolding insert_run run_of
  insert_run-Follows run =
      go (first_where (by_key run.requested_by run.idempotency_key) db.runs)
        (first_where (has_run_id run.run_id) db.runs)
    where
      go :
          (conflict same_id : Option Run)
          → After (Follows run_id r) (insert_new run conflict same_id db)
      go (some c) same_id = unfold insert_new in same_runs-Follows run_id r db found db refl
      go none (some x) = unfold insert_new in tt
      go none none =
          unfold insert_new in
          (r, first_where-append (has_run_id run_id) db.runs _ found, Moves-refl r.status)

  create_or_get-Follows :
      (run : Run) (targets : List RunTarget)
      → After (Follows run_id r) (create_or_get run targets db)
  unfolding create_or_get
  create_or_get-Follows run targets =
      After-bind (Follows run_id r) (Follows run_id r) (insert_run run) (get_created run targets) db
        (insert_run-Follows run) (get_created-Follows run targets)

  request_cancel-Follows : (i now : ℕ) → After (Follows run_id r) (request_cancel i now db)
  unfolding request_cancel
  request_cancel-Follows i now =
      cancel_found-Follows run_id r db found i now (first_where (cancelable i) db.runs)

  append_event-Follows : (e : RunEvent) → After (Follows run_id r) (append_event e db)
  unfolding append_event
  append_event-Follows e = append_to-Follows run_id r db found e (run_of e.run_id db)

  other-Follows :
      (run_target_id : ℕ) (o : TargetOutcome) (now : ℕ)
      → After (Follows run_id r) (finish_target run_target_id o now db)
  unfolding finish_target
  other-Follows run_target_id o now = same_runs-Follows run_id r db found _ refl

  beat-Follows :
      (worker_id : String) (i : Option ℕ) (now expires_at : ℕ)
      → After (Follows run_id r) (heartbeat worker_id i now expires_at db)
  unfolding heartbeat
  beat-Follows worker_id i now expires_at = same_runs-Follows run_id r db found _ refl

-- Whatever statement runs, a run stays in the table, and its status stays or moves along an edge:
-- QUEUED to PREPARING or CANCELED, PREPARING to RUNNING or a terminal status, RUNNING to a terminal
-- status.
pub Step-Moves :
    {db db' : Db} (run_id : ℕ) (r : Run)
    → IsSettled db
    → Step db db'
    → run_of run_id db ≡ some r
    → (r' : Run) × (run_of run_id db' ≡ some r') × Moves r.status r'.status
Step-Moves {db} i r s (created run targets x _ _ e) found =
    After-ok (Follows i r) _ (create_or_get-Follows i r db found run targets) e
Step-Moves {db} i r s (cancel_requested run_id now x e) found =
    After-ok (Follows i r) _ (request_cancel-Follows i r db found run_id now) e
Step-Moves {db} {db'} i r s (claimed skipped worker_id now expires_at run e) found =
    claim_next-Follows i r db found s.keyed skipped worker_id now expires_at run db' e
Step-Moves {db} i r s (started run_id now _ e) found =
    After-ok (Follows i r) _ (mark_running-Follows i r db found run_id now) e
Step-Moves {db} i r s (reported run_target_id o now _ _ e) found =
    After-ok (Follows i r) _ (other-Follows i r db found run_target_id o now) e
Step-Moves {db} i r s (finished run_id worker_id o now x ends e) found =
    After-ok (Follows i r) _ (finish-Follows i r db found run_id worker_id o now ends) e
Step-Moves {db} i r s (recovered now n e) found =
    After-ok (Follows i r) _ (recover_stale-Follows i r db found now) e
Step-Moves {db} i r s (event_appended event x e) found =
    After-ok (Follows i r) _ (append_event-Follows i r db found event) e
Step-Moves {db} i r s (beat worker_id run_id now expires_at e) found =
    After-ok (Follows i r) _ (beat-Follows i r db found worker_id run_id now expires_at) e

Moves-terminal : (s t : RunStatus) → is_terminal s ≡ true → Moves s t → t ≡ s
Moves-terminal s t h m = ground (arith, h, m)

-- A run that has ended keeps its status for ever: cancels, claims, worker reports and recoveries that
-- come later do not change it.
pub Reach-terminal :
    {db db' : Db} (run_id : ℕ) (r : Run)
    → IsSettled db
    → Reach db db'
    → run_of run_id db ≡ some r
    → is_terminal r.status ≡ true
    → (r' : Run) × (run_of run_id db' ≡ some r') × (r'.status ≡ r.status)
Reach-terminal i r s here found ends = (r, found, refl)
Reach-terminal i r s (next {mid} reach step) found ends =
    let (m, at, same) = Reach-terminal i r s reach found ends in
    let (r', at', moves) = Step-Moves i m (Reach-IsSettled reach s) step at in
    (r', at', Moves-terminal m.status r'.status (rw same ends) moves ∙ same)

Moves-claimed : (s t : RunStatus) → is_queued s ≡ false → Moves s t → is_queued t ≡ false
Moves-claimed s t h m = ground (arith, h, m)

-- A run that has left the queue never returns to it.
pub Reach-not_queued :
    {db db' : Db} (run_id : ℕ) (r : Run)
    → IsSettled db
    → Reach db db'
    → run_of run_id db ≡ some r
    → is_queued r.status ≡ false
    → (r' : Run) × (run_of run_id db' ≡ some r') × (is_queued r'.status ≡ false)
Reach-not_queued i r s here found left = (r, found, left)
Reach-not_queued i r s (next {mid} reach step) found left =
    let (m, at, still) = Reach-not_queued i r s reach found left in
    let (r', at', moves) = Step-Moves i m (Reach-IsSettled reach s) step at in
    (r', at', Moves-claimed m.status r'.status still moves)
