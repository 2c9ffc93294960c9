-- ===== src/Queue/Moves.antt =====
-- The edges between the statuses of a run, and each statement of repositories/runs.py against them.
use mathlib.Core.Option
use ops_composer.Prelude.{
  ℕ, String, ◌≡◌, refl, ap, ◌∙◌, Bool, true, Option, none, some, ◌&&◌, ◌⊎◌, inl, inr, arith, ◌==◌,
  rows_where, exists_where, Bool-cases, update_where,
}
use ops_composer.Db.{Db, After}
use ops_composer.Domain.Ops.{Run, RunStatus, RunEvent, is_terminal}
use ops_composer.Queue.Store.{has_run_id, run_of, cancelable, set_cancel, cancel_found}
use ops_composer.Queue.Lifecycle.{
  is_preparing, set_running, mark_running, Outcome, owned_by, set_finished, finish, is_abandoned,
  is_stale, set_interrupted, recover_stale,
}
use ops_composer.Queue.Events.{append_to, next_sequence, same_event}
use ops_composer.Queue.Settled.{first_where-update_runs, changed}

-- The edges of the state machine of a run.
abbrev pub Moves : RunStatus → RunStatus → Type 0
Moves RunStatus.queued s =
    (s ≡ RunStatus.queued) ⊎ (s ≡ RunStatus.preparing) ⊎ (s ≡ RunStatus.canceled)
Moves RunStatus.preparing s =
    (s ≡ RunStatus.preparing) ⊎ (s ≡ RunStatus.running) ⊎ (is_terminal s ≡ true)
Moves RunStatus.running s = (s ≡ RunStatus.running) ⊎ (is_terminal s ≡ true)
Moves s t = t ≡ s

pub Moves-refl : (s : RunStatus) → Moves s s
Moves-refl RunStatus.queued = inl refl
Moves-refl RunStatus.preparing = inl refl
Moves-refl RunStatus.running = inl refl
Moves-refl _ = refl

-- The id finds a row whose status came along an edge.
abbrev pub Follows : ℕ → Run → Db → Type 0
Follows run_id r db = (r' : Run) × (run_of run_id db ≡ some r') × Moves r.status r'.status

module _ (run_id : ℕ) (r : Run) (db : Db) (found : run_of run_id db ≡ some r) where
  pub same_runs-Follows : (db' : Db) → db'.runs ≡ db.runs → Follows run_id r db'
  unfolding run_of
  same_runs-Follows db' e = (r, rw e found, Moves-refl r.status)

  pub update-Follows :
      (p : Run → Bool) (f : Run → Run) (keep_id : (s : Run) → (f s).run_id ≡ s.run_id) (db' : Db)
      → db'.runs ≡ update_where p f db.runs
      → (p r ≡ true → Moves r.status (f r).status)
      → Follows run_id r db'
  unfolding run_of
  update-Follows p f keep_id db' e step = (
    changed p f keep_id r,
    rw e (
        first_where-update_runs p f keep_id run_id db.runs
        ∙ ap (Option.map (changed p f keep_id)) found),
    elim (Bool-cases (p r)) [
      | inl chosen ↦ rw chosen (step chosen)
      | inr other ↦ rw other (Moves-refl r.status)
    ],
  )

  pub mark_running-Follows : (i now : ℕ) → After (Follows run_id r) (mark_running i now db)
  unfolding mark_running
  mark_running-Follows i now =
      update-Follows (λ r. r.run_id == i && is_preparing r.status) (set_running now) (λ r. refl) _
        refl (λ h. ground (arith, h))

  pub cancel_found-Follows :
      (i now : ℕ) (o : Option Run) → After (Follows run_id r) (cancel_found i now o db)
  unfolding cancel_found
  cancel_found-Follows i now none = same_runs-Follows db refl
  cancel_found-Follows i now (some before) =
      update-Follows (cancelable i) (set_cancel now) (λ r. refl) _ refl (λ h. ground (arith, h))

  pub finish-Follows :
      (i : ℕ) (worker_id : String) (o : Outcome) (now : ℕ)
      → is_terminal o.status ≡ true
      → After (Follows run_id r) (finish i worker_id o now db)
  unfolding finish
  finish-Follows i worker_id o now ends =
      update-Follows (owned_by i worker_id) (set_finished o now) (λ r. refl) _ refl
        (λ h. ground (arith, h, ends))

  pub recover_stale-Follows : (now : ℕ) → After (Follows run_id r) (recover_stale now db)
  unfolding recover_stale is_abandoned
  recover_stale-Follows now =
      update-Follows (is_abandoned (rows_where (is_stale now) db.worker_leases))
        (set_interrupted now) (λ r. refl) _ refl (λ h. ground (arith, h))

  pub append_to-Follows :
      (e : RunEvent) (o : Option Run) → After (Follows run_id r) (append_to e o db)
  unfolding append_to
  append_to-Follows e none = tt
  append_to-Follows e (some x) =
      elim (Bool-cases
        (exists_where (same_event (record e { sequence = x.next_event_sequence })) db.run_events)) [
          | inl clash ↦ rw clash tt
          | inr new ↦ rw new (
              update-Follows (has_run_id e.run_id) next_sequence (λ r. refl) _ refl
                (λ h. Moves-refl r.status))
        ]
