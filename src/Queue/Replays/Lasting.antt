-- ===== src/Queue/Replays/Lasting.antt =====
-- About the run of an idempotency key while the statements of repositories/runs.py run, in any order.
use mathlib.Core.Option
use ops_composer.Prelude.{
  ℕ, String, ◌≡◌, refl, ap, ◌∙◌, Bool, true, Option, none, some, List, [], ◌∷◌, ◌++◌, ◌&&◌, inl,
  inr, ◌==◌, Bool-cases, Option-cases, rows_where, update_where, exists_where, first_where,
  first_where-append, first_where-update_where,
}
use ops_composer.Db.{Db, ok, After, After-ok, After-bind, ◌>>=◌, return}
use ops_composer.Domain.Ops.{Run, RunTarget, RunEvent}
use ops_composer.Queue.Store.{
  has_run_id, run_of, by_key, insert_new, insert_run, insert_targets, get_created, same_target,
  create_or_get, get_by_idempotency_key, cancelable, set_cancel, cancel_found, request_cancel,
}
use ops_composer.Queue.Claim.{set_preparing, heartbeat, claim_next}
use ops_composer.Queue.HostLocks.{claim_next_parts, claim_row-some, lock_hosts_done}
use ops_composer.Queue.Lifecycle.{
  is_preparing, set_running, mark_running, Outcome, owned_by, set_finished, finish, TargetOutcome,
  finish_target, is_abandoned, is_stale, set_interrupted, recover_stale,
}
use ops_composer.Queue.Events.{append_event}
use ops_composer.Queue.Creates.{insert_targets_clash, insert_targets_new}
use ops_composer.Queue.Steps.{
  Step, created, cancel_requested, claimed, started, reported, finished, recovered, event_appended,
  beat, Reach, here, next,
}
use ops_composer.Queue.Replays.{IsAnswered, append_to-IsAnswered}

module _ (requested_by : ℕ) (key fingerprint : String) (run_id : ℕ) where
  abbrev Holds : Db → Type 0
  Holds = IsAnswered requested_by key fingerprint run_id

  module _ (db : Db) (held : Holds db) where
    -- An UPDATE that keeps what identifies a request.
    update-Holds :
        (p : Run → Bool) (f : Run → Run)
        → ((r : Run) → by_key requested_by key (f r) ≡ by_key requested_by key r)
        → ((r : Run) → (f r).run_id ≡ r.run_id)
        → ((r : Run) → (f r).request_fingerprint ≡ r.request_fingerprint)
        → Holds (record db { runs = update_where p f db.runs })
    update-Holds p f same_key same_id same_print =
        let (x, found, id, print) = held in
        let seen =
          first_where-update_where (by_key requested_by key) p f same_key db.runs
          ∙ ap (Option.map _) found in
        elim (Bool-cases (p x)) [
          | inl t ↦ (f x, seen ∙ rw t refl, same_id x ∙ id, same_print x ∙ print)
          | inr t ↦ (x, seen ∙ rw t refl, id, print)
        ]

    claim_next-Holds :
        (skipped : Run → Bool) (worker_id : String) (now expires_at : ℕ) (run : Run) (db' : Db)
        → claim_next skipped worker_id now expires_at db ≡ ok (some run, db')
        → Holds db'
    unfolding set_preparing
    claim_next-Holds skipped worker_id now expires_at run db' e =
        let (mid, row, locked) = claim_next_parts skipped worker_id now expires_at db db' run e in
        let (c, _, _, left) = claim_row-some skipped worker_id now db mid run row in
        let (_, _, _, same_runs) =
          lock_hosts_done run.run_id worker_id now expires_at mid db' locked in
        let (x, found, id, print) =
          update-Holds (has_run_id c.run_id) (set_preparing worker_id now) (λ r. refl) (λ r. refl)
            (λ r. refl) in
        (
          x,
          ap (first_where (by_key requested_by key)) (same_runs ∙ ap (λ (d : Db). d.runs) left)
              ∙ found,
          id,
          print,
        )

    insert_run-Holds : (run : Run) → After Holds (insert_run run db)
    unfolding insert_run run_of
    insert_run-Holds run =
        go (first_where (by_key run.requested_by run.idempotency_key) db.runs)
          (first_where (has_run_id run.run_id) db.runs)
      where
        go : (conflict same_id : Option Run) → After Holds (insert_new run conflict same_id db)
        go (some c) same_id = unfold insert_new in held
        go none (some x) = unfold insert_new in tt
        go none none =
            let (x, found, id, print) = held in
            unfold insert_new in
            (x, first_where-append (by_key requested_by key) db.runs _ found, id, print)

    cancel_found-Holds : (i now : ℕ) (o : Option Run) → After Holds (cancel_found i now o db)
    unfolding cancel_found set_cancel
    cancel_found-Holds i now none = held
    cancel_found-Holds i now (some before) =
        update-Holds (cancelable i) (set_cancel now) (λ r. refl) (λ r. refl) (λ r. refl)

    finish-Holds :
        (i : ℕ) (worker_id : String) (o : Outcome) (now : ℕ)
        → After Holds (finish i worker_id o now db)
    unfolding finish
    finish-Holds i worker_id o now =
        update-Holds (owned_by i worker_id) (set_finished o now) (λ r. refl) (λ r. refl) (λ r. refl)

    mark_running-Holds : (i now : ℕ) → After Holds (mark_running i now db)
    unfolding mark_running
    mark_running-Holds i now =
        update-Holds (λ r. r.run_id == i && is_preparing r.status) (set_running now) (λ r. refl)
          (λ r. refl) (λ r. refl)

    recover_stale-Holds : (now : ℕ) → After Holds (recover_stale now db)
    unfolding recover_stale
    recover_stale-Holds now =
        update-Holds (is_abandoned (rows_where (is_stale now) db.worker_leases))
          (set_interrupted now) (λ r. refl) (λ r. refl) (λ r. refl)

    finish_target-Holds :
        (i : ℕ) (o : TargetOutcome) (now : ℕ) → After Holds (finish_target i o now db)
    unfolding finish_target
    finish_target-Holds i o now = held

    heartbeat-Holds :
        (worker_id : String) (i : Option ℕ) (now expires_at : ℕ)
        → After Holds (heartbeat worker_id i now expires_at db)
    unfolding heartbeat
    heartbeat-Holds worker_id i now expires_at = held

  insert_targets-Holds :
      (ts : List RunTarget) (db : Db) → Holds db → After Holds (insert_targets ts db)
  insert_targets-Holds [] db h = unfold insert_targets in h
  insert_targets-Holds (t ∷ ts) db h =
      elim (Bool-cases (exists_where (same_target t) db.run_targets)) [
        | inl clash ↦ rw (insert_targets_clash t ts db clash) tt
        | inr new ↦
            rw (insert_targets_new t ts db new)
              (insert_targets-Holds ts (record db { run_targets = db.run_targets ++ t ∷ [] }) h)
      ]

  get_created-Holds :
      (run : Run) (targets : List RunTarget) (o : Option Run) (db : Db)
      → Holds db
      → After Holds (get_created run targets o db)
  unfolding get_created get_by_idempotency_key
  get_created-Holds run targets (some row) db h =
      After-bind Holds Holds (insert_targets targets) (λ _. return (row, true)) db
        (insert_targets-Holds targets db h) (λ _ d k. k)
  get_created-Holds run targets none db h =
      elim (Option-cases (first_where (by_key run.requested_by run.idempotency_key) db.runs)) [
        | inl no_row ↦ rw (no_row, ◌>>=◌) tt
        | inr (x, row) ↦ rw (row, ◌>>=◌) h
      ]

  create_or_get-Holds :
      (run : Run) (targets : List RunTarget) (db : Db)
      → Holds db
      → After Holds (create_or_get run targets db)
  unfolding create_or_get
  create_or_get-Holds run targets db h =
      After-bind Holds Holds (insert_run run) (get_created run targets) db
        (insert_run-Holds db h run) (get_created-Holds run targets)

  request_cancel-Holds : (i now : ℕ) (db : Db) → Holds db → After Holds (request_cancel i now db)
  unfolding request_cancel
  request_cancel-Holds i now db h =
      cancel_found-Holds db h i now (first_where (cancelable i) db.runs)

  append_event-Holds : (e : RunEvent) (db : Db) → Holds db → After Holds (append_event e db)
  unfolding append_event
  append_event-Holds e db h =
      append_to-IsAnswered requested_by key fingerprint run_id e (run_of e.run_id db) db h

  Step-Holds : {db db' : Db} → Step db db' → Holds db → Holds db'
  Step-Holds {db} (created run targets x _ _ e) h =
      After-ok Holds _ (create_or_get-Holds run targets db h) e
  Step-Holds {db} (cancel_requested i now x e) h =
      After-ok Holds _ (request_cancel-Holds i now db h) e
  Step-Holds {db} {db'} (claimed skipped worker_id now expires_at run e) h =
      claim_next-Holds db h skipped worker_id now expires_at run db' e
  Step-Holds {db} (started i now _ e) h = After-ok Holds _ (mark_running-Holds db h i now) e
  Step-Holds {db} (reported i o now _ _ e) h = After-ok Holds _ (finish_target-Holds db h i o now) e
  Step-Holds {db} (finished i worker_id o now x _ e) h =
      After-ok Holds _ (finish-Holds db h i worker_id o now) e
  Step-Holds {db} (recovered now n e) h = After-ok Holds _ (recover_stale-Holds db h now) e
  Step-Holds {db} (event_appended event x e) h = After-ok Holds _ (append_event-Holds event db h) e
  Step-Holds {db} (beat worker_id i now expires_at e) h =
      After-ok Holds _ (heartbeat-Holds db h worker_id i now expires_at) e

  -- Whatever statements of the queue run, the key keeps its run and the run its fingerprint.
  pub Reach-IsAnswered :
      {db db' : Db}
      → Reach db db'
      → IsAnswered requested_by key fingerprint run_id db
      → IsAnswered requested_by key fingerprint run_id db'
  Reach-IsAnswered here h = h
  Reach-IsAnswered (next reach step) h = Step-Holds step (Reach-IsAnswered reach h)
