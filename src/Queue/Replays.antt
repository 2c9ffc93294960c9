-- ===== src/Queue/Replays.antt =====
-- About two calls of `RunService._create` of backend/src/ops_composer/services/runs.py.
pub mod Lasting
pub mod Twice
use mathlib.Core.Option
use ops_composer.Prelude.{
  ℕ, String, ◌≡◌, refl, sym, ap, ◌∙◌, subst, Bool, true, false, not, Option, none, some, List, [],
  ◌∷◌, ◌++◌, ◌&&◌, ◌==◌, ==_refl, leb, text_eq, text_refl, map, length, inl, inr, arith, Bool-cases,
  Option-cases, first_where, first_where-append_none, first_where-update_where, exists_where,
  if◌then◌else◌, char_count,
}
use ops_composer.Db.{
  Db, Tx, Result, ok, err, return, raise_if, run_tx, closed, >>=-eq-ok, raise_if-eq-ok, After,
  After-ok, After-bind, Keeps, Keeps-bind, Keeps-raise_if, ◌>>=◌, ◌>>◌,
}
use ops_composer.Domain.Assets.{ResolvedHost}
use ops_composer.Domain.Audit.{AuditEvent}
use ops_composer.Domain.Errors.{Failure, idempotency_conflict, host_key_confirmation_required}
use ops_composer.Domain.Ops.{Run, RunTarget, RunEvent}
use ops_composer.Audit
use ops_composer.Queue.Store.{
  by_key, has_run_id, run_of, same_target, insert_new, insert_run, insert_targets, get_created,
  create_or_get, get_by_idempotency_key,
}
use ops_composer.Queue.Events.{append_event, append_to, next_sequence, same_event}
use ops_composer.Queue.Submit.{
  Sources, RunRequest, payload_of, fingerprint_of, new_run, new_target, host_id_of, resolve_targets,
  require_confirmed_host_keys, queued_event, created_event, replay_event, replay, look_up, complete,
  persist, create, after_look_up, after_persist,
}
use ops_composer.Queue.Idempotent.{
  apart_from_audit, create_again, replay_same, replay_other, create_after, look_up-none,
}
use ops_composer.Queue.Confirmed.{
  ok-inj, persist_parts, resolve_targets-eq-ok, insert_new-fresh, create_or_get-fresh,
  complete-confirmed,
}

-- The run that a key and a fingerprint are answered with.
abbrev pub IsAnswered : ℕ → String → String → ℕ → Db → Type 0
IsAnswered requested_by key fingerprint run_id db =
    (r : Run) × (first_where (by_key requested_by key) db.runs ≡ some r)
    × (r.run_id ≡ run_id)
    × (r.request_fingerprint ≡ fingerprint)

insert_targets-runs :
    (rs : List Run) (ts : List RunTarget) → Keeps (λ d. d.runs ≡ rs) (insert_targets ts)
unfolding insert_targets
insert_targets-runs rs [] db h = h
insert_targets-runs rs (t ∷ ts) db h =
    elim (Bool-cases (exists_where (same_target t) db.run_targets)) [
      | inl e ↦ rw e tt
      | inr e ↦
          rw e (insert_targets-runs rs ts (record db { run_targets = db.run_targets ++ t ∷ [] }) h)
    ]

insert_new-runs :
    (run : Run) (same_id : Option Run) (db : Db)
    → After
        (λ d. d.runs ≡ db.runs ++ record run { next_event_sequence = 1 } ∷ [])
        (insert_new run none same_id db)
unfolding insert_new
insert_new-runs run none db = refl
insert_new-runs run (some r) db = tt

get_created-runs :
    (rs : List Run) (run row : Run) (targets : List RunTarget)
    → Keeps (λ d. d.runs ≡ rs) (get_created run targets (some row))
unfolding get_created
get_created-runs rs run row targets =
    Keeps-bind (λ d. d.runs ≡ rs) (insert_targets targets) (λ _. return (row, true))
      (insert_targets-runs rs targets) λ _ d h. h

-- A new run stands behind those that were there.
pub create_or_get-runs :
    (run : Run) (targets : List RunTarget) (db mid : Db) (stored : Run × Bool)
    → first_where (by_key run.requested_by run.idempotency_key) db.runs ≡ none
    → create_or_get run targets db ≡ ok (stored, mid)
    → mid.runs ≡ db.runs ++ record run { next_event_sequence = 1 } ∷ []
unfolding create_or_get insert_run
create_or_get-runs run targets db mid stored fresh h =
    let row : Run = record run { next_event_sequence = 1 } in
    let (o, d1, inserted, h1) = >>=-eq-ok (insert_run run) (get_created run targets) db h in
    let at_once : insert_new run none (run_of run.run_id db) db ≡ ok (o, d1) =
      subst (λ x. insert_new run x (run_of run.run_id db) db ≡ ok (o, d1)) fresh inserted in
    let rows : d1.runs ≡ db.runs ++ row ∷ [] =
      After-ok (λ d. d.runs ≡ db.runs ++ row ∷ []) _ (insert_new-runs run (run_of run.run_id db) db)
        at_once in
    let some_row : o ≡ some row = insert_new-fresh run (run_of run.run_id db) db d1 o at_once in
    After-ok (λ d. d.runs ≡ db.runs ++ row ∷ []) _
      (get_created-runs (db.runs ++ row ∷ []) run row targets d1 rows)
      (subst (λ x. get_created run targets x d1 ≡ ok (stored, mid)) some_row h1)

module _ (requested_by : ℕ) (key fingerprint : String) (run_id : ℕ) where
  found_last :
      (run : Run) (rs : List Run)
      → run.requested_by ≡ requested_by
      → run.idempotency_key ≡ key
      → first_where (by_key requested_by key) rs ≡ none
      → first_where (by_key requested_by key) (rs ++ run ∷ []) ≡ some run
  unfolding first_where
  found_last run rs mine same fresh =
      first_where-append_none (by_key requested_by key) rs (run ∷ []) fresh
      ∙ rw (mine, same, ==_refl requested_by, text_refl key) refl

  pub append_to-IsAnswered :
      (event : RunEvent) (o : Option Run)
      → (db : Db) → IsAnswered requested_by key fingerprint run_id db
      → After (IsAnswered requested_by key fingerprint run_id) (append_to event o db)
  unfolding append_to
  append_to-IsAnswered event none db h = tt
  append_to-IsAnswered event (some r) db (x, found, id, print) =
      elim (Bool-cases (
        exists_where (same_event (record event { sequence = r.next_event_sequence }))
          db.run_events)) [
            | inl e ↦ rw e tt
            | inr e ↦
                let f : Run → Run = λ y. if has_run_id event.run_id y then next_sequence y else y in
                let seen =
                  first_where-update_where (by_key requested_by key) (has_run_id event.run_id)
                    next_sequence (λ y. refl) db.runs
                  ∙ ap (Option.map f) found in
                rw e (elim (Bool-cases (has_run_id event.run_id x)) [
                  | inl t ↦ (next_sequence x, seen ∙ rw t refl, id, print)
                  | inr t ↦ (x, seen ∙ rw t refl, id, print)
                ])
          ]

module _ (sources : Sources) (request : RunRequest) (now : ℕ) where
  -- The request is answered with the run of the id.
  abbrev Answers : ℕ → Db → Type 0
  Answers run_id =
      IsAnswered request.requested_by request.idempotency_key (fingerprint_of sources request now)
        run_id

  complete-IsAnswered :
      (hosts : List ResolvedHost) (run : Run) (run_id : ℕ)
      → Keeps (Answers run_id) (complete sources request now hosts run true)
  unfolding complete require_confirmed_host_keys append_event Audit.append
  complete-IsAnswered hosts run run_id =
      let P = Answers run_id in
      let ends : Unit {0} → Tx Run =
        λ _. (do Audit.append (created_event sources request now run.run_id); return run) in
      let event = queued_event sources request now run.run_id hosts in
      Keeps-bind P (require_confirmed_host_keys sources.assets hosts)
        (λ _. append_event event >>= λ _. ends tt)
        (Keeps-raise_if P
          (not (length (sources.assets.host_ids_without_keys (map host_id_of hosts)) == 0))
          host_key_confirmation_required)
        λ _.
          Keeps-bind P (append_event event) (λ _. ends tt)
            (λ db h.
              append_to-IsAnswered request.requested_by request.idempotency_key
                (fingerprint_of sources request now) run_id event (run_of run.run_id db) db h)
            λ _ db h. h

  pub persist-IsAnswered :
      (run : Run) (db db' : Db)
      → first_where (by_key request.requested_by request.idempotency_key) db.runs ≡ none
      → persist sources request now db ≡ ok (run, db')
      → Answers run.run_id db'
  persist-IsAnswered run db db' fresh h =
      let (hosts, mid, _, made, completed) = persist_parts sources request now run db db' fresh h in
      let new = new_run sources request now hosts in
      let targets = map (new_target sources request now) hosts in
      let rows = create_or_get-runs new targets db mid (new, true) fresh made in
      let found =
        subst
          (λ rs. first_where (by_key request.requested_by request.idempotency_key) rs ≡ some new)
          (sym rows)
          (found_last request.requested_by request.idempotency_key
            (fingerprint_of sources request now) sources.run_id new db.runs refl refl fresh) in
      let after =
        After-ok (Answers sources.run_id) _
          (complete-IsAnswered hosts new sources.run_id mid (new, found, refl, refl)) completed in
      subst (λ n. Answers n db')
        (sym (
          ap (λ (r : Run). r.run_id)
            (complete-confirmed sources request now hosts run new mid db' completed).0))
        after
