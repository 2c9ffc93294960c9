-- ===== src/Queue/Cancels.antt =====
-- About `RunService.cancel` of backend/src/ops_composer/services/runs.py: what it does to the run and to
-- its targets.
use mathlib.Core.Option
use ops_composer.Prelude.{
  ℕ, ◌≡◌, refl, sym, ap, subst, ◌∙◌, Bool, true, false, not, Option, none, some, List, [], ◌∷◌,
  ◌&&◌, inl, inr, arith, ◌==◌, Bool-cases, first_where, first_where_holds, exists_where,
  update_where, exists_where-update_where, if◌then◌else◌,
}
use ops_composer.Db.{Db, Result, ok, raise_if, require, >>=-eq-ok, raise_if-eq-ok, require-eq-ok}
use ops_composer.Domain.Audit.{AuditSource}
use ops_composer.Domain.Errors.{not_found, run_not_cancelable}
use ops_composer.Domain.Ops.{Run, RunStatus, RunTarget, RunTargetStatus, RunEvent, is_terminal}
use ops_composer.Audit
use ops_composer.Queue.Store
use ops_composer.Queue.Store.{
  run_of, has_run_id, cancelable, is_queued, is_pending, is_live, is_canceled, set_cancel,
  cancel_targets, cancel_found, request_cancel,
}
use ops_composer.Queue.Events
use ops_composer.Queue.Events.{append_event, append_to, next_sequence, same_event}
use ops_composer.Queue.Settled.{first_where-update_runs, changed}
use ops_composer.Queue.Service.{get, cancel_event, cancel_run}

-- A run that waits is canceled at once; a run that a worker has keeps its status, for the worker to see
-- the request.
abbrev pub canceled_status : RunStatus → RunStatus
canceled_status RunStatus.queued = RunStatus.canceled
canceled_status s = s

abbrev pub waits_for : ℕ → RunTarget → Bool
waits_for run_id t =
    t.run_id == run_id && elim t.status [ RunTargetStatus.pending ↦ true | _ ↦ false ]

-- The first row of an id, if it passes a narrower test, is the first that does.
first_where_narrow :
    (q : Run → Bool) (i : ℕ) (rs : List Run) {r : Run}
    → first_where (has_run_id i) rs ≡ some r
    → q r ≡ true
    → first_where (λ s. has_run_id i s && q s) rs ≡ some r
unfolding first_where
first_where_narrow q i [] e h = cc
first_where_narrow q i (s ∷ rs) e h = elim (Bool-cases (s.run_id == i)) [
  | inl mine ↦ ground (arith, mine, rw mine at e, h)
  | inr other ↦ rw other (first_where_narrow q i rs (rw other at e) h)
]

not_ended : (r : Run) → is_terminal r.status ≡ false → is_live r.status ≡ true
not_ended r h = ground (arith, h)

set_cancel-status : (now : ℕ) (r : Run) → (set_cancel now r).status ≡ canceled_status r.status
unfolding set_cancel
set_cancel-status now r = ground arith

set_cancel-time : (now : ℕ) (r : Run) → (set_cancel now r).cancel_requested_at ≡ some now
unfolding set_cancel
set_cancel-time now r = refl

set_cancel-run_id : (now : ℕ) (r : Run) → (set_cancel now r).run_id ≡ r.run_id
unfolding set_cancel
set_cancel-run_id now r = refl

own_after :
    (run_id now : ℕ) (r : Run)
    → has_run_id run_id r ≡ true
    → has_run_id run_id (set_cancel now r) ≡ true
unfolding set_cancel
own_after run_id now r h = h

-- What the id finds after the cancel's UPDATE and the event's.
marked_row :
    (run_id now : ℕ) (before : Run) (rs : List Run)
    → first_where (has_run_id run_id) rs ≡ some before
    → is_live before.status ≡ true
    → first_where (has_run_id run_id) (
        update_where
          (has_run_id run_id)
          next_sequence
          (update_where (cancelable run_id) (set_cancel now) rs))
      ≡ some (next_sequence (set_cancel now before))
marked_row run_id now before rs at live =
    let own : has_run_id run_id before ≡ true = first_where_holds (has_run_id run_id) rs at in
    let chosen : cancelable run_id before ≡ true = rw (own, live) refl in
    let keep = set_cancel-run_id now in
    let canceled : first_where (has_run_id run_id)
          (update_where (cancelable run_id) (set_cancel now) rs)
        ≡ some (set_cancel now before) =
      first_where-update_runs (cancelable run_id) (set_cancel now) keep run_id rs
      ∙ ap (Option.map (changed (cancelable run_id) (set_cancel now) keep)) at
      ∙ rw chosen refl in
    first_where-update_runs (has_run_id run_id) next_sequence (λ r. refl) run_id
      (update_where (cancelable run_id) (set_cancel now) rs)
    ∙ ap (Option.map (changed (has_run_id run_id) next_sequence (λ r. refl))) canceled
    ∙ rw (own_after run_id now before own) refl

both : {A : Type 0} {o : Option A} {a b : A} → o ≡ some a → o ≡ some b → a ≡ b
both h k = cc

-- The targets that wait, after the cancel's statement on them.
cancel_targets-waits :
    (run_id now : ℕ) (before : Run) (ts : List RunTarget)
    → is_live before.status ≡ true
    → exists_where
        (waits_for run_id)
        (if is_canceled (set_cancel now before).status then cancel_targets run_id now ts else ts)
      ≡ (not (is_queued before.status) && exists_where (waits_for run_id) ts)
unfolding set_cancel cancel_targets
cancel_targets-waits run_id now before ts live = elim (Bool-cases (is_queued before.status)) [
  | inl e ↦ rw e (
      exists_where-update_where (waits_for run_id)
        (λ t. record t { status = RunTargetStatus.canceled; finished_at = some now })
        (λ t. ground arith) ts)
  | inr e ↦ let on : is_canceled before.status ≡ false = ground (arith, live) in rw (e, on) refl
]

module _ (run_id now : ℕ) (before : Run) (db mid : Db) (o : Option Run)
    (found : first_where (cancelable run_id) db.runs ≡ some before)
    (done : request_cancel run_id now db ≡ ok (o, mid)) where
  request_cancel_parts :
      (o ≡ some (set_cancel now before))
      × (mid.runs ≡ update_where (cancelable run_id) (set_cancel now) db.runs)
      × (mid.run_targets ≡ (
          if is_canceled (set_cancel now before).status
          then cancel_targets run_id now db.run_targets
          else db.run_targets))
  unfolding request_cancel cancel_found
  request_cancel_parts =
      let h : cancel_found run_id now (some before) db ≡ ok (o, mid) =
        subst (λ x. cancel_found run_id now x db ≡ ok (o, mid)) found done in
      (ground (arith, h), ground (arith, h), ground (arith, h))

append_event_parts :
    (event x : RunEvent) (db mid : Db)
    → append_event event db ≡ ok (x, mid)
    → (mid.runs ≡ update_where (has_run_id event.run_id) next_sequence db.runs)
      × (mid.run_targets ≡ db.run_targets)
unfolding append_event append_to
append_event_parts event x db mid h = go (run_of event.run_id db) h
  where
    go :
        (o : Option Run)
        → append_to event o db ≡ ok (x, mid)
        → (mid.runs ≡ update_where (has_run_id event.run_id) next_sequence db.runs)
          × (mid.run_targets ≡ db.run_targets)
    go none e = cc
    go (some r) e =
        elim (Bool-cases (
          exists_where (same_event (record event { sequence = r.next_event_sequence }))
            db.run_events)) [
              | inl clash ↦ absurd (ground (arith, rw clash at e))
              | inr new ↦ ground (arith, rw new at e)
            ]

last :
    {A : Type 0} {a b : A} {d e : Db}
    → ◌≡◌ {A = Result (A × Db)} (ok (a, d)) (ok (b, e))
    → (a ≡ b) × (d ≡ e)
last h = (cc, cc)

-- A cancel that returns, of a run that the id found: the run that it returns and the run that the id
-- finds afterwards have the request's time, and their status is CANCELED if the run was queued, and the
-- status that it had otherwise. If the run was queued, no target of it is pending afterwards; if it was
-- not, one is pending exactly if one was before.
pub cancel_marks :
    (source : AuditSource) (event_id run_id requested_by now : ℕ) (db db' : Db) (before run : Run)
    → run_of run_id db ≡ some before
    → cancel_run source event_id run_id requested_by now db ≡ ok (run, db')
    → (run.status ≡ canceled_status before.status)
      × (run.cancel_requested_at ≡ some now)
      × ((r : Run) × (run_of run_id db' ≡ some r)
          × (r.status ≡ canceled_status before.status)
          × (r.cancel_requested_at ≡ some now))
      × (exists_where (waits_for run_id) db'.run_targets
          ≡ (not (is_queued before.status) && exists_where (waits_for run_id) db.run_targets))
unfolding cancel_run get Store.get run_of Audit.append cancel_event
cancel_marks source event_id run_id requested_by now db db' before run at h =
    let (current, d1, found, h1) =
      >>=-eq-ok (require (first_where (has_run_id run_id) db.runs) not_found) _ db h in
    let (row, e1) = require-eq-ok _ _ db d1 found in
    let (_, d2, guarded, h2) =
      >>=-eq-ok (raise_if (is_terminal current.status) run_not_cancelable) _ d1 h1 in
    let (goes_on, e2) = raise_if-eq-ok _ _ d1 d2 guarded in
    let (o, d3, marked, h3) = >>=-eq-ok (request_cancel run_id now) _ d2 h2 in
    let (x, d4, given, h4) = >>=-eq-ok (require o run_not_cancelable) _ d3 h3 in
    let (_, d5, appended, h5) =
      >>=-eq-ok (Events.append_event (cancel_event event_id run_id now)) _ d4 h4 in
    let (is_x, e4) = require-eq-ok o _ d3 d4 given in
    let same : current ≡ before = both row at in
    let live : is_live before.status ≡ true =
      not_ended before (subst (λ (r : Run). is_terminal r.status ≡ false) same goes_on) in
    let marked' : request_cancel run_id now db ≡ ok (o, d3) =
      subst (λ d. request_cancel run_id now d ≡ ok (o, d3)) (e2 ∙ e1) marked in
    let (answer, runs, targets) =
      request_cancel_parts run_id now before db d3 o
        (first_where_narrow (λ r. is_live r.status) run_id db.runs at live) marked' in
    let (runs', targets') =
      append_event_parts (cancel_event event_id run_id now) _ d4 d5 appended in
    let (is_run, is_db) = last h5 in
    let is_marked : run ≡ set_cancel now before = sym is_run ∙ both is_x answer in
    let final : db'.runs
        ≡ update_where (has_run_id run_id) next_sequence
            (update_where (cancelable run_id) (set_cancel now) db.runs) =
      ap (λ (d : Db). d.runs) (sym is_db)
      ∙ runs'
      ∙ ap (λ (d : Db). update_where (has_run_id run_id) next_sequence d.runs) e4
      ∙ ap (update_where (has_run_id run_id) next_sequence) runs in
    let final' : db'.run_targets ≡ (
        if is_canceled (set_cancel now before).status
        then cancel_targets run_id now db.run_targets
        else db.run_targets) =
      ap (λ (d : Db). d.run_targets) (sym is_db)
      ∙ targets'
      ∙ ap (λ (d : Db). d.run_targets) e4
      ∙ targets in
    (
      ap (λ (r : Run). r.status) is_marked ∙ set_cancel-status now before,
      ap (λ (r : Run). r.cancel_requested_at) is_marked ∙ set_cancel-time now before,
      (
        next_sequence (set_cancel now before),
        ap (first_where (has_run_id run_id)) final ∙ marked_row run_id now before db.runs at live,
        set_cancel-status now before,
        set_cancel-time now before,
      ),
      ap (exists_where (waits_for run_id)) final'
          ∙ cancel_targets-waits run_id now before db.run_targets live,
    )
