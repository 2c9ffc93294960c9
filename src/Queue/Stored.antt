-- ===== src/Queue/Stored.antt =====
-- About what a new run of `RunService._create` of backend/src/ops_composer/services/runs.py leaves in the
-- tables.
use mathlib.Core.List.{append_assoc, append-nil}
use ops_composer.Prelude.{
  ℕ, ◌≡◌, refl, sym, ap, subst, ◌∙◌, Bool, true, false, not, Option, none, some, List, [], ◌∷◌,
  ◌++◌, ◌&&◌, ◌||◌, ◌==◌, ==_refl, inl, inr, arith, map, length, Bool-cases, All, All-map,
  All-exists_where, exists_where, exists_where-append, exists_where-mapped,
  exists_where-update_where_same, first_where,
}
use ops_composer.Db.{
  Db, Tx, ok, return, After, After-ok, After-bind, Keeps, Keeps-bind, Keeps-raise_if, ◌>>=◌, ◌>>◌,
  >>=-eq-ok,
}
use ops_composer.Domain.Assets.{ResolvedHost}
use ops_composer.Domain.Errors.{host_key_confirmation_required}
use ops_composer.Domain.Ops.{Run, RunStatus, RunTarget, RunTargetStatus, RunEvent}
use ops_composer.Audit
use ops_composer.Queue.Store.{
  by_key, has_run_id, run_of, same_target, insert_targets, insert_run, get_created, create_or_get,
  insert_new,
}
use ops_composer.Queue.Events.{append_event, append_to, next_sequence, same_event}
use ops_composer.Queue.Submit.{
  Sources, RunRequest, new_run, new_target, host_id_of, resolve_targets,
  require_confirmed_host_keys, queued_event, created_event, complete, persist,
}
use ops_composer.Queue.Confirmed.{persist_parts, complete-confirmed, insert_new-fresh}
use ops_composer.Queue.Replays.{create_or_get-runs}

abbrev pub queued_as : ℕ → Run → Bool
queued_as run_id r = r.run_id == run_id && elim r.status [ RunStatus.queued ↦ true | _ ↦ false ]

abbrev pub waits_on : ℕ → ℕ → RunTarget → Bool
waits_on run_id host_id t =
    t.run_id == run_id
    && t.host_id == host_id
    && elim t.status [ RunTargetStatus.pending ↦ true | _ ↦ false ]

-- The run is queued, and has a target that waits on each of the hosts.
abbrev IsStored : ℕ → List ResolvedHost → Db → Type 0
IsStored run_id hosts db =
    (exists_where (queued_as run_id) db.runs ≡ true)
    × All (λ host. exists_where (waits_on run_id host.host_id) db.run_targets ≡ true) hosts

append_to-IsStored :
    (run_id : ℕ) (hosts : List ResolvedHost) (event : RunEvent) (o : Option Run)
    → Keeps (IsStored run_id hosts) (append_to event o)
unfolding append_to
append_to-IsStored run_id hosts event none db h = tt
append_to-IsStored run_id hosts event (some r) db h =
    elim (Bool-cases (
      exists_where (same_event (record event { sequence = r.next_event_sequence }))
        db.run_events)) [
          | inl e ↦ rw e tt
          | inr e ↦ rw e (
            exists_where-update_where_same (queued_as run_id) (has_run_id event.run_id)
                  next_sequence (λ r. refl) db.runs
                ∙ h.0,
            h.1,
          )
        ]

insert_targets-rows :
    (ts rows : List RunTarget) (db : Db)
    → db.run_targets ++ ts ≡ rows
    → After (λ d. d.run_targets ≡ rows) (insert_targets ts db)
unfolding insert_targets
insert_targets-rows [] rows db h = sym (append-nil db.run_targets) ∙ h
insert_targets-rows (t ∷ ts) rows db h =
    elim (Bool-cases (exists_where (same_target t) db.run_targets)) [
      | inl e ↦ rw e tt
      | inr e ↦ rw e (
          insert_targets-rows ts rows (record db { run_targets = db.run_targets ++ t ∷ [] })
            (append_assoc db.run_targets (t ∷ []) ts ∙ h))
    ]

insert_new-rows :
    (run : Run) (same_id : Option Run) (db : Db)
    → After (λ d. d.run_targets ≡ db.run_targets) (insert_new run none same_id db)
unfolding insert_new
insert_new-rows run none db = refl
insert_new-rows run (some r) db = tt

-- The targets of a new run stand behind those that were there.
create_or_get-rows :
    (run : Run) (ts : List RunTarget) (db mid : Db) (stored : Run × Bool)
    → first_where (by_key run.requested_by run.idempotency_key) db.runs ≡ none
    → create_or_get run ts db ≡ ok (stored, mid)
    → mid.run_targets ≡ db.run_targets ++ ts
unfolding create_or_get insert_run get_created
create_or_get-rows run ts db mid stored fresh h =
    let row : Run = record run { next_event_sequence = 1 } in
    let rows = db.run_targets ++ ts in
    let (o, d1, inserted, h1) = >>=-eq-ok (insert_run run) (get_created run ts) db h in
    let at_once : insert_new run none (run_of run.run_id db) db ≡ ok (o, d1) =
      subst (λ x. insert_new run x (run_of run.run_id db) db ≡ ok (o, d1)) fresh inserted in
    let same : d1.run_targets ≡ db.run_targets =
      After-ok (λ d. d.run_targets ≡ db.run_targets) _
        (insert_new-rows run (run_of run.run_id db) db) at_once in
    let some_row : o ≡ some row = insert_new-fresh run (run_of run.run_id db) db d1 o at_once in
    After-ok (λ d. d.run_targets ≡ rows) _
      (After-bind (λ d. d.run_targets ≡ rows) (λ d. d.run_targets ≡ rows) (insert_targets ts)
        (λ _. return (row, true)) d1 (insert_targets-rows ts rows d1 (ap (λ xs. xs ++ ts) same))
        (λ _ d k. k))
      (subst (λ x. get_created run ts x d1 ≡ ok (stored, mid)) some_row h1)

module _ (sources : Sources) (request : RunRequest) (now : ℕ) where
  complete-IsStored :
      (hosts : List ResolvedHost) (run : Run) (run_id : ℕ)
      → Keeps (IsStored run_id hosts) (complete sources request now hosts run true)
  unfolding complete require_confirmed_host_keys append_event Audit.append
  complete-IsStored hosts run run_id =
      let P = IsStored run_id hosts in
      let ends : Unit {0} → Tx Run =
        λ _. (do Audit.append (created_event sources request now run.run_id); return run) in
      let event = queued_event sources request now run.run_id hosts in
      Keeps-bind P (require_confirmed_host_keys sources.assets hosts)
        (λ _. append_event event >>= λ _. ends tt)
        (Keeps-raise_if P
          (not (length (sources.assets.host_ids_without_keys (map host_id_of hosts)) == 0))
          host_key_confirmation_required)
        λ _.
          Keeps-bind P (append_event event) (λ _. ends tt)
            (λ db h. append_to-IsStored run_id hosts event (run_of run.run_id db) db h) λ _ db h. h

  -- The targets of the hosts, among the rows.
  targets_stored :
      (hosts : List ResolvedHost) (rows : List RunTarget)
      → All
          (λ host.
            exists_where
              (waits_on sources.run_id host.host_id)
              (rows ++ map (new_target sources request now) hosts)
            ≡ true)
          hosts
  targets_stored hosts rows =
      All-map _ _ hosts
        (λ host self.
          exists_where-append (waits_on sources.run_id host.host_id) rows
            (map (new_target sources request now) hosts)
          ∙ ap (λ b. exists_where (waits_on sources.run_id host.host_id) rows || b)
              (exists_where-mapped (waits_on sources.run_id host.host_id)
                (new_target sources request now) hosts
                (self (λ h. waits_on sources.run_id host.host_id (new_target sources request now h))
                  (rw (==_refl sources.run_id, ==_refl host.host_id) refl)))
          ∙ ground arith)
        (All-exists_where hosts)

  -- A request under a key that no run has, whose second unit of work returns a run: the target of the
  -- request resolves to hosts, none of which lacks a trusted key; the run that is returned is queued, for
  -- the request's user and under the request's key; the table of runs has a queued run of its id, and
  -- the table of targets a pending target of that run for each of the hosts.
  pub persist-stored :
      (run : Run) (db db' : Db)
      → first_where (by_key request.requested_by request.idempotency_key) db.runs ≡ none
      → persist sources request now db ≡ ok (run, db')
      → (hosts : List ResolvedHost) × (resolve_targets sources.assets request.target_kind
            request.host_ids request.group_id db
          ≡ ok (hosts, db))
        × (length (sources.assets.host_ids_without_keys (map host_id_of hosts)) ≡ 0)
        × (run.status ≡ RunStatus.queued)
        × (run.requested_by ≡ request.requested_by)
        × (run.idempotency_key ≡ request.idempotency_key)
        × (exists_where (queued_as run.run_id) db'.runs ≡ true)
        × All (λ host. exists_where (waits_on run.run_id host.host_id) db'.run_targets ≡ true) hosts
  unfolding exists_where
  persist-stored run db db' fresh h =
      let (hosts, mid, resolved, made, completed) =
        persist_parts sources request now run db db' fresh h in
      let new = new_run sources request now hosts in
      let ts = map (new_target sources request now) hosts in
      let rows = create_or_get-runs new ts db mid (new, true) fresh made in
      let targets = create_or_get-rows new ts db mid (new, true) fresh made in
      let (is_new, trusted) =
        complete-confirmed sources request now hosts run new mid db' completed in
      let at : IsStored sources.run_id hosts mid = (
        rw rows (
            exists_where-append (queued_as sources.run_id) db.runs
              (record new { next_event_sequence = 1 } ∷ [])
            ∙ rw (==_refl sources.run_id) (ground arith)),
        rw targets (targets_stored hosts db.run_targets),
      ) in
      let (runs, waiting) =
        After-ok (IsStored sources.run_id hosts) _
          (complete-IsStored hosts new sources.run_id mid at) completed in
      let id : run.run_id ≡ sources.run_id = ap (λ (r : Run). r.run_id) is_new in
      (
        hosts,
        resolved,
        trusted,
        ap (λ (r : Run). r.status) is_new,
        ap (λ (r : Run). r.requested_by) is_new,
        ap (λ (r : Run). r.idempotency_key) is_new,
        subst (λ i. exists_where (queued_as i) db'.runs ≡ true) (sym id) runs,
        subst
            (λ i. All (λ host. exists_where (waits_on i host.host_id) db'.run_targets ≡ true) hosts)
            (sym id) waiting,
      )
