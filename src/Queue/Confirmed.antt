-- ===== src/Queue/Confirmed.antt =====
-- About new runs of `RunService._create` of backend/src/ops_composer/services/runs.py.
use ops_composer.Prelude.{
  ℕ, ◌≡◌, sym, ap, ◌∙◌, subst, Bool, true, not, Option, none, some, List, [], ◌∷◌, ◌==◌, ==_iff,
  text_eq, map, length, arith, first_where,
}
use ops_composer.Db.{Db, Tx, Result, ok, return, raise_if, >>=-eq-ok, raise_if-eq-ok, ◌>>=◌, ◌>>◌}
use ops_composer.Domain.Assets.{Assets, ResolvedHost}
use ops_composer.Domain.Errors.{
  idempotency_conflict, validation, not_found, host_key_confirmation_required,
}
use ops_composer.Domain.Ops.{Run, RunTarget, TargetKind}
use ops_composer.Audit
use ops_composer.Queue.Store.{
  by_key, run_of, insert_new, insert_run, insert_targets, get_created, create_or_get,
}
use ops_composer.Queue.Events.{append_event}
use ops_composer.Queue.Submit.{
  Sources, RunRequest, fingerprint_of, new_run, new_target, count_distinct, host_id_of, some_hosts,
  resolve_targets, require_confirmed_host_keys, queued_event, created_event, complete, persist,
}

pub ok-inj : {A : Type 0} {a b : A} → ◌≡◌ {A = Result A} (ok a) (ok b) → a ≡ b
ok-inj h = cc

-- Resolving the targets reads only.
some_hosts-eq-ok :
    (hosts found : List ResolvedHost) (db mid : Db)
    → some_hosts hosts db ≡ ok (found, mid)
    → mid ≡ db
some_hosts-eq-ok [] found db mid h = cc
some_hosts-eq-ok (x ∷ hosts) found db mid h = cc

pub resolve_targets-eq-ok :
    (assets : Assets) (kind : TargetKind) (host_ids : List ℕ) (group_id : Option ℕ)
    (found : List ResolvedHost) (db mid : Db)
    → resolve_targets assets kind host_ids group_id db ≡ ok (found, mid)
    → mid ≡ db
unfolding resolve_targets
resolve_targets-eq-ok assets TargetKind.all host_ids group_id found db mid h =
    some_hosts-eq-ok assets.resolve_all_hosts found db mid h
resolve_targets-eq-ok assets TargetKind.hosts host_ids group_id found db mid h =
    let (_, d1, g1, h1) = >>=-eq-ok (raise_if (length host_ids == 0) validation) _ db h in
    let mismatch = not (length (assets.resolve_host_ids host_ids) == count_distinct host_ids) in
    let (_, d2, g2, h2) =
      >>=-eq-ok (raise_if mismatch validation) (λ _. some_hosts (assets.resolve_host_ids host_ids))
        d1 h1 in
    some_hosts-eq-ok (assets.resolve_host_ids host_ids) found d2 mid h2
    ∙ (raise_if-eq-ok mismatch validation d1 d2 g2).1
    ∙ (raise_if-eq-ok (length host_ids == 0) validation db d1 g1).1
resolve_targets-eq-ok assets TargetKind.group host_ids none found db mid h = cc
resolve_targets-eq-ok assets TargetKind.group host_ids (some g) found db mid h =
    let (_, d1, g1, h1) = >>=-eq-ok (raise_if (not (assets.has_group g)) not_found) _ db h in
    some_hosts-eq-ok (assets.resolve_group_hosts g) found d1 mid h1
    ∙ (raise_if-eq-ok (not (assets.has_group g)) not_found db d1 g1).1

-- A run that is inserted under a key that no run has.
pub insert_new-fresh :
    (run : Run) (same_id : Option Run) (db mid : Db) (o : Option Run)
    → insert_new run none same_id db ≡ ok (o, mid)
    → o ≡ some (record run { next_event_sequence = 1 })
unfolding insert_new
insert_new-fresh run none db mid o h = sym (ap (λ (x : Option Run × Db). x.0) (ok-inj h))
insert_new-fresh run (some r) db mid o h = cc

get_created-fresh :
    (run row : Run) (targets : List RunTarget) (db mid : Db) (stored : Run × Bool)
    → get_created run targets (some row) db ≡ ok (stored, mid)
    → stored ≡ (row, true)
unfolding get_created
get_created-fresh run row targets db mid stored h =
    let (_, d1, _, h1) = >>=-eq-ok (insert_targets targets) (λ _. return (row, true)) db h in
    sym (ap (λ (x : (Run × Bool) × Db). x.0) (ok-inj h1))

pub create_or_get-fresh :
    (run : Run) (targets : List RunTarget) (db mid : Db) (stored : Run × Bool)
    → first_where (by_key run.requested_by run.idempotency_key) db.runs ≡ none
    → create_or_get run targets db ≡ ok (stored, mid)
    → stored ≡ (record run { next_event_sequence = 1 }, true)
unfolding create_or_get insert_run
create_or_get-fresh run targets db mid stored fresh h =
    let (o, d1, inserted, h1) = >>=-eq-ok (insert_run run) (get_created run targets) db h in
    let row =
      insert_new-fresh run (run_of run.run_id db) db d1 o
        (subst (λ x. insert_new run x (run_of run.run_id db) db ≡ ok (o, d1)) fresh inserted) in
    get_created-fresh run (record run { next_event_sequence = 1 }) targets d1 mid stored
      (subst (λ x. get_created run targets x d1 ≡ ok (stored, mid)) row h1)

module _ (sources : Sources) (request : RunRequest) (now : ℕ) where
  pub complete-confirmed :
      (hosts : List ResolvedHost) (run fresh : Run) (db db' : Db)
      → complete sources request now hosts fresh true db ≡ ok (run, db')
      → (run ≡ fresh) × (length (sources.assets.host_ids_without_keys (map host_id_of hosts)) ≡ 0)
  unfolding complete require_confirmed_host_keys
  complete-confirmed hosts run fresh db db' h =
      let missing = length (sources.assets.host_ids_without_keys (map host_id_of hosts)) in
      let ends : Unit {0} → Tx Run =
        λ _. (do Audit.append (created_event sources request now fresh.run_id); return fresh) in
      let (_, d1, g, h1) =
        >>=-eq-ok (raise_if (not (missing == 0)) host_key_confirmation_required)
          (λ _. append_event (queued_event sources request now fresh.run_id hosts) >>= λ _. ends tt)
          db h in
      let (_, d2, _, h2) =
        >>=-eq-ok (append_event (queued_event sources request now fresh.run_id hosts))
          (λ _. ends tt) d1 h1 in
      let (_, d3, _, h3) =
        >>=-eq-ok (Audit.append (created_event sources request now fresh.run_id))
          (λ _. return fresh) d2 h2 in
      let (trusted, _) =
        raise_if-eq-ok (not (missing == 0)) host_key_confirmation_required db d1 g in
      let none_left : (missing == 0) ≡ true = ground (arith, trusted) in
      (sym (ap (λ (x : Run × Db). x.0) (ok-inj h3)), (==_iff missing 0).0 none_left)

  -- The parts of a second unit of work that returns, under a key that no run has.
  pub persist_parts :
      (run : Run) (db db' : Db)
      → first_where (by_key request.requested_by request.idempotency_key) db.runs ≡ none
      → persist sources request now db ≡ ok (run, db')
      → (hosts : List ResolvedHost) × (mid : Db) × (resolve_targets sources.assets
            request.target_kind request.host_ids request.group_id db
          ≡ ok (hosts, db))
        × (create_or_get
              (new_run sources request now hosts)
              (map (new_target sources request now) hosts)
              db
            ≡ ok ((new_run sources request now hosts, true), mid))
        × (complete sources request now hosts (new_run sources request now hosts) true mid
            ≡ ok (run, db'))
  unfolding persist
  persist_parts run db db' fresh h =
      let resolve =
        resolve_targets sources.assets request.target_kind request.host_ids request.group_id in
      let print = fingerprint_of sources request now in
      let (hosts, d1, resolved, h1) =
        >>=-eq-ok resolve
          (λ hosts. do
            stored ←
                create_or_get (new_run sources request now hosts)
                  (map (new_target sources request now) hosts)
            raise_if (not (text_eq stored.0.request_fingerprint print)) idempotency_conflict
            complete sources request now hosts stored.0 stored.1)
          db h in
      let new = new_run sources request now hosts in
      let targets = map (new_target sources request now) hosts in
      let same : d1 ≡ db =
        resolve_targets-eq-ok sources.assets request.target_kind request.host_ids request.group_id
          hosts db d1 resolved in
      let (stored, d2, made, h2) =
        >>=-eq-ok (create_or_get new targets)
          (λ stored. do
            raise_if (not (text_eq stored.0.request_fingerprint print)) idempotency_conflict
            complete sources request now hosts stored.0 stored.1)
          d1 h1 in
      let (_, d3, guarded, h3) =
        >>=-eq-ok (raise_if (not (text_eq stored.0.request_fingerprint print)) idempotency_conflict)
          (λ _. complete sources request now hosts stored.0 stored.1) d2 h2 in
      let (_, kept) =
        raise_if-eq-ok (not (text_eq stored.0.request_fingerprint print)) idempotency_conflict d2 d3
          guarded in
      let made' : create_or_get new targets db ≡ ok (stored, d2) =
        subst (λ d. create_or_get new targets d ≡ ok (stored, d2)) same made in
      let is_new : stored ≡ (new, true) =
        create_or_get-fresh new targets db d2 stored fresh made' in
      (
        hosts,
        d2,
        subst (λ d. resolve db ≡ ok (hosts, d)) same resolved,
        subst (λ x. create_or_get new targets db ≡ ok (x, d2)) is_new made',
        subst (λ (x : Run × Bool). complete sources request now hosts x.0 x.1 d2 ≡ ok (run, db'))
            is_new
            (subst (λ d. complete sources request now hosts stored.0 stored.1 d ≡ ok (run, db'))
              kept h3),
      )
