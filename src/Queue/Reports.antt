-- ===== src/Queue/Reports.antt =====
-- About reports of the end of a run, repeated requests and sensitive parameters: `finish` of
-- services/runs.py, `create_or_get` and the secret inputs of repositories/runs.py.
use ops_composer.Prelude.{
  ℕ, String, ◌≡◌, refl, ap, subst, ◌∙◌, Bool, true, false, Option, none, some, List, [], ◌∷◌, ◌++◌,
  inl, inr, arith, ◌==◌, ==_refl, Bool-cases, first_where, exists_where, delete_where,
}
use ops_composer.Db.{Db, Result, ok, err, SecretInputs, run_tx, >>=-ok}
use ops_composer.Domain.Errors.{runtime_error}
use ops_composer.Domain.Ops.{Run, RunTarget}
use ops_composer.Queue.Store.{
  by_key, insert_run, insert_new, get_created, get_by_idempotency_key, create_or_get,
}
use ops_composer.Queue.Lifecycle
use ops_composer.Queue.Lifecycle.{Outcome, owned_by}
use ops_composer.Queue.Events.{secrets_of, add_secret_inputs, consume_secret_inputs}
use ops_composer.Queue.Coordinator

-- A worker that reports the end of a run which it does not own any more, because the run was recovered
-- or has ended, gets an error, and the database stays as it was.
finish_foreign :
    (worker_id : String) (event_id run_id : ℕ) (o : Outcome) (now : ℕ) (db : Db)
    → first_where (owned_by run_id worker_id) db.runs ≡ none
    → run_tx (Coordinator.finish worker_id event_id run_id o now) db ≡ (err runtime_error, db)
unfolding run_tx Coordinator.finish Lifecycle.finish
finish_foreign worker_id event_id run_id o now db gone = rw gone

insert_run_replay :
    (run row : Run) (db : Db)
    → first_where (by_key run.requested_by run.idempotency_key) db.runs ≡ some row
    → insert_run run db ≡ ok (none, db)
unfolding insert_run insert_new
insert_run_replay run row db e = rw e

get_created_replay :
    (run row : Run) (targets : List RunTarget) (db : Db)
    → first_where (by_key run.requested_by run.idempotency_key) db.runs ≡ some row
    → get_created run targets none db ≡ ok ((row, false), db)
unfolding get_created get_by_idempotency_key
get_created_replay run row targets db e = rw e

-- A request whose requester and idempotency key have a run already gets that run, marked as not new,
-- and neither a run nor a target is stored.
pub create_or_get_replay :
    (run row : Run) (targets : List RunTarget) (db : Db)
    → first_where (by_key run.requested_by run.idempotency_key) db.runs ≡ some row
    → create_or_get run targets db ≡ ok ((row, false), db)
unfolding create_or_get
create_or_get_replay run row targets db e =
    >>=-ok (insert_run run) (get_created run targets) db (insert_run_replay run row db e)
    ∙ get_created_replay run row targets db e

not_stored :
    (p : SecretInputs → Bool) (s : SecretInputs) (ss : List SecretInputs)
    → exists_where p ss ≡ false
    → p s ≡ true
    → (first_where p (ss ++ s ∷ []) ≡ some s) × (delete_where p (ss ++ s ∷ []) ≡ ss)
unfolding exists_where first_where delete_where
not_stored p s [] new mine = rw mine (refl, refl)
not_stored p s (x ∷ ss) new mine = elim (Bool-cases (p x)) [
  | inl e ↦ absurd (ground (arith, e, new))
  | inr e ↦
      let (found, left) = not_stored p s ss (rw e at new) mine in
      rw e (found, ap (λ xs. x ∷ xs) left)
]

-- The sensitive parameters that were stored for a run are what the first read gives, and that read
-- leaves the database as it was before they were stored.
pub add_consume :
    (inputs : SecretInputs) (db db' : Db)
    → add_secret_inputs inputs db ≡ ok (tt, db')
    → consume_secret_inputs inputs.run_id db' ≡ ok (some inputs, db)
unfolding add_secret_inputs consume_secret_inputs
add_consume inputs db db' e =
    elim (Bool-cases (exists_where (secrets_of inputs.run_id) db.run_secret_inputs)) [
      | inl clash ↦ absurd (ground (arith, clash, e))
      | inr new ↦
          let (found, left) =
            not_stored (secrets_of inputs.run_id) inputs db.run_secret_inputs new
              (==_refl inputs.run_id) in
          let after : record db { run_secret_inputs = db.run_secret_inputs ++ inputs ∷ [] } ≡ db' =
            ok-inj (rw new at e) in
          subst (λ d. consume_secret_inputs inputs.run_id d ≡ ok (some inputs, db)) after
            (rw (found, left))
    ]
  where
    ok-inj : {x y : Db} → ◌≡◌ {A = Result (Unit {0} × Db)} (ok (tt, x)) (ok (tt, y)) → x ≡ y
    ok-inj h = cc

none_left :
    (run_id : ℕ) (ss : List SecretInputs)
    → first_where (secrets_of run_id) (delete_where (secrets_of run_id) ss) ≡ none
unfolding first_where delete_where
none_left run_id [] = refl
none_left run_id (s ∷ ss) = elim (Bool-cases (s.run_id == run_id)) [
  | inl e ↦ rw e (none_left run_id ss)
  | inr e ↦ rw e (rw e (none_left run_id ss))
]

-- Whatever the first read of a run's sensitive parameters gives, a second read finds none.
pub consume_once :
    (run_id : ℕ) (db db' db'' : Db) (o p : Option SecretInputs)
    → consume_secret_inputs run_id db ≡ ok (o, db')
    → consume_secret_inputs run_id db' ≡ ok (p, db'')
    → p ≡ none
unfolding consume_secret_inputs
consume_once run_id db db' db'' o p e f =
    let left : db'.run_secret_inputs ≡ delete_where (secrets_of run_id) db.run_secret_inputs =
      ground (arith, e) in
    let read : p ≡ first_where (secrets_of run_id) db'.run_secret_inputs = ground (arith, f) in
    read ∙ ap (first_where (secrets_of run_id)) left ∙ none_left run_id db.run_secret_inputs
