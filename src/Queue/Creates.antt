-- ===== src/Queue/Creates.antt =====
-- `create_or_get` of repositories/runs.py against the agreement of the tables.
use ops_composer.Prelude.{
  ◌≡◌, refl, ◌∙◌, true, false, Option, none, some, List, [], ◌∷◌, ◌++◌, inl, inr, arith, ==_refl,
  Bool-cases, Option-cases, All, All-map, All-append, first_where, first_where-append,
  first_where-append_none, exists_where,
}
use ops_composer.Db.{Db, err, After, After-bind, ◌>>=◌, return}
use ops_composer.Domain.Errors.{database_error}
use ops_composer.Domain.Ops.{Run, RunTarget}
use ops_composer.Queue.Store.{
  has_run_id, run_of, by_key, is_queued, is_pending, insert_new, insert_run, insert_targets,
  get_created, get_by_idempotency_key, same_target, create_or_get,
}
use ops_composer.Queue.Settled.{Agrees, IsSettled}

-- A target that waits on the run.
abbrev pub IsFresh : Run → RunTarget → Type 0
IsFresh run t = (t.run_id ≡ run.run_id) × (is_pending t.status ≡ true)

fresh-Agrees :
    (runs : List Run) (row : Run) (t : RunTarget)
    → first_where (has_run_id row.run_id) runs ≡ some row
    → is_queued row.status ≡ true
    → IsFresh row t
    → Agrees (first_where (has_run_id t.run_id) runs) t
fresh-Agrees runs row t found queued fresh = rw (fresh.0, found) (ground (arith, queued, fresh.1))

-- One target of the statement, by its key.
module _ (t : RunTarget) (ts : List RunTarget) (db : Db) where
  pub insert_targets_clash :
      exists_where (same_target t) db.run_targets ≡ true
      → insert_targets (t ∷ ts) db ≡ err database_error
  unfolding insert_targets
  insert_targets_clash clash = rw clash

  pub insert_targets_new :
      exists_where (same_target t) db.run_targets ≡ false
      → insert_targets (t ∷ ts) db
        ≡ insert_targets ts (record db { run_targets = db.run_targets ++ t ∷ [] })
  unfolding insert_targets
  insert_targets_new new = rw new

module _ (row : Run) (queued : is_queued row.status ≡ true) where
  insert_targets-IsSettled :
      (ts : List RunTarget) (db : Db)
      → first_where (has_run_id row.run_id) db.runs ≡ some row
      → All (IsFresh row) ts
      → IsSettled db
      → After IsSettled (insert_targets ts db)
  insert_targets-IsSettled [] db found fresh s = unfold insert_targets in s
  insert_targets-IsSettled (t ∷ ts) db found fresh s =
      elim (Bool-cases (exists_where (same_target t) db.run_targets)) [
        | inl clash ↦ rw (insert_targets_clash t ts db clash) tt
        | inr new ↦ rw (insert_targets_new t ts db new) (
            insert_targets-IsSettled ts (record db { run_targets = db.run_targets ++ t ∷ [] }) found
              fresh.1
              (record {
                keyed = s.keyed;
                settled =
                    All-append (λ x. Agrees (first_where (has_run_id x.run_id) db.runs) x)
                      db.run_targets (t ∷ []) s.settled
                      (fresh-Agrees db.runs row t found queued fresh.0, tt);
              }))
      ]

-- One more row under a new id.
module _ (row : Run) (db : Db) (new : first_where (has_run_id row.run_id) db.runs ≡ none) where
  insert_found : first_where (has_run_id row.run_id) (db.runs ++ row ∷ []) ≡ some row
  unfolding first_where
  insert_found =
      first_where-append_none (has_run_id row.run_id) db.runs (row ∷ []) new
      ∙ rw (==_refl row.run_id)

  insert_row-IsSettled : IsSettled db → IsSettled (record db { runs = db.runs ++ row ∷ [] })
  insert_row-IsSettled s = record {
    keyed =
        All-append (λ r. first_where (has_run_id r.run_id) (db.runs ++ row ∷ []) ≡ some r) db.runs
          (row ∷ [])
          (All-map _ _ db.runs
            (λ r h. first_where-append (has_run_id r.run_id) db.runs (row ∷ []) h) s.keyed)
          (insert_found, tt);
    settled =
        All-map _ _ db.run_targets
          (λ t h. kept t (first_where (has_run_id t.run_id) db.runs) refl h) s.settled;
  }
    where
      kept :
          (t : RunTarget) (o : Option Run)
          → first_where (has_run_id t.run_id) db.runs ≡ o
          → Agrees (first_where (has_run_id t.run_id) db.runs) t
          → Agrees (first_where (has_run_id t.run_id) (db.runs ++ row ∷ [])) t
      kept t none e h = absurd (rw e at h)
      kept t (some r) e h =
          rw (first_where-append (has_run_id t.run_id) db.runs (row ∷ []) e) (rw e at h)

-- a replay changes nothing
get_created-none :
    (run : Run) (targets : List RunTarget) (db : Db)
    → IsSettled db
    → After IsSettled (get_created run targets none db)
unfolding get_created get_by_idempotency_key
get_created-none run targets db s =
    elim (Option-cases (first_where (by_key run.requested_by run.idempotency_key) db.runs)) [
      | inl no_row ↦ rw (no_row, ◌>>=◌) tt
      | inr (r, row) ↦ rw (row, ◌>>=◌) s
    ]

get_created-some :
    (run row : Run) (targets : List RunTarget) (db : Db)
    → After IsSettled (insert_targets targets db)
    → After IsSettled (get_created run targets (some row) db)
unfolding get_created
get_created-some run row targets db s =
    After-bind IsSettled IsSettled (insert_targets targets) (λ _. return (row, true)) db s
      (λ _ mid h. h)

-- `create_or_get`, for a queued run with targets that wait on it.
pub create_or_get-IsSettled :
    (run : Run) (targets : List RunTarget) (db : Db)
    → is_queued run.status ≡ true
    → All (IsFresh run) targets
    → IsSettled db
    → After IsSettled (create_or_get run targets db)
unfolding create_or_get insert_run run_of
create_or_get-IsSettled run targets db queued fresh s =
    go (first_where (by_key run.requested_by run.idempotency_key) db.runs) (run_of run.run_id db)
      refl
  where
    go :
        (conflict same_id : Option Run)
        → run_of run.run_id db ≡ same_id
        → After IsSettled ((insert_new run conflict same_id >>= get_created run targets) db)
    go (some c) same_id e = unfold insert_new in get_created-none run targets db s
    go none (some x) e = unfold insert_new in tt
    go none none e =
        let row = record run { next_event_sequence = 1 } in
        unfold insert_new in
        get_created-some run row targets (record db { runs = db.runs ++ row ∷ [] })
          (insert_targets-IsSettled row queued targets (record db { runs = db.runs ++ row ∷ [] })
            (insert_found row db e) fresh (insert_row-IsSettled row db e s))
