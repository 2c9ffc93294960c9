-- ===== src/Migrations/Runner.antt =====
-- `MigrationRunner` of backend/src/ops_composer/db/migration_engine.py. `checksum` is the SHA-256 of a
-- migration; `S` is the rest of the database, and `run_sql` what a migration's SQL does to it, or none
-- for an error of the database.
use ops_composer.Prelude.{
  ℕ, String, Bool, true, false, not, Option, none, some, List, [], ◌∷◌, ◌++◌, map, text_eq,
  if◌then◌else◌, exists_where, first_where, has_text, is_set,
}
use ops_composer.Migrations.Visit.{
  Migration, not_initialized, unknown_migrations, checksum_mismatch, pending_migrations, sql_failed,
  Outcome, done, failed, ◌>>=◌, by_id,
}

-- A row of `schema_migrations`.
pub record Applied : Type 0 where
  pub migration_id : String
  pub checksum : String
  pub applied_at : ℕ

abbrev pub row_id : Applied → String
row_id r = r.migration_id

pub data MigrationState : Type 0 where
  applied pending : MigrationState

pub record MigrationStatus : Type 0 where
  pub migration_id : String
  pub checksum : String
  pub state : MigrationState
  pub applied_at : Option ℕ

-- The database: no tracking table, or its rows, and the rest.
pub record Schema (S : Type 0) : Type 0 where
  pub tracking : Option (List Applied)
  pub state : S

-- `self._applied()`: no table, no rows.
abbrev pub applied_rows : Option (List Applied) → List Applied
applied_rows none = []
applied_rows (some rows) = rows

unfoldable pub is_pending : List Applied → Migration → Bool
unfolding has_text
is_pending rows m = not (has_text m.migration_id (map row_id rows))

module _ (checksum : Migration → String) (migrations : List Migration) where
  unfoldable pub is_unknown : Applied → Bool
  unfolding by_id
  is_unknown r = not (is_set (by_id migrations r.migration_id))

  unfoldable pub is_changed : Applied → Bool
  unfolding by_id
  is_changed r = elim (by_id migrations r.migration_id) [
    | none ↦ false
    | some m ↦ not (text_eq (checksum m) r.checksum)
  ]

  unfoldable pub validate_rows : List Applied → Outcome (Unit {0})
  unfolding exists_where is_unknown is_changed
  validate_rows rows =
      if exists_where is_unknown rows
      then failed unknown_migrations
      else if exists_where is_changed rows
      then failed checksum_mismatch
      else done tt

  unfoldable pub validate_history : Option (List Applied) → Outcome (Unit {0})
  unfolding validate_rows
  validate_history none = failed not_initialized
  validate_history (some rows) = validate_rows rows

  unfoldable pub validate_current : Option (List Applied) → Outcome (Unit {0})
  unfolding validate_history exists_where is_pending
  validate_current tracking = validate_history tracking >>= λ _.
      if exists_where (is_pending (applied_rows tracking)) migrations
      then failed pending_migrations
      else done tt

  abbrev pub status_of : Option Applied → Migration → MigrationStatus
  status_of none m = record {
    migration_id = m.migration_id;
    checksum = checksum m;
    state = pending;
    applied_at = none;
  }
  status_of (some r) m = record {
    migration_id = m.migration_id;
    checksum = checksum m;
    state = applied;
    applied_at = some r.applied_at;
  }

  unfoldable pub status : Option (List Applied) → List MigrationStatus
  unfolding first_where
  status tracking =
      map
        (λ m.
          status_of
            (first_where (λ r. text_eq r.migration_id m.migration_id) (applied_rows tracking)) m)
        migrations

-- The row that is inserted for a migration.
abbrev pub row_of : (Migration → String) → ℕ → Migration → Applied
row_of checksum now m = record {
  migration_id = m.migration_id;
  checksum = checksum m;
  applied_at = now;
}

module _ {S : Type 0} (checksum : Migration → String) (run_sql : String → S → Option S)
    (now : ℕ) where
  -- What is left of one migration's statements, of which the first has run or not.
  abbrev pub executed : Migration → List Applied → Option S → Outcome (List Applied × S)
  executed m rows none = failed sql_failed
  executed m rows (some s) = done (rows ++ row_of checksum now m ∷ [], s)

  -- One migration: its SQL, and its row.
  unfoldable pub apply_one : Migration → List Applied → S → Outcome (List Applied × S)
  apply_one m rows s = executed m rows (run_sql m.up_sql s)

  -- The loop, with the ids that were applied before it.
  unfoldable pub apply_all :
      List Migration → List String → List Applied → S → Outcome (List String × List Applied × S)
  unfolding apply_one has_text
  apply_all [] before rows s = done ([], rows, s)
  apply_all (m ∷ ms) before rows s =
      elim (has_text m.migration_id before) as (λ _. Outcome (List String × List Applied × S)) [
        | true ↦ apply_all ms before rows s
        | false ↦ apply_one m rows s >>= λ r.
            apply_all ms before r.0 r.1 >>= λ rest. done (m.migration_id ∷ rest.0, rest.1, rest.2)
      ]

  -- CREATE TABLE IF NOT EXISTS, and the rest of the transaction.
  unfoldable pub up : List Migration → Schema S → Outcome (List String × Schema S)
  unfolding apply_all validate_rows
  up migrations db =
      let rows = applied_rows db.tracking in
      validate_rows checksum migrations rows >>= λ _.
      apply_all migrations (map row_id rows) rows db.state >>= λ r.
      done (r.0, record { tracking = some r.1; state = r.2 })
