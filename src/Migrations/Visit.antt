-- ===== src/Migrations/Visit.antt =====
-- `ordered_migrations` of backend/src/ops_composer/db/migration_engine.py. `visit` recurs on fuel.
use ops_composer.Prelude.{
  ℕ, zero, suc, String, Bool, true, false, Option, none, some, List, [], ◌∷◌, ◌++◌, map, text_eq,
  if◌then◌else◌, first_where, length, sorted, has_text, remove_text, has_duplicates,
}

pub record Migration : Type 0 where
  pub migration_id : String
  pub dependencies : List String
  pub up_sql : String

-- What a MigrationError says. `out_of_fuel` is the model's own.
pub data MigrationError : Type 0 where
  duplicate_id missing_dependencies : MigrationError
  cycle : String → MigrationError
  not_initialized unknown_migrations checksum_mismatch pending_migrations sql_failed out_of_fuel :
      MigrationError

pub data Outcome (A : Type 0) : Type 0 where
  done : A → Outcome A
  failed : MigrationError → Outcome A

infixl 5 ◌>>=◌
abbrev pub ◌>>=◌ : {A B : Type 0} → Outcome A → (A → Outcome B) → Outcome B
done a >>= f = f a
failed e >>= f = failed e

-- The variables that `visit` shares.
pub record Walk : Type 0 where
  pub ordered : List Migration
  pub visiting : List String
  pub visited : List String

abbrev pub id_of : Migration → String
id_of m = m.migration_id

-- `by_id[migration_id]`; a KeyError cannot happen once the dependencies are checked.
unfoldable pub by_id : List Migration → String → Option Migration
unfolding first_where
by_id ms id = first_where (λ m. text_eq m.migration_id id) ms

abbrev pub enter : String → Walk → Walk
enter id w = record w { visiting = id ∷ w.visiting }

abbrev pub leave : String → Migration → Walk → Walk
leave id m w = record w {
  ordered = w.ordered ++ m ∷ [];
  visiting = remove_text id w.visiting;
  visited = w.visited ++ id ∷ [];
}

-- `for … : visit(…)`
unfoldable pub visit_all : (String → Walk → Outcome Walk) → List String → Walk → Outcome Walk
visit_all visit [] w = done w
visit_all visit (id ∷ ids) w = visit id w >>= visit_all visit ids

-- The part of `visit` after `visiting.add`.
unfoldable pub visit_new :
    (String → Walk → Outcome Walk) → String → Option Migration → Walk → Outcome Walk
unfolding visit_all sorted
visit_new visit id none w = failed missing_dependencies
visit_new visit id (some m) w =
    visit_all visit (sorted m.dependencies) (enter id w) >>= λ w'. done (leave id m w')

unfoldable pub visit : List Migration → ℕ → String → Walk → Outcome Walk
unfolding visit_new by_id has_text
visit ms zero id w = failed out_of_fuel
visit ms (suc n) id w =
    if has_text id w.visited
    then done w
    else if has_text id w.visiting
    then failed (cycle id)
    else visit_new (visit ms n) id (by_id ms id) w

-- `set(migration.dependencies) - by_id.keys()`
unfoldable pub is_missing : List String → List String → Bool
unfolding has_text
is_missing ids [] = false
is_missing ids (d ∷ ds) = if has_text d ids then is_missing ids ds else true

unfoldable pub any_missing : List String → List Migration → Bool
unfolding is_missing
any_missing ids [] = false
any_missing ids (m ∷ ms) = if is_missing ids m.dependencies then true else any_missing ids ms

abbrev pub start : Walk
start = record { ordered = []; visiting = []; visited = [] }

-- A walk is never deeper than there are migrations.
unfoldable pub walk : List Migration → Outcome Walk
unfolding visit_all visit sorted
walk ms = visit_all (visit ms (suc (length ms))) (sorted (map id_of ms)) start

unfoldable pub ordered_migrations : List Migration → Outcome (List Migration)
unfolding walk any_missing has_duplicates
ordered_migrations ms =
    if has_duplicates (map id_of ms)
    then failed duplicate_id
    else if any_missing (map id_of ms) ms
    then failed missing_dependencies
    else walk ms >>= λ w. done w.ordered
