-- ===== src/Migrations/Examples.antt =====
-- The theorems on the schema's migrations at two of them, of which the later one is listed first.
use ops_composer.Prelude.{
  String, ◌≡◌, ◌≢◌, refl, false, Option, some, List, [], ◌∷◌, map, has_duplicates,
}
use ops_composer.Migrations.Visit.{
  Migration, out_of_fuel, cycle, done, failed, id_of, ordered_migrations,
}
use ops_composer.Migrations.Fuel.{ordered_migrations-fueled}
use ops_composer.Migrations.Order.{
  AllIn, Respects, ordered_migrations-Respects, ordered_migrations_complete,
}
use ops_composer.Migrations.Runner.{Applied, Schema, row_of, validate_current, up}
use ops_composer.Migrations.Current.{up-validate_current}

abbrev initial : Migration
initial = record { migration_id = "002_initial"; dependencies = []; up_sql = "CREATE" }

abbrev governance : Migration
governance = record {
  migration_id = "001_governance";
  dependencies = "002_initial" ∷ [];
  up_sql = "ALTER";
}

abbrev listed : List Migration
listed = governance ∷ initial ∷ []

abbrev in_order : List Migration
in_order = initial ∷ governance ∷ []

listed_ordered : ordered_migrations listed ≡ done in_order
unfolding ordered_migrations
listed_ordered = refl

-- Two migrations that need each other.
abbrev circular : List Migration
circular = governance ∷ record initial { dependencies = "001_governance" ∷ [] } ∷ []

circular_fails : ordered_migrations circular ≡ failed (cycle "001_governance")
unfolding ordered_migrations
circular_fails = refl

ordered_migrations-fueled_example : ordered_migrations circular ≢ failed out_of_fuel
ordered_migrations-fueled_example = ordered_migrations-fueled circular

ordered_migrations-Respects_example : Respects [] in_order
ordered_migrations-Respects_example = ordered_migrations-Respects listed in_order listed_ordered

ordered_migrations_complete_example :
    AllIn (map id_of listed) (map id_of in_order) × (has_duplicates (map id_of in_order) ≡ false)
ordered_migrations_complete_example = ordered_migrations_complete listed in_order listed_ordered

-- A checksum, and a database that records the statements.
abbrev sum_of : Migration → String
sum_of m = m.up_sql

abbrev execute : String → List String → Option (List String)
execute statement log = some (statement ∷ log)

abbrev initial_row : Applied
initial_row = record { migration_id = "002_initial"; checksum = "CREATE"; applied_at = 1 }

abbrev before_up : Schema (List String)
before_up = record { tracking = some (initial_row ∷ []); state = "CREATE" ∷ [] }

abbrev after_up : Schema (List String)
after_up = record {
  tracking = some (initial_row ∷ row_of sum_of 9 governance ∷ []);
  state = "ALTER" ∷ "CREATE" ∷ [];
}

went_up : up sum_of execute 9 in_order before_up ≡ done ("001_governance" ∷ [], after_up)
unfolding up
went_up = refl

up-validate_current_example : validate_current sum_of in_order after_up.tracking ≡ done tt
up-validate_current_example =
    up-validate_current sum_of execute 9 listed in_order listed_ordered before_up after_up
      ("001_governance" ∷ []) went_up
