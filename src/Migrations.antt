-- ===== src/Migrations.antt =====
-- backend/src/ops_composer/db/migration_engine.py: the order of the schema's migrations, and the runner.
-- The SHA-256 of a migration (`checksum`), the time of the transaction and the execution of a migration's
-- SQL are arguments. `visit` recurs on fuel.
pub mod Visit
pub mod Steps
pub mod Fuel
pub mod Order
pub mod Runner
pub mod Applied
pub mod Current
mod Examples
