-- ===== src/Database.antt =====
-- What app/migration.go and app/seeder.go ask of the database: the tracking tables
-- hypercube_migrations and hypercube_seeders, and transactions. The database is reached through
-- database/sql; here a call takes the next entry of `faults`, and fails where that is true.
mod Laws
unfoldable pub use Laws.*
mod Defs
pub mod Faults
unfoldable pub use Defs.*
