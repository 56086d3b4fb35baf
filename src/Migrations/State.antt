-- ===== src/Migrations/State.antt =====
-- MigrationState and AppliedMigrations of app/migration.go: what they report.
pub mod Rows
pub mod Report
pub mod Namespaces
use go_hypercube.Common.{
  ℕ, suc, Option, none, some, List, [], ◌∷◌, ◌++◌, ◌==◌, if◌then◌else◌, Text, text_eq,
}
use go_hypercube.Namespaced.{namespaces}
use go_hypercube.Database.{
  Row, World, not_setup, ensure_table, read_state, M, ◌>>=◌, ◌>>◌, and_then, pure, throw, wrap,
  relabel, migrations_table, ensure_table_call, applied_migrations,
}
use go_hypercube.Runner.{ordered_namespaces}
use go_hypercube.Migrations.{Migration, name, App, ordered}

-- MigrationStatus; Applied says that AppliedAt is not nil.
pub record MigrationStatus : Type 0 where
  pub namespace : Text
  pub status_name : Text
  pub applied_at : Option ℕ

-- NamespaceMigrationState
pub record NamespaceMigrationState : Type 0 where
  pub namespace : Text
  pub current : Text
  pub pending : ℕ
  pub statuses : List MigrationStatus

-- The closure isApplied of namespaceMigrationState.
unfoldable pub find_applied : List Row → Text → Option ℕ
find_applied [] n = none
find_applied (r ∷ rows) n = if r.name == n then some r.stamp else find_applied rows n

abbrev pub count_status :
    Text → Migration → Option ℕ → NamespaceMigrationState → NamespaceMigrationState
count_status namespace m none st = record st {
  pending = suc st.pending;
  statuses =
      st.statuses ++ record { namespace = namespace; status_name = name m; applied_at = none } ∷ [];
}
count_status namespace m (some t) st = record st {
  current = name m;
  statuses =
      st.statuses
      ++ record { namespace = namespace; status_name = name m; applied_at = some t } ∷ [];
}

-- The loop of namespaceMigrationState.
unfoldable pub walk_statuses :
    Text → List Row → List Migration → NamespaceMigrationState → NamespaceMigrationState
walk_statuses namespace applied [] st = st
walk_statuses namespace applied (m ∷ ms) st =
    walk_statuses namespace applied ms (count_status namespace m (find_applied applied (name m)) st)

abbrev pub empty_state : Text → NamespaceMigrationState
empty_state namespace = record { namespace = namespace; current = []; pending = 0; statuses = [] }

-- The loop of AppliedMigrations.
unfoldable pub statuses_of_rows : List Row → List MigrationStatus
statuses_of_rows [] = []
statuses_of_rows (r ∷ rows) =
    record { namespace = r.namespace; status_name = r.name; applied_at = some r.stamp }
    ∷ statuses_of_rows rows

module _ {S : Type 0} (exec : Text → S → Option S) (app : App) where
  -- namespaceMigrationState
  unfoldable pub namespace_migration_state : Text → M S NamespaceMigrationState
  unfolding walk_statuses
  namespace_migration_state namespace = do
    applied ← applied_migrations namespace
    pure (walk_statuses namespace applied (ordered exec app namespace) (empty_state namespace))

  unfoldable pub migration_states : List Text → M S (List NamespaceMigrationState)
  unfolding namespace_migration_state
  migration_states [] = pure []
  migration_states (n ∷ ns) = do
    state ← wrap read_state (namespace_migration_state n)
    states ← migration_states ns
    pure (state ∷ states)

  -- MigrationState
  unfoldable pub migration_state : M S (List NamespaceMigrationState)
  unfolding migration_states
  migration_state =
      if app.did_setup
      then (wrap ensure_table (ensure_table_call migrations_table)
          >> migration_states (ordered_namespaces app.plugins (namespaces app.migrations)))
      else throw not_setup

  -- AppliedMigrations
  unfoldable pub list_applied_migrations : M S (List MigrationStatus)
  unfolding statuses_of_rows
  list_applied_migrations = do rows ← applied_migrations []; pure (statuses_of_rows rows)
