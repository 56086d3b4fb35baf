-- ===== src/Migrations.antt =====
-- The migration commands of app/migration.go over the tracking table and the registry.
mod Tests
pub mod Up
pub mod Down
pub mod All
pub mod State
pub mod Rollback
use go_hypercube.Common.{
  ℕ, zero, suc, ◌+◌, ◌-◌, Bool, true, false, Option, none, some, List, [], ◌∷◌, ◌++◌, reverse, ◌==◌,
  if◌then◌else◌, Text, text_eq, leb, length, contains, ltb,
}
use go_hypercube.Runner.{each_namespace, others}
use go_hypercube.Namespaced.{Namespaced, get_namespace, namespaces}
use go_hypercube.Database.{
  Row, World, Error, not_setup, ensure_table, read_state, not_found, check_state, begin_tx,
  record_failed, Result, ok, err, M, ◌>>=◌, ◌>>◌, and_then, pure, throw, wrap, relabel,
  migrations_table, ensure_table_call, is_recorded, mark, unmark, applied_migrations, transact,
  recorded_rows,
}

-- migration.Migration
pub record Migration : Type 0 where
  pub migration_name : Text
  pub up : List Text
  pub down : List Text

-- Name
abbrev pub name : Migration → Text
name m = m.migration_name

-- The fields of App that these commands read; a plugin is its Name().
pub record App : Type 0 where
  pub plugins : List Text
  pub migrations : List (Namespaced Migration)
  pub did_setup : Bool

abbrev pub one_further : Option ℕ → Option ℕ
one_further none = none
one_further (some i) = some (suc i)

-- indexOfMigration; none is -1.
unfoldable pub index_of_migration : List Migration → Text → Option ℕ
index_of_migration [] target = none
index_of_migration (m ∷ ms) target =
    if name m == target then some 0 else one_further (index_of_migration ms target)

-- `ordered[:n]` and `ordered[n:]`
abbrev pub take : ℕ → List Migration → List Migration
take zero ms = []
take (suc n) [] = []
take (suc n) (m ∷ ms) = m ∷ take n ms

abbrev pub drop : ℕ → List Migration → List Migration
drop zero ms = ms
drop (suc n) [] = []
drop (suc n) (m ∷ ms) = drop n ms

module _ {S : Type 0} (exec : Text → S → Option S) where
  abbrev pub apply_unless : Bool → Text → Migration → M S (Unit {0})
  apply_unless true namespace m = pure tt
  apply_unless false namespace m = do
    transact exec (name m) m.up
    wrap (record_failed (name m)) (mark migrations_table namespace (name m))

  -- The body of the loop of RunMigrationsUpTo.
  unfoldable pub migrate_one : Text → Migration → M S (Unit {0})
  migrate_one namespace m = do
    applied ← wrap (check_state (name m)) (is_recorded migrations_table namespace (name m))
    apply_unless applied namespace m

  unfoldable pub migrate_list : Text → List Migration → M S (Unit {0})
  unfolding migrate_one
  migrate_list namespace [] = pure tt
  migrate_list namespace (m ∷ ms) = migrate_one namespace m >> migrate_list namespace ms

  abbrev pub revert_when : Bool → Text → Migration → M S (Unit {0})
  revert_when false namespace m = pure tt
  revert_when true namespace m = do
    transact exec (name m) m.down
    wrap (record_failed (name m)) (unmark migrations_table namespace (name m))

  -- The body of the loop of RunMigrationsDownTo.
  unfoldable pub revert_one : Text → Migration → M S (Unit {0})
  revert_one namespace m = do
    applied ← wrap (check_state (name m)) (is_recorded migrations_table namespace (name m))
    revert_when applied namespace m

  unfoldable pub revert_list : Text → List Migration → M S (Unit {0})
  unfolding revert_one
  revert_list namespace [] = pure tt
  revert_list namespace (m ∷ ms) = revert_one namespace m >> revert_list namespace ms

  module _ (app : App) where
    abbrev pub ordered : Text → List Migration
    ordered namespace = get_namespace name namespace app.migrations

    abbrev pub up_to : Text → Text → Option ℕ → M S (Unit {0})
    up_to namespace target none = throw (not_found target)
    up_to namespace target (some i) = migrate_list namespace (take (suc i) (ordered namespace))

    -- RunMigrationsUpTo
    unfoldable pub run_migrations_up_to : Text → Text → M S (Unit {0})
    unfolding migrate_list index_of_migration
    run_migrations_up_to namespace target = do
      wrap ensure_table (ensure_table_call migrations_table)
      up_to namespace target (index_of_migration (ordered namespace) target)

    -- The loop from the newest migration down to `start`.
    abbrev pub down_from : Text → ℕ → M S (Unit {0})
    down_from namespace start = revert_list namespace (reverse (drop start (ordered namespace)))

    abbrev pub down_to : Text → Text → Option ℕ → M S (Unit {0})
    down_to namespace target none = throw (not_found target)
    down_to namespace target (some i) = down_from namespace (suc i)

    -- RunMigrationsDownTo; the empty target reverts everything.
    unfoldable pub run_migrations_down_to : Text → Text → M S (Unit {0})
    unfolding revert_list index_of_migration
    run_migrations_down_to namespace target = do
      wrap ensure_table (ensure_table_call migrations_table)
      if target == []
          then down_from namespace 0
          else down_to namespace target (index_of_migration (ordered namespace) target)

    abbrev pub last_name : Migration → List Migration → Text
    last_name m [] = name m
    last_name m (n ∷ ms) = last_name n ms

    abbrev pub up_to_latest : Text → List Migration → M S (Unit {0})
    up_to_latest namespace [] = pure tt
    up_to_latest namespace (m ∷ ms) = run_migrations_up_to namespace (last_name m ms)

    -- migrateNamespaceUpToLatest
    unfoldable pub migrate_namespace_up_to_latest : Text → M S (Unit {0})
    unfolding run_migrations_up_to
    migrate_namespace_up_to_latest namespace = up_to_latest namespace (ordered namespace)

    abbrev pub host_namespaces : List Text
    host_namespaces = others app.plugins (namespaces app.migrations)

    -- MigrateAllUp
    unfoldable pub migrate_all_up : M S (Unit {0})
    unfolding migrate_namespace_up_to_latest each_namespace others
    migrate_all_up =
        if app.did_setup
        then (each_namespace migrate_namespace_up_to_latest app.plugins
            >> each_namespace migrate_namespace_up_to_latest host_namespaces)
        else throw not_setup

    -- MigrateAllDown
    unfoldable pub migrate_all_down : M S (Unit {0})
    unfolding run_migrations_down_to each_namespace others
    migrate_all_down =
        if app.did_setup
        then (each_namespace (λ n. run_migrations_down_to n []) host_namespaces
            >> each_namespace (λ n. run_migrations_down_to n []) (reverse app.plugins))
        else throw not_setup

    -- `appliedEntries[n].name`, for an index in range.
    abbrev pub name_at : List Row → ℕ → Text
    name_at [] n = []
    name_at (r ∷ rows) zero = r.name
    name_at (r ∷ rows) (suc n) = name_at rows n

    -- The target that RollbackSteps computes from the rows, newest first.
    unfoldable pub rollback_target : List Row → ℕ → Text
    rollback_target rows steps =
        if leb (length rows) steps then [] else name_at rows (length rows - steps - 1)

    abbrev pub rollback_to : Text → ℕ → List Row → M S (Unit {0})
    rollback_to namespace steps [] = pure tt
    rollback_to namespace steps (r ∷ rows) =
        run_migrations_down_to namespace (rollback_target (r ∷ rows) steps)

    -- RollbackSteps; zero stands for every `steps` that is not positive.
    unfoldable pub rollback_steps : Text → ℕ → M S (Unit {0})
    unfolding run_migrations_down_to rollback_target
    rollback_steps namespace zero = pure tt
    rollback_steps namespace (suc steps) = do
      wrap ensure_table (ensure_table_call migrations_table)
      rows ← wrap read_state (applied_migrations namespace)
      rollback_to namespace (suc steps) rows
