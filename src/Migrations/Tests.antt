-- ===== src/Migrations/Tests.antt =====
-- Two migrations over a schema that is the list of the statements it has run.
use go_hypercube.Common.{
  contains, IsUnique, true, ◌≡◌, refl, ◌⊎◌, Option, none, some, List, [], ◌∷◌, ◌++◌, Text, text_beq,
  text_eq, ◌==◌, text_leb, sort, insert_sorted,
}
use go_hypercube.Namespaced.{new_namespaced, items_of, get_namespace}
use go_hypercube.Database.{
  Row, World, err, ensure_table, recorded_rows, rows_of, Same, call, call_from, read, has_row,
  run_statements, transact, mark, is_recorded, ensure_table_call,
}
use go_hypercube.Migrations.{
  Migration, App, ordered, index_of_migration, drop, run_migrations_up_to, migrate_list,
  migrate_one, rollback_steps, rollback_target, run_migrations_down_to,
}
use go_hypercube.Migrations.Up.{GoesUpTo, run_migrations_up_to_lem}
use go_hypercube.Namespaced.Sorted.{occurs}
use go_hypercube.Database.{not_setup}
use go_hypercube.Migrations.All.{Walks, migrate_all_lem}
use go_hypercube.Migrations.State.{migration_state}
use go_hypercube.Database.Faults.{Fails}
use go_hypercube.Common.{false, text_beq}
use go_hypercube.Migrations.State.Namespaces.{Reports, migration_state_lem}
use go_hypercube.Migrations.Down.{GoesDownTo, run_migrations_down_to_lem}
use go_hypercube.Migrations.Rollback.{Unchanged, rollback_steps-Unchanged}

abbrev append : Text → List Text → Option (List Text)
append statement schema = some (schema ++ statement ∷ [])

abbrev first : Migration
first = record { migration_name = b'1' ∷ []; up = (b'c' ∷ []) ∷ []; down = (b'd' ∷ []) ∷ [] }

abbrev second : Migration
second = record { migration_name = b'2' ∷ []; up = (b'e' ∷ []) ∷ []; down = (b'f' ∷ []) ∷ [] }

abbrev app : App
app = record {
  plugins = [];
  migrations = new_namespaced [] second ∷ new_namespaced [] first ∷ [];
  did_setup = true;
}

-- Both migrations applied, the second one later.
abbrev old_row : Row
old_row = record { namespace = []; name = b'1' ∷ []; stamp = 10 }

abbrev new_row : Row
new_row = record { namespace = []; name = b'2' ∷ []; stamp = 20 }

abbrev fresh : World (List Text)
fresh = record { migrations = none; seeders = none; schema = []; clock = 30; faults = [] }

abbrev migrated : World (List Text)
migrated = record {
  migrations = some (old_row ∷ new_row ∷ []);
  seeders = none;
  schema = [];
  clock = 30;
  faults = [];
}

program : Unit {0}
unfolding run_migrations_up_to run_migrations_down_to migrate_list migrate_one rollback_steps
    rollback_target index_of_migration get_namespace items_of new_namespaced sort insert_sorted
    text_beq text_leb recorded_rows rows_of call call_from read has_row run_statements transact mark
    is_recorded ensure_table_call
program = tt

both_run :
    (run_migrations_up_to append app [] (b'2' ∷ []) fresh).1.schema ≡ (b'c' ∷ []) ∷ (b'e' ∷ []) ∷ []
unfolding program
both_run = refl

run_migrations_up_to_lem_example :
    ((run_migrations_up_to append app [] (b'2' ∷ []) fresh).0 ≡ err ensure_table)
      × Same fresh (run_migrations_up_to append app [] (b'2' ∷ []) fresh).1
    ⊎ GoesUpTo append [] app
        (b'2' ∷ [])
        (index_of_migration (ordered append app []) (b'2' ∷ []))
        fresh
        (run_migrations_up_to append app [] (b'2' ∷ []) fresh)
run_migrations_up_to_lem_example = run_migrations_up_to_lem append [] app (b'2' ∷ []) fresh

newest_first : recorded_rows [] (old_row ∷ new_row ∷ []) ≡ new_row ∷ old_row ∷ []
unfolding program
newest_first = refl

second_at : index_of_migration (ordered append app []) (b'2' ∷ []) ≡ some 1
unfolding program
second_at = refl

second_last : drop 2 (ordered append app []) ≡ []
unfolding program
second_last = refl

rollback_steps-Unchanged_example :
    Unchanged append app []
      (old_row ∷ new_row ∷ [])
      migrated
      (rollback_steps append app [] 1 migrated).1
rollback_steps-Unchanged_example =
    rollback_steps-Unchanged append app [] (old_row ∷ new_row ∷ []) [] new_row old_row 1 migrated
      refl newest_first (λ h. absurd (cc h)) second_at second_last

abbrev first_name : Text
first_name = b'1' ∷ []

run_migrations_down_to_lem_example :
    ((run_migrations_down_to append app [] first_name migrated).0 ≡ err ensure_table)
      × Same migrated (run_migrations_down_to append app [] first_name migrated).1
    ⊎ GoesDownTo append [] app first_name
        (first_name == [])
        (index_of_migration (ordered append app []) first_name)
        migrated
        (run_migrations_down_to append app [] first_name migrated)
run_migrations_down_to_lem_example = run_migrations_down_to_lem append [] app first_name migrated

-- The app with a plugin that has no migrations.
abbrev plugged : App
plugged = record app { plugins = (b'p' ∷ []) ∷ [] }

plugged-IsUnique : IsUnique plugged.plugins
unfolding contains
plugged-IsUnique = (refl, tt)

migrate_all_lem_example : Walks append plugged fresh
migrate_all_lem_example = migrate_all_lem append plugged fresh plugged-IsUnique

abbrev named_app : App
named_app = record app { migrations = new_namespaced (b'n' ∷ []) first ∷ [] }

abbrev named_row : Row
named_row = record { namespace = b'n' ∷ []; name = b'1' ∷ []; stamp = 10 }

abbrev named_world : World (List Text)
named_world = record migrated { migrations = some (named_row ∷ []) }

named_registered : occurs named_app.migrations [] ≡ false
unfolding contains new_namespaced text_beq
named_registered = refl

migration_state_lem_example :
    (named_app.did_setup ≡ false)
      × (migration_state append named_app named_world ≡ (err not_setup, named_world))
    ⊎ (named_app.did_setup ≡ true)
      × Fails named_world (migration_state append named_app named_world)
      × Reports append named_app
          (named_row ∷ [])
          named_world
          (migration_state append named_app named_world)
migration_state_lem_example = migration_state_lem append named_app named_world tt named_registered
