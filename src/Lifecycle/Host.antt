-- ===== src/Lifecycle/Host.antt =====
-- What a host application calls on its app: UsePlugin of app/plugin.go, RegisterCommand and RunCommand
-- of app/cmd.go, RegisterSeeder of app/seeder.go, RegisterJob of app/queue.go and RegisterMigration of
-- app/migration.go.
use go_hypercube.Common.{Option, none, some, List, Text}
use go_hypercube.Namespaced.{get}
use go_hypercube.Registry.{
  RegisterError, Registered, ok, err, register_all, register_jobs, register_migrations,
}
use go_hypercube.Migrations.{Migration}
use go_hypercube.Migrations
use go_hypercube.Plugins.{Plugin, Semver, UseError, use_plugin, host_app_namespace}
use go_hypercube.Lifecycle.{App}

module _ {P C S J : Type 0} where
  -- UsePlugin
  unfoldable pub use_plugins : Semver → List Plugin → App P C S J → App P C S J × Option UseError
  use_plugins semver new app =
      let (ps, e) = use_plugin semver app.did_setup app.plugins new in
      (record app { plugins = ps }, e)

  abbrev pub with_migrations :
      App P C S J → Registered Migration → App P C S J × Option RegisterError
  with_migrations app (err e) = (app, some e)
  with_migrations app (ok ms) = (record app { migrations = ms }, none)

  -- RegisterMigration
  unfoldable pub register_migration :
      List Migration → App P C S J → App P C S J × Option RegisterError
  register_migration ms app =
      with_migrations app (register_migrations Migrations.name host_app_namespace ms app.migrations)

  -- RegisterCommand
  unfoldable pub register_command : (C → Text) → List C → App P C S J → App P C S J
  register_command cmd_name cs app = record app {
    cmds = register_all cmd_name host_app_namespace cs app.cmds;
  }

  -- RegisterSeeder
  unfoldable pub register_seeder : (S → Text) → List S → App P C S J → App P C S J
  register_seeder seeder_name ss app = record app {
    seeders = register_all seeder_name host_app_namespace ss app.seeders;
  }

  abbrev pub with_jobs : App P C S J → Registered J → App P C S J × Option RegisterError
  with_jobs app (err e) = (app, some e)
  with_jobs app (ok js) = (record app { jobs = js }, none)

  -- RegisterJob
  unfoldable pub register_job :
      (J → Text) → List (Option J) → App P C S J → App P C S J × Option RegisterError
  register_job job_name js app =
      with_jobs app (register_jobs job_name host_app_namespace js app.jobs)

  -- RunCommand, where `run` is what a command's Run does; none is the error of an unknown command.
  unfoldable pub run_command :
      {R : Type 0} → (C → Text) → (C → R) → Text → Text → App P C S J → Option R
  run_command cmd_name run namespace name app = elim (get cmd_name namespace name app.cmds) [
    | none ↦ none
    | some c ↦ some (run c)
  ]
