-- ===== src/Lifecycle/Reachable.antt =====
-- The apps that the calls of a program can reach are valid, in whatever order they come.
use go_hypercube.Common.{Option, List, Text, text_eq}
use go_hypercube.Migrations.{Migration}
use go_hypercube.Plugins.{Plugin, Semver}
use go_hypercube.Lifecycle.{App, LifeError, Registering, new_app, setup, boot}
use go_hypercube.Lifecycle.Host.{
  use_plugins, register_migration, register_command, register_seeder, register_job,
}
use go_hypercube.Lifecycle.Valid.{IsValid, new_app-IsValid}
use go_hypercube.Lifecycle.Setup.{setup-IsValid, boot-IsValid}
use go_hypercube.Lifecycle.HostValid.{
  use_plugins-IsValid, register_migration-IsValid, register_command-IsValid,
  register_seeder-IsValid, register_job-IsValid,
}

module _ {P C S J E : Type 0} (cmd_name : C → Text) (seeder_name : S → Text) (job_name : J → Text)
    (semver : Semver) (register : Plugin → E → Registering C S J × E)
    (boot_plugin : Plugin → E → Option Text × E) where
  abbrev set_up_app : App P C S J × E → (App P C S J × E) × Option LifeError
  set_up_app = setup cmd_name seeder_name job_name semver register boot_plugin

  abbrev boot_app : App P C S J × E → (App P C S J × E) × Option LifeError
  boot_app = boot cmd_name seeder_name job_name semver register boot_plugin

  -- The states that New and the calls of a program lead to; `env` is what the plugins act on, and
  -- the rest of the program may change it at any time.
  pub data Reachable : App P C S J × E → Type 0 where
    started : (parts : P) (env : E) → Reachable (new_app parts, env)
    moved : (app : App P C S J) (env env' : E) → Reachable (app, env) → Reachable (app, env')
    plugins_used :
        (new : List Plugin) (app : App P C S J) (env : E)
        → Reachable (app, env)
        → Reachable ((use_plugins semver new app).0, env)
    migrations_registered :
        (ms : List Migration) (app : App P C S J) (env : E)
        → Reachable (app, env)
        → Reachable ((register_migration ms app).0, env)
    commands_registered :
        (cs : List C) (app : App P C S J) (env : E)
        → Reachable (app, env)
        → Reachable (register_command cmd_name cs app, env)
    seeders_registered :
        (ss : List S) (app : App P C S J) (env : E)
        → Reachable (app, env)
        → Reachable (register_seeder seeder_name ss app, env)
    jobs_registered :
        (js : List (Option J)) (app : App P C S J) (env : E)
        → Reachable (app, env)
        → Reachable ((register_job job_name js app).0, env)
    was_set_up : (s : App P C S J × E) → Reachable s → Reachable (set_up_app s).0
    was_booted : (s : App P C S J × E) → Reachable s → Reachable (boot_app s).0

  abbrev Valid : App P C S J → Type 0
  Valid = IsValid cmd_name seeder_name job_name

  -- Every app that a program reaches by New, UsePlugin, the registrations of the host, Setup and Boot,
  -- in any order and with any failures, has each plugin name once and never the reserved one, no key
  -- twice in a registry, and is booted only where it was set up.
  pub Reachable-IsValid : (s : App P C S J × E) → Reachable s → Valid s.0
  Reachable-IsValid _ (started parts env) = new_app-IsValid cmd_name seeder_name job_name parts
  Reachable-IsValid _ (moved app env env' r) = Reachable-IsValid (app, env) r
  Reachable-IsValid _ (plugins_used new app env r) =
      use_plugins-IsValid cmd_name seeder_name job_name semver new app
        (Reachable-IsValid (app, env) r)
  Reachable-IsValid _ (migrations_registered ms app env r) =
      register_migration-IsValid cmd_name seeder_name job_name semver ms app
        (Reachable-IsValid (app, env) r)
  Reachable-IsValid _ (commands_registered cs app env r) =
      register_command-IsValid cmd_name seeder_name job_name semver cs app
        (Reachable-IsValid (app, env) r)
  Reachable-IsValid _ (seeders_registered ss app env r) =
      register_seeder-IsValid cmd_name seeder_name job_name semver ss app
        (Reachable-IsValid (app, env) r)
  Reachable-IsValid _ (jobs_registered js app env r) =
      register_job-IsValid cmd_name seeder_name job_name semver js app
        (Reachable-IsValid (app, env) r)
  Reachable-IsValid _ (was_set_up s r) =
      setup-IsValid cmd_name seeder_name job_name semver register boot_plugin s
        (Reachable-IsValid s r)
  Reachable-IsValid _ (was_booted s r) =
      boot-IsValid cmd_name seeder_name job_name semver register boot_plugin s
        (Reachable-IsValid s r)
