-- ===== src/Lifecycle.antt =====
-- app/app.go: making an app, Setup and Boot; and RunCommand of app/cmd.go. What the plugins' methods
-- Register and Boot do is a parameter.
mod Tests
pub mod Host
pub mod Valid
pub mod HostValid
pub mod Setup
pub mod Result
pub mod Once
pub mod Reachable
use go_hypercube.Common.{
  Bool, true, false, Option, none, some, List, [], ◌∷◌, ◌++◌, if◌then◌else◌, Text,
}
use go_hypercube.Namespaced.{Namespaced, get}
use go_hypercube.Registry.{
  RegisterError, Registered, ok, err, register_all, register_jobs, register_migrations,
}
use go_hypercube.Migrations.{Migration}
use go_hypercube.Migrations
use go_hypercube.Plugins.{
  Plugin, name, Semver, UseError, Problem, sorted, problems, circular, out_of_fuel, use_plugin,
  init_plugins, host_app_namespace,
}
use go_hypercube.Plugins

-- Options; none is nil. The types are those of the queue, the configuration, the database, the
-- cache, the logger and the scheduler.
pub record Options (Q F D K L X : Type 0) : Type 0 where
  pub queue : Option Q
  pub config : Option F
  pub database : Option D
  pub cache : Option K
  pub logger : Option L
  pub scheduler : Option X

-- The errors of Options.validate.
pub data OptionError : Type 0 where
  queue_required config_required database_required cache_required logger_required : OptionError

-- The fields of App that New takes from its options.
pub record Parts (Q F D K L X : Type 0) : Type 0 where
  pub queue : Q
  pub config : F
  pub database : D
  pub cache : K
  pub logger : L
  pub scheduler : Option X

pub data Validated (Q F D K L X : Type 0) : Type 0 where
  valid : Parts Q F D K L X → Validated Q F D K L X
  invalid : OptionError → Validated Q F D K L X

module _ {Q F D K L X : Type 0} where
  -- A test of Options.validate.
  abbrev pub need :
      {A : Type 0} → Option A → OptionError → (A → Validated Q F D K L X) → Validated Q F D K L X
  need none e rest = invalid e
  need (some a) e rest = rest a

  -- Options.validate, with the parts that it finds.
  unfoldable pub validate : Options Q F D K L X → Validated Q F D K L X
  validate o = need o.queue queue_required (λ q. need o.config config_required (λ f.
      need o.database database_required (λ d. need o.cache cache_required (λ k.
        need o.logger logger_required (λ l. valid (record {
          queue = q;
          config = f;
          database = d;
          cache = k;
          logger = l;
          scheduler = o.scheduler;
        }))))))

-- plugin.Registration
pub record Registration (C S J : Type 0) : Type 0 where
  pub migrations : List Migration
  pub cmds : List C
  pub seeders : List S
  pub jobs : List (Option J)

-- What a plugin's Register returns.
pub data Registering (C S J : Type 0) : Type 0 where
  registration : Registration C S J → Registering C S J
  register_failed : Text → Registering C S J

-- App, with parts of type P.
pub record App (P C S J : Type 0) : Type 0 where
  pub parts : P
  pub plugins : List Plugin
  pub migrations : List (Namespaced Migration)
  pub seeders : List (Namespaced S)
  pub cmds : List (Namespaced C)
  pub jobs : List (Namespaced J)
  pub did_setup : Bool
  pub did_boot : Bool

pub data LifeError : Type 0 where
  not_ordered : Plugins.Setup → LifeError
  plugin_failed : Text → LifeError
  rejected : RegisterError → LifeError
  boot_before_setup : LifeError

-- New, of options that are valid.
unfoldable pub new_app : {P C S J : Type 0} → P → App P C S J
new_app parts = record {
  parts = parts;
  plugins = [];
  migrations = [];
  seeders = [];
  cmds = [];
  jobs = [];
  did_setup = false;
  did_boot = false;
}

-- What New returns.
pub data NewApp (Q F D K L X C S J : Type 0) : Type 0 where
  created : App (Parts Q F D K L X) C S J → NewApp Q F D K L X C S J
  not_created : OptionError → NewApp Q F D K L X C S J

-- New
unfoldable pub new : {Q F D K L X C S J : Type 0} → Options Q F D K L X → NewApp Q F D K L X C S J
unfolding validate new_app
new o = elim (validate o) [ valid parts ↦ created (new_app parts) | invalid e ↦ not_created e ]

module _ {E : Type 0} (boot_plugin : Plugin → E → Option Text × E) where
  -- The loop of Boot.
  unfoldable pub boot_plugins : List Plugin → E → E × Option LifeError
  boot_plugins [] env = (env, none)
  boot_plugins (p ∷ ps) env =
      let (result, env') = boot_plugin p env in
      elim result [ some e ↦ (env', some (plugin_failed e)) | none ↦ boot_plugins ps env' ]

module _ {P C S J : Type 0} (cmd_name : C → Text) (seeder_name : S → Text)
    (job_name : J → Text) where
  abbrev pub add_jobs : Registered J → App P C S J → App P C S J × Option LifeError
  add_jobs (err e) app = (app, some (rejected e))
  add_jobs (ok js) app = (record app { jobs = js }, none)

  -- The rest of a round of Setup, from the result of registerMigrationForNamespace on.
  abbrev pub add_rest :
      Text
      → Registration C S J
      → Registered Migration
      → App P C S J
      → App P C S J × Option LifeError
  add_rest namespace reg (err e) app = (app, some (rejected e))
  add_rest namespace reg (ok ms) app =
      add_jobs (register_jobs job_name namespace reg.jobs app.jobs) (record app {
        migrations = ms;
        cmds = register_all cmd_name namespace reg.cmds app.cmds;
        seeders = register_all seeder_name namespace reg.seeders app.seeders;
      })

  -- The registrations of one plugin in Setup.
  unfoldable pub add_registration :
      Text → Registration C S J → App P C S J → App P C S J × Option LifeError
  add_registration namespace reg app =
      add_rest namespace reg
        (register_migrations Migrations.name namespace reg.migrations app.migrations) app

  module _ {E : Type 0} (semver : Semver) (register : Plugin → E → Registering C S J × E)
      (boot_plugin : Plugin → E → Option Text × E) where
    abbrev pub add_registered :
        Text → Registering C S J × E → App P C S J → (App P C S J × E) × Option LifeError
    add_registered namespace (register_failed e, env) app = ((app, env), some (plugin_failed e))
    add_registered namespace (registration reg, env) app =
        let (app', e) = add_registration namespace reg app in ((app', env), e)

    -- The body of the loop of Setup.
    unfoldable pub setup_plugin : Plugin → App P C S J × E → (App P C S J × E) × Option LifeError
    unfolding add_registration
    setup_plugin p (app, env) = add_registered (name p) (register p env) app

    -- The loop of Setup.
    unfoldable pub setup_plugins :
        List Plugin → App P C S J × E → (App P C S J × E) × Option LifeError
    unfolding setup_plugin
    setup_plugins [] s = (s, none)
    setup_plugins (p ∷ ps) s =
        let (s', result) = setup_plugin p s in
        elim result [ some e ↦ (s', some e) | none ↦ setup_plugins ps s' ]

    abbrev pub set_up : (App P C S J × E) × Option LifeError → (App P C S J × E) × Option LifeError
    set_up (s, some e) = (s, some e)
    set_up ((app, env), none) = ((record app { did_setup = true }, env), none)

    abbrev pub setup_sorted : Plugins.Setup → App P C S J × E → (App P C S J × E) × Option LifeError
    setup_sorted (sorted ps) (app, env) =
        set_up (setup_plugins ps (record app { plugins = ps }, env))
    setup_sorted (problems found) s = (s, some (not_ordered (problems found)))
    setup_sorted (circular path) s = (s, some (not_ordered (circular path)))
    setup_sorted out_of_fuel s = (s, some (not_ordered out_of_fuel))

    -- Setup
    unfoldable pub setup : App P C S J × E → (App P C S J × E) × Option LifeError
    unfolding setup_plugins
    setup (app, env) =
        if app.did_setup
        then ((app, env), none)
        else setup_sorted (init_plugins semver app.plugins) (app, env)

    abbrev pub booted : App P C S J → E × Option LifeError → (App P C S J × E) × Option LifeError
    booted app (env, some e) = ((app, env), some e)
    booted app (env, none) = ((record app { did_boot = true }, env), none)

    -- Boot
    unfoldable pub boot : App P C S J × E → (App P C S J × E) × Option LifeError
    unfolding boot_plugins
    boot (app, env) =
        if app.did_setup
        then (if app.did_boot
            then ((app, env), none)
            else booted app (boot_plugins boot_plugin app.plugins env))
        else ((app, env), some boot_before_setup)
