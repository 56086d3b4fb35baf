-- ===== src/Lifecycle/HostValid.antt =====
-- What a host application calls on its app keeps the app valid.
use go_hypercube.Common.{
  ◌≡◌, refl, sym, ap, ◌∙◌, subst, false, Option, none, some, List, [], ◌∷◌, ◌++◌, map, ==_iff, Text,
  text_eq, arith, contains, contains-cons, contains-nil, IsUnique, All,
}
use go_hypercube.Namespaced.{Namespaced}
use go_hypercube.Registry.Keys.{IsKeyed}
use go_hypercube.Registry.{Registered, ok, err, register_all, register_jobs, register_migrations}
use go_hypercube.Migrations.{Migration}
use go_hypercube.Migrations
use go_hypercube.Plugins.{Plugin, name, Semver, UseError, use_plugin, host_app_namespace}
use go_hypercube.Plugins.Use.{IsAcceptable, use_plugin_lem}
use go_hypercube.Lifecycle.{App}
use go_hypercube.Lifecycle.Host.{
  use_plugins, register_migration, register_command, register_seeder, register_job, with_migrations,
  with_jobs,
}
use go_hypercube.Lifecycle.Valid.{
  IsValid, with_plugins-IsValid, register_migrations-IsKeyed, register_jobs-IsKeyed,
  register_all-IsKeyed,
}

IsAcceptable-unreserved :
    (semver : Semver) (new : List Plugin)
    → All (IsAcceptable semver) new
    → contains (map name new) host_app_namespace ≡ false
IsAcceptable-unreserved semver [] h = contains-nil host_app_namespace
IsAcceptable-unreserved semver (p ∷ new) (h, hs) = ground (
  arith,
  contains-cons (name p) (map name new) host_app_namespace,
  ==_iff (name p) host_app_namespace,
  h.1,
  IsAcceptable-unreserved semver new hs,
)

unreserved-append :
    (ps new : List Plugin)
    → contains (map name ps) host_app_namespace ≡ false
    → contains (map name new) host_app_namespace ≡ false
    → contains (map name (ps ++ new)) host_app_namespace ≡ false
unreserved-append [] new h k = k
unreserved-append (p ∷ ps) new h k = ground (
  arith,
  contains-cons (name p) (map name ps) host_app_namespace,
  contains-cons (name p) (map name (ps ++ new)) host_app_namespace,
  unreserved-append ps new,
)

module _ {P C S J : Type 0} (cmd_name : C → Text) (seeder_name : S → Text) (job_name : J → Text)
    (semver : Semver) where
  abbrev Valid : App P C S J → Type 0
  Valid = IsValid cmd_name seeder_name job_name

  pub use_plugins-IsValid :
      (new : List Plugin) (app : App P C S J) → Valid app → Valid (use_plugins semver new app).0
  unfolding use_plugins
  use_plugins-IsValid new app h = go (use_plugin semver app.did_setup app.plugins new) refl
    where
      go :
          (r : List Plugin × Option UseError)
          → use_plugin semver app.did_setup app.plugins new ≡ r
          → Valid (record app { plugins = r.0 })
      go (ps, some e) q =
          let same = (use_plugin_lem semver app.plugins new h.unique).2 app.did_setup ps e q in
          with_plugins-IsValid cmd_name seeder_name job_name ps app h
            (subst (λ l. IsUnique (map name l)) (sym same) h.unique)
            (ap (λ l. contains (map name l) host_app_namespace) same ∙ h.unreserved)
      go (ps, none) q =
          let (_, same, good, once) =
            (use_plugin_lem semver app.plugins new h.unique).1 app.did_setup ps q in
          with_plugins-IsValid cmd_name seeder_name job_name ps app h
            (subst (λ l. IsUnique (map name l)) (sym same) once)
            (ap (λ l. contains (map name l) host_app_namespace) same
              ∙ unreserved-append app.plugins new h.unreserved
                  (IsAcceptable-unreserved semver new good))

  -- A valid app stays valid where only its registries change, and stay keyed.
  with_registries-IsValid :
      (app : App P C S J) (ms : List (Namespaced Migration)) (cs : List (Namespaced C))
      (ss : List (Namespaced S)) (js : List (Namespaced J))
      → Valid app
      → IsKeyed Migrations.name ms
      → IsKeyed cmd_name cs
      → IsKeyed seeder_name ss
      → IsKeyed job_name js
      → Valid (record app { migrations = ms; cmds = cs; seeders = ss; jobs = js })
  with_registries-IsValid app ms cs ss js h hm hc hs hj = record {
    unique = h.unique;
    unreserved = h.unreserved;
    tidy = record { migrations_keyed = hm; cmds_keyed = hc; seeders_keyed = hs; jobs_keyed = hj };
    set_up_first = h.set_up_first;
  }

  pub register_migration-IsValid :
      (ms : List Migration) (app : App P C S J) → Valid app → Valid (register_migration ms app).0
  unfolding register_migration
  register_migration-IsValid ms app h =
      go (register_migrations Migrations.name host_app_namespace ms app.migrations) refl
    where
      go :
          (r : Registered Migration)
          → register_migrations Migrations.name host_app_namespace ms app.migrations ≡ r
          → Valid (with_migrations app r).0
      go (err e) q = h
      go (ok ms') q =
          with_registries-IsValid app ms' app.cmds app.seeders app.jobs h
            (register_migrations-IsKeyed host_app_namespace ms app.migrations ms'
              h.tidy.migrations_keyed q)
            h.tidy.cmds_keyed h.tidy.seeders_keyed h.tidy.jobs_keyed

  pub register_command-IsValid :
      (cs : List C) (app : App P C S J) → Valid app → Valid (register_command cmd_name cs app)
  unfolding register_command
  register_command-IsValid cs app h =
      with_registries-IsValid app app.migrations
        (register_all cmd_name host_app_namespace cs app.cmds) app.seeders app.jobs h
        h.tidy.migrations_keyed
        (register_all-IsKeyed cmd_name host_app_namespace cs app.cmds h.tidy.cmds_keyed)
        h.tidy.seeders_keyed h.tidy.jobs_keyed

  pub register_seeder-IsValid :
      (ss : List S) (app : App P C S J) → Valid app → Valid (register_seeder seeder_name ss app)
  unfolding register_seeder
  register_seeder-IsValid ss app h =
      with_registries-IsValid app app.migrations app.cmds
        (register_all seeder_name host_app_namespace ss app.seeders) app.jobs h
        h.tidy.migrations_keyed h.tidy.cmds_keyed
        (register_all-IsKeyed seeder_name host_app_namespace ss app.seeders h.tidy.seeders_keyed)
        h.tidy.jobs_keyed

  pub register_job-IsValid :
      (js : List (Option J)) (app : App P C S J)
      → Valid app
      → Valid (register_job job_name js app).0
  unfolding register_job
  register_job-IsValid js app h = go (register_jobs job_name host_app_namespace js app.jobs) refl
    where
      go :
          (r : Registered J)
          → register_jobs job_name host_app_namespace js app.jobs ≡ r
          → Valid (with_jobs app r).0
      go (err e) q = h
      go (ok js') q =
          with_registries-IsValid app app.migrations app.cmds app.seeders js' h
            h.tidy.migrations_keyed h.tidy.cmds_keyed h.tidy.seeders_keyed
            (register_jobs-IsKeyed job_name host_app_namespace js app.jobs js' h.tidy.jobs_keyed q)
