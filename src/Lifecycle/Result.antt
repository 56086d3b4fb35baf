-- ===== src/Lifecycle/Result.antt =====
-- What Setup of app/app.go does.
use go_hypercube.Common.{
  ◌≡◌, refl, sym, ap, ◌∙◌, true, false, Option, none, some, List, [], ◌∷◌, ◌++◌, map, Text, text_eq,
  append-nil, if_cases,
}
use go_hypercube.Namespaced.{Namespaced}
use go_hypercube.Registry.{Registered, ok, err, register_all, register_jobs, register_migrations}
use go_hypercube.Migrations.{Migration}
use go_hypercube.Migrations
use go_hypercube.Plugins.{
  Plugin, name, Semver, UseError, sorted, problems, circular, out_of_fuel, use_plugin, init_plugins,
  host_app_namespace,
}
use go_hypercube.Plugins
use go_hypercube.Lifecycle.{
  App, LifeError, Registration, Registering, registration, register_failed, add_jobs, add_rest,
  add_registration, add_registered, setup_plugin, setup_plugins, set_up, setup_sorted, setup, boot,
}
use go_hypercube.Lifecycle.Valid.{Beside}
use go_hypercube.Registry.Migrations.{register_migrations-appends}
use go_hypercube.Namespaced.{new_namespaced}
use mathlib.Core.List.{append_assoc}
use go_hypercube.Lifecycle.Setup.{setup_plugins-Keeps}

abbrev pub migrations_of : {C S J : Type 0} → Registering C S J → List Migration
migrations_of (register_failed e) = []
migrations_of (registration reg) = reg.migrations

module _ {C S J E : Type 0} (register : Plugin → E → Registering C S J × E) where
  -- What the plugins act on, after the Register of each of them in turn.
  unfoldable pub registers : List Plugin → E → E
  registers [] env = env
  registers (p ∷ ps) env = registers ps (register p env).1

  -- The migrations that the plugins register in turn, each under its plugin's name.
  unfoldable pub collected : List Plugin → E → List (Namespaced Migration)
  collected [] env = []
  collected (p ∷ ps) env =
      map (new_namespaced (name p)) (migrations_of (register p env).0)
      ++ collected ps (register p env).1

module _ {P C S J E : Type 0} (cmd_name : C → Text) (seeder_name : S → Text) (job_name : J → Text)
    (semver : Semver) (register : Plugin → E → Registering C S J × E)
    (boot_plugin : Plugin → E → Option Text × E) where
  abbrev set_up_app : App P C S J × E → (App P C S J × E) × Option LifeError
  set_up_app = setup cmd_name seeder_name job_name semver register boot_plugin

  abbrev boot_app : App P C S J × E → (App P C S J × E) × Option LifeError
  boot_app = boot cmd_name seeder_name job_name semver register boot_plugin

  abbrev setup_one : Plugin → App P C S J × E → (App P C S J × E) × Option LifeError
  setup_one = setup_plugin cmd_name seeder_name job_name semver register boot_plugin

  abbrev setup_all : List Plugin → App P C S J × E → (App P C S J × E) × Option LifeError
  setup_all = setup_plugins cmd_name seeder_name job_name semver register boot_plugin

  add_jobs-migrations :
      (app : App P C S J) (r : Registered J)
      → (add_jobs cmd_name seeder_name job_name r app).0.migrations ≡ app.migrations
  add_jobs-migrations app (err e) = refl
  add_jobs-migrations app (ok js) = refl

  add_rest-migrations :
      (namespace : Text) (reg : Registration C S J) (app : App P C S J) (r : Registered Migration)
      → register_migrations Migrations.name namespace reg.migrations app.migrations ≡ r
      → (add_rest cmd_name seeder_name job_name namespace reg r app).1 ≡ none
      → (add_rest cmd_name seeder_name job_name namespace reg r app).0.migrations
        ≡ app.migrations ++ map (new_namespaced namespace) reg.migrations
  add_rest-migrations namespace reg app (err e) q h = absurd (cc (h))
  add_rest-migrations namespace reg app (ok ms) q h =
      add_jobs-migrations
        (record app {
          migrations = ms;
          cmds = register_all cmd_name namespace reg.cmds app.cmds;
          seeders = register_all seeder_name namespace reg.seeders app.seeders;
        })
        (register_jobs job_name namespace reg.jobs app.jobs)
      ∙ register_migrations-appends Migrations.name namespace app.migrations reg.migrations ms q

  -- One plugin's round of Setup, when it ends without an error.
  abbrev Added : Plugin → App P C S J × E → App P C S J × E → Type 0
  Added p s s' =
      (s'.0.migrations
        ≡ s.0.migrations ++ map (new_namespaced (name p)) (migrations_of (register p s.1).0))
      × (s'.1 ≡ (register p s.1).1)

  setup_plugin-Added :
      (p : Plugin) (s : App P C S J × E) → (setup_one p s).1 ≡ none → Added p s (setup_one p s).0
  unfolding setup_plugin add_registration
  setup_plugin-Added p (app, env) = go (register p env)
    where
      go :
          (r : Registering C S J × E)
          → let x =
              add_registered cmd_name seeder_name job_name semver register boot_plugin
                (name p)
                r
                app in
            x.1 ≡ none
            → (x.0.0.migrations
                ≡ app.migrations ++ map (new_namespaced (name p)) (migrations_of r.0))
              × (x.0.1 ≡ r.1)
      go (register_failed e, env') h = absurd (cc (h))
      go (registration reg, env') h = (
        add_rest-migrations (name p) reg app
            (register_migrations Migrations.name (name p) reg.migrations app.migrations) refl h,
        refl,
      )

  -- The loop of Setup, when it ends without an error.
  abbrev AllAdded : List Plugin → App P C S J × E → App P C S J × E → Type 0
  AllAdded ps s s' =
      (s'.0.migrations ≡ s.0.migrations ++ collected register ps s.1)
      × (s'.1 ≡ registers register ps s.1)

  setup_plugins-AllAdded :
      (ps : List Plugin) (s : App P C S J × E)
      → (setup_all ps s).1 ≡ none
      → AllAdded ps s (setup_all ps s).0
  unfolding setup_plugins collected registers
  setup_plugins-AllAdded [] s h = (sym (append-nil s.0.migrations), refl)
  setup_plugins-AllAdded (p ∷ ps) s h =
      let (s', result) = setup_one p s in
      go s' result (setup_plugin-Added p s) (setup_plugins-AllAdded ps s') h
    where
      go :
          (s' : App P C S J × E) (result : Option LifeError)
          → (result ≡ none → Added p s s')
          → ((setup_all ps s').1 ≡ none → AllAdded ps s' (setup_all ps s').0)
          → let r : (App P C S J × E) × Option LifeError = elim result [
            | some e ↦ (s', some e)
            | none ↦ setup_all ps s'
          ] in
            r.1 ≡ none
            → (r.0.0.migrations
                ≡ s.0.migrations
                  ++ (map (new_namespaced (name p)) (migrations_of (register p s.1).0)
                      ++ collected register ps (register p s.1).1))
              × (r.0.1 ≡ registers register ps (register p s.1).1)
      go s' (some e) one rest h = absurd (cc (h))
      go s' none one rest h =
          let (first, env) = one refl in
          let (others, env') = rest h in
          (
            others
                ∙ ap (λ l. l ++ collected register ps s'.1) first
                ∙ append_assoc s.0.migrations
                    (map (new_namespaced (name p)) (migrations_of (register p s.1).0))
                    (collected register ps s'.1)
                ∙ ap
                    (λ e.
                      s.0.migrations
                      ++ (map (new_namespaced (name p)) (migrations_of (register p s.1).0)
                          ++ collected register ps e))
                    env,
            env' ∙ ap (registers register ps) env,
          )

  -- What the first call of Setup does: without an error the plugins stand in their new order and have
  -- registered in it; after an error the app is not set up.
  abbrev pub SetsUp : App P C S J → E → (App P C S J × E) × Option LifeError → Type 0
  SetsUp app env ((app', env'), some e) = app'.did_setup ≡ false
  SetsUp app env ((app', env'), none) =
      (ps : List Plugin) × (init_plugins semver app.plugins ≡ sorted ps)
      × (app'.plugins ≡ ps)
      × (app'.migrations ≡ app.migrations ++ collected register ps env)
      × (env' ≡ registers register ps env)
      × (app'.did_setup ≡ true)

  set_up-SetsUp :
      (app : App P C S J) (env : E) (ps : List Plugin)
      → app.did_setup ≡ false
      → init_plugins semver app.plugins ≡ sorted ps
      → let s : App P C S J × E = (record app { plugins = ps }, env) in
        (r : (App P C S J × E) × Option LifeError)
        → Beside cmd_name seeder_name job_name s.0 r.0.0
        → (r.1 ≡ none → AllAdded ps s r.0)
        → SetsUp app env (set_up cmd_name seeder_name job_name semver register boot_plugin r)
  set_up-SetsUp app env ps unset order ((app', env'), some e) near added = near.same_setup ∙ unset
  set_up-SetsUp app env ps unset order ((app', env'), none) near added =
      let (migrations, after) = added refl in
      (ps, order, near.same_plugins, migrations, after, refl)

  -- The first call of Setup, when it returns no error, has put the plugins in the order of
  -- initPlugins, called the Register of each of them once and in this order, and appended the
  -- migrations that they returned, each under its plugin's name; after an error the app is not set up.
  pub setup_lem :
      (app : App P C S J) (env : E) → app.did_setup ≡ false → SetsUp app env (set_up_app (app, env))
  unfolding setup
  setup_lem app env unset =
      if_cases (SetsUp app env) app.did_setup ((app, env), none)
        (setup_sorted cmd_name seeder_name job_name semver register boot_plugin
          (init_plugins semver app.plugins) (app, env))
        (λ again. absurd (cc (again, unset))) (λ first. go (init_plugins semver app.plugins) refl)
    where
      go :
          (r : Plugins.Setup)
          → init_plugins semver app.plugins ≡ r
          → SetsUp app env
              (setup_sorted cmd_name seeder_name job_name semver register boot_plugin r (app, env))
      go (problems found) q = unset
      go (circular path) q = unset
      go out_of_fuel q = unset
      go (sorted ps) q =
          let s : App P C S J × E = (record app { plugins = ps }, env) in
          set_up-SetsUp app env ps unset q (setup_all ps s)
            (setup_plugins-Keeps cmd_name seeder_name job_name semver register boot_plugin ps s).1
            (setup_plugins-AllAdded ps s)
