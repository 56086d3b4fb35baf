-- ===== src/Lifecycle/Setup.antt =====
-- Setup of app/app.go.
use go_hypercube.Common.{
  ◌≡◌, refl, ◌∙◌, true, Option, none, some, List, [], ◌∷◌, Text, text_eq, if◌then◌else◌, if_cases,
}
use go_hypercube.Plugins.{
  Plugin, name, Semver, UseError, sorted, problems, circular, out_of_fuel, use_plugin, init_plugins,
  host_app_namespace,
}
use go_hypercube.Plugins
use go_hypercube.Plugins.Order.{init_plugins_lem, init_plugins-IsUnique}
use go_hypercube.Lifecycle.{
  App, LifeError, boot_before_setup, Registering, registration, register_failed, add_registered,
  setup_plugin, setup_plugins, set_up, setup_sorted, setup, boot_plugins, booted, boot,
}
use go_hypercube.Lifecycle.Valid.{
  IsTidy, IsValid, Beside, Beside-refl, Beside-trans, IsValid-of_Beside, with_plugins-IsValid,
  with_flags-IsValid, add_registration-IsTidy, add_registration-Beside,
}

module _ {P C S J E : Type 0} (cmd_name : C → Text) (seeder_name : S → Text) (job_name : J → Text)
    (semver : Semver) (register : Plugin → E → Registering C S J × E)
    (boot_plugin : Plugin → E → Option Text × E) where
  abbrev set_up_app : App P C S J × E → (App P C S J × E) × Option LifeError
  set_up_app = setup cmd_name seeder_name job_name semver register boot_plugin

  abbrev boot_app : App P C S J × E → (App P C S J × E) × Option LifeError
  boot_app = boot cmd_name seeder_name job_name semver register boot_plugin

  abbrev Valid : App P C S J → Type 0
  Valid = IsValid cmd_name seeder_name job_name

  abbrev Tidy : App P C S J → Type 0
  Tidy = IsTidy cmd_name seeder_name job_name

  abbrev Near : App P C S J → App P C S J → Type 0
  Near = Beside cmd_name seeder_name job_name

  abbrev setup_one : Plugin → App P C S J × E → (App P C S J × E) × Option LifeError
  setup_one = setup_plugin cmd_name seeder_name job_name semver register boot_plugin

  abbrev setup_all : List Plugin → App P C S J × E → (App P C S J × E) × Option LifeError
  setup_all = setup_plugins cmd_name seeder_name job_name semver register boot_plugin

  -- A registration keeps the registries tidy and the rest of the app.
  abbrev Keeps : App P C S J → App P C S J → Type 0
  Keeps app app' = (Tidy app → Tidy app') × Near app app'

  add_registered-Keeps :
      (namespace : Text) (app : App P C S J) (r : Registering C S J × E)
      → Keeps app
          (add_registered cmd_name seeder_name job_name semver register boot_plugin namespace r
            app).0.0
  add_registered-Keeps namespace app (register_failed e, env) =
      (λ h. h, Beside-refl cmd_name seeder_name job_name app)
  add_registered-Keeps namespace app (registration reg, env) = (
    add_registration-IsTidy cmd_name seeder_name job_name namespace reg app,
    add_registration-Beside cmd_name seeder_name job_name namespace reg app,
  )

  setup_plugin-Keeps : (p : Plugin) (s : App P C S J × E) → Keeps s.0 (setup_one p s).0.0
  unfolding setup_plugin
  setup_plugin-Keeps p (app, env) = add_registered-Keeps (name p) app (register p env)

  pub setup_plugins-Keeps :
      (ps : List Plugin) (s : App P C S J × E) → Keeps s.0 (setup_all ps s).0.0
  unfolding setup_plugins
  setup_plugins-Keeps [] s = (λ h. h, Beside-refl cmd_name seeder_name job_name s.0)
  setup_plugins-Keeps (p ∷ ps) s =
      let (s', result) = setup_one p s in
      go s' result (setup_plugin-Keeps p s) (setup_plugins-Keeps ps s')
    where
      go :
          (s' : App P C S J × E) (result : Option LifeError)
          → Keeps s.0 s'.0
          → Keeps s'.0 (setup_all ps s').0.0
          → let r : (App P C S J × E) × Option LifeError = elim result [
            | some e ↦ (s', some e)
            | none ↦ setup_all ps s'
          ] in
            Keeps s.0 r.0.0
      go s' (some e) one rest = one
      go s' none one rest = (
        λ h. rest.0 (one.0 h),
        Beside-trans cmd_name seeder_name job_name s.0 s'.0 (setup_all ps s').0.0 one.1 rest.1,
      )

  set_up-IsValid :
      (r : (App P C S J × E) × Option LifeError)
      → Valid r.0.0
      → Valid (set_up cmd_name seeder_name job_name semver register boot_plugin r).0.0
  set_up-IsValid (s, some e) h = h
  set_up-IsValid ((app, env), none) h =
      with_flags-IsValid cmd_name seeder_name job_name app true app.did_boot h (λ b. refl)

  pub setup-IsValid : (s : App P C S J × E) → Valid s.0 → Valid (set_up_app s).0.0
  unfolding setup
  setup-IsValid (app, env) h =
      if_cases (λ (r : (App P C S J × E) × Option LifeError). Valid r.0.0) app.did_setup
        ((app, env), none)
        (setup_sorted cmd_name seeder_name job_name semver register boot_plugin
          (init_plugins semver app.plugins) (app, env))
        (λ again. h) (λ first. go (init_plugins semver app.plugins) refl)
    where
      go :
          (r : Plugins.Setup)
          → init_plugins semver app.plugins ≡ r
          → Valid
              (setup_sorted cmd_name seeder_name job_name semver register boot_plugin r
                (app, env)).0.0
      go (problems found) q = h
      go (circular path) q = h
      go out_of_fuel q = h
      go (sorted ps) q =
          let app1 : App P C S J = record app { plugins = ps } in
          let valid1 : Valid app1 =
            with_plugins-IsValid cmd_name seeder_name job_name ps app h
              (init_plugins-IsUnique semver app.plugins ps q)
              ((init_plugins_lem semver app.plugins ps q).0 host_app_namespace ∙ h.unreserved) in
          let (tidy, near) = setup_plugins-Keeps ps (app1, env) in
          set_up-IsValid (setup_all ps (app1, env)) (
            IsValid-of_Beside cmd_name seeder_name job_name app1 (setup_all ps (app1, env)).0.0
              valid1 near (tidy valid1.tidy))

  booted-IsValid :
      (app : App P C S J) (r : E × Option LifeError)
      → app.did_setup ≡ true
      → Valid app
      → Valid (booted cmd_name seeder_name job_name semver register boot_plugin app r).0.0
  booted-IsValid app (env, some e) first h = h
  booted-IsValid app (env, none) first h =
      with_flags-IsValid cmd_name seeder_name job_name app app.did_setup true h (λ b. first)

  pub boot-IsValid : (s : App P C S J × E) → Valid s.0 → Valid (boot_app s).0.0
  unfolding boot
  boot-IsValid (app, env) h =
      let run =
        booted cmd_name seeder_name job_name semver register boot_plugin app
          (boot_plugins boot_plugin app.plugins env) in
      let Keep : (App P C S J × E) × Option LifeError → Type 0 = λ r. Valid r.0.0 in
      if_cases Keep app.did_setup (if app.did_boot then ((app, env), none) else run)
        ((app, env), some boot_before_setup)
        (λ ready.
          if_cases Keep app.did_boot ((app, env), none) run (λ again. h)
            (λ first. booted-IsValid app (boot_plugins boot_plugin app.plugins env) ready h))
        (λ early. h)
