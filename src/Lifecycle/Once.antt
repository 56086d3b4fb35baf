-- ===== src/Lifecycle/Once.antt =====
-- Setup and Boot of app/app.go act once.
use go_hypercube.Common.{
  ◌≡◌, sym, ap, ◌∙◌, true, Option, none, some, Text, text_eq, if◌then◌else◌, if_cases,
}
use go_hypercube.Plugins.{Plugin, Semver, init_plugins}
use go_hypercube.Lifecycle.{
  App, LifeError, boot_before_setup, Registering, setup_sorted, setup, boot_plugins, booted, boot,
}

module _ {P C S J E : Type 0} (cmd_name : C → Text) (seeder_name : S → Text) (job_name : J → Text)
    (semver : Semver) (register : Plugin → E → Registering C S J × E)
    (boot_plugin : Plugin → E → Option Text × E) where
  abbrev set_up_app : App P C S J × E → (App P C S J × E) × Option LifeError
  set_up_app = setup cmd_name seeder_name job_name semver register boot_plugin

  abbrev boot_app : App P C S J × E → (App P C S J × E) × Option LifeError
  boot_app = boot cmd_name seeder_name job_name semver register boot_plugin

  setup-again : (s : App P C S J × E) → s.0.did_setup ≡ true → set_up_app s ≡ (s, none)
  unfolding setup
  setup-again (app, env) h =
      ap
        (λ b.
          if b
          then ((app, env), none)
          else setup_sorted cmd_name seeder_name job_name semver register boot_plugin
              (init_plugins semver app.plugins) (app, env))
        h

  boot-again :
      (s : App P C S J × E) → s.0.did_setup ≡ true → s.0.did_boot ≡ true → boot_app s ≡ (s, none)
  unfolding boot
  boot-again (app, env) h k =
      let run =
        booted cmd_name seeder_name job_name semver register boot_plugin app
          (boot_plugins boot_plugin app.plugins env) in
      ap
        (λ b.
          if b
          then (if app.did_boot then ((app, env), none) else run)
          else ((app, env), some boot_before_setup))
        h
      ∙ ap (λ b. if b then ((app, env), none) else run) k

  booted-done :
      (app : App P C S J) (r : E × Option LifeError) (s' : App P C S J × E)
      → app.did_setup ≡ true
      → booted cmd_name seeder_name job_name semver register boot_plugin app r ≡ (s', none)
      → (s'.0.did_setup ≡ true) × (s'.0.did_boot ≡ true)
  booted-done app (env, some e) s' h q = absurd (cc (q))
  booted-done app (env, none) s' h q =
      let e : ((record app { did_boot = true }, env)) ≡ s' = cc (q) in
      (
        sym (ap (λ (s : App P C S J × E). s.0.did_setup) e) ∙ h,
        sym (ap (λ (s : App P C S J × E). s.0.did_boot) e),
      )

  boot-flags :
      (s s' : App P C S J × E)
      → boot_app s ≡ (s', none)
      → (s.0.did_setup ≡ true) × (s'.0.did_setup ≡ true) × (s'.0.did_boot ≡ true)
  unfolding boot
  boot-flags (app, env) s' =
      let run =
        booted cmd_name seeder_name job_name semver register boot_plugin app
          (boot_plugins boot_plugin app.plugins env) in
      let Flags : (App P C S J × E) × Option LifeError → Type 0 = λ r.
        r ≡ (s', none)
        → (app.did_setup ≡ true) × (s'.0.did_setup ≡ true) × (s'.0.did_boot ≡ true) in
      if_cases Flags app.did_setup (if app.did_boot then ((app, env), none) else run)
        ((app, env), some boot_before_setup)
        (λ ready.
          if_cases Flags app.did_boot ((app, env), none) run
            (λ again q.
              let e : (app, env) ≡ s' = cc (q) in
              (
                ready,
                sym (ap (λ (x : App P C S J × E). x.0.did_setup) e) ∙ ready,
                sym (ap (λ (x : App P C S J × E). x.0.did_boot) e) ∙ again,
              ))
            (λ first q.
              let (after, done) =
                booted-done app (boot_plugins boot_plugin app.plugins env) s' ready q in
              (ready, after, done)))
        (λ early q. absurd (cc (q)))

  -- A Boot that returns no error has found the app set up, and leaves it set up and booted, so that
  -- further calls of Setup and Boot return at once and change nothing.
  pub boot-once :
      (s s' : App P C S J × E)
      → boot_app s ≡ (s', none)
      → (s.0.did_setup ≡ true) × (set_up_app s' ≡ (s', none)) × (boot_app s' ≡ (s', none))
  boot-once s s' h =
      let (before, after, done) = boot-flags s s' h in
      (before, setup-again s' after, boot-again s' after done)
