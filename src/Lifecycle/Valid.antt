-- ===== src/Lifecycle/Valid.antt =====
-- What holds of every app that app/app.go makes, and that each of its operations keeps.
use go_hypercube.Common.{
  ◌≡◌, refl, sym, ap, ◌∙◌, subst, Bool, true, false, Option, List, map, Text, text_eq, contains,
  contains-nil, IsUnique,
}
use go_hypercube.Namespaced.{Namespaced}
use go_hypercube.Registry.{Registered, ok, err, register_all, register_jobs, register_migrations}
use go_hypercube.Registry.Keys.{IsKeyed, register_all_lem}
use go_hypercube.Registry.Jobs.{register_jobs_lem}
use go_hypercube.Registry.Migrations.{register_migrations_lem}
use go_hypercube.Migrations.{Migration}
use go_hypercube.Migrations
use go_hypercube.Plugins.{Plugin, name, host_app_namespace}
use go_hypercube.Lifecycle.{App, Registration, new_app, add_jobs, add_rest, add_registration}

pub register_migrations-IsKeyed :
    (namespace : Text) (ms : List Migration) (s s' : List (Namespaced Migration))
    → IsKeyed Migrations.name s
    → register_migrations Migrations.name namespace ms s ≡ ok s'
    → IsKeyed Migrations.name s'
register_migrations-IsKeyed namespace ms s s' h q =
    let (e, keyed) = (register_migrations_lem Migrations.name namespace s ms h).1 s' q in
    subst (IsKeyed Migrations.name) (sym e) keyed

pub register_jobs-IsKeyed :
    {J : Type 0} (job_name : J → Text) (namespace : Text) (js : List (Option J))
    (s s' : List (Namespaced J))
    → IsKeyed job_name s
    → register_jobs job_name namespace js s ≡ ok s'
    → IsKeyed job_name s'
register_jobs-IsKeyed job_name namespace js s s' h q =
    ((register_jobs_lem job_name namespace js s h).1 s' q).1

pub register_all-IsKeyed :
    {T : Type 0} (name_of : T → Text) (namespace : Text) (xs : List T) (s : List (Namespaced T))
    → IsKeyed name_of s
    → IsKeyed name_of (register_all name_of namespace xs s)
register_all-IsKeyed name_of namespace xs s h = (register_all_lem name_of namespace xs s h).0

module _ {P C S J : Type 0} (cmd_name : C → Text) (seeder_name : S → Text)
    (job_name : J → Text) where
  -- The registries hold no key twice.
  pub record IsTidy (app : App P C S J) : Type 0 where
    pub migrations_keyed : IsKeyed Migrations.name app.migrations
    pub cmds_keyed : IsKeyed cmd_name app.cmds
    pub seeders_keyed : IsKeyed seeder_name app.seeders
    pub jobs_keyed : IsKeyed job_name app.jobs

  -- No plugin name is held twice, nor the reserved one, the registries are tidy, and the app was set
  -- up where it was booted.
  pub record IsValid (app : App P C S J) : Type 0 where
    pub unique : IsUnique (map name app.plugins)
    pub unreserved : contains (map name app.plugins) host_app_namespace ≡ false
    pub tidy : IsTidy app
    pub set_up_first : app.did_boot ≡ true → app.did_setup ≡ true

  pub new_app-IsValid : (parts : P) → IsValid (new_app parts)
  unfolding new_app
  new_app-IsValid parts = record {
    unique = tt;
    unreserved = contains-nil host_app_namespace;
    tidy = record { migrations_keyed = tt; cmds_keyed = tt; seeders_keyed = tt; jobs_keyed = tt };
    set_up_first = λ h. h;
  }

  add_jobs-IsTidy :
      (namespace : Text) (js : List (Option J)) (app : App P C S J)
      → IsTidy app
      → (r : Registered J) → register_jobs job_name namespace js app.jobs ≡ r
      → IsTidy (add_jobs cmd_name seeder_name job_name r app).0
  add_jobs-IsTidy namespace js app h (err e) q = h
  add_jobs-IsTidy namespace js app h (ok js') q = record {
    migrations_keyed = h.migrations_keyed;
    cmds_keyed = h.cmds_keyed;
    seeders_keyed = h.seeders_keyed;
    jobs_keyed = register_jobs-IsKeyed job_name namespace js app.jobs js' h.jobs_keyed q;
  }

  add_rest-IsTidy :
      (namespace : Text) (reg : Registration C S J) (app : App P C S J)
      → IsTidy app
      → (r : Registered Migration)
      → register_migrations Migrations.name namespace reg.migrations app.migrations ≡ r
      → IsTidy (add_rest cmd_name seeder_name job_name namespace reg r app).0
  add_rest-IsTidy namespace reg app h (err e) q = h
  add_rest-IsTidy namespace reg app h (ok ms) q =
      let app' : App P C S J = record app {
        migrations = ms;
        cmds = register_all cmd_name namespace reg.cmds app.cmds;
        seeders = register_all seeder_name namespace reg.seeders app.seeders;
      } in
      let tidy : IsTidy app' = record {
        migrations_keyed =
            register_migrations-IsKeyed namespace reg.migrations app.migrations ms
              h.migrations_keyed q;
        cmds_keyed = register_all-IsKeyed cmd_name namespace reg.cmds app.cmds h.cmds_keyed;
        seeders_keyed =
            register_all-IsKeyed seeder_name namespace reg.seeders app.seeders h.seeders_keyed;
        jobs_keyed = h.jobs_keyed;
      } in
      add_jobs-IsTidy namespace reg.jobs app' tidy
        (register_jobs job_name namespace reg.jobs app.jobs) refl

  pub add_registration-IsTidy :
      (namespace : Text) (reg : Registration C S J) (app : App P C S J)
      → IsTidy app
      → IsTidy (add_registration cmd_name seeder_name job_name namespace reg app).0
  unfolding add_registration
  add_registration-IsTidy namespace reg app h =
      add_rest-IsTidy namespace reg app h
        (register_migrations Migrations.name namespace reg.migrations app.migrations) refl

  -- What a registration leaves as it was.
  pub record Beside (app app' : App P C S J) : Type 0 where
    pub same_parts : app'.parts ≡ app.parts
    pub same_plugins : app'.plugins ≡ app.plugins
    pub same_setup : app'.did_setup ≡ app.did_setup
    pub same_boot : app'.did_boot ≡ app.did_boot

  add_jobs-Beside :
      (app0 app : App P C S J) (r : Registered J)
      → Beside app0 app
      → Beside app0 (add_jobs cmd_name seeder_name job_name r app).0
  add_jobs-Beside app0 app (err e) h = h
  add_jobs-Beside app0 app (ok js) h = record {
    same_parts = h.same_parts;
    same_plugins = h.same_plugins;
    same_setup = h.same_setup;
    same_boot = h.same_boot;
  }

  add_rest-Beside :
      (namespace : Text) (reg : Registration C S J) (app : App P C S J) (r : Registered Migration)
      → Beside app (add_rest cmd_name seeder_name job_name namespace reg r app).0
  add_rest-Beside namespace reg app (err e) = record {
    same_parts = refl;
    same_plugins = refl;
    same_setup = refl;
    same_boot = refl;
  }
  add_rest-Beside namespace reg app (ok ms) =
      add_jobs-Beside app
        (record app {
          migrations = ms;
          cmds = register_all cmd_name namespace reg.cmds app.cmds;
          seeders = register_all seeder_name namespace reg.seeders app.seeders;
        })
        (register_jobs job_name namespace reg.jobs app.jobs)
        (record { same_parts = refl; same_plugins = refl; same_setup = refl; same_boot = refl })

  pub add_registration-Beside :
      (namespace : Text) (reg : Registration C S J) (app : App P C S J)
      → Beside app (add_registration cmd_name seeder_name job_name namespace reg app).0
  unfolding add_registration
  add_registration-Beside namespace reg app =
      add_rest-Beside namespace reg app
        (register_migrations Migrations.name namespace reg.migrations app.migrations)

  pub Beside-refl : (app : App P C S J) → Beside app app
  Beside-refl app = record {
    same_parts = refl;
    same_plugins = refl;
    same_setup = refl;
    same_boot = refl;
  }

  pub Beside-trans : (a b c : App P C S J) → Beside a b → Beside b c → Beside a c
  Beside-trans a b c h k = record {
    same_parts = k.same_parts ∙ h.same_parts;
    same_plugins = k.same_plugins ∙ h.same_plugins;
    same_setup = k.same_setup ∙ h.same_setup;
    same_boot = k.same_boot ∙ h.same_boot;
  }

  pub IsValid-of_Beside :
      (app app' : App P C S J) → IsValid app → Beside app app' → IsTidy app' → IsValid app'
  IsValid-of_Beside app app' h beside tidy = record {
    unique = subst (λ ps. IsUnique (map name ps)) (sym beside.same_plugins) h.unique;
    unreserved =
        ap (λ ps. contains (map name ps) host_app_namespace) beside.same_plugins ∙ h.unreserved;
    tidy = tidy;
    set_up_first = λ b. beside.same_setup ∙ h.set_up_first (sym beside.same_boot ∙ b);
  }

  pub with_plugins-IsValid :
      (ps : List Plugin) (app : App P C S J)
      → IsValid app
      → IsUnique (map name ps)
      → contains (map name ps) host_app_namespace ≡ false
      → IsValid (record app { plugins = ps })
  with_plugins-IsValid ps app h unique unreserved = record {
    unique = unique;
    unreserved = unreserved;
    tidy = record {
      migrations_keyed = h.tidy.migrations_keyed;
      cmds_keyed = h.tidy.cmds_keyed;
      seeders_keyed = h.tidy.seeders_keyed;
      jobs_keyed = h.tidy.jobs_keyed;
    };
    set_up_first = h.set_up_first;
  }

  -- A valid app stays valid where only its flags change, and no boot without a setup is noted.
  pub with_flags-IsValid :
      (app : App P C S J) (did_setup did_boot : Bool)
      → IsValid app
      → (did_boot ≡ true → did_setup ≡ true)
      → IsValid (record app { did_setup = did_setup; did_boot = did_boot })
  with_flags-IsValid app did_setup did_boot h first = record {
    unique = h.unique;
    unreserved = h.unreserved;
    tidy = record {
      migrations_keyed = h.tidy.migrations_keyed;
      cmds_keyed = h.tidy.cmds_keyed;
      seeders_keyed = h.tidy.seeders_keyed;
      jobs_keyed = h.tidy.jobs_keyed;
    };
    set_up_first = first;
  }
