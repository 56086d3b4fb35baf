-- ===== src/Lifecycle/Tests.antt =====
-- An app with two plugins, of which the first depends on the second.
use go_hypercube.Common.{
  ◌≡◌, refl, ℕ, ◌+◌, ◌==◌, if◌then◌else◌, true, false, Option, none, some, [], ◌∷◌, Text, text_eq,
  text_beq, nat_eq, text_leb, contains, lookup, insert,
}
use go_hypercube.Graph.{
  new_graph, add_vertex, add_edge, visit_children, dfs, visit_all, trace_back, targets, finish,
  get_topological_or_cycle, get_reverse_topological_or_cycle,
}
use go_hypercube.Namespaced.{new_namespaced, get, contains_item}
use go_hypercube.Registry.{
  already_registered, check_batch, register_migrations, register_all, register_jobs, validate_jobs,
}
use go_hypercube.Migrations.{Migration}
use go_hypercube.Plugins.{
  Plugin, Semver, init_plugins, use_plugin, check_names, plugin_graph, add_dependencies, by_name,
  check_dependency, check_edges, check_plugin_dependencies, find_dependency_desc,
  is_version_compatible, sort_plugins_by_id_order,
}
use go_hypercube.Parser.Strings.{codes}
use go_hypercube.Lifecycle.{
  App, LifeError, rejected, plugin_failed, Registration, Registering, registration, register_failed,
  new_app, add_registration, setup_plugin, setup_plugins, setup, boot_plugins, boot,
}
use go_hypercube.Lifecycle.Valid.{IsValid}
use go_hypercube.Lifecycle.Host.{use_plugins}
use go_hypercube.Lifecycle.Result.{SetsUp, setup_lem, registers, collected}
use go_hypercube.Lifecycle.Once.{boot-once}
use go_hypercube.Lifecycle.Reachable.{
  Reachable, started, plugins_used, was_set_up, was_booted, Reachable-IsValid,
}

abbrev versions : Semver
versions = record { is_valid = λ v. true; major = λ v. []; at_least = λ v w. text_leb w v }

abbrev auth : Plugin
auth = record {
  plugin_name = codes "auth";
  version = codes "v1";
  dependencies = record { id = codes "base"; version = codes "v1" } ∷ [];
}

abbrev base : Plugin
base = record { plugin_name = codes "base"; version = codes "v2"; dependencies = [] }

abbrev TestApp : Type 0
TestApp = App (Unit {0}) Text Text Text

abbrev same : Text → Text
same n = n

abbrev create : Migration
create = record { migration_name = codes "create"; up = codes "c" ∷ []; down = codes "d" ∷ [] }

abbrev with_migration : Registration Text Text Text
with_migration = record {
  migrations = create ∷ [];
  cmds = codes "list" ∷ [];
  seeders = [];
  jobs = some (codes "mail") ∷ [];
}

-- Every plugin registers the same names; the environment counts the calls.
abbrev register : Plugin → ℕ → Registering Text Text Text × ℕ
register p n = (registration with_migration, n + 1)

-- The second call fails.
abbrev register_once : Plugin → ℕ → Registering Text Text Text × ℕ
register_once p n =
    if n == 1 then (register_failed [], n + 1) else (registration with_migration, n + 1)

abbrev boot_plugin : Plugin → ℕ → Option Text × ℕ
boot_plugin p n = (none, n + 1)

abbrev app : TestApp
app = record {
  parts = tt;
  plugins = auth ∷ base ∷ [];
  migrations = [];
  seeders = [];
  cmds = [];
  jobs = [];
  did_setup = false;
  did_boot = false;
}

abbrev test_setup : TestApp × ℕ → (TestApp × ℕ) × Option LifeError
test_setup = setup same same same versions register boot_plugin

abbrev test_boot : TestApp × ℕ → (TestApp × ℕ) × Option LifeError
test_boot = boot same same same versions register boot_plugin

abbrev failing_setup : TestApp × ℕ → (TestApp × ℕ) × Option LifeError
failing_setup = setup same same same versions register_once boot_plugin

program : Unit {0}
unfolding setup setup_plugins setup_plugin add_registration boot boot_plugins use_plugins use_plugin
    check_names init_plugins plugin_graph add_dependencies by_name check_dependency check_edges
    check_plugin_dependencies find_dependency_desc is_version_compatible sort_plugins_by_id_order
    new_graph add_vertex add_edge visit_children dfs visit_all trace_back targets finish
    get_topological_or_cycle get_reverse_topological_or_cycle contains lookup insert text_beq
    text_leb register_migrations check_batch contains_item get new_namespaced register_all
    register_jobs validate_jobs new_app registers collected
program = tt

set_up_in_order :
    (test_setup (app, 0)).0.0.migrations
    ≡ new_namespaced (codes "base") create ∷ new_namespaced (codes "auth") create ∷ []
unfolding program
set_up_in_order = refl

first_fails : (failing_setup (app, 0)).1 ≡ some (plugin_failed [])
unfolding program
first_fails = refl

-- After a setup that failed behind a first plugin, a second one is rejected.
second_rejected :
    (failing_setup (failing_setup (app, 0)).0).1
    ≡ some (rejected (already_registered (codes "create")))
unfolding program
second_rejected = refl

not_yet : app.did_setup ≡ false
not_yet = refl

setup_lem_example : SetsUp same same same versions register boot_plugin app 0 (test_setup (app, 0))
setup_lem_example = setup_lem same same same versions register boot_plugin app 0 not_yet

abbrev ready : TestApp
ready = record app { did_setup = true }

abbrev done : TestApp
done = record app { did_setup = true; did_boot = true }

boots : test_boot (ready, 0) ≡ ((done, 2), none)
unfolding program
boots = refl

boot-once_example :
    (ready.did_setup ≡ true)
    × (test_setup (done, 2) ≡ ((done, 2), none))
    × (test_boot (done, 2) ≡ ((done, 2), none))
boot-once_example =
    boot-once same same same versions register boot_plugin (ready, 0) (done, 2) boots

abbrev start : TestApp
start = new_app tt

abbrev used : TestApp
used = (use_plugins versions (auth ∷ base ∷ []) start).0

booted-Reachable :
    Reachable same same same versions register boot_plugin (test_boot (test_setup (used, 0)).0).0
booted-Reachable =
    was_booted (test_setup (used, 0)).0
      (was_set_up (used, 0) (plugins_used (auth ∷ base ∷ []) start 0 (started tt 0)))

Reachable-IsValid_example : IsValid same same same (test_boot (test_setup (used, 0)).0).0.0
Reachable-IsValid_example =
    Reachable-IsValid same same same versions register boot_plugin
      (test_boot (test_setup (used, 0)).0).0 booted-Reachable
