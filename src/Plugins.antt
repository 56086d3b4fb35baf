-- ===== src/Plugins.antt =====
-- app/plugin.go: which plugins an app takes, the checks of their dependencies, and the order in
-- which they are set up. golang.org/x/mod/semver is a parameter.
mod Tests
pub mod Use
pub mod Edges
pub mod Order
use go_hypercube.Common.{
  Bool, true, false, not, Option, none, some, List, [], ◌∷◌, ◌++◌, ◌&&◌, map, ◌==◌, if◌then◌else◌,
  Text, text_eq, contains, lookup, insert,
}
use go_hypercube.Graph.{Graph, new_graph, add_vertex, add_edge, get_reverse_topological_or_cycle}

-- plugin.DependencyDesc
pub record DependencyDesc : Type 0 where
  pub id : Text
  pub version : Text

-- The parts of plugin.Plugin that this file reads: Name, Version and Dependencies.
pub record Plugin : Type 0 where
  pub plugin_name : Text
  pub version : Text
  pub dependencies : List DependencyDesc

abbrev pub name : Plugin → Text
name p = p.plugin_name

-- golang.org/x/mod/semver: IsValid, Major, and whether Compare is at least 0.
pub record Semver : Type 0 where
  pub is_valid : Text → Bool
  pub major : Text → Text
  pub at_least : Text → Text → Bool

-- "owner"
abbrev pub host_app_namespace : Text
host_app_namespace = b'o' ∷ b'w' ∷ b'n' ∷ b'e' ∷ b'r' ∷ []

pub data UseError : Type 0 where
  after_setup empty_name reserved_name : UseError
  duplicate_name invalid_version : Text → UseError

pub data Problem : Type 0 where
  missing invalid_required invalid_actual incompatible : Text → Text → Problem

pub data Setup : Type 0 where
  sorted : List Plugin → Setup
  problems : List Problem → Setup
  circular : List Text → Setup
  out_of_fuel : Setup

module _ (semver : Semver) where
  -- The loop of UsePlugin; `seen` holds the keys of the map.
  unfoldable pub check_names : List Text → List Plugin → Option UseError
  check_names seen [] = none
  check_names seen (p ∷ ps) =
      if name p == []
      then some empty_name
      else if name p == host_app_namespace
      then some reserved_name
      else if contains seen (name p)
      then some (duplicate_name (name p))
      else if not (p.version == []) && not (semver.is_valid p.version)
      then some (invalid_version (name p))
      else check_names (name p ∷ seen) ps

  abbrev pub taken : List Plugin → List Plugin → Option UseError → List Plugin × Option UseError
  taken plugins new none = (plugins ++ new, none)
  taken plugins new (some e) = (plugins, some e)

  -- UsePlugin: the app's plugins afterwards, and the error.
  unfoldable pub use_plugin : Bool → List Plugin → List Plugin → List Plugin × Option UseError
  unfolding check_names
  use_plugin did_setup plugins new =
      if did_setup
      then (plugins, some after_setup)
      else taken plugins new (check_names (map name plugins) new)

  -- isVersionCompatible
  unfoldable pub is_version_compatible : Text → Text → Bool
  is_version_compatible actual required =
      if semver.major actual == semver.major required
      then semver.at_least actual required
      else false

abbrev pub zero_desc : DependencyDesc
zero_desc = record { id = []; version = [] }

-- findDependencyDesc
unfoldable pub find_dependency_desc : List DependencyDesc → Text → DependencyDesc
find_dependency_desc [] dep_id = zero_desc
find_dependency_desc (d ∷ ds) dep_id = if d.id == dep_id then d else find_dependency_desc ds dep_id

-- The maps from names to plugins; a later plugin of a name replaces an earlier one.
unfoldable pub by_name : List Plugin → List (Text × Plugin) → List (Text × Plugin)
by_name [] m = m
by_name (p ∷ ps) m = by_name ps (insert (name p) p m)

-- The loop of initPlugins over one plugin's dependencies.
unfoldable pub add_dependencies : Text → List DependencyDesc → Graph Text → Graph Text
add_dependencies n [] g = g
add_dependencies n (d ∷ ds) g = add_dependencies n ds (add_edge n d.id g)

-- The graph that initPlugins builds.
unfoldable pub plugin_graph : List Plugin → Graph Text → Graph Text
unfolding add_dependencies
plugin_graph [] g = g
plugin_graph (p ∷ ps) g =
    plugin_graph ps (add_dependencies (name p) p.dependencies (add_vertex (name p) g).0)

abbrev pub dependencies_of : Option Plugin → List DependencyDesc
dependencies_of none = []
dependencies_of (some p) = p.dependencies

module _ (semver : Semver) (plugins : List Plugin) where
  abbrev pub found_by_name : Text → Option Plugin
  found_by_name n = lookup n (by_name plugins [])

  abbrev pub version_problem : Text → Text → Text → Text → List Problem
  version_problem n dep required actual =
      if required == []
      then []
      else if not (semver.is_valid required)
      then invalid_required n dep ∷ []
      else if not (semver.is_valid actual)
      then invalid_actual n dep ∷ []
      else if is_version_compatible semver actual required
      then []
      else incompatible n dep ∷ []

  -- The body of the inner loop of checkPluginDependencies.
  unfoldable pub check_dependency : Text → Text → Option Plugin → List Problem
  check_dependency n dep none = missing n dep ∷ []
  check_dependency n dep (some p) =
      version_problem n dep (find_dependency_desc (dependencies_of (found_by_name n)) dep).version
        p.version

  unfoldable pub check_edges : Text → List Text → List Problem
  check_edges n [] = []
  check_edges n (dep ∷ deps) = check_dependency n dep (found_by_name dep) ++ check_edges n deps

  -- checkPluginDependencies. Go ranges over the map in any order; here it is the order in which
  -- the keys were added.
  unfoldable pub check_plugin_dependencies : List (Text × List Text) → List Problem
  check_plugin_dependencies [] = []
  check_plugin_dependencies ((n, deps) ∷ m) = check_edges n deps ++ check_plugin_dependencies m

  abbrev pub pick : Option Plugin → List Plugin → List Plugin
  pick none ps = ps
  pick (some p) ps = p ∷ ps

  -- sortPluginsByIdOrder
  unfoldable pub sort_plugins_by_id_order : List Text → List Plugin
  sort_plugins_by_id_order [] = []
  sort_plugins_by_id_order (n ∷ ids) = pick (found_by_name n) (sort_plugins_by_id_order ids)

  abbrev pub arranged : Option (List Text × List Text) → Setup
  arranged none = out_of_fuel
  arranged (some (order, [])) = sorted (sort_plugins_by_id_order order)
  arranged (some (order, v ∷ path)) = circular (v ∷ path)

  abbrev pub checked : Graph Text → List Problem → Setup
  checked g [] = arranged (get_reverse_topological_or_cycle [] g)
  checked g (p ∷ ps) = problems (p ∷ ps)

  -- initPlugins: the app's plugins in their new order, or the error.
  unfoldable pub init_plugins : Setup
  unfolding plugin_graph check_plugin_dependencies sort_plugins_by_id_order
  init_plugins =
      let g = plugin_graph plugins new_graph in checked g (check_plugin_dependencies g.vertices)
