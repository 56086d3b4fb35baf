-- ===== src/Plugins/Tests.antt =====
-- Two plugins, of which the first depends on the second.
use go_hypercube.Common.{
  Bool, false, List, none, some, inr, All, IsUnique, true, ◌≡◌, refl, [], ◌∷◌, map, Text, text_eq,
  text_beq, text_leb, contains, lookup, insert,
}
use go_hypercube.Graph.{
  new_graph, add_vertex, add_edge, visit_children, dfs, visit_all, trace_back, targets, finish,
  get_topological_or_cycle, get_reverse_topological_or_cycle,
}
use go_hypercube.Graph.Decide.{Precedes}
use go_hypercube.Plugins.{
  Plugin, name, Semver, sorted, init_plugins, use_plugin, UseError, plugin_graph, add_dependencies,
  by_name, check_dependency, check_edges, check_plugin_dependencies, find_dependency_desc,
  is_version_compatible, sort_plugins_by_id_order,
}
use go_hypercube.Plugins.Edges.{Declares}
use go_hypercube.Plugins.Use.{IsAcceptable, use_plugin_lem}
use go_hypercube.Plugins.Order.{init_plugins_lem}

-- Versions that compare like texts, all with the same major version.
abbrev text_versions : Semver
text_versions = record { is_valid = λ v. true; major = λ v. []; at_least = λ v w. text_leb w v }

abbrev auth : Plugin
auth = record {
  plugin_name = b'a' ∷ [];
  version = b'1' ∷ [];
  dependencies = record { id = b'b' ∷ []; version = b'1' ∷ [] } ∷ [];
}

abbrev base : Plugin
base = record { plugin_name = b'b' ∷ []; version = b'2' ∷ []; dependencies = [] }

base_first : init_plugins text_versions (auth ∷ base ∷ []) ≡ sorted (base ∷ auth ∷ [])
unfolding init_plugins plugin_graph add_dependencies by_name check_dependency check_edges
    check_plugin_dependencies find_dependency_desc is_version_compatible sort_plugins_by_id_order
    new_graph add_vertex add_edge visit_children dfs visit_all trace_back targets finish
    get_topological_or_cycle get_reverse_topological_or_cycle contains lookup insert text_beq
    text_leb
base_first = refl

init_plugins_lem_example :
    ((n : Text)
      → contains (map name (base ∷ auth ∷ [])) n ≡ contains (map name (auth ∷ base ∷ [])) n)
    × ((x y : Text) → Declares (auth ∷ base ∷ []) x y → Precedes (map name (base ∷ auth ∷ [])) y x)
init_plugins_lem_example =
    init_plugins_lem text_versions (auth ∷ base ∷ []) (base ∷ auth ∷ []) base_first

auth-IsAcceptable : IsAcceptable text_versions auth
auth-IsAcceptable = (λ h. absurd (cc h), λ h. absurd (cc h), inr refl)

one_plugin : IsUnique (map name (base ∷ []))
unfolding contains
one_plugin = (refl, tt)

use_plugin_lem_example :
    (All (IsAcceptable text_versions) (auth ∷ [])
      → IsUnique (map name (base ∷ auth ∷ []))
      → use_plugin text_versions false (base ∷ []) (auth ∷ []) ≡ (base ∷ auth ∷ [], none))
    × ((did_setup : Bool) (ps : List Plugin)
        → use_plugin text_versions did_setup (base ∷ []) (auth ∷ []) ≡ (ps, none)
        → (did_setup ≡ false)
          × (ps ≡ base ∷ auth ∷ [])
          × All (IsAcceptable text_versions) (auth ∷ [])
          × IsUnique (map name (base ∷ auth ∷ [])))
    × ((did_setup : Bool) (ps : List Plugin) (e : UseError)
        → use_plugin text_versions did_setup (base ∷ []) (auth ∷ []) ≡ (ps, some e)
        → ps ≡ base ∷ [])
use_plugin_lem_example = use_plugin_lem text_versions (base ∷ []) (auth ∷ []) one_plugin
