-- ===== src/Plugins/Order.antt =====
-- initPlugins of app/plugin.go: the order in which the plugins of an app are set up.
use go_hypercube.Common.{
  ◌≡◌, refl, ◌∙◌, ◌≢◌, ◌⊎◌, inl, inr, true, Option, none, some, List, [], ◌∷◌, ◌++◌, map, ◌==◌,
  ==_iff, ==_refl, Text, text_eq, IsUnique, contains, contains-cons, contains-append, contains-nil,
  lookup, insert, lookup-insert, arith, Option-cases, Bool-cases, ap, sym, subst,
}
use go_hypercube.Graph.{Graph, new_graph, targets, nodes, get_reverse_topological_or_cycle}
use go_hypercube.Graph.Decide.{
  Precedes, get_reverse_topological_or_cycle-Precedes, get_reverse_topological_or_cycle-IsUnique,
}
use go_hypercube.Plugins.{
  Plugin, name, Semver, Problem, sorted, by_name, plugin_graph, found_by_name, check_dependency,
  check_edges, check_plugin_dependencies, sort_plugins_by_id_order, arranged, checked, init_plugins,
}
use go_hypercube.Plugins.Edges.{Declares, plugin_graph-Edge, plugin_graph-order}

append-eq-nil : {A : Type 0} (xs ys : List A) → xs ++ ys ≡ [] → (xs ≡ []) × (ys ≡ [])
append-eq-nil [] ys h = (refl, h)
append-eq-nil (x ∷ xs) ys h = cc

by_name-name :
    (ps : List Plugin) (m : List (Text × Plugin))
    → ((n : Text) (p : Plugin) → lookup n m ≡ some p → name p ≡ n)
    → (n : Text) (p : Plugin) → lookup n (by_name ps m) ≡ some p
    → name p ≡ n
unfolding by_name
by_name-name [] m named n p h = named n p h
by_name-name (q ∷ ps) m named n p h =
    by_name-name ps (insert (name q) q m)
      (λ k r e. ground (arith, lookup-insert (name q) q m k, ==_iff (name q) k, named k r)) n p h

lookup-by_name :
    (ps : List Plugin) (m : List (Text × Plugin)) (n : Text)
    → (contains (map name ps) n ≡ true) ⊎ (lookup n m ≢ none)
    → lookup n (by_name ps m) ≢ none
unfolding by_name
lookup-by_name [] m n (inl h) = absurd (cc (h, contains-nil n))
lookup-by_name [] m n (inr h) = h
lookup-by_name (q ∷ ps) m n h =
    lookup-by_name ps (insert (name q) q m) n
      (ground (arith, lookup-insert (name q) q m n, contains-cons (name q) (map name ps) n, h))

by_name-contains :
    (ps : List Plugin) (m : List (Text × Plugin)) (n : Text)
    → lookup n (by_name ps m) ≢ none
    → (contains (map name ps) n ≡ true) ⊎ (lookup n m ≢ none)
unfolding by_name
by_name-contains [] m n h = inr h
by_name-contains (q ∷ ps) m n h = ground (
  arith,
  by_name-contains ps (insert (name q) q m) n h,
  lookup-insert (name q) q m n,
  contains-cons (name q) (map name ps) n,
)

module _ (semver : Semver) (plugins : List Plugin) where
  abbrev IsFound : Text → Type 0
  IsFound n = found_by_name semver plugins n ≢ none

  check_dependency-IsFound :
      (n dep : Text) (p : Option Plugin) → check_dependency semver plugins n dep p ≡ [] → p ≢ none
  unfolding check_dependency
  check_dependency-IsFound n dep none h = cc
  check_dependency-IsFound n dep (some p) h = λ q. cc q

  check_edges-IsFound :
      (n : Text) (deps : List Text) (w : Text)
      → check_edges semver plugins n deps ≡ []
      → contains deps w ≡ true
      → IsFound w
  unfolding check_edges
  check_edges-IsFound n [] w h on = absurd (cc (on, contains-nil w))
  check_edges-IsFound n (dep ∷ deps) w h on =
      let (here, there) = append-eq-nil (check_dependency semver plugins n dep _) _ h in
      elim (Bool-cases (dep == w)) [
        | inl same ↦ subst IsFound ((==_iff dep w).0 same) (check_dependency-IsFound n dep _ here)
        | inr other ↦ check_edges-IsFound n deps w there (ground (arith, contains-cons dep deps w))
      ]

  check-IsFound :
      (m : List (Text × List Text)) (w : Text)
      → check_plugin_dependencies semver plugins m ≡ []
      → contains (targets m) w ≡ true
      → IsFound w
  unfolding check_plugin_dependencies targets
  check-IsFound [] w h on = absurd (cc (on, contains-nil w))
  check-IsFound ((n, deps) ∷ m) w h on =
      let (here, there) = append-eq-nil (check_edges semver plugins n deps) _ h in
      elim (Bool-cases (contains deps w)) [
        | inl now ↦ check_edges-IsFound n deps w here now
        | inr later ↦ check-IsFound m w there (ground (arith, contains-append deps (targets m) w))
      ]

  IsFound-names : (n : Text) → IsFound n → contains (map name plugins) n ≡ true
  unfolding lookup
  IsFound-names n h = elim (by_name-contains plugins [] n h) [
    | inl on ↦ on
    | inr not_there ↦ absurd (not_there refl)
  ]

  map-sort_plugins :
      (order : List Text)
      → ((n : Text) → contains order n ≡ true → IsFound n)
      → map name (sort_plugins_by_id_order semver plugins order) ≡ order
  unfolding sort_plugins_by_id_order lookup
  map-sort_plugins [] found = refl
  map-sort_plugins (n ∷ order) found =
      let rest =
        map-sort_plugins order (λ k on. found k (ground (arith, contains-cons n order k))) in
      elim (Option-cases (found_by_name semver plugins n)) [
        | inl absent ↦ absurd (found n (ground (arith, contains-cons n order n, ==_refl n)) absent)
        | inr (p, there) ↦
            rw there (cc (by_name-name plugins [] (λ k r e. absurd (cc e)) n p there, rest))
      ]

  arranged-eq-sorted :
      (o : Option (List Text × List Text)) (ps : List Plugin)
      → arranged semver plugins o ≡ sorted ps
      → (order : List Text) × (o ≡ some (order, []))
        × (sort_plugins_by_id_order semver plugins order ≡ ps)
  arranged-eq-sorted none ps h = cc
  arranged-eq-sorted (some (order, [])) ps h = (order, refl, cc h)
  arranged-eq-sorted (some (order, v ∷ path)) ps h = cc

  checked-eq-sorted :
      (g : Graph Text) (found : List Problem) (ps : List Plugin)
      → checked semver plugins g found ≡ sorted ps
      → (found ≡ []) × (arranged semver plugins (get_reverse_topological_or_cycle [] g) ≡ sorted ps)
  checked-eq-sorted g [] ps h = (refl, h)
  checked-eq-sorted g (p ∷ found) ps h = cc

  abbrev graph_of : Graph Text
  graph_of = plugin_graph plugins new_graph

  order_of :
      (ps : List Plugin)
      → init_plugins semver plugins ≡ sorted ps
      → (check_plugin_dependencies semver plugins graph_of.vertices ≡ [])
        × ((order : List Text) × (get_reverse_topological_or_cycle [] graph_of ≡ some (order, []))
            × (sort_plugins_by_id_order semver plugins order ≡ ps))
  unfolding init_plugins
  order_of ps h =
      let (clean, rest) = checked-eq-sorted graph_of _ ps h in
      (clean, arranged-eq-sorted (get_reverse_topological_or_cycle [] graph_of) ps rest)

  names_in_order : (n : Text) → contains graph_of.order n ≡ contains (map name plugins) n
  unfolding new_graph lookup contains
  names_in_order n = plugin_graph-order plugins new_graph n (λ v h. absurd (h refl))

  Declares-name :
      (ps : List Plugin) (x y : Text) → Declares ps x y → contains (map name ps) x ≡ true
  Declares-name [] x y d = absurd d
  Declares-name (p ∷ ps) x y (inl (same, h)) =
      ground (arith, contains-cons (name p) (map name ps) x, ==_iff (name p) x)
  Declares-name (p ∷ ps) x y (inr d) =
      ground (arith, contains-cons (name p) (map name ps) x, Declares-name ps x y d)

  in_nodes :
      check_plugin_dependencies semver plugins graph_of.vertices ≡ []
      → (n : Text) → contains (nodes graph_of) n ≡ true
      → IsFound n
  in_nodes clean n on = elim (Bool-cases (contains graph_of.order n)) [
    | inl added ↦ lookup-by_name plugins [] n (inl (sym (names_in_order n) ∙ added))
    | inr other ↦
        check-IsFound graph_of.vertices n clean
          (ground (arith, contains-append graph_of.order (targets graph_of.vertices) n))
  ]

  -- The order that the graph gives, and the plugins in it.
  init_plugins-order :
      (ps : List Plugin)
      → init_plugins semver plugins ≡ sorted ps
      → (order : List Text) × (get_reverse_topological_or_cycle [] graph_of ≡ some (order, []))
        × (map name ps ≡ order)
        × ((n : Text) → contains order n ≡ true → IsFound n)
  init_plugins-order ps h =
      let (clean, (order, eq, same)) = order_of ps h in
      let (_, _, sound) = get_reverse_topological_or_cycle-Precedes graph_of [] order eq in
      let found : (n : Text) → contains order n ≡ true → IsFound n =
        λ n on. in_nodes clean n (sound n on) in
      (order, eq, sym (ap (map name) same) ∙ map-sort_plugins order found, found)

  -- No name stands twice in the order of initPlugins.
  pub init_plugins-IsUnique :
      (ps : List Plugin) → init_plugins semver plugins ≡ sorted ps → IsUnique (map name ps)
  init_plugins-IsUnique ps h =
      let (order, eq, names, _) = init_plugins-order ps h in
      subst IsUnique (sym names) (get_reverse_topological_or_cycle-IsUnique graph_of [] order eq)

  -- When initPlugins succeeds, the names of the plugins are those that were added, and every plugin
  -- stands behind all plugins that it declares as dependencies.
  pub init_plugins_lem :
      (ps : List Plugin)
      → init_plugins semver plugins ≡ sorted ps
      → ((n : Text) → contains (map name ps) n ≡ contains (map name plugins) n)
        × ((x y : Text) → Declares plugins x y → Precedes (map name ps) y x)
  init_plugins_lem ps h =
      let (order, eq, names, found) = init_plugins-order ps h in
      let (precedes, complete, _) =
        get_reverse_topological_or_cycle-Precedes graph_of [] order eq in
      (
        λ n. ap (λ l. contains l n) names ∙ both order complete found n,
        λ x y d.
            subst (λ l. Precedes l y x) (sym names)
              (precedes x y (complete x (names_in_order x ∙ Declares-name plugins x y d))
                (plugin_graph-Edge plugins new_graph x y (inr d))),
      )
    where
      both :
          (order : List Text)
          → ((n : Text) → contains graph_of.order n ≡ true → contains order n ≡ true)
          → ((n : Text) → contains order n ≡ true → IsFound n)
          → (n : Text) → contains order n ≡ contains (map name plugins) n
      both order complete found n = ground (
        arith,
        complete n,
        names_in_order n,
        λ (on : contains order n ≡ true). IsFound-names n (found n on),
      )
