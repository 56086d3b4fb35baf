-- ===== src/Plugins/Edges.antt =====
-- The graph that initPlugins of app/plugin.go builds, and what its check of the dependencies says.
use go_hypercube.Common.{
  ◌≡◌, refl, ◌∙◌, ◌≢◌, ◌⊎◌, inl, inr, true, none, List, [], ◌∷◌, ◌++◌, ◌||◌, map, ◌==◌, ==_iff,
  ==_refl, Text, text_eq, contains, contains-cons, contains-snoc, contains-nil, lookup,
  lookup-insert, arith, Bool-cases, ap, subst,
}
use go_hypercube.Graph.{Graph, add_vertex, add_edge, edges}
use go_hypercube.Graph.Invariant.{Edge}
use go_hypercube.Graph.Build.{add_edge-Edge, edges-add_vertex}
use go_hypercube.Plugins.{DependencyDesc, Plugin, name, add_dependencies, plugin_graph}

-- A plugin named `x` declares a dependency on `y`.
abbrev pub Declares : List Plugin → Text → Text → Type 0
Declares [] x y = ⊥
Declares (p ∷ ps) x y =
    (name p ≡ x) × (contains (map (λ d. d.id) p.dependencies) y ≡ true) ⊎ Declares ps x y

abbrev ids : List DependencyDesc → List Text
ids ds = map (λ d. d.id) ds

add_edge_mono : (v w : Text) (g : Graph Text) (x y : Text) → Edge g x y → Edge (add_edge v w g) x y
add_edge_mono v w g x y h = (add_edge-Edge v w g x y).1 (inl h)

add_dependencies_mono :
    (n : Text) (ds : List DependencyDesc) (g : Graph Text) (x y : Text)
    → Edge g x y
    → Edge (add_dependencies n ds g) x y
unfolding add_dependencies
add_dependencies_mono n [] g x y h = h
add_dependencies_mono n (d ∷ ds) g x y h =
    add_dependencies_mono n ds (add_edge n d.id g) x y (add_edge_mono n d.id g x y h)

add_dependencies-Edge :
    (n : Text) (ds : List DependencyDesc) (g : Graph Text) (y : Text)
    → contains (ids ds) y ≡ true
    → Edge (add_dependencies n ds g) n y
unfolding add_dependencies
add_dependencies-Edge n [] g y h = absurd (cc (h, contains-nil y))
add_dependencies-Edge n (d ∷ ds) g y h = elim (Bool-cases (d.id == y)) [
  | inl same ↦
      add_dependencies_mono n ds (add_edge n d.id g) n y
        ((add_edge-Edge n d.id g n y).1 (inr (refl, (==_iff d.id y).0 same)))
  | inr other ↦
      add_dependencies-Edge n ds (add_edge n d.id g) y
        (ground (arith, contains-cons d.id (ids ds) y))
]

-- Every declared dependency is an edge of the graph.
pub plugin_graph-Edge :
    (ps : List Plugin) (g : Graph Text) (x y : Text)
    → Edge g x y ⊎ Declares ps x y
    → Edge (plugin_graph ps g) x y
unfolding plugin_graph
plugin_graph-Edge [] g x y (inl h) = h
plugin_graph-Edge [] g x y (inr n) = absurd n
plugin_graph-Edge (p ∷ ps) g x y (inl h) = plugin_graph-Edge ps _ x y (
    inl
      (add_dependencies_mono (name p) p.dependencies _ x y (rw (edges-add_vertex (name p) g x) h)))
plugin_graph-Edge (p ∷ ps) g x y (inr (inl (same, h))) = plugin_graph-Edge ps _ x y (
    inl (
      subst (λ z. Edge (add_dependencies (name p) p.dependencies (add_vertex (name p) g).0) z y)
        same (add_dependencies-Edge (name p) p.dependencies (add_vertex (name p) g).0 y h)))
plugin_graph-Edge (p ∷ ps) g x y (inr (inr h)) = plugin_graph-Edge ps _ x y (inr h)

-- Each key of the map was added as a vertex.
abbrev IsRooted : Graph Text → Type 0
IsRooted g = (v : Text) → lookup v g.vertices ≢ none → contains g.order v ≡ true

add_vertex-IsRooted : (v : Text) (g : Graph Text) → IsRooted g → IsRooted (add_vertex v g).0
unfolding add_vertex
add_vertex-IsRooted v g h x =
    ground (arith, h x, lookup-insert v [] g.vertices x, contains-snoc g.order v x, ==_iff v x)

add_vertex-order :
    (v : Text) (g : Graph Text) (x : Text)
    → IsRooted g
    → contains (add_vertex v g).0.order x ≡ (v == x || contains g.order x)
unfolding add_vertex
add_vertex-order v g x h = ground (arith, h v, contains-snoc g.order v x, ==_iff v x)

add_dependencies-IsRooted :
    (n : Text) (ds : List DependencyDesc) (g : Graph Text)
    → contains g.order n ≡ true
    → IsRooted g
    → IsRooted (add_dependencies n ds g) × ((add_dependencies n ds g).order ≡ g.order)
unfolding add_dependencies
add_dependencies-IsRooted n [] g on h = (h, refl)
add_dependencies-IsRooted n (d ∷ ds) g on h =
    let (rooted, same) =
      add_dependencies-IsRooted n ds (add_edge n d.id g) (rw kept on)
        (λ x k. rw kept (added x k)) in
    (rooted, same ∙ kept)
  where
    kept : (add_edge n d.id g).order ≡ g.order
    kept = unfold add_edge in ground arith

    added : (x : Text) → lookup x (add_edge n d.id g).vertices ≢ none → contains g.order x ≡ true
    added x =
        unfold add_edge in
        ground (arith, h x, lookup-insert n (edges g n ++ d.id ∷ []) g.vertices x, ==_iff n x)

pub plugin_graph-order :
    (ps : List Plugin) (g : Graph Text) (x : Text)
    → IsRooted g
    → contains (plugin_graph ps g).order x ≡ (contains g.order x || contains (map name ps) x)
unfolding plugin_graph
plugin_graph-order [] g x h = ground (arith, contains-nil x)
plugin_graph-order (p ∷ ps) g x h =
    let n = name p in
    let g1 = (add_vertex n g).0 in
    let on : contains g1.order n ≡ true = ground (arith, add_vertex-order n g n h, ==_refl n) in
    let (rooted, same) =
      add_dependencies-IsRooted n p.dependencies g1 on (add_vertex-IsRooted n g h) in
    plugin_graph-order ps (add_dependencies n p.dependencies g1) x rooted
    ∙ ground (
      arith,
      ap (λ l. contains l x) same,
      add_vertex-order n g x h,
      contains-cons n (map name ps) x,
    )
