-- ===== src/Graph/Build.antt =====
-- AddVertex and AddEdge of internal/structure/graph.go: what a graph built by calls of them holds.
use go_hypercube.Common.{
  ◌≡◌, ◌≢◌, ◌↔◌, ◌⊎◌, inl, inr, true, false, none, some, List, [], ◌∷◌, ◌++◌, Eq, ◌==◌, ==_iff,
  if◌then◌else◌, contains, lookup, insert, lookup-insert, contains-snoc, IsUnique, IsUnique-snoc,
  arith, Bool-cases, Option-cases, subst, sym,
}
use go_hypercube.Graph.{Graph, new_graph, edges, or_nil, add_vertex, add_edge}
use go_hypercube.Graph.Invariant.{Edge}

-- A call of AddVertex or of AddEdge.
pub data Step (K : Type 0) : Type 0 where
  vertex : K → Step K
  edge : K → K → Step K

module _ {K : Type 0} ⦃e : Eq K⦄ where
  -- Vertices and edges are kept once, and every vertex of `order` has its adjacency list.
  pub record IsSimple (g : Graph K) : Type 0 where
    pub once : IsUnique g.order
    pub keyed : (v : K) → contains g.order v ≡ true → lookup v g.vertices ≢ none
    pub single : (v : K) → IsUnique (edges g v)

  new_graph-IsSimple : IsSimple (new_graph {K = K})
  unfolding new_graph contains lookup
  new_graph-IsSimple = record { once = tt; keyed = λ v h. absurd (cc h); single = λ v. tt }

  pub edges-add_vertex : (v : K) (g : Graph K) (x : K) → edges (add_vertex v g).0 x ≡ edges g x
  unfolding add_vertex
  edges-add_vertex v g x = ground (arith, lookup-insert v [] g.vertices x, ==_iff v x)

  edges-add_edge :
      (v w : K) (g : Graph K) (x : K)
      → contains (edges g v) w ≡ false
      → edges (add_edge v w g) x ≡ (if v == x then edges g v ++ w ∷ [] else edges g x)
  unfolding add_edge
  edges-add_edge v w g x new = ground (arith, lookup-insert v (edges g v ++ w ∷ []) g.vertices x)

  add_edge-known : (v w : K) (g : Graph K) → contains (edges g v) w ≡ true → add_edge v w g ≡ g
  unfolding add_edge
  add_edge-known v w g old = ground arith

  add_vertex-IsSimple : (v : K) (g : Graph K) → IsSimple g → IsSimple (add_vertex v g).0
  unfolding add_vertex
  add_vertex-IsSimple v g h = elim (Option-cases (lookup v g.vertices)) [
    | inr (l, old) ↦ subst (λ x. IsSimple x) (add_vertex-known l old) h
    | inl new ↦
        subst (λ x. IsSimple x) (add_vertex-new new)
          (record {
            once = IsUnique-snoc g.order v h.once (ground (arith, h.keyed v));
            keyed = λ x on.
                ground
                  (arith, lookup-insert v [] g.vertices x, contains-snoc g.order v x, h.keyed x);
            single = λ x. subst IsUnique (sym (same x new)) (h.single x);
          })
  ]
    where
      add_vertex-known : (l : List K) → lookup v g.vertices ≡ some l → g ≡ (add_vertex v g).0
      add_vertex-known l old = ground arith

      add_vertex-new :
          lookup v g.vertices ≡ none
          → record g { vertices = insert v [] g.vertices; order = g.order ++ v ∷ [] }
            ≡ (add_vertex v g).0
      add_vertex-new new = ground arith

      same :
          (x : K)
          → lookup v g.vertices ≡ none
          → or_nil (lookup x (insert v [] g.vertices)) ≡ edges g x
      same x new = ground (arith, lookup-insert v [] g.vertices x, ==_iff v x)

  add_edge-IsSimple : (v w : K) (g : Graph K) → IsSimple g → IsSimple (add_edge v w g)
  add_edge-IsSimple v w g h = elim (Bool-cases (contains (edges g v) w)) [
    | inl old ↦ rw (add_edge-known v w g old) h
    | inr new ↦ record {
      once = subst IsUnique (order-add_edge v w g) h.once;
      keyed = λ x on. keyed-add_edge v w g h x (rw (sym (order-add_edge v w g)) at on);
      single = λ x. rw (edges-add_edge v w g x new) (elim (Bool-cases (v == x)) [
        | inl same ↦ rw same (IsUnique-snoc (edges g v) w (h.single v) new)
        | inr apart ↦ rw apart (h.single x)
      ]);
    }
  ]
    where
      order-add_edge : (v w : K) (g : Graph K) → g.order ≡ (add_edge v w g).order
      order-add_edge v w g = unfold add_edge in ground arith

      keyed-add_edge :
          (v w : K) (g : Graph K)
          → IsSimple g
          → (x : K) → contains g.order x ≡ true
          → lookup x (add_edge v w g).vertices ≢ none
      keyed-add_edge v w g h x on =
          unfold add_edge in
          ground (arith, lookup-insert v (edges g v ++ w ∷ []) g.vertices x, h.keyed x)

  -- AddEdge(v, w) adds the edge v → w and no other.
  pub add_edge-Edge :
      (v w : K) (g : Graph K) (x y : K)
      → Edge (add_edge v w g) x y ↔ (Edge g x y ⊎ (v ≡ x) × (w ≡ y))
  add_edge-Edge v w g x y = elim (Bool-cases (contains (edges g v) w)) [
    | inl old ↦ rw (add_edge-known v w g old) (inl, λ c. elim c [ inl h ↦ h | inr (p, q) ↦ cc ])
    | inr new ↦
        ground
          (arith, edges-add_edge v w g x new, contains-snoc (edges g v) w y, ==_iff v x, ==_iff w y)
  ]

  -- The graph that a sequence of calls builds from `g`.
  pub build : List (Step K) → Graph K → Graph K
  build [] g = g
  build (vertex v ∷ steps) g = build steps (add_vertex v g).0
  build (edge v w ∷ steps) g = build steps (add_edge v w g)

  -- The sequence holds the call AddEdge(x, y).
  abbrev pub Asks : List (Step K) → K → K → Type 0
  Asks [] x y = ⊥
  Asks (vertex v ∷ steps) x y = Asks steps x y
  Asks (edge v w ∷ steps) x y = (v ≡ x) × (w ≡ y) ⊎ Asks steps x y

  build-IsSimple : (steps : List (Step K)) (g : Graph K) → IsSimple g → IsSimple (build steps g)
  unfolding build
  build-IsSimple [] g h = h
  build-IsSimple (vertex v ∷ steps) g h = build-IsSimple steps _ (add_vertex-IsSimple v g h)
  build-IsSimple (edge v w ∷ steps) g h = build-IsSimple steps _ (add_edge-IsSimple v w g h)

  build-Edge :
      (steps : List (Step K)) (g : Graph K) (x y : K)
      → Edge (build steps g) x y ↔ (Edge g x y ⊎ Asks steps x y)
  unfolding build
  build-Edge [] g x y = (inl, λ c. elim c [ inl h ↦ h | inr n ↦ absurd n ])
  build-Edge (vertex v ∷ steps) g x y =
      ground (arith, build-Edge steps (add_vertex v g).0 x y, edges-add_vertex v g x)
  build-Edge (edge v w ∷ steps) g x y =
      ground (arith, build-Edge steps (add_edge v w g) x y, add_edge-Edge v w g x y)

  -- Whatever calls of AddVertex and AddEdge build a graph, its vertices and each adjacency list hold
  -- no duplicates, and x → y is an edge of it exactly when AddEdge(x, y) was called.
  pub build_lem :
      (steps : List (Step K))
      → IsSimple (build steps new_graph)
        × ((x y : K) → Edge (build steps new_graph) x y ↔ Asks steps x y)
  unfolding new_graph lookup contains
  build_lem steps = (
    build-IsSimple steps new_graph new_graph-IsSimple,
    λ x y. ground (arith, build-Edge steps new_graph x y),
  )
