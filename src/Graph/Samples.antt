-- ===== src/Graph/Samples.antt =====
-- Small graphs, and what the sort returns on them.
use go_hypercube.Common.{
  ℕ, ◌≡◌, ◌↔◌, ◌⊎◌, true, List, arith, refl, [], ◌∷◌, some, contains, lookup, insert, nat_eq,
}
use go_hypercube.Graph.Invariant.{Edge}
use go_hypercube.Graph.Build.{vertex, edge, build, IsSimple, Asks, build_lem}
use go_hypercube.Graph.Walk.{IsCycle}
use go_hypercube.Graph.Sorted.{IsTopological, get_topological_or_cycle_total}
use go_hypercube.Graph.Decide.{
  Precedes, get_topological_or_cycle_iff, get_reverse_topological_or_cycle-Precedes,
}
use go_hypercube.Graph.{
  Graph, new_graph, nodes, add_vertex, add_edge, visit_children, dfs, visit_all, trace_back,
  targets, finish, get_topological_or_cycle, get_reverse_topological_or_cycle,
}

program : Unit {0}
unfolding new_graph add_vertex add_edge visit_children dfs visit_all trace_back targets finish
    get_topological_or_cycle get_reverse_topological_or_cycle contains lookup insert
program = tt

-- 1 → 2, 1 → 3, 2 → 4, 3 → 4, and 5 alone.
pub diamond : Graph ℕ
unfolding program
diamond =
    let vertex = λ (v : ℕ) (g : Graph ℕ). (add_vertex v g).0 in
    add_edge 3 4 (
      add_edge 2 4 (
        add_edge 1 3
          (add_edge 1 2 (vertex 5 (vertex 4 (vertex 3 (vertex 2 (vertex 1 new_graph))))))))

-- 1 → 2 → 3 → 2
pub ring : Graph ℕ
unfolding program
ring =
    let vertex = λ (v : ℕ) (g : Graph ℕ). (add_vertex v g).0 in
    add_edge 3 2 (add_edge 2 3 (add_edge 1 2 (vertex 3 (vertex 2 (vertex 1 new_graph)))))

pub diamond_sorted : get_topological_or_cycle 0 diamond ≡ some (5 ∷ 1 ∷ 3 ∷ 2 ∷ 4 ∷ [], [])
unfolding program diamond
diamond_sorted = refl

diamond_dependency_first :
    get_reverse_topological_or_cycle 0 diamond ≡ some (4 ∷ 2 ∷ 3 ∷ 1 ∷ 5 ∷ [], [])
unfolding program diamond
diamond_dependency_first = refl

pub ring_cycle : get_topological_or_cycle 0 ring ≡ some ([], 2 ∷ 3 ∷ 2 ∷ [])
unfolding program ring
ring_cycle = refl

build_lem_example :
    IsSimple {K = ℕ} (build (vertex 1 ∷ edge 1 2 ∷ edge 1 2 ∷ []) new_graph)
    × ((x y : ℕ)
        → Edge (build (vertex 1 ∷ edge 1 2 ∷ edge 1 2 ∷ []) new_graph) x y
          ↔ Asks (vertex 1 ∷ edge 1 2 ∷ edge 1 2 ∷ []) x y)
build_lem_example = build_lem (vertex 1 ∷ edge 1 2 ∷ edge 1 2 ∷ [])

get_topological_or_cycle_total_example :
    ((order : List ℕ) × (get_topological_or_cycle 0 ring ≡ some (order, []))
      × IsTopological ring order)
    ⊎ ((path : List ℕ) × (get_topological_or_cycle 0 ring ≡ some ([], path)) × IsCycle ring path)
get_topological_or_cycle_total_example = get_topological_or_cycle_total ring 0

ring-added : (u v : ℕ) → Edge ring u v → contains ring.order v ≡ true
unfolding program ring
ring-added u v h = ground arith

get_topological_or_cycle_iff_example :
    ((order : List ℕ) × (get_topological_or_cycle 0 ring ≡ some (order, [])))
    ↔ ((path : List ℕ) → ¬ IsCycle ring path)
get_topological_or_cycle_iff_example = get_topological_or_cycle_iff ring 0 ring-added

get_reverse_topological_or_cycle-Precedes_example :
    ((u v : ℕ)
      → contains (4 ∷ 2 ∷ 3 ∷ 1 ∷ 5 ∷ []) u ≡ true
      → Edge diamond u v
      → Precedes (4 ∷ 2 ∷ 3 ∷ 1 ∷ 5 ∷ []) v u)
    × ((u : ℕ) → contains diamond.order u ≡ true → contains (4 ∷ 2 ∷ 3 ∷ 1 ∷ 5 ∷ []) u ≡ true)
    × ((u : ℕ) → contains (4 ∷ 2 ∷ 3 ∷ 1 ∷ 5 ∷ []) u ≡ true → contains (nodes diamond) u ≡ true)
get_reverse_topological_or_cycle-Precedes_example =
    get_reverse_topological_or_cycle-Precedes diamond 0 (4 ∷ 2 ∷ 3 ∷ 1 ∷ 5 ∷ [])
      diamond_dependency_first
