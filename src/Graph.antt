-- ===== src/Graph.antt =====
-- internal/structure/graph.go: a directed graph over comparable vertices, and its depth-first
-- topological sort with cycle detection.
mod Samples
pub mod Invariant
mod Run
pub mod Build
pub mod Walk
pub mod Sorted
pub mod Decide
use go_hypercube.Common.{
  ℕ, zero, suc, Bool, true, false, Option, none, some, List, [], ◌∷◌, ◌++◌, reverse, Eq, ◌==◌,
  if◌then◌else◌, contains, lookup, insert, length,
}

-- `order` keeps the vertices in the order of AddVertex.
pub record Graph (K : Type 0) : Type 0 where
  pub vertices : List (K × List K)
  pub order : List K

-- The three values of the type `state`.
pub data Color : Type 0 where
  unvisited visiting visited : Color

-- The variables that GetTopologicalOrCycle's closure `dfs` shares. `cycle` is none while
-- hasCycle is false, and then holds cycleStart and cycleEnd.
pub record Search (K : Type 0) : Type 0 where
  pub state : List (K × Color)
  pub parent : List (K × K)
  pub order : List K
  pub cycle : Option (K × K)

abbrev pub or_unvisited : Option Color → Color
or_unvisited none = unvisited
or_unvisited (some c) = c

module _ {K : Type 0} where
  unfoldable pub new_graph : Graph K
  new_graph = record { vertices = []; order = [] }

module _ {K : Type 0} ⦃e : Eq K⦄ where
  -- `g.Vertices[v]`: a missing key reads as the nil slice.
  abbrev pub or_nil : Option (List K) → List K
  or_nil none = []
  or_nil (some l) = l

  abbrev pub edges : Graph K → K → List K
  edges g v = or_nil (lookup v g.vertices)

  unfoldable pub add_vertex : K → Graph K → Graph K × Bool
  add_vertex v g = elim (lookup v g.vertices) [
    | none ↦ (record g { vertices = insert v [] g.vertices; order = g.order ++ v ∷ [] }, true)
    | some _ ↦ (g, false)
  ]

  unfoldable pub add_edge : K → K → Graph K → Graph K
  add_edge v w g =
      if contains (edges g v) w
      then g
      else record g { vertices = insert v (edges g v ++ w ∷ []) g.vertices }

  -- `state[v]`: a missing key reads as the zero value, unvisited.
  abbrev pub color : Search K → K → Color
  color s v = or_unvisited (lookup v s.state)

  abbrev pub paint : K → Color → Search K → Search K
  paint v c s = record s { state = insert v c s.state }

  -- The loop over the children of `current`; `dfs` is the call of the closure. What is none
  -- ran out of fuel.
  unfoldable pub visit_children :
      (K → Search K → Option (Search K)) → K → List K → Search K → Option (Search K)
  visit_children dfs current [] s = some s
  visit_children dfs current (child ∷ rest) s = elim (color s child) [
    | visiting ↦ some (record s { cycle = some (child, current) })
    | visited ↦ visit_children dfs current rest s
    | unvisited ↦ elim (dfs child (record s { parent = insert child current s.parent })) [
      | none ↦ none
      | some s' ↦ elim s'.cycle [ some _ ↦ some s' | none ↦ visit_children dfs current rest s' ]
    ]
  ]

  -- What `dfs` does after its loop.
  abbrev pub leave : K → Search K → Search K
  leave current s = elim s.cycle [
    | some _ ↦ s
    | none ↦ record s { state = insert current visited s.state; order = s.order ++ current ∷ [] }
  ]

  abbrev pub leave? : K → Option (Search K) → Option (Search K)
  leave? current none = none
  leave? current (some s) = some (leave current s)

  unfoldable pub dfs : Graph K → ℕ → K → Search K → Option (Search K)
  dfs g zero current s = none
  dfs g (suc fuel) current s = elim s.cycle [
    | some _ ↦ some s
    | none ↦
        leave? current
          (visit_children (dfs g fuel) current (edges g current) (paint current visiting s))
  ]

  -- The outer loop over `g.order`. The closure returns at once when a cycle was found.
  unfoldable pub visit_all : Graph K → ℕ → List K → Search K → Option (Search K)
  visit_all g fuel [] s = some s
  visit_all g fuel (v ∷ vs) s = elim (color s v) [
    | unvisited ↦ elim (dfs g fuel v s) [ none ↦ none | some s' ↦ visit_all g fuel vs s' ]
    | _ ↦ visit_all g fuel vs s
  ]

  abbrev pub or_zero : K → Option K → K
  or_zero zero_value none = zero_value
  or_zero zero_value (some k) = k

  -- The walk along `parent` from cycleEnd back to cycleStart; `path` is cyclePath.
  -- A missing key reads as V's zero value.
  unfoldable pub trace_back : K → List (K × K) → K → ℕ → K → List K → Option (List K)
  trace_back zero_value parent start zero curr path = none
  trace_back zero_value parent start (suc fuel) curr path = elim (curr == start) [
    | true ↦ some (path ++ start ∷ [])
    | false ↦
        trace_back zero_value parent start fuel (or_zero zero_value (lookup curr parent))
          (path ++ curr ∷ [])
  ]

  -- Every vertex that the search can meet: the added ones and the ends of edges.
  unfoldable pub targets : List (K × List K) → List K
  targets [] = []
  targets ((v, l) ∷ m) = l ++ targets m

  abbrev pub nodes : Graph K → List K
  nodes g = g.order ++ targets g.vertices

  abbrev pub bound : Graph K → ℕ
  bound g = suc (length (nodes g))

  abbrev pub start_search : Search K
  start_search = record { state = []; parent = []; order = []; cycle = none }

  -- What GetTopologicalOrCycle returns when the search is over.
  unfoldable pub finish : K → ℕ → Search K → Option (List K × List K)
  finish zero_value fuel s = elim s.cycle [
    | none ↦ some (reverse s.order, [])
    | some (start, end) ↦ elim (trace_back zero_value s.parent start fuel end []) [
      | none ↦ none
      | some path ↦ some ([], reverse path ++ start ∷ [])
    ]
  ]

  -- The two slices that GetTopologicalOrCycle returns, where [] stands for nil.
  unfoldable pub get_topological_or_cycle : K → Graph K → Option (List K × List K)
  get_topological_or_cycle zero_value g = elim (visit_all g (bound g) g.order start_search) [
    | none ↦ none
    | some s ↦ finish zero_value (bound g) s
  ]

  -- The dependency-first order, which reverses the slice again.
  unfoldable pub get_reverse_topological_or_cycle : K → Graph K → Option (List K × List K)
  get_reverse_topological_or_cycle zero_value g = elim (get_topological_or_cycle zero_value g) [
    | none ↦ none
    | some (order, []) ↦ some (reverse order, [])
    | some (order, v ∷ cycle) ↦ some ([], v ∷ cycle)
  ]
