-- ===== src/Graph/Sorted.antt =====
-- GetTopologicalOrCycle and GetReverseTopologicalOrCycle of internal/structure/graph.go return a
-- topological order or a cycle.
use go_hypercube.Common.{
  ℕ, suc, ◌<◌, ◌≡◌, refl, ◌≢◌, ◌⊎◌, ◌∙◌, inl, inr, true, Option, some, List, [], ◌∷◌, reverse, Eq,
  ==_iff, ==_refl, contains, lookup, length, contains-cons, contains-append, contains-nil,
  contains-reverse, arith,
}
use go_hypercube.Graph.{
  Graph, Search, unvisited, visiting, visited, or_nil, color, nodes, bound, targets, dfs, visit_all,
  start_search, finish, get_topological_or_cycle,
}
use go_hypercube.Graph.Invariant.{
  Color-cases, fresh, fresh-le-length, Edge, IsClosed, Inv, Loop, Kept,
}
use go_hypercube.Graph.Run.{dfs_lem, Kept-refl, Kept-trans}
use go_hypercube.Graph.Walk.{IsCycle, finish-Loop, finish-order}

module _ {K : Type 0} ⦃e : Eq K⦄ where
  contains-targets :
      (m : List (K × List K)) (u w : K)
      → contains (or_nil (lookup u m)) w ≡ true
      → contains (targets m) w ≡ true
  unfolding targets lookup
  contains-targets [] u w h = h
  contains-targets ((v, l) ∷ m) u w h =
      ground (arith, contains-append l (targets m) w, contains-targets m u w)

  module _ (g : Graph K) where
    Edge-inside : (u w : K) → Edge g u w → contains (nodes g) w ≡ true
    Edge-inside u w h =
        ground
          (arith, contains-append g.order (targets g.vertices) w, contains-targets g.vertices u w h)

    visit_all-found :
        (fuel : ℕ) (vs : List K) (s : Search K) (k : K × K)
        → s.cycle ≡ some k
        → visit_all g (suc fuel) vs s ≡ some s
    unfolding visit_all dfs
    visit_all-found fuel [] s k f = refl
    visit_all-found fuel (v ∷ vs) s k f = ground (arith, visit_all-found fuel vs s k f)

    visit_all-skip :
        (fuel : ℕ) (v : K) (vs : List K) (s : Search K)
        → color s v ≢ unvisited
        → visit_all g fuel (v ∷ vs) s ≡ visit_all g fuel vs s
    unfolding visit_all
    visit_all-skip fuel v vs s c = ground arith

    visit_all-call :
        (fuel : ℕ) (v : K) (vs : List K) (s s' : Search K)
        → color s v ≡ unvisited
        → dfs g fuel v s ≡ some s'
        → visit_all g fuel (v ∷ vs) s ≡ visit_all g fuel vs s'
    unfolding visit_all
    visit_all-call fuel v vs s s' c q = ground arith

    -- The outer loop ends with all of `vs` finished, or at a cycle.
    abbrev Covers : List K → Search K → Option (Search K) → Type 0
    Covers vs s r =
        (s' : Search K) × (r ≡ some s')
        × (Kept g [] s s' × ((w : K) → contains vs w ≡ true → color s' w ≡ visited) ⊎ Loop g s')

    Covers-cons :
        (v : K) (vs : List K) (s t : Search K) (r : Option (Search K))
        → Kept g [] s t
        → color t v ≡ visited
        → Covers vs t r
        → Covers (v ∷ vs) s r
    Covers-cons v vs s t r a done (s', eq, inr loop) = (s', eq, inr loop)
    Covers-cons v vs s t r a done (s', eq, inl (b, all)) = (
      s',
      eq,
      inl (
        Kept-trans g [] s t s' a b,
        λ w h. ground (arith, contains-cons v vs w, ==_iff v w, b.grown v done, all w),
      ),
    )

    -- Between two calls of the outer loop no call is open.
    no_visiting : (s : Search K) (v : K) → Inv g [] s → color s v ≢ visiting
    no_visiting s v h = λ c. cc ((h.gray v).0 c, contains-nil v)

    visit_all_lem :
        (fuel : ℕ) (vs : List K) (s : Search K)
        → Inv g [] s
        → ((w : K) → contains vs w ≡ true → contains (nodes g) w ≡ true)
        → fresh s.state (nodes g) < suc fuel
        → Covers vs s (visit_all g (suc fuel) vs s)
    visit_all_lem fuel [] s h inside enough =
        (s, visit_all-nil, inl (Kept-refl g [] s h, λ w k. ground (arith, contains-nil w)))
      where
        visit_all-nil : visit_all g (suc fuel) [] s ≡ some s
        visit_all-nil = unfold visit_all in refl
    visit_all_lem fuel (v ∷ vs) s h inside enough = elim (Color-cases (color s v)) [
      | inr (inl c) ↦ absurd (no_visiting s v h c)
      | inr (inr c) ↦ rw (visit_all-skip (suc fuel) v vs s (λ q. cc (c, q))) (
          Covers-cons v vs s s (visit_all g (suc fuel) vs s) (Kept-refl g [] s h) c
            (visit_all_lem fuel vs s h inside_rest enough))
      | inl c ↦
          let (s2, eq, out) = dfs_lem g Edge-inside (suc fuel) v [] s h c inside_v tt enough in
          rw (visit_all-call (suc fuel) v vs s s2 c eq) (elim out [
            | inr l ↦ (s2, visit_all-found fuel vs s2 _ l.found, inr l)
            | inl (kept, done) ↦
                Covers-cons v vs s s2 (visit_all g (suc fuel) vs s2) kept done
                  (visit_all_lem fuel vs s2 kept.inv inside_rest (omega (arith, kept.spent)))
          ])
    ]
      where
        inside_v : contains (nodes g) v ≡ true
        inside_v = inside v (ground (arith, contains-cons v vs v, ==_refl v))

        inside_rest : (w : K) → contains vs w ≡ true → contains (nodes g) w ≡ true
        inside_rest w k = inside w (ground (arith, contains-cons v vs w))

    Inv-start : Inv g [] start_search
    unfolding lookup contains
    Inv-start = record {
      clear = refl;
      gray = λ x. ground arith;
      black = λ x. ground arith;
      closed = tt;
      trail = tt;
      known = λ x h. absurd (cc h);
      room = omega (arith, fresh-le-length [] (nodes g));
    }

    -- Every added vertex stands in `order`, each vertex once, and before all that its edges point
    -- to; nothing else stands there than added vertices and ends of edges.
    pub record IsTopological (order : List K) : Type 0 where
      pub sorted : IsClosed g order
      pub complete : (v : K) → contains g.order v ≡ true → contains order v ≡ true
      pub sound : (v : K) → contains order v ≡ true → contains (nodes g) v ≡ true

    IsTopological-Kept :
        (s : Search K)
        → Inv g [] s
        → ((w : K) → contains g.order w ≡ true → color s w ≡ visited)
        → IsTopological (reverse s.order)
    IsTopological-Kept s h all = record {
      sorted = h.closed;
      complete = λ v k. ground (arith, contains-reverse s.order v, h.black v, all v k);
      sound = λ v k. h.known v (ground (arith, contains-reverse s.order v));
    }

    get_topological_or_cycle_step :
        (zero_value : K) (s : Search K)
        → visit_all g (bound g) g.order start_search ≡ some s
        → get_topological_or_cycle zero_value g ≡ finish zero_value (bound g) s
    unfolding get_topological_or_cycle
    get_topological_or_cycle_step zero_value s q = ground arith

    -- On every graph GetTopologicalOrCycle returns either a topological order and no cycle, or a
    -- cycle of the graph and no order. The bound on the depth of its recursion, and on the walk
    -- that gathers the cycle, always suffices.
    pub get_topological_or_cycle_total :
        (zero_value : K)
        → ((order : List K) × (get_topological_or_cycle zero_value g ≡ some (order, []))
            × IsTopological order)
          ⊎ ((path : List K) × (get_topological_or_cycle zero_value g ≡ some ([], path))
              × IsCycle g path)
    get_topological_or_cycle_total zero_value =
        let (s, eq, out) =
          visit_all_lem (length (nodes g)) g.order start_search Inv-start
            (λ w k. ground (arith, contains-append g.order (targets g.vertices) w))
            (omega (arith, fresh-le-length [] (nodes g))) in
        let step = get_topological_or_cycle_step zero_value s eq in
        elim out [
          | inl (kept, all) ↦ inl (
            reverse s.order,
            step ∙ finish-order g zero_value (bound g) s kept.inv.clear,
            IsTopological-Kept s kept.inv all,
          )
          | inr l ↦ let (path, eq', c) = finish-Loop g zero_value s l in inr (path, step ∙ eq', c)
        ]
