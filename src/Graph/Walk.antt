-- ===== src/Graph/Walk.antt =====
-- The walk along `parent` that GetTopologicalOrCycle of internal/structure/graph.go makes when its
-- search met a cycle.
use go_hypercube.Common.{
  ℕ, zero, suc, ◌≤◌, ◌≡◌, ap, ◌∙◌, true, false, none, some, List, [], ◌∷◌, ◌++◌, reverse, Eq, ◌==◌,
  ==_iff, contains, lookup, length, contains-cons, contains-nil, reverse-snoc, arith, subst, sym,
  Bool-cases, inl, inr,
}
use go_hypercube.Graph.{Graph, Search, bound, trace_back, finish}
use go_hypercube.Graph.Invariant.{Edge, IsTrail, Loop}

module _ {K : Type 0} ⦃e : Eq K⦄ (g : Graph K) where
  -- Each vertex has an edge to the next.
  abbrev pub IsWalk : List K → Type 0
  IsWalk [] = Unit
  IsWalk (x ∷ []) = Unit
  IsWalk (x ∷ y ∷ r) = Edge g x y × IsWalk (y ∷ r)

  -- A walk that ends at the vertex where it starts.
  pub record IsCycle (path : List K) : Type 0 where
    pub start : K
    pub inner : List K
    pub ends : path ≡ start ∷ inner ++ start ∷ []
    pub walk : IsWalk (start ∷ inner ++ start ∷ [])

  module _ (zero_value start : K) (parent : List (K × K)) where
    trace_back-start :
        (fuel : ℕ) (curr : K) (path : List K)
        → (curr == start) ≡ true
        → trace_back zero_value parent start (suc fuel) curr path ≡ some (path ++ start ∷ [])
    unfolding trace_back
    trace_back-start fuel curr path q = ground arith

    trace_back-parent :
        (fuel : ℕ) (curr p : K) (path : List K)
        → (curr == start) ≡ false
        → lookup curr parent ≡ some p
        → trace_back zero_value parent start (suc fuel) curr path
          ≡ trace_back zero_value parent start fuel p (path ++ curr ∷ [])
    unfolding trace_back
    trace_back-parent fuel curr p path q l = ground arith

    -- From a vertex of the trail the walk reaches `start`, and what it gathered closes a cycle.
    pub trace_back_lem :
        (fuel : ℕ) (curr : K) (rest path : List K)
        → length (curr ∷ rest) ≤ fuel
        → IsTrail g parent (curr ∷ rest)
        → contains (curr ∷ rest) start ≡ true
        → IsWalk (curr ∷ reverse path ++ start ∷ [])
        → (found : List K) × (trace_back zero_value parent start fuel curr path ≡ some found)
          × IsCycle (reverse found ++ start ∷ [])
    trace_back_lem zero curr rest path enough t on w = elim enough [ ]
    trace_back_lem (suc fuel) curr rest path enough t on w = elim (Bool-cases (curr == start)) [
      | inl stop ↦ (
        path ++ start ∷ [],
        trace_back-start fuel curr path stop,
        record {
          start = start;
          inner = reverse path;
          ends = ap (λ l. l ++ start ∷ []) (reverse-snoc path start);
          walk =
              subst (λ (x : K). IsWalk (x ∷ reverse path ++ start ∷ []))
                ((==_iff curr start).0 stop) w;
        },
      )
      | inr go ↦ step rest enough t on go (trace_back_lem fuel)
    ]
      where
        step :
            (rest : List K)
            → length (curr ∷ rest) ≤ suc fuel
            → IsTrail g parent (curr ∷ rest)
            → contains (curr ∷ rest) start ≡ true
            → (curr == start) ≡ false
            → ((curr : K) (rest path : List K)
                → length (curr ∷ rest) ≤ fuel
                → IsTrail g parent (curr ∷ rest)
                → contains (curr ∷ rest) start ≡ true
                → IsWalk (curr ∷ reverse path ++ start ∷ [])
                → (found : List K) × (trace_back zero_value parent start fuel curr path
                    ≡ some found)
                  × IsCycle (reverse found ++ start ∷ []))
            → (found : List K) × (trace_back zero_value parent start (suc fuel) curr path
                ≡ some found)
              × IsCycle (reverse found ++ start ∷ [])
        step [] enough t on go again =
            absurd (ground (arith, contains-cons curr [] start, contains-nil start))
        step (p ∷ r) enough t on go again =
            let on' : contains (p ∷ r) start ≡ true =
              ground (arith, contains-cons curr (p ∷ r) start) in
            let walk' : IsWalk (p ∷ reverse (path ++ curr ∷ []) ++ start ∷ []) =
              subst (λ (l : List K). IsWalk (p ∷ l ++ start ∷ [])) (sym (reverse-snoc path curr))
                (t.1, w) in
            let (found, eq, c) = again p r (path ++ curr ∷ []) (omega arith) t.2 on' walk' in
            (found, trace_back-parent fuel curr p path go t.0 ∙ eq, c)

  finish-cycle :
      (zero_value : K) (fuel : ℕ) (s : Search K) (start end : K) (path : List K)
      → s.cycle ≡ some (start, end)
      → trace_back zero_value s.parent start fuel end [] ≡ some path
      → finish zero_value fuel s ≡ some ([], reverse path ++ start ∷ [])
  unfolding finish
  finish-cycle zero_value fuel s start end path f q = ground arith

  pub finish-order :
      (zero_value : K) (fuel : ℕ) (s : Search K)
      → s.cycle ≡ none
      → finish zero_value fuel s ≡ some (reverse s.order, [])
  unfolding finish
  finish-order zero_value fuel s f = ground arith

  -- After a search that met a cycle, `finish` returns that cycle.
  pub finish-Loop :
      (zero_value : K) (s : Search K)
      → Loop g s
      → (path : List K) × (finish zero_value (bound g) s ≡ some ([], path)) × IsCycle path
  finish-Loop zero_value s l =
      let (found, eq, c) =
        trace_back_lem zero_value l.start s.parent (bound g) l.end l.rest []
          (omega (arith, l.short)) l.trail l.on_trail (l.back, tt) in
      (
        reverse found ++ l.start ∷ [],
        finish-cycle zero_value (bound g) s l.start l.end found l.found eq,
        c,
      )
