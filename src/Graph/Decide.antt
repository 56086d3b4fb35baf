-- ===== src/Graph/Decide.antt =====
-- The results of internal/structure/graph.go against walks of the graph: no graph has both a
-- topological order and a cycle, and the reversed order puts the ends of edges first.
use go_hypercube.Common.{
  ℕ, ◌<◌, ◌≡◌, ◌≢◌, ◌↔◌, ◌∙◌, inl, inr, true, false, some, List, [], ◌∷◌, ◌++◌, reverse, Eq, ◌==◌,
  ==_iff, contains, length, IsUnique, IsUnique-reverse, contains-cons, contains-nil,
  contains-reverse, arith, sym, ap, if◌then◌else◌, Bool-cases, subst, append_assoc, reverse-append,
  reverse-reverse,
}
use go_hypercube.Graph.{Graph, nodes, get_topological_or_cycle, get_reverse_topological_or_cycle}
use go_hypercube.Graph.Invariant.{Edge, IsClosed}
use go_hypercube.Graph.Walk.{IsWalk, IsCycle}
use go_hypercube.Graph.Sorted.{IsTopological, get_topological_or_cycle_total}

module _ {K : Type 0} ⦃e : Eq K⦄ where
  -- How many vertices stand behind `v`.
  rank : List K → K → ℕ
  rank [] v = 0
  rank (u ∷ rest) v = if u == v then length rest else rank rest v

  rank-lt-length : (l : List K) (v : K) → contains l v ≡ true → rank l v < length l
  unfolding rank
  rank-lt-length [] v h = absurd (cc (h, contains-nil v))
  rank-lt-length (u ∷ rest) v h = ground (arith, contains-cons u rest v, rank-lt-length rest v)

  -- `u` stands in `l`, and a `v` among those before it.
  pub record Precedes (l : List K) (v u : K) : Type 0 where
    pub before : List K
    pub behind : List K
    pub split : l ≡ before ++ u ∷ behind
    pub earlier : contains before v ≡ true

  module _ (g : Graph K) where
    rank-lt_of_Edge :
        (l : List K) (u v : K)
        → IsClosed g l
        → contains l u ≡ true
        → Edge g u v
        → (contains l v ≡ true) × (rank l v < rank l u)
    unfolding rank
    rank-lt_of_Edge [] u v c h to = absurd (cc (h, contains-nil u))
    rank-lt_of_Edge (w ∷ rest) u v c h to = elim (Bool-cases (w == u)) [
      | inl same ↦
          let to' : Edge g w v = subst (λ (x : K). Edge g x v) (sym ((==_iff w u).0 same)) to in
          ground (arith, contains-cons w rest v, c.1 v to', c.0, ==_iff w v, rank-lt-length rest v)
      | inr apart ↦ ground (
        arith,
        contains-cons w rest u,
        contains-cons w rest v,
        c.0,
        ==_iff w v,
        rank-lt_of_Edge rest u v c.2,
      )
    ]

    -- A walk of at least one edge only goes to vertices further behind.
    rank-lt_of_IsWalk :
        (l : List K) (u : K) (inner : List K) (v : K)
        → IsClosed g l
        → contains l u ≡ true
        → IsWalk g (u ∷ inner ++ v ∷ [])
        → rank l v < rank l u
    rank-lt_of_IsWalk l u [] v c h w = (rank-lt_of_Edge l u v c h w.0).1
    rank-lt_of_IsWalk l u (x ∷ inner) v c h w =
        let (there, less) = rank-lt_of_Edge l u x c h w.0 in
        omega (arith, rank-lt_of_IsWalk l x inner v c there w.1)

    no_IsCycle : (l path : List K) (c : IsCycle g path) → IsClosed g l → contains l c.start ≡ false
    no_IsCycle l path c sorted = elim (Bool-cases (contains l c.start)) [
      | inr out ↦ out
      | inl on ↦
          absurd (omega (arith, rank-lt_of_IsWalk l c.start c.inner c.start sorted on c.walk))
    ]

    IsClosed-split :
        (l : List K) (u v : K)
        → IsClosed g l
        → contains l u ≡ true
        → Edge g u v
        → (front : List K) × (back : List K) × (l ≡ front ++ u ∷ back) × (contains back v ≡ true)
    IsClosed-split [] u v c h to = absurd (cc (h, contains-nil u))
    IsClosed-split (w ∷ rest) u v c h to = elim (Bool-cases (w == u)) [
      | inl same ↦
          let same' = (==_iff w u).0 same in
          ([], rest, ap (λ x. x ∷ rest) same', c.1 v (subst (λ (x : K). Edge g x v) (sym same') to))
      | inr apart ↦
          let (front, back, eq, on) =
            IsClosed-split rest u v c.2 (ground (arith, contains-cons w rest u)) to in
          (w ∷ front, back, ap (λ l. w ∷ l) eq, on)
    ]

    Precedes-reverse :
        (l : List K) (u v : K)
        → IsClosed g l
        → contains l u ≡ true
        → Edge g u v
        → Precedes (reverse l) v u
    Precedes-reverse l u v c h to =
        let (front, back, eq, on) = IsClosed-split l u v c h to in
        record {
          before = reverse back;
          behind = reverse front;
          split =
              ap reverse eq
              ∙ reverse-append front (u ∷ back)
              ∙ ap (λ m. m ++ reverse front) (reverse-append (u ∷ []) back)
              ∙ append_assoc (reverse back) (u ∷ []) (reverse front);
          earlier = contains-reverse back v ∙ on;
        }

    IsWalk-last :
        (u : K) (inner : List K) (v : K) → IsWalk g (u ∷ inner ++ v ∷ []) → (w : K) × Edge g w v
    IsWalk-last u [] v w = (u, w.0)
    IsWalk-last u (x ∷ inner) v w = IsWalk-last x inner v w.1

    IsCycle-ne-nil : (path : List K) → IsCycle g path → path ≢ []
    IsCycle-ne-nil path c q = cc (c.ends, q)

    order_of :
        (zero_value : K) (order : List K)
        → get_topological_or_cycle zero_value g ≡ some (order, [])
        → IsTopological g order
    order_of zero_value order q = elim (get_topological_or_cycle_total g zero_value) [
      | inl (order', eq, sorted) ↦ subst (IsTopological g) (cc (q, eq)) sorted
      | inr (path, eq, c) ↦ absurd (IsCycle-ne-nil path c (cc (q, eq)))
    ]

    -- Where every edge ends at an added vertex, GetTopologicalOrCycle returns an order exactly when
    -- the graph has no cycle.
    pub get_topological_or_cycle_iff :
        (zero_value : K)
        → ((u v : K) → Edge g u v → contains g.order v ≡ true)
        → ((order : List K) × (get_topological_or_cycle zero_value g ≡ some (order, [])))
          ↔ ((path : List K) → ¬ IsCycle g path)
    get_topological_or_cycle_iff zero_value added = (
      λ (order, eq) path c.
          let sorted = order_of zero_value order eq in
          let (w, to) = IsWalk-last c.start c.inner c.start c.walk in
          cc (no_IsCycle order path c sorted.sorted, sorted.complete c.start (added w c.start to)),
      λ none_is. elim (get_topological_or_cycle_total g zero_value) [
        | inl (order, eq, sorted) ↦ (order, eq)
        | inr (path, eq, c) ↦ absurd (none_is path c)
      ],
    )

    get_reverse_sorted :
        (zero_value : K) (order : List K)
        → get_topological_or_cycle zero_value g ≡ some (order, [])
        → get_reverse_topological_or_cycle zero_value g ≡ some (reverse order, [])
    unfolding get_reverse_topological_or_cycle
    get_reverse_sorted zero_value order q = ground arith

    get_reverse_found :
        (zero_value : K) (path : List K)
        → path ≢ []
        → get_topological_or_cycle zero_value g ≡ some ([], path)
        → get_reverse_topological_or_cycle zero_value g ≡ some ([], path)
    unfolding get_reverse_topological_or_cycle
    get_reverse_found zero_value path n q = ground arith

    get_reverse-order :
        (zero_value : K) (order : List K)
        → get_reverse_topological_or_cycle zero_value g ≡ some (order, [])
        → IsTopological g (reverse order)
    get_reverse-order zero_value order q = elim (get_topological_or_cycle_total g zero_value) [
      | inl (order', eq, sorted) ↦
          let back : reverse order' ≡ order = cc (get_reverse_sorted zero_value order' eq, q) in
          subst (IsTopological g) (sym (reverse-reverse order') ∙ ap reverse back) sorted
      | inr (path, eq, c) ↦
          let full = IsCycle-ne-nil path c in
          absurd (full (cc (get_reverse_found zero_value path full eq, q)))
    ]

    -- In the order that GetReverseTopologicalOrCycle returns every vertex stands behind all that
    -- its edges point to; every added vertex stands there, and nothing but added vertices and ends of
    -- edges.
    pub get_reverse_topological_or_cycle-Precedes :
        (zero_value : K) (order : List K)
        → get_reverse_topological_or_cycle zero_value g ≡ some (order, [])
        → ((u v : K) → contains order u ≡ true → Edge g u v → Precedes order v u)
          × ((u : K) → contains g.order u ≡ true → contains order u ≡ true)
          × ((u : K) → contains order u ≡ true → contains (nodes g) u ≡ true)
    get_reverse_topological_or_cycle-Precedes zero_value order q =
        let sorted = get_reverse-order zero_value order q in
        (
          λ u v on to.
              subst (λ l. Precedes l v u) (reverse-reverse order)
                (Precedes-reverse (reverse order) u v sorted.sorted (contains-reverse order u ∙ on)
                  to),
          λ u k. sym (contains-reverse order u) ∙ sorted.complete u k,
          λ u k. sorted.sound u (contains-reverse order u ∙ k),
        )

    IsClosed-IsUnique : (l : List K) → IsClosed g l → IsUnique l
    IsClosed-IsUnique [] c = tt
    IsClosed-IsUnique (u ∷ rest) c = (c.0, IsClosed-IsUnique rest c.2)

    -- No vertex stands twice in the order that GetReverseTopologicalOrCycle returns.
    pub get_reverse_topological_or_cycle-IsUnique :
        (zero_value : K) (order : List K)
        → get_reverse_topological_or_cycle zero_value g ≡ some (order, [])
        → IsUnique order
    get_reverse_topological_or_cycle-IsUnique zero_value order q =
        let sorted = get_reverse-order zero_value order q in
        subst IsUnique (reverse-reverse order)
          (IsUnique-reverse (reverse order) (IsClosed-IsUnique (reverse order) sorted.sorted))
