-- ===== src/Graph/Invariant.antt =====
-- What holds of the search of internal/structure/graph.go between two of its steps.
use go_hypercube.Common.{
  ℕ, suc, ◌+◌, ◌≤◌, ◌<◌, ◌≡◌, refl, ◌≢◌, ◌↔◌, ◌⊎◌, inl, inr, true, false, none, some, List, [], ◌∷◌,
  ◌++◌, reverse, Eq, ==_iff, ==_refl, contains, lookup, insert, lookup-insert, length,
  contains-cons, contains-snoc, contains-reverse, reverse-snoc, arith, subst, sym,
}
use go_hypercube.Graph.{
  Graph, Search, Color, unvisited, visiting, visited, or_unvisited, edges, color, paint, nodes,
}

pub Color-cases : (c : Color) → (c ≡ unvisited) ⊎ (c ≡ visiting) ⊎ (c ≡ visited)
Color-cases unvisited = inl refl
Color-cases visiting = inr (inl refl)
Color-cases visited = inr (inr refl)

module _ {K : Type 0} ⦃e : Eq K⦄ where
  -- How many of the given vertices the search has not entered.
  pub fresh : List (K × Color) → List K → ℕ
  fresh m [] = 0
  fresh m (x ∷ xs) = elim (or_unvisited (lookup x m)) [
    | unvisited ↦ suc (fresh m xs)
    | _ ↦ fresh m xs
  ]

  pub fresh-insert-le :
      (v : K) (c : Color) (m : List (K × Color)) (xs : List K)
      → c ≢ unvisited
      → fresh (insert v c m) xs ≤ fresh m xs
  unfolding fresh
  fresh-insert-le v c m [] h = omega arith
  fresh-insert-le v c m (x ∷ xs) h =
      ground (arith, lookup-insert v c m x, ==_iff v x, fresh-insert-le v c m xs h)

  pub fresh-insert-lt :
      (v : K) (c : Color) (m : List (K × Color)) (xs : List K)
      → c ≢ unvisited
      → or_unvisited (lookup v m) ≡ unvisited
      → contains xs v ≡ true
      → fresh (insert v c m) xs < fresh m xs
  unfolding fresh contains
  fresh-insert-lt v c m [] h u k = ground arith
  fresh-insert-lt v c m (x ∷ xs) h u k = ground (
    arith,
    lookup-insert v c m x,
    ==_iff v x,
    ==_iff x v,
    fresh-insert-lt v c m xs h u,
    fresh-insert-le v c m xs h,
  )

  pub fresh-le-length : (m : List (K × Color)) (xs : List K) → fresh m xs ≤ length xs
  unfolding fresh
  fresh-le-length m [] = omega arith
  fresh-le-length m (x ∷ xs) = ground (arith, fresh-le-length m xs)

  module _ (g : Graph K) where
    -- The edge u → v was added.
    abbrev pub Edge : K → K → Type 0
    Edge u v = contains (edges g u) v ≡ true

    -- Each vertex stands once, and all that its edges point to stand behind it.
    abbrev pub IsClosed : List K → Type 0
    IsClosed [] = Unit
    IsClosed (u ∷ rest) =
        (contains rest u ≡ false) × ((v : K) → Edge u v → contains rest v ≡ true) × IsClosed rest

    -- A path of the graph, its last vertex first, that `parent` records.
    abbrev pub IsTrail : List (K × K) → List K → Type 0
    IsTrail parent [] = Unit
    IsTrail parent (c ∷ []) = Unit
    IsTrail parent (c ∷ p ∷ r) = (lookup c parent ≡ some p) × Edge p c × IsTrail parent (p ∷ r)

    pub IsTrail-insert :
        (parent : List (K × K)) (stack : List K) (child v : K)
        → contains stack child ≡ false
        → IsTrail parent stack
        → IsTrail (insert child v parent) stack
    IsTrail-insert parent [] child v h t = tt
    IsTrail-insert parent (c ∷ []) child v h t = tt
    IsTrail-insert parent (c ∷ p ∷ r) child v h t =
        let apart = contains-cons c (p ∷ r) child in
        let rest : contains (p ∷ r) child ≡ false = ground arith in
        (
          ground (arith, lookup-insert child v parent c, ==_iff child c, ==_iff c child),
          t.1,
          IsTrail-insert parent (p ∷ r) child v rest t.2,
        )

    -- `stack` holds the vertices whose call is open, the innermost first.
    pub record Inv (stack : List K) (s : Search K) : Type 0 where
      pub clear : s.cycle ≡ none
      pub gray : (x : K) → (color s x ≡ visiting) ↔ (contains stack x ≡ true)
      pub black : (x : K) → (color s x ≡ visited) ↔ (contains s.order x ≡ true)
      pub closed : IsClosed (reverse s.order)
      pub trail : IsTrail s.parent stack
      pub known : (x : K) → contains s.order x ≡ true → contains (nodes g) x ≡ true
      pub room : length stack + fresh s.state (nodes g) ≤ length (nodes g)

    -- The search stopped at an edge from `end` back to a vertex of its open path.
    pub record Loop (s : Search K) : Type 0 where
      pub start : K
      pub end : K
      pub rest : List K
      pub found : s.cycle ≡ some (start, end)
      pub trail : IsTrail s.parent (end ∷ rest)
      pub back : Edge end start
      pub on_trail : contains (end ∷ rest) start ≡ true
      pub short : length (end ∷ rest) ≤ length (nodes g)

    -- What a call leaves that found no cycle.
    pub record Kept (stack : List K) (s s' : Search K) : Type 0 where
      pub inv : Inv stack s'
      pub grown : (x : K) → color s x ≡ visited → color s' x ≡ visited
      pub spent : fresh s'.state (nodes g) ≤ fresh s.state (nodes g)

    pub Inv-enter :
        (v : K) (stack : List K) (s : Search K)
        → Inv stack s
        → color s v ≡ unvisited
        → contains (nodes g) v ≡ true
        → IsTrail s.parent (v ∷ stack)
        → Inv (v ∷ stack) (paint v visiting s)
    Inv-enter v stack s h u k t = record {
      clear = h.clear;
      gray = λ x.
          ground (arith, lookup-insert v visiting s.state x, h.gray x, contains-cons v stack x);
      black = λ x. ground (arith, lookup-insert v visiting s.state x, h.black x, ==_iff v x);
      closed = h.closed;
      trail = t;
      known = h.known;
      room = omega (arith, h.room, fresh-insert-lt v visiting s.state (nodes g) (λ q. cc q) u k);
    }

    pub Inv-leave :
        (v : K) (stack : List K) (s : Search K)
        → Inv (v ∷ stack) s
        → contains stack v ≡ false
        → contains (nodes g) v ≡ true
        → IsTrail s.parent stack
        → ((w : K) → Edge v w → color s w ≡ visited)
        → Inv stack (record s { state = insert v visited s.state; order = s.order ++ v ∷ [] })
    Inv-leave v stack s h out k t done =
        let open_v : color s v ≡ visiting =
          (h.gray v).1 (ground (arith, contains-cons v stack v, ==_refl v)) in
        record {
          clear = h.clear;
          gray = λ x. ground (
            arith,
            lookup-insert v visited s.state x,
            h.gray x,
            contains-cons v stack x,
            ==_iff v x,
          );
          black = λ x. ground (
            arith,
            lookup-insert v visited s.state x,
            h.black x,
            contains-snoc s.order v x,
            ==_iff v x,
          );
          closed = subst IsClosed (sym (reverse-snoc s.order v)) (
            ground (arith, contains-reverse s.order v, h.black v),
            λ w to. ground (arith, contains-reverse s.order w, h.black w, done w to),
            h.closed,
          );
          trail = t;
          known = λ x. ground (arith, contains-snoc s.order v x, ==_iff v x, h.known x);
          room = omega (arith, h.room, fresh-insert-le v visited s.state (nodes g) (λ q. cc q));
        }
