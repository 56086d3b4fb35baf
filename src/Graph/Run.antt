-- ===== src/Graph/Run.antt =====
-- The depth-first search of internal/structure/graph.go, step by step: with enough fuel every call
-- returns, and leaves the invariant or an open path that closes a cycle.
use go_hypercube.Common.{
  ℕ, zero, suc, ◌<◌, ◌≡◌, refl, ◌⊎◌, inl, inr, true, Option, none, some, List, [], ◌∷◌, ◌++◌, Eq,
  ==_iff, ==_refl, contains, insert, lookup-insert, contains-cons, contains-nil, arith,
}
use go_hypercube.Graph.{
  Graph, Search, unvisited, visiting, visited, edges, color, paint, nodes, visit_children, dfs,
}
use go_hypercube.Graph.Invariant.{
  Color-cases, fresh, fresh-insert-lt, fresh-insert-le, Edge, IsTrail, IsTrail-insert, Inv, Loop,
  Kept, Inv-enter, Inv-leave,
}

module _ {K : Type 0} ⦃e : Eq K⦄ (g : Graph K) where
  -- A call on `v` returns, and either `v` is finished or a cycle was found.
  abbrev Returns : K → List K → Search K → Option (Search K) → Type 0
  Returns v stack s r =
      (s' : Search K) × (r ≡ some s') × (Kept g stack s s' × (color s' v ≡ visited) ⊎ Loop g s')

  abbrev IsSound : ℕ → (K → Search K → Option (Search K)) → Type 0
  IsSound fuel run =
      (v : K) (stack : List K) (s : Search K)
      → Inv g stack s
      → color s v ≡ unvisited
      → contains (nodes g) v ≡ true
      → IsTrail g s.parent (v ∷ stack)
      → fresh s.state (nodes g) < fuel
      → Returns v stack s (run v s)

  abbrev ReturnsAll : List K → List K → Search K → Option (Search K) → Type 0
  ReturnsAll children stack s r =
      (s' : Search K) × (r ≡ some s')
      × (Kept g stack s s' × ((w : K) → contains children w ≡ true → color s' w ≡ visited)
          ⊎ Loop g s')

  pub Kept-refl : (stack : List K) (s : Search K) → Inv g stack s → Kept g stack s s
  Kept-refl stack s h = record { inv = h; grown = λ x b. b; spent = omega arith }

  pub Kept-trans :
      (stack : List K) (s t u : Search K) → Kept g stack s t → Kept g stack t u → Kept g stack s u
  Kept-trans stack s t u a b = record {
    inv = b.inv;
    grown = λ x v. b.grown x (a.grown x v);
    spent = omega (arith, a.spent, b.spent);
  }

  -- The first child is finished and the loop goes on.
  ReturnsAll-cons :
      (child : K) (rest stack : List K) (s t : Search K) (r : Option (Search K))
      → Kept g stack s t
      → color t child ≡ visited
      → ReturnsAll rest stack t r
      → ReturnsAll (child ∷ rest) stack s r
  ReturnsAll-cons child rest stack s t r a done (s', eq, inr loop) = (s', eq, inr loop)
  ReturnsAll-cons child rest stack s t r a done (s', eq, inl (b, all)) = (
    s',
    eq,
    inl (
      Kept-trans stack s t s' a b,
      λ w h. ground (arith, contains-cons child rest w, ==_iff child w, b.grown child done, all w),
    ),
  )

  Loop-at :
      (v child : K) (stack : List K) (s : Search K)
      → Inv g (v ∷ stack) s
      → color s child ≡ visiting
      → Edge g v child
      → Loop g (record s { cycle = some (child, v) })
  Loop-at v child stack s h c to = record {
    start = child;
    end = v;
    rest = stack;
    found = refl;
    trail = h.trail;
    back = to;
    on_trail = (h.gray child).0 c;
    short = omega (arith, h.room);
  }

  Inv-parent :
      (v child : K) (stack : List K) (s : Search K)
      → Inv g (v ∷ stack) s
      → color s child ≡ unvisited
      → Inv g (v ∷ stack) (record s { parent = insert child v s.parent })
  Inv-parent v child stack s h u = record {
    clear = h.clear;
    gray = h.gray;
    black = h.black;
    closed = h.closed;
    trail = IsTrail-insert g s.parent (v ∷ stack) child v (ground (arith, h.gray child)) h.trail;
    known = h.known;
    room = h.room;
  }

  Kept-parent :
      (v child : K) (stack : List K) (s s2 : Search K)
      → Kept g (v ∷ stack) (record s { parent = insert child v s.parent }) s2
      → Kept g (v ∷ stack) s s2
  Kept-parent v child stack s s2 k = record { inv = k.inv; grown = k.grown; spent = k.spent }

  IsTrail-tail :
      (parent : List (K × K)) (v : K) (stack : List K)
      → IsTrail g parent (v ∷ stack)
      → IsTrail g parent stack
  IsTrail-tail parent v [] t = tt
  IsTrail-tail parent v (w ∷ stack) t = t.2

  Kept-leave :
      (v : K) (stack : List K) (s s2 : Search K)
      → Inv g stack s
      → color s v ≡ unvisited
      → contains (nodes g) v ≡ true
      → Kept g (v ∷ stack) (paint v visiting s) s2
      → ((w : K) → Edge g v w → color s2 w ≡ visited)
      → Kept g stack s (record s2 { state = insert v visited s2.state; order = s2.order ++ v ∷ [] })
  Kept-leave v stack s s2 h u k kept all = record {
    inv =
        Inv-leave g v stack s2 kept.inv (ground (arith, h.gray v)) k
          (IsTrail-tail s2.parent v stack kept.inv.trail) all;
    grown = λ x b. ground (
      arith,
      lookup-insert v visited s2.state x,
      lookup-insert v visiting s.state x,
      kept.grown x,
      ==_iff v x,
    );
    spent = omega (
      arith,
      kept.spent,
      fresh-insert-le v visited s2.state (nodes g) (λ q. cc q),
      fresh-insert-le v visiting s.state (nodes g) (λ q. cc q),
    );
  }

  visit_children-nil :
      (run : K → Search K → Option (Search K)) (v : K) (s : Search K)
      → visit_children run v [] s ≡ some s
  unfolding visit_children
  visit_children-nil run v s = refl

  -- How the loop over the children and a call go on, by the test that they meet.
  module _ (run : K → Search K → Option (Search K)) (v child : K) (rest : List K)
      (s : Search K) where
    abbrev with_parent : Search K
    with_parent = record s { parent = insert child v s.parent }

    visit_children-visiting :
        color s child ≡ visiting
        → visit_children run v (child ∷ rest) s ≡ some (record s { cycle = some (child, v) })
    unfolding visit_children
    visit_children-visiting c = ground arith

    visit_children-visited :
        color s child ≡ visited
        → visit_children run v (child ∷ rest) s ≡ visit_children run v rest s
    unfolding visit_children
    visit_children-visited c = ground arith

    visit_children-found :
        (s' : Search K) (k : K × K)
        → color s child ≡ unvisited
        → run child with_parent ≡ some s'
        → s'.cycle ≡ some k
        → visit_children run v (child ∷ rest) s ≡ some s'
    unfolding visit_children
    visit_children-found s' k c q f = ground arith

    visit_children-next :
        (s' : Search K)
        → color s child ≡ unvisited
        → run child with_parent ≡ some s'
        → s'.cycle ≡ none
        → visit_children run v (child ∷ rest) s ≡ visit_children run v rest s'
    unfolding visit_children
    visit_children-next s' c q f = ground arith

  dfs-found :
      (fuel : ℕ) (v : K) (s s' : Search K) (k : K × K)
      → s.cycle ≡ none
      → visit_children (dfs g fuel) v (edges g v) (paint v visiting s) ≡ some s'
      → s'.cycle ≡ some k
      → dfs g (suc fuel) v s ≡ some s'
  unfolding dfs
  dfs-found fuel v s s' k c q f = ground arith

  dfs-leave :
      (fuel : ℕ) (v : K) (s s' : Search K)
      → s.cycle ≡ none
      → visit_children (dfs g fuel) v (edges g v) (paint v visiting s) ≡ some s'
      → s'.cycle ≡ none
      → dfs g (suc fuel) v s
        ≡ some (record s' { state = insert v visited s'.state; order = s'.order ++ v ∷ [] })
  unfolding dfs
  dfs-leave fuel v s s' c q f = ground arith

  module _ (fuel : ℕ) (run : K → Search K → Option (Search K)) (sound : IsSound fuel run)
      (inside : (u w : K) → Edge g u w → contains (nodes g) w ≡ true) where
    -- An unvisited child is called first.
    visit_child :
        (v child : K) (stack : List K) (s : Search K)
        → Inv g (v ∷ stack) s
        → color s child ≡ unvisited
        → Edge g v child
        → fresh s.state (nodes g) < fuel
        → Returns child
            (v ∷ stack)
            (with_parent run v child [] s)
            (run child (with_parent run v child [] s))
    visit_child v child stack s h c to enough =
        let h1 = Inv-parent v child stack s h c in
        sound child (v ∷ stack) (with_parent run v child [] s) h1 c (inside v child to)
          (ground (arith, lookup-insert child v s.parent child, ==_refl child), to, h1.trail) enough

    visit_children_lem :
        (v : K) (stack children : List K) (s : Search K)
        → Inv g (v ∷ stack) s
        → ((w : K) → contains children w ≡ true → Edge g v w)
        → fresh s.state (nodes g) < fuel
        → ReturnsAll children (v ∷ stack) s (visit_children run v children s)
    visit_children_lem v stack [] s h to enough = (
      s,
      visit_children-nil run v s,
      inl (Kept-refl (v ∷ stack) s h, λ w k. ground (arith, contains-nil w)),
    )
    visit_children_lem v stack (child ∷ rest) s h to enough = elim (Color-cases (color s child)) [
      | inr (inl c) ↦ (
        record s { cycle = some (child, v) },
        visit_children-visiting run v child rest s c,
        inr (Loop-at v child stack s h c to_child),
      )
      | inr (inr c) ↦ rw (visit_children-visited run v child rest s c) (
          ReturnsAll-cons child rest (v ∷ stack) s s (visit_children run v rest s)
            (Kept-refl (v ∷ stack) s h) c (visit_children_lem v stack rest s h to_rest enough))
      | inl c ↦
          let (s2, eq, out) = visit_child v child stack s h c to_child enough in
          elim out [
            | inr l ↦ (s2, visit_children-found run v child rest s s2 _ c eq l.found, inr l)
            | inl (kept, done) ↦
                rw (visit_children-next run v child rest s s2 c eq kept.inv.clear) (
                  ReturnsAll-cons child rest (v ∷ stack) s s2 (visit_children run v rest s2)
                    (Kept-parent v child stack s s2 kept) done
                    (visit_children_lem v stack rest s2 kept.inv to_rest
                      (omega (arith, kept.spent))))
          ]
    ]
      where
        to_child : Edge g v child
        to_child = to child (ground (arith, contains-cons child rest child, ==_refl child))

        to_rest : (w : K) → contains rest w ≡ true → Edge g v w
        to_rest w k = to w (ground (arith, contains-cons child rest w))

  module _ (inside : (u w : K) → Edge g u w → contains (nodes g) w ≡ true) where
    pub dfs_lem : (fuel : ℕ) → IsSound fuel (dfs g fuel)
    dfs_lem zero v stack s h u k t enough = elim enough [ ]
    dfs_lem (suc fuel) v stack s h u k t enough =
        let s1 = paint v visiting s in
        let shrunk = fresh-insert-lt v visiting s.state (nodes g) (λ q. cc q) u k in
        let (s2, eq, out) =
          visit_children_lem fuel (dfs g fuel) (dfs_lem fuel) inside v stack (edges g v) s1
            (Inv-enter g v stack s h u k t) (λ w q. q) (omega (arith, shrunk)) in
        elim out [
          | inr l ↦ (s2, dfs-found fuel v s s2 _ h.clear eq l.found, inr l)
          | inl (kept, all) ↦ (
            record s2 { state = insert v visited s2.state; order = s2.order ++ v ∷ [] },
            dfs-leave fuel v s s2 h.clear eq kept.inv.clear,
            inl (
              Kept-leave v stack s s2 h u k kept all,
              ground (arith, lookup-insert v visited s2.state v, ==_refl v),
            ),
          )
        ]
