-- ===== src/Runner/Order.antt =====
-- The namespaces that the commands of app/migration.go and app/seeder.go visit, and their order.
use go_hypercube.Common.{
  ◌≡◌, refl, not, List, [], ◌∷◌, ◌++◌, ◌&&◌, ◌||◌, Text, text_eq, contains, contains-append,
  contains-cons, contains-nil, IsUnique, IsUnique-append, arith, ==_iff, Bool-cases, inl, inr,
}
use go_hypercube.Database.{World, M, ◌>>◌, Result-cases}
use go_hypercube.Runner.{each_namespace, others, registered_plugins, ordered_namespaces}

module _ {S : Type 0} where
  -- Two loops in a row are one loop over both lists.
  pub each_namespace-append :
      (act : Text → M S (Unit {0})) (xs ys : List Text) (w : World S)
      → (each_namespace act xs >> each_namespace act ys) w ≡ each_namespace act (xs ++ ys) w
  unfolding each_namespace
  each_namespace-append act [] ys w = refl
  each_namespace-append act (x ∷ xs) ys w = elim (Result-cases (act x w).0) [
    | inl (u, went) ↦ ground (arith, each_namespace-append act xs ys (act x w).1)
    | inr (e, failed) ↦ ground arith
  ]

pub contains-others :
    (first ns : List Text) (k : Text)
    → contains (others first ns) k ≡ (not (contains first k) && contains ns k)
unfolding others
contains-others first [] k = ground (arith, contains-nil k)
contains-others first (n ∷ ns) k = ground (
  arith,
  contains-others first ns k,
  contains-cons n ns k,
  contains-cons n (others first ns) k,
  ==_iff n k,
)

IsUnique-others : (first ns : List Text) → IsUnique ns → IsUnique (others first ns)
unfolding others
IsUnique-others first [] u = tt
IsUnique-others first (n ∷ ns) u = elim (Bool-cases (contains first n)) [
  | inl old ↦ rw old (IsUnique-others first ns u.1)
  | inr new ↦ rw new (ground (arith, contains-others first ns n, u.0), IsUnique-others first ns u.1)
]

contains-registered_plugins :
    (registered plugins : List Text) (k : Text)
    → contains (registered_plugins registered plugins) k
      ≡ (contains registered k && contains plugins k)
unfolding registered_plugins
contains-registered_plugins registered [] k = ground (arith, contains-nil k)
contains-registered_plugins registered (p ∷ ps) k = ground (
  arith,
  contains-registered_plugins registered ps k,
  contains-cons p ps k,
  contains-cons p (registered_plugins registered ps) k,
  ==_iff p k,
)

IsUnique-registered_plugins :
    (registered plugins : List Text)
    → IsUnique plugins
    → IsUnique (registered_plugins registered plugins)
unfolding registered_plugins
IsUnique-registered_plugins registered [] u = tt
IsUnique-registered_plugins registered (p ∷ ps) u = elim (Bool-cases (contains registered p)) [
  | inl on ↦ rw on (
    ground (arith, contains-registered_plugins registered ps p, u.0),
    IsUnique-registered_plugins registered ps u.1,
  )
  | inr off ↦ rw off (IsUnique-registered_plugins registered ps u.1)
]

-- The plugins and the other namespaces hold no namespace twice, and every namespace that is
-- registered or a plugin's.
pub visited_lem :
    (plugins registered : List Text)
    → IsUnique plugins
    → IsUnique registered
    → IsUnique (plugins ++ others plugins registered)
      × ((k : Text)
          → contains (plugins ++ others plugins registered) k
            ≡ (contains plugins k || contains registered k))
visited_lem plugins registered u v = (
  (IsUnique-append plugins (others plugins registered)).1 (
    u,
    IsUnique-others plugins registered v,
    λ k on. ground (arith, contains-others plugins registered k),
  ),
  λ k. ground (
    arith,
    contains-append plugins (others plugins registered) k,
    contains-others plugins registered k,
  ),
)

-- The namespaces that SeederState reports on hold none twice, and are exactly the registered ones.
pub ordered_namespaces_lem :
    (plugins registered : List Text)
    → IsUnique plugins
    → IsUnique registered
    → IsUnique (ordered_namespaces plugins registered)
      × ((k : Text) → contains (ordered_namespaces plugins registered) k ≡ contains registered k)
unfolding ordered_namespaces
ordered_namespaces_lem plugins registered u v =
    let first = registered_plugins registered plugins in
    let rest = others first registered in
    (
      (IsUnique-append first rest).1 (
        IsUnique-registered_plugins registered plugins u,
        IsUnique-others first registered v,
        λ k on. ground (arith, contains-others first registered k),
      ),
      λ k. ground (
        arith,
        contains-append first rest k,
        contains-others first registered k,
        contains-registered_plugins registered plugins k,
      ),
    )
