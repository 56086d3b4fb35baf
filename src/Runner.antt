-- ===== src/Runner.antt =====
-- How app/migration.go and app/seeder.go walk the namespaces: those of the plugins, and the others.
pub mod Order
pub mod Visits
use go_hypercube.Common.{List, [], ◌∷◌, ◌++◌, Text, text_eq, contains, if◌then◌else◌}
use go_hypercube.Database.{M, ◌>>◌, pure}

module _ {S : Type 0} where
  -- A loop over namespaces that returns at the first error.
  unfoldable pub each_namespace : (Text → M S (Unit {0})) → List Text → M S (Unit {0})
  each_namespace act [] = pure tt
  each_namespace act (n ∷ ns) = act n >> each_namespace act ns

-- The namespaces that are not in the map of the first ones, in the order of Namespaces.
unfoldable pub others : List Text → List Text → List Text
others first [] = []
others first (n ∷ ns) = if contains first n then others first ns else n ∷ others first ns

-- The plugins whose namespace is registered.
unfoldable pub registered_plugins : List Text → List Text → List Text
registered_plugins registered [] = []
registered_plugins registered (p ∷ plugins) =
    let rest = registered_plugins registered plugins in
    if contains registered p then p ∷ rest else rest

-- orderedMigrationNamespaces, orderedSeederNamespaces: of the plugins and of the registered
-- namespaces, which Namespaces has sorted.
unfoldable pub ordered_namespaces : List Text → List Text → List Text
unfolding registered_plugins others
ordered_namespaces plugins registered =
    let first = registered_plugins registered plugins in first ++ others first registered
