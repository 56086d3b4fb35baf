-- ===== src/Seeders/Status.antt =====
-- SeederState of app/seeder.go: what it reports, against the rows of the tracking table.
use go_hypercube.Common.{
  ℕ, ◌≡◌, ◌⊎◌, Bool, Option, none, some, List, [], ◌∷◌, if◌then◌else◌, Text, text_eq, map, length,
}
use go_hypercube.Namespaced.{Namespaced, get_namespace, namespaces}
use go_hypercube.Database.{Row, World, Result, ok, err, is_row, has_row}
use go_hypercube.Runner.{ordered_namespaces}
use go_hypercube.Seeders.{Seeder, name, SeederStatus, NamespaceSeederState}
use go_hypercube.Seeders.Run.{Keeps}

abbrev or_earlier : Option ℕ → Option ℕ → Option ℕ
or_earlier (some t) earlier = some t
or_earlier none earlier = earlier

-- When the table says that a seeder ran: none where it holds no record of it.
pub stamp_of : Text → Text → List Row → Option ℕ
stamp_of namespace n [] = none
stamp_of namespace n (r ∷ rows) =
    or_earlier (stamp_of namespace n rows) (if is_row namespace n r then some r.stamp else none)

module _ {S : Type 0} where
  -- The seeders that the table holds no record of.
  pub unrun : Text → List Row → List (Seeder S) → List (Seeder S)
  unrun namespace rows [] = []
  unrun namespace rows (s ∷ ss) =
      if has_row namespace (name s) rows
      then unrun namespace rows ss
      else s ∷ unrun namespace rows ss

  abbrev pub status_of : Text → List Row → Seeder S → SeederStatus
  status_of namespace rows s = record {
    namespace = namespace;
    status_name = name s;
    ran_at = stamp_of namespace (name s) rows;
  }

  module _ (plugins : List Text) (seeders : List (Namespaced (Seeder S))) (did_setup : Bool) where
    -- The state of a namespace as the table tells it.
    abbrev pub told : List Row → Text → NamespaceSeederState
    told rows namespace =
        let ordered = get_namespace name namespace seeders in
        record {
          namespace = namespace;
          pending = length (unrun namespace rows ordered);
          statuses = map (status_of namespace rows) ordered;
        }

    -- What SeederState leaves: the state of each namespace in order, as the table tells it; or with an
    -- error the table and the schema, the table at most created.
    abbrev pub Reports : List Row → World S → Result (List NamespaceSeederState) × World S → Type 0
    Reports rows w (ok states, w') =
        (states ≡ map (told rows) (ordered_namespaces plugins (namespaces seeders)))
        × Keeps (some rows) w.schema w w'
    Reports rows w (err e, w') = Keeps w.seeders w.schema w w' ⊎ Keeps (some rows) w.schema w w'
