-- ===== src/Seeders/Run.antt =====
-- RunSeeder of app/seeder.go: when the seeder runs, and what is recorded, whichever database calls
-- fail.
use go_hypercube.Common.{
  ◌≡◌, ◌≢◌, ◌⊎◌, Bool, true, false, Option, none, some, List, [], ◌∷◌, ◌++◌, Text, text_eq, arith,
}
use go_hypercube.Namespaced.{Namespaced}
use go_hypercube.Database.{
  Row, World, Result, ok, err, not_found, run_failed, record_failed, call_from, call, seeders_table,
  has_row, delete_row, or_fresh, ensure_table_call, row_for,
}
use go_hypercube.Seeders.{Seeder, name}

-- The rows to which the record of a run is added.
abbrev pub cleared : Bool → Text → Text → List Row → List Row
cleared true namespace n rows = delete_row namespace n rows
cleared false namespace n rows = rows

module _ {S : Type 0} where
  -- The seeders table and the schema of the later world; its other parts are the earlier one's.
  pub record Keeps (rows : Option (List Row)) (schema : S) (w w' : World S) : Type 0 where
    pub rows_are : w'.seeders ≡ rows
    pub schema_is : w'.schema ≡ schema
    pub migrations_are : w'.migrations ≡ w.migrations
    pub clock_is : w'.clock ≡ w.clock

  call_from-Keeps :
      (faults : List Bool) (w : World S) → Keeps w.seeders w.schema w (call_from faults w).1
  unfolding call_from
  call_from-Keeps [] w = ground arith
  call_from-Keeps (true ∷ faults) w = ground arith
  call_from-Keeps (false ∷ faults) w = ground arith

  pub call-Keeps : (w : World S) → Keeps w.seeders w.schema w (call w).1
  unfolding call
  call-Keeps w = call_from-Keeps w.faults w

  -- What a call leaves: the given table where it succeeds, and nothing new where it fails.
  abbrev pub Turns : {A : Type 0} → List Row → World S → Result A × World S → Type 0
  Turns rows w (ok a, w') = Keeps (some rows) w.schema w w'
  Turns rows w (err e, w') = Keeps w.seeders w.schema w w'

  pub ensure_seeders_lem :
      (w : World S) → Turns (or_fresh w.seeders) w (ensure_table_call seeders_table w)
  unfolding ensure_table_call
  ensure_seeders_lem w = ground (arith, call-Keeps w)

  abbrev pub Tells : {A : Type 0} → A → World S → Result A × World S → Type 0
  Tells a w (ok b, w') = (b ≡ a) × Keeps w.seeders w.schema w w'
  Tells a w (err e, w') = Keeps w.seeders w.schema w w'

  -- How the record of a run ends: the new row stands behind the cleared ones, or an error left it
  -- out.
  abbrev Records : Bool → Text → Text → List Row → World S → Result (Unit {0}) × World S → Type 0
  Records force namespace n rows w (ok _, w') =
      Keeps (some (cleared force namespace n rows ++ row_for namespace w.clock n ∷ [])) w.schema w
        w'
  Records force namespace n rows w (err e, w') =
      Keeps (some rows) w.schema w w'
      ⊎ (e ≡ record_failed n) × Keeps (some (cleared force namespace n rows)) w.schema w w'

  abbrev HasRun : Bool → Text → Seeder S → List Row → World S → World S → Type 0
  HasRun force namespace s rows w w' =
      ((force ≡ true) ⊎ (has_row namespace (name s) rows ≡ false))
      × ((s.run w.schema).0 ≡ none)
      × Keeps
          (some (cleared force namespace (name s) rows ++ row_for namespace w.clock (name s) ∷ []))
          (s.run w.schema).1 w w'

  -- What became of a seeder that was found. Without an error: it was recorded and not forced, and
  -- nothing changed, or it ran without error and its one record is new. With an error: nothing
  -- changed; or its run failed and no record was written; or it ran, and recording that failed.
  abbrev pub Outcome :
      Bool → Text → Seeder S → List Row → World S → Result (Unit {0}) × World S → Type 0
  Outcome force namespace s rows w (ok _, w') =
      (force ≡ false) × (has_row namespace (name s) rows ≡ true) × Keeps (some rows) w.schema w w'
      ⊎ HasRun force namespace s rows w w'
  Outcome force namespace s rows w (err e, w') =
      (force ≡ false) × Keeps (some rows) w.schema w w'
      ⊎ ((s.run w.schema).0 ≢ none)
        × (e ≡ run_failed (name s))
        × Keeps (some rows) (s.run w.schema).1 w w'
      ⊎ ((s.run w.schema).0 ≡ none)
        × (Keeps (some rows) (s.run w.schema).1 w w'
            ⊎ (e ≡ record_failed (name s))
              × Keeps (some (cleared force namespace (name s) rows)) (s.run w.schema).1 w w')

  module _ (plugins : List Text) (seeders : List (Namespaced (Seeder S))) (did_setup : Bool)
      (force : Bool) (namespace n : Text) where
    abbrev pub RunsSeeder : Option (Seeder S) → World S → Result (Unit {0}) × World S → Type 0
    RunsSeeder none w (r, w') =
        (r ≡ err (not_found n)) × Keeps (some (or_fresh w.seeders)) w.schema w w'
    RunsSeeder (some s) w out = Outcome force namespace s (or_fresh w.seeders) w out
