-- ===== src/Migrations/Rollback.antt =====
-- RollbackSteps of app/migration.go: which migrations it really reverts.
use go_hypercube.Common.{
  ℕ, suc, ◌-◌, ◌≡◌, refl, ◌≢◌, Option, some, List, [], ◌∷◌, Text, text_eq, ==_iff, arith, length,
}
use go_hypercube.Database.{
  Row, World, migrations_table, ensure_table_call, applied_migrations, recorded_rows, ensure_lem,
  applied_migrations_lem,
}
use go_hypercube.Migrations.{
  App, ordered, index_of_migration, drop, revert_list, down_to, run_migrations_down_to,
  rollback_target, rollback_to, rollback_steps,
}

-- With `suc n` rows and n steps to take back, the target is the newest row.
rollback_target-newest :
    {S : Type 0} (exec : Text → S → Option S) (app : App) (r : Row) (rows : List Row)
    → rollback_target exec app (r ∷ rows) (length rows) ≡ r.name
unfolding rollback_target
rollback_target-newest exec app r rows =
    let first : suc (length rows) - length rows - 1 ≡ 0 = omega arith in ground (arith, first)

module _ {S : Type 0} (exec : Text → S → Option S) (app : App) (namespace target : Text) where
  down_to-last :
      (at_index : Option ℕ) (i : ℕ) (w : World S)
      → at_index ≡ some i
      → drop (suc i) (ordered exec app namespace) ≡ []
      → (down_to exec app namespace target at_index w).1 ≡ w
  unfolding revert_list
  down_to-last at_index i w at_i last = rw at_i (rw last refl)

  -- Nothing registered stands behind the target: the command has nothing to revert.
  run_migrations_down_to-last :
      (i : ℕ) (w : World S)
      → target ≢ []
      → index_of_migration (ordered exec app namespace) target ≡ some i
      → drop (suc i) (ordered exec app namespace) ≡ []
      → (run_migrations_down_to exec app namespace target w).1
        ≡ (ensure_table_call migrations_table w).1
  unfolding run_migrations_down_to
  run_migrations_down_to-last i w n at_i last =
      let w1 = (ensure_table_call migrations_table w).1 in
      ground (
        arith,
        ==_iff target [],
        down_to-last (index_of_migration (ordered exec app namespace) target) i w1 at_i last,
      )

module _ {S : Type 0} (exec : Text → S → Option S) (app : App) (namespace : Text) where
  -- What the operation leaves in the table and the schema, whether it succeeds or fails.
  abbrev pub Unchanged : List Row → World S → World S → Type 0
  Unchanged rows w w' = (w'.migrations ≡ some rows) × (w'.schema ≡ w.schema)

  ensure-Unchanged :
      (rows : List Row) (w w1 : World S)
      → Unchanged rows w w1
      → Unchanged rows w (ensure_table_call migrations_table w1).1
  ensure-Unchanged rows w w1 h = ground (arith, ensure_lem w1)

  applied-Unchanged :
      (rows : List Row) (w w1 : World S)
      → Unchanged rows w w1
      → Unchanged rows w (applied_migrations namespace w1).1
  applied-Unchanged rows w w1 h = ground (arith, applied_migrations_lem namespace rows w1)

  rollback_to-newest :
      (rows found : List Row) (r r' : Row) (w w2 : World S) (i : ℕ)
      → found ≡ r ∷ r' ∷ rows
      → r.name ≢ []
      → index_of_migration (ordered exec app namespace) r.name ≡ some i
      → drop (suc i) (ordered exec app namespace) ≡ []
      → (rollback_to exec app namespace (suc (length rows)) found w2).1
        ≡ (ensure_table_call migrations_table w2).1
  rollback_to-newest rows found r r' w w2 i is n at_i last = rw is (
      rw (rollback_target-newest exec app r (r' ∷ rows))
        (run_migrations_down_to-last exec app namespace r.name i w2 n at_i last))

  -- Where the newest applied migration is the last one registered, taking back all applied
  -- migrations of a namespace but one leaves every one of them applied: the table and the schema
  -- stay as they were, whichever database calls fail.
  pub rollback_steps-Unchanged :
      (rows older : List Row) (r r' : Row) (i : ℕ) (w : World S)
      → w.migrations ≡ some rows
      → recorded_rows namespace rows ≡ r ∷ r' ∷ older
      → r.name ≢ []
      → index_of_migration (ordered exec app namespace) r.name ≡ some i
      → drop (suc i) (ordered exec app namespace) ≡ []
      → Unchanged rows w (rollback_steps exec app namespace (suc (length older)) w).1
  unfolding rollback_steps
  rollback_steps-Unchanged rows older r r' i w there newest n at_i last =
      let w1 = (ensure_table_call migrations_table w).1 in
      let w2 = (applied_migrations namespace w1).1 in
      let u0 : Unchanged rows w w = (there, refl) in
      let u1 = ensure-Unchanged rows w w u0 in
      let u2 = applied-Unchanged rows w w1 u1 in
      ground (
        arith,
        u1,
        u2,
        ensure-Unchanged rows w w2 u2,
        applied_migrations_lem namespace rows w1,
        rollback_to-newest older (recorded_rows namespace rows) r r' w w2 i newest n at_i last,
      )
