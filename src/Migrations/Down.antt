-- ===== src/Migrations/Down.antt =====
-- RunMigrationsDownTo of app/migration.go: which migrations are reverted, in which order, and what
-- stays recorded, whichever database calls fail.
pub mod Loop
use go_hypercube.Common.{
  ℕ, suc, ◌≡◌, refl, ◌⊎◌, inl, inr, Bool, true, false, Option, none, some, [], ◌==◌, if◌then◌else◌,
  reverse, Text, text_eq, arith,
}
use go_hypercube.Database.{
  World, Error, not_found, ensure_table, Result, ok, err, and_then, Result-cases, relabel,
  migrations_table, or_fresh, ensure_table_call, Leaves, Same, ensure_lem,
}
use go_hypercube.Migrations.{
  name, App, ordered, index_of_migration, drop, down_from, down_to, run_migrations_down_to,
}
use go_hypercube.Migrations.Down.Loop.{Descent, reverted}

module _ {S : Type 0} (exec : Text → S → Option S) (namespace : Text) where
  module _ (app : App) (target : Text) where
    -- What RunMigrationsDownTo leaves, by whether its target is empty and by where it stands in the
    -- sorted list: the run goes from the newest migration down to the one behind the target.
    abbrev pub GoesDownTo : Bool → Option ℕ → World S → Result (Unit {0}) × World S → Type 0
    GoesDownTo true at_index w (r, w') =
        Descent exec namespace (reverse (ordered exec app namespace)) (or_fresh w.migrations)
          w.schema r w'
    GoesDownTo false none w (r, w') =
        (r ≡ err (not_found target)) × Leaves (some (or_fresh w.migrations)) w.schema w w'
    GoesDownTo false (some i) w (r, w') =
        Descent exec namespace (reverse (drop (suc i) (ordered exec app namespace)))
          (or_fresh w.migrations) w.schema r w'

    chosen : Bool → Option ℕ → World S → Result (Unit {0}) × World S
    chosen to_start at_index =
        if to_start
        then down_from exec app namespace 0
        else down_to exec app namespace target at_index

    chosen_lem :
        (to_start : Bool) (at_index : Option ℕ) (w w1 : World S)
        → Leaves (some (or_fresh w.migrations)) w.schema w w1
        → GoesDownTo to_start at_index w (chosen to_start at_index w1)
    unfolding chosen
    chosen_lem true at_index w w1 l =
        reverted exec namespace (reverse (ordered exec app namespace)) w w1 l
    chosen_lem false none w w1 l = (refl, l)
    chosen_lem false (some i) w w1 l =
        reverted exec namespace (reverse (drop (suc i) (ordered exec app namespace))) w w1 l

    run_migrations_down_to-ensured :
        (w : World S) (u : Unit {0})
        → (ensure_table_call migrations_table w).0 ≡ ok u
        → run_migrations_down_to exec app namespace target w
          ≡ chosen
              (target == [])
              (index_of_migration (ordered exec app namespace) target)
              (ensure_table_call migrations_table w).1
    unfolding run_migrations_down_to chosen
    run_migrations_down_to-ensured w u h = rw (h, and_then, relabel) refl

    run_migrations_down_to-failed :
        (w : World S) (e : Error)
        → (ensure_table_call migrations_table w).0 ≡ err e
        → run_migrations_down_to exec app namespace target w
          ≡ (err ensure_table, (ensure_table_call migrations_table w).1)
    unfolding run_migrations_down_to
    run_migrations_down_to-failed w e h = rw (h, and_then, relabel) refl

    -- The tracking table could not be ensured and nothing changed, or: with an unknown target the
    -- command reports it and reverts nothing; otherwise the recorded migrations behind the target,
    -- all of them for the empty target, are reverted from the newest name down, as far as `Descent`
    -- says.
    pub run_migrations_down_to_lem :
        (w : World S)
        → ((run_migrations_down_to exec app namespace target w).0 ≡ err ensure_table)
            × Same w (run_migrations_down_to exec app namespace target w).1
          ⊎ GoesDownTo
              (target == [])
              (index_of_migration (ordered exec app namespace) target)
              w
              (run_migrations_down_to exec app namespace target w)
    run_migrations_down_to_lem w =
        let w1 = (ensure_table_call migrations_table w).1 in
        let left = ensure_lem w in
        let at_index = index_of_migration (ordered exec app namespace) target in
        elim (Result-cases (ensure_table_call migrations_table w).0) [
          | inl (u, went) ↦
              rw (run_migrations_down_to-ensured w u went)
                (inr (chosen_lem (target == []) at_index w w1 (ground (arith, left))))
          | inr (e, failed) ↦
              rw (run_migrations_down_to-failed w e failed) (inl (refl, ground (arith, left)))
        ]
