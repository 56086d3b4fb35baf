-- ===== src/Migrations/Up.antt =====
-- RunMigrationsUpTo of app/migration.go: which migrations run, in which order, and what is recorded,
-- whichever database calls fail.
pub mod Loop
use go_hypercube.Common.{
  ℕ, suc, ◌≡◌, refl, ◌⊎◌, inl, inr, Option, none, some, Text, text_eq, arith, subst,
}
use go_hypercube.Database.{
  World, Error, not_found, ensure_table, Result, ok, err, and_then, Result-cases, relabel,
  migrations_table, or_fresh, ensure_table_call, Leaves, Same, Changes, ensure_lem,
}
use go_hypercube.Migrations.{
  name, App, ordered, index_of_migration, take, up_to, run_migrations_up_to,
}
use go_hypercube.Migrations.Up.Loop.{Progress, Progress-from, migrate_list_lem}

module _ {S : Type 0} (exec : Text → S → Option S) (namespace : Text) where
  module _ (app : App) (target : Text) where
    -- What RunMigrationsUpTo leaves, by where its target stands in the sorted list.
    abbrev pub GoesUpTo : Option ℕ → World S → Result (Unit {0}) × World S → Type 0
    GoesUpTo none w (r, w') =
        (r ≡ err (not_found target)) × Leaves (some (or_fresh w.migrations)) w.schema w w'
    GoesUpTo (some i) w (r, w') =
        Progress exec namespace (take (suc i) (ordered exec app namespace)) (or_fresh w.migrations)
          w r w'

    up_to_lem :
        (at_index : Option ℕ) (w w1 : World S)
        → Leaves (some (or_fresh w.migrations)) w.schema w w1
        → GoesUpTo at_index w (up_to exec app namespace target at_index w1)
    up_to_lem none w w1 l = (refl, l)
    up_to_lem (some i) w w1 l =
        Progress-from exec namespace (take (suc i) (ordered exec app namespace))
          (or_fresh w.migrations) w w1 _ _ l.schema_is l.clock_is
          (migrate_list_lem exec namespace _ (or_fresh w.migrations) w1 l.rows_are)

    run_migrations_up_to-ensured :
        (w : World S) (u : Unit {0})
        → (ensure_table_call migrations_table w).0 ≡ ok u
        → run_migrations_up_to exec app namespace target w
          ≡ up_to exec app namespace target
              (index_of_migration (ordered exec app namespace) target)
              (ensure_table_call migrations_table w).1
    unfolding run_migrations_up_to
    run_migrations_up_to-ensured w u h = rw (h, and_then, relabel) refl

    run_migrations_up_to-failed :
        (w : World S) (e : Error)
        → (ensure_table_call migrations_table w).0 ≡ err e
        → run_migrations_up_to exec app namespace target w
          ≡ (err ensure_table, (ensure_table_call migrations_table w).1)
    unfolding run_migrations_up_to
    run_migrations_up_to-failed w e h = rw (h, and_then, relabel) refl

    -- The tracking table could not be ensured and nothing changed, or: with an unknown target the
    -- command reports it and runs nothing; with a known one the migrations up to it that are not yet
    -- recorded run in name order, as far as `Progress` says.
    pub run_migrations_up_to_lem :
        (w : World S)
        → ((run_migrations_up_to exec app namespace target w).0 ≡ err ensure_table)
            × Same w (run_migrations_up_to exec app namespace target w).1
          ⊎ GoesUpTo
              (index_of_migration (ordered exec app namespace) target)
              w
              (run_migrations_up_to exec app namespace target w)
    run_migrations_up_to_lem w =
        let w1 = (ensure_table_call migrations_table w).1 in
        let left = ensure_lem w in
        elim (Result-cases (ensure_table_call migrations_table w).0) [
          | inl (u, went) ↦ rw (run_migrations_up_to-ensured w u went) (
              inr (
                up_to_lem (index_of_migration (ordered exec app namespace) target) w w1 (
                  subst (λ r. Changes (some (or_fresh w.migrations)) w.schema w (r, w1)) went
                    left)))
          | inr (e, failed) ↦ rw (run_migrations_up_to-failed w e failed) (
              inl (
                refl,
                subst (λ r. Changes (some (or_fresh w.migrations)) w.schema w (r, w1)) failed left,
              ))
        ]
