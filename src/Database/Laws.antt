-- ===== src/Database/Laws.antt =====
-- What each database call of app/migration.go and app/seeder.go leaves, whichever calls fail.
use go_hypercube.Common.{
  ℕ, ◌≡◌, inl, inr, Bool, true, false, Option, none, some, List, [], ◌∷◌, ◌++◌, Text, text_eq,
  arith, Option-cases,
}
use go_hypercube.Database.Defs.{
  Row, World, Result, ok, err, call_from, call, rollback, migrations_table, has_row, delete_row,
  or_fresh, ensure_table_call, read, is_recorded, mark, unmark, recorded_rows, applied_migrations,
  run_statements, transact,
}

-- The row that `mark` adds.
abbrev pub row_for : Text → ℕ → Text → Row
row_for namespace clock name = record { namespace = namespace; name = name; stamp = clock }

module _ {S : Type 0} where
  -- The migrations table and the schema of the later world; its other parts are the earlier one's.
  pub record Leaves (rows : Option (List Row)) (schema : S) (w w' : World S) : Type 0 where
    pub rows_are : w'.migrations ≡ rows
    pub schema_is : w'.schema ≡ schema
    pub seeders_are : w'.seeders ≡ w.seeders
    pub clock_is : w'.clock ≡ w.clock

  abbrev pub Same : World S → World S → Type 0
  Same w w' = Leaves w.migrations w.schema w w'

  call_from-Same : (faults : List Bool) (w : World S) → Same w (call_from faults w).1
  unfolding call_from
  call_from-Same [] w = ground arith
  call_from-Same (true ∷ faults) w = ground arith
  call_from-Same (false ∷ faults) w = ground arith

  pub call-Same : (w : World S) → Same w (call w).1
  unfolding call
  call-Same w = call_from-Same w.faults w

  -- What a call leaves: the given table and schema where it succeeds, and nothing new where it fails.
  abbrev pub Changes : {A : Type 0} → Option (List Row) → S → World S → Result A × World S → Type 0
  Changes rows schema w (ok a, w') = Leaves rows schema w w'
  Changes rows schema w (err e, w') = Same w w'

  pub ensure_lem :
      (w : World S)
      → Changes (some (or_fresh w.migrations)) w.schema w (ensure_table_call migrations_table w)
  unfolding ensure_table_call
  ensure_lem w = ground (arith, call-Same w)

  abbrev pub Answers : {A : Type 0} → A → World S → Result A × World S → Type 0
  Answers a w (ok b, w') = (b ≡ a) × Same w w'
  Answers a w (err e, w') = Same w w'

  pub is_recorded_lem :
      (namespace name : Text) (rows : List Row) (w : World S)
      → w.migrations ≡ some rows
      → Answers (has_row namespace name rows) w (is_recorded migrations_table namespace name w)
  unfolding is_recorded read
  is_recorded_lem namespace name rows w there = ground (arith, call-Same w)

  pub mark_lem :
      (namespace name : Text) (rows : List Row) (w : World S)
      → w.migrations ≡ some rows
      → has_row namespace name rows ≡ false
      → Changes
          (some (rows ++ row_for namespace w.clock name ∷ []))
          w.schema
          w
          (mark migrations_table namespace name w)
  unfolding mark read
  mark_lem namespace name rows w there new = ground (arith, call-Same w)

  pub unmark_lem :
      (namespace name : Text) (rows : List Row) (w : World S)
      → w.migrations ≡ some rows
      → Changes
          (some (delete_row namespace name rows))
          w.schema
          w
          (unmark migrations_table namespace name w)
  unfolding unmark read
  unmark_lem namespace name rows w there = ground (arith, call-Same w)

  pub applied_migrations_lem :
      (namespace : Text) (rows : List Row) (w : World S)
      → w.migrations ≡ some rows
      → Answers (recorded_rows namespace rows) w (applied_migrations namespace w)
  unfolding applied_migrations read
  applied_migrations_lem namespace rows w there = ground (arith, call-Same w)

  rollback-Same : (w : World S) → Same w (rollback w).1
  unfolding rollback
  rollback-Same w = ground (arith, call-Same w)

  pub Same-trans :
      {rows : Option (List Row)} {schema : S} {u v w : World S}
      → Same u v
      → Leaves rows schema v w
      → Leaves rows schema u w
  Same-trans a b = ground arith

  module _ (exec : Text → S → Option S) where
    -- The statements in order, none of them failing.
    unfoldable pub exec_all : List Text → S → Option S
    exec_all [] s = some s
    exec_all (statement ∷ statements) s = elim (exec statement s) [
      | none ↦ none
      | some s' ↦ exec_all statements s'
    ]

    pub exec_all-append :
        (xs ys : List Text) (s t : S)
        → exec_all xs s ≡ some t
        → exec_all (xs ++ ys) s ≡ exec_all ys t
    unfolding exec_all
    exec_all-append [] ys s t h = ground arith
    exec_all-append (x ∷ xs) ys s t h = elim (Option-cases (exec x s)) [
      | inl e ↦ ground arith
      | inr (s', e) ↦ ground (arith, exec_all-append xs ys s' t)
    ]

    abbrev RunsTo : List Text → S → World S → Result S × World S → Type 0
    RunsTo statements s w (ok t, w') = (exec_all statements s ≡ some t) × Same w w'
    RunsTo statements s w (err e, w') = Same w w'

    run_statements_lem :
        (statements : List Text) (s : S) (w : World S)
        → RunsTo statements s w (run_statements exec statements s w)
    unfolding run_statements exec_all
    run_statements_lem [] s w = ground arith
    run_statements_lem (x ∷ xs) s w = elim (Option-cases (exec x s)) [
      | inl e ↦ ground (arith, call-Same w)
      | inr (s', e) ↦ ground (arith, call-Same w, run_statements_lem xs s' (call w).1)
    ]

    -- A transaction that succeeds has run all its statements; one that fails has changed nothing.
    abbrev pub Transacts : List Text → World S → Result (Unit {0}) × World S → Type 0
    Transacts statements w (ok _, w') =
        (exec_all statements w.schema ≡ some w'.schema) × Leaves w.migrations w'.schema w w'
    Transacts statements w (err e, w') = Same w w'

    pub transact_lem :
        (name : Text) (statements : List Text) (w : World S)
        → Transacts statements w (transact exec name statements w)
    unfolding transact
    transact_lem name statements w =
        let w1 = (call w).1 in
        let ran = run_statements exec statements w1.schema w1 in
        ground (
          arith,
          call-Same w,
          run_statements_lem statements w1.schema w1,
          call-Same ran.1,
          rollback-Same ran.1,
        )
