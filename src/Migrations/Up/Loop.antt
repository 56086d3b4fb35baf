-- ===== src/Migrations/Up/Loop.antt =====
-- The loop of RunMigrationsUpTo of app/migration.go: how far it comes, whichever database calls fail.
use go_hypercube.Common.{
  ℕ, ◌≡◌, refl, ◌∙◌, ◌⊎◌, inl, inr, true, false, Option, none, some, List, [], ◌∷◌, ◌++◌, map,
  if◌then◌else◌, Text, text_eq, arith, ap, sym, Bool-cases, append_assoc, append-nil, subst,
}
use go_hypercube.Database.{
  Row, World, Error, record_failed, Result, ok, err, Result-cases, migrations_table, has_row,
  is_recorded, transact, Leaves, Same, row_for, is_recorded_lem, mark_lem, transact_lem, exec_all,
  exec_all-append,
}
use go_hypercube.Migrations.{Migration, name, migrate_one, migrate_list}

-- The migrations of a list that the table does not hold, where each that runs is recorded.
pub pending : Text → ℕ → List Row → List Migration → List Migration
pending namespace clock rows [] = []
pending namespace clock rows (m ∷ ms) =
    if has_row namespace (name m) rows
    then pending namespace clock rows ms
    else m ∷ pending namespace clock (rows ++ row_for namespace clock (name m) ∷ []) ms

abbrev pub ups : List Migration → List Text
ups [] = []
ups (m ∷ ms) = m.up ++ ups ms

abbrev pub rows_for : Text → ℕ → List Migration → List Row
rows_for namespace clock ms = map (λ m. row_for namespace clock (name m)) ms

module _ {S : Type 0} (exec : Text → S → Option S) (namespace : Text) where
  abbrev One : Migration → List Row → World S → Result (Unit {0}) × World S → Type 0
  One m rows w (ok _, w') =
      (has_row namespace (name m) rows ≡ true) × Same w w'
      ⊎ (has_row namespace (name m) rows ≡ false)
        × (exec_all exec m.up w.schema ≡ some w'.schema)
        × Leaves (some (rows ++ row_for namespace w.clock (name m) ∷ [])) w'.schema w w'
  One m rows w (err e, w') =
      Same w w'
      ⊎ (has_row namespace (name m) rows ≡ false)
        × (e ≡ record_failed (name m))
        × (exec_all exec m.up w.schema ≡ some w'.schema)
        × Leaves (some rows) w'.schema w w'

  migrate_one_lem :
      (m : Migration) (rows : List Row) (w : World S)
      → w.migrations ≡ some rows
      → One m rows w (migrate_one exec namespace m w)
  unfolding migrate_one
  migrate_one_lem m rows w there =
      let w1 = (is_recorded migrations_table namespace (name m) w).1 in
      let w2 = (transact exec (name m) m.up w1).1 in
      elim (Bool-cases (has_row namespace (name m) rows)) [
        | inl old ↦ ground (arith, is_recorded_lem namespace (name m) rows w there)
        | inr new ↦ ground (
          arith,
          is_recorded_lem namespace (name m) rows w there,
          transact_lem exec (name m) m.up w1,
          mark_lem namespace (name m) rows w2,
        )
      ]

  abbrev pub torn_ups : Option Migration → List Text
  torn_ups none = []
  torn_ups (some m) = m.up

  -- `m` committed and could not be recorded, and with that error the run ended.
  abbrev pub IsTorn : Option Migration → List Migration → Result (Unit {0}) → Type 0
  IsTorn none rest r = Unit
  IsTorn (some m) rest r =
      (r ≡ err (record_failed (name m))) × ((later : List Migration) × (rest ≡ m ∷ later))

  abbrev pub IsFinished : Result (Unit {0}) → List Migration → Option Migration → Type 0
  IsFinished (ok _) rest torn = (rest ≡ []) × (torn ≡ none)
  IsFinished (err _) rest torn = Unit

  -- How far a run through `ms` came: the pending migrations are `done` and then `rest`; exactly
  -- those of `done` ran, in order, and are recorded; the run ended early only with an error, and then
  -- at most the first of `rest` took effect without being recorded.
  pub record Progress (ms : List Migration) (rows : List Row) (w : World S) (r : Result (Unit {0}))
      (w' : World S) : Type 0 where
    pub done : List Migration
    pub rest : List Migration
    pub torn : Option Migration
    pub split : pending namespace w.clock rows ms ≡ done ++ rest
    pub recorded : w'.migrations ≡ some (rows ++ rows_for namespace w.clock done)
    pub ran : exec_all exec (ups done ++ torn_ups torn) w.schema ≡ some w'.schema
    pub is_torn : IsTorn torn rest r
    pub is_finished : IsFinished r rest torn

  migrate_list-ok :
      (m : Migration) (ms : List Migration) (w : World S)
      → (migrate_one exec namespace m w).0 ≡ ok tt
      → migrate_list exec namespace (m ∷ ms) w
        ≡ migrate_list exec namespace ms (migrate_one exec namespace m w).1
  unfolding migrate_list
  migrate_list-ok m ms w h = ground arith

  migrate_list-err :
      (m : Migration) (ms : List Migration) (w : World S) (e : Error)
      → (migrate_one exec namespace m w).0 ≡ err e
      → migrate_list exec namespace (m ∷ ms) w ≡ (err e, (migrate_one exec namespace m w).1)
  unfolding migrate_list
  migrate_list-err m ms w e h = ground arith

  pending-old :
      (clock : ℕ) (rows : List Row) (m : Migration) (ms : List Migration)
      → has_row namespace (name m) rows ≡ true
      → pending namespace clock rows (m ∷ ms) ≡ pending namespace clock rows ms
  unfolding pending
  pending-old clock rows m ms h = ground arith

  pending-new :
      (clock : ℕ) (rows : List Row) (m : Migration) (ms : List Migration)
      → has_row namespace (name m) rows ≡ false
      → pending namespace clock rows (m ∷ ms)
        ≡ m ∷ pending namespace clock (rows ++ row_for namespace clock (name m) ∷ []) ms
  unfolding pending
  pending-new clock rows m ms h = ground arith

  exec_all-nil : (s : S) → exec_all exec [] s ≡ some s
  exec_all-nil s = unfold exec_all in refl

  -- The first migration was skipped.
  Progress-skip :
      (m : Migration) (ms : List Migration) (rows : List Row) (w w1 : World S)
      (r : Result (Unit {0})) (w' : World S)
      → has_row namespace (name m) rows ≡ true
      → Same w w1
      → Progress ms rows w1 r w'
      → Progress (m ∷ ms) rows w r w'
  Progress-skip m ms rows w w1 r w' old same p = record {
    done = p.done;
    rest = p.rest;
    torn = p.torn;
    split =
        pending-old w.clock rows m ms old
        ∙ ap (λ c. pending namespace c rows ms) (sym same.clock_is)
        ∙ p.split;
    recorded = p.recorded ∙ ap (λ c. some (rows ++ rows_for namespace c p.done)) same.clock_is;
    ran = ap (λ s. exec_all exec (ups p.done ++ torn_ups p.torn) s) (sym same.schema_is) ∙ p.ran;
    is_torn = p.is_torn;
    is_finished = p.is_finished;
  }

  -- The first migration ran and was recorded.
  Progress-step :
      (m : Migration) (ms : List Migration) (rows : List Row) (w w1 : World S)
      (r : Result (Unit {0})) (w' : World S)
      → has_row namespace (name m) rows ≡ false
      → exec_all exec m.up w.schema ≡ some w1.schema
      → w1.clock ≡ w.clock
      → Progress ms (rows ++ row_for namespace w.clock (name m) ∷ []) w1 r w'
      → Progress (m ∷ ms) rows w r w'
  Progress-step m ms rows w w1 r w' new up clock p =
      let row = row_for namespace w.clock (name m) in
      record {
        done = m ∷ p.done;
        rest = p.rest;
        torn = p.torn;
        split =
            pending-new w.clock rows m ms new
            ∙ ap (λ c. m ∷ pending namespace c (rows ++ row ∷ []) ms) (sym clock)
            ∙ ap (λ l. m ∷ l) p.split;
        recorded =
            p.recorded
            ∙ ap (λ c. some ((rows ++ row ∷ []) ++ rows_for namespace c p.done)) clock
            ∙ ap some (append_assoc rows (row ∷ []) (rows_for namespace w.clock p.done));
        ran =
            ap (λ l. exec_all exec l w.schema) (append_assoc m.up (ups p.done) (torn_ups p.torn))
            ∙ exec_all-append exec m.up (ups p.done ++ torn_ups p.torn) w.schema w1.schema up
            ∙ p.ran;
        is_torn = p.is_torn;
        is_finished = p.is_finished;
      }

  -- The run ended at the first migration with nothing changed.
  Progress-stop :
      (ms : List Migration) (rows : List Row) (w w' : World S) (e : Error)
      → w.migrations ≡ some rows
      → Same w w'
      → Progress ms rows w (err e) w'
  Progress-stop ms rows w w' e there same = record {
    done = [];
    rest = pending namespace w.clock rows ms;
    torn = none;
    split = refl;
    recorded = same.rows_are ∙ there ∙ ap some (sym (append-nil rows));
    ran = exec_all-nil w.schema ∙ ap some (sym same.schema_is);
    is_torn = tt;
    is_finished = tt;
  }

  Progress-torn :
      (m : Migration) (ms : List Migration) (rows : List Row) (w w' : World S)
      → has_row namespace (name m) rows ≡ false
      → exec_all exec m.up w.schema ≡ some w'.schema
      → w'.migrations ≡ some rows
      → Progress (m ∷ ms) rows w (err (record_failed (name m))) w'
  Progress-torn m ms rows w w' new up there = record {
    done = [];
    rest = pending namespace w.clock rows (m ∷ ms);
    torn = some m;
    split = refl;
    recorded = there ∙ ap some (sym (append-nil rows));
    ran = up;
    is_torn = (refl, (_, pending-new w.clock rows m ms new));
    is_finished = tt;
  }

  pub migrate_list_lem :
      (ms : List Migration) (rows : List Row) (w : World S)
      → w.migrations ≡ some rows
      → Progress ms rows w (migrate_list exec namespace ms w).0 (migrate_list exec namespace ms w).1
  migrate_list_lem [] rows w there =
      unfold migrate_list pending in
      record {
        done = [];
        rest = [];
        torn = none;
        split = refl;
        recorded = there ∙ ap some (sym (append-nil rows));
        ran = exec_all-nil w.schema;
        is_torn = tt;
        is_finished = (refl, refl);
      }
  migrate_list_lem (m ∷ ms) rows w there = elim (Result-cases (migrate_one exec namespace m w).0) [
    | inl (u, went) ↦ rw (migrate_list-ok m ms w went) (elim (at_result went) [
      | inl (old, same) ↦
          Progress-skip m ms rows w w1 _ _ old same
            (migrate_list_lem ms rows w1 (same.rows_are ∙ there))
      | inr (new, up, leaves) ↦
          Progress-step m ms rows w w1 _ _ new up leaves.clock_is (
            migrate_list_lem ms (rows ++ row_for namespace w.clock (name m) ∷ []) w1
              leaves.rows_are)
    ])
    | inr (e, stopped) ↦ rw (migrate_list-err m ms w e stopped) (elim (at_result stopped) [
      | inl same ↦ Progress-stop (m ∷ ms) rows w w1 e there same
      | inr (new, is_e, up, leaves) ↦ rw is_e (Progress-torn m ms rows w w1 new up leaves.rows_are)
    ])
  ]
    where
      w1 : World S
      w1 = (migrate_one exec namespace m w).1

      at_result :
          {r : Result (Unit {0})} → (migrate_one exec namespace m w).0 ≡ r → One m rows w (r, w1)
      at_result h = subst (λ r. One m rows w (r, w1)) h (migrate_one_lem m rows w there)

  pub Progress-from :
      (ms : List Migration) (rows : List Row) (w w1 : World S) (r : Result (Unit {0}))
      (w' : World S)
      → w1.schema ≡ w.schema
      → w1.clock ≡ w.clock
      → Progress ms rows w1 r w'
      → Progress ms rows w r w'
  Progress-from ms rows w w1 r w' schema clock p = record {
    done = p.done;
    rest = p.rest;
    torn = p.torn;
    split = ap (λ c. pending namespace c rows ms) (sym clock) ∙ p.split;
    recorded = p.recorded ∙ ap (λ c. some (rows ++ rows_for namespace c p.done)) clock;
    ran = ap (λ s. exec_all exec (ups p.done ++ torn_ups p.torn) s) (sym schema) ∙ p.ran;
    is_torn = p.is_torn;
    is_finished = p.is_finished;
  }
