-- ===== src/Migrations/Down/Loop.antt =====
-- The loop of RunMigrationsDownTo of app/migration.go: how far it comes, whichever database calls fail.
use go_hypercube.Common.{
  ◌≡◌, refl, ◌∙◌, ◌⊎◌, inl, inr, true, false, Option, none, some, List, [], ◌∷◌, ◌++◌,
  if◌then◌else◌, Text, text_eq, arith, ap, sym, Bool-cases, subst, append_assoc,
}
use go_hypercube.Database.{
  Row, World, Error, record_failed, Result, ok, err, Result-cases, migrations_table, has_row,
  delete_row, or_fresh, is_recorded, transact, Leaves, Same, is_recorded_lem, unmark_lem,
  transact_lem, exec_all, exec_all-append,
}
use go_hypercube.Migrations.{Migration, name, revert_one, revert_list}

-- The migrations of a list that the table holds, where each that is reverted leaves it.
pub held : Text → List Row → List Migration → List Migration
held namespace rows [] = []
held namespace rows (m ∷ ms) =
    if has_row namespace (name m) rows
    then m ∷ held namespace (delete_row namespace (name m) rows) ms
    else held namespace rows ms

abbrev pub downs : List Migration → List Text
downs [] = []
downs (m ∷ ms) = m.down ++ downs ms

-- The rows without those of the given migrations.
abbrev pub rows_without : Text → List Row → List Migration → List Row
rows_without namespace rows [] = rows
rows_without namespace rows (m ∷ ms) =
    rows_without namespace (delete_row namespace (name m) rows) ms

module _ {S : Type 0} (exec : Text → S → Option S) (namespace : Text) where
  abbrev One : Migration → List Row → World S → Result (Unit {0}) × World S → Type 0
  One m rows w (ok _, w') =
      (has_row namespace (name m) rows ≡ false) × Same w w'
      ⊎ (has_row namespace (name m) rows ≡ true)
        × (exec_all exec m.down w.schema ≡ some w'.schema)
        × (w'.migrations ≡ some (delete_row namespace (name m) rows))
  One m rows w (err e, w') =
      Same w w'
      ⊎ (has_row namespace (name m) rows ≡ true)
        × (e ≡ record_failed (name m))
        × (exec_all exec m.down w.schema ≡ some w'.schema)
        × (w'.migrations ≡ some rows)

  revert_one_lem :
      (m : Migration) (rows : List Row) (w : World S)
      → w.migrations ≡ some rows
      → One m rows w (revert_one exec namespace m w)
  unfolding revert_one
  revert_one_lem m rows w there =
      let w1 = (is_recorded migrations_table namespace (name m) w).1 in
      let w2 = (transact exec (name m) m.down w1).1 in
      elim (Bool-cases (has_row namespace (name m) rows)) [
        | inr absent ↦ ground (arith, is_recorded_lem namespace (name m) rows w there)
        | inl here ↦ ground (
          arith,
          is_recorded_lem namespace (name m) rows w there,
          transact_lem exec (name m) m.down w1,
          unmark_lem namespace (name m) rows w2,
        )
      ]

  abbrev pub torn_downs : Option Migration → List Text
  torn_downs none = []
  torn_downs (some m) = m.down

  -- `m` was reverted and its row could not be removed, and with that error the run ended.
  abbrev pub IsHalf : Option Migration → List Migration → Result (Unit {0}) → Type 0
  IsHalf none rest r = Unit
  IsHalf (some m) rest r =
      (r ≡ err (record_failed (name m))) × ((later : List Migration) × (rest ≡ m ∷ later))

  abbrev pub IsOver : Result (Unit {0}) → List Migration → Option Migration → Type 0
  IsOver (ok _) rest torn = (rest ≡ []) × (torn ≡ none)
  IsOver (err _) rest torn = Unit

  -- How far a run through `ms` came: the applied migrations are `done` and then `rest`; exactly
  -- those of `done` were reverted, in order, and have left the table; the run ended early only with
  -- an error, and then at most the first of `rest` was reverted and is still recorded.
  pub record Descent (ms : List Migration) (rows : List Row) (schema : S) (r : Result (Unit {0}))
      (w' : World S) : Type 0 where
    pub done : List Migration
    pub rest : List Migration
    pub torn : Option Migration
    pub split : held namespace rows ms ≡ done ++ rest
    pub left : w'.migrations ≡ some (rows_without namespace rows done)
    pub ran : exec_all exec (downs done ++ torn_downs torn) schema ≡ some w'.schema
    pub is_half : IsHalf torn rest r
    pub is_over : IsOver r rest torn

  held-absent :
      (rows : List Row) (m : Migration) (ms : List Migration)
      → has_row namespace (name m) rows ≡ false
      → held namespace rows (m ∷ ms) ≡ held namespace rows ms
  unfolding held
  held-absent rows m ms h = ground arith

  held-here :
      (rows : List Row) (m : Migration) (ms : List Migration)
      → has_row namespace (name m) rows ≡ true
      → held namespace rows (m ∷ ms) ≡ m ∷ held namespace (delete_row namespace (name m) rows) ms
  unfolding held
  held-here rows m ms h = ground arith

  exec_none : (s : S) → exec_all exec [] s ≡ some s
  exec_none s = unfold exec_all in refl

  -- The first migration was skipped.
  Descent-skip :
      (m : Migration) (ms : List Migration) (rows : List Row) (s s1 : S) (r : Result (Unit {0}))
      (w' : World S)
      → has_row namespace (name m) rows ≡ false
      → s1 ≡ s
      → Descent ms rows s1 r w'
      → Descent (m ∷ ms) rows s r w'
  Descent-skip m ms rows s s1 r w' absent same p = record {
    done = p.done;
    rest = p.rest;
    torn = p.torn;
    split = held-absent rows m ms absent ∙ p.split;
    left = p.left;
    ran = ap (λ s. exec_all exec (downs p.done ++ torn_downs p.torn) s) (sym same) ∙ p.ran;
    is_half = p.is_half;
    is_over = p.is_over;
  }

  -- The first migration was reverted and left the table.
  Descent-step :
      (m : Migration) (ms : List Migration) (rows : List Row) (s s1 : S) (r : Result (Unit {0}))
      (w' : World S)
      → has_row namespace (name m) rows ≡ true
      → exec_all exec m.down s ≡ some s1
      → Descent ms (delete_row namespace (name m) rows) s1 r w'
      → Descent (m ∷ ms) rows s r w'
  Descent-step m ms rows s s1 r w' here down p = record {
    done = m ∷ p.done;
    rest = p.rest;
    torn = p.torn;
    split = held-here rows m ms here ∙ ap (λ l. m ∷ l) p.split;
    left = p.left;
    ran =
        ap (λ l. exec_all exec l s) (append_assoc m.down (downs p.done) (torn_downs p.torn))
        ∙ exec_all-append exec m.down (downs p.done ++ torn_downs p.torn) s s1 down
        ∙ p.ran;
    is_half = p.is_half;
    is_over = p.is_over;
  }

  -- The run ended at the first migration: nothing changed, or it was reverted and is still recorded.
  Descent-stop :
      (ms : List Migration) (rows : List Row) (s : S) (w' : World S) (e : Error)
      → w'.migrations ≡ some rows
      → w'.schema ≡ s
      → Descent ms rows s (err e) w'
  Descent-stop ms rows s w' e there same = record {
    done = [];
    rest = held namespace rows ms;
    torn = none;
    split = refl;
    left = there;
    ran = exec_none s ∙ ap some (sym same);
    is_half = tt;
    is_over = tt;
  }

  Descent-torn :
      (m : Migration) (ms : List Migration) (rows : List Row) (s : S) (w' : World S)
      → has_row namespace (name m) rows ≡ true
      → exec_all exec m.down s ≡ some w'.schema
      → w'.migrations ≡ some rows
      → Descent (m ∷ ms) rows s (err (record_failed (name m))) w'
  Descent-torn m ms rows s w' here down there = record {
    done = [];
    rest = held namespace rows (m ∷ ms);
    torn = some m;
    split = refl;
    left = there;
    ran = down;
    is_half = (refl, (_, held-here rows m ms here));
    is_over = tt;
  }

  revert_list-ok :
      (m : Migration) (ms : List Migration) (w : World S)
      → (revert_one exec namespace m w).0 ≡ ok tt
      → revert_list exec namespace (m ∷ ms) w
        ≡ revert_list exec namespace ms (revert_one exec namespace m w).1
  unfolding revert_list
  revert_list-ok m ms w h = ground arith

  revert_list-err :
      (m : Migration) (ms : List Migration) (w : World S) (e : Error)
      → (revert_one exec namespace m w).0 ≡ err e
      → revert_list exec namespace (m ∷ ms) w ≡ (err e, (revert_one exec namespace m w).1)
  unfolding revert_list
  revert_list-err m ms w e h = ground arith

  pub revert_list_lem :
      (ms : List Migration) (rows : List Row) (w : World S)
      → w.migrations ≡ some rows
      → Descent ms rows w.schema
          (revert_list exec namespace ms w).0
          (revert_list exec namespace ms w).1
  revert_list_lem [] rows w there =
      unfold revert_list held in
      record {
        done = [];
        rest = [];
        torn = none;
        split = refl;
        left = there;
        ran = exec_none w.schema;
        is_half = tt;
        is_over = (refl, refl);
      }
  revert_list_lem (m ∷ ms) rows w there = elim (Result-cases (revert_one exec namespace m w).0) [
    | inl (u, went) ↦ rw (revert_list-ok m ms w went) (elim (at_result went) [
      | inl (absent, same) ↦
          Descent-skip m ms rows w.schema w1.schema _ _ absent same.schema_is
            (revert_list_lem ms rows w1 (same.rows_are ∙ there))
      | inr (here, down, left) ↦
          Descent-step m ms rows w.schema w1.schema _ _ here down
            (revert_list_lem ms (delete_row namespace (name m) rows) w1 left)
    ])
    | inr (e, stopped) ↦ rw (revert_list-err m ms w e stopped) (elim (at_result stopped) [
      | inl same ↦ Descent-stop (m ∷ ms) rows w.schema w1 e (same.rows_are ∙ there) same.schema_is
      | inr (here, is_e, down, left) ↦ rw is_e (Descent-torn m ms rows w.schema w1 here down left)
    ])
  ]
    where
      w1 : World S
      w1 = (revert_one exec namespace m w).1

      at_result :
          {r : Result (Unit {0})} → (revert_one exec namespace m w).0 ≡ r → One m rows w (r, w1)
      at_result h = subst (λ r. One m rows w (r, w1)) h (revert_one_lem m rows w there)

  pub reverted :
      (ms : List Migration) (w w1 : World S)
      → Leaves (some (or_fresh w.migrations)) w.schema w w1
      → Descent ms
          (or_fresh w.migrations)
          w.schema
          (revert_list exec namespace ms w1).0
          (revert_list exec namespace ms w1).1
  reverted ms w w1 l =
      let out = revert_list exec namespace ms w1 in
      subst (λ (s : S). Descent ms (or_fresh w.migrations) s out.0 out.1) l.schema_is
        (revert_list_lem ms (or_fresh w.migrations) w1 l.rows_are)
