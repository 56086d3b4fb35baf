-- ===== src/Database/Faults.antt =====
-- Which calls of the database can fail: those for which the world holds a fault.
use go_hypercube.Common.{◌≡◌, refl, Bool, true, false, not, some, List, [], ◌∷◌, ◌||◌, Text, arith}
use go_hypercube.Database.{
  Row, World, Result, ok, err, call, call_from, ensure_table_call, migrations_table,
  applied_migrations, read,
}

-- One of the coming calls fails.
pub faulty : List Bool → Bool
faulty [] = false
faulty (b ∷ faults) = b || faulty faults

module _ {S : Type 0} {A : Type 0} where
  -- A call that fails had a fault coming, and no call brings a new one.
  abbrev pub Fails : World S → Result A × World S → Type 0
  Fails w (ok a, w') = (faulty w.faults || not (faulty w'.faults)) ≡ true
  Fails w (err e, w') = faulty w.faults ≡ true

module _ {S : Type 0} where
  call_from-Fails :
      (faults : List Bool) (w : World S) → w.faults ≡ faults → Fails w (call_from faults w)
  unfolding call_from faulty
  call_from-Fails [] w h = ground arith
  call_from-Fails (true ∷ faults) w h = rw h refl
  call_from-Fails (false ∷ faults) w h = ground arith

  pub call-Fails : (w : World S) → Fails w (call w)
  unfolding call
  call-Fails w = call_from-Fails w.faults w refl

  pub ensure_table-Fails : (w : World S) → Fails w (ensure_table_call migrations_table w)
  unfolding ensure_table_call
  ensure_table-Fails w = ground (arith, call-Fails w)

  pub applied_migrations-Fails :
      (namespace : Text) (rows : List Row) (w : World S)
      → w.migrations ≡ some rows
      → Fails w (applied_migrations namespace w)
  unfolding applied_migrations read
  applied_migrations-Fails namespace rows w there = ground (arith, call-Fails w)
