-- ===== src/Database/Defs.antt =====
-- The world that the app's database calls change, and the statements that the app sends, as
-- written in app/migration.go and app/seeder.go.
use go_hypercube.Common.{
  ℕ, Bool, true, false, Option, none, some, List, [], ◌∷◌, ◌++◌, ◌&&◌, ◌==◌, if◌then◌else◌, Text,
  text_eq, leb, sort, ◌≡◌, refl, ◌⊎◌, inl, inr,
}

-- A row of a tracking table: its primary key and its timestamp.
pub record Row : Type 0 where
  pub namespace : Text
  pub name : Text
  pub stamp : ℕ

-- The two tables: none before CREATE TABLE.
pub record World (S : Type 0) : Type 0 where
  pub migrations : Option (List Row)
  pub seeders : Option (List Row)
  pub schema : S
  pub clock : ℕ
  pub faults : List Bool

-- The step at which an operation failed.
pub data Error : Type 0 where
  database_failed no_table duplicate_key statement_failed : Error
  not_setup ensure_table read_state : Error
  not_found check_state begin_tx apply_failed commit_failed record_failed run_failed clear_failed :
      Text → Error

pub data Result (A : Type 0) : Type 0 where
  ok : A → Result A
  err : Error → Result A

abbrev pub relabel : {A : Type 0} → Error → Result A → Result A
relabel e (ok a) = ok a
relabel e (err _) = err e

pub Result-cases :
    {A : Type 0} (r : Result A) → ((a : A) × (r ≡ ok a)) ⊎ ((e : Error) × (r ≡ err e))
Result-cases (ok a) = inl (a, refl)
Result-cases (err e) = inr (e, refl)

module _ (S : Type 0) where
  abbrev pub M : Type 0 → Type 0
  M A = World S → Result A × World S

module _ {S : Type 0} where
  module _ {A B : Type 0} where
    abbrev pub and_then : Result A → (A → M S B) → M S B
    and_then (ok a) f w = f a w
    and_then (err e) f w = (err e, w)

    infixl 5 ◌>>=◌ ◌>>◌
    abbrev pub ◌>>=◌ : M S A → (A → M S B) → M S B
    ◌>>=◌ m f w = let (r, w') = m w in and_then r f w'

    abbrev pub ◌>>◌ : M S A → M S B → M S B
    ◌>>◌ m f w = let (r, w') = m w in and_then r (λ _. f) w'

  module _ {A : Type 0} where
    abbrev pub pure : A → M S A
    pure a w = (ok a, w)

    abbrev pub throw : Error → M S A
    throw e w = (err e, w)

    -- `fmt.Errorf("...: %w", err)`: the outer error says at which step.
    abbrev pub wrap : Error → M S A → M S A
    wrap e m w = let (r, w') = m w in (relabel e r, w')

  -- One call of the database.
  unfoldable pub call_from : List Bool → M S (Unit {0})
  call_from [] w = (ok tt, w)
  call_from (true ∷ faults) w = (err database_failed, record w { faults = faults })
  call_from (false ∷ faults) w = (ok tt, record w { faults = faults })

  unfoldable pub call : M S (Unit {0})
  unfolding call_from
  call w = call_from w.faults w

  -- `_ = tx.Rollback()`: what it returns is dropped.
  unfoldable pub rollback : M S (Unit {0})
  unfolding call
  rollback w = (ok tt, (call w).1)

pub data Table : Type 0 where
  migrations_table seeders_table : Table

abbrev pub is_row : Text → Text → Row → Bool
is_row namespace name r = r.namespace == namespace && r.name == name

-- SELECT EXISTS(SELECT 1 FROM … WHERE namespace = … AND name = …)
unfoldable pub has_row : Text → Text → List Row → Bool
has_row namespace name [] = false
has_row namespace name (r ∷ rows) =
    if is_row namespace name r then true else has_row namespace name rows

-- DELETE FROM … WHERE namespace = … AND name = …
unfoldable pub delete_row : Text → Text → List Row → List Row
delete_row namespace name [] = []
delete_row namespace name (r ∷ rows) =
    if is_row namespace name r
    then delete_row namespace name rows
    else r ∷ delete_row namespace name rows

-- WHERE namespace = …
unfoldable pub rows_of : Text → List Row → List Row
rows_of namespace [] = []
rows_of namespace (r ∷ rows) =
    if r.namespace == namespace then r ∷ rows_of namespace rows else rows_of namespace rows

-- appliedMigrations: ORDER BY applied_at DESC; the empty namespace selects every row.
unfoldable pub recorded_rows : Text → List Row → List Row
recorded_rows namespace rows =
    sort (λ a b. leb b.stamp a.stamp) (if namespace == [] then rows else rows_of namespace rows)

abbrev pub or_fresh : Option (List Row) → List Row
or_fresh none = []
or_fresh (some rows) = rows

module _ {S : Type 0} where
  abbrev pub table : Table → World S → Option (List Row)
  table migrations_table w = w.migrations
  table seeders_table w = w.seeders

  abbrev pub set_table : Table → List Row → World S → World S
  set_table migrations_table rows w = record w { migrations = some rows }
  set_table seeders_table rows w = record w { seeders = some rows }

  -- ensureMigrationsTable, ensureSeedersTable: CREATE TABLE IF NOT EXISTS.
  unfoldable pub ensure_table_call : Table → M S (Unit {0})
  unfolding call
  ensure_table_call t = call >> λ w. (ok tt, set_table t (or_fresh (table t w)) w)

  abbrev pub read_rows : Option (List Row) → M S (List Row)
  read_rows none = throw no_table
  read_rows (some rows) = pure rows

  unfoldable pub read : Table → M S (List Row)
  read t w = read_rows (table t w) w

  -- isApplied, hasRun
  unfoldable pub is_recorded : Table → Text → Text → M S Bool
  unfolding call read
  is_recorded t namespace name = do call; rows ← read t; pure (has_row namespace name rows)

  abbrev pub put_row : Bool → Table → Row → List Row → M S (Unit {0})
  put_row true t r rows w = (err duplicate_key, w)
  put_row false t r rows w = (ok tt, set_table t (rows ++ r ∷ []) w)

  -- markApplied, markRun: INSERT with the current timestamp, under the primary key.
  unfoldable pub mark : Table → Text → Text → M S (Unit {0})
  unfolding call read
  mark t namespace name = do
    call
    rows ← read t
    λ w.
        put_row (has_row namespace name rows) t
          (record { namespace = namespace; name = name; stamp = w.clock }) rows w

  -- markReverted, clearRun
  unfoldable pub unmark : Table → Text → Text → M S (Unit {0})
  unfolding call read
  unmark t namespace name = do
    call
    rows ← read t
    λ w. (ok tt, set_table t (delete_row namespace name rows) w)

  unfoldable pub applied_migrations : Text → M S (List Row)
  unfolding call read
  applied_migrations namespace = do
    call
    rows ← read migrations_table
    pure (recorded_rows namespace rows)

  -- What a statement does to the schema is the database's, and may fail.
  module _ (exec : Text → S → Option S) where
    abbrev pub exec_result : Option S → M S S
    exec_result none = throw statement_failed
    exec_result (some s) = pure s

    -- runStatements; the last argument is the schema as the open transaction sees it.
    unfoldable pub run_statements : List Text → S → M S S
    unfolding call
    run_statements [] s = pure s
    run_statements (statement ∷ statements) s = do
      call
      s' ← exec_result (exec statement s)
      run_statements statements s'

    abbrev pub commit_result : Text → S → Result (Unit {0}) → M S (Unit {0})
    commit_result name s (ok _) w = (ok tt, record w { schema = s })
    commit_result name s (err _) w = (err (commit_failed name), w)

    abbrev pub finish_tx : Text → Result S → M S (Unit {0})
    finish_tx name (err _) = do rollback; throw (apply_failed name)
    finish_tx name (ok s) = λ w. let (r, w') = call w in commit_result name s r w'

    -- Begin, runStatements, and Rollback or Commit. A transaction that does not commit leaves the
    -- schema as it was.
    unfoldable pub transact : Text → List Text → M S (Unit {0})
    unfolding call rollback run_statements
    transact name statements = do
      wrap (begin_tx name) call
      λ w. let (r, w') = run_statements statements w.schema w in finish_tx name r w'
