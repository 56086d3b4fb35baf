-- ===== src/Migrations/State/Namespaces.antt =====
-- MigrationState of app/migration.go: on which namespaces it reports, and what it leaves.
use go_hypercube.Common.{
  ◌≡◌, ◌≢◌, ◌⊎◌, inl, inr, refl, sym, ◌∙◌, Bool, true, false, Option, some, List, [], ◌∷◌, ◌++◌,
  Text, text_eq, text_leb, contains, contains-cons, IsUnique, IsSorted, All, arith, Bool-cases,
  Picks, none_left, taken, skipped, if_cases, ==_iff,
}
use go_hypercube.Namespaced.{namespaces}
use go_hypercube.Namespaced.Sorted.{occurs, namespaces_lem}
use go_hypercube.Database.{
  Row, World, Result, ok, err, not_setup, or_fresh, migrations_table, ensure_table_call, Leaves,
  Same, ensure_lem, Changes, and_then, relabel, ensure_table,
}
use go_hypercube.Database.Faults.{Fails, ensure_table-Fails, applied_migrations-Fails}
use go_hypercube.Runner.{others, registered_plugins, ordered_namespaces}
use go_hypercube.Runner.Order.{ordered_namespaces_lem}
use go_hypercube.Runner.Visits.{others-IsSorted}
use go_hypercube.Migrations.{App, ordered}
use go_hypercube.Migrations.State.{
  NamespaceMigrationState, empty_state, namespace_migration_state, migration_states,
  migration_state,
}
use go_hypercube.Migrations.State.Report.{Counts, namespace_migration_state_lem}

-- Of the plugins, those that own something, in the order of the plugins.
abbrev pub Owning : (Text → Bool) → List Text → List Text → Type 0
Owning owns = Picks (λ p q. (owns p ≡ true) × (q ≡ p)) (λ p. owns p ≡ false)

registered_plugins-Owning :
    (owns : Text → Bool) (registered plugins : List Text)
    → ((k : Text) → contains registered k ≡ owns k)
    → Owning owns plugins (registered_plugins registered plugins)
unfolding registered_plugins
registered_plugins-Owning owns registered [] same = none_left
registered_plugins-Owning owns registered (p ∷ ps) same =
    let rest = registered_plugins registered ps in
    let owning = registered_plugins-Owning owns registered ps same in
    if_cases (Owning owns (p ∷ ps)) (contains registered p) (p ∷ rest) rest
      (λ on. taken p p ps rest (sym (same p) ∙ on, refl) owning)
      (λ off. skipped p ps rest (sym (same p) ∙ off) owning)

-- None of the namespaces is empty where the empty one is not among them.
All-full : (ns : List Text) → contains ns [] ≡ false → All (λ n. n ≢ []) ns
All-full [] h = tt
All-full (n ∷ ns) h = (
  λ e. absurd (ground (arith, h, contains-cons n ns [], (==_iff n []).1 e)),
  All-full ns (ground (arith, h, contains-cons n ns [])),
)

module _ {S : Type 0} (exec : Text → S → Option S) (app : App) where
  -- One state for each namespace: the one that the table and the registered migrations give.
  abbrev pub Lists : List Row → List Text → List NamespaceMigrationState → Type 0
  Lists rows [] [] = Unit
  Lists rows [] (st ∷ states) = ⊥
  Lists rows (n ∷ ns) [] = ⊥
  Lists rows (n ∷ ns) (st ∷ states) =
      Counts n rows (ordered exec app n) (empty_state n) st × Lists rows ns states

  abbrev Reads :
      List Row → List Text → World S → Result (List NamespaceMigrationState) × World S → Type 0
  Reads rows ns w (ok states, w') = Lists rows ns states × Same w w'
  Reads rows ns w (err e, w') = Same w w'

  migration_states_lem :
      (ns : List Text) (rows : List Row) (w : World S)
      → w.migrations ≡ some rows
      → All (λ n. n ≢ []) ns
      → Reads rows ns w (migration_states exec app ns w)
  unfolding migration_states
  migration_states_lem [] rows w there full = ground arith
  migration_states_lem (n ∷ ns) rows w there full =
      let w1 = (namespace_migration_state exec app n w).1 in
      ground (
        arith,
        namespace_migration_state_lem exec app n rows w there full.0,
        migration_states_lem ns rows w1,
      )

  namespace_migration_state-Fails :
      (n : Text) (rows : List Row) (w : World S)
      → w.migrations ≡ some rows
      → Fails w (namespace_migration_state exec app n w)
  unfolding namespace_migration_state
  namespace_migration_state-Fails n rows w there =
      ground (arith, applied_migrations-Fails n rows w there)

  migration_states-Fails :
      (ns : List Text) (rows : List Row) (w : World S)
      → w.migrations ≡ some rows
      → All (λ n. n ≢ []) ns
      → Fails w (migration_states exec app ns w)
  unfolding migration_states
  migration_states-Fails [] rows w there full = ground arith
  migration_states-Fails (n ∷ ns) rows w there full =
      let w1 = (namespace_migration_state exec app n w).1 in
      ground (
        arith,
        namespace_migration_state_lem exec app n rows w there full.0,
        namespace_migration_state-Fails n rows w there,
        migration_states-Fails ns rows w1,
      )

  -- The namespaces with migrations, each once: those of the plugins, in the order of the plugins, and
  -- then the others in ascending order.
  abbrev pub InOrder : List Text → List Text → Type 0
  InOrder firsts rest =
      Owning (occurs app.migrations) app.plugins firsts
      × IsSorted text_leb rest
      × IsUnique (firsts ++ rest)
      × ((k : Text) → contains (firsts ++ rest) k ≡ occurs app.migrations k)

  InOrder-ordered :
      IsUnique app.plugins
      → let registered = namespaces app.migrations in
        let firsts = registered_plugins registered app.plugins in
        InOrder firsts (others firsts registered)
  unfolding ordered_namespaces
  InOrder-ordered u =
      let registered = namespaces app.migrations in
      let firsts = registered_plugins registered app.plugins in
      let (sorted, once, all) = namespaces_lem app.migrations in
      let (single, exact) = ordered_namespaces_lem app.plugins registered u once in
      (
        registered_plugins-Owning (occurs app.migrations) registered app.plugins all,
        others-IsSorted firsts registered sorted,
        single,
        λ k. exact k ∙ all k,
      )

  -- What MigrationState leaves once Setup is done: the states with the table and the schema, or with
  -- an error those alone, the table at most created.
  abbrev pub Reports : List Row → World S → Result (List NamespaceMigrationState) × World S → Type 0
  Reports rows w (ok states, w') =
      (firsts : List Text) × ((rest : List Text) × InOrder firsts rest
        × Lists rows (firsts ++ rest) states)
      × Leaves (some rows) w.schema w w'
  Reports rows w (err e, w') = Same w w' ⊎ Leaves (some rows) w.schema w w'

  Reads-Reports :
      (firsts rest : List Text) (rows : List Row) (w w1 : World S)
      (r : Result (List NamespaceMigrationState) × World S)
      → InOrder firsts rest
      → Leaves (some rows) w.schema w w1
      → Reads rows (firsts ++ rest) w1 r
      → Reports rows w r
  Reads-Reports firsts rest rows w w1 (ok states, w') order made (told, same) =
      (firsts, (rest, order, told), ground arith)
  Reads-Reports firsts rest rows w w1 (err e, w') order made same = inr (ground arith)

  -- Creating the table, and then reading the states of the namespaces.
  ensured-Reports :
      (firsts rest : List Text) (w : World S)
      → InOrder firsts rest
      → All (λ n. n ≢ []) (firsts ++ rest)
      → (r : Result (Unit {0}) × World S) → Changes (some (or_fresh w.migrations)) w.schema w r
      → Fails w r
      → let out =
          and_then
            (relabel ensure_table r.0)
            (λ _. migration_states exec app (firsts ++ rest))
            r.1 in
        Fails w out × Reports (or_fresh w.migrations) w out
  ensured-Reports firsts rest w order full (ok x, w1) made fails =
      let ns = firsts ++ rest in
      let rows = or_fresh w.migrations in
      (
        ground (arith, fails, migration_states-Fails ns rows w1 made.rows_are full),
        Reads-Reports firsts rest rows w w1 (migration_states exec app ns w1) order made
            (migration_states_lem ns rows w1 made.rows_are full),
      )
  ensured-Reports firsts rest w order full (err e, w1) same fails = (fails, inl same)

  migration_state-set_up :
      (w : World S)
      → IsUnique app.plugins
      → occurs app.migrations [] ≡ false
      → app.did_setup ≡ true
      → Fails w (migration_state exec app w)
        × Reports (or_fresh w.migrations) w (migration_state exec app w)
  unfolding migration_state ordered_namespaces
  migration_state-set_up w u full set_up =
      let registered = namespaces app.migrations in
      let firsts = registered_plugins registered app.plugins in
      let rest = others firsts registered in
      let order = InOrder-ordered u in
      rw set_up (
        ensured-Reports firsts rest w order (All-full (firsts ++ rest) (order.3 [] ∙ full))
          (ensure_table_call migrations_table w) (ensure_lem w) (ensure_table-Fails w))

  -- Where no plugin stands twice and no migration is registered under the empty namespace: before
  -- Setup MigrationState reports that and changes nothing. After it, it creates the table where there
  -- is none, and where no call of the database fails it gives one state for each namespace with
  -- migrations, first the plugins' in their order and then, ascending, the others. A state has the
  -- registered migrations in name order, each marked as applied exactly where the table has a record
  -- of it, and then with the time of a record, the number of the others as Pending, and as Current the
  -- last applied one in name order. In every case the schema and the records stay as they were.
  pub migration_state_lem :
      (w : World S)
      → IsUnique app.plugins
      → occurs app.migrations [] ≡ false
      → (app.did_setup ≡ false) × (migration_state exec app w ≡ (err not_setup, w))
        ⊎ (app.did_setup ≡ true)
          × Fails w (migration_state exec app w)
          × Reports (or_fresh w.migrations) w (migration_state exec app w)
  unfolding migration_state
  migration_state_lem w u full = elim (Bool-cases app.did_setup) [
    | inl set_up ↦
        let (fails, told) = migration_state-set_up w u full set_up in inr (set_up, fails, told)
    | inr early ↦ inl (early, rw early refl)
  ]
