-- ===== src/Seeders.antt =====
-- The seeder commands of app/seeder.go over their tracking table and the registry. What a seeder's
-- Run does to the schema is a parameter.
mod Tests
pub mod Run
pub mod Status
pub mod All
use go_hypercube.Common.{
  ℕ, suc, Bool, true, false, Option, none, some, List, [], ◌∷◌, if◌then◌else◌, Text, text_eq,
  lookup, insert,
}
use go_hypercube.Namespaced.{Namespaced, get, get_namespace, namespaces}
use go_hypercube.Database.{
  Row, World, not_setup, ensure_table, read_state, not_found, check_state, record_failed,
  run_failed, clear_failed, Result, ok, err, M, ◌>>=◌, ◌>>◌, and_then, pure, throw, wrap, relabel,
  call, read, seeders_table, ensure_table_call, is_recorded, mark, unmark, rows_of,
}
use go_hypercube.Runner.{each_namespace, others, ordered_namespaces}

-- seeder.Seeder: Name, and what Run does to the schema and whether it returns an error. What a
-- failing run has done stays done.
pub record Seeder (S : Type 0) : Type 0 where
  pub seeder_name : Text
  pub run : S → Option Text × S

abbrev pub name : {S : Type 0} → Seeder S → Text
name s = s.seeder_name

-- SeederStatus; HasRun says that RanAt is not nil.
pub record SeederStatus : Type 0 where
  pub namespace : Text
  pub status_name : Text
  pub ran_at : Option ℕ

-- NamespaceSeederState
pub record NamespaceSeederState : Type 0 where
  pub namespace : Text
  pub pending : ℕ
  pub statuses : List SeederStatus

-- The map of seederRunTimes, from the rows that the query returns.
unfoldable pub run_times : List Row → List (Text × ℕ) → List (Text × ℕ)
run_times [] m = m
run_times (r ∷ rows) m = run_times rows (insert r.name r.stamp m)

abbrev pub count_pending : Option ℕ → ℕ → ℕ
count_pending none n = suc n
count_pending (some t) n = n

abbrev pub run_result : Text → Option Text → Result (Unit {0})
run_result n none = ok tt
run_result n (some e) = err (run_failed n)

abbrev pub state_of : Text → ℕ × List SeederStatus → NamespaceSeederState
state_of namespace (pending, statuses) = record {
  namespace = namespace;
  pending = pending;
  statuses = statuses;
}

module _ {S : Type 0} where
  -- `s.Run(...)`
  abbrev pub run_body : Seeder S → M S (Unit {0})
  run_body s w = (run_result (name s) (s.run w.schema).0, record w { schema = (s.run w.schema).1 })

  -- What follows a run without error.
  abbrev pub record_run : Bool → Text → Text → M S (Unit {0})
  record_run true namespace n = do
    wrap (clear_failed n) (unmark seeders_table namespace n)
    wrap (record_failed n) (mark seeders_table namespace n)
  record_run false namespace n = wrap (record_failed n) (mark seeders_table namespace n)

  abbrev pub run_unless : Bool → Bool → Text → Seeder S → M S (Unit {0})
  run_unless true force namespace s = pure tt
  run_unless false force namespace s = run_body s >> record_run force namespace (name s)

  unfoldable pub run_found : Bool → Text → Seeder S → M S (Unit {0})
  run_found true namespace s = run_unless false true namespace s
  run_found false namespace s = do
    ran ← wrap (check_state (name s)) (is_recorded seeders_table namespace (name s))
    run_unless ran false namespace s

  -- seederRunTimes
  unfoldable pub seeder_run_times : Text → M S (List (Text × ℕ))
  unfolding call read run_times
  seeder_run_times namespace = do
    call
    rows ← read seeders_table
    pure (run_times (rows_of namespace rows) [])

  -- The loop of namespaceSeederState.
  unfoldable pub statuses_of : Text → List (Text × ℕ) → List (Seeder S) → ℕ × List SeederStatus
  statuses_of namespace times [] = (0, [])
  statuses_of namespace times (s ∷ ss) =
      let (pending, statuses) = statuses_of namespace times ss in
      let ran_at = lookup (name s) times in
      (
        count_pending ran_at pending,
        record { namespace = namespace; status_name = name s; ran_at = ran_at } ∷ statuses,
      )

  module _ (plugins : List Text) (seeders : List (Namespaced (Seeder S))) (did_setup : Bool) where
    abbrev pub find_and_run : Bool → Text → Text → Option (Seeder S) → M S (Unit {0})
    find_and_run force namespace n none = throw (not_found n)
    find_and_run force namespace n (some s) = run_found force namespace s

    -- RunSeeder
    unfoldable pub run_seeder : Bool → Text → Text → M S (Unit {0})
    unfolding run_found
    run_seeder force namespace n = do
      wrap ensure_table (ensure_table_call seeders_table)
      find_and_run force namespace n (get name namespace n seeders)

    -- The loop of RunSeedersForNamespace.
    unfoldable pub run_list : Bool → Text → List (Seeder S) → M S (Unit {0})
    unfolding run_seeder
    run_list force namespace [] = pure tt
    run_list force namespace (s ∷ ss) =
        run_seeder force namespace (name s) >> run_list force namespace ss

    -- RunSeedersForNamespace
    unfoldable pub run_seeders_for_namespace : Bool → Text → M S (Unit {0})
    unfolding run_list
    run_seeders_for_namespace force namespace =
        run_list force namespace (get_namespace name namespace seeders)

    -- SeedAll
    unfoldable pub seed_all : Bool → M S (Unit {0})
    unfolding run_seeders_for_namespace
    seed_all force =
        if did_setup
        then (each_namespace (run_seeders_for_namespace force) plugins
            >> each_namespace (run_seeders_for_namespace force)
                (others plugins (namespaces seeders)))
        else throw not_setup

    -- namespaceSeederState
    unfoldable pub namespace_seeder_state : Text → M S NamespaceSeederState
    unfolding seeder_run_times statuses_of
    namespace_seeder_state namespace = do
      times ← seeder_run_times namespace
      pure (state_of namespace (statuses_of namespace times (get_namespace name namespace seeders)))

    unfoldable pub states_of : List Text → M S (List NamespaceSeederState)
    unfolding namespace_seeder_state
    states_of [] = pure []
    states_of (n ∷ ns) = do
      state ← wrap read_state (namespace_seeder_state n)
      states ← states_of ns
      pure (state ∷ states)

    -- SeederState
    unfoldable pub seeder_state : M S (List NamespaceSeederState)
    unfolding states_of
    seeder_state = do
      wrap ensure_table (ensure_table_call seeders_table)
      states_of (ordered_namespaces plugins (namespaces seeders))
