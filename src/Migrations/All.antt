-- ===== src/Migrations/All.antt =====
-- MigrateAllUp and MigrateAllDown of app/migration.go: which namespaces they visit, in which order.
use go_hypercube.Common.{
  ◌≡◌, ◌⊎◌, ◌∷◌, ap, ◌∙◌, refl, not, true, false, Option, List, [], ◌++◌, ◌&&◌, reverse, Text,
  text_eq, text_leb, contains, IsUnique, IsSorted, arith, Bool-cases, inl, inr,
}
use go_hypercube.Namespaced.{namespaces}
use go_hypercube.Namespaced.Sorted.{occurs, namespaces_lem}
use go_hypercube.Database.{World, Result, ok, err, not_setup}
use go_hypercube.Runner.Order.{each_namespace-append, contains-others, visited_lem}
use go_hypercube.Runner.Visits.{Visits, each_namespace-Visits, others-IsSorted}
use go_hypercube.Migrations.{
  App, migrate_namespace_up_to_latest, host_namespaces, run_migrations_down_to, Migration, name,
  ordered, run_migrations_up_to, up_to_latest, migrate_all_up, migrate_all_down,
}

module _ {S : Type 0} (exec : Text → S → Option S) (app : App) where
  -- A namespace without migrations is left alone, and any other is brought up to the last of its
  -- migrations in name order.
  abbrev pub GoesUp : Text → World S → Result (Unit {0}) × World S → Type 0
  GoesUp n w r =
      (ordered exec app n ≡ []) × (r ≡ (ok tt, w))
      ⊎ ((earlier : List Migration) × ((last : Migration) × (ordered exec app n
              ≡ earlier ++ last ∷ [])
            × (r ≡ run_migrations_up_to exec app n (name last) w)))

  -- Every migration of a namespace is reverted.
  abbrev pub GoesDown : Text → World S → Result (Unit {0}) × World S → Type 0
  GoesDown n w r = r ≡ run_migrations_down_to exec app n [] w

  up_to_latest-last :
      (n : Text) (m : Migration) (ms : List Migration)
      → (earlier : List Migration) × ((last : Migration) × (m ∷ ms ≡ earlier ++ last ∷ [])
          × (up_to_latest exec app n (m ∷ ms) ≡ run_migrations_up_to exec app n (name last)))
  up_to_latest-last n m [] = ([], (m, refl, refl))
  up_to_latest-last n m (k ∷ ms) =
      let (earlier, (last, e, runs)) = up_to_latest-last n k ms in
      (m ∷ earlier, (last, ap (λ l. m ∷ l) e, runs))

  migrate_namespace_up_to_latest-GoesUp :
      (n : Text) (w : World S) → GoesUp n w (migrate_namespace_up_to_latest exec app n w)
  unfolding migrate_namespace_up_to_latest
  migrate_namespace_up_to_latest-GoesUp n w = go (ordered exec app n) refl
    where
      go :
          (ms : List Migration)
          → ordered exec app n ≡ ms
          → GoesUp n w (up_to_latest exec app n ms w)
      go [] e = inl (e, refl)
      go (m ∷ ms) e =
          let (earlier, (last, all, runs)) = up_to_latest-last n m ms in
          inr (earlier, (last, e ∙ all, ap (λ f. f w) runs))

  migrate_all_up-Visits :
      (w : World S)
      → app.did_setup ≡ true
      → Visits GoesUp (app.plugins ++ host_namespaces exec app) w (migrate_all_up exec app w)
  unfolding migrate_all_up
  migrate_all_up-Visits w set_up =
      rw
        (
          set_up,
          each_namespace-append (migrate_namespace_up_to_latest exec app) app.plugins
              (host_namespaces exec app) w,
        )
        (each_namespace-Visits GoesUp _ _ w migrate_namespace_up_to_latest-GoesUp)

  migrate_all_down-Visits :
      (w : World S)
      → app.did_setup ≡ true
      → Visits GoesDown
          (host_namespaces exec app ++ reverse app.plugins)
          w
          (migrate_all_down exec app w)
  unfolding migrate_all_down
  migrate_all_down-Visits w set_up =
      rw
        (
          set_up,
          each_namespace-append (λ n. run_migrations_down_to exec app n [])
              (host_namespaces exec app) (reverse app.plugins) w,
        )
        (each_namespace-Visits GoesDown _ _ w (λ n w'. refl))

  -- The namespaces with migrations that are no plugin's, in ascending order and each once.
  abbrev pub Hosts : List Text → Type 0
  Hosts rest =
      IsSorted text_leb rest
      × IsUnique (app.plugins ++ rest)
      × ((k : Text) → contains rest k ≡ (not (contains app.plugins k) && occurs app.migrations k))

  -- What the two commands do before Setup, and after it.
  abbrev pub Walks : World S → Type 0
  Walks w =
      (app.did_setup ≡ false)
        × (migrate_all_up exec app w ≡ (err not_setup, w))
        × (migrate_all_down exec app w ≡ (err not_setup, w))
      ⊎ (app.did_setup ≡ true)
        × ((rest : List Text) × Hosts rest
            × Visits GoesUp (app.plugins ++ rest) w (migrate_all_up exec app w)
            × Visits GoesDown (rest ++ reverse app.plugins) w (migrate_all_down exec app w))

  -- Where no plugin stands twice: before Setup the two commands report that and change nothing. After
  -- it MigrateAllUp runs RunMigrationsUpTo with the last migration of each namespace that has one, the
  -- plugins in their order and then, ascending, the other namespaces with migrations; MigrateAllDown
  -- runs RunMigrationsDownTo without a target, for the others ascending and then for the plugins in
  -- reverse order. Neither visits a namespace twice, and each stops at the first error, which it
  -- returns.
  pub migrate_all_lem : (w : World S) → IsUnique app.plugins → Walks w
  unfolding migrate_all_up migrate_all_down
  migrate_all_lem w u =
      let (sorted, once, all) = namespaces_lem app.migrations in
      let (unique, covers) = visited_lem app.plugins (namespaces app.migrations) u once in
      elim (Bool-cases app.did_setup) [
        | inl set_up ↦ inr (
          set_up,
          (
            host_namespaces exec app,
            (
              others-IsSorted app.plugins (namespaces app.migrations) sorted,
              unique,
              λ k. ground (arith, contains-others app.plugins (namespaces app.migrations) k, all k),
            ),
            migrate_all_up-Visits w set_up,
            migrate_all_down-Visits w set_up,
          ),
        )
        | inr early ↦ inl (early, rw early refl, rw early refl)
      ]
