-- ===== src/Seeders/All.antt =====
-- SeedAll of app/seeder.go: which namespaces it visits, in which order.
use go_hypercube.Common.{
  ◌≡◌, ◌⊎◌, refl, not, Bool, true, false, List, [], ◌∷◌, ◌++◌, ◌&&◌, Text, text_eq, text_leb,
  contains, IsUnique, IsSorted, arith, Bool-cases, inl, inr,
}
use go_hypercube.Namespaced.{Namespaced, namespaces, get_namespace}
use go_hypercube.Namespaced.Sorted.{occurs, namespaces_lem}
use go_hypercube.Database.{World, Result, err, not_setup}
use go_hypercube.Runner.{others}
use go_hypercube.Runner.Order.{each_namespace-append, contains-others, visited_lem}
use go_hypercube.Runner.Visits.{
  Visits, all_done, Visits-and_then, each_namespace-Visits, others-IsSorted,
}
use go_hypercube.Seeders.{Seeder, name, run_seeder, run_list, run_seeders_for_namespace, seed_all}

module _ {S : Type 0} (plugins : List Text) (seeders : List (Namespaced (Seeder S)))
    (did_setup : Bool) where
  -- The seeders of a namespace run in name order, each as RunSeeder runs it, up to the first error.
  abbrev pub RunsSeeders : Bool → Text → World S → Result (Unit {0}) × World S → Type 0
  RunsSeeders force n =
      Visits (λ (s : Seeder S) w r. r ≡ run_seeder plugins seeders did_setup force n (name s) w)
        (get_namespace name n seeders)

  run_list-Visits :
      (force : Bool) (n : Text) (ss : List (Seeder S)) (w : World S)
      → Visits
          (λ (s : Seeder S) w' r. r ≡ run_seeder plugins seeders did_setup force n (name s) w')
          ss
          w
          (run_list plugins seeders did_setup force n ss w)
  unfolding run_list
  run_list-Visits force n [] w = all_done w
  run_list-Visits force n (s ∷ ss) w =
      Visits-and_then _ s ss w (run_list plugins seeders did_setup force n ss)
        (run_seeder plugins seeders did_setup force n (name s) w) refl
        (λ w'. run_list-Visits force n ss w')

  run_seeders_for_namespace-RunsSeeders :
      (force : Bool) (n : Text) (w : World S)
      → RunsSeeders force n w (run_seeders_for_namespace plugins seeders did_setup force n w)
  unfolding run_seeders_for_namespace
  run_seeders_for_namespace-RunsSeeders force n w =
      run_list-Visits force n (get_namespace name n seeders) w

  seed_all-Visits :
      (force : Bool) (w : World S)
      → did_setup ≡ true
      → Visits
          (RunsSeeders force)
          (plugins ++ others plugins (namespaces seeders))
          w
          (seed_all plugins seeders did_setup force w)
  unfolding seed_all
  seed_all-Visits force w set_up =
      rw
        (
          set_up,
          each_namespace-append (run_seeders_for_namespace plugins seeders true force) plugins
              (others plugins (namespaces seeders)) w,
        )
        (each_namespace-Visits (RunsSeeders force) _ _ w
          (run_seeders_for_namespace-RunsSeeders force))

  -- What SeedAll does before Setup, and after it: the other namespaces are the ones with seeders that
  -- are no plugin's, in ascending order.
  abbrev pub Seeds : Bool → World S → Type 0
  Seeds force w =
      (did_setup ≡ false) × (seed_all plugins seeders did_setup force w ≡ (err not_setup, w))
      ⊎ (did_setup ≡ true)
        × ((rest : List Text) × IsSorted text_leb rest
            × IsUnique (plugins ++ rest)
            × ((k : Text) → contains rest k ≡ (not (contains plugins k) && occurs seeders k))
            × Visits (RunsSeeders force) (plugins ++ rest) w
                (seed_all plugins seeders did_setup force w))

  -- Where no plugin stands twice: before Setup SeedAll reports that and changes nothing; after it
  -- SeedAll visits the plugins in their order and then, ascending, the other namespaces with seeders,
  -- none twice. In each it runs RunSeeder for the seeders in name order, and it stops at the first
  -- error, which it returns.
  pub seed_all_lem : (force : Bool) (w : World S) → IsUnique plugins → Seeds force w
  unfolding seed_all
  seed_all_lem force w u =
      let (sorted, once, all) = namespaces_lem seeders in
      let (unique, covers) = visited_lem plugins (namespaces seeders) u once in
      elim (Bool-cases did_setup) [
        | inl set_up ↦ inr (
          set_up,
          (
            others plugins (namespaces seeders),
            others-IsSorted plugins (namespaces seeders) sorted,
            unique,
            λ k. ground (arith, contains-others plugins (namespaces seeders) k, all k),
            seed_all-Visits force w set_up,
          ),
        )
        | inr early ↦ inl (early, rw early refl)
      ]
