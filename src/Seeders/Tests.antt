-- ===== src/Seeders/Tests.antt =====
-- Two seeders, of which one fails, over a schema that counts the runs.
use go_hypercube.Common.{
  contains, IsUnique, text_eq, Text, ℕ, ◌+◌, ◌≡◌, refl, true, false, none, some, List, [], ◌∷◌,
  text_beq,
}
use go_hypercube.Namespaced.{Namespaced, new_namespaced, get}
use go_hypercube.Database.{
  Row, World, ok, call, call_from, read, has_row, delete_row, mark, unmark, is_recorded,
  ensure_table_call,
}
use go_hypercube.Seeders.{Seeder, name, run_seeder, run_found}
use go_hypercube.Seeders.All.{Seeds, seed_all_lem}

abbrev counting : Seeder ℕ
counting = record { seeder_name = b'a' ∷ []; run = λ n. (none, n + 1) }

abbrev failing : Seeder ℕ
failing = record { seeder_name = b'b' ∷ []; run = λ n. (some [], n + 1) }

abbrev two_seeders : List (Namespaced (Seeder ℕ))
two_seeders = new_namespaced [] counting ∷ new_namespaced [] failing ∷ []

abbrev old_run : Row
old_run = record { namespace = []; name = b'a' ∷ []; stamp = 10 }

abbrev seeded : World ℕ
seeded = record {
  migrations = none;
  seeders = some (old_run ∷ []);
  schema = 1;
  clock = 30;
  faults = [];
}

program : Unit {0}
unfolding run_seeder run_found get new_namespaced text_beq call call_from read has_row delete_row
    mark unmark is_recorded ensure_table_call
program = tt

forced_run :
    (run_seeder [] two_seeders true true [] (b'a' ∷ []) seeded).1
    ≡ record seeded { seeders = some (record old_run { stamp = 30 } ∷ []); schema = 2 }
unfolding program
forced_run = refl

skipped_run : run_seeder [] two_seeders true false [] (b'a' ∷ []) seeded ≡ (ok tt, seeded)
unfolding program
skipped_run = refl

abbrev one_plugin : List Text
one_plugin = (b'p' ∷ []) ∷ []

one_plugin-IsUnique : IsUnique one_plugin
unfolding contains
one_plugin-IsUnique = (refl, tt)

seed_all_lem_example : Seeds one_plugin two_seeders true false seeded
seed_all_lem_example = seed_all_lem one_plugin two_seeders true false seeded one_plugin-IsUnique
