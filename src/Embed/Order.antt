-- ===== src/Embed/Order.antt =====
-- RegisterMigrationFromFs of app/migration.go: in which order the migrations of the files are run.
use go_hypercube.Common.{
  ℕ, ◌≡◌, refl, ap, ◌∙◌, true, List, [], ◌∷◌, ◌++◌, map, Text, text_leb, sort, text_leb_total,
  text_leb_trans, IsSorted, sort-IsSorted, sort-id, All, subst, sym, arith, text_eq, ==_refl,
}
use go_hypercube.Namespaced.{Namespaced, new_namespaced, items_of, get_namespace, name_leb}
use go_hypercube.Registry.{ok, register_migrations}
use go_hypercube.Registry.Migrations.{register_migrations-appends}
use go_hypercube.Plugins.{host_app_namespace}
use go_hypercube.Migrations.{Migration, name}
use go_hypercube.Embed.{
  EmbedFs, Extracted, extracted, failed, FromFs, from_fs, not_extracted, extract_from_embed_fs,
  register_migration_from_fs,
}
use go_hypercube.Embed.Files.{Holds, ReadAs-names, extract_from_embed_fs_lem}

items_of-append :
    (namespace : Text) (s : List (Namespaced Migration)) (ms : List Migration)
    → items_of namespace (s ++ map (new_namespaced namespace) ms) ≡ items_of namespace s ++ ms
unfolding items_of new_namespaced
items_of-append namespace [] [] = refl
items_of-append namespace [] (m ∷ ms) =
    ground (arith, items_of-append namespace [] ms, ==_refl namespace)
items_of-append namespace (n ∷ s) ms = ground (arith, items_of-append namespace s ms)

All-name :
    (m : Text) (ms : List Migration)
    → All (λ k. text_leb m k ≡ true) (map name ms)
    → All (λ k. text_leb m (name k) ≡ true) ms
All-name m [] h = tt
All-name m (k ∷ ms) h = (h.0, All-name m ms h.1)

IsSorted-name :
    (ms : List Migration) → IsSorted text_leb (map name ms) → IsSorted (name_leb name) ms
IsSorted-name [] h = tt
IsSorted-name (m ∷ ms) h = (All-name (name m) ms h.0, IsSorted-name ms h.1)

get_namespace-new :
    (s s' : List (Namespaced Migration)) (ms : List Migration)
    → items_of host_app_namespace s ≡ []
    → s' ≡ s ++ map (new_namespaced host_app_namespace) ms
    → sort (name_leb name) ms ≡ ms
    → get_namespace name host_app_namespace s' ≡ ms
unfolding get_namespace
get_namespace-new s s' ms free e sorted =
    ap (λ l. sort (name_leb name) (items_of host_app_namespace l)) e
    ∙ ap (sort (name_leb name)) (items_of-append host_app_namespace s ms ∙ ap (λ l. l ++ ms) free)
    ∙ sorted

module _ (lower : ℕ → ℕ) (files : EmbedFs) where
  Holds-IsSorted : (ms : List Migration) → Holds lower files ms → sort (name_leb name) ms ≡ ms
  Holds-IsSorted ms (entries, r, (names, files_are, h)) = sort-id (name_leb name) ms (
      IsSorted-name ms (
        subst (IsSorted text_leb) (sym (ReadAs-names lower files (sort text_leb (names)) ms h))
          (sort-IsSorted text_leb text_leb_total text_leb_trans (names))))

  -- When the host has no migration yet, and the files of a file system are registered, the host's
  -- migrations are what its *.sql files read as, and they are run in the order of the file names.
  pub register_migration_from_fs-order :
      (s s' : List (Namespaced Migration))
      → items_of host_app_namespace s ≡ []
      → register_migration_from_fs lower files s ≡ from_fs (ok s')
      → Holds lower files (get_namespace name host_app_namespace s')
  unfolding register_migration_from_fs
  register_migration_from_fs-order s s' free h = go (extract_from_embed_fs lower files) refl h
    where
      go :
          (x : Extracted)
          → extract_from_embed_fs lower files ≡ x
          → (elim x as (λ _. FromFs) [
            | failed e ↦ not_extracted e
            | extracted ms ↦ from_fs (register_migrations name host_app_namespace ms s)
          ])
            ≡ from_fs (ok s')
          → Holds lower files (get_namespace name host_app_namespace s')
      go (failed e) r q = absurd (cc (q))
      go (extracted ms) r q =
          let held = (extract_from_embed_fs_lem lower files ms).0 r in
          subst (Holds lower files)
            (sym (
              get_namespace-new s s' ms free
                (register_migrations-appends name host_app_namespace s ms s' (cc (q)))
                (Holds-IsSorted ms held)))
            held
