-- ===== src/Registry.antt =====
-- How the app registers commands, seeders, jobs and migrations: registerCommandForNamespace of
-- app/cmd.go, registerSeederForNamespace of app/seeder.go, registerJobForNamespace of app/queue.go
-- and registerMigrationForNamespace of app/migration.go.
mod Tests
pub mod Keys
pub mod Jobs
pub mod Migrations
use go_hypercube.Common.{
  Bool, true, false, Option, none, some, List, [], ◌∷◌, ◌++◌, map, ◌==◌, if◌then◌else◌, Text,
  text_eq, contains,
}
use go_hypercube.Namespaced.{Namespaced, new_namespaced, is_at, contains_item}

module _ {T : Type 0} (name_of : T → Text) where
  -- The inner loop: the first entry with the new item's key is replaced, and the loop breaks. The
  -- flag is `replaced`.
  unfoldable pub replace_first : Namespaced T → List (Namespaced T) → List (Namespaced T) × Bool
  replace_first new [] = ([], false)
  replace_first new (n ∷ s) =
      let (rest, replaced) = replace_first new s in
      if is_at name_of new.namespace (name_of new.item) n
      then (new ∷ s, true)
      else (n ∷ rest, replaced)

  -- One round of the outer loop.
  unfoldable pub register_one : Text → T → List (Namespaced T) → List (Namespaced T)
  register_one namespace item s =
      let (s', replaced) = replace_first (new_namespaced namespace item) s in
      if replaced then s' else s' ++ new_namespaced namespace item ∷ []

  -- registerCommandForNamespace and registerSeederForNamespace, and the second loop of
  -- registerJobForNamespace.
  unfoldable pub register_all : Text → List T → List (Namespaced T) → List (Namespaced T)
  register_all namespace [] s = s
  register_all namespace (x ∷ xs) s = register_all namespace xs (register_one namespace x s)

-- The errors that a registration returns.
pub data RegisterError : Type 0 where
  nil_job empty_name : RegisterError
  already_registered appears_twice : Text → RegisterError

pub data Registered (T : Type 0) : Type 0 where
  ok : List (Namespaced T) → Registered T
  err : RegisterError → Registered T

module _ {J : Type 0} (name_of : J → Text) where
  -- The first loop of registerJobForNamespace; none is a nil job.
  unfoldable pub validate_jobs : List (Option J) → Option RegisterError
  validate_jobs [] = none
  validate_jobs (none ∷ js) = some nil_job
  validate_jobs (some j ∷ js) = if name_of j == [] then some empty_name else validate_jobs js

  abbrev pub present : List (Option J) → List J
  present [] = []
  present (none ∷ js) = present js
  present (some j ∷ js) = j ∷ present js

  -- registerJobForNamespace
  unfoldable pub register_jobs : Text → List (Option J) → List (Namespaced J) → Registered J
  register_jobs namespace js s = elim (validate_jobs js) [
    | some e ↦ err e
    | none ↦ ok (register_all name_of namespace (present js) s)
  ]

module _ {M : Type 0} (name_of : M → Text) where
  -- The first loop of registerMigrationForNamespace, with the keys of seenInBatch.
  unfoldable pub check_batch :
      Text → List (Namespaced M) → List Text → List M → Option RegisterError
  check_batch namespace s seen [] = none
  check_batch namespace s seen (m ∷ ms) =
      if contains_item name_of namespace (name_of m) s
      then some (already_registered (name_of m))
      else if contains seen (name_of m)
      then some (appears_twice (name_of m))
      else check_batch namespace s (name_of m ∷ seen) ms

  -- registerMigrationForNamespace
  unfoldable pub register_migrations : Text → List M → List (Namespaced M) → Registered M
  register_migrations namespace ms s = elim (check_batch namespace s [] ms) [
    | some e ↦ err e
    | none ↦ ok (s ++ map (new_namespaced namespace) ms)
  ]
