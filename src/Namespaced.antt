-- ===== src/Namespaced.antt =====
-- namespaced/namespaced.go: items under namespaces, how they are found, grouped and sorted.
mod Tests
pub mod Groups
pub mod Sorted
use go_hypercube.Common.{
  Bool, true, false, Option, none, some, List, [], ◌∷◌, ◌++◌, ◌&&◌, map, ◌==◌, if◌then◌else◌, Text,
  text_eq, text_beq, contains, lookup, insert, text_leb, sort,
}

-- Namespaced[T]
pub record Namespaced (T : Type 0) : Type 0 where
  pub namespace : Text
  pub item : T

-- NewNamespaced, of this package and of cmd, migration, seeder and job.
unfoldable pub new_namespaced : {T : Type 0} → Text → T → Namespaced T
new_namespaced namespace item = record { namespace = namespace; item = item }

module _ {T : Type 0} where
  abbrev pub is_some : Option T → Bool
  is_some none = false
  is_some (some x) = true

  -- The items of one namespace, in the order of the slice.
  unfoldable pub items_of : Text → List (Namespaced T) → List T
  items_of namespace [] = []
  items_of namespace (n ∷ s) =
      if n.namespace == namespace then n.item ∷ items_of namespace s else items_of namespace s

  abbrev pub or_empty : Option (List T) → List T
  or_empty none = []
  or_empty (some l) = l

  -- The first loop of GroupByNamespace.
  unfoldable pub gather : List (Namespaced T) → List (Text × List T) → List (Text × List T)
  gather [] groups = groups
  gather (n ∷ s) groups =
      gather s (insert n.namespace (or_empty (lookup n.namespace groups) ++ n.item ∷ []) groups)

  -- The loop of Namespaces: `result` holds the keys of `seen`.
  unfoldable pub unique_namespaces : List (Namespaced T) → List Text → List Text
  unique_namespaces [] result = result
  unique_namespaces (n ∷ s) result =
      unique_namespaces s
        (if contains result n.namespace then result else result ++ n.namespace ∷ [])

  -- Namespaces
  unfoldable pub namespaces : List (Namespaced T) → List Text
  namespaces s = sort text_leb (unique_namespaces s [])

  -- The loop of GetNamespaces.
  unfoldable pub within : List Text → List (Namespaced T) → List (Namespaced T)
  within wanted [] = []
  within wanted (n ∷ s) =
      if contains wanted n.namespace then n ∷ within wanted s else within wanted s

-- The interface Identifiable is the parameter `name_of`.
module _ {T : Type 0} (name_of : T → Text) where
  abbrev pub is_at : Text → Text → Namespaced T → Bool
  is_at namespace name n = n.namespace == namespace && name_of n.item == name

  -- Get
  unfoldable pub get : Text → Text → List (Namespaced T) → Option T
  get namespace name [] = none
  get namespace name (n ∷ s) = if is_at namespace name n then some n.item else get namespace name s

  -- Contains
  unfoldable pub contains_item : Text → Text → List (Namespaced T) → Bool
  contains_item namespace name s = is_some (get namespace name s)

  -- `strings.Compare(a.Name(), b.Name()) <= 0`
  abbrev pub name_leb : T → T → Bool
  name_leb a b = text_leb (name_of a) (name_of b)

  -- GetNamespace
  unfoldable pub get_namespace : Text → List (Namespaced T) → List T
  get_namespace namespace s = sort name_leb (items_of namespace s)

  -- The second loop of GroupByNamespace.
  unfoldable pub sort_groups : List (Text × List T) → List (Text × List T)
  sort_groups [] = []
  sort_groups ((namespace, items) ∷ groups) = (namespace, sort name_leb items) ∷ sort_groups groups

  -- GroupByNamespace
  unfoldable pub group_by_namespace : List (Namespaced T) → List (Text × List T)
  group_by_namespace s = sort_groups (gather s [])

  -- `(Namespace, Name)` ascending, as Sort and GetNamespaces compare.
  unfoldable pub namespaced_leb : Namespaced T → Namespaced T → Bool
  namespaced_leb a b =
      if a.namespace == b.namespace
      then name_leb a.item b.item
      else text_leb a.namespace b.namespace

  -- Sort
  unfoldable pub sort_namespaced : List (Namespaced T) → List (Namespaced T)
  sort_namespaced = sort namespaced_leb

  -- GetNamespaces
  unfoldable pub get_namespaces : List Text → List (Namespaced T) → List (Namespaced T)
  get_namespaces [] s = []
  get_namespaces (w ∷ wanted) s = sort namespaced_leb (within (w ∷ wanted) s)
