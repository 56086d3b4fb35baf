-- ===== src/Registry/Tests.antt =====
-- Registrations of two items with the same key.
use go_hypercube.Common.{◌≡◌, refl, some, List, [], ◌∷◌, ◌++◌, map, Text, text_beq, All}
use go_hypercube.Namespaced.{Namespaced, new_namespaced, get, contains_item}
use go_hypercube.Registry.{
  ok, register_all, register_jobs, register_migrations, replace_first, register_one, present,
}
use go_hypercube.Registry.Keys.{IsKeyed, newest, or_else, register_all_lem}
use go_hypercube.Registry.Jobs.{IsNamed, register_jobs_lem}
use go_hypercube.Registry.Migrations.{register_migrations_lem}

-- An item is its name and a version.
abbrev Item : Type 0
Item = Text × Text

abbrev name_of : Item → Text
name_of i = i.0

abbrev owner : Text
owner = b'o' ∷ []

abbrev old_item : Item
old_item = (b'a' ∷ [], b'1' ∷ [])

abbrev new_item : Item
new_item = (b'a' ∷ [], b'2' ∷ [])

abbrev other_item : Item
other_item = (b'b' ∷ [], [])

abbrev registered : List (Namespaced Item)
registered = new_namespaced owner old_item ∷ []

registered-IsKeyed : IsKeyed name_of registered
unfolding contains_item get
registered-IsKeyed = (refl, tt)

new_item_replaces :
    register_all name_of owner (new_item ∷ other_item ∷ []) registered
    ≡ new_namespaced owner new_item ∷ new_namespaced owner other_item ∷ []
unfolding register_all register_one replace_first text_beq new_namespaced
new_item_replaces = refl

register_all_lem_example :
    IsKeyed name_of (register_all name_of owner (new_item ∷ other_item ∷ []) registered)
    × ((j k : Text)
        → get name_of j k (register_all name_of owner (new_item ∷ other_item ∷ []) registered)
          ≡ or_else name_of
              (newest name_of owner (new_item ∷ other_item ∷ []) j k)
              (get name_of j k registered))
register_all_lem_example =
    register_all_lem name_of owner (new_item ∷ other_item ∷ []) registered registered-IsKeyed

register_jobs_lem_example :
    (All (IsNamed name_of) (some new_item ∷ [])
      → register_jobs name_of owner (some new_item ∷ []) registered
        ≡ ok (register_all name_of owner (present name_of (some new_item ∷ [])) registered))
    × ((s' : List (Namespaced Item))
        → register_jobs name_of owner (some new_item ∷ []) registered ≡ ok s'
        → All (IsNamed name_of) (some new_item ∷ []) × IsKeyed name_of s')
register_jobs_lem_example =
    register_jobs_lem name_of owner (some new_item ∷ []) registered registered-IsKeyed

register_migrations_lem_example :
    (IsKeyed name_of (registered ++ map (new_namespaced owner) (other_item ∷ []))
      → register_migrations name_of owner (other_item ∷ []) registered
        ≡ ok (registered ++ map (new_namespaced owner) (other_item ∷ [])))
    × ((s' : List (Namespaced Item))
        → register_migrations name_of owner (other_item ∷ []) registered ≡ ok s'
        → (s' ≡ registered ++ map (new_namespaced owner) (other_item ∷ []))
          × IsKeyed name_of (registered ++ map (new_namespaced owner) (other_item ∷ [])))
register_migrations_lem_example =
    register_migrations_lem name_of owner registered (other_item ∷ []) registered-IsKeyed
