-- ===== src/Namespaced/Tests.antt =====
-- Three items under two namespaces.
use go_hypercube.Common.{
  ◌≡◌, refl, List, [], ◌∷◌, map, Text, text_eq, text_beq, contains, lookup, IsSorted, IsUnique,
  text_leb, sort, insert_sorted,
}
use mathlib.Core.List.{Perm}
use go_hypercube.Namespaced.{
  Namespaced, new_namespaced, items_of, get_namespace, group_by_namespace, contains_item,
  namespaces, unique_namespaces, get_namespaces,
}
use go_hypercube.Namespaced.Groups.{entry, lookup-group_by_namespace, contains-get_namespace}
use go_hypercube.Namespaced.Sorted.{occurs, namespaces_lem, Chosen, Ascends, get_namespaces_lem}

abbrev own_name : Text → Text
own_name t = t

abbrev three_items : List (Namespaced Text)
three_items =
    new_namespaced (b'y' ∷ []) (b'2' ∷ [])
    ∷ new_namespaced (b'x' ∷ []) (b'3' ∷ [])
    ∷ new_namespaced (b'y' ∷ []) (b'1' ∷ [])
    ∷ []

two_namespaces : namespaces three_items ≡ (b'x' ∷ []) ∷ (b'y' ∷ []) ∷ []
unfolding namespaces unique_namespaces new_namespaced contains sort insert_sorted text_leb text_beq
two_namespaces = refl

lookup-group_by_namespace_example :
    lookup (b'y' ∷ []) (group_by_namespace own_name three_items)
    ≡ entry own_name
        (items_of (b'y' ∷ []) three_items)
        (get_namespace own_name (b'y' ∷ []) three_items)
lookup-group_by_namespace_example = lookup-group_by_namespace own_name (b'y' ∷ []) three_items

contains-get_namespace_example :
    contains (map own_name (get_namespace own_name (b'y' ∷ []) three_items)) (b'1' ∷ [])
    ≡ contains_item own_name (b'y' ∷ []) (b'1' ∷ []) three_items
contains-get_namespace_example = contains-get_namespace own_name (b'y' ∷ []) (b'1' ∷ []) three_items

namespaces_lem_example :
    IsSorted text_leb (namespaces three_items)
    × IsUnique (namespaces three_items)
    × ((k : Text) → contains (namespaces three_items) k ≡ occurs three_items k)
namespaces_lem_example = namespaces_lem three_items

get_namespaces_lem_example :
    (chosen : List (Namespaced Text)) × Chosen own_name ((b'y' ∷ []) ∷ []) three_items chosen
    × Perm (get_namespaces own_name ((b'y' ∷ []) ∷ []) three_items) chosen
    × Ascends own_name (get_namespaces own_name ((b'y' ∷ []) ∷ []) three_items)
get_namespaces_lem_example = get_namespaces_lem own_name ((b'y' ∷ []) ∷ []) three_items
