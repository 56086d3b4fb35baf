-- ===== src/Namespaced/Groups.antt =====
-- Get, Contains and GroupByNamespace of namespaced/namespaced.go against GetNamespace.
use go_hypercube.Common.{
  ◌≡◌, refl, ◌∙◌, Bool, Option, none, some, List, [], ◌∷◌, ◌++◌, ◌||◌, ◌==◌, ==_iff, Text, text_eq,
  contains, lookup, insert, lookup-insert, sort, insert_sorted, arith, append_assoc, append-nil, ap,
  sym, map,
}
use go_hypercube.Namespaced.{
  Namespaced, get, contains_item, items_of, name_leb, get_namespace, or_empty, gather, sort_groups,
  group_by_namespace,
}

module _ {T : Type 0} where
  abbrev appended : Option (List T) → List T → Option (List T)
  appended none [] = none
  appended none (x ∷ xs) = some (x ∷ xs)
  appended (some l) xs = some (l ++ xs)

  appended_snoc :
      (o : Option (List T)) (x : T) (xs : List T)
      → appended (some (or_empty o ++ x ∷ [])) xs ≡ appended o (x ∷ xs)
  appended_snoc none x xs = refl
  appended_snoc (some l) x xs = ap some (append_assoc l (x ∷ []) xs)

  appended-nil : (o : Option (List T)) → appended o [] ≡ o
  appended-nil none = refl
  appended-nil (some l) = ap some (append-nil l)

  lookup-gather :
      (k : Text) (s : List (Namespaced T)) (groups : List (Text × List T))
      → lookup k (gather s groups) ≡ appended (lookup k groups) (items_of k s)
  unfolding gather items_of
  lookup-gather k [] groups = sym (appended-nil (lookup k groups))
  lookup-gather k (n ∷ s) groups =
      let grown = or_empty (lookup n.namespace groups) ++ n.item ∷ [] in
      lookup-gather k s (insert n.namespace grown groups)
      ∙ ground (
        arith,
        lookup-insert n.namespace grown groups k,
        ==_iff n.namespace k,
        appended_snoc (lookup k groups) n.item (items_of k s),
      )

module _ {T : Type 0} (name_of : T → Text) where
  -- The entry of a namespace in the map of GroupByNamespace: none where it has no items.
  abbrev pub entry : List T → List T → Option (List T)
  entry [] items = none
  entry (x ∷ xs) items = some items

  abbrev sorted? : Option (List T) → Option (List T)
  sorted? none = none
  sorted? (some l) = some (sort (name_leb name_of) l)

  lookup-sort_groups :
      (k : Text) (groups : List (Text × List T))
      → lookup k (sort_groups name_of groups) ≡ sorted? (lookup k groups)
  unfolding sort_groups lookup
  lookup-sort_groups k [] = refl
  lookup-sort_groups k ((j, l) ∷ groups) = ground (arith, lookup-sort_groups k groups)

  sorted?-appended :
      (items : List T) → sorted? (appended none items) ≡ entry items (sort (name_leb name_of) items)
  sorted?-appended [] = refl
  sorted?-appended (x ∷ xs) = refl

  -- The map of GroupByNamespace has, under each namespace that occurs, what GetNamespace returns for
  -- it, and no other entry.
  pub lookup-group_by_namespace :
      (namespace : Text) (s : List (Namespaced T))
      → lookup namespace (group_by_namespace name_of s)
        ≡ entry (items_of namespace s) (get_namespace name_of namespace s)
  unfolding group_by_namespace get_namespace lookup
  lookup-group_by_namespace namespace s =
      lookup-sort_groups namespace (gather s [])
      ∙ ap sorted? (lookup-gather namespace s [])
      ∙ sorted?-appended (items_of namespace s)

  contains-insert_sorted :
      (le : T → T → Bool) (x : T) (xs : List T) (a : Text)
      → contains (map name_of (insert_sorted le x xs)) a
        ≡ (name_of x == a || contains (map name_of xs) a)
  unfolding insert_sorted contains
  contains-insert_sorted le x [] a = refl
  contains-insert_sorted le x (y ∷ ys) a = ground (arith, contains-insert_sorted le x ys a)

  contains-sort :
      (le : T → T → Bool) (xs : List T) (a : Text)
      → contains (map name_of (sort le xs)) a ≡ contains (map name_of xs) a
  unfolding sort contains
  contains-sort le [] a = refl
  contains-sort le (x ∷ xs) a =
      ground (arith, contains-sort le xs a, contains-insert_sorted le x (sort le xs) a)

  contains-items_of :
      (namespace name : Text) (s : List (Namespaced T))
      → contains (map name_of (items_of namespace s)) name ≡ contains_item name_of namespace name s
  unfolding items_of contains_item get contains
  contains-items_of namespace name [] = refl
  contains-items_of namespace name (n ∷ s) = ground (arith, contains-items_of namespace name s)

  -- Contains and Get find a name under a namespace exactly when GetNamespace lists it.
  pub contains-get_namespace :
      (namespace name : Text) (s : List (Namespaced T))
      → contains (map name_of (get_namespace name_of namespace s)) name
        ≡ contains_item name_of namespace name s
  unfolding get_namespace
  contains-get_namespace namespace name s =
      contains-sort (name_leb name_of) (items_of namespace s) name
      ∙ contains-items_of namespace name s
