-- ===== src/Namespaced/Sorted.antt =====
-- Namespaces, Sort and GetNamespaces of namespaced/namespaced.go: what they list, and its order.
use mathlib.Core.List.Perm
use mathlib.Core.List.{Perm}
use go_hypercube.Common.{
  ◌≡◌, refl, ◌∙◌, ◌⊎◌, inl, inr, Bool, true, false, List, [], ◌∷◌, ◌++◌, ◌||◌, ◌==◌, ==_iff, Text,
  text_eq, contains, sort, insert_sorted, arith, map, IsUnique, contains-cons, contains-snoc,
  IsUnique-snoc, contains-nil, text_leb, text_leb_total, text_leb_trans, text_leb_antisymm,
  IsSorted, sort-IsSorted, sort-perm, Bool-cases, All, Picks, none_left, taken, skipped, if_cases,
  ◌≢◌,
}
use go_hypercube.Namespaced.{
  Namespaced, unique_namespaces, namespaces, within, namespaced_leb, get_namespaces,
}

module _ (le : Text → Text → Bool) where
  contains-insert_sorted :
      (x : Text) (xs : List Text) (a : Text)
      → contains (insert_sorted le x xs) a ≡ (x == a || contains xs a)
  unfolding insert_sorted contains
  contains-insert_sorted x [] a = refl
  contains-insert_sorted x (y ∷ ys) a = ground (arith, contains-insert_sorted x ys a)

  contains-sort : (xs : List Text) (a : Text) → contains (sort le xs) a ≡ contains xs a
  unfolding sort contains
  contains-sort [] a = refl
  contains-sort (x ∷ xs) a =
      ground (arith, contains-sort xs a, contains-insert_sorted x (sort le xs) a)

  insert_sorted-IsUnique :
      (x : Text) (xs : List Text)
      → IsUnique xs
      → contains xs x ≡ false
      → IsUnique (insert_sorted le x xs)
  unfolding insert_sorted contains
  insert_sorted-IsUnique x [] u h = (refl, tt)
  insert_sorted-IsUnique x (y ∷ ys) u h = elim (Bool-cases (le x y)) [
    | inl p ↦ rw p (h, u)
    | inr p ↦ rw p (
      ground (arith, contains-insert_sorted x ys y, ==_iff x y, ==_iff y x),
      insert_sorted-IsUnique x ys u.1 (ground arith),
    )
  ]

  sort-IsUnique : (xs : List Text) → IsUnique xs → IsUnique (sort le xs)
  unfolding sort
  sort-IsUnique [] u = tt
  sort-IsUnique (x ∷ xs) u =
      insert_sorted-IsUnique x (sort le xs) (sort-IsUnique xs u.1) (contains-sort xs x ∙ u.0)

module _ {T : Type 0} where
  -- Some item of the slice stands under the namespace.
  abbrev pub occurs : List (Namespaced T) → Text → Bool
  occurs s namespace = contains (map (λ n. n.namespace) s) namespace

  contains-unique_namespaces :
      (s : List (Namespaced T)) (result : List Text) (k : Text)
      → contains (unique_namespaces s result) k ≡ (contains result k || occurs s k)
  unfolding unique_namespaces
  contains-unique_namespaces [] result k = ground (arith, contains-nil k)
  contains-unique_namespaces (n ∷ s) result k = ground (
    arith,
    contains-unique_namespaces s result k,
    contains-unique_namespaces s (result ++ n.namespace ∷ []) k,
    contains-snoc result n.namespace k,
    contains-cons n.namespace (map (λ (m : Namespaced T). m.namespace) s) k,
    ==_iff n.namespace k,
  )

  unique_namespaces-IsUnique :
      (s : List (Namespaced T)) (result : List Text)
      → IsUnique result
      → IsUnique (unique_namespaces s result)
  unfolding unique_namespaces
  unique_namespaces-IsUnique [] result u = u
  unique_namespaces-IsUnique (n ∷ s) result u = elim (Bool-cases (contains result n.namespace)) [
    | inl old ↦ rw old (unique_namespaces-IsUnique s result u)
    | inr new ↦ rw new (
        unique_namespaces-IsUnique s (result ++ n.namespace ∷ [])
          (IsUnique-snoc result n.namespace u new))
  ]

  -- Namespaces lists in ascending order, each once, exactly the namespaces of the items.
  pub namespaces_lem :
      (s : List (Namespaced T))
      → IsSorted text_leb (namespaces s)
        × IsUnique (namespaces s)
        × ((k : Text) → contains (namespaces s) k ≡ occurs s k)
  unfolding namespaces
  namespaces_lem s = (
    sort-IsSorted text_leb text_leb_total text_leb_trans (unique_namespaces s []),
    sort-IsUnique text_leb (unique_namespaces s []) (unique_namespaces-IsUnique s [] tt),
    λ k.
        contains-sort text_leb (unique_namespaces s []) k
        ∙ contains-unique_namespaces s [] k
        ∙ ground (arith, contains-nil k),
  )

module _ {T : Type 0} (name_of : T → Text) where
  namespaced_leb_total :
      (a b : Namespaced T)
      → (namespaced_leb name_of a b ≡ true) ⊎ (namespaced_leb name_of b a ≡ true)
  unfolding namespaced_leb
  namespaced_leb_total a b = ground (
    arith,
    ==_iff a.namespace b.namespace,
    ==_iff b.namespace a.namespace,
    text_leb_total a.namespace b.namespace,
    text_leb_total (name_of a.item) (name_of b.item),
  )

  namespaced_leb_trans :
      (a b c : Namespaced T)
      → namespaced_leb name_of a b ≡ true
      → namespaced_leb name_of b c ≡ true
      → namespaced_leb name_of a c ≡ true
  unfolding namespaced_leb
  namespaced_leb_trans a b c p q = ground (
    arith,
    ==_iff a.namespace b.namespace,
    ==_iff b.namespace c.namespace,
    ==_iff a.namespace c.namespace,
    text_leb_trans a.namespace b.namespace c.namespace,
    text_leb_trans (name_of a.item) (name_of b.item) (name_of c.item),
    text_leb_antisymm a.namespace b.namespace,
  )

  -- By namespace, and within a namespace by name.
  abbrev pub Ordered : Namespaced T → Namespaced T → Type 0
  Ordered a b =
      (a.namespace ≢ b.namespace) × (text_leb a.namespace b.namespace ≡ true)
      ⊎ (a.namespace ≡ b.namespace) × (text_leb (name_of a.item) (name_of b.item) ≡ true)

  -- Each item stands before those behind it.
  abbrev pub Ascends : List (Namespaced T) → Type 0
  Ascends [] = Unit
  Ascends (a ∷ s) = All (Ordered a) s × Ascends s

  namespaced_leb-Ordered : (a b : Namespaced T) → namespaced_leb name_of a b ≡ true → Ordered a b
  unfolding namespaced_leb
  namespaced_leb-Ordered a b h = elim (Bool-cases (a.namespace == b.namespace)) [
    | inl same ↦ inr ((==_iff a.namespace b.namespace).0 same, ground arith)
    | inr other ↦ inl (λ e. absurd (cc (other, (==_iff a.namespace b.namespace).1 e)), ground arith)
  ]

  All-Ordered :
      (a : Namespaced T) (s : List (Namespaced T))
      → All (λ b. namespaced_leb name_of a b ≡ true) s
      → All (Ordered a) s
  All-Ordered a [] h = tt
  All-Ordered a (b ∷ s) h = (namespaced_leb-Ordered a b h.0, All-Ordered a s h.1)

  IsSorted-Ascends : (s : List (Namespaced T)) → IsSorted (namespaced_leb name_of) s → Ascends s
  IsSorted-Ascends [] h = tt
  IsSorted-Ascends (a ∷ s) h = (All-Ordered a s h.0, IsSorted-Ascends s h.1)

  -- The items whose namespace is wanted.
  abbrev pub Chosen : List Text → List (Namespaced T) → List (Namespaced T) → Type 0
  Chosen wanted =
      Picks (λ n m. (contains wanted n.namespace ≡ true) × (m ≡ n))
        (λ n. contains wanted n.namespace ≡ false)

  within-Chosen : (wanted : List Text) (s : List (Namespaced T)) → Chosen wanted s (within wanted s)
  unfolding within
  within-Chosen wanted [] = none_left
  within-Chosen wanted (n ∷ s) =
      if_cases (Chosen wanted (n ∷ s)) (contains wanted n.namespace) (n ∷ within wanted s)
        (within wanted s) (λ on. taken n n s (within wanted s) (on, refl) (within-Chosen wanted s))
        (λ off. skipped n s (within wanted s) off (within-Chosen wanted s))

  Chosen-nil : (s : List (Namespaced T)) → Chosen [] s []
  unfolding contains
  Chosen-nil [] = none_left
  Chosen-nil (n ∷ s) = skipped n s [] refl (Chosen-nil s)

  -- GetNamespaces lists exactly the items whose namespace is wanted, each as often as the slice has
  -- it: by namespace in ascending order, and within a namespace by name.
  pub get_namespaces_lem :
      (wanted : List Text) (s : List (Namespaced T))
      → (chosen : List (Namespaced T)) × Chosen wanted s chosen
        × Perm (get_namespaces name_of wanted s) chosen
        × Ascends (get_namespaces name_of wanted s)
  unfolding get_namespaces
  get_namespaces_lem [] s = ([], Chosen-nil s, Perm.refl [], tt)
  get_namespaces_lem (w ∷ wanted) s =
      let chosen = within (w ∷ wanted) s in
      (
        chosen,
        within-Chosen (w ∷ wanted) s,
        sort-perm (namespaced_leb name_of) chosen,
        IsSorted-Ascends (sort (namespaced_leb name_of) chosen) (
            sort-IsSorted (namespaced_leb name_of) namespaced_leb_total namespaced_leb_trans
              chosen),
      )
