-- ===== src/Common/Order.antt =====
-- The order of texts that strings.Compare gives, and sorting by a Boolean order.
use mathlib.Core.List.Perm
use mathlib.Core.List.{Perm}
use mathlib.Core.Path.{◌≡◌, refl}
use mathlib.Core.Logic.{◌⊎◌, inl, inr}
use mathlib.Core.Bool.{Bool, true, false}
use mathlib.Core.List.{List, [], ◌∷◌}
use native.Mathlib.Omega.{arith}
use go_hypercube.Common.Tests.{Text, text_eq, ltb, if◌then◌else◌, Bool-cases}
use go_hypercube.Common.Lists.{All}

-- `strings.Compare(s, t) <= 0`
unfoldable pub text_leb : Text → Text → Bool
text_leb [] t = true
text_leb (a ∷ s) [] = false
text_leb (a ∷ s) (b ∷ t) = if ltb a b then true else if ltb b a then false else text_leb s t

pub text_leb_total : (s t : Text) → (text_leb s t ≡ true) ⊎ (text_leb t s ≡ true)
unfolding text_leb
text_leb_total [] t = inl refl
text_leb_total (a ∷ s) [] = inr refl
text_leb_total (a ∷ s) (b ∷ t) = ground (arith, text_leb_total s t)

pub text_leb_trans :
    (s t u : Text) → text_leb s t ≡ true → text_leb t u ≡ true → text_leb s u ≡ true
unfolding text_leb
text_leb_trans [] t u p q = refl
text_leb_trans (a ∷ s) [] u p q = cc
text_leb_trans (a ∷ s) (b ∷ t) [] p q = cc
text_leb_trans (a ∷ s) (b ∷ t) (c ∷ u) p q = ground (arith, text_leb_trans s t u)

pub text_leb_antisymm : (s t : Text) → text_leb s t ≡ true → text_leb t s ≡ true → s ≡ t
unfolding text_leb
text_leb_antisymm [] [] p q = refl
text_leb_antisymm [] (b ∷ t) p q = cc
text_leb_antisymm (a ∷ s) [] p q = cc
text_leb_antisymm (a ∷ s) (b ∷ t) p q = ground (arith, text_leb_antisymm s t)

module _ {A : Type 0} (le : A → A → Bool) where
  -- Each element is followed by none that is smaller.
  abbrev pub IsSorted : List A → Type 0
  IsSorted [] = Unit
  IsSorted (x ∷ xs) = All (λ y. le x y ≡ true) xs × IsSorted xs

  unfoldable pub insert_sorted : A → List A → List A
  insert_sorted x [] = x ∷ []
  insert_sorted x (y ∷ ys) = if le x y then x ∷ y ∷ ys else y ∷ insert_sorted x ys

  -- slices.SortFunc, for which elements that compare equal may stand in any order.
  unfoldable pub sort : List A → List A
  sort [] = []
  sort (x ∷ xs) = insert_sorted x (sort xs)

  insert_sorted-perm : (x : A) (xs : List A) → Perm (insert_sorted x xs) (x ∷ xs)
  unfolding insert_sorted
  insert_sorted-perm x [] = Perm.refl _
  insert_sorted-perm x (y ∷ ys) = elim (Bool-cases (le x y)) [
    | inl h ↦ rw h (Perm.refl _)
    | inr h ↦ rw h (Perm.trans (Perm.cons y (insert_sorted-perm x ys)) (Perm.swap x y ys))
  ]

  pub sort-perm : (xs : List A) → Perm (sort xs) xs
  unfolding sort
  sort-perm [] = Perm.refl _
  sort-perm (x ∷ xs) = Perm.trans (insert_sorted-perm x (sort xs)) (Perm.cons x (sort-perm xs))

  All-insert_sorted :
      (P : A → Type 0) (x : A) (xs : List A) → P x → All P xs → All P (insert_sorted x xs)
  unfolding insert_sorted
  All-insert_sorted P x [] px ps = (px, tt)
  All-insert_sorted P x (y ∷ ys) px ps = elim (Bool-cases (le x y)) [
    | inl h ↦ rw h (px, ps)
    | inr h ↦ rw h (ps.0, All-insert_sorted P x ys px ps.1)
  ]

  module _ (total : (x y : A) → (le x y ≡ true) ⊎ (le y x ≡ true))
      (trans : (x y z : A) → le x y ≡ true → le y z ≡ true → le x z ≡ true) where
    All-le :
        (x y : A) (ys : List A)
        → le x y ≡ true
        → All (λ z. le y z ≡ true) ys
        → All (λ z. le x z ≡ true) ys
    All-le x y [] h a = tt
    All-le x y (z ∷ zs) h a = (trans x y z h a.0, All-le x y zs h a.1)

    insert_sorted-IsSorted : (x : A) (xs : List A) → IsSorted xs → IsSorted (insert_sorted x xs)
    unfolding insert_sorted
    insert_sorted-IsSorted x [] s = (tt, tt)
    insert_sorted-IsSorted x (y ∷ ys) s = elim (Bool-cases (le x y)) [
      | inl h ↦ rw h ((h, All-le x y ys h s.0), s)
      | inr h ↦
          let back : le y x ≡ true = elim (total x y) [ inl p ↦ cc | inr p ↦ p ] in
          rw h
            (All-insert_sorted (λ z. le y z ≡ true) x ys back s.0, insert_sorted-IsSorted x ys s.1)
    ]

    pub sort-IsSorted : (xs : List A) → IsSorted (sort xs)
    unfolding sort
    sort-IsSorted [] = tt
    sort-IsSorted (x ∷ xs) = insert_sorted-IsSorted x (sort xs) (sort-IsSorted xs)

  insert_sorted-first :
      (x : A) (xs : List A) → All (λ y. le x y ≡ true) xs → insert_sorted x xs ≡ x ∷ xs
  unfolding insert_sorted
  insert_sorted-first x [] h = refl
  insert_sorted-first x (y ∷ ys) h = ground arith

  pub sort-id : (xs : List A) → IsSorted xs → sort xs ≡ xs
  unfolding sort
  sort-id [] h = refl
  sort-id (x ∷ xs) h = cc (sort-id xs h.1, insert_sorted-first x xs h.0)
