-- ===== src/Common/Lists.antt =====
-- Lists measured by native numbers, membership tests, and what the library's reversal does to them.
use Prim.Native.Nat.{ℕ, suc, ◌+◌}
use mathlib.Core.Path.{◌≡◌, refl, ap, sym, subst, ◌∙◌}
use mathlib.Core.Bool.{Bool, true, false, ◌||◌}
use mathlib.Core.Logic.{◌↔◌}
use mathlib.Core.List.{List, [], ◌∷◌, ◌++◌, reverse, reverse-append}
use native.Mathlib.Omega.{arith}
use go_hypercube.Common.Tests.{Eq, ◌==◌, ==_iff, ==_refl}

module _ {ℓ} {A : Type ℓ} where
  abbrev pub length : List A → ℕ
  length [] = 0
  length (x ∷ xs) = suc (length xs)

  pub length-append : (xs ys : List A) → length (xs ++ ys) ≡ length xs + length ys
  length-append [] ys = omega arith
  length-append (x ∷ xs) ys = omega (arith, length-append xs ys)

  pub reverse-snoc : (xs : List A) (x : A) → reverse (xs ++ x ∷ []) ≡ x ∷ reverse xs
  reverse-snoc xs x = reverse-append xs (x ∷ [])

  abbrev pub All {κ} : (A → Type κ) → List A → Type κ
  All P [] = Unit
  All P (x ∷ xs) = P x × All P xs

  pub All-append {κ} : (P : A → Type κ) (xs ys : List A) → All P xs → All P ys → All P (xs ++ ys)
  All-append P [] ys hx hy = hy
  All-append P (x ∷ xs) ys hx hy = (hx.0, All-append P xs ys hx.1 hy)

  pub All-map {κ} : (P Q : A → Type κ) (xs : List A) → ((x : A) → P x → Q x) → All P xs → All Q xs
  All-map P Q [] f h = tt
  All-map P Q (x ∷ xs) f h = (f x h.0, All-map P Q xs f h.1)

module _ {ℓ} {A : Type ℓ} ⦃e : Eq A⦄ where
  -- slices.Contains
  unfoldable pub contains : List A → A → Bool
  contains [] a = false
  contains (x ∷ xs) a = x == a || contains xs a

  pub contains-append :
      (xs ys : List A) (a : A) → contains (xs ++ ys) a ≡ (contains xs a || contains ys a)
  unfolding contains
  contains-append [] ys a = refl
  contains-append (x ∷ xs) ys a = ground (arith, contains-append xs ys a)

  pub contains-cons :
      (x : A) (xs : List A) (a : A) → contains (x ∷ xs) a ≡ (x == a || contains xs a)
  unfolding contains
  contains-cons x xs a = refl

  pub contains-nil : (a : A) → contains [] a ≡ false
  unfolding contains
  contains-nil a = refl

  pub contains-snoc :
      (xs : List A) (y a : A) → contains (xs ++ y ∷ []) a ≡ (y == a || contains xs a)
  contains-snoc xs y a =
      ground (arith, contains-append xs (y ∷ []) a, contains-cons y [] a, contains-nil a)

  pub contains-reverse : (xs : List A) (a : A) → contains (reverse xs) a ≡ contains xs a
  contains-reverse [] a = refl
  contains-reverse (x ∷ xs) a =
      ap (λ l. contains l a) (reverse-append (x ∷ []) xs)
      ∙ ground (arith, contains-snoc (reverse xs) x a, contains-reverse xs a, contains-cons x xs a)

  -- No element stands twice.
  abbrev pub IsUnique : List A → Type 0
  IsUnique [] = Unit
  IsUnique (x ∷ xs) = (contains xs x ≡ false) × IsUnique xs

  pub IsUnique-snoc :
      (xs : List A) (x : A) → IsUnique xs → contains xs x ≡ false → IsUnique (xs ++ x ∷ [])
  unfolding contains
  IsUnique-snoc [] x u h = (refl, tt)
  IsUnique-snoc (y ∷ xs) x u h = (
    ground (arith, contains-snoc xs x y, ==_iff x y, ==_iff y x),
    IsUnique-snoc xs x u.1 (ground arith),
  )

  pub IsUnique-reverse : (xs : List A) → IsUnique xs → IsUnique (reverse xs)
  IsUnique-reverse [] u = tt
  IsUnique-reverse (x ∷ xs) u =
      subst IsUnique (sym (reverse-append (x ∷ []) xs))
        (IsUnique-snoc (reverse xs) x (IsUnique-reverse xs u.1) (contains-reverse xs x ∙ u.0))

  -- No element of the second list stands in the first.
  abbrev pub IsApart : List A → List A → Type ℓ
  IsApart seen ns = (k : A) → contains ns k ≡ true → contains seen k ≡ false

  pub IsUnique-append :
      (xs ys : List A) → IsUnique (xs ++ ys) ↔ (IsUnique xs × IsUnique ys × IsApart xs ys)
  IsUnique-append [] ys = (λ u. (tt, u, λ k on. contains-nil k), λ (_, u, _). u)
  IsUnique-append (x ∷ xs) ys = (
    λ u.
        let (ux, uy, apart) = (IsUnique-append xs ys).0 u.1 in
        (
          (ground (arith, contains-append xs ys x, u.0), ux),
          uy,
          λ k on.
              ground
                (arith, contains-cons x xs k, apart k on, contains-append xs ys x, u.0, ==_iff x k),
        ),
    λ h. (
      ground (arith, contains-append xs ys x, contains-cons x xs x, ==_refl x, h.0.0, h.2 x),
      (IsUnique-append xs ys).1
          (h.0.1, h.1, λ k on. ground (arith, contains-cons x xs k, h.2 k on)),
    ),
  )
