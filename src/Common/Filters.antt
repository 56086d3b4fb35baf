-- ===== src/Common/Filters.antt =====
-- A loop over a slice that takes some of its elements and skips the others, as a relation.
use mathlib.Core.List.{List, [], ◌∷◌}

-- The second list is what is taken of the first, in its order: what one element is taken as, and
-- which elements may be skipped, is for the two relations to say.
pub data Picks {A B : Type 0} (Take : A → B → Type 0) (Skip : A → Type 0)
    : List A → List B → Type 0 where
  none_left : Picks Take Skip [] []
  taken :
      (a : A) (b : B) (as' : List A) (bs : List B)
      → Take a b
      → Picks Take Skip as' bs
      → Picks Take Skip (a ∷ as') (b ∷ bs)
  skipped :
      (a : A) (as' : List A) (bs : List B)
      → Skip a
      → Picks Take Skip as' bs
      → Picks Take Skip (a ∷ as') bs
