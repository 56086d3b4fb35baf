-- ===== src/Runner/Visits.antt =====
-- What a walk over namespaces or other items comes to: each in turn, up to the first error.
use go_hypercube.Common.{
  ◌≡◌, true, List, [], ◌∷◌, Text, text_eq, text_leb, contains, All, IsSorted, if_cases,
}
use go_hypercube.Database.{World, Error, M, Result, ok, err, and_then}
use go_hypercube.Runner.{each_namespace, others}

module _ {S A : Type 0} (Step : A → World S → Result (Unit {0}) × World S → Type 0) where
  -- A step for each of the items in order, from the world that the one before it left, until one
  -- fails: then the walk returns its error and its world.
  pub data Visits : List A → World S → Result (Unit {0}) × World S → Type 0 where
    all_done : (w : World S) → Visits [] w (ok tt, w)
    went_on :
        (n : A) (ns : List A) (w w' : World S) (r : Result (Unit {0}) × World S)
        → Step n w (ok tt, w')
        → Visits ns w' r
        → Visits (n ∷ ns) w r
    stopped :
        (n : A) (ns : List A) (w w' : World S) (e : Error)
        → Step n w (err e, w')
        → Visits (n ∷ ns) w (err e, w')

  -- A step, and the rest of the walk where it did not fail.
  pub Visits-and_then :
      (n : A) (ns : List A) (w : World S) (rest : M S (Unit {0}))
      → (r : Result (Unit {0}) × World S) → Step n w r
      → ((w' : World S) → Visits ns w' (rest w'))
      → Visits (n ∷ ns) w (and_then r.0 (λ _. rest) r.1)
  Visits-and_then n ns w rest (ok u, w') step walk = went_on n ns w w' (rest w') step (walk w')
  Visits-and_then n ns w rest (err e, w') step walk = stopped n ns w w' e step

module _ {S : Type 0} (Step : Text → World S → Result (Unit {0}) × World S → Type 0) where
  pub each_namespace-Visits :
      (act : Text → M S (Unit {0})) (ns : List Text) (w : World S)
      → ((n : Text) (w' : World S) → Step n w' (act n w'))
      → Visits Step ns w (each_namespace act ns w)
  unfolding each_namespace
  each_namespace-Visits act [] w steps = all_done w
  each_namespace-Visits act (n ∷ ns) w steps =
      Visits-and_then Step n ns w (each_namespace act ns) (act n w) (steps n w)
        (λ w'. each_namespace-Visits act ns w' steps)

All-others : (P : Text → Type 0) (first ns : List Text) → All P ns → All P (others first ns)
unfolding others
All-others P first [] h = tt
All-others P first (n ∷ ns) h =
    if_cases (All P) (contains first n) (others first ns) (n ∷ others first ns)
      (λ old. All-others P first ns h.1) (λ new. (h.0, All-others P first ns h.1))

-- The namespaces that are left of an ascending list ascend.
pub others-IsSorted :
    (first ns : List Text) → IsSorted text_leb ns → IsSorted text_leb (others first ns)
unfolding others
others-IsSorted first [] h = tt
others-IsSorted first (n ∷ ns) h =
    if_cases (IsSorted text_leb) (contains first n) (others first ns) (n ∷ others first ns)
      (λ old. others-IsSorted first ns h.1)
      (λ new. (All-others (λ k. text_leb n k ≡ true) first ns h.0, others-IsSorted first ns h.1))
