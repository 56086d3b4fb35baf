-- ===== src/Registry/Keys.antt =====
-- Registering commands, seeders and jobs: the newest registration of a key is the one that is found,
-- and no key is held twice.
use go_hypercube.Common.{
  ◌≡◌, refl, ◌∙◌, Bool, true, false, Option, none, some, List, [], ◌∷◌, ◌++◌, ◌||◌, ◌&&◌, ◌==◌,
  ==_iff, if◌then◌else◌, Text, text_eq, arith, Bool-cases, inl, inr,
}
use go_hypercube.Namespaced.{Namespaced, new_namespaced, is_at, is_some, get, contains_item}
use go_hypercube.Registry.{replace_first, register_one, register_all}

module _ {T : Type 0} (name_of : T → Text) where
  -- No two entries have the same namespace and name.
  abbrev pub IsKeyed : List (Namespaced T) → Type 0
  IsKeyed [] = Unit
  IsKeyed (n ∷ s) = (contains_item name_of n.namespace (name_of n.item) s ≡ false) × IsKeyed s

  -- The key of an item under a namespace.
  abbrev pub same_key : Text → T → Text → Text → Bool
  same_key namespace item j k = namespace == j && name_of item == k

  get-replace_first :
      (new : Namespaced T) (s : List (Namespaced T)) (j k : Text)
      → get name_of j k (replace_first name_of new s).0 ≡ (
          if is_at name_of j k new && (replace_first name_of new s).1
          then some new.item
          else get name_of j k s)
  unfolding get replace_first
  get-replace_first new [] j k = ground arith
  get-replace_first new (n ∷ s) j k = ground (
    arith,
    get-replace_first new s j k,
    ==_iff n.namespace new.namespace,
    ==_iff (name_of n.item) (name_of new.item),
    ==_iff n.namespace j,
    ==_iff (name_of n.item) k,
    ==_iff new.namespace j,
    ==_iff (name_of new.item) k,
  )

  replaced-replace_first :
      (new : Namespaced T) (s : List (Namespaced T))
      → (replace_first name_of new s).1 ≡ contains_item name_of new.namespace (name_of new.item) s
  unfolding contains_item get replace_first
  replaced-replace_first new [] = refl
  replaced-replace_first new (n ∷ s) = ground (arith, replaced-replace_first new s)

  abbrev pub or_else : Option T → Option T → Option T
  or_else none o = o
  or_else (some x) o = some x

  get-append :
      (s t : List (Namespaced T)) (j k : Text)
      → get name_of j k (s ++ t) ≡ or_else (get name_of j k s) (get name_of j k t)
  unfolding get
  get-append [] t j k = refl
  get-append (n ∷ s) t j k = ground (arith, get-append s t j k)

  pub contains_item-append :
      (s t : List (Namespaced T)) (j k : Text)
      → contains_item name_of j k (s ++ t)
        ≡ (contains_item name_of j k s || contains_item name_of j k t)
  unfolding contains_item
  contains_item-append s t j k = ground (arith, get-append s t j k)

  get-singleton :
      (n : Namespaced T) (j k : Text)
      → get name_of j k (n ∷ []) ≡ (if is_at name_of j k n then some n.item else none)
  unfolding get
  get-singleton n j k = refl

  -- After a registration its key leads to the new item, and every other key to what it led to.
  get-register_one :
      (namespace : Text) (item : T) (s : List (Namespaced T)) (j k : Text)
      → get name_of j k (register_one name_of namespace item s)
        ≡ (if same_key namespace item j k then some item else get name_of j k s)
  unfolding register_one new_namespaced
  get-register_one namespace item s j k =
      let new = new_namespaced namespace item in
      ground (
        arith,
        get-replace_first new s j k,
        replaced-replace_first new s,
        get-append (replace_first name_of new s).0 (new ∷ []) j k,
        get-append s (new ∷ []) j k,
        get-singleton new j k,
        found s,
        ==_iff namespace j,
        ==_iff (name_of item) k,
      )
    where
      found : (s : List (Namespaced T)) → contains_item name_of j k s ≡ is_some (get name_of j k s)
      found s = unfold contains_item in refl

  contains_item-register_one :
      (namespace : Text) (item : T) (s : List (Namespaced T)) (j k : Text)
      → contains_item name_of j k (register_one name_of namespace item s)
        ≡ (same_key namespace item j k || contains_item name_of j k s)
  unfolding contains_item
  contains_item-register_one namespace item s j k =
      ground (arith, get-register_one namespace item s j k)

  contains_item-replace_first :
      (new : Namespaced T) (s : List (Namespaced T)) (j k : Text)
      → contains_item name_of j k (replace_first name_of new s).0 ≡ contains_item name_of j k s
  unfolding contains_item get replace_first
  contains_item-replace_first new [] j k = refl
  contains_item-replace_first new (n ∷ s) j k = ground (
    arith,
    contains_item-replace_first new s j k,
    ==_iff n.namespace new.namespace,
    ==_iff (name_of n.item) (name_of new.item),
  )

  IsKeyed-replace_first :
      (new : Namespaced T) (s : List (Namespaced T))
      → IsKeyed s
      → IsKeyed (replace_first name_of new s).0
  unfolding replace_first
  IsKeyed-replace_first new [] h = tt
  IsKeyed-replace_first new (n ∷ s) h =
      elim (Bool-cases (is_at name_of new.namespace (name_of new.item) n)) [
        | inl same ↦ rw same (
          ground (
            arith,
            h.0,
            ==_iff n.namespace new.namespace,
            ==_iff (name_of n.item) (name_of new.item),
          ),
          h.1,
        )
        | inr other ↦ rw other (
          contains_item-replace_first new s n.namespace (name_of n.item) ∙ h.0,
          IsKeyed-replace_first new s h.1,
        )
      ]

  IsKeyed-snoc :
      (s : List (Namespaced T)) (n : Namespaced T)
      → IsKeyed s
      → contains_item name_of n.namespace (name_of n.item) s ≡ false
      → IsKeyed (s ++ n ∷ [])
  unfolding contains_item get
  IsKeyed-snoc [] n h new = (refl, tt)
  IsKeyed-snoc (m ∷ s) n h new = (
    ground (
      arith,
      get-append s (n ∷ []) m.namespace (name_of m.item),
      get-singleton n m.namespace (name_of m.item),
      ==_iff n.namespace m.namespace,
      ==_iff m.namespace n.namespace,
      ==_iff (name_of n.item) (name_of m.item),
      ==_iff (name_of m.item) (name_of n.item),
    ),
    IsKeyed-snoc s n h.1 (ground arith),
  )

  register_one-replaced :
      (namespace : Text) (item : T) (s : List (Namespaced T))
      → contains_item name_of namespace (name_of item) s ≡ true
      → register_one name_of namespace item s
        ≡ (replace_first name_of (new_namespaced namespace item) s).0
  unfolding register_one new_namespaced
  register_one-replaced namespace item s h =
      ground (arith, replaced-replace_first (new_namespaced namespace item) s)

  register_one-new :
      (namespace : Text) (item : T) (s : List (Namespaced T))
      → contains_item name_of namespace (name_of item) s ≡ false
      → register_one name_of namespace item s
        ≡ (replace_first name_of (new_namespaced namespace item) s).0
          ++ new_namespaced namespace item ∷ []
  unfolding register_one new_namespaced
  register_one-new namespace item s h =
      ground (arith, replaced-replace_first (new_namespaced namespace item) s)

  IsKeyed-register_one :
      (namespace : Text) (item : T) (s : List (Namespaced T))
      → IsKeyed s
      → IsKeyed (register_one name_of namespace item s)
  unfolding new_namespaced
  IsKeyed-register_one namespace item s h =
      let new = new_namespaced namespace item in
      elim (Bool-cases (contains_item name_of namespace (name_of item) s)) [
        | inl old ↦ rw (register_one-replaced namespace item s old) (IsKeyed-replace_first new s h)
        | inr fresh ↦ rw (register_one-new namespace item s fresh) (
            IsKeyed-snoc (replace_first name_of new s).0 new (IsKeyed-replace_first new s h)
              (contains_item-replace_first new s namespace (name_of item) ∙ fresh))
      ]

  -- The last item of a batch with the given key.
  abbrev pub newest : Text → List T → Text → Text → Option T
  newest namespace [] j k = none
  newest namespace (x ∷ xs) j k =
      or_else (newest namespace xs j k) (if same_key namespace x j k then some x else none)

  get-register_all :
      (namespace : Text) (xs : List T) (s : List (Namespaced T)) (j k : Text)
      → get name_of j k (register_all name_of namespace xs s)
        ≡ or_else (newest namespace xs j k) (get name_of j k s)
  unfolding register_all
  get-register_all namespace [] s j k = refl
  get-register_all namespace (x ∷ xs) s j k = ground (
    arith,
    get-register_all namespace xs (register_one name_of namespace x s) j k,
    get-register_one namespace x s j k,
  )

  IsKeyed-register_all :
      (namespace : Text) (xs : List T) (s : List (Namespaced T))
      → IsKeyed s
      → IsKeyed (register_all name_of namespace xs s)
  unfolding register_all
  IsKeyed-register_all namespace [] s h = h
  IsKeyed-register_all namespace (x ∷ xs) s h =
      IsKeyed-register_all namespace xs (register_one name_of namespace x s)
        (IsKeyed-register_one namespace x s h)

  -- Registering a batch of commands or seeders keeps every key single. A key that the batch holds
  -- then leads to the last item of the batch that has it, and any other to what it led to before.
  pub register_all_lem :
      (namespace : Text) (xs : List T) (s : List (Namespaced T))
      → IsKeyed s
      → IsKeyed (register_all name_of namespace xs s)
        × ((j k : Text)
            → get name_of j k (register_all name_of namespace xs s)
              ≡ or_else (newest namespace xs j k) (get name_of j k s))
  register_all_lem namespace xs s h =
      (IsKeyed-register_all namespace xs s h, get-register_all namespace xs s)
