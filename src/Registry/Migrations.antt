-- ===== src/Registry/Migrations.antt =====
-- registerMigrationForNamespace of app/migration.go: which batches it takes.
use go_hypercube.Common.{
  ◌≡◌, refl, ◌↔◌, true, false, none, List, [], ◌∷◌, ◌++◌, ◌&&◌, ◌==◌, ==_iff, ==_refl, Text,
  text_eq, arith, map, contains, contains-cons, contains-nil,
}
use go_hypercube.Namespaced.{Namespaced, new_namespaced, get, contains_item}
use go_hypercube.Registry.{ok, check_batch, register_migrations}
use go_hypercube.Registry.Keys.{IsKeyed, contains_item-append}

module _ {M : Type 0} (name_of : M → Text) where
  IsKeyed-append :
      (s t : List (Namespaced M))
      → IsKeyed name_of s
      → IsKeyed name_of t
      → ((j k : Text) → contains_item name_of j k s ≡ true → contains_item name_of j k t ≡ false)
      → IsKeyed name_of (s ++ t)
  unfolding contains_item get
  IsKeyed-append [] t hs ht apart = ht
  IsKeyed-append (n ∷ s) t hs ht apart = (
    ground (
      arith,
      contains_item-append name_of s t n.namespace (name_of n.item),
      apart n.namespace (name_of n.item),
      hs.0,
      ==_refl n.namespace,
      ==_refl (name_of n.item),
    ),
    IsKeyed-append s t hs.1 ht (λ j k h. ground (arith, apart j k)),
  )

  IsKeyed-behind : (s t : List (Namespaced M)) → IsKeyed name_of (s ++ t) → IsKeyed name_of t
  IsKeyed-behind [] t h = h
  IsKeyed-behind (n ∷ s) t h = IsKeyed-behind s t h.1

  IsKeyed-apart :
      (s t : List (Namespaced M)) (j k : Text)
      → IsKeyed name_of (s ++ t)
      → contains_item name_of j k s ≡ true
      → contains_item name_of j k t ≡ false
  unfolding contains_item get
  IsKeyed-apart [] t j k h on = cc
  IsKeyed-apart (n ∷ s) t j k h on = ground (
    arith,
    contains_item-append name_of s t n.namespace (name_of n.item),
    h.0,
    ==_iff n.namespace j,
    ==_iff (name_of n.item) k,
    IsKeyed-apart s t j k h.1,
  )

  module _ (namespace : Text) where
    abbrev wrapped : List M → List (Namespaced M)
    wrapped ms = map (new_namespaced namespace) ms

    contains_item-wrapped :
        (ms : List M) (j k : Text)
        → contains_item name_of j k (wrapped ms) ≡ (namespace == j && contains (map name_of ms) k)
    unfolding contains_item get contains new_namespaced
    contains_item-wrapped [] j k = ground arith
    contains_item-wrapped (m ∷ ms) j k = ground (arith, contains_item-wrapped ms j k)

    module _ (s : List (Namespaced M)) where
      -- What the loop of the check asks of a batch, `seen` being the names before it.
      abbrev IsTaken : List Text → List M → Type 0
      IsTaken seen [] = Unit
      IsTaken seen (m ∷ ms) =
          (contains_item name_of namespace (name_of m) s ≡ false)
          × (contains seen (name_of m) ≡ false)
          × IsTaken (name_of m ∷ seen) ms

      check_batch-none :
          (seen : List Text) (ms : List M)
          → (check_batch name_of namespace s seen ms ≡ none) ↔ IsTaken seen ms
      unfolding check_batch
      check_batch-none seen [] = (λ h. tt, λ h. refl)
      check_batch-none seen (m ∷ ms) = ground (arith, check_batch-none (name_of m ∷ seen) ms)

      -- No name of the batch stands in `seen`, or in `s` under the namespace.
      abbrev IsApart : List Text → List M → Type 0
      IsApart seen ms =
          (k : Text)
          → contains (map name_of ms) k ≡ true
          → (contains seen k ≡ false) × (contains_item name_of namespace k s ≡ false)

      IsApart-of_IsTaken :
          (seen : List Text) (ms : List M)
          → IsTaken seen ms
          → IsKeyed name_of (wrapped ms) × IsApart seen ms
      unfolding new_namespaced
      IsApart-of_IsTaken seen [] h = (tt, λ k on. absurd (cc (on, contains-nil k)))
      IsApart-of_IsTaken seen (m ∷ ms) h =
          let (keyed, apart) = IsApart-of_IsTaken (name_of m ∷ seen) ms h.2 in
          let m' = name_of m in
          (
            (
              ground (
                arith,
                contains_item-wrapped ms namespace m',
                apart m',
                contains-cons m' seen m',
                ==_refl m',
              ),
              keyed,
            ),
            λ k on. ground (
              arith,
              contains-cons m' (map name_of ms) k,
              contains-cons m' seen k,
              apart k,
              ==_iff m' k,
              h.0,
              h.1,
            ),
          )

      IsTaken-of_IsApart :
          (seen : List Text) (ms : List M)
          → IsKeyed name_of (wrapped ms)
          → IsApart seen ms
          → IsTaken seen ms
      unfolding new_namespaced
      IsTaken-of_IsApart seen [] h apart = tt
      IsTaken-of_IsApart seen (m ∷ ms) h apart =
          let m' = name_of m in
          let here : contains (map name_of (m ∷ ms)) m' ≡ true =
            ground (arith, contains-cons m' (map name_of ms) m', ==_refl m') in
          let now : (contains seen m' ≡ false) × (contains_item name_of namespace m' s ≡ false) =
            apart m' here in
          (
            now.1,
            now.0,
            IsTaken-of_IsApart (m' ∷ seen) ms h.1 (λ k on. ground (
              arith,
              apart k,
              contains-cons m' (map name_of ms) k,
              contains-cons m' seen k,
              ==_iff m' k,
              h.0,
              contains_item-wrapped ms namespace m',
              ==_refl namespace,
            )),
          )

      register_migrations-ok :
          (ms : List M)
          → check_batch name_of namespace s [] ms ≡ none
          → register_migrations name_of namespace ms s ≡ ok (s ++ wrapped ms)
      unfolding register_migrations
      register_migrations-ok ms h = ground arith

      register_migrations-err :
          (ms : List M) (s' : List (Namespaced M))
          → register_migrations name_of namespace ms s ≡ ok s'
          → check_batch name_of namespace s [] ms ≡ none
      unfolding register_migrations
      register_migrations-err ms s' h = ground arith

      pub register_migrations-appends :
          (ms : List M) (s' : List (Namespaced M))
          → register_migrations name_of namespace ms s ≡ ok s'
          → s' ≡ s ++ map (new_namespaced namespace) ms
      register_migrations-appends ms s' h =
          cc (register_migrations-ok ms (register_migrations-err ms s' h), h)

      -- A batch of migrations is registered, behind what was registered before, exactly when no key
      -- is held twice afterwards.
      pub register_migrations_lem :
          (ms : List M)
          → IsKeyed name_of s
          → (IsKeyed name_of (s ++ wrapped ms)
              → register_migrations name_of namespace ms s ≡ ok (s ++ wrapped ms))
            × ((s' : List (Namespaced M))
                → register_migrations name_of namespace ms s ≡ ok s'
                → (s' ≡ s ++ wrapped ms) × IsKeyed name_of (s ++ wrapped ms))
      register_migrations_lem ms h = (
        λ keyed. register_migrations-ok ms (
            (check_batch-none [] ms).1 (
              IsTaken-of_IsApart [] ms (IsKeyed-behind s (wrapped ms) keyed)
                (λ k on. (contains-nil k, free keyed k on)))),
        λ s' eq.
            let taken = register_migrations-err ms s' eq in
            let (keyed, apart) = IsApart-of_IsTaken [] ms ((check_batch-none [] ms).0 taken) in
            (
              cc (register_migrations-ok ms taken, eq),
              IsKeyed-append s (wrapped ms) h keyed (λ j k on. away j k on (apart k)),
            ),
      )
        where
          away :
              (j k : Text)
              → contains_item name_of j k s ≡ true
              → (contains (map name_of ms) k ≡ true
                  → (contains [] k ≡ false) × (contains_item name_of namespace k s ≡ false))
              → contains_item name_of j k (wrapped ms) ≡ false
          away j k on apart = ground (arith, contains_item-wrapped ms j k, ==_iff namespace j)

          free :
              IsKeyed name_of (s ++ wrapped ms)
              → (k : Text) → contains (map name_of ms) k ≡ true
              → contains_item name_of namespace k s ≡ false
          free keyed k on = ground (
            arith,
            IsKeyed-apart s (wrapped ms) namespace k keyed,
            contains_item-wrapped ms namespace k,
            ==_refl namespace,
          )
