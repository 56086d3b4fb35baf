-- ===== src/Container/Bindings.antt =====
-- What a container of internal/container/service_container.go resolves after any number of calls of
-- Bind.
use go_hypercube.Common.{
  true, false, none, some, List, [], ◌∷◌, ◌≡◌, ◌≢◌, ◌⊎◌, inl, inr, refl, ap, ◌∙◌, subst, ◌&&◌, Eq,
  ◌==◌, ==_iff, Text, text_eq, arith, lookup, lookup-insert, Bool-cases, if◌then◌else◌,
}
use go_hypercube.Container.{
  Interfaces, ContainerKey, key_eq, optional_name, value, not_found, unbound_panic, type_panic,
  new_container, bind, resolve, bind_as, asserted, or_panic, or_not_found, resolve_as,
  try_resolve_as,
}

-- Go's rules for values of type any: a type assertion to the type of the conversion gives the value
-- back, except that it panics on a nil interface value.
pub record IsGo {K A : Type 0} {El : K → Type 0} (go : Interfaces El A) : Type 0 where
  pub kept : (k : K) (x : El k) → go.is_nil k x ≡ false → go.assert_type k (go.to_any k x) ≡ some x
  pub lost : (k : K) (x : El k) → go.is_nil k x ≡ true → go.assert_type k (go.to_any k x) ≡ none

-- A call of Bind.
pub record Binding {K : Type 0} (El : K → Type 0) : Type 0 where
  pub bound_kind : K
  pub bound_value : El bound_kind
  pub names : List Text

module _ {K A : Type 0} ⦃e : Eq K⦄ {El : K → Type 0} (go : Interfaces El A) where
  -- NewServiceContainer and then calls of Bind, the last one first.
  unfoldable pub bind_all : List (Binding El) → List (ContainerKey K × A)
  bind_all [] = new_container
  bind_all (b ∷ bs) = bind_as go b.bound_kind b.bound_value b.names (bind_all bs)

  -- The call binds another type or name.
  abbrev pub IsOther : Binding El → K → Text → Type 0
  IsOther b k n = (b.bound_kind ≢ k) ⊎ (optional_name b.names ≢ n)

  -- The last call for a type and a name binds the value.
  pub data Last : List (Binding El) → (k : K) → Text → El k → Type 0 where
    here :
        (b : Binding El) (bs : List (Binding El))
        → Last (b ∷ bs) b.bound_kind (optional_name b.names) b.bound_value
    behind :
        (b : Binding El) (bs : List (Binding El)) (k : K) (n : Text) (x : El k)
        → IsOther b k n
        → Last bs k n x
        → Last (b ∷ bs) k n x

  abbrev pub Unbound : List (Binding El) → K → Text → Type 0
  Unbound [] k n = Unit
  Unbound (b ∷ bs) k n = IsOther b k n × Unbound bs k n

  -- What is stored for a type and a name.
  abbrev Stored : List (Binding El) → K → Text → Type 0
  Stored bs k n =
      Unbound bs k n × (resolve k n (bind_all bs) ≡ none)
      ⊎ ((x : El k) × Last bs k n x × (resolve k n (bind_all bs) ≡ some (go.to_any k x)))

  resolve-bind :
      (b : Binding El) (bs : List (Binding El)) (k : K) (n : Text)
      → resolve k n (bind_all (b ∷ bs)) ≡ (
          if b.bound_kind == k && optional_name b.names == n
          then some (go.to_any b.bound_kind b.bound_value)
          else resolve k n (bind_all bs))
  unfolding resolve bind_all bind_as bind
  resolve-bind b bs k n =
      lookup-insert (record { kind = b.bound_kind; key_name = optional_name b.names })
        (go.to_any b.bound_kind b.bound_value) (bind_all bs) (record { kind = k; key_name = n })

  resolve-nil : (k : K) (n : Text) → resolve k n (bind_all []) ≡ none
  unfolding resolve bind_all lookup
  resolve-nil k n = refl

  resolve-same :
      (b : Binding El) (bs : List (Binding El)) (k : K) (n : Text)
      → (b.bound_kind == k && optional_name b.names == n) ≡ true
      → resolve k n (bind_all (b ∷ bs)) ≡ some (go.to_any b.bound_kind b.bound_value)
  resolve-same b bs k n h = ground (arith, resolve-bind b bs k n)

  resolve-other :
      (b : Binding El) (bs : List (Binding El)) (k : K) (n : Text)
      → (b.bound_kind == k && optional_name b.names == n) ≡ false
      → resolve k n (bind_all (b ∷ bs)) ≡ resolve k n (bind_all bs)
  resolve-other b bs k n h = ground (arith, resolve-bind b bs k n)

  IsOther-of_false :
      (b : Binding El) (k : K) (n : Text)
      → (b.bound_kind == k && optional_name b.names == n) ≡ false
      → IsOther b k n
  IsOther-of_false b k n h = ground (arith, ==_iff b.bound_kind k, ==_iff (optional_name b.names) n)

  -- The last call binds the value, seen at an equal type and name.
  abbrev Same : Binding El → List (Binding El) → K → Text → Type 0
  Same b bs k n =
      (x : El k) × Last (b ∷ bs) k n x × (go.to_any b.bound_kind b.bound_value ≡ go.to_any k x)

  Same-of_true :
      (b : Binding El) (bs : List (Binding El)) (k : K) (n : Text)
      → b.bound_kind ≡ k
      → optional_name b.names ≡ n
      → Same b bs k n
  Same-of_true b bs k n q r =
      subst (Same b bs k) r
        (subst (λ k'. Same b bs k' (optional_name b.names)) q (b.bound_value, here b bs, refl))

  resolve-Stored : (bs : List (Binding El)) (k : K) (n : Text) → Stored bs k n
  resolve-Stored [] k n = inl (tt, resolve-nil k n)
  resolve-Stored (b ∷ bs) k n =
      elim (Bool-cases (b.bound_kind == k && optional_name b.names == n)) [
        | inl same ↦
            let q : b.bound_kind ≡ k = ground (arith, ==_iff b.bound_kind k) in
            let r : optional_name b.names ≡ n = ground (arith, ==_iff (optional_name b.names) n) in
            let (x, last, stored) = Same-of_true b bs k n q r in
            inr (x, last, resolve-same b bs k n same ∙ ap some stored)
        | inr apart ↦ elim (resolve-Stored bs k n) [
          | inl (free, r) ↦
              inl ((IsOther-of_false b k n apart, free), resolve-other b bs k n apart ∙ r)
          | inr (x, last, r) ↦ inr (
            x,
            behind b bs k n x (IsOther-of_false b k n apart) last,
            resolve-other b bs k n apart ∙ r,
          )
        ]
      ]

  -- Resolve and TryResolve agree on this value, or panic where it is a nil interface value.
  abbrev pub Gives : (k : K) → List Text → List (Binding El) → El k → Type 0
  Gives k names bs x =
      (go.is_nil k x ≡ false
        → (try_resolve_as go k names (bind_all bs) ≡ value x)
          × (resolve_as go k names (bind_all bs) ≡ value x))
      × (go.is_nil k x ≡ true
          → (try_resolve_as go k names (bind_all bs) ≡ type_panic)
            × (resolve_as go k names (bind_all bs) ≡ type_panic))

  -- After any calls of Bind, Resolve and TryResolve give the value of the last call for the type and
  -- the name, which has this type: their type assertion only panics where the value is a nil
  -- interface value. Where no call was for the type and the name, TryResolve reports it and Resolve
  -- panics.
  pub resolve_as_lem :
      (bs : List (Binding El)) (k : K) (names : List Text)
      → IsGo go
      → Unbound bs k (optional_name names)
          × (try_resolve_as go k names (bind_all bs) ≡ not_found)
          × (resolve_as go k names (bind_all bs) ≡ unbound_panic)
        ⊎ ((x : El k) × Last bs k (optional_name names) x × Gives k names bs x)
  unfolding resolve_as try_resolve_as
  resolve_as_lem bs k names rules = elim (resolve-Stored bs k (optional_name names)) [
    | inl (free, r) ↦ inl (free, ap (or_not_found go k) r, ap (or_panic go k) r)
    | inr (x, last, r) ↦ inr (
      x,
      last,
      (
        λ full. (
          ap (or_not_found go k) r ∙ ap (asserted go) (rules.kept k x full),
          ap (or_panic go k) r ∙ ap (asserted go) (rules.kept k x full),
        ),
        λ nil. (
          ap (or_not_found go k) r ∙ ap (asserted go) (rules.lost k x nil),
          ap (or_panic go k) r ∙ ap (asserted go) (rules.lost k x nil),
        ),
      ),
    )
  ]
