-- ===== src/Container.antt =====
-- internal/container/service_container.go, with app/container.go and its like, which pass their
-- container on. Go's interface values are a parameter.
mod Tests
pub mod Bindings
use go_hypercube.Common.{
  Bool, true, false, Option, none, some, List, [], ◌∷◌, ◌≡◌, ◌↔◌, ◌&&◌, Eq, ◌==◌, ==_iff, Text,
  text_eq, arith, lookup, insert,
}

-- Go's types `K`, the values `El` of each type, and the values `A` of type any: the conversion to
-- any, the type assertion, none being its panic, and whether a value is a nil interface value.
pub record Interfaces {K : Type 0} (El : K → Type 0) (A : Type 0) : Type 0 where
  pub to_any : (k : K) → El k → A
  pub assert_type : (k : K) → A → Option (El k)
  pub is_nil : (k : K) → El k → Bool

-- containerKey
pub record ContainerKey (K : Type 0) : Type 0 where
  pub kind : K
  pub key_name : Text

pub key_equal_iff :
    {K : Type 0}
    → ⦃e : Eq K⦄ → (a b : ContainerKey K)
    → ((a.kind == b.kind && a.key_name == b.key_name) ≡ true) ↔ (a ≡ b)
key_equal_iff a b = ground (arith, ==_iff a.kind b.kind, ==_iff a.key_name b.key_name)

instance abbrev pub key_eq : {K : Type 0} → ⦃e : Eq K⦄ → Eq (ContainerKey K)
key_eq = record {
  equal = λ a b. a.kind == b.kind && a.key_name == b.key_name;
  equal_iff = key_equal_iff;
}

-- optionalName
abbrev pub optional_name : List Text → Text
optional_name [] = []
optional_name (n ∷ names) = n

-- What Resolve and TryResolve do: return a value, report that there is none, panic because there is
-- none, or panic in the type assertion.
pub data Resolved (T : Type 0) : Type 0 where
  value : T → Resolved T
  not_found unbound_panic type_panic : Resolved T

-- NewServiceContainer
abbrev pub new_container : {K A : Type 0} → List (ContainerKey K × A)
new_container = []

module _ {K A : Type 0} ⦃e : Eq K⦄ where
  -- ServiceContainer.bind
  unfoldable pub bind : K → Text → A → List (ContainerKey K × A) → List (ContainerKey K × A)
  bind kind name instance_value items =
      insert (record { kind = kind; key_name = name }) instance_value items

  -- ServiceContainer.resolve
  unfoldable pub resolve : K → Text → List (ContainerKey K × A) → Option A
  resolve kind name items = lookup (record { kind = kind; key_name = name }) items

  module _ {El : K → Type 0} (go : Interfaces El A) where
    -- Bind
    unfoldable pub bind_as :
        (k : K) → El k → List Text → List (ContainerKey K × A) → List (ContainerKey K × A)
    unfolding bind
    bind_as k x names items = bind k (optional_name names) (go.to_any k x) items

    -- `value.(T)`
    abbrev pub asserted : {T : Type 0} → Option T → Resolved T
    asserted none = type_panic
    asserted (some x) = value x

    abbrev pub or_panic : (k : K) → Option A → Resolved (El k)
    or_panic k none = unbound_panic
    or_panic k (some v) = asserted (go.assert_type k v)

    -- Resolve
    unfoldable pub resolve_as : (k : K) → List Text → List (ContainerKey K × A) → Resolved (El k)
    unfolding resolve
    resolve_as k names items = or_panic k (resolve k (optional_name names) items)

    abbrev pub or_not_found : (k : K) → Option A → Resolved (El k)
    or_not_found k none = not_found
    or_not_found k (some v) = asserted (go.assert_type k v)

    -- TryResolve
    unfoldable pub try_resolve_as :
        (k : K) → List Text → List (ContainerKey K × A) → Resolved (El k)
    unfolding resolve
    try_resolve_as k names items = or_not_found k (resolve k (optional_name names) items)
