-- ===== src/Container/Tests.antt =====
-- A container with two values of one type under two names.
use go_hypercube.Common.{
  ℕ, Bool, true, false, Option, none, some, List, [], ◌∷◌, ◌≡◌, ◌⊎◌, refl, ◌==◌, ==_iff, Text,
  text_eq, text_beq, nat_eq, arith, if◌then◌else◌, lookup, insert,
}
use go_hypercube.Parser.Strings.{codes}
use go_hypercube.Container.{
  Interfaces, value, not_found, unbound_panic, type_panic, bind, resolve, bind_as, resolve_as,
  try_resolve_as,
}
use go_hypercube.Container.Bindings.{IsGo, Binding, bind_all, Unbound, Last, Gives, resolve_as_lem}

-- Each type has the texts and a nil value.
abbrev Value : ℕ → Type 0
Value k = Option Text

abbrev convert : ℕ → Option Text → Option (ℕ × Text)
convert k none = none
convert k (some t) = some (k, t)

abbrev assert : ℕ → Option (ℕ × Text) → Option (Option Text)
assert k none = none
assert k (some (j, t)) = if j == k then some (some t) else none

abbrev missing : ℕ → Option Text → Bool
missing k none = true
missing k (some t) = false

abbrev go : Interfaces Value (Option (ℕ × Text))
go = record { to_any = convert; assert_type = assert; is_nil = missing }

kept : (k : ℕ) (x : Option Text) → missing k x ≡ false → assert k (convert k x) ≡ some x
kept k none h = absurd (cc (h))
kept k (some t) h = ground (arith, ==_iff k k)

lost : (k : ℕ) (x : Option Text) → missing k x ≡ true → assert k (convert k x) ≡ none
lost k none h = refl
lost k (some t) h = absurd (cc (h))

go-IsGo : IsGo go
go-IsGo = record { kept = kept; lost = lost }

abbrev ports : List (Binding Value)
ports =
    record { bound_kind = 1; bound_value = some (codes "443"); names = codes "https" ∷ [] }
    ∷ record { bound_kind = 1; bound_value = some (codes "80"); names = codes "http" ∷ [] }
    ∷ record { bound_kind = 2; bound_value = none; names = [] }
    ∷ []

program : Unit {0}
unfolding bind_all bind_as bind resolve resolve_as try_resolve_as lookup insert text_beq
program = tt

http : resolve_as go 1 (codes "http" ∷ []) (bind_all go ports) ≡ value (some (codes "80"))
unfolding program
http = refl

unnamed : resolve_as go 1 [] (bind_all go ports) ≡ unbound_panic
unfolding program
unnamed = refl

-- TryResolve panics where a nil interface value is bound.
nil_bound : try_resolve_as go 2 [] (bind_all go ports) ≡ type_panic
unfolding program
nil_bound = refl

resolve_as_lem_example :
    Unbound go ports 1 (codes "http")
      × (try_resolve_as go 1 (codes "http" ∷ []) (bind_all go ports) ≡ not_found)
      × (resolve_as go 1 (codes "http" ∷ []) (bind_all go ports) ≡ unbound_panic)
    ⊎ ((x : Option Text) × Last go ports 1 (codes "http") x
        × Gives go 1 (codes "http" ∷ []) ports x)
resolve_as_lem_example = resolve_as_lem go ports 1 (codes "http" ∷ []) go-IsGo
