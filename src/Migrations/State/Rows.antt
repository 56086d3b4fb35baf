-- ===== src/Migrations/State/Rows.antt =====
-- What namespaceMigrationState of app/migration.go finds among the rows of the tracking table.
use go_hypercube.Common.{
  ℕ, ◌≡◌, refl, ◌≢◌, Bool, List, [], ◌∷◌, ◌∙◌, ◌||◌, ◌==◌, ==_iff, Text, text_eq, ◌&&◌, nat_eq,
  arith, none, true, false, sym, sort, insert_sorted, leb, Option, some,
}
use go_hypercube.Namespaced.{is_some}
use go_hypercube.Database.{Row, is_row, has_row, rows_of, recorded_rows}
use go_hypercube.Migrations.State.{find_applied}

abbrev pub found : List Row → Text → Bool
found rows n = is_some (find_applied rows n)

found-insert_sorted :
    (le : Row → Row → Bool) (r : Row) (rows : List Row) (n : Text)
    → found (insert_sorted le r rows) n ≡ (r.name == n || found rows n)
unfolding find_applied insert_sorted
found-insert_sorted le r [] n = ground arith
found-insert_sorted le r (q ∷ rows) n = ground (arith, found-insert_sorted le r rows n)

found-sort :
    (le : Row → Row → Bool) (rows : List Row) (n : Text) → found (sort le rows) n ≡ found rows n
unfolding find_applied sort
found-sort le [] n = refl
found-sort le (r ∷ rows) n =
    ground (arith, found-insert_sorted le r (sort le rows) n, found-sort le rows n)

found-rows_of :
    (namespace n : Text) (rows : List Row)
    → found (rows_of namespace rows) n ≡ has_row namespace n rows
unfolding find_applied rows_of has_row
found-rows_of namespace n [] = refl
found-rows_of namespace n (r ∷ rows) = ground (arith, found-rows_of namespace n rows)

pub found-recorded_rows :
    (namespace n : Text) (rows : List Row)
    → namespace ≢ []
    → found (recorded_rows namespace rows) n ≡ has_row namespace n rows
unfolding recorded_rows
found-recorded_rows namespace n rows h = ground (
  arith,
  ==_iff namespace [],
  found-sort (λ a b. leb b.stamp a.stamp) (rows_of namespace rows) n,
  found-rows_of namespace n rows,
)

-- A row has the name and the time.
abbrev stamped : Text → ℕ → List Row → Bool
stamped n t [] = false
stamped n t (r ∷ rows) = (r.name == n && r.stamp == t) || stamped n t rows

-- The table records the migration at the time.
pub recorded_at : Text → Text → ℕ → List Row → Bool
recorded_at namespace n t [] = false
recorded_at namespace n t (r ∷ rows) =
    (is_row namespace n r && r.stamp == t) || recorded_at namespace n t rows

stamped-insert_sorted :
    (le : Row → Row → Bool) (r : Row) (rows : List Row) (n : Text) (t : ℕ)
    → stamped n t (insert_sorted le r rows) ≡ ((r.name == n && r.stamp == t) || stamped n t rows)
unfolding insert_sorted
stamped-insert_sorted le r [] n t = refl
stamped-insert_sorted le r (q ∷ rows) n t = ground (arith, stamped-insert_sorted le r rows n t)

stamped-sort :
    (le : Row → Row → Bool) (rows : List Row) (n : Text) (t : ℕ)
    → stamped n t (sort le rows) ≡ stamped n t rows
unfolding sort
stamped-sort le [] n t = refl
stamped-sort le (r ∷ rows) n t =
    ground (arith, stamped-insert_sorted le r (sort le rows) n t, stamped-sort le rows n t)

stamped-rows_of :
    (namespace n : Text) (t : ℕ) (rows : List Row)
    → stamped n t (rows_of namespace rows) ≡ recorded_at namespace n t rows
unfolding rows_of recorded_at
stamped-rows_of namespace n t [] = refl
stamped-rows_of namespace n t (r ∷ rows) = ground (arith, stamped-rows_of namespace n t rows)

stamped-recorded_rows :
    (namespace n : Text) (t : ℕ) (rows : List Row)
    → namespace ≢ []
    → stamped n t (recorded_rows namespace rows) ≡ recorded_at namespace n t rows
unfolding recorded_rows
stamped-recorded_rows namespace n t rows h = ground (
  arith,
  ==_iff namespace [],
  stamped-sort (λ a b. leb b.stamp a.stamp) (rows_of namespace rows) n t,
  stamped-rows_of namespace n t rows,
)

find_applied-stamped :
    (rows : List Row) (n : Text) (t : ℕ) → find_applied rows n ≡ some t → stamped n t rows ≡ true
unfolding find_applied
find_applied-stamped [] n t h = absurd (cc (h))
find_applied-stamped (r ∷ rows) n t h =
    ground (arith, h, find_applied-stamped rows n t, ==_iff r.stamp t)

-- A status that says that the migration is applied has a time at which the table records it.
abbrev pub Dated : Text → Text → List Row → Option ℕ → Type 0
Dated namespace n rows none = Unit
Dated namespace n rows (some t) = recorded_at namespace n t rows ≡ true

pub find_applied-Dated :
    (namespace n : Text) (rows : List Row)
    → namespace ≢ []
    → Dated namespace n rows (find_applied (recorded_rows namespace rows) n)
find_applied-Dated namespace n rows full = go (find_applied (recorded_rows namespace rows) n) refl
  where
    go :
        (o : Option ℕ)
        → find_applied (recorded_rows namespace rows) n ≡ o
        → Dated namespace n rows o
    go none h = tt
    go (some t) h =
        sym (stamped-recorded_rows namespace n t rows full)
        ∙ find_applied-stamped (recorded_rows namespace rows) n t h
