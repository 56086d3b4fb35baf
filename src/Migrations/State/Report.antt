-- ===== src/Migrations/State/Report.antt =====
-- namespaceMigrationState of app/migration.go against the rows of the tracking table.
use go_hypercube.Common.{
  ℕ, ◌+◌, ◌≡◌, refl, ◌≢◌, Bool, List, [], ◌∷◌, ◌++◌, ◌∙◌, if◌then◌else◌, Text, text_eq, nat_eq, All,
  All-append, arith, ap, none, true, false, sym, map, length, Option, some, append-nil,
}
use go_hypercube.Namespaced.{is_some}
use go_hypercube.Database.{
  Row, World, has_row, recorded_rows, applied_migrations_lem, ok, err, Result, Same,
}
use go_hypercube.Migrations.{Migration, name, App, ordered}
use go_hypercube.Migrations.State.Rows.{found, found-recorded_rows, Dated, find_applied-Dated}
use go_hypercube.Migrations.State.{
  MigrationStatus, NamespaceMigrationState, find_applied, count_status, walk_statuses, empty_state,
  namespace_migration_state,
}

-- The migrations that the table holds no record of.
pub unapplied : Text → List Row → List Migration → List Migration
unapplied namespace rows [] = []
unapplied namespace rows (m ∷ ms) =
    if has_row namespace (name m) rows
    then unapplied namespace rows ms
    else m ∷ unapplied namespace rows ms

-- The last name with a record, or the given one where there is none.
pub last_applied : Text → List Row → List Migration → Text → Text
last_applied namespace rows [] current = current
last_applied namespace rows (m ∷ ms) current =
    last_applied namespace rows ms (if has_row namespace (name m) rows then name m else current)

abbrev pub view : List MigrationStatus → List (Text × Text × Bool)
view statuses = map (λ s. (s.namespace, s.status_name, is_some s.applied_at)) statuses

abbrev pub recorded? : Text → List Row → List Migration → List (Text × Text × Bool)
recorded? namespace rows ms = map (λ m. (namespace, name m, has_row namespace (name m) rows)) ms

-- The times of the statuses are the table's.
abbrev pub AllDated : Text → List Row → List MigrationStatus → Type 0
AllDated namespace rows = All (λ s. Dated namespace s.status_name rows s.applied_at)

-- A state that walked through `ms` from another one.
pub record Counts (namespace : Text) (rows : List Row) (ms : List Migration)
    (st out : NamespaceMigrationState) : Type 0 where
  pub namespace_is : out.namespace ≡ st.namespace
  pub pending_is : out.pending ≡ st.pending + length (unapplied namespace rows ms)
  pub statuses_are : view out.statuses ≡ view st.statuses ++ recorded? namespace rows ms
  pub dates_are : AllDated namespace rows out.statuses
  pub current_is : out.current ≡ last_applied namespace rows ms st.current

view-snoc :
    (ss : List MigrationStatus) (s : MigrationStatus) (l : List (Text × Text × Bool))
    → view (ss ++ s ∷ []) ++ l ≡ view ss ++ (s.namespace, s.status_name, is_some s.applied_at) ∷ l
view-snoc [] s l = refl
view-snoc (x ∷ ss) s l =
    ap (λ t. (x.namespace, x.status_name, is_some x.applied_at) ∷ t) (view-snoc ss s l)

unapplied-cons :
    (namespace : Text) (rows : List Row) (m : Migration) (ms : List Migration) (b : Bool)
    → b ≡ has_row namespace (name m) rows
    → length (unapplied namespace rows (m ∷ ms)) ≡ (
        if b
        then length (unapplied namespace rows ms)
        else length (unapplied namespace rows ms) + 1)
unfolding unapplied
unapplied-cons namespace rows m ms b h = ground arith

last_applied-cons :
    (namespace : Text) (rows : List Row) (m : Migration) (ms : List Migration) (current : Text)
    (b : Bool)
    → b ≡ has_row namespace (name m) rows
    → last_applied namespace rows ms (if b then name m else current)
      ≡ last_applied namespace rows (m ∷ ms) current
unfolding last_applied
last_applied-cons namespace rows m ms current b h = rw h refl

Counts-step :
    (namespace : Text) (rows : List Row) (m : Migration) (ms : List Migration) (o : Option ℕ)
    (st out : NamespaceMigrationState)
    → is_some o ≡ has_row namespace (name m) rows
    → Counts namespace rows ms (count_status namespace m o st) out
    → Counts namespace rows (m ∷ ms) st out
Counts-step namespace rows m ms none st out h p = record {
  namespace_is = p.namespace_is;
  pending_is = ground (arith, p.pending_is, unapplied-cons namespace rows m ms false h);
  statuses_are =
      p.statuses_are
      ∙ view-snoc st.statuses _ (recorded? namespace rows ms)
      ∙ ap (λ b. view st.statuses ++ (namespace, name m, b) ∷ recorded? namespace rows ms) h;
  dates_are = p.dates_are;
  current_is = p.current_is ∙ last_applied-cons namespace rows m ms st.current false h;
}
Counts-step namespace rows m ms (some t) st out h p = record {
  namespace_is = p.namespace_is;
  pending_is = ground (arith, p.pending_is, unapplied-cons namespace rows m ms true h);
  statuses_are =
      p.statuses_are
      ∙ view-snoc st.statuses _ (recorded? namespace rows ms)
      ∙ ap (λ b. view st.statuses ++ (namespace, name m, b) ∷ recorded? namespace rows ms) h;
  dates_are = p.dates_are;
  current_is = p.current_is ∙ last_applied-cons namespace rows m ms st.current true h;
}

count_status-AllDated :
    (namespace : Text) (rows : List Row) (m : Migration) (o : Option ℕ)
    (st : NamespaceMigrationState)
    → Dated namespace (name m) rows o
    → AllDated namespace rows st.statuses
    → AllDated namespace rows (count_status namespace m o st).statuses
count_status-AllDated namespace rows m none st d h =
    All-append (λ s. Dated namespace s.status_name rows s.applied_at) st.statuses _ h (d, tt)
count_status-AllDated namespace rows m (some t) st d h =
    All-append (λ s. Dated namespace s.status_name rows s.applied_at) st.statuses _ h (d, tt)

walk_statuses_lem :
    (namespace : Text) (rows applied : List Row) (ms : List Migration)
    (st : NamespaceMigrationState)
    → ((n : Text) → found applied n ≡ has_row namespace n rows)
    → ((n : Text) → Dated namespace n rows (find_applied applied n))
    → AllDated namespace rows st.statuses
    → Counts namespace rows ms st (walk_statuses namespace applied ms st)
unfolding walk_statuses
walk_statuses_lem namespace rows applied [] st agrees dates dated =
    unfold unapplied last_applied in
    record {
      namespace_is = refl;
      pending_is = omega arith;
      statuses_are = sym (append-nil (view st.statuses));
      dates_are = dated;
      current_is = refl;
    }
walk_statuses_lem namespace rows applied (m ∷ ms) st agrees dates dated =
    let o = find_applied applied (name m) in
    Counts-step namespace rows m ms o st _ (agrees (name m)) (
      walk_statuses_lem namespace rows applied ms _ agrees dates
        (count_status-AllDated namespace rows m o st (dates (name m)) dated))

module _ {S : Type 0} (exec : Text → S → Option S) (app : App) (namespace : Text) where
  abbrev pub Told : List Row → World S → Result NamespaceMigrationState × World S → Type 0
  Told rows w (ok st, w') =
      Counts namespace rows (ordered exec app namespace) (empty_state namespace) st × Same w w'
  Told rows w (err e, w') = Same w w'

  -- For a namespace that is not empty and where the table is there, the state that
  -- namespaceMigrationState gives, unless the call of the database fails: the registered migrations in
  -- name order, each marked as applied exactly where the table has a record of it, and then with the
  -- time of a record, the number of the others as Pending, and as Current the last applied one in name
  -- order. Reading changes nothing.
  pub namespace_migration_state_lem :
      (rows : List Row) (w : World S)
      → w.migrations ≡ some rows
      → namespace ≢ []
      → Told rows w (namespace_migration_state exec app namespace w)
  unfolding namespace_migration_state
  namespace_migration_state_lem rows w there full = ground (
    arith,
    applied_migrations_lem namespace rows w there,
    walk_statuses_lem namespace rows (recorded_rows namespace rows) (ordered exec app namespace)
        (empty_state namespace) (λ n. found-recorded_rows namespace n rows full)
        (λ n. find_applied-Dated namespace n rows full) tt,
  )
