-- ===== src/Parser.antt =====
-- migration/parser.go: the text of a migration file becomes the statements of its two sections.
pub mod Strings
pub mod Suffix
mod Tests
pub mod Trim
pub mod Loop
pub mod Lines
pub mod Printer
pub mod Blocks
pub mod RoundTrip
pub mod Sound
use go_hypercube.Common.{
  ℕ, nat_beq, Bool, true, false, List, [], ◌∷◌, ◌++◌, ◌==◌, if◌then◌else◌, Text, text_eq,
}
use go_hypercube.Migrations.{Migration}
use go_hypercube.Parser.Strings.{codes, trim_space, to_lower, scan}

abbrev pub newline : Text
newline = b'\n' ∷ []

abbrev pub marker_up : Text
marker_up = codes "-- +migrate up"

abbrev pub marker_down : Text
marker_down = codes "-- +migrate down"

abbrev pub marker_begin : Text
marker_begin = codes "-- +migrate statementbegin"

abbrev pub marker_end : Text
marker_end = codes "-- +migrate statementend"

-- What a line is to a switch on its trimmed lower-case text.
pub data Marker : Type 0 where
  first second other : Marker

abbrev pub marker_of : Text → Text → Text → Marker
marker_of one two trimmed =
    if trimmed == one then first else if trimmed == two then second else other

-- The variables of splitStatements.
pub record Statements : Type 0 where
  pub statements : List Text
  pub buf : Text
  pub in_block : Bool

-- The closure `flush` of splitStatements.
unfoldable pub flush_statement : Statements → Statements
flush_statement st =
    let s = trim_space st.buf in
    if s == []
    then record st { buf = [] }
    else record st { statements = st.statements ++ s ∷ []; buf = [] }

abbrev pub write : Text → Statements → Statements
write s st = record st { buf = st.buf ++ s }

-- The loop over `rest`, which writes up to each semicolon and flushes; `chunk` is what lies before
-- the next one.
unfoldable pub split_rest : Text → Text → Statements → Statements
unfolding flush_statement
split_rest chunk [] st = write (chunk ++ newline) st
split_rest chunk (c ∷ rest) st = elim (nat_beq c b';') [
  | true ↦ split_rest [] rest (flush_statement (write (chunk ++ c ∷ []) st))
  | false ↦ split_rest (chunk ++ c ∷ []) rest st
]

-- What splitUpDown has found.
pub record Sections : Type 0 where
  pub up : List Text
  pub down : List Text

-- "", "up" or "down"
pub data Section : Type 0 where
  outside in_up in_down : Section

-- The variables of splitUpDown.
pub record Split : Type 0 where
  pub sections : Sections
  pub buf : Text
  pub section : Section

pub data ParseError : Type 0 where
  line_too_long missing_up missing_down : ParseError

pub data Parsed (A : Type 0) : Type 0 where
  ok : A → Parsed A
  err : ParseError → Parsed A

abbrev pub is_empty : List Text → Bool
is_empty [] = true
is_empty (x ∷ xs) = false

-- The parameter gives unicode.ToLower beyond ASCII.
module _ (lower : ℕ → ℕ) where
  abbrev pub trimmed : Text → Text
  trimmed line = to_lower lower (trim_space line)

  abbrev pub plain_line : Text → Statements → Statements
  plain_line line st = if st.in_block then write (line ++ newline) st else split_rest [] line st

  -- The body of the loop of splitStatements.
  unfoldable pub statement_line : Text → Statements → Statements
  unfolding split_rest flush_statement
  statement_line line st = elim (marker_of marker_begin marker_end (trimmed line)) [
    | first ↦ record st { in_block = true }
    | second ↦ flush_statement (record st { in_block = false })
    | other ↦ plain_line line st
  ]

  unfoldable pub statement_lines : List Text → Statements → Statements
  unfolding statement_line
  statement_lines [] st = st
  statement_lines (line ∷ lines) st = statement_lines lines (statement_line line st)

  abbrev pub no_statements : Statements
  no_statements = record { statements = []; buf = []; in_block = false }

  -- splitStatements; it does not look at the error of its scanner.
  unfoldable pub split_statements : Text → List Text
  unfolding statement_lines flush_statement
  split_statements section =
      (flush_statement (statement_lines (scan section).0 no_statements)).statements

  abbrev pub with_section : Section → List Text → Sections → Sections
  with_section outside found s = s
  with_section in_up found s = record s { up = found }
  with_section in_down found s = record s { down = found }

  -- The closure `flush` of splitUpDown.
  unfoldable pub flush_section : Split → Split
  unfolding split_statements
  flush_section sp = record sp {
    sections = with_section sp.section (split_statements sp.buf) sp.sections;
    buf = [];
  }

  -- The body of the loop of splitUpDown.
  unfoldable pub section_line : Text → Split → Split
  unfolding flush_section
  section_line line sp = elim (marker_of marker_up marker_down (trimmed line)) [
    | first ↦ record (flush_section sp) { section = in_up }
    | second ↦ record (flush_section sp) { section = in_down }
    | other ↦ record sp { buf = sp.buf ++ (line ++ newline) }
  ]

  unfoldable pub section_lines : List Text → Split → Split
  unfolding section_line
  section_lines [] sp = sp
  section_lines (line ∷ lines) sp = section_lines lines (section_line line sp)

  abbrev pub no_sections : Split
  no_sections = record { sections = record { up = []; down = [] }; buf = []; section = outside }

  -- What splitUpDown returns: its scanner's error, or the first section without a statement, or both
  -- sections.
  unfoldable pub check_sections : Bool → Sections → Parsed Sections
  check_sections true s = err line_too_long
  check_sections false s =
      if is_empty s.up then err missing_up else if is_empty s.down then err missing_down else ok s

  -- splitUpDown
  unfoldable pub split_up_down : Text → Parsed Sections
  unfolding section_lines flush_section check_sections
  split_up_down content =
      let (lines, too_long) = scan content in
      check_sections too_long (flush_section (section_lines lines no_sections)).sections

  abbrev pub named : Text → Parsed Sections → Parsed Migration
  named migration_name (err e) = err e
  named migration_name (ok s) =
      ok (record { migration_name = migration_name; up = s.up; down = s.down })

  -- ParseRawMigration
  unfoldable pub parse_raw_migration : Text → Text → Parsed Migration
  unfolding split_up_down
  parse_raw_migration migration_name content = named migration_name (split_up_down content)
