-- ===== src/Parser/Printer.antt =====
-- The text of a migration file in the form that the comment of ParseRawMigration in
-- migration/parser.go asks for, each statement between its two markers.
use go_hypercube.Common.{ℕ, ◌≡◌, List, [], ◌∷◌, ◌++◌, Text, All}
use go_hypercube.Common.{nat_eq}
use go_hypercube.Parser.Strings.{codes}
use go_hypercube.Parser.Trim.{IsTrimmed}
use go_hypercube.Parser.Lines.{IsLine, unlines}
use go_hypercube.Parser.{
  marker_up, marker_down, marker_begin, marker_end, Marker, other, marker_of, trimmed,
}

-- A statement is given by its lines.
unfoldable pub text_of : List Text → Text
text_of [] = []
text_of (line ∷ []) = line
text_of (line ∷ l ∷ lines) = line ++ b'\n' ∷ text_of (l ∷ lines)

abbrev pub up_line : Text
up_line = codes "-- +migrate up"

abbrev pub down_line : Text
down_line = codes "-- +migrate down"

abbrev pub begin_line : Text
begin_line = codes "-- +migrate StatementBegin"

abbrev pub end_line : Text
end_line = codes "-- +migrate StatementEnd"

-- A statement between its two markers.
unfoldable pub block_lines : List (List Text) → List Text
block_lines [] = []
block_lines (block ∷ blocks) = begin_line ∷ block ++ end_line ∷ block_lines blocks

unfoldable pub file_lines : List (List Text) → List (List Text) → List Text
file_lines ups downs = up_line ∷ block_lines ups ++ down_line ∷ block_lines downs

-- The text of a migration file with these statements.
unfoldable pub file_of : List (List Text) → List (List Text) → Text
file_of ups downs = unlines (file_lines ups downs)

module _ (lower : ℕ → ℕ) where
  unfoldable pub section_marker : Text → Marker
  section_marker line = marker_of marker_up marker_down (trimmed lower line)

  unfoldable pub block_marker : Text → Marker
  block_marker line = marker_of marker_begin marker_end (trimmed lower line)

  -- The line is none of the four markers.
  pub record IsBody (line : Text) : Type 0 where
    pub is_line : IsLine line
    pub no_section : section_marker line ≡ other
    pub no_block : block_marker line ≡ other

  -- The lines of a statement with no white space at its ends.
  pub record IsBlock (block : List Text) : Type 0 where
    pub body : All IsBody block
    pub is_trimmed : IsTrimmed (text_of block)
