-- ===== src/Parser/Tests.antt =====
-- A small migration file.
use go_hypercube.Common.{ℕ, ◌≡◌, refl, [], ◌∷◌, text_beq, contains, map, arith, Text}
use go_hypercube.Parser.Strings.{
  codes, is_space, trim_left, trim_right, trim_space, lower_char, to_lower, width, drop_cr,
  scan_from, scan,
}
use go_hypercube.Parser.Lines.{bytes}
use go_hypercube.Parser.Printer.{text_of, file_of, section_marker, block_marker, IsBody, IsBlock}
use go_hypercube.Parser.RoundTrip.{parse_raw_migration-file_of}
use go_hypercube.Parser.Sound.{IsSound, parse_raw_migration-IsSound}
use go_hypercube.Common.{some}
use go_hypercube.Parser.Loop.{split_loop, split_loop_lem}
use go_hypercube.Parser.{no_statements}
use go_hypercube.Parser.{
  ok, err, missing_down, flush_statement, split_rest, statement_line, statement_lines,
  split_statements, flush_section, section_line, section_lines, check_sections, split_up_down,
  parse_raw_migration,
}

abbrev same : ℕ → ℕ
same c = c

program : Unit {0}
unfolding is_space trim_left trim_right trim_space lower_char to_lower width drop_cr scan_from scan
    flush_statement split_rest statement_line statement_lines split_statements flush_section
    section_line section_lines check_sections split_up_down parse_raw_migration text_beq
program = tt

two_statements :
    parse_raw_migration same (codes "1") (
      codes
        "-- +MIGRATE up\r\nA; B;\n -- +migrate Down\n-- +migrate StatementBegin\nC;\nD;\n-- +migrate StatementEnd\n")
    ≡ ok (record {
      migration_name = codes "1";
      up = codes "A;" ∷ codes "B;" ∷ [];
      down = codes "C;\nD;" ∷ [];
    })
unfolding program
two_statements = refl

no_down : parse_raw_migration same [] (codes "-- +migrate up\nA;\n") ≡ err missing_down
unfolding program
no_down = refl

-- A second section with the same marker replaces the first one.
later_section :
    parse_raw_migration same []
      (codes "-- +migrate up\nA;\n-- +migrate up\nB;\n-- +migrate down\nC")
    ≡ ok (record { migration_name = []; up = codes "B;" ∷ []; down = codes "C" ∷ [] })
unfolding program
later_section = refl

abbrev line_a : Text
line_a = codes "CREATE FUNCTION f;"

abbrev line_b : Text
line_b = codes "  RETURN 1; END;"

abbrev drop : Text
drop = codes "DROP FUNCTION f"

line_a-IsBody : IsBody same line_a
unfolding contains drop_cr bytes width section_marker block_marker is_space trim_left trim_right
    trim_space lower_char to_lower text_beq
line_a-IsBody = record {
  is_line = record { one_line = refl; no_return = refl; fits = omega arith };
  no_section = refl;
  no_block = refl;
}

line_b-IsBody : IsBody same line_b
unfolding contains drop_cr bytes width section_marker block_marker is_space trim_left trim_right
    trim_space lower_char to_lower text_beq
line_b-IsBody = record {
  is_line = record { one_line = refl; no_return = refl; fits = omega arith };
  no_section = refl;
  no_block = refl;
}

drop-IsBody : IsBody same drop
unfolding contains drop_cr bytes width section_marker block_marker is_space trim_left trim_right
    trim_space lower_char to_lower text_beq
drop-IsBody = record {
  is_line = record { one_line = refl; no_return = refl; fits = omega arith };
  no_section = refl;
  no_block = refl;
}

two_lines-IsBlock : IsBlock same (line_a ∷ line_b ∷ [])
unfolding text_of is_space
two_lines-IsBlock = record {
  body = (line_a-IsBody, (line_b-IsBody, tt));
  is_trimmed = record { starts = refl; ends = refl };
}

drop-IsBlock : IsBlock same (drop ∷ [])
unfolding text_of is_space
drop-IsBlock = record {
  body = (drop-IsBody, tt);
  is_trimmed = record { starts = refl; ends = refl };
}

parse_raw_migration-file_of_example :
    parse_raw_migration same
      (codes "1.sql")
      (file_of ((line_a ∷ line_b ∷ []) ∷ []) ((drop ∷ []) ∷ []))
    ≡ ok (record {
      migration_name = codes "1.sql";
      up = map text_of ((line_a ∷ line_b ∷ []) ∷ []);
      down = map text_of ((drop ∷ []) ∷ []);
    })
parse_raw_migration-file_of_example =
    parse_raw_migration-file_of same (codes "1.sql") ((line_a ∷ line_b ∷ []) ∷ [])
      ((drop ∷ []) ∷ []) (two_lines-IsBlock, tt) (drop-IsBlock, tt) (λ e. cc (e)) (λ e. cc (e))

parse_raw_migration-IsSound_example :
    IsSound same (codes "1.sql") (
      parse_raw_migration same
        (codes "1.sql")
        (codes "-- +migrate up\nA; B\n-- +migrate down\n C;"))
parse_raw_migration-IsSound_example =
    parse_raw_migration-IsSound same (codes "1.sql")
      (codes "-- +migrate up\nA; B\n-- +migrate down\n C;")

split_loop_lem_example :
    split_loop 4 (codes "A;B") (no_statements same)
    ≡ some (split_rest [] (codes "A;B") (no_statements same))
split_loop_lem_example = split_loop_lem 4 (codes "A;B") (no_statements same) (omega arith)
