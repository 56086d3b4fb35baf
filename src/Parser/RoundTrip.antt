-- ===== src/Parser/RoundTrip.antt =====
-- ParseRawMigration of migration/parser.go reads back what is written as its comment says.
use go_hypercube.Common.{
  ℕ, ◌≡◌, refl, ◌≢◌, ◌∙◌, false, List, [], ◌∷◌, ◌++◌, map, Text, text_beq, arith, All, append_assoc,
  append-nil, ap, sym,
}
use go_hypercube.Common.{Bool, contains, nat_eq, All-append, All-map}
use go_hypercube.Parser.Strings.{
  is_space, trim_left, trim_right, trim_space, lower_char, to_lower, width, drop_cr,
}
use go_hypercube.Parser.Lines.{bytes, IsLine, unlines, scan-unlines}
use go_hypercube.Parser.{
  newline, first, second, other, Split, Section, in_up, in_down, with_section, Sections, ok,
  flush_section, section_line, section_lines, no_sections, check_sections, split_up_down,
  parse_raw_migration, named,
}
use go_hypercube.Parser.Printer.{
  text_of, up_line, down_line, begin_line, end_line, block_lines, file_lines, file_of,
  section_marker, IsBody, IsBlock,
}
use go_hypercube.Parser.Blocks.{block_lines-IsLine, split_statements-blocks}

module _ (lower : ℕ → ℕ) where
  section_lines-other :
      (lines rest : List Text) (sp : Split)
      → All (λ l. section_marker lower l ≡ other) lines
      → section_lines lower (lines ++ rest) sp
        ≡ section_lines lower rest (record sp { buf = sp.buf ++ unlines lines })
  unfolding section_lines section_line unlines section_marker
  section_lines-other [] rest sp h = rw (append-nil sp.buf) refl
  section_lines-other (l ∷ lines) rest sp (h, hs) =
      ap
        (λ m. section_lines lower (lines ++ rest) (elim m [
          | first ↦ record (flush_section lower sp) { section = in_up }
          | second ↦ record (flush_section lower sp) { section = in_down }
          | other ↦ record sp { buf = sp.buf ++ (l ++ newline) }
        ]))
        h
      ∙ section_lines-other lines rest (record sp { buf = sp.buf ++ (l ++ newline) }) hs
      ∙ ap (λ b. section_lines lower rest (record sp { buf = b }))
          (append_assoc sp.buf (l ++ newline) (unlines lines)
            ∙ ap (λ t. sp.buf ++ t) (append_assoc l newline (unlines lines)))

  begin_line-other : section_marker lower begin_line ≡ other
  unfolding section_marker trim_space trim_left trim_right is_space to_lower lower_char text_beq
  begin_line-other = refl

  end_line-other : section_marker lower end_line ≡ other
  unfolding section_marker trim_space trim_left trim_right is_space to_lower lower_char text_beq
  end_line-other = refl

  block_lines-other :
      (blocks : List (List Text))
      → All (IsBlock lower) blocks
      → All (λ l. section_marker lower l ≡ other) (block_lines blocks)
  unfolding block_lines
  block_lines-other [] h = tt
  block_lines-other (block ∷ blocks) (h, hs) = (
    begin_line-other,
    All-append (λ l. section_marker lower l ≡ other) block (end_line ∷ block_lines blocks)
        (All-map (IsBody lower) (λ l. section_marker lower l ≡ other) block (λ x b. b.no_section)
          h.body)
        (end_line-other, block_lines-other blocks hs),
  )

  section_lines-cons :
      (line : Text) (rest : List Text) (sp : Split)
      → section_lines lower (line ∷ rest) sp ≡ section_lines lower rest (section_line lower line sp)
  unfolding section_lines
  section_lines-cons line rest sp = refl

  section_line-up :
      (sp : Split)
      → section_line lower up_line sp ≡ record (flush_section lower sp) { section = in_up }
  unfolding section_line trim_space trim_left trim_right is_space to_lower lower_char text_beq
  section_line-up sp = refl

  section_line-down :
      (sp : Split)
      → section_line lower down_line sp ≡ record (flush_section lower sp) { section = in_down }
  unfolding section_line trim_space trim_left trim_right is_space to_lower lower_char text_beq
  section_line-down sp = refl

  up_line-IsLine : IsLine up_line
  unfolding contains drop_cr bytes width
  up_line-IsLine = record { one_line = refl; no_return = refl; fits = omega arith }

  down_line-IsLine : IsLine down_line
  unfolding contains drop_cr bytes width
  down_line-IsLine = record { one_line = refl; no_return = refl; fits = omega arith }

  file_lines-IsLine :
      (ups downs : List (List Text))
      → All (IsBlock lower) ups
      → All (IsBlock lower) downs
      → All IsLine (file_lines ups downs)
  unfolding file_lines
  file_lines-IsLine ups downs hu hd = (
    up_line-IsLine,
    All-append IsLine (block_lines ups) (down_line ∷ block_lines downs)
        (block_lines-IsLine lower ups hu) (down_line-IsLine, block_lines-IsLine lower downs hd),
  )

  abbrev at_section : Sections → Text → Section → Split
  at_section found buf section = record { sections = found; buf = buf; section = section }

  flush_section-blocks :
      (blocks : List (List Text)) (found : Sections) (section : Section)
      → All (IsBlock lower) blocks
      → flush_section lower (at_section found (unlines (block_lines blocks)) section)
        ≡ at_section (with_section lower section (map text_of blocks) found) [] section
  unfolding flush_section
  flush_section-blocks blocks found section h =
      ap (λ l. at_section (with_section lower section l found) [] section)
        (split_statements-blocks lower blocks h)

  section_lines-blocks :
      (blocks : List (List Text)) (rest : List Text) (found : Sections) (section : Section)
      → All (IsBlock lower) blocks
      → section_lines lower (block_lines blocks ++ rest) (at_section found [] section)
        ≡ section_lines lower rest (at_section found (unlines (block_lines blocks)) section)
  section_lines-blocks blocks rest found section h =
      section_lines-other (block_lines blocks) rest (at_section found [] section)
        (block_lines-other blocks h)

  abbrev none_found : Sections
  none_found = record { up = []; down = [] }

  flush_section-start :
      record (flush_section lower (no_sections lower)) { section = in_up }
      ≡ at_section none_found [] in_up
  unfolding flush_section
  flush_section-start = refl

  section_lines-nil : (sp : Split) → section_lines lower [] sp ≡ sp
  unfolding section_lines
  section_lines-nil sp = refl

  section_lines-file :
      (ups downs : List (List Text))
      → All (IsBlock lower) ups
      → All (IsBlock lower) downs
      → (flush_section lower
          (section_lines lower (file_lines ups downs) (no_sections lower))).sections
        ≡ record { up = map text_of ups; down = map text_of downs }
  unfolding file_lines
  section_lines-file ups downs hu hd =
      let halfway : Sections = record { up = map text_of ups; down = [] } in
      ap (λ sp. (flush_section lower sp).sections)
        (section_lines-cons up_line (block_lines ups ++ down_line ∷ block_lines downs)
            (no_sections lower)
          ∙ ap (section_lines lower (block_lines ups ++ down_line ∷ block_lines downs))
              (section_line-up (no_sections lower) ∙ flush_section-start)
          ∙ section_lines-blocks ups (down_line ∷ block_lines downs) none_found in_up hu
          ∙ section_lines-cons down_line (block_lines downs)
              (at_section none_found (unlines (block_lines ups)) in_up)
          ∙ ap (section_lines lower (block_lines downs)) (
              section_line-down (at_section none_found (unlines (block_lines ups)) in_up)
              ∙ ap (λ (sp : Split). record sp { section = in_down })
                  (flush_section-blocks ups none_found in_up hu))
          ∙ ap (λ l. section_lines lower l (at_section halfway [] in_down))
              (sym (append-nil (block_lines downs)))
          ∙ section_lines-blocks downs [] halfway in_down hd
          ∙ section_lines-nil (at_section halfway (unlines (block_lines downs)) in_down))
      ∙ ap (λ sp. sp.sections) (flush_section-blocks downs halfway in_down hd)

  -- A file that holds each statement between its two markers is parsed into these statements, however
  -- many semicolons and lines they have: each without white space at its ends, its lines within the
  -- scanner's limit, with no carriage return at the end and none of them one of the four markers; and
  -- each section with at least one.
  pub parse_raw_migration-file_of :
      (migration_name : Text) (ups downs : List (List Text))
      → All (IsBlock lower) ups
      → All (IsBlock lower) downs
      → ups ≢ []
      → downs ≢ []
      → parse_raw_migration lower migration_name (file_of ups downs)
        ≡ ok (record {
          migration_name = migration_name;
          up = map text_of ups;
          down = map text_of downs;
        })
  unfolding parse_raw_migration split_up_down check_sections file_of
  parse_raw_migration-file_of migration_name [] downs hu hd nu nd = absurd (nu refl)
  parse_raw_migration-file_of migration_name (u ∷ ups) [] hu hd nu nd = absurd (nd refl)
  parse_raw_migration-file_of migration_name (u ∷ ups) (d ∷ downs) hu hd nu nd =
      ap
        (λ (r : List Text × Bool). named lower migration_name (
          check_sections lower r.1
            (flush_section lower (section_lines lower r.0 (no_sections lower))).sections))
        (scan-unlines (file_lines (u ∷ ups) (d ∷ downs))
          (file_lines-IsLine (u ∷ ups) (d ∷ downs) hu hd))
      ∙ ap (λ s. named lower migration_name (check_sections lower false s))
          (section_lines-file (u ∷ ups) (d ∷ downs) hu hd)
