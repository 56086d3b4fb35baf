-- ===== src/Parser/Sound.antt =====
-- What ParseRawMigration of migration/parser.go returns, whatever the file holds.
use go_hypercube.Common.{
  ℕ, ◌≡◌, refl, ◌≢◌, inl, inr, Bool, true, false, List, [], ◌∷◌, ◌++◌, Text, text_beq, ==_iff,
  text_eq, arith, All, All-append,
}
use go_hypercube.Migrations.{Migration}
use go_hypercube.Parser.Strings.{trim_space, scan}
use go_hypercube.Parser.Trim.{IsTrimmed, trim_space-IsTrimmed}
use go_hypercube.Parser.{
  newline, Marker, first, second, other, marker_of, marker_begin, marker_end, marker_up,
  marker_down, Statements, flush_statement, split_rest, write, Split, Section, outside, in_up,
  in_down, Sections, Parsed, ok, err, trimmed, plain_line, statement_line, statement_lines,
  split_statements, no_statements, with_section, flush_section, section_line, section_lines,
  no_sections, check_sections, split_up_down, named, parse_raw_migration,
}

-- Every statement found so far is free of white space at its ends.
abbrev Fine : Statements → Type 0
Fine st = All IsTrimmed st.statements

flush_statement-Fine : (st : Statements) → Fine st → Fine (flush_statement st)
unfolding flush_statement text_beq
flush_statement-Fine st h = elim (trim_space-IsTrimmed st.buf) [
  | inl gone ↦ rw gone h
  | inr fine ↦ ground (
    arith,
    ==_iff (trim_space st.buf) [],
    All-append IsTrimmed st.statements (trim_space st.buf ∷ []) h (fine, tt),
  )
]

split_rest-Fine : (chunk rest : Text) (st : Statements) → Fine st → Fine (split_rest chunk rest st)
unfolding split_rest
split_rest-Fine chunk [] st h = h
split_rest-Fine chunk (c ∷ rest) st h = ground (
  arith,
  split_rest-Fine [] rest (flush_statement (write (chunk ++ c ∷ []) st)),
  flush_statement-Fine (write (chunk ++ c ∷ []) st) h,
  split_rest-Fine (chunk ++ c ∷ []) rest st h,
)

module _ (lower : ℕ → ℕ) where
  plain_line-Fine : (line : Text) (st : Statements) → Fine st → Fine (plain_line lower line st)
  plain_line-Fine line st h = ground (arith, split_rest-Fine [] line st h)

  statement_line-Fine :
      (line : Text) (st : Statements) → Fine st → Fine (statement_line lower line st)
  unfolding statement_line
  statement_line-Fine line st h = go (marker_of marker_begin marker_end (trimmed lower line))
    where
      go :
          (m : Marker)
          → Fine (elim m [
            | first ↦ record st { in_block = true }
            | second ↦ flush_statement (record st { in_block = false })
            | other ↦ plain_line lower line st
          ])
      go first = h
      go second = flush_statement-Fine (record st { in_block = false }) h
      go other = plain_line-Fine line st h

  statement_lines-Fine :
      (lines : List Text) (st : Statements) → Fine st → Fine (statement_lines lower lines st)
  unfolding statement_lines
  statement_lines-Fine [] st h = h
  statement_lines-Fine (line ∷ lines) st h =
      statement_lines-Fine lines (statement_line lower line st) (statement_line-Fine line st h)

  split_statements-Fine : (section : Text) → All IsTrimmed (split_statements lower section)
  unfolding split_statements
  split_statements-Fine section =
      flush_statement-Fine (statement_lines lower (scan section).0 (no_statements lower))
        (statement_lines-Fine (scan section).0 (no_statements lower) tt)

  abbrev FineSections : Sections → Type 0
  FineSections s = All IsTrimmed s.up × All IsTrimmed s.down

  with_section-Fine :
      (section : Section) (found : List Text) (s : Sections)
      → All IsTrimmed found
      → FineSections s
      → FineSections (with_section lower section found s)
  with_section-Fine outside found s f h = h
  with_section-Fine in_up found s f h = (f, h.1)
  with_section-Fine in_down found s f h = (h.0, f)

  flush_section-Fine :
      (sp : Split) → FineSections sp.sections → FineSections (flush_section lower sp).sections
  unfolding flush_section
  flush_section-Fine sp h =
      with_section-Fine sp.section (split_statements lower sp.buf) sp.sections
        (split_statements-Fine sp.buf) h

  section_line-Fine :
      (line : Text) (sp : Split)
      → FineSections sp.sections
      → FineSections (section_line lower line sp).sections
  unfolding section_line
  section_line-Fine line sp h = go (marker_of marker_up marker_down (trimmed lower line))
    where
      go :
          (m : Marker)
          → FineSections
              (elim m as (λ _. Split) [
                | first ↦ record (flush_section lower sp) { section = in_up }
                | second ↦ record (flush_section lower sp) { section = in_down }
                | other ↦ record sp { buf = sp.buf ++ (line ++ newline) }
              ]).sections
      go first = flush_section-Fine sp h
      go second = flush_section-Fine sp h
      go other = h

  section_lines-Fine :
      (lines : List Text) (sp : Split)
      → FineSections sp.sections
      → FineSections (section_lines lower lines sp).sections
  unfolding section_lines
  section_lines-Fine [] sp h = h
  section_lines-Fine (line ∷ lines) sp h =
      section_lines-Fine lines (section_line lower line sp) (section_line-Fine line sp h)

  -- What a result may be: a migration of the given name, both sections with at least one statement,
  -- and no statement empty or with white space at its ends; or an error.
  abbrev pub IsSound : Text → Parsed Migration → Type 0
  IsSound n (ok m) =
      (m.migration_name ≡ n)
      × (m.up ≢ [])
      × (m.down ≢ [])
      × All IsTrimmed m.up
      × All IsTrimmed m.down
  IsSound n (err e) = Unit

  check_sections-IsSound :
      (n : Text) (too_long : Bool) (s : Sections)
      → FineSections s
      → IsSound n (named lower n (check_sections lower too_long s))
  unfolding check_sections
  check_sections-IsSound n true s h = tt
  check_sections-IsSound n false s h = go s.up s.down h.0 h.1
    where
      go :
          (up down : List Text)
          → All IsTrimmed up
          → All IsTrimmed down
          → IsSound n (named lower n (check_sections lower false (record { up = up; down = down })))
      go [] down hu hd = tt
      go (u ∷ up) [] hu hd = tt
      go (u ∷ up) (d ∷ down) hu hd = (refl, λ e. cc (e), λ e. cc (e), hu, hd)

  -- Whatever a file holds, a migration that is parsed from it has the given name and at least one
  -- statement in each section, none of them empty or with white space at its ends.
  pub parse_raw_migration-IsSound :
      (n content : Text) → IsSound n (parse_raw_migration lower n content)
  unfolding parse_raw_migration split_up_down
  parse_raw_migration-IsSound n content =
      let (lines, too_long) = scan content in
      let sp = section_lines lower lines (no_sections lower) in
      check_sections-IsSound n too_long (flush_section lower sp).sections
        (flush_section-Fine sp (section_lines-Fine lines (no_sections lower) (tt, tt)))
