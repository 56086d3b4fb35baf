-- ===== src/Parser/Blocks.antt =====
-- splitStatements of migration/parser.go on statements that stand between their markers.
use go_hypercube.Common.{
  ℕ, ◌≡◌, refl, ◌∙◌, true, false, List, [], ◌∷◌, ◌++◌, map, Text, text_beq, arith, All,
  append_assoc, append-nil, ap, sym,
}
use go_hypercube.Common.{Bool, contains, nat_eq, All-append, All-map}
use go_hypercube.Parser.Strings.{
  is_space, trim_left, trim_right, trim_space, lower_char, to_lower, width, drop_cr,
}
use go_hypercube.Parser.Trim.{IsTrimmed, trim_space-newline}
use go_hypercube.Parser.Lines.{bytes, IsLine, unlines, scan-unlines}
use go_hypercube.Parser.{
  newline, Statements, flush_statement, statement_line, statement_lines, split_statements,
  no_statements,
}
use go_hypercube.Parser.Printer.{
  text_of, begin_line, end_line, block_lines, block_marker, IsBody, IsBlock,
}

unlines-text_of : (l : Text) (ls : List Text) → unlines (l ∷ ls) ≡ text_of (l ∷ ls) ++ newline
unfolding unlines text_of
unlines-text_of l [] = refl
unlines-text_of l (m ∷ ls) =
    ap (λ t. l ++ b'\n' ∷ t) (unlines-text_of m ls)
    ∙ sym (append_assoc l (b'\n' ∷ text_of (m ∷ ls)) newline)

module _ (lower : ℕ → ℕ) where
  statement_lines-body :
      (lines rest : List Text) (st : Statements)
      → All (IsBody lower) lines
      → st.in_block ≡ true
      → statement_lines lower (lines ++ rest) st
        ≡ statement_lines lower rest (record st { buf = st.buf ++ unlines lines })
  unfolding statement_lines statement_line unlines block_marker
  statement_lines-body [] rest st h inside = rw (append-nil st.buf) refl
  statement_lines-body (l ∷ lines) rest st (h, hs) inside = ground (
    arith,
    h.no_block,
    statement_lines-body lines rest (record st { buf = st.buf ++ (l ++ newline) }) hs inside,
    append_assoc st.buf (l ++ newline) (unlines lines),
    append_assoc l newline (unlines lines),
  )

  statement_lines-cons :
      (line : Text) (rest : List Text) (st : Statements)
      → statement_lines lower (line ∷ rest) st
        ≡ statement_lines lower rest (statement_line lower line st)
  unfolding statement_lines
  statement_lines-cons line rest st = refl

  statement_line-begin :
      (st : Statements) → statement_line lower begin_line st ≡ record st { in_block = true }
  unfolding statement_line trim_space trim_left trim_right is_space to_lower lower_char text_beq
  statement_line-begin st = refl

  statement_line-end :
      (st : Statements)
      → statement_line lower end_line st ≡ flush_statement (record st { in_block = false })
  unfolding statement_line trim_space trim_left trim_right is_space to_lower lower_char text_beq
  statement_line-end st = refl

  flush_statement-trimmed :
      (s : Text) (st : Statements)
      → IsTrimmed s
      → st.buf ≡ s ++ newline
      → flush_statement st ≡ record st { statements = st.statements ++ s ∷ []; buf = [] }
  unfolding flush_statement text_beq
  flush_statement-trimmed [] st h e = absurd h.starts
  flush_statement-trimmed (c ∷ s) st h e =
      let left : trim_space st.buf ≡ c ∷ s = ap trim_space e ∙ trim_space-newline (c ∷ s) h in
      rw left refl

  abbrev after_blocks : List Text → Statements
  after_blocks found = record { statements = found; buf = []; in_block = false }

  statement_lines-block :
      (block rest found : List Text)
      → IsBlock lower block
      → statement_lines lower (begin_line ∷ block ++ end_line ∷ rest) (after_blocks found)
        ≡ statement_lines lower rest (after_blocks (found ++ text_of block ∷ []))
  unfolding text_of
  statement_lines-block [] rest found h = absurd h.is_trimmed.starts
  statement_lines-block (l ∷ ls) rest found h =
      let st : Statements = record (after_blocks found) { in_block = true } in
      let full : Statements = record st { buf = unlines (l ∷ ls) } in
      statement_lines-cons begin_line ((l ∷ ls) ++ end_line ∷ rest) (after_blocks found)
      ∙ ap (statement_lines lower ((l ∷ ls) ++ end_line ∷ rest))
          (statement_line-begin (after_blocks found))
      ∙ statement_lines-body (l ∷ ls) (end_line ∷ rest) st h.body refl
      ∙ statement_lines-cons end_line rest full
      ∙ ap (statement_lines lower rest) (
          statement_line-end full
          ∙ flush_statement-trimmed (text_of (l ∷ ls)) (record full { in_block = false })
              h.is_trimmed (unlines-text_of l ls))

  statement_lines-blocks :
      (blocks : List (List Text)) (found : List Text)
      → All (IsBlock lower) blocks
      → statement_lines lower (block_lines blocks) (after_blocks found)
        ≡ after_blocks (found ++ map text_of blocks)
  unfolding block_lines statement_lines
  statement_lines-blocks [] found h = rw (append-nil found) refl
  statement_lines-blocks (block ∷ blocks) found (h, hs) =
      statement_lines-block block (block_lines blocks) found h
      ∙ statement_lines-blocks blocks (found ++ text_of block ∷ []) hs
      ∙ ap after_blocks (append_assoc found (text_of block ∷ []) (map text_of blocks))

  pub begin_line-IsLine : IsLine begin_line
  unfolding contains drop_cr bytes width
  begin_line-IsLine = record { one_line = refl; no_return = refl; fits = omega arith }

  pub end_line-IsLine : IsLine end_line
  unfolding contains drop_cr bytes width
  end_line-IsLine = record { one_line = refl; no_return = refl; fits = omega arith }

  pub block_lines-IsLine :
      (blocks : List (List Text)) → All (IsBlock lower) blocks → All IsLine (block_lines blocks)
  unfolding block_lines
  block_lines-IsLine [] h = tt
  block_lines-IsLine (block ∷ blocks) (h, hs) = (
    begin_line-IsLine,
    All-append IsLine block (end_line ∷ block_lines blocks)
        (All-map (IsBody lower) IsLine block (λ x b. b.is_line) h.body)
        (end_line-IsLine, block_lines-IsLine blocks hs),
  )

  pub split_statements-blocks :
      (blocks : List (List Text))
      → All (IsBlock lower) blocks
      → split_statements lower (unlines (block_lines blocks)) ≡ map text_of blocks
  unfolding split_statements flush_statement trim_space trim_left trim_right text_beq
  split_statements-blocks blocks h =
      ap
        (λ (r : List Text × Bool).
          (flush_statement (statement_lines lower r.0 (no_statements lower))).statements)
        (scan-unlines (block_lines blocks) (block_lines-IsLine blocks h))
      ∙ ap (λ st. (flush_statement st).statements) (statement_lines-blocks blocks [] h)
