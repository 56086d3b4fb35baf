-- ===== src/Parser/Loop.antt =====
-- The loop of splitStatements in migration/parser.go over the rest of a line, as it is written, and
-- that it ends.
use go_hypercube.Common.{
  ℕ, zero, suc, ◌<◌, ◌≡◌, refl, ap, ◌∙◌, sym, Option, none, some, [], ◌∷◌, ◌++◌, Text, arith,
  length, append_assoc, append-nil, Option-cases, inl, inr,
}
use go_hypercube.Parser.{newline, Statements, flush_statement, split_rest, write}
use go_hypercube.Parser.Strings.{index_of, slice_to, slice_from}

-- The loop, with a bound on its rounds.
unfoldable pub split_loop : ℕ → Text → Statements → Option Statements
split_loop zero rest st = none
split_loop (suc rounds) rest st = elim (index_of b';' rest) [
  | none ↦ some (write (rest ++ newline) st)
  | some idx ↦
      split_loop rounds (slice_from (suc idx) rest)
        (flush_statement (write (slice_to (suc idx) rest) st))
]

split_rest-none :
    (chunk rest : Text) (st : Statements)
    → index_of b';' rest ≡ none
    → split_rest chunk rest st ≡ write ((chunk ++ rest) ++ newline) st
unfolding split_rest index_of
split_rest-none chunk [] st h = rw (append-nil chunk) refl
split_rest-none chunk (c ∷ rest) st h =
    ground (arith, split_rest-none (chunk ++ c ∷ []) rest st, append_assoc chunk (c ∷ []) rest)

split_rest-some :
    (chunk rest : Text) (st : Statements) (idx : ℕ)
    → index_of b';' rest ≡ some idx
    → split_rest chunk rest st
      ≡ split_rest []
          (slice_from (suc idx) rest)
          (flush_statement (write (chunk ++ slice_to (suc idx) rest) st))
unfolding split_rest index_of slice_to slice_from
split_rest-some chunk [] st idx h = absurd (cc (h))
split_rest-some chunk (c ∷ rest) st zero h = ground arith
split_rest-some chunk (c ∷ rest) st (suc idx) h = ground (
  arith,
  split_rest-some (chunk ++ c ∷ []) rest st idx,
  append_assoc chunk (c ∷ []) (slice_to (suc idx) rest),
)

length-slice_from :
    (rest : Text) (idx : ℕ)
    → index_of b';' rest ≡ some idx
    → length (slice_from (suc idx) rest) < length rest
unfolding index_of slice_from
length-slice_from [] idx h = absurd (cc (h))
length-slice_from (c ∷ rest) zero h = omega arith
length-slice_from (c ∷ rest) (suc idx) h = ground (arith, length-slice_from rest idx)

split_loop-none :
    (rounds : ℕ) (rest : Text) (st : Statements)
    → index_of b';' rest ≡ none
    → split_loop (suc rounds) rest st ≡ some (write (rest ++ newline) st)
unfolding split_loop
split_loop-none rounds rest st h = ground arith

split_loop-some :
    (rounds : ℕ) (rest : Text) (st : Statements) (idx : ℕ)
    → index_of b';' rest ≡ some idx
    → split_loop (suc rounds) rest st
      ≡ split_loop rounds
          (slice_from (suc idx) rest)
          (flush_statement (write (slice_to (suc idx) rest) st))
unfolding split_loop
split_loop-some rounds rest st idx h = ground arith

-- The loop of splitStatements over the rest of a line ends after at most one round more than the line has characters,
-- with the state that one pass over the characters gives.
pub split_loop_lem :
    (rounds : ℕ) (rest : Text) (st : Statements)
    → length rest < rounds
    → split_loop rounds rest st ≡ some (split_rest [] rest st)
split_loop_lem zero rest st h = absurd (omega (arith, h))
split_loop_lem (suc rounds) rest st h = elim (Option-cases (index_of b';' rest)) [
  | inl last ↦ split_loop-none rounds rest st last ∙ ap some (sym (split_rest-none [] rest st last))
  | inr (idx, more) ↦
      split_loop-some rounds rest st idx more
      ∙ split_loop_lem rounds (slice_from (suc idx) rest)
          (flush_statement (write (slice_to (suc idx) rest) st))
          (omega (arith, h, length-slice_from rest idx more))
      ∙ ap some (sym (split_rest-some [] rest st idx more))
]
