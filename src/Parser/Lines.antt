-- ===== src/Parser/Lines.antt =====
-- The lines that a scanner of migration/parser.go reads back.
use go_hypercube.Common.{
  ℕ, ◌+◌, ◌<◌, ◌≡◌, refl, ◌∙◌, false, List, [], ◌∷◌, ◌++◌, nat_eq, contains, contains-cons,
  nat_beq_iff, Text, arith, All, append_assoc, append-nil, ap, sym,
}
use go_hypercube.Parser.Strings.{width, drop_cr, max_scan_token_size, add_line, scan_from, scan}

-- The bytes of a text.
unfoldable pub bytes : Text → ℕ
bytes [] = 0
bytes (c ∷ s) = width c + bytes s

-- A text that is one line: no newline in it, no `\r` at its end, and shorter than the scanner's
-- buffer.
pub record IsLine (line : Text) : Type 0 where
  pub one_line : contains line b'\n' ≡ false
  pub no_return : drop_cr line ≡ line
  pub fits : bytes line < max_scan_token_size

unfoldable pub unlines : List Text → Text
unlines [] = []
unlines (line ∷ lines) = line ++ b'\n' ∷ unlines lines

pub unlines-append : (xs ys : List Text) → unlines (xs ++ ys) ≡ unlines xs ++ unlines ys
unfolding unlines
unlines-append [] ys = refl
unlines-append (x ∷ xs) ys =
    ap (λ t. x ++ b'\n' ∷ t) (unlines-append xs ys)
    ∙ sym (append_assoc x (b'\n' ∷ unlines xs) (unlines ys))

scan_from-line :
    (line before rest : Text) (size : ℕ)
    → contains line b'\n' ≡ false
    → size + bytes line < max_scan_token_size
    → scan_from before size (line ++ b'\n' ∷ rest) ≡ add_line (before ++ line) (scan_from [] 0 rest)
unfolding scan_from bytes
scan_from-line [] before rest size plain fits = rw (append-nil before) refl
scan_from-line (c ∷ line) before rest size plain fits = ground (
  arith,
  contains-cons c line b'\n',
  nat_beq_iff c b'\n',
  scan_from-line line (before ++ c ∷ []) rest (size + width c),
  append_assoc before (c ∷ []) line,
)

-- The scanner reads lines back.
pub scan-unlines : (lines : List Text) → All IsLine lines → scan (unlines lines) ≡ (lines, false)
unfolding scan scan_from unlines
scan-unlines [] h = refl
scan-unlines (line ∷ lines) (h, hs) =
    scan_from-line line [] (unlines lines) 0 h.one_line (omega (arith, h.fits))
    ∙ ground (arith, h.no_return, scan-unlines lines hs)
