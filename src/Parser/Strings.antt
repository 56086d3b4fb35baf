-- ===== src/Parser/Strings.antt =====
-- What migration/parser.go uses of Go's packages strings, bufio and unicode, for texts that are valid
-- UTF-8.
use Prim.Native.Char.{code}
use Prim.Native.String.{String}
use go_hypercube.Common.{
  ℕ, ◌+◌, Bool, true, false, ◌&&◌, ◌||◌, List, [], ◌∷◌, ◌++◌, map, reverse, ltb, leb, nat_beq,
  if◌then◌else◌, Text, zero, suc, Option, none, some,
}

-- A string literal of the source.
abbrev pub codes : String → Text
codes String.[] = []
codes (String.◌∷◌ c s) = code c ∷ codes s

-- unicode.IsSpace: the code points with the property White_Space.
unfoldable pub is_space : ℕ → Bool
is_space c =
    leb 9 c && leb c 13
    || nat_beq c 32
    || nat_beq c 0x85
    || nat_beq c 0xA0
    || nat_beq c 0x1680
    || leb 0x2000 c && leb c 0x200A
    || nat_beq c 0x2028
    || nat_beq c 0x2029
    || nat_beq c 0x202F
    || nat_beq c 0x205F
    || nat_beq c 0x3000

-- strings.TrimLeftFunc with unicode.IsSpace.
unfoldable pub trim_left : Text → Text
unfolding is_space
trim_left [] = []
trim_left (c ∷ s) = if is_space c then trim_left s else c ∷ s

unfoldable pub trim_right : Text → Text
unfolding trim_left
trim_right s = reverse (trim_left (reverse s))

-- strings.TrimSpace
unfoldable pub trim_space : Text → Text
unfolding trim_left trim_right
trim_space s = trim_right (trim_left s)

-- strings.HasPrefix
unfoldable pub has_prefix : Text → Text → Bool
has_prefix [] s = true
has_prefix (p ∷ ps) [] = false
has_prefix (p ∷ ps) (c ∷ s) = nat_beq p c && has_prefix ps s

-- strings.HasSuffix
unfoldable pub has_suffix : Text → Text → Bool
unfolding has_prefix
has_suffix s suffix = has_prefix (reverse suffix) (reverse s)

-- strings.ToLower, where `lower` maps the code points beyond ASCII.
module _ (lower : ℕ → ℕ) where
  unfoldable pub lower_char : ℕ → ℕ
  lower_char c = if ltb c 0x80 then (if leb b'A' c && leb c b'Z' then c + 32 else c) else lower c

  unfoldable pub to_lower : Text → Text
  unfolding lower_char
  to_lower = map lower_char

-- How many bytes a code point takes in UTF-8.
unfoldable pub width : ℕ → ℕ
width c = if ltb c 0x80 then 1 else if ltb c 0x800 then 2 else if ltb c 0x10000 then 3 else 4

-- bufio.MaxScanTokenSize: a line has to end, with its newline, within that many bytes.
abbrev pub max_scan_token_size : ℕ
max_scan_token_size = 65_536

-- bufio.ScanLines: one `\r` at the end of a line is dropped.
unfoldable pub drop_cr : Text → Text
drop_cr [] = []
drop_cr (c ∷ []) = if nat_beq c b'\r' then [] else c ∷ []
drop_cr (c ∷ d ∷ s) = c ∷ drop_cr (d ∷ s)

abbrev pub last_line : Text → List Text
last_line [] = []
last_line (c ∷ s) = drop_cr (c ∷ s) ∷ []

abbrev pub add_line : Text → List Text × Bool → List Text × Bool
add_line line (lines, too_long) = (drop_cr line ∷ lines, too_long)

-- The lines of a bufio.Scanner, and whether it stopped with bufio.ErrTooLong. `line` is what has been
-- read of the current line, and `size` its bytes.
unfoldable pub scan_from : Text → ℕ → Text → List Text × Bool
unfolding width drop_cr
scan_from line size [] = (last_line line, false)
scan_from line size (c ∷ s) = elim (nat_beq c b'\n') [
  | true ↦ add_line line (scan_from [] 0 s)
  | false ↦ elim (leb max_scan_token_size (size + width c)) [
    | true ↦ ([], true)
    | false ↦ scan_from (line ++ c ∷ []) (size + width c) s
  ]
]

unfoldable pub scan : Text → List Text × Bool
unfolding scan_from
scan = scan_from [] 0

abbrev pub next_index : Option ℕ → Option ℕ
next_index none = none
next_index (some i) = some (suc i)

-- strings.Index with a text of one character; none is -1.
unfoldable pub index_of : ℕ → Text → Option ℕ
index_of c [] = none
index_of c (d ∷ s) = if nat_beq d c then some 0 else next_index (index_of c s)

-- `s[:n]` and `s[n:]`
unfoldable pub slice_to : ℕ → Text → Text
slice_to zero s = []
slice_to (suc n) [] = []
slice_to (suc n) (c ∷ s) = c ∷ slice_to n s

unfoldable pub slice_from : ℕ → Text → Text
slice_from zero s = s
slice_from (suc n) [] = []
slice_from (suc n) (c ∷ s) = slice_from n s
