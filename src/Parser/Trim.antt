-- ===== src/Parser/Trim.antt =====
-- What strings.TrimSpace leaves.
use go_hypercube.Common.{
  ◌≡◌, refl, ◌≢◌, ◌∙◌, ◌⊎◌, inl, inr, false, [], ◌∷◌, ◌++◌, reverse, reverse-append,
  reverse-reverse, reverse-snoc, Text, Bool-cases, sym, ap, subst,
}
use go_hypercube.Parser.Strings.{is_space, trim_left, trim_right, trim_space}

-- The text is not empty and does not start with white space.
abbrev pub Starts : Text → Type 0
Starts [] = ⊥
Starts (c ∷ s) = is_space c ≡ false

-- Nor does it end with white space.
pub record IsTrimmed (s : Text) : Type 0 where
  pub starts : Starts s
  pub ends : Starts (reverse s)

trim_left-Starts : (s : Text) → Starts s → trim_left s ≡ s
unfolding trim_left
trim_left-Starts [] h = absurd h
trim_left-Starts (c ∷ s) h = rw h refl

Starts-append : (s t : Text) → Starts s → Starts (s ++ t)
Starts-append [] t h = absurd h
Starts-append (c ∷ s) t h = h

-- Of a text of spaces nothing is left.
Starts-trim_left : (s : Text) → (trim_left s ≡ []) ⊎ Starts (trim_left s)
unfolding trim_left
Starts-trim_left [] = inl refl
Starts-trim_left (c ∷ s) = elim (Bool-cases (is_space c)) [
  | inl space ↦ rw space (Starts-trim_left s)
  | inr apart ↦ rw apart (inr apart)
]

trim_left-split : (s : Text) → (spaces : Text) × (s ≡ spaces ++ trim_left s)
unfolding trim_left
trim_left-split [] = ([], refl)
trim_left-split (c ∷ s) = elim (Bool-cases (is_space c)) [
  | inl space ↦ let (spaces, e) = trim_left-split s in rw space (c ∷ spaces, ap (λ l. c ∷ l) e)
  | inr apart ↦ rw apart ([], refl)
]

Starts-prefix : (s t : Text) → s ≢ [] → Starts (s ++ t) → Starts s
Starts-prefix [] t n h = absurd (n refl)
Starts-prefix (c ∷ s) t n h = h

trim_right-split : (s : Text) → (spaces : Text) × (s ≡ trim_right s ++ spaces)
unfolding trim_right
trim_right-split s =
    let (spaces, e) = trim_left-split (reverse s) in
    (
      reverse spaces,
      sym (reverse-reverse s) ∙ ap reverse e ∙ reverse-append spaces (trim_left (reverse s)),
    )

Starts-ne-nil : (s : Text) → Starts s → s ≢ []
Starts-ne-nil [] h e = h
Starts-ne-nil (c ∷ s) h e = cc (e)

trim_right-IsTrimmed : (s : Text) → Starts s → (trim_right s ≡ []) ⊎ IsTrimmed (trim_right s)
unfolding trim_right
trim_right-IsTrimmed s h =
    let kept = trim_left (reverse s) in
    let (spaces, e) = trim_right-split s in
    elim (Starts-trim_left (reverse s)) [
      | inl gone ↦ inl (ap reverse gone)
      | inr last ↦ inr (record {
        starts =
            Starts-prefix (reverse kept) spaces
              (λ n. Starts-ne-nil kept last (sym (reverse-reverse kept) ∙ ap reverse n))
              (subst Starts e h);
        ends = subst Starts (sym (reverse-reverse kept)) last;
      })
    ]

-- Trimming leaves nothing or a text with no white space at its ends.
pub trim_space-IsTrimmed : (s : Text) → (trim_space s ≡ []) ⊎ IsTrimmed (trim_space s)
unfolding trim_space trim_right
trim_space-IsTrimmed s = elim (Starts-trim_left s) [
  | inl gone ↦ inl (ap trim_right gone)
  | inr starts ↦ trim_right-IsTrimmed (trim_left s) starts
]

trim_left-newline : (t : Text) → trim_left (b'\n' ∷ t) ≡ trim_left t
unfolding trim_left is_space
trim_left-newline t = refl

-- A trimmed text is what is left of it and one newline.
pub trim_space-newline : (s : Text) → IsTrimmed s → trim_space (s ++ b'\n' ∷ []) ≡ s
unfolding trim_space trim_right
trim_space-newline s h =
    ap trim_right (trim_left-Starts (s ++ b'\n' ∷ []) (Starts-append s (b'\n' ∷ []) h.starts))
    ∙ ap (λ t. reverse (trim_left t)) (reverse-snoc s b'\n')
    ∙ ap reverse (trim_left-newline (reverse s))
    ∙ ap reverse (trim_left-Starts (reverse s) h.ends)
    ∙ reverse-reverse s
