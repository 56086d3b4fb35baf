-- ===== src/Parser/Suffix.antt =====
-- strings.HasPrefix and strings.HasSuffix: what a prefix and a suffix leave of a text.
use go_hypercube.Common.{
  ◌≡◌, ◌↔◌, refl, ap, ◌∙◌, sym, subst, true, [], ◌∷◌, ◌++◌, reverse, reverse-append,
  reverse-reverse, Text, arith, nat_beq_iff,
}
use go_hypercube.Parser.Strings.{has_prefix, has_suffix}

pub has_prefix-append : (p s : Text) → has_prefix p (p ++ s) ≡ true
unfolding has_prefix
has_prefix-append [] s = refl
has_prefix-append (c ∷ p) s = ground (arith, has_prefix-append p s, nat_beq_iff c c)

has_prefix-rest : (p s : Text) → has_prefix p s ≡ true → (rest : Text) × (s ≡ p ++ rest)
unfolding has_prefix
has_prefix-rest [] s h = (s, refl)
has_prefix-rest (c ∷ p) [] h = absurd (cc (h))
has_prefix-rest (c ∷ p) (d ∷ s) h =
    let (rest, e) = has_prefix-rest p s (ground arith) in
    (rest, ap (λ x. x ∷ s) (sym ((nat_beq_iff c d).0 (ground arith))) ∙ ap (λ l. c ∷ l) e)

-- A text has a suffix exactly where it is another text with the suffix behind it.
pub has_suffix_lem :
    (s suffix : Text) → (has_suffix s suffix ≡ true) ↔ ((stem : Text) × (s ≡ stem ++ suffix))
unfolding has_suffix
has_suffix_lem s suffix = (
  λ h.
      let (rest, e) = has_prefix-rest (reverse suffix) (reverse s) h in
      (
        reverse rest,
        sym (reverse-reverse s)
            ∙ ap reverse e
            ∙ reverse-append (reverse suffix) rest
            ∙ ap (λ l. reverse rest ++ l) (reverse-reverse suffix),
      ),
  λ h.
      subst (λ t. has_prefix (reverse suffix) t ≡ true)
        (sym (ap reverse h.1 ∙ reverse-append h.0 suffix))
        (has_prefix-append (reverse suffix) (reverse h.0)),
)
