-- ===== src/Parsing/Progress/Tokens.antt =====
-- src/parsing/custom_combinators.rs, src/parsing/identifier.rs and src/parsing/primitives.rs: how much
-- the parsers of tokens take.
use mathlib.Core.Path.{subst}
use map2_legacy.Base.{
  sym, ℕ, ◌≤◌, [], ◌∷◌, Bool, ◌||◌, Text, nat_beq, length, Bool-cases, inl, inr, arith,
}
use map2_legacy.Parsing.Nom.{Nom, Libraries}
use map2_legacy.Parsing.NomLaws.{is_blank, Ends, Takes, NomLaws}
use map2_legacy.Parsing.Lexer.{
  tag_custom, line_comment, inline_comment, comments, ws0, ws1, string_literal, boolean,
  number_literal, span, word_of, word, reserved, is_in, ident,
}
use map2_legacy.Parsing.Progress.{
  Ends-map_ok, Ends-map_err, Ends-bind, Ends-later, Takes-weaken, Takes-then, Takes-alt, Takes-map,
  Takes-tag_custom,
}

pub length-span : (p : ℕ → Bool) (s : Text) → length (span p s).1 ≤ length s
length-span p [] = omega arith
length-span p (c ∷ s) = ground (arith, length-span p s)

module _ (nom : Nom) (laws : NomLaws nom) where
  Ends-multispace0 : (i : Text) → Ends 0 i (nom.multispace0 i)
  Ends-multispace0 i =
      subst (Ends 0 i) (sym (laws.multispace0 i)) (omega (arith, length-span is_blank i))

  Takes-comments : (n : ℕ) → Takes 0 n (comments nom)
  unfolding comments line_comment inline_comment
  Takes-comments n = laws.many0 _ n (
      Takes-then nom laws 0 n _ _
        (Takes-alt nom laws 0 n _ _
          (Takes-map nom laws 0 n _ _
            (Takes-then nom laws 0 n _ _ (λ i _. laws.tag _ i) (λ i _. laws.is_not _ i)))
          (Takes-map nom laws 0 n _ _ (
            Takes-then nom laws 0 n _ _ (λ i _. laws.tag _ i)
              (Takes-then nom laws 0 n _ _ (λ i _. laws.take_until _ i) (λ i _. laws.tag _ i)))))
        (λ i _. Ends-multispace0 i))

  pub Takes-ws0 : (n : ℕ) → Takes 0 n (ws0 nom)
  unfolding ws0
  Takes-ws0 n =
      Takes-map nom laws 0 n _ _
        (Takes-then nom laws 0 n _ _ (λ i _. Ends-multispace0 i) (Takes-comments n))

  pub Takes-ws1 : (n : ℕ) → Takes 0 n (ws1 nom)
  unfolding ws1
  Takes-ws1 n =
      Takes-map nom laws 0 n _ _
        (Takes-then nom laws 0 n _ _ (λ i _. laws.multispace1 i) (Takes-comments n))

  pub Takes-tag : (n : ℕ) (t : Text) → 1 ≤ length t → Takes 0 n (tag_custom nom t)
  Takes-tag n t some_char = Takes-weaken n _ (Takes-tag_custom nom laws n t some_char)

  pub Takes-string_literal : (n : ℕ) → Takes 0 n (string_literal nom)
  unfolding string_literal
  Takes-string_literal n i below = Ends-map_ok 0 i _ _ (
      Ends-map_err 0 i _ _ (
        Takes-then nom laws 0 n _ _ (Takes-tag n _ (omega arith))
          (Takes-then nom laws 0 n _ _ (λ i _. laws.take_until _ i) (Takes-tag n _ (omega arith))) i
          below))

  pub Takes-boolean : (n : ℕ) → Takes 0 n (boolean nom)
  unfolding boolean
  Takes-boolean n i below = Ends-map_ok 0 i _ _ (
      Ends-map_err 0 i _ _ (
        Takes-alt nom laws 0 n _ _ (Takes-tag n _ (omega arith)) (Takes-tag n _ (omega arith)) i
          below))

  pub Takes-number_literal : (n : ℕ) → Takes 0 n (number_literal nom)
  unfolding number_literal
  Takes-number_literal n i below = Ends-map_ok 0 i _ _ (Ends-map_err 0 i _ _ (laws.double i))

module _ (lib : Libraries) (laws : NomLaws lib.nom) where
  Ends-word_of : (s : Text) → Ends 0 s (word_of lib s)
  Ends-word_of [] = tt
  Ends-word_of (ch ∷ s) = elim (Bool-cases (lib.is_xid_start ch || nat_beq ch b'_')) [
    | inl yes₁ ↦ rw yes₁ (omega (arith, length-span lib.is_xid_continue s))
    | inr no₁ ↦ rw no₁ tt
  ]

  Takes-word : (n : ℕ) → Takes 0 n (word lib)
  unfolding word
  Takes-word n i below =
      Ends-bind 0 0 i _ _ (Takes-ws0 lib.nom laws n i below)
        (λ j a short. Ends-later 0 0 0 i j _ short (omega arith) (Ends-word_of j))

  pub Takes-ident : (n : ℕ) → Takes 0 n (ident lib)
  unfolding ident
  Takes-ident n i below =
      Ends-bind 0 0 i _ _ (Ends-map_err 0 i _ _ (Takes-word n i below)) (λ j a short.
        elim (Bool-cases (is_in a.0 reserved)) [
          | inl yes₁ ↦ rw yes₁ tt
          | inr no₁ ↦ rw no₁ (omega arith)
        ])
