-- ===== src/Parsing/Printing/Operators.antt =====
-- src/parsing/expression.rs: which operators are found at each level.
use map2_legacy.Base.{◌≡◌, refl, ℕ, ◌∷◌, ◌++◌, false, Text, codes}
use map2_legacy.Parsing.Results.{ok, error}
use map2_legacy.Parsing.Nom.{E, P, Libraries}
use map2_legacy.Parsing.NomLaws.{NomLaws}
use map2_legacy.Parsing.Keys.{starts_with}
use map2_legacy.Parsing.Lexer.{tag_custom}
use map2_legacy.Parsing.Expressions.{operators_2, operators_1, operators_0}
use map2_legacy.Parsing.Progress.{tag_custom-prefix, tag_custom-other}
use map2_legacy.Parsing.Runs.{alt-first, alt-second, alt-neither}

-- What may stand behind an expression here.
pub data Closing : ℕ → Type 0 where
  parenthesis : Closing b')'
  semicolon : Closing b';'

abbrev pub Fails : {A : Type 0} → P A → Text → Type 0
Fails p i = (e : E) × (p i ≡ error e)

module _ (lib : Libraries) (laws : NomLaws lib.nom) where
  tag-Fails : (t i : Text) → starts_with t i ≡ false → Fails (tag_custom lib.nom t) i
  tag-Fails t i h = (_, tag_custom-other lib.nom laws t i h)

  alt-Fails :
      (t i : Text) (q : P Text)
      → starts_with t i ≡ false
      → Fails q i
      → Fails (lib.nom.alt (tag_custom lib.nom t) q) i
  alt-Fails t i q h (e, f) = alt-neither lib laws _ q i _ e (tag_custom-other lib.nom laws t i h) f

  pub later_found :
      (t i k v : Text) (q : P Text)
      → starts_with t i ≡ false
      → q i ≡ ok k v
      → lib.nom.alt (tag_custom lib.nom t) q i ≡ ok k v
  later_found t i k v q h f =
      alt-second lib laws _ q i k _ v (tag_custom-other lib.nom laws t i h) f

  pub found : (t s : Text) (q : P Text) → lib.nom.alt (tag_custom lib.nom t) q (t ++ s) ≡ ok s t
  found t s q = alt-first lib laws _ q (t ++ s) s t (tag_custom-prefix lib.nom laws t s)

  pub found_last : (t s : Text) → tag_custom lib.nom t (t ++ s) ≡ ok s t
  found_last t s = tag_custom-prefix lib.nom laws t s

  pub no_product :
      (i : Text)
      → starts_with (codes "*") i ≡ false
      → starts_with (codes "/") i ≡ false
      → Fails (operators_2 lib) i
  no_product i a b = alt-Fails _ i _ a (tag-Fails _ i b)

  pub no_sum :
      (i : Text)
      → starts_with (codes "+") i ≡ false
      → starts_with (codes "-") i ≡ false
      → Fails (operators_1 lib) i
  no_sum i a b = alt-Fails _ i _ a (tag-Fails _ i b)

  pub closed_2 : (c : ℕ) (s : Text) → Closing c → Fails (operators_2 lib) (c ∷ s)
  closed_2 _ s parenthesis = no_product _ refl refl
  closed_2 _ s semicolon = no_product _ refl refl

  pub closed_1 : (c : ℕ) (s : Text) → Closing c → Fails (operators_1 lib) (c ∷ s)
  closed_1 _ s parenthesis = no_sum _ refl refl
  closed_1 _ s semicolon = no_sum _ refl refl

  pub closed_0 : (c : ℕ) (s : Text) → Closing c → Fails (operators_0 lib) (c ∷ s)
  closed_0 _ s parenthesis = alt-Fails _ _ _ refl (
      alt-Fails _ _ _ refl
        (alt-Fails _ _ _ refl (alt-Fails _ _ _ refl (alt-Fails _ _ _ refl (tag-Fails _ _ refl)))))
  closed_0 _ s semicolon = alt-Fails _ _ _ refl (
      alt-Fails _ _ _ refl
        (alt-Fails _ _ _ refl (alt-Fails _ _ _ refl (alt-Fails _ _ _ refl (tag-Fails _ _ refl)))))
