-- ===== src/Parsing/Progress/Keys.antt =====
-- src/parsing/key.rs, src/parsing/key_action.rs, src/parsing/key_sequence.rs and src/parsing/key_mapping.rs:
-- how much the parsers of keys take.
use map2_legacy.Base.{ℕ, ◌+◌, ◌≤◌, List, Option, none, some, Text, codes, length, arith}
use map2_legacy.Key.{Key, KeyModifierFlags}
use map2_legacy.Mapping.{ParsedKeyAction}
use map2_legacy.Parsing.Nom.{P, Libraries}
use map2_legacy.Parsing.NomLaws.{Ends, Takes, NomLaws}
use map2_legacy.Parsing.Keys.{FlagsResult, flags, repeated, unreachable}
use map2_legacy.Parsing.Lexer.{tag_custom}
use map2_legacy.Parsing.KeyParsers.{
  of_flags, of_key, of_sequence, parse_key_flags, key, key_state, key_with_state, parse_key_action,
  key_action_with_flags, sequence_part, key_sequence, key_mapping_inline,
}
use map2_legacy.Parsing.Progress.{
  Ends-map_ok, Ends-bind, Takes-then, Takes-alt, Takes-map, Takes-map_res, Takes-recognize,
}
use map2_legacy.Parsing.Progress.Tokens.{Takes-tag, Takes-ws1, Takes-ident}

Ends-of_flags : (i j : Text) (r : FlagsResult) → 0 + length j ≤ length i → Ends 0 i (of_flags i j r)
Ends-of_flags i j (flags f) h = h
Ends-of_flags i j repeated h = tt
Ends-of_flags i j unreachable h = tt

Ends-of_key :
    (i j : Text) (o : Option (Key × KeyModifierFlags))
    → 0 + length j ≤ length i
    → Ends 0 i (of_key i j o)
Ends-of_key i j none h = tt
Ends-of_key i j (some k) h = h

Ends-of_sequence :
    (i j : Text) (o : Option (List ParsedKeyAction))
    → 0 + length j ≤ length i
    → Ends 0 i (of_sequence i j o)
Ends-of_sequence i j none h = tt
Ends-of_sequence i j (some l) h = h

module _ (lib : Libraries) (laws : NomLaws lib.nom) where
  Takes-both :
      {A B : Type 0} (n : ℕ) (p : P A) (q : P B)
      → Takes 0 n p
      → Takes 0 n q
      → Takes 0 n (lib.nom.tuple p q)
  Takes-both n p q = Takes-then lib.nom laws 0 n p q

  Takes-exactly : (n : ℕ) (t : Text) → 1 ≤ length t → Takes 0 n (tag_custom lib.nom t)
  Takes-exactly = Takes-tag lib.nom laws

  Takes-parse_key_flags : (n : ℕ) → Takes 0 n (parse_key_flags lib)
  unfolding parse_key_flags
  Takes-parse_key_flags n i below =
      Ends-bind 0 0 i _ _ (laws.many0 _ n (λ i _. laws.one_of _ i) i below)
        (λ j a short. Ends-of_flags i j _ short)

  Takes-key : (n : ℕ) → Takes 0 n (key lib)
  unfolding key
  Takes-key n i below =
      Ends-bind 0 0 i _ _
        (Takes-alt lib.nom laws 0 n _ _ (Takes-map lib.nom laws 0 n _ _ (Takes-ident lib laws n))
          (λ i _. laws.take 1 i) i below)
        (λ j a short. Ends-of_key i j _ short)

  Takes-key_state : (n : ℕ) → Takes 0 n (key_state lib)
  unfolding key_state
  Takes-key_state n i below =
      Ends-map_ok 0 i _ _
        (Takes-alt lib.nom laws 0 n _ _ (λ i _. laws.tag _ i) (λ i _. laws.tag _ i) i below)

  Takes-key_with_state : (n : ℕ) → Takes 0 n (key_with_state lib)
  unfolding key_with_state
  Takes-key_with_state n i below = Ends-map_ok 0 i _ _ (
      Takes-both n _ _ (Takes-key n)
        (Takes-both n _ _ (Takes-ws1 lib.nom laws n) (Takes-key_state n)) i below)

  Takes-in_braces :
      {A : Type 0} (n : ℕ) (p : P A)
      → Takes 0 n p
      → Takes 0 n (
          lib.nom.tuple
            (tag_custom lib.nom (codes "{"))
            (lib.nom.tuple p (tag_custom lib.nom (codes "}"))))
  Takes-in_braces n p h =
      Takes-both n _ _ (Takes-exactly n _ (omega arith))
        (Takes-both n _ _ h (Takes-exactly n _ (omega arith)))

  pub Takes-parse_key_action : (n : ℕ) → Takes 0 n (parse_key_action lib)
  unfolding parse_key_action
  Takes-parse_key_action n i below = Ends-map_ok 0 i _ _ (
      Takes-alt lib.nom laws 0 n _ _
        (Takes-map lib.nom laws 0 n _ _ (Takes-in_braces n _ (Takes-key_with_state n)))
        (Takes-map lib.nom laws 0 n _ _ (
          Takes-alt lib.nom laws 0 n _ _
            (Takes-map lib.nom laws 0 n _ _ (Takes-in_braces n _ (Takes-key n)))
            (Takes-map lib.nom laws 0 n _ _ (Takes-key n))))
        i below)

  pub Takes-key_action_with_flags : (n : ℕ) → Takes 0 n (key_action_with_flags lib)
  unfolding key_action_with_flags
  Takes-key_action_with_flags n i below =
      Ends-map_ok 0 i _ _
        (Takes-both n _ _ (Takes-parse_key_flags n) (Takes-parse_key_action n) i below)

  Takes-sequence_part : (n : ℕ) → Takes 0 n (sequence_part lib)
  unfolding sequence_part
  Takes-sequence_part n =
      Takes-alt lib.nom laws 0 n _ _
        (Takes-map_res lib.nom laws n _ _ (
          Takes-recognize lib.nom laws n _ (
            Takes-both n _ _ (Takes-exactly n _ (omega arith)) (
              Takes-map lib.nom laws 0 n _ _ (
                Takes-both n _ _ (λ i _. laws.take_until _ i) (Takes-exactly n _ (omega arith)))))))
        (Takes-map_res lib.nom laws n _ _ (λ i _. laws.take 1 i))

  pub Takes-key_sequence : (n : ℕ) → Takes 0 n (key_sequence lib)
  unfolding key_sequence
  Takes-key_sequence n i below =
      Ends-bind 0 0 i _ _
        (Takes-both n _ _ (Takes-exactly n _ (omega arith))
          (Takes-both n _ _ (laws.many1 _ n (Takes-sequence_part n))
            (Takes-exactly n _ (omega arith)))
          i below)
        (λ j a short. Ends-of_sequence i j _ short)

  pub Takes-key_mapping_inline : (n : ℕ) → Takes 0 n (key_mapping_inline lib)
  unfolding key_mapping_inline
  Takes-key_mapping_inline n i below = Ends-map_ok 0 i _ _ (
      Takes-both n _ _ (Takes-key_action_with_flags n)
        (Takes-both n _ _ (Takes-exactly n _ (omega arith)) (
          Takes-alt lib.nom laws 0 n _ _ (Takes-key_sequence n)
            (Takes-map lib.nom laws 0 n _ _ (Takes-key_action_with_flags n))))
        i below)
