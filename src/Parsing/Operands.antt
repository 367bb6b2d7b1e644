-- ===== src/Parsing/Operands.antt =====
-- src/parsing/expression.rs: what the order of the alternatives of `expr_4` means for what they have
-- in common.
use map2_legacy.Base.{◌≡◌, refl, ℕ, ◌++◌, true, false, Option, none, Text, codes}
use map2_legacy.Ast.{Expr, value_of, bool, number, Block}
use map2_legacy.Parsing.Results.{ok}
use map2_legacy.Parsing.Error.{from_tag}
use map2_legacy.Parsing.Nom.{E, PNew, Libraries}
use map2_legacy.Parsing.NomLaws.{NomLaws}
use map2_legacy.Parsing.Keys.{starts_with}
use map2_legacy.Parsing.Lexer.{string_literal, boolean, number_literal}
use map2_legacy.Parsing.Expressions.{expr_4}
use map2_legacy.Parsing.Progress.{tag_custom-prefix, tag_custom-other}
use map2_legacy.Parsing.Runs.{
  relabel-ok, relabel-error, alt-first, alt-second, alt-neither, tuple-error, map-error,
}

module _ (lib : Libraries) (laws : NomLaws lib.nom) where
  module _ (parse_expr : PNew Expr) (parse_block : PNew Block) where
    -- The alternatives up to the one that is tried after the first.
    expr_4-no_parenthesis :
        (i k : Text) (e : Expr × Option E)
        → starts_with (codes "(") i ≡ false
        → boolean lib.nom i ≡ ok k e
        → expr_4 lib parse_expr parse_block i ≡ ok k e
    unfolding expr_4
    expr_4-no_parenthesis i k e other h =
        alt-second lib laws _ _ i k (from_tag i (codes "(")) e
          (map-error lib laws _ _ i _
            (tuple-error lib laws _ _ i _ (tag_custom-other lib.nom laws _ i other)))
          (alt-first lib laws _ _ i k e h)

    -- Where the nom library behaves as documented, an operand that starts with true or false is
    -- that Boolean, whatever follows: no identifier that starts with one of these words is read as
    -- a variable or called.
    pub expr_4-boolean :
        (s : Text)
        → (expr_4 lib parse_expr parse_block (codes "true" ++ s)
            ≡ ok s (value_of (bool true), none))
          × (expr_4 lib parse_expr parse_block (codes "false" ++ s)
              ≡ ok s (value_of (bool false), none))
    unfolding boolean
    expr_4-boolean s =
        let yes_tag = tag_custom-prefix lib.nom laws (codes "true") s in
        let no_tag = tag_custom-prefix lib.nom laws (codes "false") s in
        let first = alt-first lib laws _ _ (codes "true" ++ s) s (codes "true") yes_tag in
        let second =
          alt-second lib laws _ _ (codes "false" ++ s) s _ (codes "false")
            (tag_custom-other lib.nom laws (codes "true") (codes "false" ++ s) refl) no_tag in
        (
          expr_4-no_parenthesis _ s _ refl (relabel-ok _ _ _ s _ first),
          expr_4-no_parenthesis _ s _ refl (relabel-ok _ _ _ s _ second),
        )

    -- Where the nom library behaves as documented, an operand that starts with a number, and with
    -- no parenthesis, Boolean or quote, is that number: no key mapping that starts with one is
    -- tried.
    pub expr_4-number :
        (i k : Text) (v : ℕ)
        → starts_with (codes "(") i ≡ false
        → starts_with (codes "true") i ≡ false
        → starts_with (codes "false") i ≡ false
        → starts_with (codes "\"") i ≡ false
        → lib.nom.double i ≡ ok k v
        → expr_4 lib parse_expr parse_block i ≡ ok k (value_of (number v), none)
    unfolding expr_4 boolean string_literal number_literal
    expr_4-number i k v no_bracket no_true no_false no_quote h =
        let other =
          λ (t : Text) (e : starts_with t i ≡ false). tag_custom-other lib.nom laws t i e in
        let (last, no_bool) =
          alt-neither lib laws _ _ i _ _ (other (codes "true") no_true)
            (other (codes "false") no_false) in
        alt-second lib laws _ _ i k _ _
          (map-error lib laws _ _ i _ (tuple-error lib laws _ _ i _ (other (codes "(") no_bracket)))
          (alt-second lib laws _ _ i k _ _ (relabel-error _ _ last _ no_bool) (
            alt-second lib laws _ _ i k _ _
              (relabel-error _ _ _ _ (tuple-error lib laws _ _ i _ (other (codes "\"") no_quote)))
              (alt-first lib laws _ _ i k _ (relabel-ok _ _ _ k v h))))
