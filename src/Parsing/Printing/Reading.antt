-- ===== src/Parsing/Printing/Reading.antt =====
-- src/parsing/expression.rs: what is printed is read back.
use mathlib.Core.Path.{subst}
use map2_legacy.Base.{
  ◌≡◌, refl, sym, ℕ, zero, suc, ◌≤◌, [], ◌∷◌, ◌++◌, Bool, true, false, Option, none, Text, codes,
  length, arith,
}
use map2_legacy.Ast.{Expr, value_of, bool}
use map2_legacy.Parsing.Results.{ok}
use map2_legacy.Parsing.Nom.{E, Libraries}
use map2_legacy.Parsing.NomLaws.{NomLaws}
use map2_legacy.Parsing.Expressions.{expr_4, expr_3}
use map2_legacy.Parsing.Grammar.{Parsers, next_level, grammar}
use map2_legacy.Parsing.Precedence.{Given}
use map2_legacy.Parsing.Progress.{tag_custom-prefix}
use map2_legacy.Parsing.Operands.{expr_4-boolean}
use map2_legacy.Parsing.Runs.{alt-first, map-ok, tuple-both, solid}
use map2_legacy.Parsing.Printing.{
  Op, Term, truth, binary, symbol, to_expr, word_for, print_before, print, height,
  height-print_before, print-append, length-print_before,
}
use map2_legacy.Parsing.Printing.Operators.{Closing, parenthesis}
use map2_legacy.Parsing.Printing.Levels.{closed-expr_0, binary-expr_0}

height-positive : (t : Term) → 1 ≤ height t
height-positive (truth b) = omega arith
height-positive (binary o l r) = omega arith

print_before-solid : (t : Term) (s : Text) → solid (print_before t s) ≡ true
print_before-solid (truth true) s = refl
print_before-solid (truth false) s = refl
print_before-solid (binary o l r) s = refl

module _ (lib : Libraries) (laws : NomLaws lib.nom) where
  -- A parenthesis with what an expression gives inside it.
  expr_4-parenthesis :
      (g : Parsers) (i s : Text) (e : Expr)
      → Given g.expression i e (b')' ∷ s)
      → Given (expr_4 lib g.expression g.braces) (b'(' ∷ i) e s
  unfolding expr_4
  expr_4-parenthesis g i s e (last, h) = (
    last,
    alt-first lib laws _ _ (b'(' ∷ i) s (e, last)
        (map-ok lib laws _ _ (b'(' ∷ i) s _ (
          tuple-both lib laws _ _ (b'(' ∷ i) i s (codes "(") _
            (tag_custom-prefix lib.nom laws (codes "(") i)
            (tuple-both lib laws _ _ i (b')' ∷ s) s (e, last) (codes ")") h
              (tag_custom-prefix lib.nom laws (codes ")") s)))),
  )

  expr_3-Given :
      (g : Parsers) (i s : Text) (e : Expr)
      → Given (expr_4 lib g.expression g.braces) i e s
      → Given (expr_3 lib g.operand g.expression g.braces) i e s
  unfolding expr_3
  expr_3-Given g i s e (last, h) = (last, alt-first lib laws _ _ i s (e, last) h)

  expr_4-truth :
      (g : Parsers) (b : Bool) (s : Text)
      → Given (expr_4 lib g.expression g.braces) (word_for b ++ s) (value_of (bool b)) s
  expr_4-truth g true s = (none, (expr_4-boolean lib laws g.expression g.braces s).0)
  expr_4-truth g false s = (none, (expr_4-boolean lib laws g.expression g.braces s).1)

  expression-binary :
      (n : ℕ) (o : Op) (l r : Term) (s : Text)
      → Given
          (grammar lib (suc n)).operand
          (print_before l (b' ' ∷ (symbol o ++ b' ' ∷ print_before r (b')' ∷ s))))
          (to_expr l)
          (b' ' ∷ (symbol o ++ b' ' ∷ print_before r (b')' ∷ s)))
      → Given (grammar lib (suc n)).operand (print_before r (b')' ∷ s)) (to_expr r) (b')' ∷ s)
      → Given
          (grammar lib (suc n)).expression
          (print_before l (b' ' ∷ (symbol o ++ b' ' ∷ print_before r (b')' ∷ s))))
          (to_expr (binary o l r))
          (b')' ∷ s)
  unfolding grammar next_level
  expression-binary n o l r s left right =
      binary-expr_0 lib laws (grammar lib (suc n)).operand b')' s parenthesis _
        (print_before r (b')' ∷ s)) (to_expr l) (to_expr r) (print_before-solid r _) right
        (length-print_before r (b')' ∷ s)) o left

  operand-print_before :
      (n : ℕ) (t : Term) (s : Text)
      → height t ≤ n
      → Given (grammar lib n).operand (print_before t s) (to_expr t) s
  unfolding grammar next_level
  operand-print_before zero (truth b) s h = absurd (omega arith)
  operand-print_before zero (binary o l r) s h = absurd (omega arith)
  operand-print_before (suc n) (truth b) s h =
      expr_3-Given (grammar lib n) _ s _ (expr_4-truth (grammar lib n) b s)
  operand-print_before (suc zero) (binary o l r) s h = absurd (omega (arith, height-positive l))
  operand-print_before (suc (suc n)) (binary o l r) s h = expr_3-Given (grammar lib (suc n)) _ s _ (
      expr_4-parenthesis (grammar lib (suc n)) _ s _ (
        expression-binary n o l r s (operand-print_before (suc n) l _ (omega arith))
          (operand-print_before (suc n) r _ (omega arith))))

  -- Where the nom library behaves as documented, an expression over Booleans with all ten binary
  -- operators, printed with each operation in parentheses and with blanks around its operator, is
  -- read back as that expression from in front of a closing parenthesis or a semicolon, at every
  -- fuel that is at least the length of what is printed.
  pub expression-print :
      (n : ℕ) (t : Term) (c : ℕ) (s : Text)
      → length (print t) ≤ n
      → Closing c
      → (last : Option E) × ((grammar lib n).expression (print t ++ c ∷ s)
          ≡ ok (c ∷ s) (to_expr t, last))
  unfolding grammar next_level
  expression-print zero t c s h closing =
      absurd (omega (arith, height-positive t, height-print_before t []))
  expression-print (suc n) t c s h closing =
      subst (λ x. Given (grammar lib (suc n)).expression x (to_expr t) (c ∷ s))
        (sym (print-append t (c ∷ s)))
        (closed-expr_0 lib laws (grammar lib (suc n)).operand c s closing _ _
          (operand-print_before (suc n) t (c ∷ s) (omega (arith, height-print_before t []))))
