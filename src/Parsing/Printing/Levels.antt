-- ===== src/Parsing/Printing/Levels.antt =====
-- src/parsing/expression.rs: an operand that is printed is read at each level of operators, and two with
-- an operator between them.
use map2_legacy.Base.{
  ◌≡◌, refl, ℕ, ◌≤◌, ◌∷◌, ◌++◌, true, false, Option, some, Text, codes, length, length-append,
  arith,
}
use map2_legacy.Ast.{Expr}
use map2_legacy.Parsing.Results.{ok}
use map2_legacy.Parsing.Nom.{E, P, PNew, Libraries}
use map2_legacy.Parsing.NomLaws.{NomLaws}
use map2_legacy.Parsing.Keys.{starts_with}
use map2_legacy.Parsing.Expressions.{
  build_2, build_1, build_0, operation, level, operators_2, operators_1, operators_0, expr_2,
  expr_1, expr_0,
}
use map2_legacy.Parsing.Precedence.{Given}
use map2_legacy.Parsing.Runs.{
  tuple-error, tuple-both, tuple-second_error, solid, ws0-solid, ws0-space, level-operand,
  level-operation,
}
use map2_legacy.Parsing.Printing.{
  Op, op_mul, op_div, op_add, op_sub, op_eq, op_neq, op_and, op_or, op_lt, op_gt, symbol, of_op,
}
use map2_legacy.Parsing.Printing.Operators.{
  Closing, parenthesis, semicolon, Fails, later_found, found, found_last, no_product, no_sum,
  closed_2, closed_1, closed_0,
}

closed-solid : (c : ℕ) (s : Text) → Closing c → solid (c ∷ s) ≡ true
closed-solid _ s parenthesis = refl
closed-solid _ s semicolon = refl

module _ (lib : Libraries) (laws : NomLaws lib.nom) where
  operation-closed :
      (ops : P Text) (p : PNew Expr) (c : ℕ) (s : Text)
      → Closing c
      → Fails ops (c ∷ s)
      → Fails (operation lib ops p) (c ∷ s)
  operation-closed ops p c s h (e, f) = (
    e,
    tuple-second_error lib laws _ _ (c ∷ s) (c ∷ s) tt e
        (ws0-solid lib laws (c ∷ s) (closed-solid c s h)) (tuple-error lib laws _ _ (c ∷ s) e f),
  )

  operation-other :
      (ops : P Text) (p : PNew Expr) (x : Text)
      → solid x ≡ true
      → Fails ops x
      → Fails (operation lib ops p) (b' ' ∷ x)
  operation-other ops p x h (e, f) = (
    e,
    tuple-second_error lib laws _ _ (b' ' ∷ x) x tt e (ws0-space lib laws x h)
        (tuple-error lib laws _ _ x e f),
  )

  operation-found :
      (ops : P Text) (p : PNew Expr) (x v y z : Text) (r : Expr × Option E)
      → solid x ≡ true
      → ops x ≡ ok (b' ' ∷ y) v
      → solid y ≡ true
      → p y ≡ ok z r
      → operation lib ops p (b' ' ∷ x) ≡ ok z (tt, (v, (tt, r)))
  operation-found ops p x v y z r hx e hy h =
      tuple-both lib laws _ _ (b' ' ∷ x) x z tt _ (ws0-space lib laws x hx) (
        tuple-both lib laws _ _ x (b' ' ∷ y) z v _ e
          (tuple-both lib laws _ _ (b' ' ∷ y) y z tt r (ws0-space lib laws y hy) h))

  level-Given :
      (ops : P Text) (build : Expr → Text → Expr → Expr) (p : PNew Expr) (i s : Text) (e : Expr)
      → Given p i e s
      → Fails (operation lib ops p) s
      → Given (level lib ops build p) i e s
  level-Given ops build p i s e (last, h) (err, f) =
      (some err, level-operand lib laws ops build p i s e last err h f)

  -- Two operands at their level, in front of what closes them.
  level-binary :
      (ops : P Text) (build : Expr → Text → Expr → Expr) (p : PNew Expr) (i x v y : Text) (c : ℕ)
      (s : Text) (e r : Expr)
      → Given p i e (b' ' ∷ x)
      → solid x ≡ true
      → ops x ≡ ok (b' ' ∷ y) v
      → solid y ≡ true
      → Given p y r (c ∷ s)
      → length (c ∷ s) ≤ length y
      → length y ≤ length x
      → Closing c
      → Fails ops (c ∷ s)
      → Given (level lib ops build p) i (build e v r) (c ∷ s)
  level-binary ops build p i x v y c s e r (last, h) hx found_v hy (last₁, g) short short₁ closing
        f =
      let (err, stops) = operation-closed ops p c s closing f in
      (
        some err,
        level-operation lib laws ops build p i (b' ' ∷ x) (c ∷ s) e last (tt, (v, (tt, (r, last₁))))
            err h (operation-found ops p x v y (c ∷ s) (r, last₁) hx found_v hy g) (omega arith)
            stops,
      )

  -- Past the levels whose operators are not found behind the operand.
  above_2 :
      (p : PNew Expr) (i x : Text) (e : Expr)
      → solid x ≡ true
      → Given p i e (b' ' ∷ x)
      → Fails (operators_2 lib) x
      → Given (expr_2 lib p) i e (b' ' ∷ x)
  unfolding expr_2
  above_2 p i x e hx h none_2 =
      level-Given _ build_2 p i (b' ' ∷ x) e h (operation-other _ p x hx none_2)

  above_1 :
      (p : PNew Expr) (i x : Text) (e : Expr)
      → solid x ≡ true
      → Given (expr_2 lib p) i e (b' ' ∷ x)
      → Fails (operators_1 lib) x
      → Given (expr_1 lib p) i e (b' ' ∷ x)
  unfolding expr_1
  above_1 p i x e hx h none_1 =
      level-Given _ build_1 (expr_2 lib p) i (b' ' ∷ x) e h (operation-other _ _ x hx none_1)

  module _ (p : PNew Expr) (c : ℕ) (s : Text) (closing : Closing c) where
    closed-expr_2 : (i : Text) (e : Expr) → Given p i e (c ∷ s) → Given (expr_2 lib p) i e (c ∷ s)
    unfolding expr_2
    closed-expr_2 i e h =
        level-Given _ build_2 p i (c ∷ s) e h
          (operation-closed _ p c s closing (closed_2 lib laws c s closing))

    step-expr_1 :
        (i : Text) (e : Expr) → Given (expr_2 lib p) i e (c ∷ s) → Given (expr_1 lib p) i e (c ∷ s)
    unfolding expr_1
    step-expr_1 i e h =
        level-Given _ build_1 (expr_2 lib p) i (c ∷ s) e h
          (operation-closed _ _ c s closing (closed_1 lib laws c s closing))

    step-expr_0 :
        (i : Text) (e : Expr) → Given (expr_1 lib p) i e (c ∷ s) → Given (expr_0 lib p) i e (c ∷ s)
    unfolding expr_0
    step-expr_0 i e h =
        level-Given _ build_0 (expr_1 lib p) i (c ∷ s) e h
          (operation-closed _ _ c s closing (closed_0 lib laws c s closing))

    -- An operand alone.
    pub closed-expr_0 :
        (i : Text) (e : Expr) → Given p i e (c ∷ s) → Given (expr_0 lib p) i e (c ∷ s)
    closed-expr_0 i e h = step-expr_0 i e (step-expr_1 i e (closed-expr_2 i e h))

    module _ (i y : Text) (e r : Expr) (hy : solid y ≡ true) (right : Given p y r (c ∷ s))
        (short : length (c ∷ s) ≤ length y) where
      product :
          (t : Text)
          → Given p i e (b' ' ∷ (t ++ b' ' ∷ y))
          → solid (t ++ b' ' ∷ y) ≡ true
          → operators_2 lib (t ++ b' ' ∷ y) ≡ ok (b' ' ∷ y) t
          → Given (expr_0 lib p) i (build_2 e t r) (c ∷ s)
      unfolding expr_2
      product t left ht found_t = step-expr_0 i _ (
          step-expr_1 i _ (
            level-binary _ build_2 p i (t ++ b' ' ∷ y) t y c s e r left ht found_t hy right short
              (omega (arith, length-append t (b' ' ∷ y))) closing (closed_2 lib laws c s closing)))

      sum :
          (t : Text)
          → Given p i e (b' ' ∷ (t ++ b' ' ∷ y))
          → solid (t ++ b' ' ∷ y) ≡ true
          → Fails (operators_2 lib) (t ++ b' ' ∷ y)
          → operators_1 lib (t ++ b' ' ∷ y) ≡ ok (b' ' ∷ y) t
          → Given (expr_0 lib p) i (build_1 e t r) (c ∷ s)
      unfolding expr_1
      sum t left ht none_2 found_t = step-expr_0 i _ (
          level-binary _ build_1 (expr_2 lib p) i (t ++ b' ' ∷ y) t y c s e r
            (above_2 p i _ e ht left none_2) ht found_t hy (closed-expr_2 y r right) short
            (omega (arith, length-append t (b' ' ∷ y))) closing (closed_1 lib laws c s closing))

      test :
          (t : Text)
          → Given p i e (b' ' ∷ (t ++ b' ' ∷ y))
          → solid (t ++ b' ' ∷ y) ≡ true
          → Fails (operators_2 lib) (t ++ b' ' ∷ y)
          → Fails (operators_1 lib) (t ++ b' ' ∷ y)
          → operators_0 lib (t ++ b' ' ∷ y) ≡ ok (b' ' ∷ y) t
          → Given (expr_0 lib p) i (build_0 e t r) (c ∷ s)
      unfolding expr_0
      test t left ht none_2 none_1 found_t =
          level-binary _ build_0 (expr_1 lib p) i (t ++ b' ' ∷ y) t y c s e r
            (above_1 p i _ e ht (above_2 p i _ e ht left none_2) none_1) ht found_t hy
            (step-expr_1 y r (closed-expr_2 y r right)) short
            (omega (arith, length-append t (b' ' ∷ y))) closing (closed_0 lib laws c s closing)

      symbolic :
          (t : Text)
          → Given p i e (b' ' ∷ (t ++ b' ' ∷ y))
          → solid (t ++ b' ' ∷ y) ≡ true
          → starts_with (codes "*") (t ++ b' ' ∷ y) ≡ false
          → starts_with (codes "/") (t ++ b' ' ∷ y) ≡ false
          → starts_with (codes "+") (t ++ b' ' ∷ y) ≡ false
          → starts_with (codes "-") (t ++ b' ' ∷ y) ≡ false
          → operators_0 lib (t ++ b' ' ∷ y) ≡ ok (b' ' ∷ y) t
          → Given (expr_0 lib p) i (build_0 e t r) (c ∷ s)
      symbolic t h ht h₁ h₂ h₃ h₄ =
          test t h ht (no_product lib laws _ h₁ h₂) (no_sum lib laws _ h₃ h₄)

      -- Whatever the operator.
      pub binary-expr_0 :
          (o : Op)
          → Given p i e (b' ' ∷ (symbol o ++ b' ' ∷ y))
          → Given (expr_0 lib p) i (of_op o e r) (c ∷ s)
      binary-expr_0 op_mul h = product _ h refl (found lib laws _ _ _)
      binary-expr_0 op_div h =
          product _ h refl (later_found lib laws _ _ _ _ _ refl (found_last lib laws _ _))
      binary-expr_0 op_add h = sum _ h refl (no_product lib laws _ refl refl) (found lib laws _ _ _)
      binary-expr_0 op_sub h =
          sum _ h refl (no_product lib laws _ refl refl)
            (later_found lib laws _ _ _ _ _ refl (found_last lib laws _ _))
      binary-expr_0 op_eq h = symbolic _ h refl refl refl refl refl (found lib laws _ _ _)
      binary-expr_0 op_neq h =
          symbolic _ h refl refl refl refl refl
            (later_found lib laws _ _ _ _ _ refl (found lib laws _ _ _))
      binary-expr_0 op_and h = symbolic _ h refl refl refl refl refl (
          later_found lib laws _ _ _ _ _ refl
            (later_found lib laws _ _ _ _ _ refl (found lib laws _ _ _)))
      binary-expr_0 op_or h = symbolic _ h refl refl refl refl refl (
          later_found lib laws _ _ _ _ _ refl (
            later_found lib laws _ _ _ _ _ refl
              (later_found lib laws _ _ _ _ _ refl (found lib laws _ _ _))))
      binary-expr_0 op_lt h = symbolic _ h refl refl refl refl refl (
          later_found lib laws _ _ _ _ _ refl (
            later_found lib laws _ _ _ _ _ refl (
              later_found lib laws _ _ _ _ _ refl
                (later_found lib laws _ _ _ _ _ refl (found lib laws _ _ _)))))
      binary-expr_0 op_gt h = symbolic _ h refl refl refl refl refl (
          later_found lib laws _ _ _ _ _ refl (
            later_found lib laws _ _ _ _ _ refl (
              later_found lib laws _ _ _ _ _ refl (
                later_found lib laws _ _ _ _ _ refl
                  (later_found lib laws _ _ _ _ _ refl (found_last lib laws _ _))))))
