-- ===== src/Parsing/Progress/Expressions.antt =====
-- src/parsing/expression.rs and the files whose parsers it tries: how much they take, where the
-- parsers that they call again take nothing back from any shorter text.
use map2_legacy.Base.{ℕ, suc, ◌+◌, ◌≤◌, Option, Text, length, Bool-cases, inl, inr, arith}
use map2_legacy.Ast.{Expr, Block}
use map2_legacy.Parsing.Nom.{E, P, PNew, Libraries}
use map2_legacy.Parsing.NomLaws.{Ends, Takes, NomLaws}
use map2_legacy.Parsing.Lexer.{tag_custom, ws0}
use map2_legacy.Parsing.Expressions.{
  may_initialize, comma_list, operation, parse_function_call, parse_lambda, initialization,
  variable_initialization, variable_assignment, variable, parse_key_mapping, expr_4, expr_3, level,
  expr_2, expr_1, expr_0,
}
use map2_legacy.Parsing.Progress.{
  Ends-map_ok, Ends-map_err, Ends-bind, Ends-later, Takes-weaken, Takes-remaining, Takes-then,
  Takes-before, Takes-first, Takes-alt, Takes-map, Takes-opt, Takes-not, Takes-tag_custom,
  Takes-folded_err,
}
use map2_legacy.Parsing.Progress.Tokens.{
  Takes-tag, Takes-ws0, Takes-ws1, Takes-ident, Takes-string_literal, Takes-boolean,
  Takes-number_literal,
}
use map2_legacy.Parsing.Progress.Keys.{Takes-key_action_with_flags, Takes-key_mapping_inline}

module _ (lib : Libraries) (laws : NomLaws lib.nom) where
  Takes-both :
      {A B : Type 0} (n : ℕ) (p : P A) (q : P B)
      → Takes 0 n p
      → Takes 0 n q
      → Takes 0 n (lib.nom.tuple p q)
  Takes-both n p q = Takes-then lib.nom laws 0 n p q

  Takes-exactly : (n : ℕ) (t : Text) → 1 ≤ length t → Takes 0 n (tag_custom lib.nom t)
  Takes-exactly = Takes-tag lib.nom laws

  Takes-strictly : (n : ℕ) (t : Text) → 1 ≤ length t → Takes 1 n (tag_custom lib.nom t)
  Takes-strictly = Takes-tag_custom lib.nom laws

  Takes-blank : (n : ℕ) → Takes 0 n (ws0 lib.nom)
  Takes-blank = Takes-ws0 lib.nom laws

  Takes-comma_list : {A : Type 0} (n : ℕ) (p : PNew A) → Takes 0 n p → Takes 0 n (comma_list lib p)
  Takes-comma_list n p h = Takes-opt lib.nom laws n _ (
      Takes-both n _ _ h (
        Takes-both n _ _ (Takes-blank n) (
          laws.many0 _ n (
            Takes-both n _ _ (Takes-exactly n _ (omega arith))
              (Takes-both n _ _ (Takes-blank n) (Takes-both n _ _ h (Takes-blank n)))))))

  Takes-level :
      (n : ℕ) (op : P Text) (build : Expr → Text → Expr → Expr) (p : PNew Expr)
      → Takes 1 n op
      → Takes 0 n p
      → Takes 0 n (level lib op build p)
  Takes-level n op build p hop hp i below = Ends-bind 0 0 i _ _ (hp i below) (λ j a short.
      Ends-later 0 0 0 i j _ short (omega arith) (
        Ends-map_ok 0 j _ _ (
          Takes-folded_err n (operation lib op p) _ _
            (Takes-then lib.nom laws 1 n _ _ (Takes-blank n)
              (Takes-before lib.nom laws 1 n _ _ hop (Takes-both n _ _ (Takes-blank n) hp)))
            j (omega arith))))

  pub Takes-expr_0 : (n : ℕ) (p : PNew Expr) → Takes 0 n p → Takes 0 n (expr_0 lib p)
  unfolding expr_0 expr_1 expr_2
  Takes-expr_0 n p h =
      let strictly = Takes-strictly n in
      let or_else = Takes-alt lib.nom laws 1 n in
      Takes-level n _ _ _
        (or_else _ _ (strictly _ (omega arith)) (
          or_else _ _ (strictly _ (omega arith)) (
            or_else _ _ (strictly _ (omega arith)) (
              or_else _ _ (strictly _ (omega arith))
                (or_else _ _ (strictly _ (omega arith)) (strictly _ (omega arith)))))))
        (Takes-level n _ _ _ (or_else _ _ (strictly _ (omega arith)) (strictly _ (omega arith))) (
          Takes-level n _ _ _ (or_else _ _ (strictly _ (omega arith)) (strictly _ (omega arith)))
            h))

  Takes-variable : (n : ℕ) → Takes 0 n (variable lib)
  unfolding variable
  Takes-variable n i below = Ends-map_ok 0 i _ _ (Takes-ident lib laws n i below)

  module _ (n : ℕ) (parse_expr : PNew Expr) (he : Takes 0 n parse_expr) where
    Takes-parse_function_call : Takes 0 (suc n) (parse_function_call lib parse_expr)
    unfolding parse_function_call
    Takes-parse_function_call i below =
        Ends-bind 1 0 i _ _
          (Ends-map_err 1 i _ _ (
            Takes-then lib.nom laws 1 (suc n) _ _ (Takes-ident lib laws (suc n))
              (Takes-strictly (suc n) _ (omega arith)) i below))
          (λ j a short. Ends-later 1 0 0 i j _ short (omega arith) (
            Ends-map_ok 0 j _ _ (
              Takes-both n _ _ (Takes-blank n)
                (Takes-both n _ _ (Takes-comma_list n parse_expr he)
                  (Takes-exactly n _ (omega arith)))
                j (omega arith))))

    Ends-initialization :
        (i j : Text)
        (r : (Text × (Unit {0} × ((Text × Option E) × (Unit {0} × Text))))
          × (Unit {0} × (Expr × Option E)))
        → 0 + length j ≤ length i
        → Ends 0 i (initialization lib j r)
    Ends-initialization i j ((before, (_, ((name₁, _), _))), (_, (e, _))) h =
        elim (Bool-cases (may_initialize e)) [ inl may ↦ rw may h | inr not₁ ↦ rw not₁ tt ]

    Takes-variable_initialization : Takes 0 (suc n) (variable_initialization lib parse_expr)
    unfolding variable_initialization
    Takes-variable_initialization i below =
        Ends-bind 1 0 i _ _ (Ends-map_err 1 i _ _ (Takes-strictly (suc n) _ (omega arith) i below))
          (λ j a short. Ends-later 1 0 0 i j _ short (omega arith) (
            Ends-bind 0 0 j _ _
              (Takes-both n _ _
                (Takes-remaining 0 n _ (
                  Takes-both n _ _ (Takes-ws1 lib.nom laws n) (
                    Takes-both n _ _ (Takes-ident lib laws n)
                      (Takes-both n _ _ (Takes-blank n) (Takes-exactly n _ (omega arith))))))
                (Takes-both n _ _ (Takes-blank n) he) j (omega arith))
              (λ k r more. Ends-initialization j k r more)))

    Takes-variable_assignment : Takes 0 (suc n) (variable_assignment lib parse_expr)
    unfolding variable_assignment
    Takes-variable_assignment i below = Ends-map_ok 0 i _ _ (
        Takes-both (suc n) _ _ (Takes-ident lib laws (suc n))
          (Takes-both (suc n) _ _ (Takes-blank (suc n)) (
            Takes-weaken (suc n) _ (
              Takes-first lib.nom laws n _ _ (Takes-strictly (suc n) _ (omega arith))
                (Takes-both n _ _ (Takes-blank n) he))))
          i below)

    module _ (parse_block : PNew Block) (hb : Takes 0 n parse_block) where
      Takes-parse_lambda : Takes 0 (suc n) (parse_lambda lib parse_block)
      unfolding parse_lambda
      Takes-parse_lambda i below =
          Ends-bind 1 0 i _ _
            (Ends-map_err 1 i _ _ (Takes-strictly (suc n) _ (omega arith) i below))
            (λ j a short. Ends-later 1 0 0 i j _ short (omega arith) (
              Ends-map_ok 0 j _ _ (
                Takes-both n _ _ (Takes-blank n)
                  (Takes-both n _ _ (Takes-comma_list n _ (Takes-ident lib laws n)) (
                    Takes-both n _ _ (Takes-exactly n _ (omega arith))
                      (Takes-both n _ _ (Takes-blank n) hb)))
                  j (omega arith))))

      Takes-parse_key_mapping : Takes 0 (suc n) (parse_key_mapping lib parse_block)
      unfolding parse_key_mapping
      Takes-parse_key_mapping i below = Ends-map_ok 0 i _ _ (
          Takes-both (suc n) _ _ (Takes-key_action_with_flags lib laws (suc n))
            (Takes-weaken (suc n) _ (
              Takes-first lib.nom laws n _ _ (Takes-strictly (suc n) _ (omega arith))
                (Takes-both n _ _ (Takes-blank n) hb)))
            i below)

      Takes-expr_4 : Takes 0 (suc n) (expr_4 lib parse_expr parse_block)
      unfolding expr_4
      Takes-expr_4 =
          let or_else = Takes-alt lib.nom laws 0 (suc n) in
          or_else _ _
            (Takes-map lib.nom laws 0 (suc n) _ _ (
              Takes-weaken (suc n) _ (
                Takes-first lib.nom laws n _ _ (Takes-strictly (suc n) _ (omega arith))
                  (Takes-both n _ _ he (Takes-exactly n _ (omega arith))))))
            (or_else _ _ (Takes-boolean lib.nom laws (suc n)) (
              or_else _ _ (Takes-string_literal lib.nom laws (suc n)) (
                or_else _ _ (Takes-number_literal lib.nom laws (suc n)) (
                  or_else _ _ Takes-parse_lambda (
                    or_else _ _ Takes-variable_initialization (
                      or_else _ _ Takes-variable_assignment (
                        or_else _ _ Takes-parse_function_call (
                          or_else _ _ Takes-parse_key_mapping (
                            or_else _ _ (Takes-key_mapping_inline lib laws (suc n))
                              (Takes-variable (suc n)))))))))))

      pub Takes-expr_3 :
          (again : PNew Expr)
          → Takes 0 n again
          → Takes 0 (suc n) (expr_3 lib again parse_expr parse_block)
      unfolding expr_3
      Takes-expr_3 again h = Takes-alt lib.nom laws 0 (suc n) _ _ Takes-expr_4 (
          Takes-map lib.nom laws 0 (suc n) _ _ (
            Takes-weaken (suc n) _ (
              Takes-first lib.nom laws n _ _ (Takes-strictly (suc n) _ (omega arith))
                (Takes-both n _ _ (Takes-not lib.nom laws n _ (λ i _. laws.tag _ i)) h))))
