-- ===== src/Parsing/Progress/Scripts.antt =====
-- src/parsing/parser.rs: every script is parsed to an end.
use map2_legacy.Base.{◌≢◌, ℕ, zero, suc, [], ◌∷◌, Option, Text, length, arith}
use map2_legacy.Ast.{Block}
use map2_legacy.Parsing.Results.{ok, error, failure, incomplete}
use map2_legacy.Parsing.Nom.{E, Result, Libraries}
use map2_legacy.Parsing.NomLaws.{Ends, Takes, NomLaws}
use map2_legacy.Parsing.Grammar.{
  Parsers, lost, stmt_of, next_level, grammar, of_script, parse_script,
}
use map2_legacy.Parsing.Progress.{Takes-weaken}
use map2_legacy.Parsing.Progress.Expressions.{Takes-expr_0, Takes-expr_3}
use map2_legacy.Parsing.Progress.Statements.{Takes-stmt, Takes-parse_block, Takes-global_block}

-- A level whose parsers end so on each text shorter than `n`.
abbrev pub Level : ℕ → Parsers → Type 0
Level n g = Takes 0 n g.operand × (Takes 0 n g.expression × Takes 1 n g.braces)

module _ (lib : Libraries) (laws : NomLaws lib.nom) where
  grammar-Level : (n : ℕ) → Level n (grammar lib n)
  unfolding grammar next_level stmt_of
  grammar-Level zero = (
    λ i below. absurd (omega arith),
    (λ i below. absurd (omega arith), λ i below. absurd (omega arith)),
  )
  grammar-Level (suc n) =
      let g = grammar lib n in
      let (operand, (expression, braces)) = grammar-Level n in
      let next =
        Takes-expr_3 lib laws n g.expression expression g.braces (Takes-weaken n _ braces) g.operand
          operand in
      (
        next,
        (
          Takes-expr_0 lib laws (suc n) _ next,
          Takes-parse_block lib laws n _ (Takes-stmt lib laws n _ expression _ braces),
        ),
      )

  of_script-ends : (i : Text) (r : Result (Block × Option E)) → Ends 0 i r → of_script r ≢ lost
  of_script-ends i (ok [] (_, _)) h e = cc e
  of_script-ends i (ok (_ ∷ _) (_, _)) h e = cc e
  of_script-ends i (error _) h e = cc e
  of_script-ends i (failure _) h e = cc e
  of_script-ends i incomplete h e = absurd h

  -- Where the nom library behaves as documented, every script is parsed to an end: it is accepted
  -- or rejected, and one unit of fuel more than it has characters is enough for parsers that call
  -- each other.
  pub parse_script-ends : (raw_script : Text) → parse_script lib raw_script ≢ lost
  unfolding parse_script stmt_of
  parse_script-ends raw_script =
      let n = suc (length raw_script) in
      let g = grammar lib n in
      let (_, (expression, braces)) = grammar-Level n in
      of_script-ends raw_script _ (
        Takes-global_block lib laws n (stmt_of lib g) (Takes-stmt lib laws n _ expression _ braces)
          raw_script (omega arith))
