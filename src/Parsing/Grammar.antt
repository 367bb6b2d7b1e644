-- ===== src/Parsing/Grammar.antt =====
-- src/parsing: the parsers that call each other, and src/parsing/parser.rs, `parse_script`. The
-- expressions, the operand behind a `!` and the blocks that a parser meets inside what it parses
-- stand behind at least one character of it, so that each level has one unit of fuel less.
use map2_legacy.Base.{ℕ, zero, suc, [], ◌∷◌, Option, none, some, Text, length}
use map2_legacy.Ast.{Expr, Stmt, Block}
use map2_legacy.Parsing.Results.{ok, error, failure, incomplete}
use map2_legacy.Parsing.Nom.{E, PNew, ResNew, Libraries}
use map2_legacy.Parsing.Expressions.{expr_3, expr_0}
use map2_legacy.Parsing.Statements.{stmt, parse_block, global_block}

pub record Parsers : Type 0 where
  pub operand : PNew Expr
  pub expression : PNew Expr
  pub braces : PNew Block

-- The end of `parse_script`, without what it prints. `lost` is the end of the fuel.
pub data Script : Type 0 where
  parsed : Block → Script
  rejected : Option E → Script
  lost : Script

-- The result with the error that would be printed, if any.
abbrev pub of_script : ResNew Block → Script
of_script (ok [] (block, _)) = parsed block
of_script (ok (_ ∷ _) (_, last_err)) = rejected last_err
of_script (error err) = rejected (some err)
of_script (failure _) = rejected none
of_script incomplete = lost

module _ (lib : Libraries) where
  unfoldable pub stmt_of : Parsers → PNew Stmt
  unfolding stmt
  stmt_of g = stmt lib g.expression g.braces

  unfoldable pub next_level : Parsers → Parsers
  unfolding expr_3 expr_0 parse_block stmt_of
  next_level g =
      let operand = expr_3 lib g.operand g.expression g.braces in
      record {
        operand = operand;
        expression = expr_0 lib operand;
        braces = parse_block lib (stmt_of g);
      }

  unfoldable pub grammar : ℕ → Parsers
  unfolding next_level
  grammar zero = record {
    operand = λ _. incomplete;
    expression = λ _. incomplete;
    braces = λ _. incomplete;
  }
  grammar (suc n) = next_level (grammar n)

  unfoldable pub parse_script : Text → Script
  unfolding grammar stmt_of global_block
  parse_script raw_script =
      of_script (global_block lib (stmt_of (grammar (suc (length raw_script)))) raw_script)
