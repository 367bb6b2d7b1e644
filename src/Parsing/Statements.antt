-- ===== src/Parsing/Statements.antt =====
-- src/parsing/mod.rs, src/parsing/if_statement.rs, src/parsing/for_loop.rs,
-- src/parsing/return_statement.rs and src/parsing/continue_statement.rs, with the parsers of
-- expressions and of blocks in braces as parameters.
use map2_legacy.Base.{
  List, [], ◌∷◌, Bool, true, false, Option, none, some, Text, codes, utf8_length, if◌then◌else◌,
}
use map2_legacy.Ast.{
  Expr, Stmt, expr, block, if_else, for_loop, return_stmt, continue_stmt, Branches, no_branches,
  branch, no_else, else_block, Block, end, ◌⨾◌,
}
use map2_legacy.Parsing.Results.{ok, error, failure, incomplete}
use map2_legacy.Parsing.Error.{make_generic_nom_err_new, make_generic_nom_err_options, or}
use map2_legacy.Parsing.Nom.{E, Result, P, ResNew, PNew, Libraries}
use map2_legacy.Parsing.Lexer.{map_err, map_ok, ◌>>=◌, no_error, tag_custom, ws0, ws1}
use map2_legacy.Parsing.Expressions.{repeated_err}

-- The error that was kept before, if there is one, and another.
unfoldable pub or_before : Option E → E → E
unfolding or
or_before none e = e
or_before (some before) e = or utf8_length before e

-- `last_err.or(err)`, for the error `err` that the first statement kept.
unfoldable pub or_after : Option E → E → E
unfolding or
or_after none last_err = last_err
or_after (some err) last_err = or utf8_length last_err err

abbrev pub is_ok : {A : Type 0} → Result A → Bool
is_ok (ok _ _) = true
is_ok _ = false

-- The closure of `for_loop`.
abbrev pub For : Type 0
For =
    Text
    × (Unit {0}
        × (Text
            × (Unit {0}
                × ((Expr × Option E)
                    × (Unit {0}
                        × (Text
                            × (Unit {0}
                                × ((Expr × Option E)
                                    × (Unit {0}
                                        × (Text
                                            × (Unit {0}
                                                × ((Expr × Option E)
                                                    × (Unit {0}
                                                        × (Text
                                                            × (Unit {0}
                                                            × (Block × Option E))))))))))))))))

abbrev pub of_for : For → Stmt
of_for
      (
        _,
        (
          _,
          (
            _,
            (
              _,
              (
                (start, _),
                (_, (_, (_, ((test, _), (_, (_, (_, ((advance, _), (_, (_, (_, (body, _)))))))))))),
              ),
            ),
          ),
        ),
      ) =
    for_loop start test advance body

-- The head of an `if` and its block: what stands in the tuples of `if_stmt` from a first white space
-- on.
abbrev pub If : Type 0
If =
    Unit {0}
    × (Text
        × (Unit {0} × ((Expr × Option E) × (Unit {0} × (Text × (Unit {0} × (Block × Option E)))))))

abbrev pub if_test : If → Expr
if_test (_, (_, (_, ((e, _), _)))) = e

abbrev pub if_body : If → Block
if_body (_, (_, (_, (_, (_, (_, (_, (b, _)))))))) = b

abbrev pub else_ifs : List (Unit {0} × (Text × (Unit {0} × (Text × If)))) → Branches
else_ifs [] = no_branches
else_ifs ((_, (_, (_, (_, head)))) ∷ l) = branch (if_test head) (if_body head) (else_ifs l)

-- The statements of the pairs that the repetition of `block_body` gives.
abbrev pub statements : List (Unit {0} × (Stmt × Option E)) → Block
statements [] = end
statements ((_, (s, _)) ∷ l) = s ⨾ statements l

module _ (lib : Libraries) where
  infixr 5 ◌>*>◌
  abbrev ◌>*>◌ : {A B : Type 0} → P A → P B → P (A × B)
  p >*> q = lib.nom.tuple p q

  abbrev exactly : Text → P Text
  exactly = tag_custom lib.nom

  abbrev blank : P (Unit {0})
  blank = ws0 lib.nom

  unfoldable pub continue_statement : PNew Stmt
  unfolding tag_custom ws0
  continue_statement input = exactly (codes "continue") input >>= λ r.
      blank r.0 >>= λ r. exactly (codes ";") r.0 >>= λ r. ok r.0 (no_error continue_stmt)

  unfoldable pub return_statement : PNew Expr → PNew Stmt
  unfolding tag_custom ws0 ws1
  return_statement parse_expr input = exactly (codes "return") input >>= λ r.
      map_ok ((ws1 lib.nom >*> parse_expr >*> blank >*> exactly (codes ";")) r.0)
        (λ r. let (_, ((e, last_err), _)) = r in (return_stmt e, last_err))

  unfoldable pub parse_for_loop : PNew Expr → PNew Block → PNew Stmt
  unfolding tag_custom ws0
  parse_for_loop parse_expr parse_block input =
      map_ok
        ((exactly (codes "for")
            >*> blank
            >*> exactly (codes "(")
            >*> blank
            >*> parse_expr
            >*> blank
            >*> exactly (codes ";")
            >*> blank
            >*> parse_expr
            >*> blank
            >*> exactly (codes ";")
            >*> blank
            >*> parse_expr
            >*> blank
            >*> exactly (codes ")")
            >*> blank
            >*> parse_block)
          input)
        (λ r. no_error (of_for r))

  abbrev pub if_head : PNew Expr → PNew Block → P If
  if_head parse_expr parse_block =
      blank
      >*> exactly (codes "(")
      >*> blank
      >*> parse_expr
      >*> blank
      >*> exactly (codes ")")
      >*> blank
      >*> parse_block

  abbrev pub else_if : PNew Expr → PNew Block → P (Unit {0} × (Text × (Unit {0} × (Text × If))))
  else_if parse_expr parse_block =
      blank
      >*> exactly (codes "else")
      >*> ws1 lib.nom
      >*> exactly (codes "if")
      >*> if_head parse_expr parse_block

  -- From `if let` to the end of `if_stmt`, with the branches and the last error so far.
  unfoldable pub else_part : PNew Block → Branches → Option E → Text → ResNew Stmt
  unfolding tag_custom ws0 ws1
  else_part parse_block pairs last_err input = elim ((blank >*> exactly (codes "else")) input) [
    | ok i _ ↦
        let with_else =
          map_ok ((blank >*> parse_block) i) (λ r. no_error (if_else pairs (else_block r.1.0))) in
        let is_followed_by_if = is_ok ((ws1 lib.nom >*> exactly (codes "if")) i) in
        if is_followed_by_if then ok input (if_else pairs no_else, last_err) else with_else
    | error _ ↦ ok input (if_else pairs no_else, last_err)
    | failure _ ↦ ok input (if_else pairs no_else, last_err)
    | incomplete ↦ ok input (if_else pairs no_else, last_err)
  ]

  -- The tuple of the source has what follows the head as its last part.
  unfoldable pub if_stmt : PNew Expr → PNew Block → PNew Stmt
  unfolding tag_custom ws0 ws1 else_part repeated_err
  if_stmt parse_expr parse_block input = exactly (codes "if") input >>= λ r.
      (if_head parse_expr parse_block >*> repeated_err (else_if parse_expr parse_block)) r.0
      >>= λ r.
          let (input, (first, (others, last_err))) = r in
          else_part parse_block (branch (if_test first) (if_body first) (else_ifs others))
            (some last_err) input

  unfoldable pub stmt : PNew Expr → PNew Block → PNew Stmt
  unfolding tag_custom return_statement continue_statement if_stmt parse_for_loop
  stmt parse_expr parse_block =
      let alt = λ (p q : PNew Stmt). lib.nom.alt p q in
      alt (return_statement parse_expr) (
        alt continue_statement (
          alt (if_stmt parse_expr parse_block) (
            alt (parse_for_loop parse_expr parse_block) (
              alt (lib.nom.map (parse_expr >*> exactly (codes ";")) (λ r. (expr r.0.0, r.0.1)))
                (lib.nom.map parse_block (λ r. (block r.0, r.1)))))))

  -- `Incomplete`, which no parser here gives but one that ran out of fuel, is passed on; the source
  -- treats it as it does a failure.
  unfoldable pub block_body : PNew Stmt → PNew Block
  unfolding ws0
  block_body parse_stmt input = elim (parse_stmt input) [
    | error last_err ↦ ok input (end, some last_err)
    | failure _ ↦ ok input (end, none)
    | incomplete ↦ incomplete
    | ok input (first_stmt, initial_last_err) ↦
        map_ok (repeated_err (blank >*> parse_stmt) input)
          (λ r. (first_stmt ⨾ statements r.0, some (or_after initial_last_err r.1)))
  ]

  -- The `match` at the end of `block`.
  unfoldable pub closing : Block → Option E → PNew Block
  unfolding tag_custom or_before
  closing body last_err input = elim (exactly (codes "}") input) [
    | ok input _ ↦ ok input (no_error body)
    | error err ↦ error (or_before last_err err)
    | failure err ↦ failure err
    | incomplete ↦ incomplete
  ]

  unfoldable pub parse_block : PNew Stmt → PNew Block
  unfolding tag_custom ws0 block_body closing
  parse_block parse_stmt input =
      map_err (exactly (codes "{") input) (make_generic_nom_err_options input (codes "block" ∷ []))
      >>= λ r. blank r.0 >>= λ r. block_body parse_stmt r.0 >>= λ r.
          let (input, (body, last_err)) = r in blank input >>= λ r. closing body last_err r.0

  -- What `global_block` does with the rest of its input, which has to be used up.
  abbrev pub at_end : Text → Text → Block × Option E → ResNew Block
  at_end input [] body_res = ok [] body_res
  at_end input (_ ∷ _) (_, some err) = error err
  at_end input (_ ∷ _) (_, none) = make_generic_nom_err_new input

  unfoldable pub global_block : PNew Stmt → PNew Block
  unfolding ws0 block_body
  global_block parse_stmt input = (blank >*> block_body parse_stmt >*> blank) input >>= λ r.
      let (next, (_, (body_res, _))) = r in at_end input next body_res
