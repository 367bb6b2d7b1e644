-- ===== src/Parsing/Expressions.antt =====
-- src/parsing/expression.rs, src/parsing/lambda.rs, src/parsing/variable.rs, src/parsing/function.rs and,
-- for mappings to a block, src/parsing/key_mapping.rs. The parsers that a parser calls again inside
-- what it parses are parameters, which Grammar puts in. Where the source's name is that of a part of
-- the syntax tree, the name here starts with `parse_`.
use map2_legacy.Base.{
  suc, List, [], ◌∷◌, Bool, true, false, Option, none, some, Text, codes, text_beq, text_eq, length,
  if◌then◌else◌,
}
use map2_legacy.Ast.{
  Expr, eq, neq, lt, gt, add, sub, mul, div, neg, and, or, init, assign, key_mapping, name, lambda,
  function_call, key_action, sleep_action, release_restore_modifiers, Exprs, no_exprs, arg, Block,
}
use map2_legacy.Mapping.{block_mapping}
use map2_legacy.Parsing.Results.{ok, incomplete}
use map2_legacy.Parsing.Error.{make_generic_nom_err_options, custom_parse_error}
use map2_legacy.Parsing.Nom.{E, Result, P, ResNew, PNew, Libraries}
use map2_legacy.Parsing.Combinators.{many0_err, fold_many0_once_err, remaining}
use map2_legacy.Parsing.Lexer.{
  map_err, map_ok, ◌>>=◌, no_error, tag_custom, ws0, ws1, ident, string_literal, boolean,
  number_literal,
}
use map2_legacy.Parsing.KeyParsers.{key_action_with_flags, key_mapping_inline}

-- The end of a repetition: it has one more unit of fuel than its input has characters, and
-- `incomplete`, which no parser of nom's `complete` modules gives, says that it ran out all the same.
abbrev pub or_incomplete : {A : Type 0} → Option (Result A) → Result A
or_incomplete none = incomplete
or_incomplete (some r) = r

unfoldable pub repeated_err : {A : Type 0} → P A → P (List A × E)
unfolding many0_err
repeated_err p input = or_incomplete (many0_err (suc (length input)) p input)

unfoldable pub folded_err : {A R : Type 0} → P A → R → (R → A → R) → P (R × E)
unfolding fold_many0_once_err
folded_err p first g input =
    or_incomplete (fold_many0_once_err (suc (length input)) p first g input)

abbrev pub some_error : {A : Type 0} → A × E → A × Option E
some_error (a, e) = (a, some e)

-- The closures that the operators of a level are folded with. The last operator of each stands for
-- `unreachable!()` as well.
abbrev pub build_2 : Expr → Text → Expr → Expr
build_2 acc op val = if text_beq op (codes "*") then mul acc val else div acc val

abbrev pub build_1 : Expr → Text → Expr → Expr
build_1 acc op val = if text_beq op (codes "+") then add acc val else sub acc val

abbrev pub build_0 : Expr → Text → Expr → Expr
build_0 acc op val =
    if text_beq op (codes "==")
    then eq acc val
    else if text_beq op (codes "!=")
    then neq acc val
    else if text_beq op (codes "&&")
    then and acc val
    else if text_beq op (codes "||")
    then or acc val
    else if text_beq op (codes ">")
    then gt acc val
    else lt acc val

-- The closure that is given what an operation is.
abbrev pub folding :
    (Expr → Text → Expr → Expr) → Expr → Unit {0} × (Text × (Unit {0} × (Expr × Option E))) → Expr
folding build acc o = build acc o.1.0 o.1.1.1.0

-- The expressions that a variable may be initialized with.
abbrev pub may_initialize : Expr → Bool
may_initialize (init _ _) = false
may_initialize (assign _ _) = false
may_initialize (key_mapping _) = false
may_initialize (key_action _) = false
may_initialize (sleep_action _) = false
may_initialize (release_restore_modifiers _ _ _) = false
may_initialize _ = true

-- The first of a list of things in brackets, and those that follow a comma, each with what stands
-- before and behind it.
abbrev pub Listed : Type 0 → Type 0
Listed A =
    Option ((A × Option E) × (Unit {0} × List (Text × (Unit {0} × ((A × Option E) × Unit {0})))))

abbrev pub following :
    {A : Type 0} → List (Text × (Unit {0} × ((A × Option E) × Unit {0}))) → List A
following [] = []
following ((_, (_, ((a, _), _))) ∷ l) = a ∷ following l

abbrev pub listed : {A : Type 0} → Listed A → List A
listed none = []
listed (some ((a, _), (_, l))) = a ∷ following l

abbrev pub to_args : List Expr → Exprs
to_args [] = no_exprs
to_args (e ∷ l) = arg e (to_args l)

module _ (lib : Libraries) where
  infixr 5 ◌>*>◌
  abbrev ◌>*>◌ : {A B : Type 0} → P A → P B → P (A × B)
  p >*> q = lib.nom.tuple p q

  abbrev exactly : Text → P Text
  exactly = tag_custom lib.nom

  abbrev blank : P (Unit {0})
  blank = ws0 lib.nom

  -- `opt` of a first thing and `many0` of those that follow.
  abbrev pub comma_list : {A : Type 0} → PNew A → P (Listed A)
  comma_list p =
      lib.nom.opt (p >*> blank >*> lib.nom.many0 (exactly (codes ",") >*> blank >*> p >*> blank))

  -- `alt` of the operators of a level, between white space, and an operand.
  abbrev pub operation : P Text → PNew Expr → P (Unit {0} × (Text × (Unit {0} × (Expr × Option E))))
  operation op p = blank >*> op >*> blank >*> p

  unfoldable pub parse_function_call : PNew Expr → PNew Expr
  unfolding tag_custom ws0 ident
  parse_function_call parse_expr input =
      map_err ((ident lib >*> exactly (codes "(")) input)
        (make_generic_nom_err_options input (codes "function call" ∷ []))
      >>= λ r.
          let (input, ((called, _), _)) = r in
          map_ok ((blank >*> comma_list parse_expr >*> exactly (codes ")")) input)
            (λ r. let (_, (args, _)) = r in no_error (function_call called (to_args (listed args))))

  unfoldable pub parse_lambda : PNew Block → PNew Expr
  unfolding tag_custom ws0 ident
  parse_lambda parse_block input =
      map_err (exactly (codes "|") input) (make_generic_nom_err_options input (codes "lambda" ∷ []))
      >>= λ r.
          let (input, _) = r in
          map_ok
            ((blank >*> comma_list (ident lib) >*> exactly (codes "|") >*> blank >*> parse_block)
              input)
            (λ r.
              let (_, (params, (_, (_, (body, last_err))))) = r in
              (lambda (listed params) body, last_err))

  -- The closure of `variable_initialization`.
  abbrev pub initialization :
      Text
      → (Text × (Unit {0} × ((Text × Option E) × (Unit {0} × Text))))
        × (Unit {0} × (Expr × Option E))
      → ResNew Expr
  initialization next ((input_before_expr, (_, ((variable, _), _))), (_, (e, last_err))) =
      if may_initialize e
      then ok next (init variable e, last_err)
      else make_generic_nom_err_options input_before_expr
          (codes "valid initialization expression" ∷ [])

  unfoldable pub variable_initialization : PNew Expr → PNew Expr
  unfolding tag_custom ws0 ws1 ident remaining
  variable_initialization parse_expr input =
      map_err (exactly (codes "let") input)
        (make_generic_nom_err_options input (codes "variable initialization" ∷ []))
      >>= λ r.
          let (input, _) = r in
          (remaining (ws1 lib.nom >*> ident lib >*> blank >*> exactly (codes "="))
              >*> blank
              >*> parse_expr)
            input
          >>= λ r. initialization r.0 r.1

  unfoldable pub variable_assignment : PNew Expr → PNew Expr
  unfolding tag_custom ws0 ident
  variable_assignment parse_expr input =
      map_ok ((ident lib >*> blank >*> exactly (codes "=") >*> blank >*> parse_expr) input)
        (λ r. let ((variable, _), (_, (_, (_, (e, _))))) = r in no_error (assign variable e))

  unfoldable pub variable : PNew Expr
  unfolding ident
  variable input = map_ok (ident lib input) (λ r. (name r.0, r.1))

  unfoldable pub parse_key_mapping : PNew Block → PNew Expr
  unfolding tag_custom ws0 key_action_with_flags block_mapping
  parse_key_mapping parse_block input =
      map_ok ((key_action_with_flags lib >*> exactly (codes "::") >*> blank >*> parse_block) input)
        (λ r. let ((from, _), (_, (_, (to, last_err)))) = r in (block_mapping from to, last_err))

  unfoldable pub expr_4 : PNew Expr → PNew Block → PNew Expr
  unfolding tag_custom boolean string_literal number_literal parse_lambda variable_initialization
      variable_assignment parse_function_call parse_key_mapping key_mapping_inline variable
  expr_4 parse_expr parse_block =
      let alt = λ (p q : PNew Expr). lib.nom.alt p q in
      alt (lib.nom.map (exactly (codes "(") >*> parse_expr >*> exactly (codes ")")) (λ r. r.1.0)) (
        alt (boolean lib.nom) (
          alt (string_literal lib.nom) (
            alt (number_literal lib.nom) (
              alt (parse_lambda parse_block) (
                alt (variable_initialization parse_expr) (
                  alt (variable_assignment parse_expr) (
                    alt (parse_function_call parse_expr) (
                      alt (parse_key_mapping parse_block)
                        (alt (key_mapping_inline lib) variable)))))))))

  -- With the parser that it calls again behind a `!`.
  unfoldable pub expr_3 : PNew Expr → PNew Expr → PNew Block → PNew Expr
  unfolding tag_custom expr_4
  expr_3 again parse_expr parse_block = lib.nom.alt (expr_4 parse_expr parse_block) (
      lib.nom.map (exactly (codes "!") >*> lib.nom.not (lib.nom.tag (codes "{")) >*> again)
        (λ r. let (_, (_, (e, last_err))) = r in (neg e, last_err)))

  -- One level of operators: an operand, and what follows it.
  abbrev pub level : P Text → (Expr → Text → Expr → Expr) → PNew Expr → PNew Expr
  level op build p input = p input >>= λ r.
      let (input, (first, _)) = r in
      map_ok (folded_err (operation op p) first (folding build) input) some_error

  abbrev pub operators_2 : P Text
  operators_2 = lib.nom.alt (exactly (codes "*")) (exactly (codes "/"))

  abbrev pub operators_1 : P Text
  operators_1 = lib.nom.alt (exactly (codes "+")) (exactly (codes "-"))

  abbrev pub operators_0 : P Text
  operators_0 =
      let alt = λ (p q : P Text). lib.nom.alt p q in
      alt (exactly (codes "==")) (
        alt (exactly (codes "!=")) (
          alt (exactly (codes "&&"))
            (alt (exactly (codes "||")) (alt (exactly (codes "<")) (exactly (codes ">"))))))

  unfoldable pub expr_2 : PNew Expr → PNew Expr
  unfolding tag_custom ws0 folded_err
  expr_2 = level operators_2 build_2

  unfoldable pub expr_1 : PNew Expr → PNew Expr
  unfolding tag_custom ws0 folded_err expr_2
  expr_1 operand = level operators_1 build_1 (expr_2 operand)

  -- `expr`, whose operand is `expr_3`.
  unfoldable pub expr_0 : PNew Expr → PNew Expr
  unfolding tag_custom ws0 folded_err expr_1
  expr_0 operand = level operators_0 build_0 (expr_1 operand)
