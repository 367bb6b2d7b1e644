-- ===== src/Tests/Scripts.antt =====
-- src/parsing at concrete inputs, among them those of the source's own tests.
use map2_legacy.Base.{
  arith, Option, ◌++◌, ◌≡◌, ◌≢◌, refl, ℕ, [], ◌∷◌, Bool, true, false, ◌||◌, ◌&&◌, ◌-◌, map, none,
  some, codes, nat_beq, leb, text_beq, if◌then◌else◌,
}
use map2_legacy.Key.{key_of, no_flags, key_left_shift, KeyClickActionWithMods}
use map2_legacy.Mapping.{map_key_click}
use map2_legacy.Ast.{ValueType, Expr, sub, mul, init, value_of, bool, number, expr, end, ◌⨾◌}
use map2_legacy.Parsing.Results.{ok}
use map2_legacy.Parsing.Nom.{Libraries}
use map2_legacy.Parsing.Keys.{KeyNames}
use map2_legacy.Parsing.Grammar.{Parsers, grammar, parsed, rejected, lost, parse_script}
use map2_legacy.Parsing.Interface.{key_parser}
use map2_legacy.Runtime.World.{World, done, new_scope, write_variable}
use map2_legacy.Runtime.Scope.{read_name}
use map2_legacy.Script.{global_map, run_script}
use map2_legacy.Script.Start.{IsRooted, run_script-IsRooted}
use map2_legacy.Runtime.Host.{parse_key_sequence}
use map2_legacy.Tests.Samples.{toy_host, press, release}
use map2_legacy.Parsing.Lexer.{number_literal}
use map2_legacy.Parsing.Nom.{E}
use map2_legacy.Parsing.Expressions.{expr_0, expr_4}
use map2_legacy.Parsing.Printing.{Term, truth, binary, op_sub, op_and, print, to_expr}
use map2_legacy.Parsing.Printing.Operators.{semicolon}
use map2_legacy.Parsing.Printing.Reading.{expression-print}
use map2_legacy.Parsing.Operands.{expr_4-boolean, expr_4-number}
use map2_legacy.Parsing.Precedence.{Expression, Given, expr_0-Expression}
use map2_legacy.Parsing.Progress.Scripts.{parse_script-ends}
use map2_legacy.Tests.PlainNom.{plain_nom, first_of, repeat}
use map2_legacy.Tests.PlainLaws.{plain_laws}

abbrev is_letter : ℕ → Bool
is_letter c = (leb b'a' c && leb c b'z') || (leb b'A' c && leb c b'Z')

abbrev capital_of : ℕ → ℕ
capital_of c = if leb b'a' c && leb c b'z' then c - 32 else c

abbrev some_keys : KeyNames
some_keys = record {
  to_uppercase = λ s. map capital_of s;
  is_uppercase = λ c. leb b'A' c && leb c b'Z';
  from_str = λ s.
      if text_beq s (codes "KEY_A")
      then some (key_of 30)
      else if text_beq s (codes "KEY_B")
      then some (key_of 48)
      else if text_beq s (codes "KEY_ENTER")
      then some (key_of 28)
      else none;
}

abbrev pub plain : Libraries
plain = record {
  nom = plain_nom;
  is_xid_start = is_letter;
  is_xid_continue = λ c. is_letter c || nat_beq c b'_';
  key_names = some_keys;
}

parse_script-ends_example : parse_script plain (codes "a::b;") ≢ lost
parse_script-ends_example = parse_script-ends plain plain_laws (codes "a::b;")

abbrev of_number : ℕ → Expr
of_number n = value_of (number n)

-- What is expected behind a last operand.
abbrev no_operator : E
no_operator = record {
  input = [];
  expected = map codes ("'>'" ∷ "'<'" ∷ "'||'" ∷ "'&&'" ∷ "'!='" ∷ "'=='" ∷ []);
}

sum_parsed :
    expr_0 plain (number_literal plain_nom) (codes "1 - 2*3-4")
    ≡ ok []
        (sub (sub (of_number 1) (mul (of_number 2) (of_number 3))) (of_number 4), some no_operator)
unfolding expr_0 number_literal repeat first_of
sum_parsed = refl

expr_0-Expression_example :
    Expression plain
      (Given (number_literal plain_nom))
      (codes "1 - 2*3-4")
      (sub (sub (of_number 1) (mul (of_number 2) (of_number 3))) (of_number 4))
      []
expr_0-Expression_example =
    expr_0-Expression plain plain_laws (number_literal plain_nom) (codes "1 - 2*3-4") []
      (sub (sub (of_number 1) (mul (of_number 2) (of_number 3))) (of_number 4)) (some no_operator)
      sum_parsed

abbrev parsers : Parsers
unfolding grammar
parsers = grammar plain 9

expr_4-boolean_example :
    (expr_4 plain parsers.expression parsers.braces (codes "trueish;")
      ≡ ok (codes "ish;") (value_of (bool true), none))
    × (expr_4 plain parsers.expression parsers.braces (codes "falseish;")
        ≡ ok (codes "ish;") (value_of (bool false), none))
expr_4-boolean_example =
    expr_4-boolean plain plain_laws parsers.expression parsers.braces (codes "ish;")

expr_4-number_example :
    expr_4 plain parsers.expression parsers.braces (codes "1::a;")
    ≡ ok (codes "::a;") (of_number 1, none)
expr_4-number_example =
    expr_4-number plain plain_laws parsers.expression parsers.braces (codes "1::a;") (codes "::a;")
      1 refl refl refl refl refl

-- A digit is no trigger of a mapping, though it is the name of a key.
digit_rejected :
    parse_script plain (codes "1::a;")
    ≡ rejected (some (record { input = codes "::a;"; expected = codes "';'" ∷ [] }))
unfolding parse_script repeat first_of
digit_rejected = refl

-- A key mapped to a key.
abbrev click_on : ℕ → KeyClickActionWithMods
click_on n = record { key = key_of n; modifiers = no_flags }

click_parsed :
    parse_script plain (codes "let foo = true; a::b;")
    ≡ parsed (
        expr (init (codes "foo") (value_of (bool true)))
        ⨾ expr (map_key_click (click_on 30) (click_on 48))
        ⨾ end)
unfolding parse_script repeat first_of map_key_click
click_parsed = refl

-- A comment that is empty is no comment.
empty_comment_rejected :
    parse_script plain (codes "//\na::b;")
    ≡ rejected
        (some (record { input = codes "/\na::b;"; expected = map codes ("'::'" ∷ "'::'" ∷ []) }))
unfolding parse_script repeat first_of
empty_comment_rejected = refl

-- What the runtime sends for `send("B{a down}")`.
sent_keys :
    parse_key_sequence (key_parser plain) (codes "B{a down}")
    ≡ some (
        press key_left_shift
        ∷ press (key_of 48)
        ∷ release (key_of 48)
        ∷ release key_left_shift
        ∷ press (key_of 30)
        ∷ [])
unfolding key_parser parse_key_sequence repeat first_of
sent_keys = refl

-- What a script that sets one variable leaves behind.
abbrev one_variable : World
one_variable = record {
  store =
      global_map ∷ record { scope_values = (codes "foo", bool true) ∷ []; parent = some 0 } ∷ [];
  trace = [];
}

run_script-IsRooted_example :
    IsRooted one_variable
    × ((v : ValueType) × (read_name (codes "foo") 1 one_variable ≡ done v one_variable))
unfolding run_script repeat first_of new_scope write_variable
run_script-IsRooted_example =
    run_script-IsRooted plain toy_host 10 (codes "let foo = true;") one_variable (codes "foo") 1
      refl (omega arith)

-- `((true && false) - true)`, in front of a semicolon and another statement.
abbrev nested_term : Term
nested_term = binary op_sub (binary op_and (truth true) (truth false)) (truth true)

expression-print_example :
    (last : Option E) × ((grammar plain 40).expression (print nested_term ++ codes "; x;")
      ≡ ok (codes "; x;") (to_expr nested_term, last))
unfolding grammar
expression-print_example =
    expression-print plain plain_laws 40 nested_term b';' (codes " x;") (omega arith) semicolon
