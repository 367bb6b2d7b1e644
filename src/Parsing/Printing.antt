-- ===== src/Parsing/Printing.antt =====
-- Texts for src/parsing to read back: expressions over Booleans with all binary operators, each in
-- parentheses.
pub mod Operators
pub mod Levels
pub mod Reading
use map2_legacy.Base.{
  ◌≡◌, refl, ap, ◌∙◌, sym, ℕ, suc, ◌+◌, ◌≤◌, List, [], ◌∷◌, ◌++◌, Bool, true, false, Text, codes,
  length, length-append, append_assoc, arith, if◌then◌else◌,
}
use map2_legacy.Ast.{Expr, eq, neq, lt, gt, add, sub, mul, div, and, or, value_of, bool}

pub data Op : Type 0 where
  op_mul op_div op_add op_sub op_eq op_neq op_and op_or op_lt op_gt : Op

abbrev pub symbol : Op → Text
symbol op_mul = codes "*"
symbol op_div = codes "/"
symbol op_add = codes "+"
symbol op_sub = codes "-"
symbol op_eq = codes "=="
symbol op_neq = codes "!="
symbol op_and = codes "&&"
symbol op_or = codes "||"
symbol op_lt = codes "<"
symbol op_gt = codes ">"

abbrev pub of_op : Op → Expr → Expr → Expr
of_op op_mul = mul
of_op op_div = div
of_op op_add = add
of_op op_sub = sub
of_op op_eq = eq
of_op op_neq = neq
of_op op_and = and
of_op op_or = or
of_op op_lt = lt
of_op op_gt = gt

pub data Term : Type 0 where
  truth : Bool → Term
  binary : Op → Term → Term → Term

abbrev pub to_expr : Term → Expr
to_expr (truth b) = value_of (bool b)
to_expr (binary o l r) = of_op o (to_expr l) (to_expr r)

abbrev pub word_for : Bool → Text
word_for true = codes "true"
word_for false = codes "false"

-- The text of a term, in front of another text.
abbrev pub print_before : Term → Text → Text
print_before (truth b) s = word_for b ++ s
print_before (binary o l r) s =
    b'(' ∷ print_before l (b' ' ∷ (symbol o ++ b' ' ∷ print_before r (b')' ∷ s)))

abbrev pub print : Term → Text
print t = print_before t []

-- A bound on how deep the parentheses stand.
abbrev pub height : Term → ℕ
height (truth b) = 1
height (binary o l r) = suc (height l + height r)

print_before-append : (t : Term) (s u : Text) → print_before t s ++ u ≡ print_before t (s ++ u)
print_before-append (truth b) s u = append_assoc (word_for b) s u
print_before-append (binary o l r) s u =
    let behind = λ (x : Text). b' ' ∷ (symbol o ++ b' ' ∷ x) in
    let right = print_before-append r (b')' ∷ s) u in
    ap (λ x. b'(' ∷ x)
      (print_before-append l (behind (print_before r (b')' ∷ s))) u
        ∙ ap (λ x. print_before l (b' ' ∷ x))
            (append_assoc (symbol o) (b' ' ∷ print_before r (b')' ∷ s)) u
              ∙ ap (λ x. symbol o ++ b' ' ∷ x) right))

pub print-append : (t : Term) (s : Text) → print t ++ s ≡ print_before t s
print-append t s = print_before-append t [] s

pub length-print_before : (t : Term) (s : Text) → length s ≤ length (print_before t s)
length-print_before (truth b) s = omega (arith, length-append (word_for b) s)
length-print_before (binary o l r) s =
    let right = print_before r (b')' ∷ s) in
    omega (
      arith,
      length-print_before r (b')' ∷ s),
      length-append (symbol o) (b' ' ∷ right),
      length-print_before l (b' ' ∷ (symbol o ++ b' ' ∷ right)),
    )

pub height-print_before : (t : Term) (s : Text) → height t + length s ≤ length (print_before t s)
height-print_before (truth true) s = omega arith
height-print_before (truth false) s = omega arith
height-print_before (binary o l r) s =
    let right = print_before r (b')' ∷ s) in
    omega (
      arith,
      height-print_before r (b')' ∷ s),
      length-append (symbol o) (b' ' ∷ right),
      height-print_before l (b' ' ∷ (symbol o ++ b' ' ∷ right)),
    )
