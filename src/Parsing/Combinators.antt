-- ===== src/Parsing/Combinators.antt =====
-- src/parsing/custom_combinators.rs: the two repetitions, which keep the error that ends them, and
-- `remaining`. A parser that is given may not stop, so each round costs one unit of fuel, and `none`
-- says that it ran out.
use map2_legacy.Base.{
  ℕ, zero, suc, List, [], ◌∷◌, ◌++◌, Option, none, some, Equality, ◌==◌, if◌then◌else◌,
}
use map2_legacy.Parsing.Results.{IResult, ok, error, failure, incomplete, Parser, ParseError}

module _ {I O E : Type 0} ⦃eq : Equality I⦄ ⦃pe : ParseError I E⦄ where
  -- The loop of `many0_err`, with what it has collected.
  unfoldable pub many0_loop : ℕ → Parser I O E → I → List O → Option (IResult I (List O × E) E)
  many0_loop zero f i acc = none
  many0_loop (suc n) f i acc = elim (f i) [
    | error err ↦ some (ok i (acc, err))
    | failure err ↦ some (failure err)
    | incomplete ↦ some incomplete
    | ok i₁ o ↦
        let rest = many0_loop n f i₁ (acc ++ o ∷ []) in
        if i₁ == i then some (error (pe.from_many0 i)) else rest
  ]

  unfoldable pub many0_err : ℕ → Parser I O E → I → Option (IResult I (List O × E) E)
  unfolding many0_loop
  many0_err n f i = many0_loop n f i []

  -- The loop is the function: it starts with `res = init`.
  unfoldable pub fold_many0_once_err :
      {R : Type 0} → ℕ → Parser I O E → R → (R → O → R) → I → Option (IResult I (R × E) E)
  fold_many0_once_err zero f res g input = none
  fold_many0_once_err (suc n) f res g input = elim (f input) [
    | ok i o ↦
        let rest = fold_many0_once_err n f (g res o) g i in
        if i == input then some (error (pe.from_many0 input)) else rest
    | error err ↦ some (ok input (res, err))
    | failure err ↦ some (failure err)
    | incomplete ↦ some incomplete
  ]

unfoldable pub remaining : {I O E : Type 0} → Parser I O E → Parser I (I × O) E
remaining f i = elim (f i) [
  | ok rest o ↦ ok rest (rest, o)
  | error err ↦ error err
  | failure err ↦ failure err
  | incomplete ↦ incomplete
]
