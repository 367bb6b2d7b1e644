-- ===== src/Runtime/Growth/Operators.antt =====
-- src/runtime/evaluation.rs: the operators that may panic change nothing.
use map2_legacy.Base.{Bool-cases, inl, inr}
use map2_legacy.Ast.{ValueType, bool, string, number}
use map2_legacy.Runtime.Host.{Host, f64_zero}
use map2_legacy.Runtime.Values.{eval_add, eval_sub, eval_mul, eval_div, eval_neg, eval_and, eval_or}
use map2_legacy.Runtime.Growth.{Keeps-pure, Keeps-panic, Still}

module _ (host : Host) where
  pub eval_add-Still : (a b : ValueType) → Still (eval_add host a b)
  unfolding eval_add
  eval_add-Still (number _) (number _) w = Keeps-pure
  eval_add-Still (string _) b w = Keeps-pure
  eval_add-Still _ (string _) w = Keeps-pure
  eval_add-Still _ _ w = Keeps-panic

  pub eval_sub-Still : (a b : ValueType) → Still (eval_sub host a b)
  unfolding eval_sub
  eval_sub-Still (number _) (number _) w = Keeps-pure
  eval_sub-Still _ _ w = Keeps-panic

  pub eval_mul-Still : (a b : ValueType) → Still (eval_mul host a b)
  unfolding eval_mul
  eval_mul-Still (number _) (number _) w = Keeps-pure
  eval_mul-Still _ _ w = Keeps-panic

  pub eval_div-Still : (a b : ValueType) → Still (eval_div host a b)
  unfolding eval_div
  eval_div-Still (number l) (number r) w = elim (Bool-cases (host.f64.feq r f64_zero)) [
    | inl by_zero ↦ rw (eval_div, by_zero) Keeps-panic
    | inr other ↦ rw (eval_div, other) Keeps-pure
  ]
  eval_div-Still _ _ w = Keeps-panic

pub eval_neg-Still : (a : ValueType) → Still (eval_neg a)
unfolding eval_neg
eval_neg-Still (bool _) w = Keeps-pure
eval_neg-Still _ w = Keeps-panic

pub eval_and-Still : (a b : ValueType) → Still (eval_and a b)
unfolding eval_and
eval_and-Still (bool _) (bool _) w = Keeps-pure
eval_and-Still _ _ w = Keeps-panic

pub eval_or-Still : (a b : ValueType) → Still (eval_or a b)
unfolding eval_or
eval_or-Still (bool _) (bool _) w = Keeps-pure
eval_or-Still _ _ w = Keeps-panic
