-- ===== src/Runtime/Values.antt =====
-- src/runtime/evaluation.rs, the operators on values and `Display`.
use map2_legacy.Base.{
  ◌++◌, Bool, true, false, not, ◌&&◌, ◌||◌, bool_beq, text_beq, text_ltb, Text, codes,
  if◌then◌else◌,
}
use map2_legacy.Ast.{ValueType, bool, string, closure, number, void}
use map2_legacy.Runtime.World.{
  M, pure, panic, cannot_add, cannot_subtract, cannot_multiply, division_by_zero, cannot_divide,
  cannot_negate, cannot_and, cannot_or,
}
use map2_legacy.Runtime.Host.{Host, f64_zero}

module _ (host : Host) where
  unfoldable pub display : ValueType → Text
  display (bool b) = if b then codes "true" else codes "false"
  display (string s) = s
  display (number n) = host.f64.display n
  display (closure _ _ _) = codes "Lambda"
  display void = codes "Void"

  -- `PartialEq` of `ValueType`: a closure and `Void` equal nothing.
  unfoldable pub value_beq : ValueType → ValueType → Bool
  value_beq (string l) (string r) = text_beq l r
  value_beq (bool l) (bool r) = bool_beq l r
  value_beq (number l) (number r) = host.f64.feq l r
  value_beq _ _ = false

  unfoldable pub eval_eq : ValueType → ValueType → ValueType
  eval_eq (bool l) (bool r) = bool (bool_beq l r)
  eval_eq (string l) (string r) = bool (text_beq l r)
  eval_eq (number l) (number r) = bool (host.f64.feq l r)
  eval_eq _ _ = bool false

  unfoldable pub eval_neq : ValueType → ValueType → ValueType
  eval_neq (bool l) (bool r) = bool (not (bool_beq l r))
  eval_neq (string l) (string r) = bool (not (text_beq l r))
  eval_neq (number l) (number r) = bool (not (host.f64.feq l r))
  eval_neq _ _ = bool true

  unfoldable pub eval_lt : ValueType → ValueType → ValueType
  eval_lt (bool l) (bool r) = bool (not l && r)
  eval_lt (string l) (string r) = bool (text_ltb l r)
  eval_lt (number l) (number r) = bool (host.f64.flt l r)
  eval_lt _ _ = bool false

  unfoldable pub eval_gt : ValueType → ValueType → ValueType
  eval_gt (bool l) (bool r) = bool (l && not r)
  eval_gt (string l) (string r) = bool (text_ltb r l)
  eval_gt (number l) (number r) = bool (host.f64.flt r l)
  eval_gt _ _ = bool false

  unfoldable pub eval_add : ValueType → ValueType → M ValueType
  unfolding display
  eval_add (number l) (number r) = pure (number (host.f64.fadd l r))
  eval_add (string l) r = pure (string (l ++ display r))
  eval_add l (string r) = pure (string (display l ++ r))
  eval_add _ _ = panic cannot_add

  unfoldable pub eval_sub : ValueType → ValueType → M ValueType
  eval_sub (number l) (number r) = pure (number (host.f64.fsub l r))
  eval_sub _ _ = panic cannot_subtract

  unfoldable pub eval_mul : ValueType → ValueType → M ValueType
  eval_mul (number l) (number r) = pure (number (host.f64.fmul l r))
  eval_mul _ _ = panic cannot_multiply

  unfoldable pub eval_div : ValueType → ValueType → M ValueType
  eval_div (number l) (number r) =
      if host.f64.feq r f64_zero then panic division_by_zero else pure (number (host.f64.fdiv l r))
  eval_div _ _ = panic cannot_divide

unfoldable pub eval_neg : ValueType → M ValueType
eval_neg (bool b) = pure (bool (not b))
eval_neg _ = panic cannot_negate

-- The code compares its operands.
unfoldable pub eval_and : ValueType → ValueType → M ValueType
eval_and (bool l) (bool r) = pure (bool (bool_beq l r))
eval_and _ _ = panic cannot_and

unfoldable pub eval_or : ValueType → ValueType → M ValueType
eval_or (bool l) (bool r) = pure (bool (l || r))
eval_or _ _ = panic cannot_or
