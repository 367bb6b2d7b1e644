-- ===== src/Tests/Runtimes.antt =====
-- src/runtime/evaluation.rs and src/runtime/builtin_functions.rs at concrete inputs.
use map2_legacy.Base.{
  Option, none, ◌∙◌, ◌≡◌, ◌≢◌, ◌↔◌, refl, ap, ℕ, zero, suc, ◌≤◌, List, [], ◌∷◌, ◌++◌, true, false,
  some, arith, codes, append_assoc,
}
use map2_legacy.Key.{syn_report, to_input_ev}
use map2_legacy.Ast.{
  Address, ValueType, Block, end, ◌⨾◌, expr, key_action, function_call, arg, no_exprs, bool, void,
}
use map2_legacy.Runtime.World.{
  VarMap, World, Outcome, done, lost, BlockRet, fell_through, Effect, sent, message, write,
  new_scope, emit, send_synced,
}
use map2_legacy.Runtime.Values.{display, eval_and}
use map2_legacy.Runtime.Builtins.{builtin_of, print}
use map2_legacy.Runtime.Eval.{eval_expr, eval_block}
use map2_legacy.Runtime.Twice.{then_effects, eval_expr-print, eval_and-bool}
use map2_legacy.Runtime.Scope.{read_name}
use map2_legacy.Runtime.Chains.{ParentsBelow, read_name-ends}
use map2_legacy.Runtime.Growth.{Grows}
use map2_legacy.Runtime.Growth.Blocks.{eval_block-Grows}
use map2_legacy.Tests.Samples.{toy_host, key_a, ambient, empty_world, press}

-- A script that presses `a`.
abbrev tap_a : Block
tap_a = expr (key_action (press key_a)) ⨾ end

abbrev tapped : Outcome BlockRet
tapped = done fell_through (record {
  store = record { scope_values = []; parent = some 0 } ∷ [];
  trace = sent (to_input_ev (press key_a)) ∷ sent syn_report ∷ [];
})

tap_a-run : eval_block toy_host 10 tap_a 0 ambient empty_world ≡ tapped
unfolding eval_block new_scope emit send_synced
tap_a-run = refl

tapped-ends : tapped ≢ lost
tapped-ends e = cc e

-- The action that the script takes, as an expression.
abbrev tap_effects : List Effect
tap_effects = sent (to_input_ev (press key_a)) ∷ sent syn_report ∷ []

key_action-evaluates :
    (g : ℕ) (u : World)
    → 1 ≤ g
    → eval_expr toy_host g (key_action (press key_a)) 0 ambient u
      ≡ done void (then_effects u tap_effects)
unfolding eval_expr emit send_synced
key_action-evaluates zero u h = absurd (omega arith)
key_action-evaluates (suc g) u h =
    ap (λ l. done void (record u { trace = l }))
      (append_assoc u.trace (sent (to_input_ev (press key_a)) ∷ []) (sent syn_report ∷ []))

print-named : builtin_of (codes "print") ≡ print
unfolding builtin_of
print-named = refl

eval_expr-print_example :
    eval_expr toy_host 6
      (function_call (codes "print") (arg (key_action (press key_a)) no_exprs))
      0
      ambient
      empty_world
    ≡ done void (
        then_effects empty_world
          (tap_effects ++ (tap_effects ++ message (write (display toy_host void ++ 10 ∷ [])) ∷ [])))
eval_expr-print_example =
    eval_expr-print toy_host 1 (codes "print") (key_action (press key_a)) 0 ambient void tap_effects
      empty_world print-named refl key_action-evaluates

eval_and-bool_example :
    (eval_and (bool false) (bool false) empty_world ≡ done (bool false) empty_world)
    ↔ (false ≡ true)
eval_and-bool_example = eval_and-bool false false empty_world

-- A global map with `x`, and a map below it.
abbrev nested : World
nested = record {
  store =
      record { scope_values = (codes "x", bool true) ∷ []; parent = none }
      ∷ record { scope_values = []; parent = some 0 }
      ∷ [];
  trace = [];
}

abbrev parent_in : Option VarMap → Option Address
parent_in none = none
parent_in (some m) = m.parent

abbrev or_one : Option Address → ℕ
or_one none = 1
or_one (some a) = a

nested-ParentsBelow : ParentsBelow nested.store
nested-ParentsBelow zero m p here child = cc (ap parent_in here ∙ child)
nested-ParentsBelow (suc zero) m p here child = omega (arith, ap or_one (ap parent_in here ∙ child))
nested-ParentsBelow (suc (suc i)) m p here child = cc here

read_name-ends_example : (v : ValueType) × (read_name (codes "x") 1 nested ≡ done v nested)
read_name-ends_example = read_name-ends (codes "x") 1 nested nested-ParentsBelow (omega arith)

-- The world after a block that presses `a`, run below the map of the function.
abbrev nested_tapped : World
nested_tapped = record {
  store = nested.store ++ record { scope_values = []; parent = some 1 } ∷ [];
  trace = nested.trace ++ tap_effects;
}

eval_block-Grows_example : Grows nested nested_tapped × ParentsBelow nested_tapped.store
unfolding eval_block new_scope emit send_synced
eval_block-Grows_example =
    eval_block-Grows toy_host 10 tap_a 1 ambient nested nested_tapped (omega arith)
      nested-ParentsBelow refl
