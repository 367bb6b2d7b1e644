-- ===== src/Runtime/Twice.antt =====
-- src/runtime/builtin_functions.rs: what a call does with the argument of a built-in function; and
-- src/runtime/evaluation.rs, `&&`.
use map2_legacy.Base.{
  ◌≡◌, ◌↔◌, refl, ap, ◌∙◌, ℕ, suc, ◌≤◌, List, [], ◌∷◌, ◌++◌, Bool, true, false, ◌&&◌, ◌||◌, Text,
  arith, append_assoc,
}
use map2_legacy.Ast.{Address, ValueType, bool, void, Expr, function_call, arg, no_exprs}
use map2_legacy.Runtime.World.{World, Effect, Ambient, done, message, write, send_message, emit}
use map2_legacy.Runtime.Host.{Host}
use map2_legacy.Runtime.Values.{display, eval_and}
use map2_legacy.Runtime.Builtins.{print, builtin_of, call_print}
use map2_legacy.Runtime.Eval.{eval_expr}

-- The world with more effects.
abbrev pub then_effects : World → List Effect → World
then_effects w es = record w { trace = w.trace ++ es }

module _ (host : Host) where
  -- With a message channel, a call of print evaluates its argument twice: where the argument gives
  -- a value with certain effects, at every fuel from some on, they happen twice before the text is
  -- written.
  pub eval_expr-print :
      (f : ℕ) (x : Text) (e : Expr) (s : Address) (amb : Ambient) (v : ValueType) (es : List Effect)
      (w : World)
      → builtin_of x ≡ print
      → amb.message_tx ≡ true
      → ((g : ℕ) (u : World) → f ≤ g → eval_expr host g e s amb u ≡ done v (then_effects u es))
      → eval_expr host (suc (suc (suc (suc (suc f))))) (function_call x (arg e no_exprs)) s amb w
        ≡ done void
            (then_effects w (es ++ (es ++ message (write (display host v ++ 10 ∷ [])) ∷ [])))
  unfolding eval_expr call_print send_message emit
  eval_expr-print f x e s amb v es w named tx evaluates =
      rw
        (
          evaluates (suc (suc f)) w (omega arith),
          named,
          evaluates (suc f) (then_effects w es) (omega arith),
          tx,
        )
        (ap (λ l. done void (record w { trace = l }))
          (append_assoc (w.trace ++ es) es _ ∙ append_assoc w.trace es _))

-- && of two Booleans is their conjunction exactly if one of them is true.
pub eval_and-bool :
    (l r : Bool) (w : World)
    → (eval_and (bool l) (bool r) w ≡ done (bool (l && r)) w) ↔ ((l || r) ≡ true)
unfolding eval_and
eval_and-bool true true w = ((λ _. refl), λ _. refl)
eval_and-bool true false w = ((λ _. refl), λ _. refl)
eval_and-bool false true w = ((λ _. refl), λ _. refl)
eval_and-bool false false w = ((λ e. cc e), λ e. cc e)
