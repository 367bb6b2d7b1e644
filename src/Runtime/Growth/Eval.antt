-- ===== src/Runtime/Growth/Eval.antt =====
-- src/runtime/evaluation.rs and src/runtime/builtin_functions.rs: what an evaluation leaves as it was.
use map2_legacy.Base.{
  ◌≡◌, ap, ℕ, zero, suc, ◌<◌, List, [], ◌∷◌, Bool, true, false, Option, some, Text, length,
  get_elem?, Option-cases, inl, inr, arith,
}
use map2_legacy.Ast.{
  Address, ValueType, bool, closure, void, Expr, eq, neq, lt, gt, add, sub, mul, div, neg, and, or,
  init, assign, key_mapping, name, value_of, lambda, function_call, key_action, sleep_action,
  release_restore_modifiers, Exprs, no_exprs, arg, Stmt, expr, block, if_else, for_loop,
  return_stmt, continue_stmt, Branches, no_branches, branch, Else, no_else, else_block, Block, end,
  ◌⨾◌,
}
use map2_legacy.Runtime.World.{
  VarMap, World, Ambient, fell_through, returned, M, after, parent_of, slept, ◌>>=◌, pure,
  window_change_arity,
}
use map2_legacy.Runtime.Host.{Host}
use map2_legacy.Runtime.Values.{value_beq}
use map2_legacy.Runtime.Builtins.{
  Builtin, exit, send, send_modifier, active_window_class, on_window_change, sleep, print,
  number_to_key, number_to_char, char_to_number, map_key, execute, user_function, builtin_of,
  failed, call_on_window_change,
}
use map2_legacy.Runtime.Eval.{
  is_single, rest_of, eval_expr, eval_args, eval_first, eval_first_or, evaluate_builtin,
  call_builtin, call_lambda, bind_params, eval_block, run_stmts, run_stmt, run_branches, run_loop,
}
use map2_legacy.Runtime.Chains.{ParentsBelow, or_zero}
use map2_legacy.Runtime.Growth.{
  Keeps, by_loss, Keeps-bind, Keeps-pure, Keeps-panic, Keeps-then, emit-Still, send_actions-Still,
  send_synced-Still, write_variable-Still, Keeps-new_scope,
}
use map2_legacy.Runtime.Growth.Calls.{
  read_name-Still, assign_name-Still, register_mappings-Still, finish_call-Still, call_exit-Still,
  call_send-Still, call_send_modifier-Still, call_active_window_class-Still,
  call_on_window_change-Still, call_sleep-Still, call_print-Still, call_number_to_key-Still,
  call_number_to_char-Still, call_char_to_number-Still, call_map_key-Still, call_execute-Still,
}
use map2_legacy.Runtime.Growth.Operators.{
  eval_add-Still, eval_sub-Still, eval_mul-Still, eval_div-Still, eval_neg-Still, eval_and-Still,
  eval_or-Still,
}

below_child :
    (s a : Address) (w : World) → s < length w.store → some s ≡ some a → a < length w.store
below_child s a w h e = omega (arith, ap or_zero e)

within-store : (ms : List VarMap) (c : ℕ) (m : VarMap) → get_elem? ms c ≡ some m → c < length ms
within-store [] c m h = absurd (cc h)
within-store (k ∷ ms) zero m h = omega arith
within-store (k ∷ ms) (suc c) m h = omega (arith, within-store ms c m h)

-- A map that was there before one of the store.
within :
    (w : World) (c : Address) (m : VarMap) (a : Address)
    → get_elem? w.store c ≡ some m
    → a < c
    → a < length w.store
within w c m a here less = omega (arith, within-store w.store c m here)

-- The parent of a map, and what follows with it.
Keeps-parent_of :
    {B : Type 0} {w : World} (c : Address) (k : Option Address → M B)
    → ((p : Option Address)
        → (ParentsBelow w.store → (a : Address) → p ≡ some a → a < length w.store)
        → Keeps w (k p w))
    → Keeps w (after (parent_of c w) k)
unfolding parent_of
Keeps-parent_of {w = w} c k next = elim (Option-cases (get_elem? w.store c)) [
  | inl gone ↦ rw (parent_of, gone) by_loss
  | inr (m, here) ↦
      rw (parent_of, here)
        (next m.parent (λ before a up. within w c m a here (before c m a here up)))
]

choose-Keeps :
    {A : Type 0} {w : World} (b : Bool) (x y : M A)
    → Keeps w (x w)
    → Keeps w (y w)
    → Keeps w ((elim b as (λ _. M A) [ true ↦ x | false ↦ y ]) w)
choose-Keeps true x y p q = p
choose-Keeps false x y p q = q

module _ (host : Host) where
  mutual
    unfolding eval_expr

    pub eval_expr-Keeps :
        (f : ℕ) (e : Expr) (s : Address) (amb : Ambient) (w : World)
        → s < length w.store
        → Keeps w (eval_expr host f e s amb w)
    eval_expr-Keeps zero e s amb w h = by_loss
    eval_expr-Keeps (suc f) (eq l r) s amb w h =
        Keeps-bind h (eval_expr-Keeps f l s amb w h)
          λ a w₁ h₁. Keeps-bind h₁ (eval_expr-Keeps f r s amb w₁ h₁) λ b w₂ h₂. Keeps-pure
    eval_expr-Keeps (suc f) (neq l r) s amb w h =
        Keeps-bind h (eval_expr-Keeps f l s amb w h)
          λ a w₁ h₁. Keeps-bind h₁ (eval_expr-Keeps f r s amb w₁ h₁) λ b w₂ h₂. Keeps-pure
    eval_expr-Keeps (suc f) (lt l r) s amb w h =
        Keeps-bind h (eval_expr-Keeps f l s amb w h)
          λ a w₁ h₁. Keeps-bind h₁ (eval_expr-Keeps f r s amb w₁ h₁) λ b w₂ h₂. Keeps-pure
    eval_expr-Keeps (suc f) (gt l r) s amb w h =
        Keeps-bind h (eval_expr-Keeps f l s amb w h)
          λ a w₁ h₁. Keeps-bind h₁ (eval_expr-Keeps f r s amb w₁ h₁) λ b w₂ h₂. Keeps-pure
    eval_expr-Keeps (suc f) (add l r) s amb w h =
        Keeps-bind h (eval_expr-Keeps f l s amb w h) λ a w₁ h₁.
          Keeps-bind h₁ (eval_expr-Keeps f r s amb w₁ h₁) λ b w₂ h₂. eval_add-Still host a b w₂
    eval_expr-Keeps (suc f) (sub l r) s amb w h =
        Keeps-bind h (eval_expr-Keeps f l s amb w h) λ a w₁ h₁.
          Keeps-bind h₁ (eval_expr-Keeps f r s amb w₁ h₁) λ b w₂ h₂. eval_sub-Still host a b w₂
    eval_expr-Keeps (suc f) (mul l r) s amb w h =
        Keeps-bind h (eval_expr-Keeps f l s amb w h) λ a w₁ h₁.
          Keeps-bind h₁ (eval_expr-Keeps f r s amb w₁ h₁) λ b w₂ h₂. eval_mul-Still host a b w₂
    eval_expr-Keeps (suc f) (div l r) s amb w h =
        Keeps-bind h (eval_expr-Keeps f l s amb w h) λ a w₁ h₁.
          Keeps-bind h₁ (eval_expr-Keeps f r s amb w₁ h₁) λ b w₂ h₂. eval_div-Still host a b w₂
    eval_expr-Keeps (suc f) (and l r) s amb w h =
        Keeps-bind h (eval_expr-Keeps f l s amb w h) λ a w₁ h₁.
          Keeps-bind h₁ (eval_expr-Keeps f r s amb w₁ h₁) λ b w₂ h₂. eval_and-Still a b w₂
    eval_expr-Keeps (suc f) (or l r) s amb w h =
        Keeps-bind h (eval_expr-Keeps f l s amb w h)
          λ a w₁ h₁. Keeps-bind h₁ (eval_expr-Keeps f r s amb w₁ h₁) λ b w₂ h₂. eval_or-Still a b w₂
    eval_expr-Keeps (suc f) (neg e) s amb w h =
        Keeps-bind h (eval_expr-Keeps f e s amb w h) λ a w₁ h₁. eval_neg-Still a w₁
    eval_expr-Keeps (suc f) (init x e) s amb w h =
        Keeps-bind h (eval_expr-Keeps f e s amb w h)
          λ v w₁ h₁. Keeps-then (write_variable-Still s x v w₁) λ _ w₂. Keeps-pure
    eval_expr-Keeps (suc f) (assign x e) s amb w h =
        Keeps-bind h (eval_expr-Keeps f e s amb w h) λ v w₁ h₁. assign_name-Still x v s w₁
    eval_expr-Keeps (suc f) (key_mapping ms) s amb w h =
        Keeps-then (register_mappings-Still amb s ms w) λ _ w₁. Keeps-pure
    eval_expr-Keeps (suc f) (name x) s amb w h = read_name-Still x s w
    eval_expr-Keeps (suc f) (value_of v) s amb w h = Keeps-pure
    eval_expr-Keeps (suc f) (lambda params body) s amb w h =
        Keeps-new_scope _ (λ _ a e. below_child s a w h e) λ u longer. Keeps-pure
    eval_expr-Keeps (suc f) (function_call x args) s amb w h =
        Keeps-bind h (evaluate_builtin-Keeps f x args s amb w h)
          λ r w₁ h₁. finish_call-Still amb r w₁
    eval_expr-Keeps (suc f) (key_action a) s amb w h =
        Keeps-then (send_synced-Still (a ∷ []) w) λ _ w₁. Keeps-pure
    eval_expr-Keeps (suc f) (sleep_action n) s amb w h =
        Keeps-then (emit-Still (slept n) w) λ _ w₁. Keeps-pure {a = void}
    eval_expr-Keeps (suc f) (release_restore_modifiers from to v) s amb w h =
        Keeps-then (send_actions-Still _ w) λ _ w₁. Keeps-pure

    pub eval_args-Keeps :
        (f : ℕ) (es : Exprs) (s : Address) (amb : Ambient) (w : World)
        → s < length w.store
        → Keeps w (eval_args host f es s amb w)
    eval_args-Keeps zero es s amb w h = by_loss
    eval_args-Keeps (suc f) no_exprs s amb w h = Keeps-pure
    eval_args-Keeps (suc f) (arg e es) s amb w h =
        Keeps-bind h (eval_expr-Keeps f e s amb w h)
          λ v w₁ h₁. Keeps-bind h₁ (eval_args-Keeps f es s amb w₁ h₁) λ vs w₂ h₂. Keeps-pure

    pub eval_first-Keeps :
        (f : ℕ) (es : Exprs) (s : Address) (amb : Ambient) (w : World)
        → s < length w.store
        → Keeps w (eval_first host f es s amb w)
    eval_first-Keeps zero es s amb w h = by_loss
    eval_first-Keeps (suc f) no_exprs s amb w h = Keeps-panic
    eval_first-Keeps (suc f) (arg e es) s amb w h = eval_expr-Keeps f e s amb w h

    pub eval_first_or-Keeps :
        (f : ℕ) (d : ValueType) (es : Exprs) (s : Address) (amb : Ambient) (w : World)
        → s < length w.store
        → Keeps w (eval_first_or host f d es s amb w)
    eval_first_or-Keeps zero d es s amb w h = by_loss
    eval_first_or-Keeps (suc f) d no_exprs s amb w h = Keeps-pure
    eval_first_or-Keeps (suc f) d (arg e es) s amb w h = eval_expr-Keeps f e s amb w h

    pub evaluate_builtin-Keeps :
        (f : ℕ) (x : Text) (args : Exprs) (s : Address) (amb : Ambient) (w : World)
        → s < length w.store
        → Keeps w (evaluate_builtin host f x args s amb w)
    evaluate_builtin-Keeps zero x args s amb w h = by_loss
    evaluate_builtin-Keeps (suc f) x args s amb w h =
        Keeps-bind h (eval_args-Keeps f args s amb w h)
          λ vs w₁ h₁. call_builtin-Keeps f (builtin_of x) x args vs s amb w₁ h₁

    pub call_builtin-Keeps :
        (f : ℕ) (b : Builtin) (x : Text) (args : Exprs) (parsed : List ValueType) (s : Address)
        (amb : Ambient) (w : World)
        → s < length w.store
        → Keeps w (call_builtin host f b x args parsed s amb w)
    call_builtin-Keeps zero b x args parsed s amb w h = by_loss
    call_builtin-Keeps (suc f) exit x args parsed s amb w h =
        Keeps-bind h (eval_first_or-Keeps f _ args s amb w h)
          λ v w₁ h₁. call_exit-Still host amb v w₁
    call_builtin-Keeps (suc f) send x args parsed s amb w h =
        Keeps-bind h (eval_first-Keeps f args s amb w h) λ v w₁ h₁. call_send-Still host v w₁
    call_builtin-Keeps (suc f) send_modifier x args parsed s amb w h =
        Keeps-bind h (eval_first-Keeps f args s amb w h)
          λ v w₁ h₁. call_send_modifier-Still host amb v w₁
    call_builtin-Keeps (suc f) sleep x args parsed s amb w h =
        Keeps-bind h (eval_first-Keeps f args s amb w h) λ v w₁ h₁. call_sleep-Still host v w₁
    call_builtin-Keeps (suc f) print x args parsed s amb w h =
        Keeps-bind h (eval_first-Keeps f args s amb w h) λ v w₁ h₁. call_print-Still host amb v w₁
    call_builtin-Keeps (suc f) number_to_key x args parsed s amb w h =
        Keeps-bind h (eval_first-Keeps f args s amb w h)
          λ v w₁ h₁. call_number_to_key-Still host v w₁
    call_builtin-Keeps (suc f) number_to_char x args parsed s amb w h =
        Keeps-bind h (eval_first-Keeps f args s amb w h)
          λ v w₁ h₁. call_number_to_char-Still host v w₁
    call_builtin-Keeps (suc f) char_to_number x args parsed s amb w h =
        Keeps-bind h (eval_first-Keeps f args s amb w h)
          λ v w₁ h₁. call_char_to_number-Still host v w₁
    call_builtin-Keeps (suc f) active_window_class x args parsed s amb w h =
        call_active_window_class-Still host amb w
    call_builtin-Keeps (suc f) on_window_change x args parsed s amb w h =
        choose-Keeps (is_single args)
          (eval_first host f args s amb >>= call_on_window_change host amb)
          (pure (failed window_change_arity))
          (Keeps-bind h (eval_first-Keeps f args s amb w h)
            λ v w₁ h₁. call_on_window_change-Still host amb v w₁)
          Keeps-pure
    call_builtin-Keeps (suc f) map_key x args parsed s amb w h =
        Keeps-bind h (eval_first-Keeps f args s amb w h) λ from w₁ h₁.
          Keeps-bind h₁ (eval_first-Keeps f (rest_of args) s amb w₁ h₁)
            λ to w₂ h₂. call_map_key-Still host amb from to w₂
    call_builtin-Keeps (suc f) execute x args parsed s amb w h = call_execute-Still host parsed w
    call_builtin-Keeps (suc f) user_function x args parsed s amb w h =
        Keeps-bind h (eval_expr-Keeps f (name x) s amb w h) (elim [
          | closure params body c ↦ λ w₁ h₁. call_lambda-Keeps f params body c args s amb w₁ h₁
          | _ ↦ λ w₁ h₁. Keeps-pure
        ])

    pub call_lambda-Keeps :
        (f : ℕ) (params : List Text) (body : Block) (c : Address) (args : Exprs) (s : Address)
        (amb : Ambient) (w : World)
        → s < length w.store
        → Keeps w (call_lambda host f params body c args s amb w)
    call_lambda-Keeps zero params body c args s amb w h = by_loss
    call_lambda-Keeps (suc f) params body c args s amb w h = Keeps-parent_of c _ λ p there.
        Keeps-new_scope _ there λ u longer.
          Keeps-bind {s = length w.store} longer
            (bind_params-Keeps f params args s (length w.store) amb u h longer)
            λ _ w₂ h₂.
              Keeps-bind h₂ (eval_block-Keeps f body (length w.store) amb w₂ h₂)
                λ r w₃ h₃. Keeps-pure

    pub bind_params-Keeps :
        (f : ℕ) (params : List Text) (args : Exprs) (s inner : Address) (amb : Ambient) (w : World)
        → s < inner
        → inner < length w.store
        → Keeps w (bind_params host f params args s inner amb w)
    bind_params-Keeps zero params args s inner amb w later h = by_loss
    bind_params-Keeps (suc f) [] args s inner amb w later h = Keeps-pure
    bind_params-Keeps (suc f) (x ∷ params) args s inner amb w later h =
        Keeps-bind h (eval_first_or-Keeps f void args s amb w (omega arith)) λ v w₁ h₁.
          Keeps-bind h₁ (eval_expr-Keeps f (init x (value_of v)) inner amb w₁ h₁)
            λ _ w₂ h₂. bind_params-Keeps f params (rest_of args) s inner amb w₂ later h₂

    pub eval_block-Keeps :
        (f : ℕ) (b : Block) (s : Address) (amb : Ambient) (w : World)
        → s < length w.store
        → Keeps w (eval_block host f b s amb w)
    eval_block-Keeps zero b s amb w h = by_loss
    eval_block-Keeps (suc f) b s amb w h =
        Keeps-new_scope _ (λ _ a e. below_child s a w h e)
          λ u longer. run_stmts-Keeps f b (length w.store) amb u longer

    pub run_stmts-Keeps :
        (f : ℕ) (b : Block) (s : Address) (amb : Ambient) (w : World)
        → s < length w.store
        → Keeps w (run_stmts host f b s amb w)
    run_stmts-Keeps zero b s amb w h = by_loss
    run_stmts-Keeps (suc f) end s amb w h = Keeps-pure
    run_stmts-Keeps (suc f) (st ⨾ b) s amb w h =
        Keeps-bind h (run_stmt-Keeps f st s amb w h) (elim [
          | fell_through ↦ λ w₁ h₁. run_stmts-Keeps f b s amb w₁ h₁
          | _ ↦ λ w₁ h₁. Keeps-pure
        ])

    pub run_stmt-Keeps :
        (f : ℕ) (st : Stmt) (s : Address) (amb : Ambient) (w : World)
        → s < length w.store
        → Keeps w (run_stmt host f st s amb w)
    run_stmt-Keeps zero st s amb w h = by_loss
    run_stmt-Keeps (suc f) (expr e) s amb w h =
        Keeps-bind h (eval_expr-Keeps f e s amb w h) λ _ w₁ h₁. Keeps-pure
    run_stmt-Keeps (suc f) (block b) s amb w h = eval_block-Keeps f b s amb w h
    run_stmt-Keeps (suc f) (if_else bs e) s amb w h = run_branches-Keeps f bs e s amb w h
    run_stmt-Keeps (suc f) (for_loop first test step b) s amb w h =
        Keeps-bind h (eval_expr-Keeps f first s amb w h)
          λ _ w₁ h₁. run_loop-Keeps f test step b s amb w₁ h₁
    run_stmt-Keeps (suc f) (return_stmt e) s amb w h =
        Keeps-bind h (eval_expr-Keeps f e s amb w h) λ _ w₁ h₁. Keeps-pure
    run_stmt-Keeps (suc f) continue_stmt s amb w h = Keeps-pure

    pub run_branches-Keeps :
        (f : ℕ) (bs : Branches) (e : Else) (s : Address) (amb : Ambient) (w : World)
        → s < length w.store
        → Keeps w (run_branches host f bs e s amb w)
    run_branches-Keeps zero bs e s amb w h = by_loss
    run_branches-Keeps (suc f) no_branches no_else s amb w h = Keeps-pure
    run_branches-Keeps (suc f) no_branches (else_block b) s amb w h = eval_block-Keeps f b s amb w h
    run_branches-Keeps (suc f) (branch t b bs) e s amb w h =
        Keeps-bind h (eval_expr-Keeps f t s amb w h) λ v w₁ h₁.
          choose-Keeps (value_beq host v (bool true)) (eval_block host f b s amb)
            (run_branches host f bs e s amb) (eval_block-Keeps f b s amb w₁ h₁)
            (run_branches-Keeps f bs e s amb w₁ h₁)

    pub run_loop-Keeps :
        (f : ℕ) (test step : Expr) (b : Block) (s : Address) (amb : Ambient) (w : World)
        → s < length w.store
        → Keeps w (run_loop host f test step b s amb w)
    run_loop-Keeps zero test step b s amb w h = by_loss
    run_loop-Keeps (suc f) test step b s amb w h =
        Keeps-bind h (eval_expr-Keeps f test s amb w h) (elim [
          | bool false ↦ λ w₁ h₁. Keeps-pure
          | bool true ↦ λ w₁ h₁. Keeps-bind h₁ (eval_block-Keeps f b s amb w₁ h₁) (elim [
            | returned u ↦ λ w₂ h₂. Keeps-pure
            | _ ↦ λ w₂ h₂.
                Keeps-bind h₂ (eval_expr-Keeps f step s amb w₂ h₂)
                  λ _ w₃ h₃. run_loop-Keeps f test step b s amb w₃ h₃
          ])
          | _ ↦ λ w₁ h₁. Keeps-panic
        ])
