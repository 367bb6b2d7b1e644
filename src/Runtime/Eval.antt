-- ===== src/Runtime/Eval.antt =====
-- src/runtime/evaluation.rs, `eval_expr` and `eval_block`, and src/runtime/builtin_functions.rs,
-- `evaluate_builtin`. Scripts need not stop: each call of one of these functions, each round of a
-- loop and each statement of a block costs one unit of fuel, and `lost` says that it ran out.
use map2_legacy.Base.{ℕ, zero, suc, List, [], ◌∷◌, Bool, true, false, some, Text}
use map2_legacy.Ast.{
  Address, ValueType, bool, closure, number, void, Expr, eq, neq, lt, gt, add, sub, mul, div, neg,
  and, or, init, assign, key_mapping, name, value_of, lambda, function_call, key_action,
  sleep_action, release_restore_modifiers, Exprs, no_exprs, arg, Stmt, expr, block, if_else,
  for_loop, return_stmt, continue_stmt, Branches, no_branches, branch, Else, no_else, else_block,
  Block, end, ◌⨾◌,
}
use map2_legacy.Runtime.World.{
  window_change_arity, continue_in_function, function_not_found, not_a_function, fatal_error, slept,
  Ambient, BlockRet, fell_through, continued, returned, missing_argument, termination_not_bool, M,
  ◌>>=◌, ◌>>◌, pure, panic, lost, new_scope, emit, send_actions, send_synced, send_message,
  write_variable, parent_of,
}
use map2_legacy.Runtime.Scope.{read_name, assign_name}
use map2_legacy.Runtime.Host.{Host, f64_zero}
use map2_legacy.Runtime.Values.{
  value_beq, eval_eq, eval_neq, eval_lt, eval_gt, eval_add, eval_sub, eval_mul, eval_div, eval_neg,
  eval_and, eval_or,
}
use map2_legacy.Runtime.Modifiers.{release_restore}
use map2_legacy.Runtime.Builtins.{
  Builtin, exit, send, send_modifier, active_window_class, on_window_change, sleep, print,
  number_to_key, number_to_char, char_to_number, map_key, execute, user_function, builtin_of,
  CallResult, ok, failed, register_mappings, call_exit, call_send, call_send_modifier,
  call_active_window_class, call_on_window_change, call_sleep, call_print, call_number_to_key,
  call_number_to_char, call_char_to_number, call_map_key, call_execute,
}

-- Whether a list of arguments has one element.
abbrev pub is_single : Exprs → Bool
is_single (arg _ no_exprs) = true
is_single _ = false

abbrev pub rest_of : Exprs → Exprs
rest_of no_exprs = no_exprs
rest_of (arg _ es) = es

-- `throw_error(err, 1, amb)`, after a call that failed.
abbrev pub finish_call : Ambient → CallResult → M ValueType
finish_call amb (ok v) = pure v
finish_call amb (failed e) = send_message amb (fatal_error e 1) >> pure void

-- What a function makes of the way in which its body ended.
abbrev pub of_block : BlockRet → CallResult
of_block (returned v) = ok v
of_block continued = failed continue_in_function
of_block fell_through = ok void

module _ (host : Host) where
  unfoldable mutual
    pub eval_expr : ℕ → Expr → Address → Ambient → M ValueType
    eval_expr zero e s amb = λ _. lost
    eval_expr (suc f) (eq l r) s amb = do
      a ← eval_expr f l s amb
      b ← eval_expr f r s amb
      pure (eval_eq host a b)
    eval_expr (suc f) (neq l r) s amb = do
      a ← eval_expr f l s amb
      b ← eval_expr f r s amb
      pure (eval_neq host a b)
    eval_expr (suc f) (lt l r) s amb = do
      a ← eval_expr f l s amb
      b ← eval_expr f r s amb
      pure (eval_lt host a b)
    eval_expr (suc f) (gt l r) s amb = do
      a ← eval_expr f l s amb
      b ← eval_expr f r s amb
      pure (eval_gt host a b)
    eval_expr (suc f) (add l r) s amb = do
      a ← eval_expr f l s amb
      b ← eval_expr f r s amb
      eval_add host a b
    eval_expr (suc f) (sub l r) s amb = do
      a ← eval_expr f l s amb
      b ← eval_expr f r s amb
      eval_sub host a b
    eval_expr (suc f) (mul l r) s amb = do
      a ← eval_expr f l s amb
      b ← eval_expr f r s amb
      eval_mul host a b
    eval_expr (suc f) (div l r) s amb = do
      a ← eval_expr f l s amb
      b ← eval_expr f r s amb
      eval_div host a b
    eval_expr (suc f) (and l r) s amb = do
      a ← eval_expr f l s amb
      b ← eval_expr f r s amb
      eval_and a b
    eval_expr (suc f) (or l r) s amb = do
      a ← eval_expr f l s amb
      b ← eval_expr f r s amb
      eval_or a b
    eval_expr (suc f) (neg e) s amb = do a ← eval_expr f e s amb; eval_neg a
    eval_expr (suc f) (init x e) s amb = do v ← eval_expr f e s amb; write_variable s x v; pure void
    eval_expr (suc f) (assign x e) s amb = do v ← eval_expr f e s amb; assign_name x v s
    eval_expr (suc f) (key_mapping ms) s amb = register_mappings amb s ms >> pure void
    eval_expr (suc f) (name x) s amb = read_name x s
    eval_expr (suc f) (value_of v) s amb = pure v
    eval_expr (suc f) (lambda params body) s amb = do
      c ← new_scope (some s)
      pure (closure params body c)
    eval_expr (suc f) (function_call x args) s amb = do
      r ← evaluate_builtin f x args s amb
      finish_call amb r
    eval_expr (suc f) (key_action a) s amb = send_synced (a ∷ []) >> pure void
    eval_expr (suc f) (sleep_action n) s amb = emit (slept n) >> pure void
    eval_expr (suc f) (release_restore_modifiers from to v) s amb =
        send_actions (release_restore from to v amb.modifier_state) >> pure void

    -- The values of all arguments, from the left.
    pub eval_args : ℕ → Exprs → Address → Ambient → M (List ValueType)
    eval_args zero es s amb = λ _. lost
    eval_args (suc f) no_exprs s amb = pure []
    eval_args (suc f) (arg e es) s amb = do
      v ← eval_expr f e s amb
      vs ← eval_args f es s amb
      pure (v ∷ vs)

    -- `eval_expr(args.get(0).unwrap(), ..)`.
    pub eval_first : ℕ → Exprs → Address → Ambient → M ValueType
    eval_first zero es s amb = λ _. lost
    eval_first (suc f) no_exprs s amb = panic missing_argument
    eval_first (suc f) (arg e _) s amb = eval_expr f e s amb

    -- The first argument, or a default where there is none.
    pub eval_first_or : ℕ → ValueType → Exprs → Address → Ambient → M ValueType
    eval_first_or zero d es s amb = λ _. lost
    eval_first_or (suc f) d no_exprs s amb = pure d
    eval_first_or (suc f) d (arg e _) s amb = eval_expr f e s amb

    -- All arguments are evaluated before the name is looked at.
    pub evaluate_builtin : ℕ → Text → Exprs → Address → Ambient → M CallResult
    evaluate_builtin zero x args s amb = λ _. lost
    evaluate_builtin (suc f) x args s amb = do
      parsed ← eval_args f args s amb
      call_builtin f (builtin_of x) x args parsed s amb

    -- The arms of the match; each but `execute` evaluates its arguments once more.
    pub call_builtin :
        ℕ → Builtin → Text → Exprs → List ValueType → Address → Ambient → M CallResult
    call_builtin zero b x args parsed s amb = λ _. lost
    call_builtin (suc f) exit x args parsed s amb = do
      v ← eval_first_or f (number f64_zero) args s amb
      call_exit host amb v
    call_builtin (suc f) send x args parsed s amb = do v ← eval_first f args s amb; call_send host v
    call_builtin (suc f) send_modifier x args parsed s amb = do
      v ← eval_first f args s amb
      call_send_modifier host amb v
    call_builtin (suc f) active_window_class x args parsed s amb = call_active_window_class host amb
    call_builtin (suc f) on_window_change x args parsed s amb = elim (is_single args) [
      | false ↦ pure (failed window_change_arity)
      | true ↦ eval_first f args s amb >>= λ v. call_on_window_change host amb v
    ]
    call_builtin (suc f) sleep x args parsed s amb = do
      v ← eval_first f args s amb
      call_sleep host v
    call_builtin (suc f) print x args parsed s amb = do
      v ← eval_first f args s amb
      call_print host amb v
    call_builtin (suc f) number_to_key x args parsed s amb = do
      v ← eval_first f args s amb
      call_number_to_key host v
    call_builtin (suc f) number_to_char x args parsed s amb = do
      v ← eval_first f args s amb
      call_number_to_char host v
    call_builtin (suc f) char_to_number x args parsed s amb = do
      v ← eval_first f args s amb
      call_char_to_number host v
    call_builtin (suc f) map_key x args parsed s amb = do
      from ← eval_first f args s amb
      to ← eval_first f (rest_of args) s amb
      call_map_key host amb from to
    call_builtin (suc f) execute x args parsed s amb = call_execute host parsed
    call_builtin (suc f) user_function x args parsed s amb = do
      v ← eval_expr f (name x) s amb
      elim v [
        | closure params body c ↦ call_lambda f params body c args s amb
        | void ↦ pure (failed (function_not_found x))
        | _ ↦ pure (failed (not_a_function x))
      ]

    -- A call runs in a fresh map below the parent of the closure's own map.
    pub call_lambda : ℕ → List Text → Block → Address → Exprs → Address → Ambient → M CallResult
    call_lambda zero params body c args s amb = λ _. lost
    call_lambda (suc f) params body c args s amb = do
      p ← parent_of c
      inner ← new_scope p
      bind_params f params args s inner amb
      r ← eval_block f body inner amb
      pure (of_block r)

    -- A parameter with no argument is `Void`.
    pub bind_params : ℕ → List Text → Exprs → Address → Address → Ambient → M (Unit {0})
    bind_params zero params args s inner amb = λ _. lost
    bind_params (suc f) [] args s inner amb = pure tt
    bind_params (suc f) (x ∷ params) args s inner amb = do
      v ← eval_first_or f void args s amb
      eval_expr f (init x (value_of v)) inner amb
      bind_params f params (rest_of args) s inner amb

    pub eval_block : ℕ → Block → Address → Ambient → M BlockRet
    eval_block zero b s amb = λ _. lost
    eval_block (suc f) b s amb = do inner ← new_scope (some s); run_stmts f b inner amb

    pub run_stmts : ℕ → Block → Address → Ambient → M BlockRet
    run_stmts zero b s amb = λ _. lost
    run_stmts (suc f) end s amb = pure fell_through
    run_stmts (suc f) (st ⨾ b) s amb = do
      r ← run_stmt f st s amb
      elim r [ fell_through ↦ run_stmts f b s amb | other ↦ pure other ]

    pub run_stmt : ℕ → Stmt → Address → Ambient → M BlockRet
    run_stmt zero st s amb = λ _. lost
    run_stmt (suc f) (expr e) s amb = do eval_expr f e s amb; pure fell_through
    run_stmt (suc f) (block b) s amb = eval_block f b s amb
    run_stmt (suc f) (if_else bs e) s amb = run_branches f bs e s amb
    run_stmt (suc f) (for_loop first test step b) s amb = do
      eval_expr f first s amb
      run_loop f test step b s amb
    run_stmt (suc f) (return_stmt e) s amb = do v ← eval_expr f e s amb; pure (returned v)
    run_stmt (suc f) continue_stmt s amb = pure continued

    pub run_branches : ℕ → Branches → Else → Address → Ambient → M BlockRet
    run_branches zero bs e s amb = λ _. lost
    run_branches (suc f) no_branches no_else s amb = pure fell_through
    run_branches (suc f) no_branches (else_block b) s amb = eval_block f b s amb
    run_branches (suc f) (branch t b bs) e s amb = do
      v ← eval_expr f t s amb
      elim (value_beq host v (bool true)) [
        | true ↦ eval_block f b s amb
        | false ↦ run_branches f bs e s amb
      ]

    pub run_loop : ℕ → Expr → Expr → Block → Address → Ambient → M BlockRet
    run_loop zero test step b s amb = λ _. lost
    run_loop (suc f) test step b s amb = do
      v ← eval_expr f test s amb
      elim v [
        | bool false ↦ pure fell_through
        | bool true ↦ eval_block f b s amb >>= λ r. elim r [
          | returned u ↦ pure (returned u)
          | _ ↦ eval_expr f step s amb >> run_loop f test step b s amb
        ]
        | _ ↦ panic termination_not_bool
      ]
