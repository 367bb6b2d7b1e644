-- ===== src/Runtime/Fuel.antt =====
-- src/runtime/evaluation.rs: the same evaluation at two amounts of fuel.
use map2_legacy.Base.{
  ℕ, zero, suc, ◌≡◌, ◌≢◌, ◌⊎◌, inl, inr, ◌≤◌, refl, sym, some, List, [], ◌∷◌, Bool, true, false,
  Text, arith,
}
use map2_legacy.Ast.{
  Address, ValueType, bool, closure, void, Expr, eq, neq, lt, gt, add, sub, mul, div, neg, and, or,
  init, assign, name, value_of, function_call, Exprs, no_exprs, arg, Stmt, expr, block, if_else,
  for_loop, return_stmt, continue_stmt, Branches, no_branches, branch, Else, no_else, else_block,
  Block, end, ◌⨾◌,
}
use map2_legacy.Runtime.World.{
  Ambient, BlockRet, fell_through, returned, World, Outcome, done, panicked, lost, M, after,
  parent_of, new_scope, pure, ◌>>=◌, window_change_arity,
}
use map2_legacy.Runtime.Host.{Host}
use map2_legacy.Runtime.Values.{value_beq}
use map2_legacy.Runtime.Builtins.{
  Builtin, exit, send, send_modifier, on_window_change, sleep, print, number_to_key, number_to_char,
  char_to_number, map_key, user_function, builtin_of, failed, call_on_window_change,
}
use map2_legacy.Runtime.Eval.{
  is_single, rest_of, eval_expr, eval_args, eval_first, eval_first_or, evaluate_builtin,
  call_builtin, call_lambda, bind_params, eval_block, run_stmts, run_stmt, run_branches, run_loop,
}

-- The right outcome is the left one, unless the left one ran out of fuel.
infix 50 ◌⊑◌
pub data ◌⊑◌ {A : Type 0} : Outcome A → Outcome A → Type 0 where
  below : {o : Outcome A} → lost ⊑ o
  same : {o : Outcome A} → o ⊑ o

bind-⊑ :
    {A B : Type 0} {o o' : Outcome A} {k k' : A → M B}
    → o ⊑ o'
    → ((a : A) (w : World) → k a w ⊑ k' a w)
    → after o k ⊑ after o' k'
bind-⊑ below h = below
bind-⊑ (same {o = done a w}) h = h a w
bind-⊑ (same {o = panicked p w}) h = same
bind-⊑ (same {o = lost}) h = same

⊑-done : {A : Type 0} {o o' : Outcome A} (r : Outcome A) → o ⊑ o' → o ≡ r → ¬ (r ≡ lost) → o' ≡ r
⊑-done r below e n = absurd (n (sym e))
⊑-done r same e n = e

choose-⊑ :
    {A : Type 0} (b : Bool) (x x' y y' : M A) {w : World}
    → x w ⊑ x' w
    → y w ⊑ y' w
    → (elim b as (λ _. M A) [ true ↦ x | false ↦ y ]) w
      ⊑ (elim b as (λ _. M A) [ true ↦ x' | false ↦ y' ]) w
choose-⊑ true x x' y y' p q = p
choose-⊑ false x x' y y' p q = q

le_total : (f g : ℕ) → (f ≤ g) ⊎ (g ≤ f)
le_total f g = grind arith

module _ (host : Host) where
  mutual
    unfolding eval_expr

    pub eval_expr-⊑ :
        (f g : ℕ)
        → f ≤ g
        → (e : Expr) (s : Address) (amb : Ambient) → (w : World)
        → eval_expr host f e s amb w ⊑ eval_expr host g e s amb w
    eval_expr-⊑ zero g h e s amb w = below
    eval_expr-⊑ (suc f) zero h e s amb w = absurd (omega arith)
    eval_expr-⊑ (suc f) (suc g) h (eq l r) s amb w =
        bind-⊑ (eval_expr-⊑ f g (omega arith) l s amb w)
          λ a w₁. bind-⊑ (eval_expr-⊑ f g (omega arith) r s amb w₁) λ b w₂. same
    eval_expr-⊑ (suc f) (suc g) h (neq l r) s amb w =
        bind-⊑ (eval_expr-⊑ f g (omega arith) l s amb w)
          λ a w₁. bind-⊑ (eval_expr-⊑ f g (omega arith) r s amb w₁) λ b w₂. same
    eval_expr-⊑ (suc f) (suc g) h (lt l r) s amb w =
        bind-⊑ (eval_expr-⊑ f g (omega arith) l s amb w)
          λ a w₁. bind-⊑ (eval_expr-⊑ f g (omega arith) r s amb w₁) λ b w₂. same
    eval_expr-⊑ (suc f) (suc g) h (gt l r) s amb w =
        bind-⊑ (eval_expr-⊑ f g (omega arith) l s amb w)
          λ a w₁. bind-⊑ (eval_expr-⊑ f g (omega arith) r s amb w₁) λ b w₂. same
    eval_expr-⊑ (suc f) (suc g) h (add l r) s amb w =
        bind-⊑ (eval_expr-⊑ f g (omega arith) l s amb w)
          λ a w₁. bind-⊑ (eval_expr-⊑ f g (omega arith) r s amb w₁) λ b w₂. same
    eval_expr-⊑ (suc f) (suc g) h (sub l r) s amb w =
        bind-⊑ (eval_expr-⊑ f g (omega arith) l s amb w)
          λ a w₁. bind-⊑ (eval_expr-⊑ f g (omega arith) r s amb w₁) λ b w₂. same
    eval_expr-⊑ (suc f) (suc g) h (mul l r) s amb w =
        bind-⊑ (eval_expr-⊑ f g (omega arith) l s amb w)
          λ a w₁. bind-⊑ (eval_expr-⊑ f g (omega arith) r s amb w₁) λ b w₂. same
    eval_expr-⊑ (suc f) (suc g) h (div l r) s amb w =
        bind-⊑ (eval_expr-⊑ f g (omega arith) l s amb w)
          λ a w₁. bind-⊑ (eval_expr-⊑ f g (omega arith) r s amb w₁) λ b w₂. same
    eval_expr-⊑ (suc f) (suc g) h (and l r) s amb w =
        bind-⊑ (eval_expr-⊑ f g (omega arith) l s amb w)
          λ a w₁. bind-⊑ (eval_expr-⊑ f g (omega arith) r s amb w₁) λ b w₂. same
    eval_expr-⊑ (suc f) (suc g) h (or l r) s amb w =
        bind-⊑ (eval_expr-⊑ f g (omega arith) l s amb w)
          λ a w₁. bind-⊑ (eval_expr-⊑ f g (omega arith) r s amb w₁) λ b w₂. same
    eval_expr-⊑ (suc f) (suc g) h (neg e) s amb w =
        bind-⊑ (eval_expr-⊑ f g (omega arith) e s amb w) λ a w₁. same
    eval_expr-⊑ (suc f) (suc g) h (init x e) s amb w =
        bind-⊑ (eval_expr-⊑ f g (omega arith) e s amb w) λ a w₁. same
    eval_expr-⊑ (suc f) (suc g) h (assign x e) s amb w =
        bind-⊑ (eval_expr-⊑ f g (omega arith) e s amb w) λ a w₁. same
    eval_expr-⊑ (suc f) (suc g) h (function_call x args) s amb w =
        bind-⊑ (evaluate_builtin-⊑ f g (omega arith) x args s amb w) λ a w₁. same
    eval_expr-⊑ (suc f) (suc g) h _ s amb w = same

    pub eval_args-⊑ :
        (f g : ℕ)
        → f ≤ g
        → (es : Exprs) (s : Address) (amb : Ambient) → (w : World)
        → eval_args host f es s amb w ⊑ eval_args host g es s amb w
    eval_args-⊑ zero g h es s amb w = below
    eval_args-⊑ (suc f) zero h es s amb w = absurd (omega arith)
    eval_args-⊑ (suc f) (suc g) h no_exprs s amb w = same
    eval_args-⊑ (suc f) (suc g) h (arg e es) s amb w =
        bind-⊑ (eval_expr-⊑ f g (omega arith) e s amb w)
          λ v w₁. bind-⊑ (eval_args-⊑ f g (omega arith) es s amb w₁) λ vs w₂. same

    pub eval_first-⊑ :
        (f g : ℕ)
        → f ≤ g
        → (es : Exprs) (s : Address) (amb : Ambient) → (w : World)
        → eval_first host f es s amb w ⊑ eval_first host g es s amb w
    eval_first-⊑ zero g h es s amb w = below
    eval_first-⊑ (suc f) zero h es s amb w = absurd (omega arith)
    eval_first-⊑ (suc f) (suc g) h no_exprs s amb w = same
    eval_first-⊑ (suc f) (suc g) h (arg e es) s amb w = eval_expr-⊑ f g (omega arith) e s amb w

    pub eval_first_or-⊑ :
        (f g : ℕ)
        → f ≤ g
        → (d : ValueType) (es : Exprs) (s : Address) (amb : Ambient) → (w : World)
        → eval_first_or host f d es s amb w ⊑ eval_first_or host g d es s amb w
    eval_first_or-⊑ zero g h d es s amb w = below
    eval_first_or-⊑ (suc f) zero h d es s amb w = absurd (omega arith)
    eval_first_or-⊑ (suc f) (suc g) h d no_exprs s amb w = same
    eval_first_or-⊑ (suc f) (suc g) h d (arg e es) s amb w = eval_expr-⊑ f g (omega arith) e s amb w

    pub evaluate_builtin-⊑ :
        (f g : ℕ)
        → f ≤ g
        → (x : Text) (args : Exprs) (s : Address) (amb : Ambient) → (w : World)
        → evaluate_builtin host f x args s amb w ⊑ evaluate_builtin host g x args s amb w
    evaluate_builtin-⊑ zero g h x args s amb w = below
    evaluate_builtin-⊑ (suc f) zero h x args s amb w = absurd (omega arith)
    evaluate_builtin-⊑ (suc f) (suc g) h x args s amb w =
        bind-⊑ (eval_args-⊑ f g (omega arith) args s amb w)
          λ vs w₁. call_builtin-⊑ f g (omega arith) (builtin_of x) x args vs s amb w₁

    pub call_builtin-⊑ :
        (f g : ℕ)
        → f ≤ g
        → (b : Builtin) (x : Text) (args : Exprs) (parsed : List ValueType) (s : Address)
          (amb : Ambient)
        → (w : World)
        → call_builtin host f b x args parsed s amb w ⊑ call_builtin host g b x args parsed s amb w
    call_builtin-⊑ zero g h b x args parsed s amb w = below
    call_builtin-⊑ (suc f) zero h b x args parsed s amb w = absurd (omega arith)
    call_builtin-⊑ (suc f) (suc g) h exit x args parsed s amb w =
        bind-⊑ (eval_first_or-⊑ f g (omega arith) _ args s amb w) λ v w₁. same
    call_builtin-⊑ (suc f) (suc g) h send x args parsed s amb w =
        bind-⊑ (eval_first-⊑ f g (omega arith) args s amb w) λ v w₁. same
    call_builtin-⊑ (suc f) (suc g) h send_modifier x args parsed s amb w =
        bind-⊑ (eval_first-⊑ f g (omega arith) args s amb w) λ v w₁. same
    call_builtin-⊑ (suc f) (suc g) h sleep x args parsed s amb w =
        bind-⊑ (eval_first-⊑ f g (omega arith) args s amb w) λ v w₁. same
    call_builtin-⊑ (suc f) (suc g) h print x args parsed s amb w =
        bind-⊑ (eval_first-⊑ f g (omega arith) args s amb w) λ v w₁. same
    call_builtin-⊑ (suc f) (suc g) h number_to_key x args parsed s amb w =
        bind-⊑ (eval_first-⊑ f g (omega arith) args s amb w) λ v w₁. same
    call_builtin-⊑ (suc f) (suc g) h number_to_char x args parsed s amb w =
        bind-⊑ (eval_first-⊑ f g (omega arith) args s amb w) λ v w₁. same
    call_builtin-⊑ (suc f) (suc g) h char_to_number x args parsed s amb w =
        bind-⊑ (eval_first-⊑ f g (omega arith) args s amb w) λ v w₁. same
    call_builtin-⊑ (suc f) (suc g) h on_window_change x args parsed s amb w =
        choose-⊑ (is_single args) (eval_first host f args s amb >>= call_on_window_change host amb)
          (eval_first host g args s amb >>= call_on_window_change host amb)
          (pure (failed window_change_arity)) (pure (failed window_change_arity))
          (bind-⊑ (eval_first-⊑ f g (omega arith) args s amb w) λ v w₁. same) same
    call_builtin-⊑ (suc f) (suc g) h map_key x args parsed s amb w =
        bind-⊑ (eval_first-⊑ f g (omega arith) args s amb w)
          λ v w₁. bind-⊑ (eval_first-⊑ f g (omega arith) (rest_of args) s amb w₁) λ u w₂. same
    call_builtin-⊑ (suc f) (suc g) h user_function x args parsed s amb w =
        bind-⊑ (eval_expr-⊑ f g (omega arith) (name x) s amb w) (elim [
          | closure params body c ↦ call_lambda-⊑ f g (omega arith) params body c args s amb
          | _ ↦ λ w₁. same
        ])
    call_builtin-⊑ (suc f) (suc g) h _ x args parsed s amb w = same

    pub call_lambda-⊑ :
        (f g : ℕ)
        → f ≤ g
        → (params : List Text) (body : Block) (c : Address) (args : Exprs) (s : Address)
          (amb : Ambient)
        → (w : World)
        → call_lambda host f params body c args s amb w
          ⊑ call_lambda host g params body c args s amb w
    call_lambda-⊑ zero g h params body c args s amb w = below
    call_lambda-⊑ (suc f) zero h params body c args s amb w = absurd (omega arith)
    call_lambda-⊑ (suc f) (suc g) h params body c args s amb w =
        bind-⊑ (same {o = parent_of c w}) λ p w₁. bind-⊑ (same {o = new_scope p w₁}) λ inner w₂.
          bind-⊑ (bind_params-⊑ f g (omega arith) params args s inner amb w₂)
            λ _ w₃. bind-⊑ (eval_block-⊑ f g (omega arith) body inner amb w₃) λ r w₄. same

    pub bind_params-⊑ :
        (f g : ℕ)
        → f ≤ g
        → (params : List Text) (args : Exprs) (s : Address) (inner : Address) (amb : Ambient)
        → (w : World)
        → bind_params host f params args s inner amb w
          ⊑ bind_params host g params args s inner amb w
    bind_params-⊑ zero g h params args s inner amb w = below
    bind_params-⊑ (suc f) zero h params args s inner amb w = absurd (omega arith)
    bind_params-⊑ (suc f) (suc g) h [] args s inner amb w = same
    bind_params-⊑ (suc f) (suc g) h (x ∷ params) args s inner amb w =
        bind-⊑ (eval_first_or-⊑ f g (omega arith) void args s amb w) λ v w₁.
          bind-⊑ (eval_expr-⊑ f g (omega arith) (init x (value_of v)) inner amb w₁)
            λ _ w₂. bind_params-⊑ f g (omega arith) params (rest_of args) s inner amb w₂

    pub eval_block-⊑ :
        (f g : ℕ)
        → f ≤ g
        → (b : Block) (s : Address) (amb : Ambient) → (w : World)
        → eval_block host f b s amb w ⊑ eval_block host g b s amb w
    eval_block-⊑ zero g h b s amb w = below
    eval_block-⊑ (suc f) zero h b s amb w = absurd (omega arith)
    eval_block-⊑ (suc f) (suc g) h b s amb w =
        bind-⊑ (same {o = new_scope (some s) w})
          λ inner w₁. run_stmts-⊑ f g (omega arith) b inner amb w₁

    pub run_stmts-⊑ :
        (f g : ℕ)
        → f ≤ g
        → (b : Block) (s : Address) (amb : Ambient) → (w : World)
        → run_stmts host f b s amb w ⊑ run_stmts host g b s amb w
    run_stmts-⊑ zero g h b s amb w = below
    run_stmts-⊑ (suc f) zero h b s amb w = absurd (omega arith)
    run_stmts-⊑ (suc f) (suc g) h end s amb w = same
    run_stmts-⊑ (suc f) (suc g) h (st ⨾ b) s amb w =
        bind-⊑ (run_stmt-⊑ f g (omega arith) st s amb w)
          (elim [ fell_through ↦ run_stmts-⊑ f g (omega arith) b s amb | _ ↦ λ w₁. same ])

    pub run_stmt-⊑ :
        (f g : ℕ)
        → f ≤ g
        → (st : Stmt) (s : Address) (amb : Ambient) → (w : World)
        → run_stmt host f st s amb w ⊑ run_stmt host g st s amb w
    run_stmt-⊑ zero g h st s amb w = below
    run_stmt-⊑ (suc f) zero h st s amb w = absurd (omega arith)
    run_stmt-⊑ (suc f) (suc g) h (expr e) s amb w =
        bind-⊑ (eval_expr-⊑ f g (omega arith) e s amb w) λ _ w₁. same
    run_stmt-⊑ (suc f) (suc g) h (block b) s amb w = eval_block-⊑ f g (omega arith) b s amb w
    run_stmt-⊑ (suc f) (suc g) h (if_else bs e) s amb w =
        run_branches-⊑ f g (omega arith) bs e s amb w
    run_stmt-⊑ (suc f) (suc g) h (for_loop first test step b) s amb w =
        bind-⊑ (eval_expr-⊑ f g (omega arith) first s amb w)
          λ _ w₁. run_loop-⊑ f g (omega arith) test step b s amb w₁
    run_stmt-⊑ (suc f) (suc g) h (return_stmt e) s amb w =
        bind-⊑ (eval_expr-⊑ f g (omega arith) e s amb w) λ _ w₁. same
    run_stmt-⊑ (suc f) (suc g) h continue_stmt s amb w = same

    pub run_branches-⊑ :
        (f g : ℕ)
        → f ≤ g
        → (bs : Branches) (e : Else) (s : Address) (amb : Ambient) → (w : World)
        → run_branches host f bs e s amb w ⊑ run_branches host g bs e s amb w
    run_branches-⊑ zero g h bs e s amb w = below
    run_branches-⊑ (suc f) zero h bs e s amb w = absurd (omega arith)
    run_branches-⊑ (suc f) (suc g) h no_branches no_else s amb w = same
    run_branches-⊑ (suc f) (suc g) h no_branches (else_block b) s amb w =
        eval_block-⊑ f g (omega arith) b s amb w
    run_branches-⊑ (suc f) (suc g) h (branch t b bs) e s amb w =
        bind-⊑ (eval_expr-⊑ f g (omega arith) t s amb w) λ v w₁.
          choose-⊑ (value_beq host v (bool true)) (eval_block host f b s amb)
            (eval_block host g b s amb) (run_branches host f bs e s amb)
            (run_branches host g bs e s amb) (eval_block-⊑ f g (omega arith) b s amb w₁)
            (run_branches-⊑ f g (omega arith) bs e s amb w₁)

    pub run_loop-⊑ :
        (f g : ℕ)
        → f ≤ g
        → (test : Expr) (step : Expr) (b : Block) (s : Address) (amb : Ambient) → (w : World)
        → run_loop host f test step b s amb w ⊑ run_loop host g test step b s amb w
    run_loop-⊑ zero g h test step b s amb w = below
    run_loop-⊑ (suc f) zero h test step b s amb w = absurd (omega arith)
    run_loop-⊑ (suc f) (suc g) h test step b s amb w =
        bind-⊑ (eval_expr-⊑ f g (omega arith) test s amb w) (elim [
          | bool false ↦ λ w₁. same
          | bool true ↦ λ w₁. bind-⊑ (eval_block-⊑ f g (omega arith) b s amb w₁) (elim [
            | returned u ↦ λ w₂. same
            | _ ↦ λ w₂.
                bind-⊑ (eval_expr-⊑ f g (omega arith) step s amb w₂)
                  λ _ w₃. run_loop-⊑ f g (omega arith) test step b s amb w₃
          ])
          | _ ↦ λ w₁. same
        ])

  -- An evaluation that ends, by a result or by a panic, ends the same way and with the same effects
  -- at every larger fuel.
  pub eval_block_mono :
      (f g : ℕ) (b : Block) (s : Address) (amb : Ambient) (w : World) (r : Outcome BlockRet)
      → f ≤ g
      → eval_block host f b s amb w ≡ r
      → r ≢ lost
      → eval_block host g b s amb w ≡ r
  eval_block_mono f g b s amb w r h e ends = ⊑-done r (eval_block-⊑ f g h b s amb w) e ends

  -- So the fuel is no part of the answer: two runs that end, end alike.
  pub eval_block_deterministic :
      (f g : ℕ) (b : Block) (s : Address) (amb : Ambient) (w : World)
      → eval_block host f b s amb w ≢ lost
      → eval_block host g b s amb w ≢ lost
      → eval_block host f b s amb w ≡ eval_block host g b s amb w
  eval_block_deterministic f g b s amb w p q = elim (le_total f g) [
    | inl h ↦ sym (eval_block_mono f g b s amb w _ h refl p)
    | inr h ↦ eval_block_mono g f b s amb w _ h refl q
  ]
