-- ===== src/Remap/Straight.antt =====
-- Blocks without control flow: a list of key actions and of releases or restorations of modifiers.
use map2_legacy.Base.{
  ℕ, zero, suc, ◌≡◌, ◌+◌, ◌<◌, refl, ap, sym, ◌∙◌, List, [], ◌∷◌, ◌++◌, map, append_assoc,
  append-nil, length, some, arith,
}
use map2_legacy.Key.{KeyAction, KeyModifierFlags, KeyModifierState, to_input_ev, syn_report}
use map2_legacy.Ast.{
  Address, Stmt, expr, Block, end, ◌⨾◌, ◌+++◌, key_action, release_restore_modifiers,
}
use map2_legacy.Runtime.World.{
  Effect, sent, World, Ambient, done, fell_through, emit, send_actions, send_synced, new_scope,
}
use map2_legacy.Runtime.Modifiers.{release_restore}
use map2_legacy.Runtime.Host.{Host}
use map2_legacy.Runtime.Eval.{eval_expr, eval_block, run_stmts, run_stmt}

pub data Act : Type 0 where
  tap : KeyAction → Act
  restore : KeyModifierFlags → KeyModifierFlags → ℕ → Act

abbrev pub stmt_of : Act → Stmt
stmt_of (tap a) = expr (key_action a)
stmt_of (restore from to v) = expr (release_restore_modifiers from to v)

abbrev pub block_of : List Act → Block
block_of [] = end
block_of (a ∷ acts) = stmt_of a ⨾ block_of acts

pub block_of-append : (xs ys : List Act) → block_of (xs ++ ys) ≡ block_of xs +++ block_of ys
block_of-append [] ys = refl
block_of-append (x ∷ xs) ys = ap (λ b. stmt_of x ⨾ b) (block_of-append xs ys)

-- What is sent for a list of actions, without and with a `SYN_REPORT` after each.
abbrev pub plain_effects : List KeyAction → List Effect
plain_effects acts = map (λ a. sent (to_input_ev a)) acts

-- The key actions of one act, with the modifiers that the runtime believes held.
abbrev pub act_actions : KeyModifierState → Act → List KeyAction
act_actions s (tap a) = a ∷ []
act_actions s (restore from to v) = release_restore from to v s

abbrev pub act_effects : KeyModifierState → Act → List Effect
act_effects s (tap a) = sent (to_input_ev a) ∷ sent syn_report ∷ []
act_effects s (restore from to v) = plain_effects (release_restore from to v s)

abbrev pub effects_of : KeyModifierState → List Act → List Effect
effects_of s [] = []
effects_of s (a ∷ acts) = act_effects s a ++ effects_of s acts

abbrev pub with_effects : World → List Effect → World
with_effects w es = record w { trace = w.trace ++ es }

send_actions-done :
    (acts : List KeyAction) (w : World)
    → send_actions acts w ≡ done tt (with_effects w (plain_effects acts))
unfolding send_actions
send_actions-done [] w = ap (λ t. done tt (record w { trace = t })) (sym (append-nil w.trace))
send_actions-done (a ∷ acts) w =
    send_actions-done acts (with_effects w (sent (to_input_ev a) ∷ []))
    ∙ ap (λ t. done tt (record w { trace = t })) (append_assoc w.trace _ _)

module _ (host : Host) (amb : Ambient) where
  run_stmt-act :
      (n : ℕ) (a : Act) (s : Address) (w : World)
      → run_stmt host (suc (suc n)) (stmt_of a) s amb w
        ≡ done fell_through (with_effects w (act_effects amb.modifier_state a))
  unfolding eval_expr send_synced emit
  run_stmt-act n (tap a) s w =
      ap (λ t. done fell_through (record w { trace = t })) (append_assoc w.trace _ _)
  run_stmt-act n (restore from to v) s w =
      rw (send_actions-done (release_restore from to v amb.modifier_state) w) refl

  run_stmts-block_of :
      (n : ℕ) (acts : List Act) (s : Address) (w : World)
      → length acts + 2 < n
      → run_stmts host n (block_of acts) s amb w
        ≡ done fell_through (with_effects w (effects_of amb.modifier_state acts))
  unfolding eval_expr
  run_stmts-block_of zero acts s w h = elim h [ ]
  run_stmts-block_of (suc n) [] s w h =
      ap (λ t. done fell_through (record w { trace = t })) (sym (append-nil w.trace))
  run_stmts-block_of (suc zero) (a ∷ acts) s w h = absurd (omega arith)
  run_stmts-block_of (suc (suc zero)) (a ∷ acts) s w h = absurd (omega arith)
  run_stmts-block_of (suc (suc (suc n))) (a ∷ acts) s w h = rw (run_stmt-act n a s w) (
      run_stmts-block_of (suc (suc n)) acts s (with_effects w (act_effects amb.modifier_state a))
        (omega arith)
      ∙ ap (λ t. done fell_through (record w { trace = t })) (append_assoc w.trace _ _))

  -- A block without control flow, given fuel for its statements, falls through with its effects.
  pub eval_block-block_of :
      (n : ℕ) (acts : List Act) (s : Address) (w : World)
      → length acts + 3 < n
      → eval_block host n (block_of acts) s amb w
        ≡ done fell_through (record {
          store = w.store ++ record { scope_values = []; parent = some s } ∷ [];
          trace = w.trace ++ effects_of amb.modifier_state acts;
        })
  unfolding eval_block new_scope
  eval_block-block_of zero acts s w h = elim h [ ]
  eval_block-block_of (suc n) acts s w h =
      run_stmts-block_of n acts (length w.store) _ (omega arith)
