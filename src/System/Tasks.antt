-- ===== src/System/Tasks.antt =====
-- The run of a remapping that waits.
use mathlib.Core.Path.{subst}
use map2_legacy.Base.{
  ℕ, ◌≡◌, ◌+◌, refl, ap, sym, ◌∙◌, List, [], ◌∷◌, ◌++◌, none, some, length, arith,
}
use map2_legacy.Key.{KeyAction, KeyActionWithMods, KeyModifierFlags, mods_eq, no_modifiers}
use map2_legacy.Ast.{Address, Block}
use map2_legacy.Runtime.World.{Effect, World, Ambient, done, fell_through}
use map2_legacy.Runtime.Host.{Host}
use map2_legacy.Runtime.Eval.{eval_block}
use map2_legacy.Runtime.Fuel.{eval_block_deterministic}
use map2_legacy.Daemon.{Task, held_flags}
use map2_legacy.Remap.Straight.{effects_of}
use map2_legacy.Remap.Device.{device, device-append}
use map2_legacy.Remap.Around.{taps, Remaps, around_acts, around_acts-Runs, around_acts-Remaps}
use map2_legacy.System.{Program, ambient_of, world_of, after_task, Step, runs}
use map2_legacy.System.Steady.{Meaning, Steady, Waiting, effects_of-quiet}

append_cancel : {A : Type 0} (xs ys zs : List A) → xs ++ ys ≡ xs ++ zs → ys ≡ zs
append_cancel [] ys zs e = e
append_cancel (x ∷ xs) ys zs e = append_cancel xs ys zs (cc e)

-- The only task of a list is the one that is taken from it.
only_task :
    (t t' : Task) (before after : List Task)
    → t ∷ [] ≡ before ++ t' ∷ after
    → (t' ≡ t) × (before ++ after ≡ [])
only_task t t' [] after e = (cc e, cc e)
only_task t t' (b ∷ []) after e = absurd (cc e)
only_task t t' (b ∷ (c ∷ bs)) after e = absurd (cc e)

-- What such a task sends, and the world that it leaves.
abbrev pub task_effects : Task → KeyModifierFlags → List KeyAction → List Effect
task_effects t to body =
    effects_of t.modifier_state (around_acts (held_flags t.modifier_state) to body)

abbrev pub task_world : Program → Task → List Effect → World
task_world s t es = record {
  store = s.world.store ++ record { scope_values = []; parent = some t.var_map } ∷ [];
  trace = s.world.trace ++ es;
}

module _ (host : Host) where
  -- Two runs of a block that end leave the same world.
  world_of-same :
      (b : Block) (scope : Address) (amb : Ambient) (w w₀ w₁ : World) (f n : ℕ)
      → eval_block host n b scope amb w ≡ done fell_through w₀
      → world_of (eval_block host f b scope amb w) ≡ some w₁
      → w₁ ≡ w₀
  world_of-same b scope amb w w₀ w₁ f n e e' =
      let same =
        eval_block_deterministic host f n b scope amb w (λ l. cc (ap world_of l, e'))
          (λ l. cc (l, e)) in
      cc (ap world_of (same ∙ e), e')

  module _ (f : Meaning) (s : Program) (t : Task) (k : KeyActionWithMods)
      (h : Waiting f s t k) where
    abbrev from : KeyModifierFlags
    from = held_flags t.modifier_state

    abbrev sends : List Effect
    sends = task_effects t h.remaps.0 h.remaps.1

    abbrev fuel : ℕ
    fuel = length (taps h.remaps.1) + 14

    task-Runs :
        eval_block host fuel t.block t.var_map (ambient_of t) s.world
        ≡ done fell_through (task_world s t sends)
    task-Runs =
        rw (h.remaps.3, h.trigger_held)
          (around_acts-Runs h.remaps.0 h.remaps.1 host fuel from t.var_map (ambient_of t) s.world
            (omega arith))

    pub task-Remaps : Remaps s.daemon.state.modifiers h.remaps.0 h.remaps.1 sends
    task-Remaps =
        subst (λ m. Remaps m h.remaps.0 h.remaps.1 sends) h.current
          (around_acts-Remaps h.remaps.0 h.remaps.1 t.modifier_state h.remaps.2)

    pub task-Steady : Steady f (after_task s [] (task_world s t sends) sends)
    task-Steady = record {
      live = h.live;
      idle = refl;
      quiet =
          rw (h.quiet) (effects_of-quiet t.modifier_state (around_acts from h.remaps.0 h.remaps.1));
      unobserved = h.unobserved;
      all = h.all;
      agrees =
          device-append no_modifiers s.world.trace sends
          ∙ (ap (λ m. device m sends) h.agrees ∙ task-Remaps.restored);
    }

    -- However it is run.
    pub ran-Steady :
        (t' : Task) (before after : List Task) (n : ℕ) (w : World) (es : List Effect)
        → s.pending ≡ before ++ t' ∷ after
        → world_of (eval_block host n t'.block t'.var_map (ambient_of t') s.world) ≡ some w
        → w.trace ≡ s.world.trace ++ es
        → Steady f (after_task s (before ++ after) w es)
    ran-Steady t' before after n w es e run grown =
        let (at, left) = only_task t t' before after (sym h.one ∙ e) in
        let run_t : world_of (eval_block host n t.block t.var_map (ambient_of t) s.world) ≡ some w =
          subst
            (λ x. world_of (eval_block host n x.block x.var_map (ambient_of x) s.world) ≡ some w) at
            run in
        let w_same : w ≡ task_world s t sends =
          world_of-same t.block t.var_map (ambient_of t) s.world (task_world s t sends) w n fuel
            task-Runs run_t in
        let es_same : es ≡ sends =
          append_cancel s.world.trace es sends (sym grown ∙ ap (λ (x : World). x.trace) w_same) in
        subst (Steady f)
          (sym (
            ap (λ ts. after_task s ts w es) left
            ∙ (ap (λ x. after_task s [] x es) w_same
                ∙ ap (after_task s [] (task_world s t sends)) es_same)))
          task-Steady

    pub task-Step : Step host s none (after_task s [] (task_world s t sends) sends)
    task-Step = runs t [] [] fuel (task_world s t sends) sends h.one (ap world_of task-Runs) refl
