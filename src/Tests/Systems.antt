-- ===== src/Tests/Systems.antt =====
-- The running program at concrete inputs: `^{a down}::!{b down}`.
use map2_legacy.Base.{◌≡◌, refl, List, [], ◌∷◌, ◌++◌, map, true, false, Option, none, some}
use map2_legacy.Key.{KeyModifierState, InputEvent, no_modifiers}
use map2_legacy.Modifiers.{update_modifiers}
use map2_legacy.Mapping.{around}
use map2_legacy.Runtime.Modifiers.{release_restore, release_pair}
use map2_legacy.Modifiers.Tracking.{left_ctrl, is_held}
use map2_legacy.Runtime.World.{Effect, message, World, new_scope, send_actions, send_synced}
use map2_legacy.Runtime.Eval.{eval_block}
use map2_legacy.Daemon.{input, round, handle_stdin_ev}
use map2_legacy.Remap.Device.{device}
use map2_legacy.System.{Program, ambient_of, world_of, receive, receives_input, Steps}
use map2_legacy.System.Steady.{Steady}
use map2_legacy.System.Serving.{Answers}
use map2_legacy.System.Serial.{stopped, stepped, Serial-agrees}
use map2_legacy.System.Loading.{
  Pairs, script_of, launched, meaning, registrations, loading, table, script_world, loaded-Steady,
  script_of-Answers,
}
use map2_legacy.Tests.Samples.{toy_host, ctrl_a_down, alt_b_down, key_event}
use map2_legacy.Tests.Remaps.{key_b-IsPlain}

abbrev one_pair : Pairs
one_pair = (ctrl_a_down, alt_b_down) ∷ []

-- Control goes down, `a` goes down, and control goes up.
abbrev three_events : List InputEvent
three_events = key_event 29 1 ∷ key_event 30 1 ∷ key_event 29 0 ∷ []

script_of-Answers_example :
    (s : Program) × (es : List Effect) × Steps toy_host
      (launched (script_of one_pair))
      (map input three_events)
      s
    × (s.world.trace ≡ map message (registrations 1 one_pair) ++ es)
    × Answers (meaning one_pair) no_modifiers three_events es s.daemon.state.modifiers
    × Steady (meaning one_pair) s
script_of-Answers_example = script_of-Answers toy_host one_pair three_events (key_b-IsPlain, tt)

abbrev ready : Program
ready = loading (script_world one_pair) (table [] 1 one_pair) []

abbrev ctrl_pressed : Program
ctrl_pressed = receive ready (input (key_event 29 1))

ctrl_pressed-idle : ctrl_pressed.pending ≡ []
unfolding receive round handle_stdin_ev
ctrl_pressed-idle = refl

Serial-agrees_example :
    device no_modifiers (receive ctrl_pressed (input (key_event 30 1))).world.trace
    ≡ (receive ctrl_pressed (input (key_event 30 1))).daemon.state.modifiers
Serial-agrees_example =
    Serial-agrees toy_host (meaning one_pair) ready (receive ctrl_pressed (input (key_event 30 1)))
      (loaded-Steady one_pair (key_b-IsPlain, tt))
      (stepped refl (receives_input (key_event 29 1))
        (stepped ctrl_pressed-idle (receives_input (key_event 30 1)) stopped))

-- A task that is run only after control was released presses it again: it stays down.
abbrev too_late : Program
too_late = receive (receive ctrl_pressed (input (key_event 30 1))) (input (key_event 29 0))

abbrev modifiers_after : Option World → KeyModifierState
modifiers_after (some w) = device no_modifiers w.trace
modifiers_after none = no_modifiers

control_stuck :
    (map
        (λ t. is_held left_ctrl (
          modifiers_after
            (world_of (eval_block toy_host 16 t.block t.var_map (ambient_of t) too_late.world))))
        too_late.pending
      ≡ true ∷ [])
    × (is_held left_ctrl too_late.daemon.state.modifiers ≡ false)
unfolding receive eval_block round handle_stdin_ev update_modifiers new_scope around send_actions
    release_restore release_pair send_synced
control_stuck = (refl, refl)
