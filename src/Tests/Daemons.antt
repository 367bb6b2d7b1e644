-- ===== src/Tests/Daemons.antt =====
-- src/event_handlers.rs and src/main.rs at concrete inputs.
use map2_legacy.Base.{◌≡◌, refl, [], ◌∷◌, map, true, false, some, arith, lookup}
use map2_legacy.Key.{no_modifiers, mods_eq, KeyActionWithMods}
use map2_legacy.Ast.{end}
use map2_legacy.Modifiers.Tracking.{left_ctrl, is_held}
use map2_legacy.Runtime.World.{add_mapping, exit_message, register_window_change_callback}
use map2_legacy.Daemon.{
  Daemon, start, input, execution, window, run, round, handle_stdin_ev, handle_execution_message,
}
use map2_legacy.Daemon.Forwarding.{task_for, is_held-run}
use map2_legacy.Daemon.Dealing.{Deals, run-Deals}
use map2_legacy.Daemon.Mappings.{lookup-add_mapping, mapping_fires}
use map2_legacy.Daemon.Lifecycle.{late_mapping_dropped, window_starts_handlers, exited-run}
use map2_legacy.Tests.Samples.{key_a, key_event, terminal}

-- Key `a` pressed with no modifier.
abbrev plain_a : KeyActionWithMods
plain_a = record {
  key = key_a;
  value = 1;
  modifiers = record { ctrl = false; shift = false; alt = false; meta = false };
}

abbrev mapped : Daemon
mapped = record start { mappings = (plain_a, (end, 7)) ∷ [] }

is_held-run_example :
    is_held left_ctrl
      (run start (input (key_event 29 1) ∷ input (key_event 30 1) ∷ [])).state.modifiers
    ≡ true
unfolding run round handle_stdin_ev
is_held-run_example =
    is_held-run left_ctrl (input (key_event 29 1) ∷ input (key_event 30 1) ∷ []) (refl, (refl, tt))

run-Deals_example :
    Deals mapped
      (key_event 48 1 ∷ key_event 30 1 ∷ [])
      (run mapped (map input (key_event 48 1 ∷ key_event 30 1 ∷ [])))
run-Deals_example = run-Deals mapped (key_event 48 1 ∷ key_event 30 1 ∷ []) refl

mapping_fires_example :
    run start (execution (add_mapping 0 plain_a end 7) ∷ input (key_event 30 1) ∷ [])
    ≡ record start { mappings = (plain_a, (end, 7)) ∷ []; tasks = task_for start (end, 7) ∷ [] }
mapping_fires_example = mapping_fires start plain_a end 7 (key_event 30 1) refl refl refl

late_mapping_dropped_example :
    round (run start (window terminal ∷ [])) (execution (add_mapping 0 plain_a end 7))
    ≡ run start (window terminal ∷ [])
late_mapping_dropped_example =
    late_mapping_dropped start (window terminal ∷ []) plain_a end 7 refl refl (omega arith)
      (omega arith) (omega arith)

lookup-add_mapping_example :
    lookup plain_a (handle_execution_message mapped (add_mapping 0 plain_a end 8)).mappings
    ≡ some (end, 8)
lookup-add_mapping_example = lookup-add_mapping mapped 0 plain_a plain_a end 8

window_starts_handlers_example :
    (round
      (run start (execution (register_window_change_callback end 3) ∷ []))
      (window terminal)).tasks
    ≡ record { block = end; var_map = 3; window_cycle_token = 1; modifier_state = no_modifiers }
      ∷ []
unfolding run round handle_execution_message
window_starts_handlers_example =
    window_starts_handlers start (execution (register_window_change_callback end 3) ∷ []) terminal
      refl refl (omega arith)

exited-run_example :
    (run start (
      input (key_event 30 1) ∷ execution (exit_message 2) ∷ execution (exit_message 3) ∷ [])).exited
    ≡ some 2
exited-run_example =
    exited-run start
      (input (key_event 30 1) ∷ execution (exit_message 2) ∷ execution (exit_message 3) ∷ []) refl
