-- ===== src/Daemon/Defs.antt =====
-- src/state.rs, src/event_handlers.rs and the loop of src/main.rs: one step for each window
-- change, input event or message that the loop receives. What a handler sends, spawns, writes or
-- answers is kept in the state, in order.
use map2_legacy.Base.{
  usize_values, ℕ, ◌+◌, ◌%◌, List, [], ◌∷◌, ◌++◌, Bool, true, false, Option, none, some, Text,
  nat_beq, lookup, insert, if◌then◌else◌,
}
use map2_legacy.Key.{
  EventCode, ev_key, InputEvent, KeyModifierFlags, KeyModifierState, KeyActionWithMods, mods_eq,
  no_modifiers, is_ctrl, is_alt, is_shift, is_meta, from_input_ev,
}
use map2_legacy.Modifiers.{update_modifiers}
use map2_legacy.IgnoreList.{IgnoreList, new_list}
use map2_legacy.Ast.{Address, Block}
use map2_legacy.Runtime.World.{
  ActiveWindowInfo, CallError, ExecutionMessage, add_mapping, get_focused_window_info,
  register_window_change_callback, write, update_modifiers_message, exit_message, fatal_error,
}

abbrev pub CompiledKeyMappings : Type 0
CompiledKeyMappings = List (KeyActionWithMods × (Block × Address))

pub record State : Type 0 where
  pub modifiers : KeyModifierState
  pub ignore_list : IgnoreList
  pub active_window : Option ActiveWindowInfo

abbrev pub new_state : State
new_state = record { modifiers = no_modifiers; ignore_list = new_list; active_window = none }

-- A block that was handed to `task::spawn`, with its `Ambient`.
pub record Task : Type 0 where
  pub block : Block
  pub var_map : Address
  pub window_cycle_token : ℕ
  pub modifier_state : KeyModifierState

-- The variables of `main`, and what its handlers did: the events sent to the writer, the tasks
-- spawned, the text written, the answers given, and the exit code with the error before it.
pub record Daemon : Type 0 where
  pub state : State
  pub window_cycle_token : ℕ
  pub mappings : CompiledKeyMappings
  pub window_change_handlers : List (Block × Address)
  pub sent : List InputEvent
  pub tasks : List Task
  pub out : List Text
  pub answers : List (Option ActiveWindowInfo)
  pub fatal : Option CallError
  pub exited : Option ℕ

-- The variables when the loop is entered.
abbrev pub start : Daemon
start = record {
  state = new_state;
  window_cycle_token = 0;
  mappings = [];
  window_change_handlers = [];
  sent = [];
  tasks = [];
  out = [];
  answers = [];
  fatal = none;
  exited = none;
}

abbrev pub set_modifiers : Daemon → KeyModifierState → Daemon
set_modifiers d s = record d { state = record (d.state) { modifiers = s } }

abbrev pub held_flags : KeyModifierState → KeyModifierFlags
held_flags s = record { ctrl = is_ctrl s; shift = is_shift s; alt = is_alt s; meta = is_meta s }

-- The event with the modifiers held, as the table of mappings has it.
abbrev pub from_key_action : Daemon → InputEvent → KeyActionWithMods
from_key_action d ev = record {
  key = record { event_code = ev.event_code };
  value = ev.value;
  modifiers = held_flags d.state.modifiers;
}

-- The part of `handle_stdin_ev` below the test of the event's type.
abbrev pub handle_key : Daemon → InputEvent → Option (Block × Address) → Daemon
handle_key d ev (some (b, scope)) = record d {
  tasks =
      d.tasks
      ++ record {
        block = b;
        var_map = scope;
        window_cycle_token = d.window_cycle_token;
        modifier_state = d.state.modifiers;
      }
        ∷ [];
}
handle_key d ev none =
    let d' = set_modifiers d (update_modifiers d.state.modifiers (from_input_ev ev)) in
    record d' { sent = d.sent ++ ev ∷ [] }

abbrev pub is_key_event : EventCode → Bool
is_key_event (ev_key _) = true
is_key_event _ = false

unfoldable pub handle_stdin_ev : Daemon → InputEvent → Daemon
handle_stdin_ev d ev =
    if is_key_event ev.event_code
    then handle_key d ev (lookup (from_key_action d ev) d.mappings)
    else record d { sent = d.sent ++ ev ∷ [] }

unfoldable pub handle_execution_message : Daemon → ExecutionMessage → Daemon
handle_execution_message d (add_mapping token from to scope) =
    if nat_beq token d.window_cycle_token
    then record d { mappings = insert from (to, scope) d.mappings }
    else d
handle_execution_message d get_focused_window_info = record d {
  answers = d.answers ++ d.state.active_window ∷ [];
}
handle_execution_message d (register_window_change_callback b scope) = record d {
  window_change_handlers = d.window_change_handlers ++ (b, scope) ∷ [];
}
handle_execution_message d (write s) = record d { out = d.out ++ s ∷ [] }
handle_execution_message d (update_modifiers_message a) =
    set_modifiers d (update_modifiers d.state.modifiers a)
handle_execution_message d (exit_message code) = record d { exited = some code }
handle_execution_message d (fatal_error e code) = record d { fatal = some e; exited = some code }

-- One task for each handler, with no modifier held.
abbrev pub handler_tasks : ℕ → List (Block × Address) → List Task
handler_tasks token [] = []
handler_tasks token ((b, scope) ∷ hs) =
    record { block = b; var_map = scope; window_cycle_token = token; modifier_state = no_modifiers }
    ∷ handler_tasks token hs

unfoldable pub handle_active_window_change : Daemon → Daemon
handle_active_window_change d = record d {
  tasks = d.tasks ++ handler_tasks d.window_cycle_token d.window_change_handlers;
}

-- What `tokio::select!` receives.
pub data Incoming : Type 0 where
  window : ActiveWindowInfo → Incoming
  input : InputEvent → Incoming
  execution : ExecutionMessage → Incoming

abbrev pub dispatch : Daemon → Incoming → Daemon
dispatch d (window info) = handle_active_window_change (record d {
  state = record (d.state) { active_window = some info };
  window_cycle_token = (d.window_cycle_token + 1) % usize_values;
})
dispatch d (input ev) = handle_stdin_ev d ev
dispatch d (execution msg) = handle_execution_message d msg

abbrev pub unless_exited : Option ℕ → Daemon → Daemon → Daemon
unless_exited (some _) d d' = d
unless_exited none d d' = d'

-- A round of the loop. After `process::exit` there is none.
unfoldable pub round : Daemon → Incoming → Daemon
round d i = unless_exited d.exited d (dispatch d i)

unfoldable pub run : Daemon → List Incoming → Daemon
run d [] = d
run d (i ∷ is) = run (round d i) is
