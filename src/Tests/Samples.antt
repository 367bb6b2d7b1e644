-- ===== src/Tests/Samples.antt =====
-- Inputs for the tests of src/: a host on small numbers, a few keys, and a trigger with its target.
use map2_legacy.Base.{ℕ, ◌+◌, ◌-◌, [], ◌∷◌, true, none, codes, nat_beq, ltb}
use map2_legacy.Key.{
  ev_key, Key, InputEvent, KeyModifierFlags, KeyModifierState, KeyAction, KeyActionWithMods,
  KeyClickActionWithMods, no_flags, no_modifiers, key_of, input_ev_dummy_time,
}
use map2_legacy.Runtime.World.{World, Ambient, ActiveWindowInfo}
use map2_legacy.Runtime.Host.{Host, not_spawned}

-- Numbers stand for themselves.
abbrev pub toy_host : Host
toy_host = record {
  f64 = record {
    feq = nat_beq;
    flt = ltb;
    fadd = λ a b. a + b;
    fsub = λ a b. a - b;
    fmul = λ a b. a;
    fdiv = λ a b. a;
    display = λ n. n ∷ [];
    as_i32 = λ n. n;
    as_u64 = λ n. n;
    as_u32 = λ n. n;
    as_u8 = λ n. n;
    of_u8 = λ n. n;
  };
  system = record {
    focused_window = λ _. none;
    run_command = λ _ _. not_spawned (codes "no shell");
    ev_key_name = λ _. none;
  };
  keys = record { key_sequence = λ _. none; key_action_with_flags = λ _. none };
}

abbrev pub key_a : Key
key_a = key_of 30

abbrev pub key_b : Key
key_b = key_of 48

abbrev pub only_ctrl : KeyModifierFlags
only_ctrl = record no_flags { ctrl = true }

abbrev pub only_alt : KeyModifierFlags
only_alt = record no_flags { alt = true }

-- The right control key is held.
abbrev pub right_ctrl_held : KeyModifierState
right_ctrl_held = record no_modifiers { right_ctrl = true }

-- `^a` and `!b`.
abbrev pub ctrl_a : KeyClickActionWithMods
ctrl_a = record { key = key_a; modifiers = only_ctrl }

abbrev pub alt_b : KeyClickActionWithMods
alt_b = record { key = key_b; modifiers = only_alt }

abbrev pub ctrl_a_down : KeyActionWithMods
ctrl_a_down = record { key = key_a; value = 1; modifiers = only_ctrl }

abbrev pub alt_b_down : KeyActionWithMods
alt_b_down = record { key = key_b; value = 1; modifiers = only_alt }

abbrev pub ambient : Ambient
ambient = record { message_tx = true; window_cycle_token = 0; modifier_state = right_ctrl_held }

abbrev pub empty_world : World
empty_world = record { store = []; trace = [] }

abbrev pub key_event : ℕ → ℕ → InputEvent
key_event code v = record { event_code = ev_key code; value = v; time = input_ev_dummy_time }

abbrev pub press : Key → KeyAction
press k = record { key = k; value = 1 }

abbrev pub release : Key → KeyAction
release k = record { key = k; value = 0 }

abbrev pub terminal : ActiveWindowInfo
terminal = record { class = codes "term"; instance_name = codes "term"; name = codes "shell" }
