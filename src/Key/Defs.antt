-- ===== src/Key/Defs.antt =====
-- src/key_primitives.rs and the key constants of src/key_defs.rs: keys, actions on keys and the
-- modifiers that go with them. An `EventCode` of the evdev library is its type and its number; an
-- `i32` is its bit pattern, as a number below 2 ^ 32.
use map2_legacy.Base.{ℕ, Bool, true, false, ◌||◌, if◌then◌else◌}

-- An event code: of type `EV_KEY`, of type `EV_SYN`, or of another type, given by its number.
pub data EventCode : Type 0 where
  ev_key : ℕ → EventCode
  ev_syn : ℕ → EventCode
  ev_other : ℕ → ℕ → EventCode

pub record Key : Type 0 where
  pub event_code : EventCode

pub record TimeVal : Type 0 where
  pub tv_sec : ℕ
  pub tv_usec : ℕ

pub record InputEvent : Type 0 where
  pub event_code : EventCode
  pub value : ℕ
  pub time : TimeVal

pub record KeyModifierFlags : Type 0 where
  pub ctrl : Bool
  pub shift : Bool
  pub alt : Bool
  pub meta : Bool

pub record KeyModifierState : Type 0 where
  pub left_ctrl : Bool
  pub right_ctrl : Bool
  pub left_shift : Bool
  pub right_shift : Bool
  pub left_alt : Bool
  pub right_alt : Bool
  pub left_meta : Bool
  pub right_meta : Bool

pub record KeyAction : Type 0 where
  pub key : Key
  pub value : ℕ

pub record KeyActionWithMods : Type 0 where
  pub key : Key
  pub value : ℕ
  pub modifiers : KeyModifierFlags

pub record KeyClickActionWithMods : Type 0 where
  pub key : Key
  pub modifiers : KeyModifierFlags

abbrev pub type_up : ℕ
type_up = 0

abbrev pub type_down : ℕ
type_down = 1

abbrev pub type_repeat : ℕ
type_repeat = 2

-- `KeyModifierFlags::new` and `KeyModifierState::new`.
abbrev pub no_flags : KeyModifierFlags
no_flags = record { ctrl = false; shift = false; alt = false; meta = false }

abbrev pub no_modifiers : KeyModifierState
no_modifiers = record {
  left_ctrl = false;
  right_ctrl = false;
  left_shift = false;
  right_shift = false;
  left_alt = false;
  right_alt = false;
  left_meta = false;
  right_meta = false;
}

unfoldable pub set_ctrl : KeyModifierFlags → KeyModifierFlags
set_ctrl f = record f { ctrl = true }

unfoldable pub set_alt : KeyModifierFlags → KeyModifierFlags
set_alt f = record f { alt = true }

unfoldable pub set_shift : KeyModifierFlags → KeyModifierFlags
set_shift f = record f { shift = true }

unfoldable pub set_meta : KeyModifierFlags → KeyModifierFlags
set_meta f = record f { meta = true }

unfoldable pub apply_from : KeyModifierFlags → KeyModifierFlags → KeyModifierFlags
unfolding set_ctrl set_alt set_shift set_meta
apply_from f other =
    let f₁ = if other.ctrl then set_ctrl f else f in
    let f₂ = if other.alt then set_alt f₁ else f₁ in
    let f₃ = if other.shift then set_shift f₂ else f₂ in if other.meta then set_meta f₃ else f₃

abbrev pub is_ctrl : KeyModifierState → Bool
is_ctrl s = s.left_ctrl || s.right_ctrl

abbrev pub is_alt : KeyModifierState → Bool
is_alt s = s.left_alt || s.right_alt

abbrev pub is_shift : KeyModifierState → Bool
is_shift s = s.left_shift || s.right_shift

abbrev pub is_meta : KeyModifierState → Bool
is_meta s = s.left_meta || s.right_meta

abbrev pub input_ev_dummy_time : TimeVal
input_ev_dummy_time = record { tv_sec = 0; tv_usec = 0 }

abbrev pub syn_report : InputEvent
syn_report = record { event_code = ev_syn 0; value = 0; time = input_ev_dummy_time }

abbrev pub from_input_ev : InputEvent → KeyAction
from_input_ev ev = record { key = record { event_code = ev.event_code }; value = ev.value }

abbrev pub to_input_ev : KeyAction → InputEvent
to_input_ev a = record {
  event_code = a.key.event_code;
  value = a.value;
  time = input_ev_dummy_time;
}

abbrev pub to_key_action : KeyClickActionWithMods → ℕ → KeyActionWithMods
to_key_action c v = record { key = c.key; value = v; modifiers = c.modifiers }

-- The constants of key_defs.rs, with the numbers that evdev gives these names.
abbrev pub key_of : ℕ → Key
key_of n = record { event_code = ev_key n }

abbrev pub key_left_ctrl : Key
key_left_ctrl = key_of 29

abbrev pub key_right_ctrl : Key
key_right_ctrl = key_of 97

abbrev pub key_left_alt : Key
key_left_alt = key_of 56

abbrev pub key_right_alt : Key
key_right_alt = key_of 100

abbrev pub key_left_shift : Key
key_left_shift = key_of 42

abbrev pub key_right_shift : Key
key_right_shift = key_of 54

abbrev pub key_left_meta : Key
key_left_meta = key_of 125

abbrev pub key_right_meta : Key
key_right_meta = key_of 126
