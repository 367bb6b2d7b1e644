-- ===== src/Runtime/Host.antt =====
-- What the runtime uses and does not implement: the arithmetic of `f64`, the operating system and
-- the window system, the names of the evdev library, and the parser of key sequences, which gives
-- what it read and the text that is left.
use map2_legacy.Base.{ℕ, List, [], ◌++◌, Bool, Option, none, some, Text, codes}
use map2_legacy.Key.{KeyAction}
use map2_legacy.Ast.{Expr, Block}
use map2_legacy.Mapping.{
  ParsedKeyAction, action, click, to_key_actions, map_key_click_block, map_key_block,
}
use map2_legacy.Runtime.World.{ActiveWindowInfo, Effect}

-- Operations on bit patterns; the casts are Rust's `as`.
pub record F64 : Type 0 where
  pub feq : ℕ → ℕ → Bool
  pub flt : ℕ → ℕ → Bool
  pub fadd : ℕ → ℕ → ℕ
  pub fsub : ℕ → ℕ → ℕ
  pub fmul : ℕ → ℕ → ℕ
  pub fdiv : ℕ → ℕ → ℕ
  pub display : ℕ → Text
  pub as_i32 : ℕ → ℕ
  pub as_u64 : ℕ → ℕ
  pub as_u32 : ℕ → ℕ
  pub as_u8 : ℕ → ℕ
  pub of_u8 : ℕ → ℕ

-- Whether a command could be started, with its output or the error's text.
pub data CommandResult : Type 0 where
  output : Text → CommandResult
  not_spawned : Text → CommandResult

-- The answers may depend on all that the script has done so far.
pub record System : Type 0 where
  pub focused_window : List Effect → Option ActiveWindowInfo
  pub run_command : List Effect → List Text → CommandResult
  pub ev_key_name : ℕ → Option Text

pub record KeyParser : Type 0 where
  pub key_sequence : Text → Option (List ParsedKeyAction × Text)
  pub key_action_with_flags : Text → Option (ParsedKeyAction × Text)

pub record Host : Type 0 where
  pub f64 : F64
  pub system : System
  pub keys : KeyParser

-- The pattern of 0.0.
abbrev pub f64_zero : ℕ
f64_zero = 0

-- src/parsing/parser.rs, `parse_key_sequence`; `none` is an error.
unfoldable pub parse_key_sequence : KeyParser → Text → Option (List KeyAction)
unfolding to_key_actions
parse_key_sequence keys raw = elim (keys.key_sequence (codes "\"" ++ (raw ++ codes "\""))) [
  | some (ps, []) ↦ some (to_key_actions ps)
  | _ ↦ none
]

-- src/parsing/parser.rs, `parse_key_action_with_mods`; `none` is its panic or its error.
unfoldable pub parse_key_action_with_mods : KeyParser → Text → Block → Option Expr
unfolding map_key_click_block map_key_block
parse_key_action_with_mods keys from to = elim (keys.key_action_with_flags from) [
  | some (click c, []) ↦ some (map_key_click_block c to)
  | some (action a, []) ↦ some (map_key_block a to)
  | _ ↦ none
]
