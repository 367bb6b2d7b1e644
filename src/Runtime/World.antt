-- ===== src/Runtime/World.antt =====
-- src/runtime/evaluation.rs, `VarMap`, `Ambient` and `BlockRet`; src/messaging/mod.rs; and what a
-- running script changes: the variable maps, which closures share, and the effects seen from
-- outside, in the order in which they happen.
use map2_legacy.Base.{
  ℕ, List, [], ◌∷◌, ◌++◌, Bool, true, false, Option, none, some, Text, length, get_elem?, set,
  insert, text_eq,
}
use map2_legacy.Key.{
  InputEvent, KeyAction, KeyActionWithMods, KeyModifierState, to_input_ev, syn_report,
}
use map2_legacy.Ast.{Address, ValueType, Block}

pub record VarMap : Type 0 where
  pub scope_values : List (Text × ValueType)
  pub parent : Option Address

pub record ActiveWindowInfo : Type 0 where
  pub class : Text
  pub instance_name : Text
  pub name : Text

-- The errors that a built-in function returns, by their cause.
pub data CallError : Type 0 where
  exit_wants_number send_wants_string not_a_modifier window_change_arity : CallError
  window_change_wants_lambda sleep_wants_number key_wants_number char_wants_number : CallError
  number_wants_char map_key_arguments execute_arity continue_in_function : CallError
  single_action_expected : ℕ → CallError
  unexpected_argument : ValueType → CallError
  spawn_failed : Text → CallError
  function_not_found : Text → CallError
  not_a_function : Text → CallError

-- `ExecutionMessage`. The sender in `GetFocusedWindowInfo` is the way back to the script that asks.
pub data ExecutionMessage : Type 0 where
  add_mapping : ℕ → KeyActionWithMods → Block → Address → ExecutionMessage
  get_focused_window_info : ExecutionMessage
  register_window_change_callback : Block → Address → ExecutionMessage
  write : Text → ExecutionMessage
  update_modifiers_message : KeyAction → ExecutionMessage
  exit_message : ℕ → ExecutionMessage
  fatal_error : CallError → ℕ → ExecutionMessage

-- What a script does to the outside: an event sent to the writer, a message to the main loop, and
-- a sleep of so many milliseconds.
pub data Effect : Type 0 where
  sent : InputEvent → Effect
  message : ExecutionMessage → Effect
  slept : ℕ → Effect

pub record World : Type 0 where
  pub store : List VarMap
  pub trace : List Effect

-- The event writer is the list of effects.
pub record Ambient : Type 0 where
  pub message_tx : Bool
  pub window_cycle_token : ℕ
  pub modifier_state : KeyModifierState

pub data BlockRet : Type 0 where
  fell_through : BlockRet
  continued : BlockRet
  returned : ValueType → BlockRet

-- The panics of the runtime, each by its message or by the `unwrap` that fails.
pub data Panic : Type 0 where
  cannot_add cannot_subtract cannot_multiply cannot_divide division_by_zero cannot_negate : Panic
  cannot_and cannot_or no_message_tx missing_argument key_sequence_failed : Panic
  mapping_trigger_failed key_code_not_found not_one_character termination_not_bool : Panic
  unreachable : Panic
  variable_missing : Text → Panic

-- How an evaluation ends. `lost` is an evaluation that goes on: the fuel ran out.
pub data Outcome (A : Type 0) : Type 0 where
  done : A → World → Outcome A
  panicked : Panic → World → Outcome A
  lost : Outcome A

abbrev pub M : Type 0 → Type 0
M A = World → Outcome A

abbrev pub after : {A B : Type 0} → Outcome A → (A → M B) → Outcome B
after (done a w) k = k a w
after (panicked p w) k = panicked p w
after lost k = lost

infixl 1 ◌>>=◌ ◌>>◌
abbrev pub ◌>>=◌ : {A B : Type 0} → M A → (A → M B) → M B
◌>>=◌ m k w = after (m w) k

abbrev pub ◌>>◌ : {A B : Type 0} → M A → M B → M B
m >> k = m >>= λ _. k

abbrev pub pure : {A : Type 0} → A → M A
pure a w = done a w

abbrev pub panic : {A : Type 0} → Panic → M A
panic p w = panicked p w

abbrev pub diverge : {A : Type 0} → M A
diverge w = lost

-- `GuardedVarMap::new(Mutex::new(VarMap::new(parent)))`.
unfoldable pub new_scope : Option Address → M Address
new_scope p w =
    done (length w.store)
      (record w { store = w.store ++ record { scope_values = []; parent = p } ∷ [] })

unfoldable pub emit : Effect → M (Unit {0})
emit e w = done tt (record w { trace = w.trace ++ e ∷ [] })

-- `ev_writer_tx.send(action.to_input_ev())`, for each action of a list.
unfoldable pub send_actions : List KeyAction → M (Unit {0})
unfolding emit
send_actions [] = pure tt
send_actions (a ∷ as') = emit (sent (to_input_ev a)) >> send_actions as'

-- The same with a `SYN_REPORT` after each action.
unfoldable pub send_synced : List KeyAction → M (Unit {0})
unfolding emit
send_synced [] = pure tt
send_synced (a ∷ as') = do emit (sent (to_input_ev a)); emit (sent syn_report); send_synced as'

-- `amb.message_tx.as_ref().unwrap().send(..)`.
unfoldable pub send_message : Ambient → ExecutionMessage → M (Unit {0})
unfolding emit
send_message amb msg = elim amb.message_tx [
  | true ↦ emit (message msg)
  | false ↦ panic no_message_tx
]

-- `scope_values.insert(var_name, value)` in the map at an address.
unfoldable pub write_variable : Address → Text → ValueType → M (Unit {0})
write_variable a x v w = elim (get_elem? w.store a) [
  | none ↦ lost
  | some m ↦
      done tt
        (record w { store = set w.store a (record m { scope_values = insert x v m.scope_values }) })
]

-- `lock().unwrap().parent.clone()`.
unfoldable pub parent_of : Address → M (Option Address)
parent_of a w = elim (get_elem? w.store a) [ none ↦ lost | some m ↦ done m.parent w ]
