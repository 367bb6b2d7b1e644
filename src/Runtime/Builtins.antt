-- ===== src/Runtime/Builtins.antt =====
-- src/runtime/builtin_functions.rs: the names of the built-in functions, and what each does with
-- the arguments once they are evaluated.
use map2_legacy.Base.{
  ℕ, ◌%◌, List, [], ◌∷◌, ◌++◌, Bool, ◌||◌, Option, none, some, ◌==◌, nat_eq, nat_beq, Text, codes,
  text_beq, utf8_length, length, if◌then◌else◌,
}
use map2_legacy.Key.{
  KeyAction, Key, key_beq, key_left_ctrl, key_right_ctrl, key_left_alt, key_right_alt,
  key_left_shift, key_right_shift, key_left_meta, key_right_meta,
}
use map2_legacy.Ast.{
  Expr, Address, ValueType, string, closure, number, void, KeyMappings, no_mappings, ◌&◌, mapping,
  key_mapping,
}
use map2_legacy.Runtime.World.{
  CallError, exit_wants_number, send_wants_string, not_a_modifier, window_change_wants_lambda,
  sleep_wants_number, key_wants_number, char_wants_number, number_wants_char, map_key_arguments,
  execute_arity, single_action_expected, unexpected_argument, spawn_failed, add_mapping,
  get_focused_window_info, register_window_change_callback, write, update_modifiers_message,
  exit_message, slept, Ambient, Panic, key_sequence_failed, mapping_trigger_failed,
  key_code_not_found, not_one_character, unreachable, M, ◌>>◌, pure, panic, done, emit, send_synced,
  send_message,
}
use map2_legacy.Runtime.Host.{
  Host, parse_key_sequence, parse_key_action_with_mods, output, not_spawned,
}
use map2_legacy.Runtime.Values.{display}

pub data Builtin : Type 0 where
  exit send send_modifier active_window_class on_window_change sleep print : Builtin
  number_to_key number_to_char char_to_number map_key execute : Builtin
  user_function : Builtin

-- The arms of `match &**name`.
unfoldable pub builtin_of : Text → Builtin
builtin_of s =
    if text_beq s (codes "exit")
    then exit
    else if text_beq s (codes "send")
    then send
    else if text_beq s (codes "send_modifier")
    then send_modifier
    else if text_beq s (codes "active_window_class")
    then active_window_class
    else if text_beq s (codes "on_window_change")
    then on_window_change
    else if text_beq s (codes "sleep")
    then sleep
    else if text_beq s (codes "print")
    then print
    else if text_beq s (codes "number_to_key")
    then number_to_key
    else if text_beq s (codes "number_to_char")
    then number_to_char
    else if text_beq s (codes "char_to_number")
    then char_to_number
    else if text_beq s (codes "map_key")
    then map_key
    else if text_beq s (codes "execute")
    then execute
    else user_function

-- `Result<ValueType>`.
pub data CallResult : Type 0 where
  ok : ValueType → CallResult
  failed : CallError → CallResult

abbrev pub with_number : ValueType → CallError → (ℕ → M CallResult) → M CallResult
with_number (number n) e k = k n
with_number _ e k = pure (failed e)

abbrev pub with_string : ValueType → CallError → (Text → M CallResult) → M CallResult
with_string (string s) e k = k s
with_string _ e k = pure (failed e)

-- `unwrap`, or `expect`.
abbrev pub unwrap {ℓ} : {A : Type ℓ} {B : Type 0} → Option A → Panic → (A → M B) → M B
unwrap (some a) p k = k a
unwrap none p k = panic p

unfoldable pub is_modifier_key : Key → Bool
is_modifier_key k =
    key_beq k key_left_ctrl
    || key_beq k key_right_ctrl
    || key_beq k key_left_alt
    || key_beq k key_right_alt
    || key_beq k key_left_shift
    || key_beq k key_right_shift
    || key_beq k key_left_meta
    || key_beq k key_right_meta

-- One `AddMapping` for each mapping of a list.
unfoldable pub register_mappings : Ambient → Address → KeyMappings → M (Unit {0})
unfolding send_message
register_mappings amb scope no_mappings = pure tt
register_mappings amb scope (mapping from to & ms) =
    send_message amb (add_mapping amb.window_cycle_token from to scope)
    >> register_mappings amb scope ms

-- The text without its last code point, if that is `c`.
abbrev pub pop_char : ℕ → Text → Option Text
pop_char c [] = none
pop_char c (x ∷ []) = if x == c then some [] else none
pop_char c (x ∷ (y ∷ r)) = elim (pop_char c (y ∷ r)) [ none ↦ none | some s ↦ some (x ∷ s) ]

-- A trailing `\n` is dropped, and then a trailing `\r`.
unfoldable pub trim_newline : Text → Text
trim_newline s = elim (pop_char 10 s) [
  | none ↦ s
  | some s' ↦ elim (pop_char 13 s') [ none ↦ s' | some s'' ↦ s'' ]
]

-- The words of a command, or the first argument that is neither text nor a number.
pub data Words : Type 0 where
  words : List Text → Words
  bad_word : ValueType → Words

abbrev pub more_words : Text → Words → Words
more_words s (words ws) = words (s ∷ ws)
more_words s (bad_word v) = bad_word v

module _ (host : Host) where
  unfoldable pub command_words : List ValueType → Words
  command_words [] = words []
  command_words (string s ∷ vs) = more_words s (command_words vs)
  command_words (number n ∷ vs) = more_words (host.f64.display n) (command_words vs)
  command_words (v ∷ vs) = bad_word v

  unfoldable pub call_exit : Ambient → ValueType → M CallResult
  unfolding send_message
  call_exit amb v =
      with_number v exit_wants_number
        λ n. send_message amb (exit_message (host.f64.as_i32 n)) >> pure (ok void)

  unfoldable pub call_send : ValueType → M CallResult
  unfolding parse_key_sequence send_synced
  call_send v = with_string v send_wants_string λ s.
      unwrap (parse_key_sequence host.keys s) key_sequence_failed
        λ acts. send_synced acts >> pure (ok void)

  -- The match on the actions of `send_modifier`.
  unfoldable pub send_single : Ambient → List KeyAction → M CallResult
  unfolding send_message send_synced is_modifier_key
  send_single amb (a ∷ []) =
      if is_modifier_key a.key
      then (do send_message amb (update_modifiers_message a); send_synced (a ∷ []); pure (ok void))
      else pure (failed not_a_modifier)
  send_single amb other = pure (failed (single_action_expected (length other)))

  unfoldable pub call_send_modifier : Ambient → ValueType → M CallResult
  unfolding parse_key_sequence send_single
  call_send_modifier amb v =
      with_string v send_wants_string
        λ s. unwrap (parse_key_sequence host.keys s) key_sequence_failed (send_single amb)

  unfoldable pub call_active_window_class : Ambient → M CallResult
  unfolding send_message
  call_active_window_class amb = do
    send_message amb get_focused_window_info
    λ w. elim (host.system.focused_window w.trace) [
      | some info ↦ done (ok (string info.class)) w
      | none ↦ done (ok void) w
    ]

  unfoldable pub call_on_window_change : Ambient → ValueType → M CallResult
  unfolding send_message
  call_on_window_change amb v = elim v [
    | closure _ b scope ↦
        send_message amb (register_window_change_callback b scope) >> pure (ok void)
    | _ ↦ pure (failed window_change_wants_lambda)
  ]

  unfoldable pub call_sleep : ValueType → M CallResult
  unfolding emit
  call_sleep v =
      with_number v sleep_wants_number λ n. emit (slept (host.f64.as_u64 n)) >> pure (ok void)

  unfoldable pub call_print : Ambient → ValueType → M CallResult
  unfolding send_message display
  call_print amb v = send_message amb (write (display host v ++ 10 ∷ [])) >> pure (ok void)

  unfoldable pub call_number_to_key : ValueType → M CallResult
  call_number_to_key v = with_number v key_wants_number λ n.
      unwrap (host.system.ev_key_name (host.f64.as_u32 n)) key_code_not_found
        λ s. pure (ok (string (codes "{" ++ (s ++ codes "}"))))

  unfoldable pub call_number_to_char : ValueType → M CallResult
  call_number_to_char v =
      with_number v char_wants_number λ n. pure (ok (string (host.f64.as_u8 n ∷ [])))

  unfoldable pub call_char_to_number : ValueType → M CallResult
  call_char_to_number v = with_string v number_wants_char λ s.
      if nat_beq (utf8_length s) 1
      then (elim s [
        | c ∷ _ ↦ pure (ok (number (host.f64.of_u8 (c % 256))))
        | [] ↦ panic not_one_character
      ])
      else panic not_one_character

  -- The match on the expression that `map_key` builds.
  unfoldable pub register_expr : Ambient → Address → Expr → M CallResult
  unfolding register_mappings
  register_expr amb scope (key_mapping ms) = register_mappings amb scope ms >> pure (ok void)
  register_expr amb scope _ = panic unreachable

  unfoldable pub call_map_key : Ambient → ValueType → ValueType → M CallResult
  unfolding parse_key_action_with_mods register_expr
  call_map_key amb from to = with_string from map_key_arguments λ s. elim to [
    | closure _ b scope ↦
        unwrap (parse_key_action_with_mods host.keys s b) mapping_trigger_failed
          (register_expr amb scope)
    | _ ↦ pure (failed map_key_arguments)
  ]

  unfoldable pub call_execute : List ValueType → M CallResult
  unfolding command_words trim_newline
  call_execute [] = pure (failed execute_arity)
  call_execute (v ∷ vs) = elim (command_words (v ∷ vs)) [
    | bad_word u ↦ pure (failed (unexpected_argument u))
    | words ws ↦ λ w. elim (host.system.run_command w.trace ws) [
      | output s ↦ done (ok (string (trim_newline s))) w
      | not_spawned s ↦ done (failed (spawn_failed s)) w
    ]
  ]
