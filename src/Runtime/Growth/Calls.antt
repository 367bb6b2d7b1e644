-- ===== src/Runtime/Growth/Calls.antt =====
-- src/runtime: the steps of the evaluator that call no other evaluation, and what they leave as it was.
use map2_legacy.Base.{
  ℕ, List, [], ◌∷◌, Option, none, some, Text, nat_beq, utf8_length, if◌then◌else◌, Option-cases,
  Bool-cases, inl, inr, ◌%◌,
}
use map2_legacy.Key.{KeyAction}
use map2_legacy.Ast.{
  Address, ValueType, bool, string, closure, number, void, Expr, key_mapping, KeyMappings,
  no_mappings, mapping, ◌&◌,
}
use map2_legacy.Runtime.World.{
  World, Ambient, Outcome, done, panicked, lost, M, CallError, Panic, pure, panic,
  get_focused_window_info, ◌>>◌, slept, write_variable, update_modifiers_message, variable_missing,
  not_one_character, unexpected_argument, spawn_failed,
}
use map2_legacy.Runtime.Host.{
  Host, parse_key_sequence, parse_key_action_with_mods, CommandResult, output, not_spawned,
}
use map2_legacy.Runtime.Scope.{Chain, found, missing, endless, find_scope, read_name, assign_name}
use map2_legacy.Runtime.Builtins.{
  CallResult, ok, failed, with_number, with_string, unwrap, is_modifier_key, send_single,
  register_expr, register_mappings, Words, words, bad_word, command_words, trim_newline, call_exit,
  call_send, call_send_modifier, call_active_window_class, call_on_window_change, call_sleep,
  call_print, call_number_to_key, call_number_to_char, call_char_to_number, call_map_key,
  call_execute,
}
use map2_legacy.Runtime.Eval.{finish_call}
use map2_legacy.Runtime.Growth.{
  Keeps, by_loss, Keeps-pure, Keeps-panic, Still, Keeps-then, emit-Still, send_synced-Still,
  send_message-Still, write_variable-Still,
}

pub read_name-Still : (x : Text) (a : Address) → Still (read_name x a)
unfolding read_name
read_name-Still x a w = by_chain (find_scope w x a)
  where
    by_chain :
        (c : Chain)
        → Keeps w (elim c [ found _ v ↦ done v w | missing ↦ done void w | endless ↦ lost ])
    by_chain (found _ v) = Keeps-pure
    by_chain missing = Keeps-pure
    by_chain endless = by_loss

pub assign_name-Still : (x : Text) (v : ValueType) (a : Address) → Still (assign_name x v a)
unfolding assign_name
assign_name-Still x v a w = by_chain (find_scope w x a)
  where
    by_chain :
        (c : Chain)
        → Keeps w (elim c [
          | found b _ ↦ (write_variable b x v >> pure void) w
          | missing ↦ panicked (variable_missing x) w
          | endless ↦ lost
        ])
    by_chain (found b _) = Keeps-then (write_variable-Still b x v w) (λ _ u. Keeps-pure)
    by_chain missing = Keeps-panic
    by_chain endless = by_loss

with_number-Still :
    (v : ValueType) (e : CallError) (k : ℕ → M CallResult)
    → ((n : ℕ) → Still (k n))
    → Still (with_number v e k)
with_number-Still (number n) e k h w = h n w
with_number-Still (bool _) e k h w = Keeps-pure
with_number-Still (string _) e k h w = Keeps-pure
with_number-Still (closure _ _ _) e k h w = Keeps-pure
with_number-Still void e k h w = Keeps-pure

with_string-Still :
    (v : ValueType) (e : CallError) (k : Text → M CallResult)
    → ((t : Text) → Still (k t))
    → Still (with_string v e k)
with_string-Still (string t) e k h w = h t w
with_string-Still (bool _) e k h w = Keeps-pure
with_string-Still (number _) e k h w = Keeps-pure
with_string-Still (closure _ _ _) e k h w = Keeps-pure
with_string-Still void e k h w = Keeps-pure

unwrap-Still {ℓ} :
    {A : Type ℓ} {B : Type 0} (o : Option A) (p : Panic) (k : A → M B)
    → ((a : A) → Still (k a))
    → Still (unwrap o p k)
unwrap-Still (some a) p k h w = h a w
unwrap-Still none p k h w = Keeps-panic

pub register_mappings-Still :
    (amb : Ambient) (scope : Address) (ms : KeyMappings) → Still (register_mappings amb scope ms)
unfolding register_mappings
register_mappings-Still amb scope no_mappings w = Keeps-pure
register_mappings-Still amb scope (mapping from to & ms) w =
    Keeps-then (send_message-Still amb _ w) (λ _. register_mappings-Still amb scope ms)

pub finish_call-Still : (amb : Ambient) (r : CallResult) → Still (finish_call amb r)
finish_call-Still amb (ok v) w = Keeps-pure
finish_call-Still amb (failed e) w = Keeps-then (send_message-Still amb _ w) (λ _ u. Keeps-pure)

module _ (host : Host) where
  pub call_exit-Still : (amb : Ambient) (v : ValueType) → Still (call_exit host amb v)
  unfolding call_exit
  call_exit-Still amb v =
      with_number-Still v _ _ (λ n w. Keeps-then (send_message-Still amb _ w) (λ _ u. Keeps-pure))

  pub call_send-Still : (v : ValueType) → Still (call_send host v)
  unfolding call_send
  call_send-Still v = with_string-Still v _ _ (λ t.
      unwrap-Still (parse_key_sequence host.keys t) _ _
        (λ acts w. Keeps-then (send_synced-Still acts w) (λ _ u. Keeps-pure)))

  send_single-Still : (amb : Ambient) (acts : List KeyAction) → Still (send_single host amb acts)
  unfolding send_single
  send_single-Still amb [] w = Keeps-pure
  send_single-Still amb (_ ∷ (_ ∷ _)) w = Keeps-pure
  send_single-Still amb (a ∷ []) w = elim (Bool-cases (is_modifier_key a.key)) [
    | inl is ↦
        rw (send_single, is)
          (Keeps-then (send_message-Still amb (update_modifiers_message a) w)
            (λ _ u. Keeps-then (send_synced-Still (a ∷ []) u) (λ _ v. Keeps-pure {a = ok void})))
    | inr is_not ↦ rw (send_single, is_not) Keeps-pure
  ]

  pub call_send_modifier-Still :
      (amb : Ambient) (v : ValueType) → Still (call_send_modifier host amb v)
  unfolding call_send_modifier
  call_send_modifier-Still amb v =
      with_string-Still v _ _
        (λ t. unwrap-Still (parse_key_sequence host.keys t) _ _ (send_single-Still amb))

  pub call_active_window_class-Still : (amb : Ambient) → Still (call_active_window_class host amb)
  unfolding call_active_window_class
  call_active_window_class-Still amb w =
      Keeps-then (send_message-Still amb get_focused_window_info w) (λ _ u.
        elim (Option-cases (host.system.focused_window u.trace)) [
          | inl no_window ↦ rw no_window Keeps-pure
          | inr (info, e) ↦ rw e Keeps-pure
        ])

  pub call_on_window_change-Still :
      (amb : Ambient) (v : ValueType) → Still (call_on_window_change host amb v)
  unfolding call_on_window_change
  call_on_window_change-Still amb (closure _ b scope) w =
      Keeps-then (send_message-Still amb _ w) (λ _ u. Keeps-pure)
  call_on_window_change-Still amb (bool _) w = Keeps-pure
  call_on_window_change-Still amb (string _) w = Keeps-pure
  call_on_window_change-Still amb (number _) w = Keeps-pure
  call_on_window_change-Still amb void w = Keeps-pure

  pub call_sleep-Still : (v : ValueType) → Still (call_sleep host v)
  unfolding call_sleep
  call_sleep-Still v = with_number-Still v _ _ (λ n w.
      Keeps-then (emit-Still (slept (host.f64.as_u64 n)) w) (λ _ u. Keeps-pure {a = ok void}))

  pub call_print-Still : (amb : Ambient) (v : ValueType) → Still (call_print host amb v)
  unfolding call_print
  call_print-Still amb v w = Keeps-then (send_message-Still amb _ w) (λ _ u. Keeps-pure)

  pub call_number_to_key-Still : (v : ValueType) → Still (call_number_to_key host v)
  unfolding call_number_to_key
  call_number_to_key-Still v =
      with_number-Still v _ _
        (λ n. unwrap-Still (host.system.ev_key_name (host.f64.as_u32 n)) _ _ (λ t w. Keeps-pure))

  pub call_number_to_char-Still : (v : ValueType) → Still (call_number_to_char host v)
  unfolding call_number_to_char
  call_number_to_char-Still v = with_number-Still v _ _ (λ n w. Keeps-pure)

  pub call_char_to_number-Still : (v : ValueType) → Still (call_char_to_number host v)
  unfolding call_char_to_number
  call_char_to_number-Still v = with_string-Still v _ _ one_char
    where
      one_char :
          (t : Text)
          → Still (
              if nat_beq (utf8_length t) 1
              then (elim t as (λ _. M CallResult) [
                | c ∷ _ ↦ pure (ok (number (host.f64.of_u8 (c % 256))))
                | [] ↦ panic not_one_character
              ])
              else panic not_one_character)
      one_char [] w = Keeps-panic
      one_char (c ∷ t) w = elim (Bool-cases (nat_beq (utf8_length (c ∷ t)) 1)) [
        | inl single ↦ rw single Keeps-pure
        | inr longer ↦ rw longer Keeps-panic
      ]

  register_expr-Still :
      (amb : Ambient) (scope : Address) (e : Expr) → Still (register_expr host amb scope e)
  unfolding register_expr
  register_expr-Still amb scope (key_mapping ms) w =
      Keeps-then (register_mappings-Still amb scope ms w) (λ _ u. Keeps-pure)
  register_expr-Still amb scope _ w = Keeps-panic

  pub call_map_key-Still :
      (amb : Ambient) (from to : ValueType) → Still (call_map_key host amb from to)
  unfolding call_map_key
  call_map_key-Still amb from (closure _ b scope) = with_string-Still from _ _ (λ t.
      unwrap-Still (parse_key_action_with_mods host.keys t b) _ _ (register_expr-Still amb scope))
  call_map_key-Still amb from (bool _) = with_string-Still from _ _ (λ t w. Keeps-pure)
  call_map_key-Still amb from (string _) = with_string-Still from _ _ (λ t w. Keeps-pure)
  call_map_key-Still amb from (number _) = with_string-Still from _ _ (λ t w. Keeps-pure)
  call_map_key-Still amb from void = with_string-Still from _ _ (λ t w. Keeps-pure)

  execute-result :
      (r : CommandResult) (w : World)
      → Keeps w (elim r as (λ _. Outcome CallResult) [
        | output s ↦ done (ok (string (trim_newline s))) w
        | not_spawned s ↦ done (failed (spawn_failed s)) w
      ])
  execute-result (output s) w = Keeps-pure
  execute-result (not_spawned s) w = Keeps-pure

  execute-words :
      (ws : Words)
      → Still (elim ws as (λ _. M CallResult) [
        | bad_word u ↦ pure (failed (unexpected_argument u))
        | words l ↦ λ w. elim (host.system.run_command w.trace l) [
          | output s ↦ done (ok (string (trim_newline s))) w
          | not_spawned s ↦ done (failed (spawn_failed s)) w
        ]
      ])
  execute-words (bad_word u) w = Keeps-pure
  execute-words (words l) w = execute-result (host.system.run_command w.trace l) w

  pub call_execute-Still : (vs : List ValueType) → Still (call_execute host vs)
  unfolding call_execute
  call_execute-Still [] w = Keeps-pure
  call_execute-Still (v ∷ vs) w = execute-words (command_words host (v ∷ vs)) w
