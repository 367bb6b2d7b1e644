-- ===== src/Daemon/Lifecycle.antt =====
-- src/main.rs: the token of the current window, mappings that come too late, window handlers, and
-- the end of the process.
use mathlib.Core.Path.{ap₂}
use map2_legacy.Base.{
  usize_values, ℕ, suc, ◌≡◌, ◌+◌, ◌%◌, ◌<◌, refl, ap, sym, ◌∙◌, List, [], ◌∷◌, ◌++◌, map, Option,
  Bool, true, false, ◌||◌, none, some, nat_beq, Bool-cases, inl, inr, append-nil, append_assoc,
  arith,
}
use map2_legacy.Key.{KeyActionWithMods, no_modifiers}
use map2_legacy.Ast.{Address, Block}
use map2_legacy.Runtime.World.{
  ActiveWindowInfo, add_mapping, register_window_change_callback, exit_message, fatal_error,
}
use map2_legacy.Daemon.Defs.{
  Daemon, Task, handle_execution_message, handle_active_window_change, Incoming, window, input,
  execution, dispatch, handler_tasks, round, run,
}
use map2_legacy.Daemon.Steps.{round-live, run-gone}
use map2_legacy.Daemon.Forwarding.{
  handle_stdin_ev-Handled, Handled-exited, Handled-token, Handled-handlers,
}

abbrev pub opens_window : Incoming → ℕ
opens_window (window _) = 1
opens_window _ = 0

abbrev pub is_exit : Incoming → Bool
is_exit (execution (exit_message _)) = true
is_exit (execution (fatal_error _ _)) = true
is_exit _ = false

abbrev pub registers : Incoming → List (Block × Address)
registers (execution (register_window_change_callback b scope)) = (b, scope) ∷ []
registers _ = []

-- How many windows were focused.
abbrev pub window_count : List Incoming → ℕ
window_count [] = 0
window_count (i ∷ is) = opens_window i + window_count is

-- Whether something asks the process to end.
abbrev pub has_exit : List Incoming → Bool
has_exit [] = false
has_exit (i ∷ is) = is_exit i || has_exit is

-- The handlers registered, in order.
abbrev pub registered : List Incoming → List (Block × Address)
registered [] = []
registered (i ∷ is) = registers i ++ registered is

-- What holds of a daemon that was `d` and received `is`, none of which ends the process.
pub record Follows (d : Daemon) (is : List Incoming) (d' : Daemon) : Type 0 where
  pub live : d'.exited ≡ none
  pub token : d'.window_cycle_token ≡ (d.window_cycle_token + window_count is) % usize_values
  pub handlers : d'.window_change_handlers ≡ d.window_change_handlers ++ registered is

-- Only two messages end the process.
dispatch-live :
    (d : Daemon) (i : Incoming) → is_exit i ≡ false → d.exited ≡ none → (dispatch d i).exited ≡ none
unfolding handle_execution_message handle_active_window_change
dispatch-live d (window info) e live = live
dispatch-live d (input ev) e live = Handled-exited (handle_stdin_ev-Handled d ev) ∙ live
dispatch-live d (execution (add_mapping token from to scope)) e live =
    elim (Bool-cases (nat_beq token d.window_cycle_token)) [
      | inl same ↦ rw same live
      | inr other ↦ rw other live
    ]
dispatch-live d (execution (exit_message _)) e live = absurd (cc e)
dispatch-live d (execution (fatal_error _ _)) e live = absurd (cc e)
dispatch-live d (execution _) e live = live

-- One round, for every kind of thing received but the end of the process.
dispatch-Follows :
    (d : Daemon) (i : Incoming)
    → is_exit i ≡ false
    → d.exited ≡ none
    → d.window_cycle_token < usize_values
    → Follows d (i ∷ []) (dispatch d i)
unfolding handle_execution_message handle_active_window_change
dispatch-Follows d (window info) e live small = record {
  live = live;
  token = omega arith;
  handlers = sym (append-nil _);
}
dispatch-Follows d (input ev) e live small =
    let h = handle_stdin_ev-Handled d ev in
    record {
      live = Handled-exited h ∙ live;
      token = omega (arith, Handled-token h);
      handlers = Handled-handlers h ∙ sym (append-nil _);
    }
dispatch-Follows d (execution (add_mapping token from to scope)) e live small =
    elim (Bool-cases (nat_beq token d.window_cycle_token)) [
      | inl same ↦
          rw same (record { live = live; token = omega arith; handlers = sym (append-nil _) })
      | inr other ↦
          rw other (record { live = live; token = omega arith; handlers = sym (append-nil _) })
    ]
dispatch-Follows d (execution (exit_message _)) e live small = cc
dispatch-Follows d (execution (fatal_error _ _)) e live small = cc
dispatch-Follows d (execution (register_window_change_callback b scope)) e live small = record {
  live = live;
  token = omega arith;
  handlers = refl;
}
dispatch-Follows d (execution _) e live small = record {
  live = live;
  token = omega arith;
  handlers = sym (append-nil _);
}

-- While nothing ends the process, the token counts the windows, modulo 2 ^ 64, and the window
-- handlers are those registered, in order.
pub run-Follows :
    (d : Daemon) (is : List Incoming)
    → has_exit is ≡ false
    → d.exited ≡ none
    → d.window_cycle_token < usize_values
    → Follows d is (run d is)
unfolding run
run-Follows d [] e live small = record {
  live = live;
  token = omega arith;
  handlers = sym (append-nil _);
}
run-Follows d (i ∷ is) e live small =
    let one = dispatch-Follows d i (ground arith) live small in
    let rest = run-Follows (dispatch d i) is (ground arith) one.live (omega arith) in
    rw (run, round-live d i live)
      (record {
        live = rest.live;
        token = omega arith;
        handlers =
            rest.handlers
            ∙ (ap (λ l. l ++ registered is) one.handlers ∙ simp (append-nil, append_assoc));
      })

-- From a token below 2 ^ 64, while nothing ends the process, after at least one window change and
-- fewer than 2 ^ 64 of them, a mapping that carries the token from before them is dropped and
-- nothing changes.
pub late_mapping_dropped :
    (d : Daemon) (is : List Incoming) (from : KeyActionWithMods) (to : Block) (scope : Address)
    → has_exit is ≡ false
    → d.exited ≡ none
    → d.window_cycle_token < usize_values
    → 0 < window_count is
    → window_count is < usize_values
    → round (run d is) (execution (add_mapping d.window_cycle_token from to scope)) ≡ run d is
unfolding handle_execution_message
late_mapping_dropped d is from to scope e live small some_window few =
    let after = run-Follows d is e live small in
    let d' = run d is in
    let differ : nat_beq d.window_cycle_token d'.window_cycle_token ≡ false = ground arith in
    round-live d' _ after.live ∙ rw differ refl

-- A handler started in a window, with no modifier held.
abbrev pub handler_task : ℕ → Block × Address → Task
handler_task token (b, scope) = record {
  block = b;
  var_map = scope;
  window_cycle_token = token;
  modifier_state = no_modifiers;
}

handler_tasks-map :
    (token : ℕ) (hs : List (Block × Address)) → handler_tasks token hs ≡ map (handler_task token) hs
handler_tasks-map token [] = refl
handler_tasks-map token (h ∷ hs) = ap (λ l. handler_task token h ∷ l) (handler_tasks-map token hs)

-- From a token below 2 ^ 64, while nothing ends the process, a window change starts the handlers
-- registered so far, each once and in the order of their registration, with the new token and no
-- modifier held.
pub window_starts_handlers :
    (d : Daemon) (is : List Incoming) (info : ActiveWindowInfo)
    → has_exit is ≡ false
    → d.exited ≡ none
    → d.window_cycle_token < usize_values
    → (round (run d is) (window info)).tasks
      ≡ (run d is).tasks
        ++ map
            (handler_task ((d.window_cycle_token + suc (window_count is)) % usize_values))
            (d.window_change_handlers ++ registered is)
unfolding handle_active_window_change
window_starts_handlers d is info e live small =
    let after = run-Follows d is e live small in
    let d' = run d is in
    ap (λ (x : Daemon). x.tasks) (round-live d' _ after.live)
    ∙ (ap₂ (λ t hs. d'.tasks ++ handler_tasks t hs) (omega arith) after.handlers
        ∙ ap (λ ts. d'.tasks ++ ts)
            (handler_tasks-map _ (d.window_change_handlers ++ registered is)))

-- The code of the first message that asks the process to end.
abbrev pub first_exit : List Incoming → Option ℕ
first_exit [] = none
first_exit (execution (exit_message code) ∷ is) = some code
first_exit (execution (fatal_error _ code) ∷ is) = some code
first_exit (_ ∷ is) = first_exit is

first_exit-asks :
    (i : Incoming) (is : List Incoming)
    → is_exit i ≡ true
    → (code : ℕ) × (first_exit (i ∷ is) ≡ some code)
      × ((d : Daemon) → (dispatch d i).exited ≡ some code)
unfolding handle_execution_message
first_exit-asks (execution (exit_message code)) is e = (code, refl, λ d. refl)
first_exit-asks (execution (fatal_error _ code)) is e = (code, refl, λ d. refl)
first_exit-asks (execution (add_mapping _ _ _ _)) is e = absurd (cc e)
first_exit-asks (execution _) is e = absurd (cc e)
first_exit-asks (window _) is e = absurd (cc e)
first_exit-asks (input _) is e = absurd (cc e)

first_exit-other :
    (i : Incoming) (is : List Incoming) → is_exit i ≡ false → first_exit (i ∷ is) ≡ first_exit is
first_exit-other (execution (exit_message code)) is e = absurd (cc e)
first_exit-other (execution (fatal_error _ code)) is e = absurd (cc e)
first_exit-other (execution _) is e = refl
first_exit-other (window _) is e = refl
first_exit-other (input _) is e = refl

-- Whatever a live daemon receives, it exits exactly if something among it is an exit message or a
-- fatal error, and with the code of the first of these.
pub exited-run :
    (d : Daemon) (is : List Incoming) → d.exited ≡ none → (run d is).exited ≡ first_exit is
unfolding run
exited-run d [] live = live
exited-run d (i ∷ is) live = elim (Bool-cases (is_exit i)) [
  | inl asks ↦
      let (code, first, ends) = first_exit-asks i is asks in
      rw (run, round-live d i live, run-gone (dispatch d i) is code (ends d)) (ends d ∙ sym first)
  | inr other ↦
      rw (run, round-live d i live)
        (exited-run (dispatch d i) is (dispatch-live d i other live)
          ∙ sym (first_exit-other i is other))
]
