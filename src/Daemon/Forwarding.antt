-- ===== src/Daemon/Forwarding.antt =====
-- src/event_handlers.rs: what becomes of an input event, and the modifiers that the daemon tracks.
use mathlib.Core.Path.{subst}
use map2_legacy.Base.{
  ◌≡◌, refl, ap, sym, ◌∙◌, inl, inr, List, [], ◌∷◌, ◌++◌, map, Bool, true, false, Option, none,
  some, lookup, nat_beq, Bool-cases, Option-cases, map-append, arith,
}
use map2_legacy.Key.{
  InputEvent, KeyModifierState, KeyAction, key_eq, mods_eq, no_modifiers, from_input_ev,
}
use map2_legacy.Ast.{Address, Block}
use map2_legacy.Modifiers.{update_modifiers}
use map2_legacy.Modifiers.Tracking.{
  Modifier, left_ctrl, key_for, is_held, update_all, last_verdict, or_else, update_modifiers-miss,
  is_held-update_all,
}
use map2_legacy.Runtime.World.{add_mapping, update_modifiers_message}
use map2_legacy.Daemon.Steps.{round-live, round-gone}
use map2_legacy.Daemon.Defs.{
  Daemon, Task, set_modifiers, start, from_key_action, is_key_event, handle_key, handle_stdin_ev,
  handle_execution_message, Incoming, window, input, execution, round, run, dispatch,
  handle_active_window_change,
}

-- Whether the table of mappings takes the event.
abbrev pub IsTaken : Daemon → InputEvent → Block × Address → Type 0
IsTaken d ev target =
    (is_key_event ev.event_code ≡ true) × (lookup (from_key_action d ev) d.mappings ≡ some target)

abbrev pub task_for : Daemon → Block × Address → Task
task_for d target = record {
  block = target.0;
  var_map = target.1;
  window_cycle_token = d.window_cycle_token;
  modifier_state = d.state.modifiers;
}

-- The event goes out, and the modifiers follow it.
abbrev pub forward : Daemon → InputEvent → Daemon
forward d ev =
    let d' = set_modifiers d (update_modifiers d.state.modifiers (from_input_ev ev)) in
    record d' { sent = d.sent ++ ev ∷ [] }

-- A step on an input event: it is sent on, and the modifiers follow it, or a task is spawned with
-- the modifiers of that moment and everything else stays.
pub data Handled (d : Daemon) (ev : InputEvent) : Daemon → Type 0 where
  forwarded :
      ((target : Block × Address) → ¬ IsTaken d ev target)
      → {d' : Daemon} → d' ≡ forward d ev
      → Handled d ev d'
  spawned :
      (target : Block × Address)
      → IsTaken d ev target
      → {d' : Daemon} → d' ≡ record d { tasks = d.tasks ++ task_for d target ∷ [] }
      → Handled d ev d'

-- A key that is no modifier, and an event of another type, change no modifier.
update_modifiers-other :
    (s : KeyModifierState) (ev : InputEvent)
    → is_key_event ev.event_code ≡ false
    → update_modifiers s (from_input_ev ev) ≡ s
update_modifiers-other s ev h =
    update_modifiers-miss s (from_input_ev ev)
      (elim [ left_ctrl ↦ ground arith | _ ↦ ground arith ])

module _ (d : Daemon) (ev : InputEvent) where
  handle_stdin_ev-other : is_key_event ev.event_code ≡ false → handle_stdin_ev d ev ≡ forward d ev
  unfolding handle_stdin_ev
  handle_stdin_ev-other h = rw (h, update_modifiers-other d.state.modifiers ev h) refl

  pub handle_stdin_ev-key :
      is_key_event ev.event_code ≡ true
      → (o : Option (Block × Address)) → lookup (from_key_action d ev) d.mappings ≡ o
      → handle_stdin_ev d ev ≡ handle_key d ev o
  unfolding handle_stdin_ev
  handle_stdin_ev-key h o e = rw (h, e)

pub handle_stdin_ev-Handled : (d : Daemon) (ev : InputEvent) → Handled d ev (handle_stdin_ev d ev)
handle_stdin_ev-Handled d ev = elim (Bool-cases (is_key_event ev.event_code)) [
  | inr other ↦ forwarded (λ _ t. cc (t.0)) (handle_stdin_ev-other d ev other)
  | inl key ↦ elim (Option-cases (lookup (from_key_action d ev) d.mappings)) [
    | inl unmapped ↦ forwarded (λ _ t. cc (t.1)) (handle_stdin_ev-key d ev key none unmapped)
    | inr (target, mapped) ↦
        spawned target (key, mapped) (handle_stdin_ev-key d ev key (some target) mapped)
  ]
]

pub Handled-exited : {d d' : Daemon} {ev : InputEvent} → Handled d ev d' → d'.exited ≡ d.exited
Handled-exited (forwarded _ e) = ap (λ (x : Daemon). x.exited) e
Handled-exited (spawned _ _ e) = ap (λ (x : Daemon). x.exited) e

pub Handled-token :
    {d d' : Daemon} {ev : InputEvent}
    → Handled d ev d'
    → d'.window_cycle_token ≡ d.window_cycle_token
Handled-token (forwarded _ e) = ap (λ (x : Daemon). x.window_cycle_token) e
Handled-token (spawned _ _ e) = ap (λ (x : Daemon). x.window_cycle_token) e

pub Handled-handlers :
    {d d' : Daemon} {ev : InputEvent}
    → Handled d ev d'
    → d'.window_change_handlers ≡ d.window_change_handlers
Handled-handlers (forwarded _ e) = ap (λ (x : Daemon). x.window_change_handlers) e
Handled-handlers (spawned _ _ e) = ap (λ (x : Daemon). x.window_change_handlers) e

no_modifier-held : (m : Modifier) → is_held m no_modifiers ≡ false
no_modifier-held left_ctrl = refl
no_modifier-held _ = refl

-- The events that change the tracked modifiers.
abbrev pub is_update : Incoming → Bool
is_update (execution (update_modifiers_message _)) = true
is_update _ = false

abbrev pub NoUpdates : List Incoming → Type 0
NoUpdates [] = Unit
NoUpdates (i ∷ is) = (is_update i ≡ false) × NoUpdates is

-- The tracked modifiers are those of the events sent on.
abbrev pub IsInStep : Daemon → Type 0
IsInStep d = d.state.modifiers ≡ update_all no_modifiers (map from_input_ev d.sent)

update_all-append :
    (s : KeyModifierState) (as' bs : List KeyAction)
    → update_all s (as' ++ bs) ≡ update_all (update_all s as') bs
update_all-append s [] bs = refl
update_all-append s (a ∷ as') bs = update_all-append (update_modifiers s a) as' bs

Handled-IsInStep : {d d' : Daemon} {ev : InputEvent} → Handled d ev d' → IsInStep d → IsInStep d'
Handled-IsInStep {d} {ev} (forwarded _ e) h =
    subst IsInStep (sym e)
      (rw (map-append, update_all-append) (ap (λ s. update_modifiers s (from_input_ev ev)) h))
Handled-IsInStep (spawned _ _ e) h = subst IsInStep (sym e) h

dispatch-IsInStep :
    (d : Daemon) (i : Incoming) → is_update i ≡ false → IsInStep d → IsInStep (dispatch d i)
unfolding handle_execution_message handle_active_window_change
dispatch-IsInStep d (window info) u h = h
dispatch-IsInStep d (input ev) u h = Handled-IsInStep (handle_stdin_ev-Handled d ev) h
dispatch-IsInStep d (execution (add_mapping token from to scope)) u h =
    elim (Bool-cases (nat_beq token d.window_cycle_token)) [ inl e ↦ rw e h | inr e ↦ rw e h ]
dispatch-IsInStep d (execution (update_modifiers_message a)) u h = cc
dispatch-IsInStep d (execution _) u h = h

round-IsInStep :
    (d : Daemon) (i : Incoming) → is_update i ≡ false → IsInStep d → IsInStep (round d i)
round-IsInStep d i u h = elim (Option-cases d.exited) [
  | inl live ↦ rw (round-live d i live) (dispatch-IsInStep d i u h)
  | inr (c, gone) ↦ rw (round-gone d i c gone) h
]

run-IsInStep : (d : Daemon) (is : List Incoming) → NoUpdates is → IsInStep d → IsInStep (run d is)
unfolding run
run-IsInStep d [] u h = h
run-IsInStep d (i ∷ is) u h = run-IsInStep (round d i) is u.1 (round-IsInStep d i u.0 h)

-- Whatever the main loop receives, without modifier messages from scripts, a modifier counts as
-- held exactly if the last press or release of its key among the events sent on was a press.
pub is_held-run :
    (m : Modifier) (is : List Incoming)
    → NoUpdates is
    → is_held m (run start is).state.modifiers
      ≡ or_else (last_verdict (key_for m) (map from_input_ev (run start is).sent)) false
is_held-run m is u =
    let acts = map from_input_ev (run start is).sent in
    rw (run-IsInStep start is u refl) (
      is_held-update_all m no_modifiers acts
      ∙ ap (or_else (last_verdict (key_for m) acts)) (no_modifier-held m))
