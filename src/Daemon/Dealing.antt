-- ===== src/Daemon/Dealing.antt =====
-- src/event_handlers.rs, `handle_stdin_ev`: what becomes of a sequence of input events.
use mathlib.Core.Path.{subst}
use map2_legacy.Base.{
  ◌≡◌, ℕ, refl, ap, sym, ◌∙◌, inl, inr, List, [], ◌∷◌, ◌++◌, map, true, false, ◌||◌, Option, none,
  some, lookup, Bool-cases, Option-cases, append-nil, append_assoc,
}
use map2_legacy.Key.{
  EventCode, ev_key, ev_syn, ev_other, InputEvent, KeyActionWithMods, KeyModifierState, mods_eq,
  from_input_ev,
}
use map2_legacy.Ast.{Address, Block}
use map2_legacy.Modifiers.{update_modifiers}
use map2_legacy.Modifiers.Tracking.{
  Modifier, left_ctrl, right_ctrl, left_alt, right_alt, left_shift, right_shift, left_meta,
  right_meta, key_for, is_held, verdict, or_else, is_held-update_all,
}
use map2_legacy.Daemon.Defs.{
  CompiledKeyMappings, Daemon, Task, is_key_event, held_flags, from_key_action, handle_stdin_ev,
  input, run,
}
use map2_legacy.Daemon.Steps.{round-live}
use map2_legacy.Daemon.Forwarding.{
  IsTaken, task_for, Handled, forwarded, spawned, Handled-exited, handle_stdin_ev-Handled,
}

-- The trigger that a key event is, while `s` are held: its key, its value, and for each of the four
-- modifiers whether the left or the right one is held.
abbrev pub trigger_of : KeyModifierState → ℕ → ℕ → KeyActionWithMods
trigger_of s code value = record {
  key = record { event_code = ev_key code };
  value = value;
  modifiers = record {
    ctrl = is_held left_ctrl s || is_held right_ctrl s;
    shift = is_held left_shift s || is_held right_shift s;
    alt = is_held left_alt s || is_held right_alt s;
    meta = is_held left_meta s || is_held right_meta s;
  };
}

-- The entry of the table for an event, if it is a key event.
abbrev pub entry_of :
    CompiledKeyMappings → KeyModifierState → EventCode → ℕ → Option (Block × Address)
entry_of ms s (ev_key code) value = lookup (trigger_of s code value) ms
entry_of ms s _ value = none

abbrev pub entry : CompiledKeyMappings → KeyModifierState → InputEvent → Option (Block × Address)
entry ms s ev = entry_of ms s ev.event_code ev.value

-- A modifier is held behind an event as the event says of its key, and else as before.
abbrev pub Follows : KeyModifierState → InputEvent → KeyModifierState → Type 0
Follows s ev s' =
    (m : Modifier)
    → is_held m s'
      ≡ or_else
          (verdict (key_for m)
            (record { key = record { event_code = ev.event_code }; value = ev.value }))
          (is_held m s)

-- How events are dealt out by a table while `s` are held: the events sent on, the tasks started,
-- and the modifiers held in the end. An event with an entry starts the block of the entry with the
-- modifiers of that moment, and changes none; any other is sent on, and the modifiers follow it.
pub data Dealt (ms : CompiledKeyMappings) (token : ℕ)
    : KeyModifierState
      → List InputEvent
      → List InputEvent
      → List Task
      → KeyModifierState
      → Type 0 where
  none_left : {s : KeyModifierState} → Dealt ms token s [] [] [] s
  sent_on :
      {s s' s'' : KeyModifierState} {ev : InputEvent} {evs fs : List InputEvent} {ts : List Task}
      → entry ms s ev ≡ none
      → Follows s ev s'
      → Dealt ms token s' evs fs ts s''
      → Dealt ms token s (ev ∷ evs) (ev ∷ fs) ts s''
  started :
      {s s' : KeyModifierState} {ev : InputEvent} {evs fs : List InputEvent} {ts : List Task}
      (b : Block) (scope : Address)
      → entry ms s ev ≡ some (b, scope)
      → Dealt ms token s evs fs ts s'
      → Dealt ms token s
          (ev ∷ evs)
          fs
          (record { block = b; var_map = scope; window_cycle_token = token; modifier_state = s }
            ∷ ts)
          s'

-- A daemon that has dealt out events, and is otherwise as it was.
abbrev pub after_dealing : Daemon → List InputEvent → List Task → KeyModifierState → Daemon
after_dealing d fs ts s = record d {
  state = record (d.state) { modifiers = s };
  sent = d.sent ++ fs;
  tasks = d.tasks ++ ts;
}

abbrev pub Deals : Daemon → List InputEvent → Daemon → Type 0
Deals d evs d' =
    (fs : List InputEvent) × (ts : List Task) × (s : KeyModifierState) × (d'
      ≡ after_dealing d fs ts s)
    × Dealt d.mappings d.window_cycle_token d.state.modifiers evs fs ts s

update_modifiers-Follows :
    (s : KeyModifierState) (ev : InputEvent) → Follows s ev (update_modifiers s (from_input_ev ev))
update_modifiers-Follows s ev m = is_held-update_all m s (from_input_ev ev ∷ [])

module _ (d : Daemon) (value : ℕ) where
  abbrev here : EventCode → KeyActionWithMods
  here c = record {
    key = record { event_code = c };
    value = value;
    modifiers = held_flags d.state.modifiers;
  }

  entry_of-key :
      (c : EventCode)
      → is_key_event c ≡ true
      → entry_of d.mappings d.state.modifiers c value ≡ lookup (here c) d.mappings
  entry_of-key (ev_key code) h = refl
  entry_of-key (ev_syn _) h = absurd (cc h)
  entry_of-key (ev_other _ _) h = absurd (cc h)

  entry_of-other :
      (c : EventCode)
      → is_key_event c ≡ false
      → entry_of d.mappings d.state.modifiers c value ≡ none
  entry_of-other (ev_key code) h = absurd (cc h)
  entry_of-other (ev_syn _) h = refl
  entry_of-other (ev_other _ _) h = refl

module _ (d : Daemon) (ev : InputEvent) where
  entry-IsTaken :
      (target : Block × Address)
      → IsTaken d ev target
      → entry d.mappings d.state.modifiers ev ≡ some target
  entry-IsTaken target taken = entry_of-key d ev.value ev.event_code taken.0 ∙ taken.1

  entry-untaken :
      ((target : Block × Address) → ¬ IsTaken d ev target)
      → entry d.mappings d.state.modifiers ev ≡ none
  entry-untaken untaken = elim (Bool-cases (is_key_event ev.event_code)) [
    | inr other ↦ entry_of-other d ev.value ev.event_code other
    | inl key ↦ elim (Option-cases (lookup (from_key_action d ev) d.mappings)) [
      | inl e ↦ entry_of-key d ev.value ev.event_code key ∙ e
      | inr (target, e) ↦ absurd (untaken target (key, e))
    ]
  ]

Handled-Deals :
    {d d' : Daemon} (d'' : Daemon) {ev : InputEvent} (evs : List InputEvent)
    → Handled d ev d'
    → Deals d' evs d''
    → Deals d (ev ∷ evs) d''
Handled-Deals {d} d'' {ev} evs (forwarded untaken e) deals =
    let (fs, ts, s, p, dealt) = subst (λ x. Deals x evs d'') e deals in
    (
      ev ∷ fs,
      ts,
      s,
      p
          ∙ ap (λ l. record (after_dealing d fs ts s) { sent = l })
              (append_assoc d.sent (ev ∷ []) fs),
      sent_on (entry-untaken d ev untaken) (update_modifiers-Follows d.state.modifiers ev) dealt,
    )
Handled-Deals {d} d'' {ev} evs (spawned target taken e) deals =
    let (fs, ts, s, p, dealt) = subst (λ x. Deals x evs d'') e deals in
    (
      fs,
      task_for d target ∷ ts,
      s,
      p
          ∙ ap (λ l. record (after_dealing d fs ts s) { tasks = l })
              (append_assoc d.tasks (task_for d target ∷ []) ts),
      started target.0 target.1 (entry-IsTaken d ev target taken) dealt,
    )

-- A live daemon deals with every input event in turn: a key event for which the table has an entry,
-- with its key, its value and of each modifier whether the left or the right one is held, starts
-- the block of the entry with the current token and the modifiers of that moment, and is not sent
-- on; any other event is sent on unchanged, and the modifier whose key it presses or releases
-- follows it. Nothing else of the daemon changes.
pub run-Deals :
    (d : Daemon) (evs : List InputEvent) → d.exited ≡ none → Deals d evs (run d (map input evs))
unfolding run
run-Deals d [] live = (
  [],
  [],
  d.state.modifiers,
  ap (λ l. record d { sent = l }) (sym (append-nil d.sent))
      ∙ ap (λ l. record d { sent = d.sent ++ []; tasks = l }) (sym (append-nil d.tasks)),
  none_left,
)
run-Deals d (ev ∷ evs) live =
    let h = handle_stdin_ev-Handled d ev in
    let rest = run-Deals (handle_stdin_ev d ev) evs (Handled-exited h ∙ live) in
    rw (run, round-live d (input ev) live)
      (Handled-Deals (run (handle_stdin_ev d ev) (map input evs)) evs h rest)
