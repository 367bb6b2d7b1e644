-- ===== src/System/Serial.antt =====
-- The program with a table of remappings of single actions: what applications see, in whatever order
-- the steps come.
use mathlib.Core.Path.{subst}
use map2_legacy.Base.{
  ◌≡◌, ◌⊎◌, ◌+◌, ◌%◌, usize_values, ap, sym, ◌∙◌, List, [], ◌∷◌, ◌++◌, Option, none, some,
  append-nil, inl, inr,
}
use map2_legacy.Key.{InputEvent, KeyActionWithMods, mods_eq, no_modifiers}
use map2_legacy.Runtime.World.{ActiveWindowInfo}
use map2_legacy.Runtime.Host.{Host}
use map2_legacy.Daemon.{
  Daemon, Task, Incoming, window, input, from_key_action, handler_tasks,
  handle_active_window_change,
}
use map2_legacy.Daemon.Steps.{round-live}
use map2_legacy.Daemon.Forwarding.{task_for, forwarded, spawned, handle_stdin_ev-Handled}
use map2_legacy.Remap.Device.{device}
use map2_legacy.System.{
  Program, emptied, receive, Step, receives_input, receives_window, delivers, runs,
}
use map2_legacy.System.Steady.{
  Meaning, Steady, Waiting, receive-after_round, passed-Steady, taken-Waiting,
}
use map2_legacy.System.Tasks.{ran-Steady}
use map2_legacy.System.Serving.{receive-Handled}

-- An event from outside is taken only while no task waits.
abbrev pub Turn : Program → Option Incoming → Type 0
Turn s (some _) = s.pending ≡ []
Turn s none = Unit

pub data Serial (host : Host) : Program → Program → Type 0 where
  stopped : {s : Program} → Serial host s s
  stepped :
      {s s' s'' : Program} {i : Option Incoming}
      → Turn s i
      → Step host s i s'
      → Serial host s' s''
      → Serial host s s''

abbrev Phase : Meaning → Program → Type 0
Phase f s = Steady f s ⊎ ((t : Task) × (k : KeyActionWithMods) × Waiting f s t k)

module _ (f : Meaning) (s : Program) (h : Steady f s) where
  receive-Phase : (ev : InputEvent) → Phase f (receive s (input ev))
  receive-Phase ev = elim (handle_stdin_ev-Handled (emptied s.daemon) ev) [
    | forwarded untaken e ↦
        inl (subst (Steady f) (sym (receive-Handled f s ev h _ e)) (passed-Steady f s ev h))
    | spawned target taken e ↦ inr (
      task_for (emptied s.daemon) target,
      from_key_action s.daemon ev,
      subst (λ x. Waiting f x (task_for (emptied s.daemon) target) (from_key_action s.daemon ev))
          (sym (receive-Handled f s ev h _ e)) (taken-Waiting f s ev h target taken),
    )
  ]

  window-Steady : (info : ActiveWindowInfo) → Steady f (receive s (window info))
  unfolding handle_active_window_change
  window-Steady info =
      let d = s.daemon in
      let token = (d.window_cycle_token + 1) % usize_values in
      let d' : Daemon = record (emptied d) {
        state = record (d.state) { active_window = some info };
        window_cycle_token = token;
      } in
      subst (Steady f)
        (sym (
          receive-after_round s (window info) d' (
            round-live (emptied d) (window info) h.live
            ∙ ap (λ hs. record d' { tasks = handler_tasks token hs }) h.unobserved)))
        record {
          live = h.live;
          idle = append-nil s.pending ∙ h.idle;
          quiet = h.quiet;
          unobserved = h.unobserved;
          all = h.all;
          agrees = ap (device no_modifiers) (append-nil s.world.trace) ∙ h.agrees;
        }

none_taken : (t : Task) (before after : List Task) → ¬ ([] ≡ before ++ t ∷ after)
none_taken t [] after e = cc e
none_taken t (b ∷ bs) after e = cc e

module _ (host : Host) (f : Meaning) where
  Step-Steady : {s s' : Program} {i : Option Incoming} → Steady f s → Step host s i s' → Phase f s'
  Step-Steady {s} h (receives_window info) = inl (window-Steady f s h info)
  Step-Steady {s} h (receives_input ev) = receive-Phase f s h ev
  Step-Steady h (delivers msg ms e) = absurd (cc (h.quiet, e))
  Step-Steady h (runs t before after n w es e run grown) =
      absurd (none_taken t before after (sym h.idle ∙ e))

  Step-Waiting :
      {s s' : Program} {i : Option Incoming} {t : Task} {k : KeyActionWithMods}
      → Waiting f s t k
      → Turn s i
      → Step host s i s'
      → Phase f s'
  Step-Waiting h turn (receives_window info) = absurd (cc (h.one, turn))
  Step-Waiting h turn (receives_input ev) = absurd (cc (h.one, turn))
  Step-Waiting h turn (delivers msg ms e) = absurd (cc (h.quiet, e))
  Step-Waiting {s} {t = t} {k} h turn (runs t' before after n w es e run grown) =
      inl (ran-Steady host f s t k h t' before after n w es e run grown)

  Serial-Phase : {s s' : Program} → Phase f s → Serial host s s' → Phase f s'
  Serial-Phase h stopped = h
  Serial-Phase (inl h) (stepped turn st later) = Serial-Phase (Step-Steady h st) later
  Serial-Phase (inr (t, k, h)) (stepped turn st later) = Serial-Phase (Step-Waiting h turn st) later

-- From a state with nothing left to do, where the table remaps single actions to plain keys, there
-- are no window handlers, and what applications see held is what the daemon believes held: as long
-- as the program takes an event or a window change only while no task waits, the two agree after
-- every step, whatever fuel the tasks are run with.
pub Serial-agrees :
    (host : Host) (f : Meaning) (s s' : Program)
    → Steady f s
    → Serial host s s'
    → device no_modifiers s'.world.trace ≡ s'.daemon.state.modifiers
Serial-agrees host f s s' h serial = elim (Serial-Phase host f (inl h) serial) [
  | inl steady ↦ steady.agrees
  | inr (t, k, waiting) ↦ waiting.agrees
]
