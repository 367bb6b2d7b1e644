-- ===== src/System/Steady.antt =====
-- The program with a table of remappings of single actions, where it waits for its next event, and
-- where one of its remappings waits to be run.
use mathlib.Core.Path.{subst}
use map2_legacy.Base.{
  ◌≡◌, refl, ap, ◌∙◌, List, [], ◌∷◌, ◌++◌, Option, none, some, lookup, append-nil, Bool-cases,
  Option-cases, inl, inr, if◌then◌else◌,
}
use map2_legacy.Key.{
  InputEvent, KeyAction, KeyActionWithMods, KeyModifierFlags, KeyModifierState, mods_eq,
  no_modifiers, from_input_ev,
}
use map2_legacy.Modifiers.{update_modifiers}
use map2_legacy.Ast.{Address, Block}
use map2_legacy.Mapping.{around}
use map2_legacy.Runtime.World.{Effect, sent, message, slept}
use map2_legacy.Runtime.Modifiers.{release_restore}
use map2_legacy.Daemon.{Daemon, Task, Incoming, round, is_key_event, from_key_action, held_flags}
use map2_legacy.Daemon.Forwarding.{IsTaken, task_for, forward}
use map2_legacy.Remap.Straight.{Act, tap, restore, block_of, plain_effects, effects_of}
use map2_legacy.Remap.Device.{device, device-append}
use map2_legacy.Remap.Balance.{NoModifiers}
use map2_legacy.Remap.Around.{taps, Remaps}
use map2_legacy.System.{Program, messages_of, emptied, after_round, receive}

-- What is wanted of the program: the modifiers and the actions that a key action stands for, if any.
abbrev pub Meaning : Type 0
Meaning = KeyActionWithMods → Option (KeyModifierFlags × List KeyAction)

-- A block does what is wanted, while the modifiers of its trigger are held.
pub data Means (k : KeyActionWithMods)
    : Option (Block × Address) → Option (KeyModifierFlags × List KeyAction) → Type 0 where
  unmapped : Means k none none
  mapped :
      (to : KeyModifierFlags) (body : List KeyAction) (target : Block × Address)
      → NoModifiers body
      → target.0 ≡ around k.modifiers to (block_of (taps body))
      → Means k (some target) (some (to, body))

abbrev pub Remapping : Meaning → KeyActionWithMods → Block → Type 0
Remapping f k b =
    (to : KeyModifierFlags) × (body : List KeyAction) × NoModifiers body
    × (b ≡ around k.modifiers to (block_of (taps body)))
    × (f k ≡ some (to, body))

abbrev pub trigger : KeyModifierState → InputEvent → KeyActionWithMods
trigger s ev = record {
  key = record { event_code = ev.event_code };
  value = ev.value;
  modifiers = held_flags s;
}

abbrev pub wanted :
    Meaning → KeyModifierState → InputEvent → Option (KeyModifierFlags × List KeyAction)
wanted f s ev = if is_key_event ev.event_code then f (trigger s ev) else none

-- The answer to an event while `s` are held: it is passed on, and the modifiers follow it, or what is
-- wanted comes under exactly its own modifiers, and afterwards every modifier is as it was.
pub data Answer (f : Meaning) (s : KeyModifierState) (ev : InputEvent)
    : List Effect → KeyModifierState → Type 0 where
  passed :
      wanted f s ev ≡ none → Answer f s ev (sent ev ∷ []) (update_modifiers s (from_input_ev ev))
  remapped :
      (to : KeyModifierFlags) (body : List KeyAction) (es : List Effect)
      → wanted f s ev ≡ some (to, body)
      → Remaps s to body es
      → Answer f s ev es s

messages_of-plain : (acts : List KeyAction) → messages_of (plain_effects acts) ≡ []
messages_of-plain [] = refl
messages_of-plain (a ∷ acts) = messages_of-plain acts

pub receive-after_round :
    (s : Program) (i : Incoming) (d : Daemon)
    → round (emptied s.daemon) i ≡ d
    → receive s i ≡ after_round s d
unfolding receive
receive-after_round s i d e = ap (after_round s) e

messages_of-append :
    (es fs : List Effect) → messages_of (es ++ fs) ≡ messages_of es ++ messages_of fs
messages_of-append [] fs = refl
messages_of-append (message msg ∷ es) fs = ap (λ l. msg ∷ l) (messages_of-append es fs)
messages_of-append (sent ev ∷ es) fs = messages_of-append es fs
messages_of-append (slept n ∷ es) fs = messages_of-append es fs

pub effects_of-quiet :
    (s : KeyModifierState) (acts : List Act) → messages_of (effects_of s acts) ≡ []
effects_of-quiet s [] = refl
effects_of-quiet s (tap a ∷ acts) = effects_of-quiet s acts
effects_of-quiet s (restore from to v ∷ acts) =
    rw
      (
        messages_of-append (plain_effects (release_restore from to v s)) (effects_of s acts),
        messages_of-plain (release_restore from to v s),
      )
      (effects_of-quiet s acts)

module _ (f : Meaning) where
  -- The program has nothing left to do, its table has what is wanted, and the modifiers that
  -- applications see are those that the daemon believes held.
  pub record Steady (s : Program) : Type 0 where
    pub live : s.daemon.exited ≡ none
    pub idle : s.pending ≡ []
    pub quiet : s.channel ≡ []
    pub unobserved : s.daemon.window_change_handlers ≡ []
    pub all : (k : KeyActionWithMods) → Means k (lookup k s.daemon.mappings) (f k)
    pub agrees : device no_modifiers s.world.trace ≡ s.daemon.state.modifiers

  -- One task waits, which remaps for the modifiers that are held.
  pub record Waiting (s : Program) (t : Task) (k : KeyActionWithMods) : Type 0 where
    pub live : s.daemon.exited ≡ none
    pub one : s.pending ≡ t ∷ []
    pub quiet : s.channel ≡ []
    pub unobserved : s.daemon.window_change_handlers ≡ []
    pub all : (k : KeyActionWithMods) → Means k (lookup k s.daemon.mappings) (f k)
    pub agrees : device no_modifiers s.world.trace ≡ s.daemon.state.modifiers
    pub current : t.modifier_state ≡ s.daemon.state.modifiers
    pub trigger_held : k.modifiers ≡ held_flags t.modifier_state
    pub remaps : Remapping f k t.block

  mapped-Remapping :
      (k : KeyActionWithMods) (target : Block × Address)
      (o : Option (KeyModifierFlags × List KeyAction))
      → Means k (some target) o
      → f k ≡ o
      → Remapping f k target.0
  mapped-Remapping k _ _ (mapped to body target plain same) e = (to, body, plain, same, e)

  unmapped-none :
      (k : KeyActionWithMods) (o : Option (KeyModifierFlags × List KeyAction))
      → Means k none o
      → o ≡ none
  unmapped-none k _ unmapped = refl

  module _ (s : Program) (ev : InputEvent) (h : Steady s) where
    pub passed-Steady : Steady (after_round s (forward (emptied s.daemon) ev))
    passed-Steady = record {
      live = h.live;
      idle = append-nil s.pending ∙ h.idle;
      quiet = h.quiet;
      unobserved = h.unobserved;
      all = h.all;
      agrees =
          device-append no_modifiers s.world.trace _
          ∙ ap (λ m. update_modifiers m (from_input_ev ev)) h.agrees;
    }

    pub taken-Waiting :
        (target : Block × Address)
        → IsTaken (emptied s.daemon) ev target
        → let d = emptied s.daemon in
          let d' : Daemon = record d { tasks = d.tasks ++ task_for d target ∷ [] } in
          Waiting (after_round s d') (task_for d target) (from_key_action s.daemon ev)
    taken-Waiting target taken = record {
      live = h.live;
      one = ap (λ l. l ++ task_for (emptied s.daemon) target ∷ []) h.idle;
      quiet = h.quiet;
      unobserved = h.unobserved;
      all = h.all;
      agrees = ap (device no_modifiers) (append-nil s.world.trace) ∙ h.agrees;
      current = refl;
      trigger_held = refl;
      remaps =
          mapped-Remapping (from_key_action s.daemon ev) target _
            (subst (λ o. Means (from_key_action s.daemon ev) o (f (from_key_action s.daemon ev)))
              taken.1 (h.all (from_key_action s.daemon ev)))
            refl;
    }

    pub untaken-none :
        ((target : Block × Address) → ¬ IsTaken s.daemon ev target)
        → wanted f s.daemon.state.modifiers ev ≡ none
    untaken-none untaken = elim (Bool-cases (is_key_event ev.event_code)) [
      | inr other ↦ rw other refl
      | inl key ↦ elim (Option-cases (lookup (from_key_action s.daemon ev) s.daemon.mappings)) [
        | inl e ↦ rw key (
            unmapped-none (from_key_action s.daemon ev) _ (
              subst (λ o. Means (from_key_action s.daemon ev) o (f (from_key_action s.daemon ev))) e
                (h.all (from_key_action s.daemon ev))))
        | inr (target, e) ↦ absurd (untaken target (key, e))
      ]
    ]
