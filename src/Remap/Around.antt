-- ===== src/Remap/Around.antt =====
-- The block that `around` builds, run by the evaluator.
use mathlib.Core.Path.{ap₂}
use map2_legacy.Base.{
  ℕ, ◌≡◌, ◌+◌, ◌≤◌, ◌<◌, refl, ap, sym, ◌∙◌, List, [], ◌∷◌, ◌++◌, map, Bool, not, ◌&&◌,
  append_assoc, append-nil, length, length-append, arith, some,
}
use map2_legacy.Key.{KeyAction, KeyModifierFlags, KeyModifierState, type_up, type_down}
use map2_legacy.Modifiers.Tracking.{update_all}
use map2_legacy.Ast.{Address, Block}
use map2_legacy.Mapping.{around}
use map2_legacy.Runtime.World.{Effect, World, Ambient, done, fell_through}
use map2_legacy.Runtime.Host.{Host}
use map2_legacy.Runtime.Eval.{eval_block}
use map2_legacy.Daemon.{held_flags}
use map2_legacy.Remap.Straight.{
  Act, tap, restore, block_of, block_of-append, act_effects, act_actions, effects_of,
  eval_block-block_of,
}
use map2_legacy.Remap.Device.{device, actions_of, device-effects_of}
use map2_legacy.Remap.Parts.{pushed, push_actions, push_modifiers-block_of}
use map2_legacy.Remap.Balance.{before, behind, NoModifiers, held_flags-before, update_all-balanced}

abbrev pub taps : List KeyAction → List Act
taps acts = map tap acts

-- The two halves of such a block, before and after its body.
abbrev pub opening : KeyModifierFlags → KeyModifierFlags → List Act
opening from to = restore from to type_up ∷ taps (pushed from to type_down)

abbrev pub closing : KeyModifierFlags → KeyModifierFlags → List Act
closing from to = taps (pushed from to type_up) ++ restore from to type_down ∷ []

pub around-block_of :
    (from to : KeyModifierFlags) (body : List KeyAction)
    → around from to (block_of (taps body))
      ≡ block_of (opening from to ++ (taps body ++ closing from to))
unfolding around
around-block_of from to body = simp (push_modifiers-block_of, block_of-append)

pub effects_of-append :
    (s : KeyModifierState) (xs ys : List Act)
    → effects_of s (xs ++ ys) ≡ effects_of s xs ++ effects_of s ys
effects_of-append s [] ys = refl
effects_of-append s (x ∷ xs) ys =
    rw (effects_of-append s xs ys) (sym (append_assoc (act_effects s x) _ _))

actions_of-append :
    (s : KeyModifierState) (xs ys : List Act)
    → actions_of s (xs ++ ys) ≡ actions_of s xs ++ actions_of s ys
actions_of-append s [] ys = refl
actions_of-append s (x ∷ xs) ys =
    rw (actions_of-append s xs ys) (sym (append_assoc (act_actions s x) _ _))

actions_of-taps : (s : KeyModifierState) (acts : List KeyAction) → actions_of s (taps acts) ≡ acts
actions_of-taps s [] = refl
actions_of-taps s (a ∷ acts) = ap (λ l. a ∷ l) (actions_of-taps s acts)

module _ (from to : KeyModifierFlags) (s : KeyModifierState) where
  pub actions_of-opening : actions_of s (opening from to) ≡ before from to s
  unfolding before
  actions_of-opening = rw (actions_of-taps s (pushed from to type_down))

  pub actions_of-closing : actions_of s (closing from to) ≡ behind from to s
  unfolding behind
  actions_of-closing =
      actions_of-append s (taps (pushed from to type_up)) (restore from to type_down ∷ [])
      ∙ rw (actions_of-taps s (pushed from to type_up), append-nil)

length-pushed : (from to : KeyModifierFlags) (v : ℕ) → length (taps (pushed from to v)) ≤ 4
unfolding pushed
length-pushed from to v =
    go (not from.ctrl && to.ctrl) (not from.alt && to.alt) (not from.shift && to.shift)
      (not from.meta && to.meta)
  where
    go : (c a s m : Bool) → length (taps (push_actions c a s m v)) ≤ 4
    go c a s m = ground arith

-- The effects `es` of a remapping: its target `body` comes under exactly the modifiers `to`, and
-- afterwards every modifier is as it was.
pub record Remaps (s : KeyModifierState) (to : KeyModifierFlags) (body : List KeyAction)
    (es : List Effect) : Type 0 where
  pub first : List Effect
  pub last : List Effect
  pub splits : es ≡ first ++ (effects_of s (taps body) ++ last)
  pub during : held_flags (device s first) ≡ to
  pub restored : device s es ≡ s

module _ (to : KeyModifierFlags) (s : KeyModifierState) where
  pub device-opening : held_flags (device s (effects_of s (opening (held_flags s) to))) ≡ to
  device-opening =
      ap held_flags (
        device-effects_of s s (opening (held_flags s) to)
        ∙ ap (update_all s) (actions_of-opening (held_flags s) to s))
      ∙ held_flags-before to s

  actions_of-around :
      (body : List KeyAction)
      → let from = held_flags s in
        actions_of s (opening from to ++ (taps body ++ closing from to))
        ≡ before from to s ++ (body ++ behind from to s)
  actions_of-around body =
      let from = held_flags s in
      actions_of-append s (opening from to) (taps body ++ closing from to)
      ∙ ap₂ ◌++◌ (actions_of-opening from to s) (
          actions_of-append s (taps body) (closing from to)
          ∙ ap₂ ◌++◌ (actions_of-taps s body) (actions_of-closing from to s))

  pub device-around :
      (body : List KeyAction)
      → NoModifiers body
      → device s
          (effects_of s (opening (held_flags s) to ++ (taps body ++ closing (held_flags s) to)))
        ≡ s
  device-around body plain =
      let from = held_flags s in
      device-effects_of s s (opening from to ++ (taps body ++ closing from to))
      ∙ (ap (update_all s) (actions_of-around body) ∙ update_all-balanced to s body plain)

length-acts : (xs ys : List Act) → length (xs ++ ys) ≡ length xs + length ys
length-acts = length-append

length-around :
    (from to : KeyModifierFlags) (body : List KeyAction)
    → length (opening from to ++ (taps body ++ closing from to)) ≤ length (taps body) + 10
length-around from to body = omega (
  arith,
  length-acts (taps (pushed from to type_down)) (taps body ++ closing from to),
  length-acts (taps body) (closing from to),
  length-acts (taps (pushed from to type_up)) (restore from to type_down ∷ []),
  length-pushed from to type_down,
  length-pushed from to type_up,
)

pub length-opening :
    (from to : KeyModifierFlags) (xs : List Act) → length (opening from to ++ xs) ≤ length xs + 5
length-opening from to xs =
    omega (arith, length-acts (taps (pushed from to type_down)) xs, length-pushed from to type_down)

pub length-closing :
    (from to : KeyModifierFlags) (xs : List Act) → length (xs ++ closing from to) ≤ length xs + 5
length-closing from to xs = omega (
  arith,
  length-acts xs (closing from to),
  length-acts (taps (pushed from to type_up)) (restore from to type_down ∷ []),
  length-pushed from to type_up,
)

-- What running the block adds to the world.
abbrev pub Runs : Host → ℕ → Block → Address → Ambient → World → List Effect → Type 0
Runs host n b scope amb w es =
    eval_block host n b scope amb w
    ≡ done fell_through (record {
      store = w.store ++ record { scope_values = []; parent = some scope } ∷ [];
      trace = w.trace ++ es;
    })

abbrev pub around_acts : KeyModifierFlags → KeyModifierFlags → List KeyAction → List Act
around_acts from to body = opening from to ++ (taps body ++ closing from to)

module _ (to : KeyModifierFlags) (body : List KeyAction) where
  pub around_acts-Remaps :
      (s : KeyModifierState)
      → NoModifiers body
      → Remaps s to body (effects_of s (around_acts (held_flags s) to body))
  around_acts-Remaps s plain =
      let from = held_flags s in
      record {
        first = effects_of s (opening from to);
        last = effects_of s (closing from to);
        splits =
            effects_of-append s (opening from to) (taps body ++ closing from to)
            ∙ ap (λ l. effects_of s (opening from to) ++ l)
                (effects_of-append s (taps body) (closing from to));
        during = device-opening to s;
        restored = device-around to s body plain;
      }

  pub around_acts-Runs :
      (host : Host) (n : ℕ) (from : KeyModifierFlags) (scope : Address) (amb : Ambient) (w : World)
      → length (taps body) + 13 < n
      → Runs host n
          (around from to (block_of (taps body)))
          scope
          amb
          w
          (effects_of amb.modifier_state (around_acts from to body))
  around_acts-Runs host n from scope amb w fuel = rw (around-block_of from to body) (
      eval_block-block_of host amb n (around_acts from to body) scope w
        (omega (arith, length-around from to body)))

  -- With the trigger's modifiers held, the block runs to its end and remaps to its body.
  pub around-Runs :
      (host : Host) (n : ℕ) (scope : Address) (amb : Ambient) (w : World)
      → NoModifiers body
      → length (taps body) + 13 < n
      → (es : List Effect) × Runs host n
          (around (held_flags amb.modifier_state) to (block_of (taps body)))
          scope
          amb
          w
          es
        × Remaps amb.modifier_state to body es
  around-Runs host n scope amb w plain fuel =
      (_, around_acts-Runs host n _ scope amb w fuel, around_acts-Remaps amb.modifier_state plain)
