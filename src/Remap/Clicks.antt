-- ===== src/Remap/Clicks.antt =====
-- src/block_ext.rs, `map_key_click`: the press and the release of a click mapped to a click.
use map2_legacy.Base.{ℕ, ◌≡◌, ◌<◌, ap, sym, ◌∙◌, List, [], ◌∷◌, ◌++◌, append_assoc, arith}
use map2_legacy.Key.{
  Key, KeyClickActionWithMods, KeyModifierFlags, KeyModifierState, to_key_action, type_up,
  type_down, type_repeat,
}
use map2_legacy.Ast.{Address, Block, end, ◌⨾◌, key_mapping, mapping, ◌&◌, no_mappings}
use map2_legacy.Mapping.{action_of, action_expr, press_block, release_block, map_key_click}
use map2_legacy.Runtime.World.{Effect, World, Ambient}
use map2_legacy.Runtime.Host.{Host}
use map2_legacy.Daemon.{held_flags}
use map2_legacy.Remap.Straight.{block_of, block_of-append, effects_of, eval_block-block_of}
use map2_legacy.Remap.Device.{device}
use map2_legacy.Remap.Parts.{push_modifiers-block_of}
use map2_legacy.Remap.Around.{
  taps, opening, closing, Runs, effects_of-append, device-opening, device-around, length-opening,
  length-closing,
}
use map2_legacy.Remap.Mappings.{IsPlain}

press_block-block_of :
    (from to : KeyModifierFlags) (k : Key)
    → press_block from to k ≡ block_of (opening from to ++ taps (action_of k type_down ∷ []))
unfolding press_block
press_block-block_of from to k = simp (push_modifiers-block_of, block_of-append)

release_block-block_of :
    (from to : KeyModifierFlags) (k : Key)
    → release_block from to k ≡ block_of (taps (action_of k type_up ∷ []) ++ closing from to)
unfolding release_block
release_block-block_of from to k = simp (push_modifiers-block_of, block_of-append)

-- What a press and a later release do, where `s` holds the modifiers of the trigger: the target's
-- key goes down under exactly the target's modifiers, the release begins by letting it up, and after
-- both the modifiers are as they were.
pub record Clicks (s : KeyModifierState) (to : KeyModifierFlags) (k : Key) (es fs : List Effect)
    : Type 0 where
  pub first : List Effect
  pub pressed : es ≡ first ++ effects_of s (taps (action_of k type_down ∷ []))
  pub during : held_flags (device s first) ≡ to
  pub last : List Effect
  pub released : fs ≡ effects_of s (taps (action_of k type_up ∷ [])) ++ last
  pub restored : device s (es ++ fs) ≡ s

module _ (to : KeyModifierFlags) (k : Key) (s : KeyModifierState) where
  abbrev pressing : List Effect
  pressing = effects_of s (opening (held_flags s) to ++ taps (action_of k type_down ∷ []))

  abbrev releasing : List Effect
  releasing = effects_of s (taps (action_of k type_up ∷ []) ++ closing (held_flags s) to)

  pressing-releasing :
      pressing ++ releasing
      ≡ effects_of s (
          opening (held_flags s) to
          ++ (taps (action_of k type_down ∷ action_of k type_up ∷ []) ++ closing (held_flags s) to))
  pressing-releasing =
      let from = held_flags s in
      ap (λ l. l ++ releasing)
        (effects_of-append s (opening from to) (taps (action_of k type_down ∷ [])))
      ∙ (append_assoc (effects_of s (opening from to)) _ _
          ∙ sym (
              effects_of-append s (opening from to)
                (taps (action_of k type_down ∷ action_of k type_up ∷ []) ++ closing from to)))

  press-Clicks : IsPlain k → Clicks s to k pressing releasing
  press-Clicks plain = record {
    first = effects_of s (opening (held_flags s) to);
    pressed = effects_of-append s (opening (held_flags s) to) (taps (action_of k type_down ∷ []));
    during = device-opening to s;
    last = effects_of s (closing (held_flags s) to);
    released = effects_of-append s (taps (action_of k type_up ∷ [])) (closing (held_flags s) to);
    restored =
        ap (device s) pressing-releasing
        ∙ device-around to s (action_of k type_down ∷ action_of k type_up ∷ [])
            (plain, (plain, tt));
  }

-- A click mapped to a click: while exactly the trigger's modifiers are held and the target's key is
-- no modifier, the blocks of the press and of the release run to their ends with fuel above 15, the
-- target's key goes down under exactly the target's modifiers, the release begins by letting it up,
-- and press and release together leave the modifiers as they were.
pub map_key_click-Clicks :
    (host : Host) (n : ℕ) (scope : Address) (amb : Ambient) (w w' : World)
    (from to : KeyClickActionWithMods)
    → 15 < n
    → held_flags amb.modifier_state ≡ from.modifiers
    → IsPlain to.key
    → (press release again : Block) × (es fs : List Effect) × (map_key_click from to
        ≡ key_mapping (
            mapping (to_key_action from type_down) press
            & mapping (to_key_action from type_up) release
            & mapping (to_key_action from type_repeat) again
            & no_mappings))
      × Runs host n press scope amb w es
      × Runs host n release scope amb w' fs
      × Clicks amb.modifier_state to.modifiers to.key es fs
unfolding map_key_click
map_key_click-Clicks host n scope amb w w' from to fuel held plain =
    let s = amb.modifier_state in
    let f = held_flags s in
    (
      press_block f to.modifiers to.key,
      release_block f to.modifiers to.key,
      action_expr to.key type_repeat ⨾ end,
      pressing to.modifiers to.key s,
      releasing to.modifiers to.key s,
      ap
          (λ g. key_mapping (
            mapping (to_key_action from type_down) (press_block g to.modifiers to.key)
            & mapping (to_key_action from type_up) (release_block g to.modifiers to.key)
            & mapping (to_key_action from type_repeat) (action_expr to.key type_repeat ⨾ end)
            & no_mappings))
          (sym held),
      rw (press_block-block_of f to.modifiers to.key) (
          eval_block-block_of host amb n
            (opening f to.modifiers ++ taps (action_of to.key type_down ∷ [])) scope w
            (omega
              (arith, length-opening f to.modifiers (taps (action_of to.key type_down ∷ []))))),
      rw (release_block-block_of f to.modifiers to.key) (
          eval_block-block_of host amb n
            (taps (action_of to.key type_up ∷ []) ++ closing f to.modifiers) scope w'
            (omega (arith, length-closing f to.modifiers (taps (action_of to.key type_up ∷ []))))),
      press-Clicks to.modifiers to.key s plain,
    )
