-- ===== src/Remap/Mappings.antt =====
-- src/block_ext.rs: what the mappings of a remapping do when they are run.
use map2_legacy.Base.{ℕ, ◌≡◌, ◌<◌, ap, sym, List, [], ◌∷◌, false, arith, ◌==◌}
use map2_legacy.Key.{
  Key, KeyActionWithMods, KeyClickActionWithMods, key_eq, mods_eq, type_up, type_down,
}
use map2_legacy.Modifiers.Tracking.{Modifier, key_for}
use map2_legacy.Ast.{Address, Block, key_mapping, mapping, ◌&◌, no_mappings}
use map2_legacy.Mapping.{around, action_of, map_key_action_action, map_key_action_click}
use map2_legacy.Runtime.World.{Effect, World, Ambient}
use map2_legacy.Runtime.Host.{Host}
use map2_legacy.Daemon.{held_flags}
use map2_legacy.Remap.Straight.{block_of}
use map2_legacy.Remap.Around.{taps, Remaps, Runs, around-Runs}

-- A key that is none of the modifier keys.
abbrev pub IsPlain : Key → Type 0
IsPlain k = (m : Modifier) → (k == key_for m) ≡ false

module _ (host : Host) (n : ℕ) (scope : Address) (amb : Ambient) (w : World) (fuel : 15 < n) where
  -- An action mapped to an action: while exactly the trigger's modifiers are held and the target's
  -- key is no modifier, the block of its one mapping runs to its end with fuel above 15, sends the
  -- target under exactly the target's modifiers, and leaves the modifiers as they were.
  pub map_key_action_action-Remaps :
      (from to : KeyActionWithMods)
      → held_flags amb.modifier_state ≡ from.modifiers
      → IsPlain to.key
      → (b : Block) × (es : List Effect) × (map_key_action_action from to
          ≡ key_mapping (mapping from b & no_mappings))
        × Runs host n b scope amb w es
        × Remaps amb.modifier_state to.modifiers (action_of to.key to.value ∷ []) es
  unfolding map_key_action_action
  map_key_action_action-Remaps from to held plain =
      let body = action_of to.key to.value ∷ [] in
      let (es, runs, remaps) =
        around-Runs to.modifiers body host n scope amb w (plain, tt) (omega arith) in
      (
        around (held_flags amb.modifier_state) to.modifiers (block_of (taps body)),
        es,
        ap
            (λ f.
              key_mapping
                (mapping from (around f to.modifiers (block_of (taps body))) & no_mappings))
            (sym held),
        runs,
        remaps,
      )

  -- An action mapped to a click: while exactly the trigger's modifiers are held and the target's
  -- key is no modifier, the block of its one mapping runs to its end with fuel above 15, presses
  -- and releases the target under exactly its modifiers, and leaves the modifiers as they were.
  pub map_key_action_click-Remaps :
      (from : KeyActionWithMods) (to : KeyClickActionWithMods)
      → held_flags amb.modifier_state ≡ from.modifiers
      → IsPlain to.key
      → (b : Block) × (es : List Effect) × (map_key_action_click from to
          ≡ key_mapping (mapping from b & no_mappings))
        × Runs host n b scope amb w es
        × Remaps amb.modifier_state to.modifiers
            (action_of to.key type_down ∷ action_of to.key type_up ∷ [])
            es
  unfolding map_key_action_click
  map_key_action_click-Remaps from to held plain =
      let body = action_of to.key type_down ∷ action_of to.key type_up ∷ [] in
      let (es, runs, remaps) =
        around-Runs to.modifiers body host n scope amb w (plain, (plain, tt)) (omega arith) in
      (
        around (held_flags amb.modifier_state) to.modifiers (block_of (taps body)),
        es,
        ap
            (λ f.
              key_mapping
                (mapping from (around f to.modifiers (block_of (taps body))) & no_mappings))
            (sym held),
        runs,
        remaps,
      )
