-- ===== src/Tests/Remaps.antt =====
-- src/block_ext.rs at concrete inputs: `^a` remapped to `!b` while the right control key is held.
use map2_legacy.Base.{true, ◌≡◌, refl, List, [], ◌∷◌, arith}
use map2_legacy.Key.{no_modifiers, mods_eq, to_key_action}
use map2_legacy.Modifiers.Tracking.{left_ctrl, update_all}
use map2_legacy.Remap.Triggers.{listens, listens-inline_mapping}
use map2_legacy.Remap.Observer.{observed}
use map2_legacy.Remap.Sequences.{to_key_actions-AllPlain}
use map2_legacy.Ast.{Block, key_mapping, mapping, ◌&◌, no_mappings}
use map2_legacy.Mapping.{
  action, click, inline_mapping, to_key_actions, action_of, map_key_click, map_key_action_action,
  map_key_action_click,
}
use map2_legacy.Runtime.World.{Effect}
use map2_legacy.Remap.Around.{Runs, Remaps}
use map2_legacy.Remap.Mappings.{IsPlain, map_key_action_action-Remaps, map_key_action_click-Remaps}
use map2_legacy.Remap.Clicks.{Clicks, map_key_click-Clicks}
use map2_legacy.Tests.Samples.{
  toy_host, key_a, key_b, only_ctrl, only_alt, right_ctrl_held, ctrl_a, alt_b, ctrl_a_down,
  alt_b_down, ambient, empty_world,
}

pub key_b-IsPlain : IsPlain key_b
key_b-IsPlain = elim [ left_ctrl ↦ refl | _ ↦ refl ]

key_a-IsPlain : IsPlain key_a
key_a-IsPlain = elim [ left_ctrl ↦ refl | _ ↦ refl ]

map_key_click-Clicks_example :
    (press release again : Block) × (es fs : List Effect) × (map_key_click ctrl_a alt_b
      ≡ key_mapping (
          mapping (to_key_action ctrl_a 1) press
          & mapping (to_key_action ctrl_a 0) release
          & mapping (to_key_action ctrl_a 2) again
          & no_mappings))
    × Runs toy_host 16 press 0 ambient empty_world es
    × Runs toy_host 16 release 0 ambient empty_world fs
    × Clicks right_ctrl_held only_alt key_b es fs
map_key_click-Clicks_example =
    map_key_click-Clicks toy_host 16 0 ambient empty_world empty_world ctrl_a alt_b (omega arith)
      refl key_b-IsPlain

map_key_action_action-Remaps_example :
    (b : Block) × (es : List Effect) × (map_key_action_action ctrl_a_down alt_b_down
      ≡ key_mapping (mapping ctrl_a_down b & no_mappings))
    × Runs toy_host 16 b 0 ambient empty_world es
    × Remaps right_ctrl_held only_alt (action_of key_b 1 ∷ []) es
map_key_action_action-Remaps_example =
    map_key_action_action-Remaps toy_host 16 0 ambient empty_world (omega arith) ctrl_a_down
      alt_b_down refl key_b-IsPlain

map_key_action_click-Remaps_example :
    (b : Block) × (es : List Effect) × (map_key_action_click ctrl_a_down alt_b
      ≡ key_mapping (mapping ctrl_a_down b & no_mappings))
    × Runs toy_host 16 b 0 ambient empty_world es
    × Remaps right_ctrl_held only_alt (action_of key_b 1 ∷ action_of key_b 0 ∷ []) es
map_key_action_click-Remaps_example =
    map_key_action_click-Remaps toy_host 16 0 ambient empty_world (omega arith) ctrl_a_down alt_b
      refl key_b-IsPlain

-- `^a::!b` takes the press of `a` with control held.
listens-inline_mapping_example :
    listens ctrl_a_down (inline_mapping (click ctrl_a) (click alt_b ∷ [])) ≡ true
listens-inline_mapping_example = listens-inline_mapping ctrl_a (click alt_b ∷ []) ctrl_a_down

to_key_actions-AllPlain_example :
    (observed no_modifiers (to_key_actions (click alt_b ∷ action ctrl_a_down ∷ []))
      ≡ (action_of key_b 1, only_alt)
        ∷ (action_of key_b 0, only_alt)
        ∷ (action_of key_a 1, only_ctrl)
        ∷ [])
    × (update_all no_modifiers (to_key_actions (click alt_b ∷ action ctrl_a_down ∷ []))
        ≡ no_modifiers)
to_key_actions-AllPlain_example =
    to_key_actions-AllPlain (click alt_b ∷ action ctrl_a_down ∷ [])
      (key_b-IsPlain, (key_a-IsPlain, tt))
