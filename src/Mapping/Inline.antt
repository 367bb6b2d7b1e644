-- ===== src/Mapping/Inline.antt =====
-- src/parsing/key_mapping.rs: the key mappings that `from::to` and `from::{ .. }` stand for, once their
-- parts are parsed.
use map2_legacy.Base.{List, [], ◌∷◌}
use map2_legacy.Key.{KeyAction}
use map2_legacy.Ast.{Expr, key_action, expr, Block, end, ◌⨾◌}
use map2_legacy.Mapping.Defs.{
  ParsedKeyAction, action, click, to_key_actions, map_key_click_block, map_key_block,
  map_key_action_action, map_key_click_action, map_key_action_click, map_key_click,
}

-- One statement for each action.
abbrev pub action_block : List KeyAction → Block
action_block [] = end
action_block (a ∷ as') = expr (key_action a) ⨾ action_block as'

-- The closure of `key_mapping_inline`.
unfoldable pub inline_mapping : ParsedKeyAction → List ParsedKeyAction → Expr
unfolding to_key_actions map_key_click_block map_key_block map_key_action_action
    map_key_click_action map_key_action_click map_key_click
inline_mapping (action from) (click to ∷ []) = map_key_action_click from to
inline_mapping (action from) (action to ∷ []) = map_key_action_action from to
inline_mapping (action from) to = map_key_block from (action_block (to_key_actions to))
inline_mapping (click from) (click to ∷ []) = map_key_click from to
inline_mapping (click from) (action to ∷ []) = map_key_click_action from to
inline_mapping (click from) to = map_key_click_block from (action_block (to_key_actions to))

-- The closure of `key_mapping`.
unfoldable pub block_mapping : ParsedKeyAction → Block → Expr
unfolding map_key_click_block map_key_block
block_mapping (click from) to = map_key_click_block from to
block_mapping (action from) to = map_key_block from to
