-- ===== src/Mapping/Defs.antt =====
-- src/block_ext.rs: from a trigger and a target to the mappings that the runtime registers. The
-- source pushes statements one by one; here they are joined in the same order.
use map2_legacy.Base.{ℕ, List, [], ◌∷◌, ◌++◌, Bool, not, ◌&&◌, if◌then◌else◌}
use map2_legacy.Key.{
  Key, KeyAction, KeyActionWithMods, KeyClickActionWithMods, KeyModifierFlags, no_flags, type_up,
  type_down, type_repeat, key_left_ctrl, key_left_alt, key_left_shift, key_left_meta,
}
use map2_legacy.Ast.{
  Expr, no_mappings, ◌&◌, mapping, Stmt, expr, Block, end, ◌⨾◌, ◌+++◌, key_mapping, key_action,
  release_restore_modifiers,
}

abbrev pub action_expr : Key → ℕ → Stmt
action_expr k v = expr (key_action (record { key = k; value = v }))

-- `if test { block.push_expr(Expr::KeyAction(..)) }`.
abbrev pub push_if : Bool → Key → ℕ → Block → Block
push_if test k v b = if test then action_expr k v ⨾ b else b

-- The four tests before the target (`TYPE_DOWN`) and the four after it (`TYPE_UP`).
unfoldable pub push_modifiers : KeyModifierFlags → KeyModifierFlags → ℕ → Block
push_modifiers from to v = push_if (not from.ctrl && to.ctrl) key_left_ctrl v (
    push_if (not from.alt && to.alt) key_left_alt v (
      push_if (not from.shift && to.shift) key_left_shift v
        (push_if (not from.meta && to.meta) key_left_meta v end)))

-- A block that releases what the trigger held, presses what the target wants, runs `body`, and
-- undoes both.
unfoldable pub around : KeyModifierFlags → KeyModifierFlags → Block → Block
unfolding push_modifiers
around from to body =
    expr (release_restore_modifiers from to type_up)
    ⨾ (push_modifiers from to type_down
        +++ (body
            +++ (push_modifiers from to type_up
                +++ expr (release_restore_modifiers from to type_down) ⨾ end)))

unfoldable pub map_key_click_block : KeyClickActionWithMods → Block → Expr
map_key_click_block from to =
    let body = expr (release_restore_modifiers from.modifiers no_flags type_up) ⨾ to in
    let on = λ (v : ℕ).
      let a : KeyActionWithMods = record {
        key = from.key;
        value = v;
        modifiers = from.modifiers;
      } in
      a in
    key_mapping (
      mapping (on type_down) body
      & mapping (on type_repeat) end
      & mapping (on type_up) end
      & no_mappings)

unfoldable pub map_key_block : KeyActionWithMods → Block → Expr
map_key_block from to =
    let body = expr (release_restore_modifiers from.modifiers no_flags type_up) ⨾ to in
    key_mapping (mapping from body & no_mappings)

unfoldable pub map_key_action_action : KeyActionWithMods → KeyActionWithMods → Expr
unfolding around
map_key_action_action from to = key_mapping (
    mapping from (around from.modifiers to.modifiers (action_expr to.key to.value ⨾ end))
    & no_mappings)

-- The triggers take no modifiers, whatever `from` says.
unfoldable pub map_key_click_action : KeyClickActionWithMods → KeyActionWithMods → Expr
unfolding around
map_key_click_action from to =
    let on = λ (v : ℕ).
      let a : KeyActionWithMods = record { key = from.key; value = v; modifiers = no_flags } in a in
    key_mapping (
      mapping (on type_down)
        (around from.modifiers to.modifiers (action_expr to.key to.value ⨾ end))
      & mapping (on type_repeat) end
      & mapping (on type_up) end
      & no_mappings)

unfoldable pub map_key_action_click : KeyActionWithMods → KeyClickActionWithMods → Expr
unfolding around
map_key_action_click from to = key_mapping (
    mapping from (
      around from.modifiers to.modifiers
        (action_expr to.key type_down ⨾ action_expr to.key type_up ⨾ end))
    & no_mappings)

-- The block of the press, and that of the release, of a click mapped to a click.
unfoldable pub press_block : KeyModifierFlags → KeyModifierFlags → Key → Block
unfolding push_modifiers
press_block from to key =
    expr (release_restore_modifiers from to type_up)
    ⨾ (push_modifiers from to type_down +++ action_expr key type_down ⨾ end)

unfoldable pub release_block : KeyModifierFlags → KeyModifierFlags → Key → Block
unfolding push_modifiers
release_block from to key =
    action_expr key type_up
    ⨾ (push_modifiers from to type_up +++ expr (release_restore_modifiers from to type_down) ⨾ end)

unfoldable pub map_key_click : KeyClickActionWithMods → KeyClickActionWithMods → Expr
unfolding press_block release_block
map_key_click from to =
    let on = λ (v : ℕ).
      let a : KeyActionWithMods = record {
        key = from.key;
        value = v;
        modifiers = from.modifiers;
      } in
      a in
    key_mapping (
      mapping (on type_down) (press_block from.modifiers to.modifiers to.key)
      & mapping (on type_up) (release_block from.modifiers to.modifiers to.key)
      & mapping (on type_repeat) (action_expr to.key type_repeat ⨾ end)
      & no_mappings)

-- src/parsing/key_action.rs, `ParsedKeyAction` and `to_key_actions`.
pub data ParsedKeyAction : Type 0 where
  action : KeyActionWithMods → ParsedKeyAction
  click : KeyClickActionWithMods → ParsedKeyAction

abbrev pub action_of : Key → ℕ → KeyAction
action_of k v = record { key = k; value = v }

abbrev pub cons_if : Bool → KeyAction → List KeyAction → List KeyAction
cons_if test a l = if test then a ∷ l else l

abbrev pub modifier_actions : KeyModifierFlags → ℕ → List KeyAction
modifier_actions m v = cons_if m.ctrl (action_of key_left_ctrl v) (
    cons_if m.shift (action_of key_left_shift v)
      (cons_if m.alt (action_of key_left_alt v) (cons_if m.meta (action_of key_left_meta v) [])))

abbrev pub key_actions_of : ParsedKeyAction → List KeyAction
key_actions_of (action a) =
    modifier_actions a.modifiers type_down
    ++ (action_of a.key a.value ∷ modifier_actions a.modifiers type_up)
key_actions_of (click c) =
    modifier_actions c.modifiers type_down
    ++ (action_of c.key type_down ∷ action_of c.key type_up ∷ modifier_actions c.modifiers type_up)

unfoldable pub to_key_actions : List ParsedKeyAction → List KeyAction
to_key_actions [] = []
to_key_actions (p ∷ ps) = key_actions_of p ++ to_key_actions ps
