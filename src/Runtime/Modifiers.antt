-- ===== src/Runtime/Modifiers.antt =====
-- src/runtime/evaluation.rs, `Expr::ReleaseRestoreModifiers`.
use map2_legacy.Base.{ℕ, List, [], ◌++◌, Bool, not, ◌&&◌, nat_beq, if◌then◌else◌}
use map2_legacy.Key.{
  Key, KeyAction, KeyModifierFlags, KeyModifierState, key_left_ctrl, key_right_ctrl, key_left_alt,
  key_right_alt, key_left_shift, key_right_shift, key_left_meta, key_right_meta,
}
use map2_legacy.Mapping.{cons_if}

-- The closure `release_or_restore_modifier`: its two branches do the same.
unfoldable pub release_or_restore : Bool → Key → ℕ → List KeyAction
release_or_restore is_actual_down key to_type =
    if nat_beq to_type 1
    then cons_if is_actual_down (record { key = key; value = to_type }) []
    else cons_if is_actual_down (record { key = key; value = to_type }) []

-- One of the four `if`s: the left and the right key of a modifier, where only the trigger has it.
unfoldable pub release_pair : Bool → Bool → Key → Bool → Key → ℕ → List KeyAction
unfolding release_or_restore
release_pair only_from left left_key right right_key v =
    if only_from
    then release_or_restore left left_key v ++ release_or_restore right right_key v
    else []

-- The actions that are sent, in order.
unfoldable pub release_restore :
    KeyModifierFlags → KeyModifierFlags → ℕ → KeyModifierState → List KeyAction
release_restore from to v s =
    release_pair (from.ctrl && not to.ctrl) s.left_ctrl key_left_ctrl s.right_ctrl key_right_ctrl v
    ++ (release_pair (from.shift && not to.shift) s.left_shift key_left_shift s.right_shift
          key_right_shift v
        ++ (release_pair (from.alt && not to.alt) s.left_alt key_left_alt s.right_alt key_right_alt
              v
            ++ release_pair (from.meta && not to.meta) s.left_meta key_left_meta s.right_meta
                key_right_meta v))
