-- ===== src/Modifiers/Defs.antt =====
-- src/event_handlers.rs, `update_modifiers`: the loop over the eight modifier keys.
use map2_legacy.Base.{List, [], ◌∷◌, Bool, true, false, not, ◌&&◌, ◌==◌, nat_eq, if◌then◌else◌}
use map2_legacy.Key.{
  Key, KeyModifierState, KeyAction, code_eq, type_up, type_down, key_left_ctrl, key_right_ctrl,
  key_left_alt, key_right_alt, key_left_shift, key_right_shift, key_left_meta, key_right_meta,
}

-- A row of the table `pairs`: the key, the accessor and the setter of its field.
pub record ModifierPair : Type 0 where
  pub key : Key
  pub is_down : KeyModifierState → Bool
  pub set_down : KeyModifierState → Bool → KeyModifierState

abbrev pub modifier_pairs : List ModifierPair
modifier_pairs =
    record {
      key = key_left_ctrl;
      is_down = λ s. s.left_ctrl;
      set_down = λ s b. record s { left_ctrl = b };
    }
    ∷ record {
      key = key_right_ctrl;
      is_down = λ s. s.right_ctrl;
      set_down = λ s b. record s { right_ctrl = b };
    }
    ∷ record {
      key = key_left_alt;
      is_down = λ s. s.left_alt;
      set_down = λ s b. record s { left_alt = b };
    }
    ∷ record {
      key = key_right_alt;
      is_down = λ s. s.right_alt;
      set_down = λ s b. record s { right_alt = b };
    }
    ∷ record {
      key = key_left_shift;
      is_down = λ s. s.left_shift;
      set_down = λ s b. record s { left_shift = b };
    }
    ∷ record {
      key = key_right_shift;
      is_down = λ s. s.right_shift;
      set_down = λ s b. record s { right_shift = b };
    }
    ∷ record {
      key = key_left_meta;
      is_down = λ s. s.left_meta;
      set_down = λ s b. record s { left_meta = b };
    }
    ∷ record {
      key = key_right_meta;
      is_down = λ s. s.right_meta;
      set_down = λ s b. record s { right_meta = b };
    }
    ∷ []

-- The `for` loop, with its two early returns.
unfoldable pub update_loop : List ModifierPair → KeyModifierState → KeyAction → KeyModifierState
update_loop [] s a = s
update_loop (p ∷ ps) s a =
    let rest = update_loop ps s a in
    let hit = a.key.event_code == p.key.event_code in
    if hit && a.value == type_down && not (p.is_down s)
    then p.set_down s true
    else if hit && a.value == type_up
    then p.set_down s false
    else rest

unfoldable pub update_modifiers : KeyModifierState → KeyAction → KeyModifierState
unfolding update_loop
update_modifiers s a = update_loop modifier_pairs s a
