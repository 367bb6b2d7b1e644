-- ===== src/Remap/Triggers.antt =====
-- src/parsing/key_mapping.rs with src/block_ext.rs: the events that an inline mapping listens for.
use map2_legacy.Base.{
  ◌≡◌, refl, ◌∙◌, ℕ, List, [], ◌∷◌, Bool, true, false, ◌&&◌, ◌||◌, Option, none, some, ◌==◌,
  nat_beq, lookup, arith, if◌then◌else◌,
}
use map2_legacy.Key.{
  KeyActionWithMods, KeyClickActionWithMods, KeyModifierFlags, no_flags, key_beq, flags_beq,
  mods_eq, type_up, type_down, type_repeat,
}
use map2_legacy.Ast.{Block, Expr, key_mapping, mapping_list}
use map2_legacy.Mapping.{ParsedKeyAction, action, click, inline_mapping}

abbrev is_some : Option Block → Bool
is_some none = false
is_some (some _) = true

-- Whether an expression is a mapping that takes an event, given with the modifiers held.
abbrev pub listens : KeyActionWithMods → Expr → Bool
listens k (key_mapping ms) = is_some (lookup k (mapping_list ms))
listens k _ = false

-- The modifiers that the triggers of a click take: those written, except before a single action.
abbrev pub trigger_flags : KeyClickActionWithMods → List ParsedKeyAction → KeyModifierFlags
trigger_flags from (action _ ∷ []) = no_flags
trigger_flags from _ = from.modifiers

-- A press, a release or a repeat.
abbrev pub is_key_value : ℕ → Bool
is_key_value v = nat_beq v type_up || (nat_beq v type_down || nat_beq v type_repeat)

is_some-lookup :
    (a b c k : KeyActionWithMods) (x y z : Block)
    → is_some (lookup k ((a, x) ∷ (b, y) ∷ (c, z) ∷ [])) ≡ ((a == k) || ((b == k) || (c == k)))
is_some-lookup a b c k x y z = go (a == k) (b == k) (c == k)
  where
    go :
        (p q r : Bool)
        → is_some (if p then some x else if q then some y else if r then some z else none)
          ≡ (p || (q || r))
    go true q r = refl
    go false true r = refl
    go false false true = refl
    go false false false = refl

three_values :
    (from : KeyClickActionWithMods) (f : KeyModifierFlags) (k : KeyActionWithMods)
    → let on : ℕ → KeyActionWithMods = λ v. record { key = from.key; value = v; modifiers = f } in
      ((on type_down == k) || ((on type_up == k) || (on type_repeat == k)))
      ≡ (key_beq from.key k.key && (is_key_value k.value && flags_beq f k.modifiers))
three_values from f k = ground arith

or_swap : (p q r : Bool) → (p || (q || r)) ≡ (p || (r || q))
or_swap p q r = ground arith

module _ (from : KeyClickActionWithMods) (f : KeyModifierFlags) (k : KeyActionWithMods)
    (x y z : Block) where
  abbrev on : ℕ → KeyActionWithMods
  on v = record { key = from.key; value = v; modifiers = f }

  abbrev takes : Bool
  takes = key_beq from.key k.key && (is_key_value k.value && flags_beq f k.modifiers)

  -- The two orders of the three triggers.
  up_second :
      is_some (lookup k ((on type_down, x) ∷ (on type_up, y) ∷ (on type_repeat, z) ∷ [])) ≡ takes
  up_second =
      is_some-lookup (on type_down) (on type_up) (on type_repeat) k x y z ∙ three_values from f k

  up_last :
      is_some (lookup k ((on type_down, x) ∷ (on type_repeat, y) ∷ (on type_up, z) ∷ [])) ≡ takes
  up_last =
      is_some-lookup (on type_down) (on type_repeat) (on type_up) k x y z
      ∙ (or_swap (on type_down == k) (on type_repeat == k) (on type_up == k)
          ∙ three_values from f k)

-- An inline mapping of a click takes an event exactly if it is a press, a release or a repeat of
-- the key of the click and the modifiers held are those written with it; but before a single action
-- none may be held.
pub listens-inline_mapping :
    (from : KeyClickActionWithMods) (to : List ParsedKeyAction) (k : KeyActionWithMods)
    → listens k (inline_mapping (click from) to) ≡ (
        key_beq from.key k.key
        && (is_key_value k.value && flags_beq (trigger_flags from to) k.modifiers))
unfolding inline_mapping
listens-inline_mapping from (click to ∷ []) k = up_second from from.modifiers k _ _ _
listens-inline_mapping from (action to ∷ []) k = up_last from no_flags k _ _ _
listens-inline_mapping from [] k = up_last from from.modifiers k _ _ _
listens-inline_mapping from (click _ ∷ (_ ∷ _)) k = up_last from from.modifiers k _ _ _
listens-inline_mapping from (action _ ∷ (_ ∷ _)) k = up_last from from.modifiers k _ _ _
