-- ===== src/Remap/Sequences.antt =====
-- src/parsing/key_action.rs, `to_key_actions`: what the actions of a key sequence do to the modifiers.
use map2_legacy.Base.{◌≡◌, refl, ap, ◌∙◌, List, [], ◌∷◌, ◌++◌, map, append_assoc}
use map2_legacy.Key.{Key, KeyAction, KeyModifierFlags, no_modifiers, key_eq, type_up, type_down}
use map2_legacy.Modifiers.Tracking.{update_all}
use map2_legacy.Mapping.{
  ParsedKeyAction, click, action, action_of, modifier_actions, to_key_actions,
}
use map2_legacy.Remap.Mappings.{IsPlain}
use map2_legacy.Remap.Observer.{observed, observed-around, update_all-around}

abbrev pub part_key : ParsedKeyAction → Key
part_key (click c) = c.key
part_key (action a) = a.key

-- Every part of the sequence is for a key that is no modifier.
abbrev pub AllPlain : List ParsedKeyAction → Type 0
AllPlain [] = Unit
AllPlain (p ∷ ps) = IsPlain (part_key p) × AllPlain ps

-- What a sequence says: the action of each part, or the press and the release of its click, with
-- the modifiers written with it.
abbrev pub said : List ParsedKeyAction → List (KeyAction × KeyModifierFlags)
said [] = []
said (click c ∷ ps) =
    (record { key = c.key; value = 1 }, c.modifiers)
    ∷ ((record { key = c.key; value = 0 }, c.modifiers) ∷ said ps)
said (action a ∷ ps) = (record { key = a.key; value = a.value }, a.modifiers) ∷ said ps

flatten :
    (f : KeyModifierFlags) (body : List KeyAction) (ps : List ParsedKeyAction)
    → (modifier_actions f type_down ++ (body ++ modifier_actions f type_up)) ++ to_key_actions ps
      ≡ modifier_actions f type_down ++ (body ++ (modifier_actions f type_up ++ to_key_actions ps))
flatten f body ps =
    append_assoc (modifier_actions f type_down) (body ++ modifier_actions f type_up)
      (to_key_actions ps)
    ∙ ap (λ l. modifier_actions f type_down ++ l)
        (append_assoc body (modifier_actions f type_up) (to_key_actions ps))

-- For a key sequence whose parts are all for keys that are no modifiers, sent while no modifier is
-- held: what is sent, without the modifier keys, is in order the press and the release of each
-- click and each single action, each while exactly the modifiers written with it are held; and in
-- the end no modifier is held.
pub to_key_actions-AllPlain :
    (ps : List ParsedKeyAction)
    → AllPlain ps
    → (observed no_modifiers (to_key_actions ps) ≡ said ps)
      × (update_all no_modifiers (to_key_actions ps) ≡ no_modifiers)
unfolding to_key_actions
to_key_actions-AllPlain [] plain = (refl, refl)
to_key_actions-AllPlain (click c ∷ ps) plain =
    let body = action_of c.key type_down ∷ action_of c.key type_up ∷ [] in
    let (seen, ends) = to_key_actions-AllPlain ps plain.1 in
    let flat = flatten c.modifiers body ps in
    (
      ap (observed no_modifiers) flat
          ∙ (observed-around c.modifiers body (to_key_actions ps) (plain.0, (plain.0, tt))
              ∙ ap (λ l. map (λ a. (a, c.modifiers)) body ++ l) seen),
      ap (update_all no_modifiers) flat
          ∙ (update_all-around c.modifiers body (to_key_actions ps) (plain.0, (plain.0, tt))
              ∙ ends),
    )
to_key_actions-AllPlain (action a ∷ ps) plain =
    let body = action_of a.key a.value ∷ [] in
    let (seen, ends) = to_key_actions-AllPlain ps plain.1 in
    let flat = flatten a.modifiers body ps in
    (
      ap (observed no_modifiers) flat
          ∙ (observed-around a.modifiers body (to_key_actions ps) (plain.0, tt)
              ∙ ap (λ l. map (λ x. (x, a.modifiers)) body ++ l) seen),
      ap (update_all no_modifiers) flat
          ∙ (update_all-around a.modifiers body (to_key_actions ps) (plain.0, tt) ∙ ends),
    )
