-- ===== src/Remap/Device.antt =====
-- What applications see of the modifiers, given the events that a block sends.
use map2_legacy.Base.{◌≡◌, refl, ap, sym, ◌∙◌, List, [], ◌∷◌, ◌++◌}
use map2_legacy.Key.{KeyAction, KeyModifierState, from_input_ev, syn_report}
use map2_legacy.Modifiers.{update_modifiers}
use map2_legacy.Modifiers.Tracking.{left_ctrl, update_all, update_modifiers-miss}
use map2_legacy.Runtime.World.{Effect, sent}
use map2_legacy.Runtime.Modifiers.{release_restore}
use map2_legacy.Remap.Straight.{
  Act, tap, restore, act_actions, act_effects, effects_of, plain_effects,
}

-- The modifiers held, for one who sees the events that were sent.
abbrev pub device : KeyModifierState → List Effect → KeyModifierState
device s [] = s
device s (sent ev ∷ es) = device (update_modifiers s (from_input_ev ev)) es
device s (_ ∷ es) = device s es

pub device-append :
    (s : KeyModifierState) (es fs : List Effect) → device s (es ++ fs) ≡ device (device s es) fs
device-append s [] fs = refl
device-append s (sent ev ∷ es) fs = device-append (update_modifiers s (from_input_ev ev)) es fs
device-append s (_ ∷ es) fs = device-append s es fs

-- The key actions of a list of acts.
abbrev pub actions_of : KeyModifierState → List Act → List KeyAction
actions_of s [] = []
actions_of s (a ∷ acts) = act_actions s a ++ actions_of s acts

update_modifiers-syn_report :
    (s : KeyModifierState) → update_modifiers s (from_input_ev syn_report) ≡ s
update_modifiers-syn_report s =
    update_modifiers-miss s (from_input_ev syn_report) (elim [ left_ctrl ↦ refl | _ ↦ refl ])

update_all-append :
    (s : KeyModifierState) (xs ys : List KeyAction)
    → update_all s (xs ++ ys) ≡ update_all (update_all s xs) ys
update_all-append s [] ys = refl
update_all-append s (a ∷ xs) ys = update_all-append (update_modifiers s a) xs ys

device-plain :
    (s : KeyModifierState) (acts : List KeyAction)
    → device s (plain_effects acts) ≡ update_all s acts
device-plain s [] = refl
device-plain s (a ∷ acts) = device-plain (update_modifiers s a) acts

device-act :
    (s b : KeyModifierState) (a : Act) → device s (act_effects b a) ≡ update_all s (act_actions b a)
device-act s b (tap a) = update_modifiers-syn_report _
device-act s b (restore from to v) = device-plain s (release_restore from to v b)

-- The reports between the actions do not matter.
pub device-effects_of :
    (s b : KeyModifierState) (acts : List Act)
    → device s (effects_of b acts) ≡ update_all s (actions_of b acts)
device-effects_of s b [] = refl
device-effects_of s b (a ∷ acts) =
    device-append s (act_effects b a) (effects_of b acts)
    ∙ (ap (λ t. device t (effects_of b acts)) (device-act s b a)
        ∙ (device-effects_of (update_all s (act_actions b a)) b acts
            ∙ sym (update_all-append s (act_actions b a) (actions_of b acts))))
