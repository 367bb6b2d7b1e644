-- ===== src/Remap/Observer.antt =====
-- What an application sees of key actions: each action of another key than the modifiers, with the
-- modifiers held at that moment.
use map2_legacy.Base.{
  ℕ, ◌≡◌, refl, ap, ◌∙◌, List, [], ◌∷◌, ◌++◌, map, Bool, true, false, ◌||◌, ◌==◌, if◌then◌else◌,
  arith,
}
use map2_legacy.Key.{
  Key, KeyAction, KeyModifierFlags, KeyModifierState, no_modifiers, key_eq, type_up, type_down,
}
use map2_legacy.Modifiers.{update_modifiers}
use map2_legacy.Modifiers.Tracking.{
  left_ctrl, right_ctrl, left_alt, right_alt, left_shift, right_shift, left_meta, right_meta,
  key_for, update_all, update_modifiers-miss,
}
use map2_legacy.Mapping.{cons_if, modifier_actions}
use map2_legacy.Daemon.{held_flags}
use map2_legacy.Remap.Balance.{NoModifiers}
use map2_legacy.Remap.Mappings.{IsPlain}

abbrev pub with_left : Bool → Bool → Bool → Bool → KeyModifierState
with_left c s a m = record no_modifiers {
  left_ctrl = c;
  left_shift = s;
  left_alt = a;
  left_meta = m;
}

-- The left modifier keys of the flags are held, and nothing else.
abbrev pub left_state : KeyModifierFlags → KeyModifierState
left_state f = with_left f.ctrl f.shift f.alt f.meta

abbrev pub presses : Bool → Bool → Bool → Bool → List KeyAction
presses c s a m = modifier_actions (record { ctrl = c; shift = s; alt = a; meta = m }) type_down

pub update_all-presses :
    (c s a m : Bool) → update_all no_modifiers (presses c s a m) ≡ with_left c s a m
unfolding update_modifiers
update_all-presses c s a m = ground arith

abbrev pub releases : Bool → Bool → Bool → Bool → List KeyAction
releases c s a m = modifier_actions (record { ctrl = c; shift = s; alt = a; meta = m }) type_up

pub update_all-releases :
    (c s a m : Bool) → update_all (with_left c s a m) (releases c s a m) ≡ no_modifiers
unfolding update_modifiers
update_all-releases c s a m = ground arith

pub update_all-append :
    (s : KeyModifierState) (xs ys : List KeyAction)
    → update_all s (xs ++ ys) ≡ update_all (update_all s xs) ys
update_all-append s [] ys = refl
update_all-append s (a ∷ xs) ys = update_all-append (update_modifiers s a) xs ys

-- Whether a key is one of the eight modifier keys.
abbrev pub is_one_of_eight : Key → Bool
is_one_of_eight k =
    k == key_for left_ctrl
    || (k == key_for right_ctrl
        || (k == key_for left_alt
            || (k == key_for right_alt
                || (k == key_for left_shift
                    || (k == key_for right_shift
                        || (k == key_for left_meta || k == key_for right_meta))))))

-- What an application sees of a list of actions: each action of another key, with the modifiers
-- held at that moment.
abbrev pub observed : KeyModifierState → List KeyAction → List (KeyAction × KeyModifierFlags)
observed s [] = []
observed s (a ∷ acts) =
    let later = observed (update_modifiers s a) acts in
    if is_one_of_eight a.key then later else (a, held_flags s) ∷ later

pub plain-other : (k : Key) → IsPlain k → is_one_of_eight k ≡ false
plain-other k h = ground (
  arith,
  h left_ctrl,
  h right_ctrl,
  h left_alt,
  h right_alt,
  h left_shift,
  h right_shift,
  h left_meta,
  h right_meta,
)

pub observed-modifier :
    (s : KeyModifierState) (a : KeyAction) (acts : List KeyAction)
    → is_one_of_eight a.key ≡ true
    → observed s (a ∷ acts) ≡ observed (update_modifiers s a) acts
observed-modifier s a acts h = rw h refl

-- Actions that are not seen.
abbrev pub Hidden : List KeyAction → Type 0
Hidden l =
    (s : KeyModifierState) (acts : List KeyAction)
    → observed s (l ++ acts) ≡ observed (update_all s l) acts

pub cons_if-Hidden :
    (b : Bool) (a : KeyAction) (l : List KeyAction)
    → is_one_of_eight a.key ≡ true
    → Hidden l
    → Hidden (cons_if b a l)
cons_if-Hidden false a l h hidden s acts = hidden s acts
cons_if-Hidden true a l h hidden s acts =
    observed-modifier s a (l ++ acts) h ∙ hidden (update_modifiers s a) acts

pub modifier_actions-Hidden : (f : KeyModifierFlags) (v : ℕ) → Hidden (modifier_actions f v)
modifier_actions-Hidden f v = cons_if-Hidden f.ctrl _ _ refl (
    cons_if-Hidden f.shift _ _ refl
      (cons_if-Hidden f.alt _ _ refl (cons_if-Hidden f.meta _ [] refl (λ s acts. refl))))

-- A plain action is seen, and changes no modifier.
pub observed-plain :
    (s : KeyModifierState) (a : KeyAction) (acts : List KeyAction)
    → IsPlain a.key
    → observed s (a ∷ acts) ≡ (a, held_flags s) ∷ observed s acts
observed-plain s a acts plain = rw (plain-other a.key plain, update_modifiers-miss s a plain) refl

-- Plain actions are seen with the modifiers held, which they leave as they are.
pub observed-body :
    (s : KeyModifierState) (body acts : List KeyAction)
    → NoModifiers body
    → observed s (body ++ acts) ≡ map (λ a. (a, held_flags s)) body ++ observed s acts
observed-body s [] acts plain = refl
observed-body s (a ∷ body) acts plain =
    observed-plain s a (body ++ acts) plain.0
    ∙ ap (λ l. (a, held_flags s) ∷ l) (observed-body s body acts plain.1)

pub held_flags-left : (f : KeyModifierFlags) → held_flags (left_state f) ≡ f
held_flags-left f = ground arith

-- What stands between the modifiers of a part is seen with them.
pub observed-around :
    (f : KeyModifierFlags) (body acts : List KeyAction)
    → NoModifiers body
    → observed no_modifiers
        (modifier_actions f type_down ++ (body ++ (modifier_actions f type_up ++ acts)))
      ≡ map (λ a. (a, f)) body ++ observed no_modifiers acts
observed-around f body acts plain =
    let after = modifier_actions f type_up ++ acts in
    let ups : observed (left_state f) after ≡ observed no_modifiers acts =
      modifier_actions-Hidden f type_up (left_state f) acts
      ∙ ap (λ s. observed s acts) (update_all-releases f.ctrl f.shift f.alt f.meta) in
    modifier_actions-Hidden f type_down no_modifiers (body ++ after)
    ∙ (ap (λ s. observed s (body ++ after)) (update_all-presses f.ctrl f.shift f.alt f.meta)
        ∙ (observed-body (left_state f) body after plain
            ∙ (ap (λ l. map (λ a. (a, held_flags (left_state f))) body ++ l) ups
                ∙ ap (λ g. map (λ a. (a, g)) body ++ observed no_modifiers acts)
                    (held_flags-left f))))

pub update_all-plain :
    (s : KeyModifierState) (body : List KeyAction) → NoModifiers body → update_all s body ≡ s
update_all-plain s [] plain = refl
update_all-plain s (a ∷ body) plain =
    ap (λ t. update_all t body) (update_modifiers-miss s a plain.0)
    ∙ update_all-plain s body plain.1

-- No modifier is held behind a part.
pub update_all-around :
    (f : KeyModifierFlags) (body acts : List KeyAction)
    → NoModifiers body
    → update_all no_modifiers
        (modifier_actions f type_down ++ (body ++ (modifier_actions f type_up ++ acts)))
      ≡ update_all no_modifiers acts
update_all-around f body acts plain =
    let after = modifier_actions f type_up ++ acts in
    update_all-append no_modifiers (modifier_actions f type_down) (body ++ after)
    ∙ (ap (λ s. update_all s (body ++ after)) (update_all-presses f.ctrl f.shift f.alt f.meta)
        ∙ (update_all-append (left_state f) body after
            ∙ (ap (λ s. update_all s after) (update_all-plain (left_state f) body plain)
                ∙ (update_all-append (left_state f) (modifier_actions f type_up) acts
                    ∙ ap (λ s. update_all s acts)
                        (update_all-releases f.ctrl f.shift f.alt f.meta)))))
