-- ===== src/Remap/Balance.antt =====
-- src/block_ext.rs and src/runtime/evaluation.rs: the actions of a remapping block taken together, and
-- what they do to the modifiers.
use mathlib.Core.Path.{ap₂}
use map2_legacy.Base.{
  ◌≡◌, refl, ◌∙◌, List, [], ◌∷◌, ◌++◌, Bool, true, false, not, ◌&&◌, ◌||◌, none, some, ◌==◌,
  if◌then◌else◌, arith,
}
use map2_legacy.Key.{KeyAction, KeyModifierFlags, KeyModifierState, key_eq, type_up, type_down}
use map2_legacy.Modifiers.Tracking.{
  Modifier, left_ctrl, right_ctrl, left_alt, right_alt, left_shift, right_shift, left_meta,
  right_meta, key_for, is_held, last_verdict, update_all, is_held-update_all,
}
use map2_legacy.Runtime.Modifiers.{release_restore}
use map2_legacy.Daemon.{held_flags}
use map2_legacy.Remap.Parts.{
  flag_of, is_left, last_verdict-append, pushed, last_verdict-release_restore, last_verdict-pushed,
}

-- Two states with the same modifiers held are equal.
pub state_ext : (s t : KeyModifierState) → ((m : Modifier) → is_held m s ≡ is_held m t) → s ≡ t
state_ext s t h = ground (
  arith,
  h left_ctrl,
  h right_ctrl,
  h left_alt,
  h right_alt,
  h left_shift,
  h right_shift,
  h left_meta,
  h right_meta,
)

-- None of the actions is on a modifier key.
abbrev pub NoModifiers : List KeyAction → Type 0
NoModifiers [] = Unit
NoModifiers (a ∷ acts) = ((m : Modifier) → (a.key == key_for m) ≡ false) × NoModifiers acts

pub last_verdict-NoModifiers :
    (m : Modifier) (acts : List KeyAction) → NoModifiers acts → last_verdict (key_for m) acts ≡ none
last_verdict-NoModifiers m [] h = refl
last_verdict-NoModifiers m (a ∷ acts) h = ground (arith, h.0 m, last_verdict-NoModifiers m acts h.1)

module _ (from to : KeyModifierFlags) (s : KeyModifierState) where
  -- The actions before the target, and those after it.
  unfoldable pub before : List KeyAction
  before = release_restore from to type_up s ++ pushed from to type_down

  unfoldable pub behind : List KeyAction
  behind = pushed from to type_up ++ release_restore from to type_down s

  last_verdict-before :
      (m : Modifier)
      → last_verdict (key_for m) before ≡ (
          if is_left m && (not (flag_of m from) && flag_of m to)
          then some true
          else if (flag_of m from && not (flag_of m to)) && is_held m s
          then some false
          else none)
  unfolding before
  last_verdict-before left_ctrl = ground (
    arith,
    last_verdict-append (key_for left_ctrl) (release_restore from to type_up s)
        (pushed from to type_down),
    last_verdict-release_restore from to type_up s left_ctrl,
    last_verdict-pushed left_ctrl from to type_down,
  )
  last_verdict-before m = ground (
    arith,
    last_verdict-append (key_for m) (release_restore from to type_up s) (pushed from to type_down),
    last_verdict-release_restore from to type_up s m,
    last_verdict-pushed m from to type_down,
  )

  last_verdict-behind :
      (m : Modifier)
      → last_verdict (key_for m) behind ≡ (
          if (flag_of m from && not (flag_of m to)) && is_held m s
          then some true
          else if is_left m && (not (flag_of m from) && flag_of m to)
          then some false
          else none)
  unfolding behind
  last_verdict-behind left_ctrl = ground (
    arith,
    last_verdict-append (key_for left_ctrl) (pushed from to type_up)
        (release_restore from to type_down s),
    last_verdict-release_restore from to type_down s left_ctrl,
    last_verdict-pushed left_ctrl from to type_up,
  )
  last_verdict-behind m = ground (
    arith,
    last_verdict-append (key_for m) (pushed from to type_up) (release_restore from to type_down s),
    last_verdict-release_restore from to type_down s m,
    last_verdict-pushed m from to type_up,
  )

  is_held-before :
      (m : Modifier)
      → is_held m (update_all s before) ≡ (
          if is_left m && (not (flag_of m from) && flag_of m to)
          then true
          else is_held m s && not (flag_of m from && not (flag_of m to)))
  is_held-before m = ground (arith, is_held-update_all m s before, last_verdict-before m)

  -- In between nothing but other keys: every modifier ends as it began, if those that are held have
  -- their flag in `from`.
  is_held-balanced :
      (m : Modifier) (body : List KeyAction)
      → NoModifiers body
      → (flag_of m from ≡ false → is_held m s ≡ false)
      → is_held m (update_all s (before ++ (body ++ behind))) ≡ is_held m s
  is_held-balanced m body plain agrees = ground (
    arith,
    is_held-update_all m s (before ++ (body ++ behind)),
    last_verdict-append (key_for m) before (body ++ behind),
    last_verdict-append (key_for m) body behind,
    last_verdict-NoModifiers m body plain,
    last_verdict-before m,
    last_verdict-behind m,
  )

-- A key is held only if the flag of its pair is set.
held-flag :
    (s : KeyModifierState) (m : Modifier) → flag_of m (held_flags s) ≡ false → is_held m s ≡ false
held-flag s left_ctrl h = ground arith
held-flag s m h = ground arith

-- The two keys of a pair before the target: together they are what the target wants.
pair_before :
    (l r w : Bool)
    → ((if not (l || r) && w then true else l && not ((l || r) && not w))
        || (r && not ((l || r) && not w)))
      ≡ w
pair_before l r w = ground arith

module _ (to : KeyModifierFlags) (s : KeyModifierState) where
  -- Before the target, exactly the modifiers of the target are held.
  pub held_flags-before : held_flags (update_all s (before (held_flags s) to s)) ≡ to
  held_flags-before = λ i. record {
    ctrl = (ap₂ ◌||◌ (h left_ctrl) (h right_ctrl) ∙ pair_before s.left_ctrl s.right_ctrl to.ctrl) i;
    shift =
        (ap₂ ◌||◌ (h left_shift) (h right_shift) ∙ pair_before s.left_shift s.right_shift to.shift)
          i;
    alt = (ap₂ ◌||◌ (h left_alt) (h right_alt) ∙ pair_before s.left_alt s.right_alt to.alt) i;
    meta = (ap₂ ◌||◌ (h left_meta) (h right_meta) ∙ pair_before s.left_meta s.right_meta to.meta) i;
  }
    where
      h :
          (m : Modifier)
          → is_held m (update_all s (before (held_flags s) to s)) ≡ (
              if is_left m && (not (flag_of m (held_flags s)) && flag_of m to)
              then true
              else is_held m s && not (flag_of m (held_flags s) && not (flag_of m to)))
      h = is_held-before (held_flags s) to s

  -- After the target, the modifiers are as they were.
  pub update_all-balanced :
      (body : List KeyAction)
      → NoModifiers body
      → update_all s (before (held_flags s) to s ++ (body ++ behind (held_flags s) to s)) ≡ s
  update_all-balanced body plain =
      state_ext _ s λ m. is_held-balanced (held_flags s) to s m body plain (held-flag s m)
