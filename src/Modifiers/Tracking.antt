-- ===== src/Modifiers/Tracking.antt =====
-- `update_modifiers` against the history of the modifier keys.
use mathlib.Core.Path.{subst}
use map2_legacy.Base.{
  ℕ, sym, ◌⊎◌, inl, inr, Bool-cases, ◌≡◌, refl, List, [], ◌∷◌, Bool, true, false, Option, none,
  some, ◌==◌, nat_eq, if◌then◌else◌, arith,
}
use map2_legacy.Key.{
  Key, KeyModifierState, KeyAction, key_eq, type_up, type_down, key_left_ctrl, key_right_ctrl,
  key_left_alt, key_right_alt, key_left_shift, key_right_shift, key_left_meta, key_right_meta,
}
use map2_legacy.Modifiers.Defs.{update_modifiers}

-- The eight modifier keys.
pub data Modifier : Type 0 where
  left_ctrl right_ctrl left_alt right_alt left_shift right_shift left_meta right_meta : Modifier

abbrev pub key_for : Modifier → Key
key_for left_ctrl = key_left_ctrl
key_for right_ctrl = key_right_ctrl
key_for left_alt = key_left_alt
key_for right_alt = key_right_alt
key_for left_shift = key_left_shift
key_for right_shift = key_right_shift
key_for left_meta = key_left_meta
key_for right_meta = key_right_meta

abbrev pub is_held : Modifier → KeyModifierState → Bool
is_held left_ctrl s = s.left_ctrl
is_held right_ctrl s = s.right_ctrl
is_held left_alt s = s.left_alt
is_held right_alt s = s.right_alt
is_held left_shift s = s.left_shift
is_held right_shift s = s.right_shift
is_held left_meta s = s.left_meta
is_held right_meta s = s.right_meta

-- What one action says of a key: pressed, released, or nothing.
abbrev pub verdict : Key → KeyAction → Option Bool
verdict k a =
    if a.key == k
    then (if a.value == type_down
        then some true
        else if a.value == type_up
        then some false
        else none)
    else none

abbrev pub or_else : Option Bool → Bool → Bool
or_else (some b) c = b
or_else none c = c

-- What a history, oldest action first, says of a key: its last press or release counts.
abbrev pub last_verdict : Key → List KeyAction → Option Bool
last_verdict k [] = none
last_verdict k (a ∷ rest) = elim (last_verdict k rest) [ some b ↦ some b | none ↦ verdict k a ]

abbrev pub update_all : KeyModifierState → List KeyAction → KeyModifierState
update_all s [] = s
update_all s (a ∷ rest) = update_all (update_modifiers s a) rest

-- A key is one of the eight, or its test against each of them fails.
pub key-cases :
    (k : Key) → ((m : Modifier) × (k ≡ key_for m)) ⊎ ((m : Modifier) → (k == key_for m) ≡ false)
key-cases k = first left_ctrl λ h₁. first right_ctrl λ h₂. first left_alt λ h₃.
    first right_alt λ h₄. first left_shift λ h₅. first right_shift λ h₆. first left_meta λ h₇.
      first right_meta λ h₈. inr (elim [
        | left_ctrl ↦ h₁
        | right_ctrl ↦ h₂
        | left_alt ↦ h₃
        | right_alt ↦ h₄
        | left_shift ↦ h₅
        | right_shift ↦ h₆
        | left_meta ↦ h₇
        | right_meta ↦ h₈
      ])
  where
    Goal : Type 0
    Goal = ((m : Modifier) × (k ≡ key_for m)) ⊎ ((m : Modifier) → (k == key_for m) ≡ false)

    first : (m : Modifier) → ((k == key_for m) ≡ false → Goal) → Goal
    first m other = elim (Bool-cases (k == key_for m)) [
      | inl e ↦ inl (m, (key_eq.same_iff k (key_for m)).0 e)
      | inr e ↦ other e
    ]

update_modifiers-hit :
    (m' m : Modifier) (s : KeyModifierState) (v : ℕ)
    → let a : KeyAction = record { key = key_for m'; value = v } in
      is_held m (update_modifiers s a) ≡ or_else (verdict (key_for m) a) (is_held m s)
unfolding update_modifiers
update_modifiers-hit left_ctrl left_ctrl s v = ground arith
update_modifiers-hit _ _ s v = ground arith

-- An action on any other key changes nothing.
pub update_modifiers-miss :
    (s : KeyModifierState) (a : KeyAction)
    → ((m : Modifier) → (a.key == key_for m) ≡ false)
    → update_modifiers s a ≡ s
unfolding update_modifiers
update_modifiers-miss s a h = ground (
  arith,
  h left_ctrl,
  h right_ctrl,
  h left_alt,
  h right_alt,
  h left_shift,
  h right_shift,
  h left_meta,
  h right_meta,
)

-- One action changes exactly the field of its own key.
pub is_held-update_modifiers :
    (m : Modifier) (s : KeyModifierState) (a : KeyAction)
    → is_held m (update_modifiers s a) ≡ or_else (verdict (key_for m) a) (is_held m s)
is_held-update_modifiers m s a = elim (key-cases a.key) [
  | inl (m', e) ↦
      subst
        (λ k.
          let b : KeyAction = record { key = k; value = a.value } in
          is_held m (update_modifiers s b) ≡ or_else (verdict (key_for m) b) (is_held m s))
        (sym e) (update_modifiers-hit m' m s a.value)
  | inr miss ↦ rw (update_modifiers-miss s a miss, miss m)
]

-- After any sequence of key actions a modifier counts as held exactly if the last press or release
-- of its key was a press, or, where there was none, if it was held at the start.
pub is_held-update_all :
    (m : Modifier) (s : KeyModifierState) (acts : List KeyAction)
    → is_held m (update_all s acts) ≡ or_else (last_verdict (key_for m) acts) (is_held m s)
is_held-update_all m s [] = refl
is_held-update_all m s (a ∷ rest) =
    ground (arith, is_held-update_all m (update_modifiers s a) rest, is_held-update_modifiers m s a)
