-- ===== src/Remap/Parts.antt =====
-- The parts of a remapping block: what each does to each modifier, as applications see it.
use map2_legacy.Base.{
  ℕ, ◌≡◌, refl, ◌∙◌, List, [], ◌∷◌, ◌++◌, map, Bool, true, false, not, ◌&&◌, Option, none, some,
  nat_eq, ◌==◌, if◌then◌else◌, arith,
}
use map2_legacy.Key.{
  Key, KeyAction, KeyModifierFlags, KeyModifierState, key_eq, key_left_ctrl, key_left_alt,
  key_left_shift, key_left_meta, key_right_ctrl, key_right_alt, key_right_shift, key_right_meta,
}
use map2_legacy.Modifiers.Tracking.{
  Modifier, left_ctrl, right_ctrl, left_alt, right_alt, left_shift, right_shift, left_meta,
  right_meta, key_for, is_held, verdict, last_verdict,
}
use map2_legacy.Ast.{end}
use map2_legacy.Mapping.{push_if, push_modifiers, action_of, cons_if}
use map2_legacy.Runtime.Modifiers.{release_pair, release_restore}
use map2_legacy.Remap.Straight.{tap, block_of}

-- The flag that a modifier key belongs to, and whether it is the left key of its pair, which is the
-- one that a mapping presses.
abbrev pub flag_of : Modifier → KeyModifierFlags → Bool
flag_of left_ctrl f = f.ctrl
flag_of right_ctrl f = f.ctrl
flag_of left_alt f = f.alt
flag_of right_alt f = f.alt
flag_of left_shift f = f.shift
flag_of right_shift f = f.shift
flag_of left_meta f = f.meta
flag_of right_meta f = f.meta

abbrev pub is_left : Modifier → Bool
is_left left_ctrl = true
is_left left_alt = true
is_left left_shift = true
is_left left_meta = true
is_left _ = false

-- The later of two verdicts counts.
abbrev pub later : Option Bool → Option Bool → Option Bool
later (some b) earlier = some b
later none earlier = earlier

pub last_verdict-append :
    (k : Key) (xs ys : List KeyAction)
    → last_verdict k (xs ++ ys) ≡ later (last_verdict k ys) (last_verdict k xs)
last_verdict-append k [] ys = ground arith
last_verdict-append k (x ∷ xs) ys = ground (arith, last_verdict-append k xs ys)

module _ (k : Key) (b l : Bool) (left : Key) (r : Bool) (right : Key) (v : ℕ) where
  pair-left :
      left ≡ k
      → (right == k) ≡ false
      → last_verdict k (release_pair b l left r right v)
        ≡ (if b && l then verdict k (action_of k v) else none)
  unfolding release_pair
  pair-left same other = rw same (ground arith)

  pair-right :
      right ≡ k
      → (left == k) ≡ false
      → last_verdict k (release_pair b l left r right v)
        ≡ (if b && r then verdict k (action_of k v) else none)
  unfolding release_pair
  pair-right same other = rw same (ground arith)

  pair-other :
      (left == k) ≡ false
      → (right == k) ≡ false
      → last_verdict k (release_pair b l left r right v) ≡ none
  unfolding release_pair
  pair-other one two = ground arith

-- Of four parts in a row, the one that speaks of the key.
module _ (k : Key) (a b c d : List KeyAction) where
  four :
      last_verdict k (a ++ (b ++ (c ++ d)))
      ≡ later
          (later (later (last_verdict k d) (last_verdict k c)) (last_verdict k b))
          (last_verdict k a)
  four = ground (
    arith,
    last_verdict-append k a (b ++ (c ++ d)),
    last_verdict-append k b (c ++ d),
    last_verdict-append k c d,
  )

  only₁ :
      last_verdict k b ≡ none
      → last_verdict k c ≡ none
      → last_verdict k d ≡ none
      → last_verdict k (a ++ (b ++ (c ++ d))) ≡ last_verdict k a
  only₁ p q r = ground (arith, four)

  only₂ :
      last_verdict k a ≡ none
      → last_verdict k c ≡ none
      → last_verdict k d ≡ none
      → last_verdict k (a ++ (b ++ (c ++ d))) ≡ last_verdict k b
  only₂ p q r = ground (arith, four)

  only₃ :
      last_verdict k a ≡ none
      → last_verdict k b ≡ none
      → last_verdict k d ≡ none
      → last_verdict k (a ++ (b ++ (c ++ d))) ≡ last_verdict k c
  only₃ p q r = ground (arith, four)

  only₄ :
      last_verdict k a ≡ none
      → last_verdict k b ≡ none
      → last_verdict k c ≡ none
      → last_verdict k (a ++ (b ++ (c ++ d))) ≡ last_verdict k d
  only₄ p q r = ground (arith, four)

module _ (from to : KeyModifierFlags) (v : ℕ) (s : KeyModifierState) where
  abbrev ctrl_part : List KeyAction
  ctrl_part =
      release_pair (from.ctrl && not to.ctrl) s.left_ctrl key_left_ctrl s.right_ctrl key_right_ctrl
        v

  abbrev shift_part : List KeyAction
  shift_part =
      release_pair (from.shift && not to.shift) s.left_shift key_left_shift s.right_shift
        key_right_shift v

  abbrev alt_part : List KeyAction
  alt_part =
      release_pair (from.alt && not to.alt) s.left_alt key_left_alt s.right_alt key_right_alt v

  abbrev meta_part : List KeyAction
  meta_part =
      release_pair (from.meta && not to.meta) s.left_meta key_left_meta s.right_meta key_right_meta
        v

  ctrl_part-other :
      (k : Key)
      → (key_left_ctrl == k) ≡ false
      → (key_right_ctrl == k) ≡ false
      → last_verdict k ctrl_part ≡ none
  ctrl_part-other k =
      pair-other k (from.ctrl && not to.ctrl) s.left_ctrl key_left_ctrl s.right_ctrl key_right_ctrl
        v

  shift_part-other :
      (k : Key)
      → (key_left_shift == k) ≡ false
      → (key_right_shift == k) ≡ false
      → last_verdict k shift_part ≡ none
  shift_part-other k =
      pair-other k (from.shift && not to.shift) s.left_shift key_left_shift s.right_shift
        key_right_shift v

  alt_part-other :
      (k : Key)
      → (key_left_alt == k) ≡ false
      → (key_right_alt == k) ≡ false
      → last_verdict k alt_part ≡ none
  alt_part-other k =
      pair-other k (from.alt && not to.alt) s.left_alt key_left_alt s.right_alt key_right_alt v

  meta_part-other :
      (k : Key)
      → (key_left_meta == k) ≡ false
      → (key_right_meta == k) ≡ false
      → last_verdict k meta_part ≡ none
  meta_part-other k =
      pair-other k (from.meta && not to.meta) s.left_meta key_left_meta s.right_meta key_right_meta
        v

  -- What releasing or restoring says of a modifier key: it speaks of the keys that are held and
  -- that only the trigger wants.
  pub last_verdict-release_restore :
      (m : Modifier)
      → last_verdict (key_for m) (release_restore from to v s) ≡ (
          if (flag_of m from && not (flag_of m to)) && is_held m s
          then verdict (key_for m) (action_of (key_for m) v)
          else none)
  unfolding release_restore
  last_verdict-release_restore left_ctrl =
      only₁ key_left_ctrl ctrl_part shift_part alt_part meta_part
        (shift_part-other key_left_ctrl refl refl) (alt_part-other key_left_ctrl refl refl)
        (meta_part-other key_left_ctrl refl refl)
      ∙ pair-left key_left_ctrl (from.ctrl && not to.ctrl) s.left_ctrl key_left_ctrl s.right_ctrl
          key_right_ctrl v refl refl
  last_verdict-release_restore right_ctrl =
      only₁ key_right_ctrl ctrl_part shift_part alt_part meta_part
        (shift_part-other key_right_ctrl refl refl) (alt_part-other key_right_ctrl refl refl)
        (meta_part-other key_right_ctrl refl refl)
      ∙ pair-right key_right_ctrl (from.ctrl && not to.ctrl) s.left_ctrl key_left_ctrl s.right_ctrl
          key_right_ctrl v refl refl
  last_verdict-release_restore left_shift =
      only₂ key_left_shift ctrl_part shift_part alt_part meta_part
        (ctrl_part-other key_left_shift refl refl) (alt_part-other key_left_shift refl refl)
        (meta_part-other key_left_shift refl refl)
      ∙ pair-left key_left_shift (from.shift && not to.shift) s.left_shift key_left_shift
          s.right_shift key_right_shift v refl refl
  last_verdict-release_restore right_shift =
      only₂ key_right_shift ctrl_part shift_part alt_part meta_part
        (ctrl_part-other key_right_shift refl refl) (alt_part-other key_right_shift refl refl)
        (meta_part-other key_right_shift refl refl)
      ∙ pair-right key_right_shift (from.shift && not to.shift) s.left_shift key_left_shift
          s.right_shift key_right_shift v refl refl
  last_verdict-release_restore left_alt =
      only₃ key_left_alt ctrl_part shift_part alt_part meta_part
        (ctrl_part-other key_left_alt refl refl) (shift_part-other key_left_alt refl refl)
        (meta_part-other key_left_alt refl refl)
      ∙ pair-left key_left_alt (from.alt && not to.alt) s.left_alt key_left_alt s.right_alt
          key_right_alt v refl refl
  last_verdict-release_restore right_alt =
      only₃ key_right_alt ctrl_part shift_part alt_part meta_part
        (ctrl_part-other key_right_alt refl refl) (shift_part-other key_right_alt refl refl)
        (meta_part-other key_right_alt refl refl)
      ∙ pair-right key_right_alt (from.alt && not to.alt) s.left_alt key_left_alt s.right_alt
          key_right_alt v refl refl
  last_verdict-release_restore left_meta =
      only₄ key_left_meta ctrl_part shift_part alt_part meta_part
        (ctrl_part-other key_left_meta refl refl) (shift_part-other key_left_meta refl refl)
        (alt_part-other key_left_meta refl refl)
      ∙ pair-left key_left_meta (from.meta && not to.meta) s.left_meta key_left_meta s.right_meta
          key_right_meta v refl refl
  last_verdict-release_restore right_meta =
      only₄ key_right_meta ctrl_part shift_part alt_part meta_part
        (ctrl_part-other key_right_meta refl refl) (shift_part-other key_right_meta refl refl)
        (alt_part-other key_right_meta refl refl)
      ∙ pair-right key_right_meta (from.meta && not to.meta) s.left_meta key_left_meta s.right_meta
          key_right_meta v refl refl

-- The actions that press or release what only the target wants, in the order of the source.
abbrev pub push_actions : Bool → Bool → Bool → Bool → ℕ → List KeyAction
push_actions ctrl alt shift meta v = cons_if ctrl (action_of key_left_ctrl v) (
    cons_if alt (action_of key_left_alt v)
      (cons_if shift (action_of key_left_shift v) (cons_if meta (action_of key_left_meta v) [])))

unfoldable pub pushed : KeyModifierFlags → KeyModifierFlags → ℕ → List KeyAction
pushed from to v =
    push_actions (not from.ctrl && to.ctrl) (not from.alt && to.alt) (not from.shift && to.shift)
      (not from.meta && to.meta) v

pub push_modifiers-block_of :
    (from to : KeyModifierFlags) (v : ℕ)
    → push_modifiers from to v ≡ block_of (map tap (pushed from to v))
unfolding push_modifiers pushed
push_modifiers-block_of from to v =
    go (not from.ctrl && to.ctrl) (not from.alt && to.alt) (not from.shift && to.shift)
      (not from.meta && to.meta)
  where
    go :
        (c a s m : Bool)
        → push_if c key_left_ctrl v
            (push_if a key_left_alt v (push_if s key_left_shift v (push_if m key_left_meta v end)))
          ≡ block_of (map tap (push_actions c a s m v))
    go c a s m = ground arith

abbrev wanted : Modifier → Bool → Bool → Bool → Bool → Bool
wanted left_ctrl c a s m = c
wanted left_alt c a s m = a
wanted left_shift c a s m = s
wanted left_meta c a s m = m
wanted _ c a s m = false

last_verdict-push_actions :
    (k : Modifier) (c a s m : Bool) (v : ℕ)
    → last_verdict (key_for k) (push_actions c a s m v)
      ≡ (if wanted k c a s m then verdict (key_for k) (action_of (key_for k) v) else none)
last_verdict-push_actions left_ctrl c a s m v = ground arith
last_verdict-push_actions _ c a s m v = ground arith

-- Of the modifier keys, only the left ones are pressed, each if only the target wants it.
pub last_verdict-pushed :
    (m : Modifier) (from to : KeyModifierFlags) (v : ℕ)
    → last_verdict (key_for m) (pushed from to v) ≡ (
        if is_left m && (not (flag_of m from) && flag_of m to)
        then verdict (key_for m) (action_of (key_for m) v)
        else none)
unfolding pushed
last_verdict-pushed left_ctrl from to v =
    last_verdict-push_actions left_ctrl (not from.ctrl && to.ctrl) (not from.alt && to.alt)
      (not from.shift && to.shift) (not from.meta && to.meta) v
last_verdict-pushed right_ctrl from to v =
    last_verdict-push_actions right_ctrl (not from.ctrl && to.ctrl) (not from.alt && to.alt)
      (not from.shift && to.shift) (not from.meta && to.meta) v
last_verdict-pushed left_alt from to v =
    last_verdict-push_actions left_alt (not from.ctrl && to.ctrl) (not from.alt && to.alt)
      (not from.shift && to.shift) (not from.meta && to.meta) v
last_verdict-pushed right_alt from to v =
    last_verdict-push_actions right_alt (not from.ctrl && to.ctrl) (not from.alt && to.alt)
      (not from.shift && to.shift) (not from.meta && to.meta) v
last_verdict-pushed left_shift from to v =
    last_verdict-push_actions left_shift (not from.ctrl && to.ctrl) (not from.alt && to.alt)
      (not from.shift && to.shift) (not from.meta && to.meta) v
last_verdict-pushed right_shift from to v =
    last_verdict-push_actions right_shift (not from.ctrl && to.ctrl) (not from.alt && to.alt)
      (not from.shift && to.shift) (not from.meta && to.meta) v
last_verdict-pushed left_meta from to v =
    last_verdict-push_actions left_meta (not from.ctrl && to.ctrl) (not from.alt && to.alt)
      (not from.shift && to.shift) (not from.meta && to.meta) v
last_verdict-pushed right_meta from to v =
    last_verdict-push_actions right_meta (not from.ctrl && to.ctrl) (not from.alt && to.alt)
      (not from.shift && to.shift) (not from.meta && to.meta) v
