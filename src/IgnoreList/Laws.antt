-- ===== src/IgnoreList/Laws.antt =====
-- src/ignore_list.rs: the ignore list as a set of actions.
use map2_legacy.Base.{◌≡◌, [], ◌∷◌, true, false, ◌==◌, if◌then◌else◌, arith}
use map2_legacy.Key.{KeyAction, action_beq_iff, action_eq}
use map2_legacy.IgnoreList.Defs.{IgnoreList, is_ignored, unignore, ignore}

-- No action occurs twice.
abbrev pub IsDistinct : IgnoreList → Type 0
IsDistinct [] = Unit
IsDistinct (x ∷ xs) = (is_ignored x xs ≡ false) × IsDistinct xs

is_ignored-cons :
    (x a : KeyAction) (l : IgnoreList)
    → is_ignored a (x ∷ l) ≡ (if x == a then true else is_ignored a l)
unfolding is_ignored
is_ignored-cons x a l = ground arith

unignore-cons :
    (x a : KeyAction) (l : IgnoreList)
    → unignore a (x ∷ l) ≡ (if x == a then l else x ∷ unignore a l)
unfolding unignore
unignore-cons x a l = ground arith

ignore-cons :
    (x a : KeyAction) (l : IgnoreList)
    → ignore a (x ∷ l) ≡ (if x == a then x ∷ l else x ∷ ignore a l)
unfolding ignore
ignore-cons x a l = ground arith

-- Ignoring an action adds it to the set and nothing else.
pub is_ignored-ignore :
    (a b : KeyAction) (l : IgnoreList)
    → is_ignored b (ignore a l) ≡ (if a == b then true else is_ignored b l)
is_ignored-ignore a b [] = unfold is_ignored ignore in ground arith
is_ignored-ignore a b (x ∷ l) = ground (
  arith,
  is_ignored-ignore a b l,
  ignore-cons x a l,
  is_ignored-cons x b l,
  is_ignored-cons x b (ignore a l),
  action_beq_iff x a,
  action_beq_iff x b,
  action_beq_iff a b,
)

-- In a list without repetitions, ending to ignore an action takes it out of the set and nothing
-- else.
pub is_ignored-unignore :
    (a b : KeyAction) (l : IgnoreList)
    → IsDistinct l
    → is_ignored b (unignore a l) ≡ (if a == b then false else is_ignored b l)
is_ignored-unignore a b [] h = unfold is_ignored unignore in ground arith
is_ignored-unignore a b (x ∷ l) h = ground (
  arith,
  is_ignored-unignore a b l h.1,
  unignore-cons x a l,
  is_ignored-cons x b l,
  is_ignored-cons x b (unignore a l),
  action_beq_iff x a,
  action_beq_iff x b,
  action_beq_iff a b,
  h.0,
)

-- Ignoring an action keeps the list free of repetitions.
pub ignore-IsDistinct : (a : KeyAction) (l : IgnoreList) → IsDistinct l → IsDistinct (ignore a l)
ignore-IsDistinct a [] h = unfold ignore is_ignored in ground arith
ignore-IsDistinct a (x ∷ l) h = ground (
  arith,
  ignore-IsDistinct a l h.1,
  ignore-cons x a l,
  is_ignored-ignore a x l,
  action_beq_iff x a,
  action_beq_iff a x,
  h.0,
  h.1,
)

pub unignore-IsDistinct :
    (a : KeyAction) (l : IgnoreList) → IsDistinct l → IsDistinct (unignore a l)
unignore-IsDistinct a [] h = unfold unignore is_ignored in ground arith
unignore-IsDistinct a (x ∷ l) h = ground (
  arith,
  unignore-IsDistinct a l h.1,
  unignore-cons x a l,
  is_ignored-unignore a x l h.1,
  action_beq_iff x a,
  action_beq_iff a x,
  h.0,
  h.1,
)
