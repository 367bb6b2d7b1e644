-- ===== src/IgnoreList/Defs.antt =====
-- src/ignore_list.rs: a vector without repetitions, searched from its front.
use map2_legacy.Base.{
  ℕ, suc, List, [], ◌∷◌, ◌++◌, Bool, true, false, Option, none, some, ◌==◌, if◌then◌else◌,
}
use map2_legacy.Key.{KeyAction, action_eq}

abbrev pub IgnoreList : Type 0
IgnoreList = List KeyAction

abbrev pub new_list : IgnoreList
new_list = []

-- `self.0.iter().position(|x| x == key)`.
abbrev pub position : KeyAction → IgnoreList → Option ℕ
position key [] = none
position key (x ∷ xs) =
    let later : Option ℕ = elim (position key xs) [ none ↦ none | some i ↦ some (suc i) ] in
    if x == key then some 0 else later

-- `Vec::remove`, at an index in range.
abbrev pub remove_at : ℕ → IgnoreList → IgnoreList
remove_at i [] = []
remove_at ℕ.zero (x ∷ xs) = xs
remove_at (suc i) (x ∷ xs) = x ∷ remove_at i xs

unfoldable pub is_ignored : KeyAction → IgnoreList → Bool
is_ignored key l = elim (position key l) [ none ↦ false | some _ ↦ true ]

unfoldable pub unignore : KeyAction → IgnoreList → IgnoreList
unignore key l = elim (position key l) [ none ↦ l | some pos ↦ remove_at pos l ]

unfoldable pub ignore : KeyAction → IgnoreList → IgnoreList
ignore key l = elim (position key l) [ none ↦ l ++ key ∷ [] | some _ ↦ l ]
