-- ===== src/IgnoreList/Refinement.antt =====
-- src/ignore_list.rs: the list as an implementation of a set of actions.
use map2_legacy.Base.{◌≡◌, refl, ap, ◌∙◌, Bool, true, false, List, [], ◌∷◌, ◌==◌, if◌then◌else◌}
use map2_legacy.Key.{KeyAction, action_eq}
use map2_legacy.IgnoreList.Defs.{IgnoreList, new_list, is_ignored, unignore, ignore}
use map2_legacy.IgnoreList.Laws.{
  IsDistinct, is_ignored-ignore, is_ignored-unignore, ignore-IsDistinct, unignore-IsDistinct,
}

-- A call that changes the list.
pub data Call : Type 0 where
  ignoring : KeyAction → Call
  unignoring : KeyAction → Call

abbrev pub call : Call → IgnoreList → IgnoreList
call (ignoring a) l = ignore a l
call (unignoring a) l = unignore a l

-- The list after calls, the last one first.
abbrev pub after_calls : List Call → IgnoreList
after_calls [] = new_list
after_calls (c ∷ cs) = call c (after_calls cs)

-- The set that is meant, by what is asked of it.
abbrev pub Actions : Type 0
Actions = KeyAction → Bool

abbrev pub no_actions : Actions
no_actions b = false

abbrev pub insert : KeyAction → Actions → Actions
insert a s b = if a == b then true else s b

abbrev pub remove : KeyAction → Actions → Actions
remove a s b = if a == b then false else s b

abbrev pub meant : Call → Actions → Actions
meant (ignoring a) s = insert a s
meant (unignoring a) s = remove a s

abbrev pub meant_after : List Call → Actions
meant_after [] = no_actions
meant_after (c ∷ cs) = meant c (meant_after cs)

call-IsDistinct : (c : Call) (l : IgnoreList) → IsDistinct l → IsDistinct (call c l)
call-IsDistinct (ignoring a) l h = ignore-IsDistinct a l h
call-IsDistinct (unignoring a) l h = unignore-IsDistinct a l h

after_calls-IsDistinct : (cs : List Call) → IsDistinct (after_calls cs)
after_calls-IsDistinct [] = tt
after_calls-IsDistinct (c ∷ cs) = call-IsDistinct c (after_calls cs) (after_calls-IsDistinct cs)

is_ignored-after_calls :
    (cs : List Call) (b : KeyAction) → is_ignored b (after_calls cs) ≡ meant_after cs b
is_ignored-after_calls [] b = unfold is_ignored in refl
is_ignored-after_calls (ignoring a ∷ cs) b =
    is_ignored-ignore a b (after_calls cs)
    ∙ ap (λ t. if a == b then true else t) (is_ignored-after_calls cs b)
is_ignored-after_calls (unignoring a ∷ cs) b =
    is_ignored-unignore a b (after_calls cs) (after_calls-IsDistinct cs)
    ∙ ap (λ t. if a == b then false else t) (is_ignored-after_calls cs b)

-- After any calls of ignore and unignore on a new list, an action is ignored exactly if it is in
-- the set to which the same calls added and from which they removed it, and no action stands in the
-- list twice.
pub after_calls-meant :
    (cs : List Call) (b : KeyAction)
    → (is_ignored b (after_calls cs) ≡ meant_after cs b) × IsDistinct (after_calls cs)
after_calls-meant cs b = (is_ignored-after_calls cs b, after_calls-IsDistinct cs)
