-- ===== src/Tests/Modifiers.antt =====
-- src/event_handlers.rs and src/ignore_list.rs at concrete inputs.
use map2_legacy.Base.{◌≡◌, List, [], ◌∷◌, true}
use map2_legacy.Key.{no_modifiers, key_left_ctrl, action_eq}
use map2_legacy.IgnoreList.{is_ignored}
use map2_legacy.IgnoreList.Laws.{IsDistinct}
use map2_legacy.IgnoreList.Refinement.{Call, ignoring, unignoring, after_calls, after_calls-meant}
use map2_legacy.Modifiers.Tracking.{left_ctrl, is_held, update_all, is_held-update_all}
use map2_legacy.Tests.Samples.{key_a, key_b, press, release}

is_held-update_all_example :
    is_held left_ctrl
      (update_all no_modifiers (press key_left_ctrl ∷ press key_a ∷ release key_a ∷ []))
    ≡ true
is_held-update_all_example =
    is_held-update_all left_ctrl no_modifiers
      (press key_left_ctrl ∷ press key_a ∷ release key_a ∷ [])

abbrev three_calls : List Call
three_calls = unignoring (press key_b) ∷ ignoring (press key_a) ∷ ignoring (press key_b) ∷ []

after_calls-meant_example :
    (is_ignored (press key_a) (after_calls three_calls) ≡ true)
    × IsDistinct (after_calls three_calls)
after_calls-meant_example = after_calls-meant three_calls (press key_a)
