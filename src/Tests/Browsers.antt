-- ===== src/Tests/Browsers.antt =====
-- src/evlist/evlist.rs at concrete inputs.
use map2_legacy.Base.{
  ℕ, ◌≡◌, refl, ◌≤◌, ◌+◌, ◌⊎◌, List, [], ◌∷◌, true, false, some, Text, codes, text_beq, length,
  arith,
}
use map2_legacy.Browser.{
  normal, normal_key, search_key, Browser, start, DeviceInfo, Outside, update, draw,
  max_scroll_offset, filter_paths, stays,
}
use map2_legacy.Browser.Loop.{key, fd_set, Round, Session, redraw, opened, browse}
use map2_legacy.Browser.Rounds.{enter, Shows}
use map2_legacy.Browser.Typing.{browse-Shows}
use map2_legacy.Browser.Drawing.{update-offset}

abbrev mouse : DeviceInfo
mouse = record { name = codes "mouse"; phys = codes "usb"; uniq = codes "None" }

-- A pattern matches what it equals, or everything if it is empty; every device is a mouse.
abbrev outside : Outside
outside = record {
  compile = elim [ [] ↦ some (λ _. true) | c ∷ s ↦ some (text_beq (c ∷ s)) ];
  get_props = λ _ _. some mouse;
}

abbrev paths : List Text
paths = codes "e0" ∷ codes "e1" ∷ codes "e2" ∷ []

abbrev scrolled : Browser
scrolled = record start { scroll_offset = 9 }

abbrev far : Browser
far = record start { scroll_offset = 1 }

-- Three entries on two lines, scrolled by one.
abbrev session : Session
session = redraw outside 3 paths (opened outside 3 paths) far (λ _. false)

abbrev typed : ℕ → Round
typed ch = record { received = key ch; fd_list = paths }

-- `/e1` and Enter, while a device has an event; only one entry is left.
abbrev rounds : List Round
rounds =
    typed 47
    ∷ typed b'e'
    ∷ record { received = fd_set (λ _. true); fd_list = paths }
    ∷ typed b'1'
    ∷ typed 10
    ∷ []

far_low : session.browser.scroll_offset ≤ 1
unfolding draw stays max_scroll_offset update
far_low = omega arith

browse-Shows_example : Shows outside 3 normal (codes "e1") 1 (browse outside 3 session rounds)
unfolding update
browse-Shows_example =
    browse-Shows outside 3 [] (codes "e1") 10 (codes "e1") 1 rounds session refl enter refl
      (record {
        in_mode = refl;
        with_filter = refl;
        scrolled = far_low;
        goes_on = refl;
        updated = (λ _. false, paths, (opened outside 3 paths).device_map, far, refl);
      })

-- After the search, with one entry left, there is nothing to scroll.
scrolled_back : (browse outside 3 session rounds).browser.scroll_offset ≡ 0
unfolding browse normal_key search_key draw stays max_scroll_offset
scrolled_back = refl

update-offset_example :
    ((update outside (λ _. false) 3 paths [] scrolled).0.scroll_offset ≤ 9)
    × (((update outside (λ _. false) 3 paths [] scrolled).0.scroll_offset ≡ 0)
        ⊎ ((update outside (λ _. false) 3 paths [] scrolled).0.scroll_offset + 2
            ≤ length (filter_paths (λ _. true) [] paths)))
update-offset_example =
    update-offset outside (λ _. false) 3 paths [] scrolled (λ _. true) refl (omega arith)
      (omega arith) (unfold stays in omega arith)
