-- ===== src/Browser/Drawing.antt =====
-- src/evlist/evlist.rs, the closure `update`: what fits on the screen.
use map2_legacy.Base.{
  ◌≡◌, refl, ℕ, ◌+◌, ◌-◌, ◌<◌, ◌≤◌, ◌^◌, List, [], ◌∷◌, ◌++◌, Bool, true, false, Text, Option, none,
  some, length, ltb, leb, ◌⊎◌, inl, inr, arith, Bool-cases,
}
use map2_legacy.Browser.Defs.{
  Browser, DeviceMap, DeviceInfo, Outside, Output, path_line, info_line, visit, on_if, draw,
  draw_entry, max_scroll_offset, i32_sub, nat_min, update, filter_paths,
}

-- The lines of entries in what was drawn.
abbrev pub rows : List Output → ℕ
rows [] = 0
rows (path_line _ ∷ out) = 1 + rows out
rows (info_line _ ∷ out) = 1 + rows out
rows (_ ∷ out) = rows out

rows-on_if : (lit : Bool) (out : List Output) → rows (on_if lit ++ out) ≡ rows out
rows-on_if true out = refl
rows-on_if false out = refl

rows-draw_entry :
    (lines : ℕ) (lit : Bool) (path : Text) (m : DeviceMap) (info : Option DeviceInfo)
    (two one : DeviceMap × List Output)
    → rows two.1 ≤ lines - 2
    → rows one.1 ≤ lines - 1
    → rows (draw_entry lines lit path m info two one).1 ≤ lines
rows-draw_entry lines true path m none two one h k = ground arith
rows-draw_entry lines false path m none two one h k = ground arith
rows-draw_entry lines true path m (some info) two one h k = ground arith
rows-draw_entry lines false path m (some info) two one h k = ground arith

-- The entries drawn take no more lines than there are.
pub rows-draw :
    (o : Outside) (lit : Text → Bool) (lines : ℕ) (m : DeviceMap) (paths : List Text)
    → rows (draw o lit lines m paths).1 ≤ lines
unfolding draw
rows-draw o lit lines m [] = omega arith
rows-draw o lit lines m (path ∷ paths) =
    let (m', info) = visit o m path in
    rows-draw_entry lines (lit path) path m' info (draw o lit (lines - 2) m' paths)
      (draw o lit (lines - 1) m' paths) (rows-draw o lit (lines - 2) m' paths)
      (rows-draw o lit (lines - 1) m' paths)

max_scroll_offset-sub :
    (entries lines : ℕ)
    → entries < 2 ^ 31
    → lines < 2 ^ 31
    → max_scroll_offset entries lines ≡ entries - lines
unfolding max_scroll_offset
max_scroll_offset-sub entries lines h k = ground arith

nat_min-sub :
    (x shown lines : ℕ)
    → (nat_min x (shown - lines) ≤ x)
      × ((nat_min x (shown - lines) ≡ 0) ⊎ (nat_min x (shown - lines) + lines ≤ shown))
nat_min-sub x shown lines = elim (Bool-cases (leb x (shown - lines))) [
  | inl small ↦ (
    ground arith,
    (elim (Bool-cases (ltb 0 x)) [
      | inl positive ↦ inr (ground arith)
      | inr none_left ↦ inl (ground arith)
    ]),
  )
  | inr large ↦ (
    ground arith,
    (elim (Bool-cases (leb lines shown)) [
      | inl fits ↦ inr (ground arith)
      | inr short ↦ inl (ground arith)
    ]),
  )
]

-- For a pattern that compiles, a height of the screen from 1 to 2 ^ 31 - 1 and fewer than 2 ^ 31
-- entries shown, an update does not let the scroll offset grow, and leaves behind it enough entries
-- to fill the lines, unless the offset is 0.
pub update-offset :
    (o : Outside) (lit : Text → Bool) (max_y : ℕ) (fd_list : List Text) (m : DeviceMap)
    (b : Browser) (matches : Text → Bool)
    → o.compile b.filter ≡ some matches
    → 0 < max_y
    → max_y < 2 ^ 31
    → length (filter_paths matches m fd_list) < 2 ^ 31
    → ((update o lit max_y fd_list m b).0.scroll_offset ≤ b.scroll_offset)
      × (((update o lit max_y fd_list m b).0.scroll_offset ≡ 0)
          ⊎ ((update o lit max_y fd_list m b).0.scroll_offset + (max_y - 1)
              ≤ length (filter_paths matches m fd_list)))
unfolding update
update-offset o lit max_y fd_list m b matches compiles some_line high few =
    let shown = length (filter_paths matches m fd_list) in
    let lines : i32_sub max_y 1 ≡ max_y - 1 = omega arith in
    rw (compiles, lines, max_scroll_offset-sub shown (max_y - 1) few (omega arith))
      (nat_min-sub b.scroll_offset shown (max_y - 1))
