-- ===== src/Browser/Defs.antt =====
-- src/evlist/evlist.rs: keys typed, the filter on the list of devices, and the drawing of the list.
use map2_legacy.Base.{
  ℕ, ◌+◌, ◌-◌, ◌%◌, ◌^◌, List, [], ◌∷◌, ◌++◌, Bool, true, false, ◌||◌, Option, none, some, Text,
  ltb, leb, nat_eq, text_eq, if◌then◌else◌, lookup, insert, length, usize_values, nat_beq,
}

pub data Mode : Type 0 where
  normal search : Mode

pub data ProcessInputRet : Type 0 where
  carry_on quit : ProcessInputRet

-- The variables that a key changes: `mode`, `filter` and `scroll_offset`.
pub record Browser : Type 0 where
  pub mode : Mode
  pub filter : Text
  pub scroll_offset : ℕ

abbrev pub start : Browser
start = record { mode = normal; filter = []; scroll_offset = 0 }

-- `String::pop`.
abbrev pub pop : Text → Text
pop [] = []
pop (c ∷ []) = []
pop (c ∷ (d ∷ s)) = c ∷ pop (d ∷ s)

-- The arms for `Normal`. The character is the bit pattern of an `i32`.
unfoldable pub normal_key : ℕ → Browser → Browser
normal_key ch b =
    if nat_beq ch 4
    then record b { scroll_offset = (b.scroll_offset + 5) % usize_values }
    else if nat_beq ch 21
    then record b { scroll_offset = if leb 5 b.scroll_offset then b.scroll_offset - 5 else 0 }
    else if nat_beq ch 106
    then record b { scroll_offset = (b.scroll_offset + 1) % usize_values }
    else if nat_beq ch 107
    then record b {
      scroll_offset = if nat_beq b.scroll_offset 0 then b.scroll_offset else b.scroll_offset - 1;
    }
    else if nat_beq ch 47
    then record b { mode = search }
    else b

-- The arms for `Search`; `ch as u8 as char` keeps the low byte.
unfoldable pub search_key : ℕ → Browser → Browser
search_key ch b =
    if nat_beq ch 10
    then record b { mode = normal }
    else if nat_beq ch 27
    then record b { mode = normal; filter = [] }
    else if nat_beq ch 127
    then record b { filter = pop b.filter }
    else if nat_beq ch 23
    then record b { filter = [] }
    else record b { filter = b.filter ++ ch % 256 ∷ [] }

unfoldable pub process_input : ℕ → Browser → Browser × ProcessInputRet
unfolding normal_key search_key
process_input ch b = elim b.mode [
  | normal ↦ if nat_beq ch 113 then (b, quit) else (normal_key ch b, carry_on)
  | search ↦ (search_key ch b, carry_on)
]

pub record DeviceInfo : Type 0 where
  pub name : Text
  pub phys : Text
  pub uniq : Text

abbrev pub DeviceMap : Type 0
DeviceMap = List (Text × Option DeviceInfo)

-- `device_map.get(fd_path)`, if it is `Some(Some(info))`.
abbrev pub known_info : DeviceMap → Text → Option DeviceInfo
known_info m path = elim (lookup path m) [ some (some info) ↦ some info | _ ↦ none ]

-- Whether an entry stays in the list, for a compiled pattern.
unfoldable pub stays : (Text → Bool) → DeviceMap → Text → Bool
stays matches m path = if matches path then true else elim (known_info m path) [
  | none ↦ false
  | some info ↦ matches info.name || (matches info.phys || matches info.uniq)
]

abbrev pub filter_paths : (Text → Bool) → DeviceMap → List Text → List Text
filter_paths matches m [] = []
filter_paths matches m (path ∷ paths) =
    let rest = filter_paths matches m paths in if stays matches m path then path ∷ rest else rest

-- What the browser uses of the regex library and of the devices: the compilation of a pattern, and
-- `get_props` for a path that the map does not have yet.
pub record Outside : Type 0 where
  pub compile : Text → Option (Text → Bool)
  pub get_props : DeviceMap → Text → Option DeviceInfo

abbrev pub take_paths : ℕ → List Text → List Text
take_paths ℕ.zero paths = []
take_paths (ℕ.suc n) [] = []
take_paths (ℕ.suc n) (path ∷ paths) = path ∷ take_paths n paths

abbrev pub skip_paths : ℕ → List Text → List Text
skip_paths ℕ.zero paths = paths
skip_paths (ℕ.suc n) [] = []
skip_paths (ℕ.suc n) (path ∷ paths) = skip_paths n paths

-- What is written to the screen: reverse video on and off, and lines of text.
pub data Output : Type 0 where
  reverse_on reverse_off : Output
  path_line : Text → Output
  info_line : DeviceInfo → Output
  invalid_pattern : Output
  search_line : Text → Output

-- `device_map.entry(..)`, which asks the device on the first visit.
abbrev pub visit : Outside → DeviceMap → Text → DeviceMap × Option DeviceInfo
visit o m path = elim (lookup path m) [
  | some info ↦ (m, info)
  | none ↦ let info = o.get_props m path in (insert path info m, info)
]

abbrev pub on_if : Bool → List Output
on_if lit = if lit then reverse_on ∷ [] else []

-- One entry: a known device takes two lines, another one. `two` and `one` are what follows.
abbrev pub draw_entry :
    ℕ
    → Bool
    → Text
    → DeviceMap
    → Option DeviceInfo
    → DeviceMap × List Output
    → DeviceMap × List Output
    → DeviceMap × List Output
draw_entry lines lit path m (some info) two one =
    if ltb lines 2
    then (m, on_if lit)
    else (two.0, on_if lit ++ (path_line path ∷ info_line info ∷ reverse_off ∷ two.1))
draw_entry lines lit path m none two one =
    if ltb lines 1
    then (m, on_if lit)
    else (one.0, on_if lit ++ (path_line path ∷ reverse_off ∷ one.1))

-- The loop over the visible entries. `lit` says which paths are highlighted.
unfoldable pub draw : Outside → (Text → Bool) → ℕ → DeviceMap → List Text → DeviceMap × List Output
draw o lit lines m [] = (m, [])
draw o lit lines m (path ∷ paths) =
    let m' = (visit o m path).0 in
    draw_entry lines (lit path) path m' (visit o m path).1 (draw o lit (lines - 2) m' paths)
      (draw o lit (lines - 1) m' paths)

-- The number of values of an `i32`, whose subtraction wraps and of which the upper half is negative.
abbrev pub i32_values : ℕ
i32_values = 2 ^ 32

abbrev pub i32_sub : ℕ → ℕ → ℕ
i32_sub x y = (x + (i32_values - y)) % i32_values

-- `i32::max(0, x)`.
abbrev pub i32_max_zero : ℕ → ℕ
i32_max_zero x = if ltb x (2 ^ 31) then x else 0

unfoldable pub max_scroll_offset : ℕ → ℕ → ℕ
max_scroll_offset entries lines = i32_max_zero (i32_sub (entries % i32_values) lines)

abbrev pub nat_min : ℕ → ℕ → ℕ
nat_min x y = if leb x y then x else y

abbrev pub prompt : Browser → List Output
prompt b = elim b.mode [ normal ↦ [] | search ↦ search_line b.filter ∷ [] ]

-- The part of `update` below the filter, for a pattern that compiles and for one that does not.
abbrev pub draw_list :
    Outside
    → (Text → Bool)
    → ℕ
    → List Text
    → DeviceMap
    → Browser
    → Option (Text → Bool)
    → Browser × (DeviceMap × List Output)
draw_list o lit lines fd_list m b none = (b, (m, invalid_pattern ∷ prompt b))
draw_list o lit lines fd_list m b (some matches) =
    let shown = filter_paths matches m fd_list in
    let offset = nat_min b.scroll_offset (max_scroll_offset (length shown) lines) in
    let drawn = draw o lit lines m (take_paths lines (skip_paths offset shown)) in
    (record b { scroll_offset = offset }, (drawn.0, drawn.1 ++ prompt b))

-- The closure `update`, on the paths of `get_fd_list`: the variables and the map that it leaves, and
-- what it draws. `max_y` is the height of the screen, which is positive.
unfoldable pub update :
    Outside
    → (Text → Bool)
    → ℕ
    → List Text
    → DeviceMap
    → Browser
    → Browser × (DeviceMap × List Output)
unfolding draw max_scroll_offset
update o lit max_y fd_list m b = draw_list o lit (i32_sub max_y 1) fd_list m b (o.compile b.filter)
