-- ===== src/Window/Property.antt =====
-- src/x11.rs: the parsing of window properties and the search for the focused window. A `&str` is its
-- bytes; a reply of the X server is its format, its length and its bytes.
use map2_legacy.Base.{
  ℕ, List, [], ◌∷◌, Bool, true, ◌&&◌, Option, none, some, codes, ltb, leb, nat_beq, if◌then◌else◌,
}

pub record GetPropertyReply : Type 0 where
  pub format : ℕ
  pub length : ℕ
  pub value : List ℕ

-- `lo..=hi`.
abbrev pub between : ℕ → ℕ → ℕ → Bool
between lo hi b = leb lo b && leb b hi

abbrev pub is_tail : ℕ → Bool
is_tail b = between 0x80 0xbf b

-- `std::str::from_utf8` succeeds: the well-formed sequences of one to four bytes.
unfoldable pub is_utf8 : List ℕ → Bool
is_utf8 [] = true
is_utf8 (a ∷ []) = ltb a 0x80
is_utf8 (a ∷ (b ∷ [])) = if ltb a 0x80 then ltb b 0x80 else between 0xc2 0xdf a && is_tail b
is_utf8 (a ∷ (b ∷ (c ∷ []))) =
    let one = is_utf8 (b ∷ c ∷ []) in
    let two = is_utf8 (c ∷ []) in
    if ltb a 0x80
    then one
    else if between 0xc2 0xdf a
    then is_tail b && two
    else if nat_beq a 0xe0
    then between 0xa0 0xbf b && is_tail c
    else if nat_beq a 0xed
    then between 0x80 0x9f b && is_tail c
    else between 0xe1 0xef a && (is_tail b && is_tail c)
is_utf8 (a ∷ (b ∷ (c ∷ (d ∷ s)))) =
    let one = is_utf8 (b ∷ c ∷ d ∷ s) in
    let two = is_utf8 (c ∷ d ∷ s) in
    let three = is_utf8 (d ∷ s) in
    let four = is_utf8 s in
    if ltb a 0x80
    then one
    else if between 0xc2 0xdf a
    then is_tail b && two
    else if nat_beq a 0xe0
    then between 0xa0 0xbf b && (is_tail c && three)
    else if nat_beq a 0xed
    then between 0x80 0x9f b && (is_tail c && three)
    else if between 0xe1 0xef a
    then is_tail b && (is_tail c && three)
    else if nat_beq a 0xf0
    then between 0x90 0xbf b && (is_tail c && (is_tail d && four))
    else if nat_beq a 0xf4
    then between 0x80 0x8f b && (is_tail c && (is_tail d && four))
    else between 0xf1 0xf3 a && (is_tail b && (is_tail c && (is_tail d && four)))

-- `from_utf8(..).unwrap_or("Invalid utf8")`.
abbrev pub utf8_or_invalid : List ℕ → List ℕ
utf8_or_invalid bytes = if is_utf8 bytes then bytes else codes "Invalid utf8"

unfoldable pub parse_string_property : GetPropertyReply → List ℕ
parse_string_property p = utf8_or_invalid p.value

-- `position(|&b| b == 0)` and `split_at`, without the null byte itself.
abbrev pub split_at_null : List ℕ → Option (List ℕ × List ℕ)
split_at_null [] = none
split_at_null (b ∷ s) =
    let later : Option (List ℕ × List ℕ) = elim (split_at_null s) [
      | none ↦ none
      | some (i, c) ↦ some (b ∷ i, c)
    ] in
    if nat_beq b 0 then some ([], s) else later

-- The bytes without a null byte at the end.
abbrev pub drop_last_null : List ℕ → List ℕ
drop_last_null [] = []
drop_last_null (b ∷ []) = if nat_beq b 0 then [] else b ∷ []
drop_last_null (b ∷ (c ∷ s)) = b ∷ drop_last_null (c ∷ s)

abbrev pub both : List ℕ → List ℕ × List ℕ
both s = (s, s)

abbrev pub class_of : Option (List ℕ × List ℕ) → List ℕ × List ℕ
class_of none = both (codes "Missing null byte")
class_of (some (instance_bytes, class_bytes)) =
    (utf8_or_invalid instance_bytes, utf8_or_invalid (drop_last_null class_bytes))

-- The instance and the class.
unfoldable pub parse_wm_class : GetPropertyReply → List ℕ × List ℕ
parse_wm_class p =
    if nat_beq p.format 8
    then class_of (split_at_null p.value)
    else both (codes "Malformed property: wrong format")

-- The answers of the connection that the search uses, `none` for an error, and the parsing of a
-- number by x11rb.
pub record Connection : Type 0 where
  pub active_window : Option GetPropertyReply
  pub input_focus : Option ℕ
  pub try_parse : List ℕ → Option ℕ

abbrev pub is_window_id : GetPropertyReply → Bool
is_window_id reply = nat_beq reply.format 32 && nat_beq reply.length 1

unfoldable pub find_active_window : Connection → Option ℕ
find_active_window conn = elim conn.active_window [
  | none ↦ none
  | some reply ↦ if is_window_id reply then conn.try_parse reply.value else conn.input_focus
]
