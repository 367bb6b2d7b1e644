-- ===== src/Parsing/Keys.antt =====
-- src/parsing/key.rs and src/parsing/key_action.rs: what the parsers of keys do with the text that the
-- nom library cut out for them; and KEY_ALIAS_TABLE of src/key_defs.rs, with evdev's numbers.
use map2_legacy.Base.{
  ℕ, List, [], ◌∷◌, ◌++◌, Bool, true, false, not, ◌||◌, ◌&&◌, Option, none, some, Text, codes,
  nat_beq, text_eq, lookup, if◌then◌else◌,
}
use map2_legacy.Key.{
  Key, KeyModifierFlags, no_flags, set_ctrl, set_alt, set_shift, set_meta, apply_from, key_of,
}
use map2_legacy.Mapping.{ParsedKeyAction, action, click}

-- The end of `key_flags`: the flags, an error, or the `unreachable!` of a character that is no flag.
pub data FlagsResult : Type 0 where
  flags : KeyModifierFlags → FlagsResult
  repeated : FlagsResult
  unreachable : FlagsResult

-- The loop of `key_flags` over the characters that `one_of("^!+#")` took.
unfoldable pub collect_flags : KeyModifierFlags → List ℕ → FlagsResult
unfolding set_ctrl set_alt set_shift set_meta
collect_flags f [] = flags f
collect_flags f (v ∷ vs) =
    let alt = collect_flags (set_alt f) vs in
    let ctrl = collect_flags (set_ctrl f) vs in
    let shift = collect_flags (set_shift f) vs in
    let meta = collect_flags (set_meta f) vs in
    if nat_beq v b'!'
    then (if not f.alt then alt else repeated)
    else if nat_beq v b'^'
    then (if not f.ctrl then ctrl else repeated)
    else if nat_beq v b'+'
    then (if not f.shift then shift else repeated)
    else if nat_beq v b'#'
    then (if not f.meta then meta else repeated)
    else unreachable

unfoldable pub key_flags : List ℕ → FlagsResult
unfolding collect_flags
key_flags val = collect_flags no_flags val

abbrev pub plain_key : ℕ → Key × KeyModifierFlags
plain_key n = (key_of n, no_flags)

abbrev pub shifted_key : ℕ → Key × KeyModifierFlags
shifted_key n = (key_of n, record no_flags { shift = true })

unfoldable pub key_alias_table : List (Text × (Key × KeyModifierFlags))
key_alias_table =
    (codes " ", plain_key 57)
    ∷ (codes "#", shifted_key 4)
    ∷ (codes "$", shifted_key 5)
    ∷ (codes "%", shifted_key 6)
    ∷ (codes "&", shifted_key 8)
    ∷ (codes "'", plain_key 40)
    ∷ (codes "(", shifted_key 10)
    ∷ (codes ")", shifted_key 11)
    ∷ (codes "*", shifted_key 9)
    ∷ (codes ",", plain_key 51)
    ∷ (codes "-", plain_key 12)
    ∷ (codes ".", plain_key 52)
    ∷ (codes "/", plain_key 53)
    ∷ (codes ":", plain_key 39)
    ∷ (codes ";", plain_key 39)
    ∷ (codes "<", plain_key 51)
    ∷ (codes "=", plain_key 13)
    ∷ (codes ">", plain_key 52)
    ∷ (codes "?", plain_key 53)
    ∷ (codes "@", shifted_key 2)
    ∷ (codes "[", plain_key 26)
    ∷ (codes "]", plain_key 27)
    ∷ (codes "^", shifted_key 7)
    ∷ (codes "{", shifted_key 26)
    ∷ (codes "|", plain_key 43)
    ∷ (codes "}", shifted_key 27)
    ∷ (codes "~", plain_key 41)
    ∷ (codes "SHIFT", plain_key 42)
    ∷ (codes "ALT", plain_key 56)
    ∷ (codes "META", plain_key 125)
    ∷ (codes "CTRL", plain_key 29)
    ∷ (codes "CAPS", plain_key 58)
    ∷ []

-- What the parser asks of Unicode, and of evdev: the key of a name.
pub record KeyNames : Type 0 where
  pub to_uppercase : Text → Text
  pub is_uppercase : ℕ → Bool
  pub from_str : Text → Option Key

abbrev pub starts_with : Text → Text → Bool
starts_with [] s = true
starts_with (c ∷ p) [] = false
starts_with (c ∷ p) (d ∷ s) = nat_beq c d && starts_with p s

abbrev pub full_name : Text → Text
full_name s =
    if starts_with (codes "KEY_") s || starts_with (codes "BTN_") s then s else codes "KEY_" ++ s

-- `it.next().unwrap().is_uppercase() && it.next().is_none()`, for a text that is not empty.
abbrev pub is_one_capital : KeyNames → Text → Bool
is_one_capital names (c ∷ []) = names.is_uppercase c
is_one_capital names _ = false

-- `flags.shift()` on what was found.
abbrev pub shift_found : Bool → Option (Key × KeyModifierFlags) → Option (Key × KeyModifierFlags)
shift_found test none = none
shift_found true (some (k, f)) = some (k, set_shift f)
shift_found false (some (k, f)) = some (k, f)

-- The key of a name in upper case: that of the table, or that of evdev.
unfoldable pub find_key : KeyNames → Text → Option (Key × KeyModifierFlags)
unfolding key_alias_table
find_key names key_name = elim (lookup key_name key_alias_table) [
  | some known ↦ some known
  | none ↦ elim (names.from_str (full_name key_name)) [ none ↦ none | some k ↦ some (k, no_flags) ]
]

-- The closure of `key`, for the text of an identifier or of a single character.
unfoldable pub key_named : KeyNames → Text → Option (Key × KeyModifierFlags)
unfolding find_key set_shift
key_named names val =
    shift_found (is_one_capital names val) (find_key names (names.to_uppercase val))

-- The closure of `key_action`.
abbrev pub action_for : Key × KeyModifierFlags → Option ℕ → ParsedKeyAction
action_for (k, mods) (some state) = action (record { key = k; value = state; modifiers = mods })
action_for (k, mods) none = click (record { key = k; modifiers = mods })

-- The closure of `key_action_with_flags`.
unfoldable pub with_flags : KeyModifierFlags → ParsedKeyAction → ParsedKeyAction
unfolding apply_from
with_flags f (action a) = action (record a { modifiers = apply_from a.modifiers f })
with_flags f (click c) = click (record c { modifiers = apply_from c.modifiers f })
