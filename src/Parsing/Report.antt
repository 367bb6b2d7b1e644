-- ===== src/Parsing/Report.antt =====
-- src/parsing/error.rs, `convert_custom_error`: the report of a parse error. The input of an error is a
-- slice of the script up to its end, so what stands before it is a prefix of the script.
use map2_legacy.Base.{
  ℕ, zero, suc, ◌+◌, ◌-◌, ◌/◌, ◌%◌, List, [], ◌∷◌, ◌++◌, Bool, ◌&&◌, Text, codes, nat_beq, ltb,
  text_beq, text_ltb, length, take, utf8_length, if◌then◌else◌,
}
use map2_legacy.Parsing.Error.{CustomError}

-- `options.sort()`; equal texts are the same.
abbrev pub insert_text : Text → List Text → List Text
insert_text s [] = s ∷ []
insert_text s (t ∷ ts) =
    let rest = insert_text s ts in if text_ltb t s then t ∷ rest else s ∷ t ∷ ts

abbrev pub sort : List Text → List Text
sort [] = []
sort (s ∷ l) = insert_text s (sort l)

abbrev pub dedup : List Text → List Text
dedup [] = []
dedup (s ∷ []) = s ∷ []
dedup (s ∷ (t ∷ l)) = let rest = dedup (t ∷ l) in if text_beq s t then rest else s ∷ rest

-- `options.join(", ")`.
abbrev pub join : List Text → Text
join [] = []
join (s ∷ []) = s
join (s ∷ (t ∷ l)) = s ++ (codes ", " ++ join (t ∷ l))

unfoldable pub expected_text : List Text → Text
expected_text [] = codes "valid token (no suggestion)"
expected_text (s ∷ l) = codes "[ " ++ (join (dedup (sort (s ∷ l))) ++ codes " ]")

-- The decimal digits of a number: `n` bounds how many there are.
abbrev pub decimal_digits : ℕ → ℕ → Text → Text
decimal_digits zero m acc = acc
decimal_digits (suc n) m acc =
    let digit = b'0' + m % 10 in
    let rest = decimal_digits n (m / 10) (digit ∷ acc) in if ltb m 10 then digit ∷ acc else rest

abbrev pub decimal : ℕ → Text
decimal m = decimal_digits (suc m) m []

abbrev pub newlines : Text → ℕ
newlines [] = 0
newlines (c ∷ s) = let rest = newlines s in if nat_beq c 10 then suc rest else rest

-- What stands behind the last newline, or the whole text.
abbrev pub last_line : Text → Text
last_line [] = []
last_line (c ∷ s) = let rest = last_line s in if nat_beq (newlines (c ∷ s)) 0 then c ∷ s else rest

-- `lines().next()`, which drops the end of the line.
abbrev pub first_line : Text → Text
first_line [] = []
first_line (c ∷ []) = if nat_beq c 10 then [] else c ∷ []
first_line (c ∷ (d ∷ s)) =
    let rest = c ∷ first_line (d ∷ s) in
    if nat_beq c 10 then [] else if nat_beq c 13 && nat_beq d 10 then [] else rest

module _ (is_whitespace : ℕ → Bool) where
  abbrev pub trim_end : Text → Text
  trim_end [] = []
  trim_end (c ∷ s) = elim (trim_end s) [
    | d ∷ t ↦ c ∷ d ∷ t
    | [] ↦ if is_whitespace c then [] else c ∷ []
  ]

  abbrev pub spaces : ℕ → Text
  spaces zero = []
  spaces (suc n) = b' ' ∷ spaces n

  -- The text that is written, for a line with its number, what stands in it before the error, and what
  -- was expected. The caret is set to the right in as many columns as `head` has bytes, and one.
  abbrev pub message : ℕ → Text → Text → Text → Text
  message line_number line head expected =
      codes "err: at line "
      ++ (decimal line_number
          ++ (codes ":\n"
              ++ (line
                  ++ (codes "\n"
                      ++ (spaces (utf8_length head)
                          ++ (codes "^\nexpected " ++ (expected ++ codes "\n\n")))))))

  unfoldable pub convert_custom_error : Text → CustomError Text → Text
  unfolding expected_text
  convert_custom_error [] err = []
  convert_custom_error (c ∷ s) err =
      let prefix = take (length (c ∷ s) - length err.input) (c ∷ s) in
      let head = last_line prefix in
      message (newlines prefix + 1) (trim_end (first_line (head ++ err.input))) head
        (expected_text err.expected)
