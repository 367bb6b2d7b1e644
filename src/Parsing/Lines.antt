-- ===== src/Parsing/Lines.antt =====
-- src/parsing/error.rs: the lines of a script, and how they are cut out of it.
use mathlib.Core.Path.{subst}
use map2_legacy.Base.{
  zero, true, false, nat_beq, nat_beq_iff, append_assoc, sym, if◌then◌else◌, Bool-cases, inl, inr,
  ◌≡◌, refl, ap, ◌∙◌, ℕ, suc, ◌+◌, ◌-◌, [], ◌∷◌, ◌++◌, Bool, Text, length, length-append, take,
  arith,
}
use map2_legacy.Parsing.Error.{CustomError}
use map2_legacy.Parsing.Report.{
  newlines, last_line, first_line, trim_end, message, spaces, expected_text,
}

pub take-append : (s t : Text) → take (length s) (s ++ t) ≡ s
take-append [] t = refl
take-append (c ∷ s) t = ap (λ r. c ∷ r) (take-append s t)

pub prefix-append : (s t : Text) → take (length (s ++ t) - length t) (s ++ t) ≡ s
prefix-append s t =
    let same : length (s ++ t) - length t ≡ length s = omega (arith, length-append s t) in
    ap (λ n. take n (s ++ t)) same ∙ take-append s t

pub newlines-append : (s t : Text) → newlines (s ++ t) ≡ newlines s + newlines t
newlines-append [] t = omega arith
newlines-append (c ∷ s) t = ground (arith, newlines-append s t)

pub last_line-none : (s : Text) → newlines s ≡ 0 → last_line s ≡ s
last_line-none [] h = refl
last_line-none (c ∷ s) h = ground arith

pub last_line-append : (s t : Text) → newlines t ≡ 0 → last_line (s ++ 10 ∷ t) ≡ t
last_line-append [] t h = ground (arith, last_line-none t h)
last_line-append (c ∷ s) t h =
    let some_lines : newlines (s ++ 10 ∷ t) ≡ newlines s + suc (newlines t) =
      newlines-append s (10 ∷ t) in
    ground (arith, last_line-append s t h)

-- The report, with the prefix of the script before the error as it is.
abbrev pub report : (ℕ → Bool) → Text → CustomError Text → Text
report is_whitespace before err =
    message is_whitespace (newlines before + 1)
      (trim_end is_whitespace (first_line (last_line before ++ err.input))) (last_line before)
      (expected_text err.expected)

-- How often a character stands in a text.
abbrev pub occurrences : ℕ → Text → ℕ
occurrences c [] = 0
occurrences c (d ∷ s) = let rest = occurrences c s in if nat_beq d c then suc rest else rest

-- So many columns of one character.
abbrev pub columns : ℕ → ℕ → Text
columns c zero = []
columns c (suc n) = c ∷ columns c n

-- A line starts behind such a text: at the start of the script, or behind a newline.
pub data BeginsLine : Text → Type 0 where
  at_start : BeginsLine []
  behind_newline : (s : Text) → BeginsLine (s ++ 10 ∷ [])

-- A line ends before such a text.
pub data EndsLine : Text → Type 0 where
  at_end : EndsLine []
  before_newline : (s : Text) → EndsLine (10 ∷ s)

-- A text without white space at its end.
pub data IsTrimmed (is_whitespace : ℕ → Bool) : Text → Type 0 where
  nothing : IsTrimmed is_whitespace []
  ends_in : (s : Text) (c : ℕ) → is_whitespace c ≡ false → IsTrimmed is_whitespace (s ++ c ∷ [])

abbrev pub AllBlank : (ℕ → Bool) → Text → Type 0
AllBlank is_whitespace [] = Unit
AllBlank is_whitespace (c ∷ s) = (is_whitespace c ≡ true) × AllBlank is_whitespace s

pub newlines-occurrences : (s : Text) → newlines s ≡ occurrences 10 s
newlines-occurrences [] = refl
newlines-occurrences (c ∷ s) = ground (arith, newlines-occurrences s)

pub no_newline_first : (c : ℕ) (s : Text) → occurrences 10 (c ∷ s) ≡ 0 → nat_beq c 10 ≡ false
no_newline_first c s h = ground arith

pub no_newline_later : (c : ℕ) (s : Text) → occurrences 10 (c ∷ s) ≡ 0 → occurrences 10 s ≡ 0
no_newline_later c s h = ground arith

pub first_line-newline : (s : Text) → first_line (10 ∷ s) ≡ []
first_line-newline [] = refl
first_line-newline (c ∷ s) = refl

pub first_line-next :
    (c d : ℕ) (s : Text)
    → nat_beq c 10 ≡ false
    → nat_beq d 10 ≡ false
    → first_line (c ∷ (d ∷ s)) ≡ c ∷ first_line (d ∷ s)
first_line-next c d s hc hd = elim (Bool-cases (nat_beq c 13)) [
  | inl e ↦ rw (hc, e, hd) refl
  | inr e ↦ rw (hc, e) refl
]

module _ (is_whitespace : ℕ → Bool) where
  pub spaces-columns : (n : ℕ) → spaces is_whitespace n ≡ columns b' ' n
  spaces-columns zero = refl
  spaces-columns (suc n) = ap (λ s. b' ' ∷ s) (spaces-columns n)

  pub trim_end-AllBlank : (s : Text) → AllBlank is_whitespace s → trim_end is_whitespace s ≡ []
  trim_end-AllBlank [] h = refl
  trim_end-AllBlank (c ∷ s) h = rw (trim_end-AllBlank s h.1, h.0) refl

  pub trim_end-ends_in :
      (s : Text) (c : ℕ) (blanks : Text)
      → is_whitespace c ≡ false
      → AllBlank is_whitespace blanks
      → trim_end is_whitespace (s ++ c ∷ blanks) ≡ s ++ c ∷ []
  trim_end-ends_in [] c blanks h all = rw (trim_end-AllBlank blanks all, h) refl
  trim_end-ends_in (d ∷ []) c blanks h all = rw (trim_end-ends_in [] c blanks h all) refl
  trim_end-ends_in (d ∷ (e ∷ s)) c blanks h all = rw (trim_end-ends_in (e ∷ s) c blanks h all) refl

  pub trim_end-IsTrimmed :
      (line blanks : Text)
      → IsTrimmed is_whitespace line
      → AllBlank is_whitespace blanks
      → trim_end is_whitespace (line ++ blanks) ≡ line
  trim_end-IsTrimmed _ blanks nothing all = trim_end-AllBlank blanks all
  trim_end-IsTrimmed _ blanks (ends_in s c h) all =
      ap (trim_end is_whitespace) (append_assoc s (c ∷ []) blanks)
      ∙ trim_end-ends_in s c blanks h all

  pub trim_end-cons :
      (c : ℕ) (s t : Text)
      → trim_end is_whitespace s ≡ trim_end is_whitespace t
      → trim_end is_whitespace (c ∷ s) ≡ trim_end is_whitespace (c ∷ t)
  trim_end-cons c s t e = rw e refl

  -- The first line up to its end, but for white space.
  pub trim_end-first_line :
      (s rest : Text)
      → is_whitespace 13 ≡ true
      → occurrences 10 s ≡ 0
      → EndsLine rest
      → trim_end is_whitespace (first_line (s ++ rest)) ≡ trim_end is_whitespace s
  trim_end-first_line [] _ cr h at_end = refl
  trim_end-first_line [] _ cr h (before_newline []) = refl
  trim_end-first_line [] _ cr h (before_newline (_ ∷ _)) = refl
  trim_end-first_line (c ∷ []) _ cr h at_end = ground arith
  trim_end-first_line (c ∷ []) _ cr h (before_newline r) = elim (Bool-cases (nat_beq c 13)) [
    | inl e ↦
        let blank : is_whitespace c ≡ true =
          subst (λ x. is_whitespace x ≡ true) (sym ((nat_beq_iff c 13).0 e)) cr in
        rw (no_newline_first c [] h, e, blank) refl
    | inr e ↦ rw (no_newline_first c [] h, e, first_line-newline r) refl
  ]
  trim_end-first_line (c ∷ (d ∷ s)) rest cr h ends =
      let later = no_newline_later c (d ∷ s) h in
      ap (trim_end is_whitespace) (
        first_line-next c d (s ++ rest) (no_newline_first c (d ∷ s) h) (no_newline_first d s later))
      ∙ trim_end-cons c (first_line (d ∷ (s ++ rest))) (d ∷ s)
          (trim_end-first_line (d ∷ s) rest cr later ends)
