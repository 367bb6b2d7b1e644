-- ===== src/Tests/Parsers.antt =====
-- src/parsing/custom_combinators.rs and src/parsing/error.rs at concrete inputs.
use map2_legacy.Base.{
  false, refl, true, Bool, ◌||◌, none, nat_beq, text_beq, if◌then◌else◌, ◌≡◌, ap, ℕ, ◌+◌, [], ◌∷◌,
  some, Text, codes, length, text_eq, arith,
}
use map2_legacy.Key.{no_flags, set_shift}
use map2_legacy.Parsing.Keys.{flags, key_flags, KeyNames, key_named, find_key, key_alias_table}
use map2_legacy.Parsing.Flags.{key_flags-all_flags, key_named-capital}
use map2_legacy.Tests.Samples.{key_a}
use map2_legacy.Parsing.Results.{IResult, ok, error, Parser}
use map2_legacy.Parsing.Error.{CustomError, custom_parse_error}
use map2_legacy.Parsing.Combinators.{many0_loop, many0_err, fold_many0_once_err}
use map2_legacy.Parsing.Looping.{Shrinks, Ended, many0_err-Ended, fold_many0_once_err-many0_err}
use map2_legacy.Parsing.Report.{expected_text, convert_custom_error}
use map2_legacy.Parsing.Lines.{behind_newline, before_newline, ends_in}
use map2_legacy.Parsing.Reports.{convert_custom_error-line}

-- Any character.
abbrev any_char : Parser Text ℕ (CustomError Text)
any_char [] = error (record { input = []; expected = codes "char" ∷ [] })
any_char (c ∷ s) = ok s c

abbrev no_char : CustomError Text
no_char = record { input = []; expected = codes "char" ∷ [] }

abbrev at_b : CustomError Text
at_b = record { input = codes "b"; expected = codes "x" ∷ [] }

abbrev input_left : IResult Text ℕ (CustomError Text) → Text
input_left (ok i _) = i
input_left _ = []

any_char-Shrinks : Shrinks length any_char
any_char-Shrinks [] j o e moved = cc e
any_char-Shrinks (c ∷ s) j o e moved = omega (arith, ap length (ap input_left e))

many0_err-Ended_example : Ended any_char (codes "ab") [] (some (ok [] (codes "ab", no_char)))
unfolding many0_err many0_loop
many0_err-Ended_example =
    many0_err-Ended 3 length any_char (codes "ab") any_char-Shrinks (omega arith)

fold_many0_once_err-many0_err_example :
    fold_many0_once_err 3 any_char 0 (λ n c. n + c) (codes "ab") ≡ some (ok [] (195, no_char))
unfolding many0_err many0_loop
fold_many0_once_err-many0_err_example =
    fold_many0_once_err-many0_err 3 any_char 0 (λ n c. n + c) (codes "ab")

key_flags-all_flags_example :
    key_flags (codes "#!") ≡ flags (record { ctrl = false; shift = false; alt = true; meta = true })
key_flags-all_flags_example = key_flags-all_flags (codes "#!") refl

-- Only the letter `a` has a capital, and only the name of its key is known.
abbrev names : KeyNames
names = record {
  to_uppercase = elim [ [] ↦ [] | c ∷ s ↦ if nat_beq c b'a' then b'A' ∷ s else c ∷ s ];
  is_uppercase = nat_beq b'A';
  from_str = λ s. if text_beq s (codes "KEY_A") then some key_a else none;
}

small_a : key_named names (codes "a") ≡ some (key_a, no_flags)
unfolding key_named find_key key_alias_table
small_a = refl

key_named-capital_example : key_named names (codes "A") ≡ some (key_a, set_shift no_flags)
key_named-capital_example = key_named-capital names b'a' b'A' key_a no_flags refl refl refl small_a

abbrev no_semicolon : CustomError Text
no_semicolon = record { input = codes "::a; \nb::c;"; expected = codes "';'" ∷ [] }

-- Blanks, newlines and carriage returns.
abbrev is_white : ℕ → Bool
is_white c = nat_beq c b' ' || (nat_beq c 10 || nat_beq c 13)

convert_custom_error-line_example :
    convert_custom_error is_white (codes "a::b;\n1::a; \nb::c;") no_semicolon
    ≡ codes "err: at line 2:\n1::a;\n ^\nexpected [ ';' ]\n\n"
unfolding expected_text
convert_custom_error-line_example =
    convert_custom_error-line is_white (codes "a::b;\n") (codes "1") (codes "1::a;") (codes " ")
      (codes "\nb::c;") no_semicolon (behind_newline (codes "a::b;")) refl refl refl
      (ends_in (codes "1::a") b';' refl) (refl, tt) (before_newline (codes "b::c;")) refl
      (λ e. cc e)
