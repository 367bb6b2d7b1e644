-- ===== src/Parsing/Reports.antt =====
-- src/parsing/error.rs: the report of a parse error points at the error.
use map2_legacy.Base.{
  ◌≢◌, true, codes, utf8_length, append_assoc, ◌≡◌, refl, ap, ◌∙◌, ℕ, ◌+◌, ◌-◌, [], ◌∷◌, ◌++◌, Bool,
  Text, length, take, arith,
}
use map2_legacy.Parsing.Error.{CustomError}
use map2_legacy.Parsing.Report.{
  newlines, last_line, first_line, trim_end, message, decimal, expected_text, convert_custom_error,
}
use map2_legacy.Parsing.Lines.{
  prefix-append, newlines-append, last_line-none, last_line-append, report, occurrences, columns,
  BeginsLine, at_start, behind_newline, EndsLine, IsTrimmed, AllBlank, newlines-occurrences,
  spaces-columns, trim_end-IsTrimmed, trim_end-first_line,
}

-- Where the error stands: its line number and what stands before it in its line.
last_line-BeginsLine :
    (before head : Text) → BeginsLine before → newlines head ≡ 0 → last_line (before ++ head) ≡ head
last_line-BeginsLine _ head at_start h = last_line-none head h
last_line-BeginsLine _ head (behind_newline s) h =
    ap last_line (append_assoc s (10 ∷ []) head) ∙ last_line-append s head h

newlines-BeginsLine :
    (before head : Text) → newlines head ≡ 0 → newlines (before ++ head) ≡ occurrences 10 before
newlines-BeginsLine before head h =
    omega (arith, newlines-append before head, newlines-occurrences before)

convert_custom_error-report :
    (is_whitespace : ℕ → Bool) (script before : Text) (err : CustomError Text)
    → script ≡ before ++ err.input
    → script ≢ []
    → convert_custom_error is_whitespace script err ≡ report is_whitespace before err
unfolding convert_custom_error
convert_custom_error-report is_whitespace [] before err e some_text = absurd (some_text refl)
convert_custom_error-report is_whitespace (c ∷ s) before err e some_text =
    ap (λ p. report is_whitespace p err)
      (ap (λ x. take (length x - length err.input) x) e ∙ prefix-append before err.input)

-- Where a carriage return is white space, for an error in a script that is not empty: the report
-- has the number of newlines before the error and one as the number of its line, then that line,
-- from behind the newline before it or the start of the script up to the next newline or the end,
-- without the white space at its end, then a caret behind as many blanks as bytes stand in the line
-- before the error, and then what was expected.
pub convert_custom_error-line :
    (is_whitespace : ℕ → Bool) (before head line blanks rest : Text) (err : CustomError Text)
    → BeginsLine before
    → occurrences 10 head ≡ 0
    → head ++ err.input ≡ (line ++ blanks) ++ rest
    → occurrences 10 (line ++ blanks) ≡ 0
    → IsTrimmed is_whitespace line
    → AllBlank is_whitespace blanks
    → EndsLine rest
    → is_whitespace 13 ≡ true
    → (before ++ head) ++ err.input ≢ []
    → convert_custom_error is_whitespace ((before ++ head) ++ err.input) err
      ≡ codes "err: at line "
        ++ (decimal (occurrences 10 before + 1)
            ++ (codes ":\n"
                ++ (line
                    ++ (codes "\n"
                        ++ (columns b' ' (utf8_length head)
                            ++ (codes "^\nexpected "
                                ++ (expected_text err.expected ++ codes "\n\n")))))))
convert_custom_error-line is_whitespace before head line blanks rest err begins h same no_newline
      trimmed all ends cr some_text =
    let flat : newlines head ≡ 0 = newlines-occurrences head ∙ h in
    let text : trim_end is_whitespace (first_line (head ++ err.input)) ≡ line =
      ap (λ x. trim_end is_whitespace (first_line x)) same
      ∙ (trim_end-first_line is_whitespace (line ++ blanks) rest cr no_newline ends
          ∙ trim_end-IsTrimmed is_whitespace line blanks trimmed all) in
    let build =
      λ (n : ℕ) (l head' : Text). message is_whitespace n l head' (expected_text err.expected) in
    convert_custom_error-report is_whitespace _ (before ++ head) err refl some_text
    ∙ (ap
          (λ n.
            build (n + 1)
              (trim_end is_whitespace (first_line (last_line (before ++ head) ++ err.input)))
              (last_line (before ++ head)))
          (newlines-BeginsLine before head flat)
        ∙ (ap
              (λ l.
                build (occurrences 10 before + 1)
                  (trim_end is_whitespace (first_line (l ++ err.input))) l)
              (last_line-BeginsLine before head begins flat)
            ∙ (ap (λ l. build (occurrences 10 before + 1) l head) text
                ∙ ap
                    (λ c.
                      codes "err: at line "
                      ++ (decimal (occurrences 10 before + 1)
                          ++ (codes ":\n"
                              ++ (line
                                  ++ (codes "\n"
                                      ++ (c
                                          ++ (codes "^\nexpected "
                                              ++ (expected_text err.expected ++ codes "\n\n"))))))))
                    (spaces-columns is_whitespace (utf8_length head)))))
