-- ===== src/Parsing/Lexer.antt =====
-- src/parsing/custom_combinators.rs (white space, comments, `tag_custom`), src/parsing/identifier.rs
-- and src/parsing/primitives.rs.
use map2_legacy.Base.{
  ℕ, List, [], ◌∷◌, Bool, false, ◌||◌, Option, none, Text, codes, text_beq, nat_beq, utf8_length,
  if◌then◌else◌,
}
use map2_legacy.Ast.{string, bool, number, Expr, value_of}
use map2_legacy.Parsing.Results.{ok, error, failure, incomplete}
use map2_legacy.Parsing.Error.{make_generic_nom_err_new, make_generic_nom_err_options, from_tag}
use map2_legacy.Parsing.Nom.{E, Result, P, ResNew, PNew, Nom, Libraries}

-- `map_err` with a function that forgets its argument.
abbrev pub map_err : {A : Type 0} → Result A → Result A → Result A
map_err (ok r a) other = ok r a
map_err (error _) other = other
map_err (failure _) other = other
map_err incomplete other = other

-- `?`, and `and_then`, with what is left and the value.
infixl 1 ◌>>=◌
abbrev pub ◌>>=◌ : {A B : Type 0} → Result A → (Text × A → Result B) → Result B
ok r a >>= k = k (r, a)
error e >>= k = error e
failure e >>= k = failure e
incomplete >>= k = incomplete

-- `Result::map` on the value.
abbrev pub map_ok : {A B : Type 0} → Result A → (A → B) → Result B
map_ok (ok r a) f = ok r (f a)
map_ok (error e) f = error e
map_ok (failure e) f = failure e
map_ok incomplete f = incomplete

-- `value((), ..)`.
abbrev pub forget : {A : Type 0} → A → Unit {0}
forget a = tt

abbrev pub no_error : {A : Type 0} → A → A × Option E
no_error a = (a, none)

module _ (nom : Nom) where
  unfoldable pub tag_custom : Text → P Text
  tag_custom tag input =
      if nom.compare input tag
      then (let (rest, taken) = nom.take_split input (utf8_length tag) in ok rest taken)
      else error (from_tag input tag)

  unfoldable pub line_comment : P (Unit {0})
  line_comment = nom.map (nom.tuple (nom.tag (codes "//")) (nom.is_not (codes "\r\n"))) forget

  unfoldable pub inline_comment : P (Unit {0})
  inline_comment =
      nom.map
        (nom.tuple (nom.tag (codes "/*"))
          (nom.tuple (nom.take_until (codes "*/")) (nom.tag (codes "*/"))))
        forget

  -- The comments that follow some white space, with the white space behind each.
  unfoldable pub comments : P (List (Unit {0} × Text))
  unfolding line_comment inline_comment
  comments = nom.many0 (nom.tuple (nom.alt line_comment inline_comment) nom.multispace0)

  unfoldable pub ws0 : P (Unit {0})
  unfolding comments
  ws0 = nom.map (nom.tuple nom.multispace0 comments) forget

  unfoldable pub ws1 : P (Unit {0})
  unfolding comments
  ws1 = nom.map (nom.tuple nom.multispace1 comments) forget

  unfoldable pub string_literal : PNew Expr
  unfolding tag_custom
  string_literal input =
      map_ok
        (map_err
          (nom.tuple (tag_custom (codes "\""))
            (nom.tuple (nom.take_until (codes "\"")) (tag_custom (codes "\""))) input)
          (make_generic_nom_err_options input (codes "string" ∷ [])))
        (λ (v : Text × (Text × Text)). no_error (value_of (string v.1.0)))

  -- The two words that `alt` may give; any other is `unreachable!`, as which it is the second.
  unfoldable pub boolean : PNew Expr
  unfolding tag_custom
  boolean input =
      map_ok
        (map_err (nom.alt (tag_custom (codes "true")) (tag_custom (codes "false")) input)
          (make_generic_nom_err_options input (codes "boolean" ∷ [])))
        (λ (v : Text). no_error (value_of (bool (text_beq v (codes "true")))))

  unfoldable pub number_literal : PNew Expr
  number_literal input =
      map_ok (map_err (nom.double input) (make_generic_nom_err_options input (codes "number" ∷ [])))
        (λ (v : ℕ). no_error (value_of (number v)))

-- The words that `ident` does not take.
abbrev pub reserved : List Text
reserved =
    codes "break"
    ∷ codes "continue"
    ∷ codes "do"
    ∷ codes "else"
    ∷ codes "false"
    ∷ codes "for"
    ∷ codes "if"
    ∷ codes "in"
    ∷ codes "let"
    ∷ codes "loop"
    ∷ codes "return"
    ∷ codes "true"
    ∷ codes "while"
    ∷ []

abbrev pub is_in : Text → List Text → Bool
is_in s [] = false
is_in s (t ∷ ts) = text_beq s t || is_in s ts

-- The `while let` loop of `word`: the characters up to the first that does not continue an
-- identifier, and what is left.
abbrev pub span : (ℕ → Bool) → Text → Text × Text
span p [] = ([], [])
span p (c ∷ s) = let (taken, rest) = span p s in if p c then (c ∷ taken, rest) else ([], c ∷ s)

module _ (lib : Libraries) where
  abbrev pub word_of : Text → ResNew Text
  word_of [] = make_generic_nom_err_options [] (codes "word" ∷ [])
  word_of (ch ∷ s) =
      let (taken, rest) = span lib.is_xid_continue s in
      if lib.is_xid_start ch || nat_beq ch b'_'
      then ok rest (no_error (ch ∷ taken))
      else make_generic_nom_err_options (ch ∷ s) (codes "word" ∷ [])

  unfoldable pub word : PNew Text
  unfolding ws0
  word input = ws0 lib.nom input >>= λ (r : Text × Unit {0}). word_of r.0

  unfoldable pub ident : PNew Text
  unfolding word
  ident input =
      map_err (word input) (make_generic_nom_err_options input (codes "identifier" ∷ []))
      >>= λ (r : Text × (Text × Option E)).
          if is_in r.1.0 reserved then make_generic_nom_err_new input else ok r.0 r.1
