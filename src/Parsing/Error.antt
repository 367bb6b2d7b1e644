-- ===== src/Parsing/Error.antt =====
-- src/parsing/error.rs: errors that say where the parser stood and what it expected there.
use map2_legacy.Base.{ℕ, List, [], ◌∷◌, ◌++◌, Text, codes, ltb, if◌then◌else◌}
use map2_legacy.Parsing.Results.{IResult, error, ParseError}

pub record CustomError (I : Type 0) : Type 0 where
  pub input : I
  pub expected : List Text

-- `IResult` with the error that the parser of statements keeps from its last repetition.
abbrev pub make_generic_nom_err_new : {I O : Type 0} → I → IResult I O (CustomError I)
make_generic_nom_err_new i = error (record { input = i; expected = [] })

abbrev pub make_generic_nom_err_options :
    {I O : Type 0} → I → List Text → IResult I O (CustomError I)
make_generic_nom_err_options i options = error (record { input = i; expected = options })

abbrev pub from_error_kind : {I : Type 0} → I → CustomError I
from_error_kind i = record { input = i; expected = [] }

instance abbrev pub custom_parse_error : {I : Type 0} → ParseError I (CustomError I)
custom_parse_error = record { from_many0 = from_error_kind }

abbrev pub from_char : {I : Type 0} → I → ℕ → CustomError I
from_char i ch = record { input = i; expected = (ch ∷ []) ∷ [] }

-- `format!("'{}'", tag)`.
abbrev pub from_tag : {I : Type 0} → I → Text → CustomError I
from_tag i tag = record { input = i; expected = (codes "'" ++ (tag ++ codes "'")) ∷ [] }

-- `ParseError::append`, which keeps the later error.
abbrev pub append : {I : Type 0} → I → CustomError I → CustomError I
append i other = other

-- `ParseError::or`, with the length of an input as the nom library gives it.
unfoldable pub or : {I : Type 0} → (I → ℕ) → CustomError I → CustomError I → CustomError I
or input_len self other =
    if ltb (input_len other.input) (input_len self.input)
    then other
    else if ltb (input_len self.input) (input_len other.input)
    then self
    else record other { expected = other.expected ++ self.expected }
