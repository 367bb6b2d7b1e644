-- ===== src/Parsing/Nom.antt =====
-- What src/parsing uses of the libraries nom and unicode-xid: their parsers and combinators of parsers,
-- as parameters. A `&str` is its code points, and every parser here has the errors of
-- src/parsing/error.rs.
use map2_legacy.Base.{ℕ, Bool, List, Option, Text}
use map2_legacy.Parsing.Results.{IResult}
use map2_legacy.Parsing.Error.{CustomError}
use map2_legacy.Parsing.Keys.{KeyNames}

abbrev pub E : Type 0
E = CustomError Text

abbrev pub Result : Type 0 → Type 0
Result O = IResult Text O E

abbrev pub P : Type 0 → Type 0
P O = Text → Result O

-- `ResNew<&str, O>`: with a value, the error that would have allowed more input.
abbrev pub ResNew : Type 0 → Type 0
ResNew O = Result (O × Option E)

abbrev pub PNew : Type 0 → Type 0
PNew O = P (O × Option E)

-- A tuple of more than two parsers, and an `alt` of more than two, is one of two inside another. The
-- function that `map_res` is given returns its error as `none`, since the error that it makes of it
-- forgets which it was. `compare` is whether the result is `CompareResult::Ok`.
pub record Nom : Type 1 where
  pub tuple : {A B : Type 0} → P A → P B → P (A × B)
  pub alt : {A : Type 0} → P A → P A → P A
  pub map : {A B : Type 0} → P A → (A → B) → P B
  pub map_res : {A B : Type 0} → P A → (A → Option B) → P B
  pub recognize : {A : Type 0} → P A → P Text
  pub opt : {A : Type 0} → P A → P (Option A)
  pub not : {A : Type 0} → P A → P (Unit {0})
  pub many0 : {A : Type 0} → P A → P (List A)
  pub many1 : {A : Type 0} → P A → P (List A)
  pub tag : Text → P Text
  pub is_not : Text → P Text
  pub take_until : Text → P Text
  pub take : ℕ → P Text
  pub one_of : Text → P ℕ
  pub multispace0 : P Text
  pub multispace1 : P Text
  pub double : P ℕ
  pub compare : Text → Text → Bool
  pub take_split : Text → ℕ → Text × Text

pub record Libraries : Type 1 where
  pub nom : Nom
  pub is_xid_start : ℕ → Bool
  pub is_xid_continue : ℕ → Bool
  pub key_names : KeyNames
