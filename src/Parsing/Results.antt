-- ===== src/Parsing/Results.antt =====
-- The results of the nom library that src/parsing works with, and the traits that it uses: equality of
-- inputs and the error of a repetition that does not advance.
use map2_legacy.Base.{◌≡◌, refl, ◌⊎◌, inl, inr}

-- `IResult<I, O, E>`. The two kinds of `Err` that carry an error, and `Incomplete`.
pub data IResult (I O E : Type 0) : Type 0 where
  ok : I → O → IResult I O E
  error : E → IResult I O E
  failure : E → IResult I O E
  incomplete : IResult I O E

abbrev pub Parser : Type 0 → Type 0 → Type 0 → Type 0
Parser I O E = I → IResult I O E

-- `E::from_error_kind(i, ErrorKind::Many0)`.
pub record ParseError (I E : Type 0) : Type 0 where
  pub from_many0 : I → E

pub IResult-cases :
    {I O E : Type 0} (r : IResult I O E)
    → ((i : I) × (o : O) × (r ≡ ok i o))
      ⊎ (((e : E) × (r ≡ error e)) ⊎ (((e : E) × (r ≡ failure e)) ⊎ (r ≡ incomplete)))
IResult-cases (ok i o) = inl (i, o, refl)
IResult-cases (error e) = inr (inl (e, refl))
IResult-cases (failure e) = inr (inr (inl (e, refl)))
IResult-cases incomplete = inr (inr (inr refl))
