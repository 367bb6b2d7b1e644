-- ===== src/Parsing/Errors.antt =====
-- src/parsing/error.rs, `or`: which of several errors is reported.
use map2_legacy.Base.{◌≡◌, ℕ, ◌≤◌, append_assoc, arith}
use map2_legacy.Parsing.Error.{CustomError, or}

module _ {I : Type 0} (input_len : I → ℕ) where
  -- The error reported for several alternatives does not depend on how they are grouped.
  pub or_assoc :
      (a b c : CustomError I)
      → or input_len (or input_len a b) c ≡ or input_len a (or input_len b c)
  unfolding or
  or_assoc a b c = ground (arith, append_assoc c.expected b.expected a.expected)

  -- The error reported is the one that got furthest: it has the least input left.
  pub or_furthest :
      (a b : CustomError I)
      → (input_len (or input_len a b).input ≤ input_len a.input)
        × (input_len (or input_len a b).input ≤ input_len b.input)
  unfolding or
  or_furthest a b = (ground arith, ground arith)
