-- ===== src/Parsing/Looping.antt =====
-- src/parsing/custom_combinators.rs: how the two repetitions end, and what one has to do with the other.
use mathlib.Core.Path.{subst}
use map2_legacy.Base.{
  ◌≡◌, refl, ap, ◌∙◌, sym, ℕ, zero, suc, ◌<◌, List, [], ◌∷◌, ◌++◌, true, false, Option, none, some,
  Equality, ◌==◌, append_assoc, append-nil, Bool-cases, inl, inr, arith,
}
use map2_legacy.Parsing.Results.{
  IResult, ok, error, failure, incomplete, Parser, ParseError, IResult-cases,
}
use map2_legacy.Parsing.Combinators.{many0_loop, many0_err, fold_many0_once_err}

abbrev pub foldl : {O R : Type 0} → (R → O → R) → R → List O → R
foldl g r [] = r
foldl g r (o ∷ os) = foldl g (g r o) os

foldl-append :
    {O R : Type 0} (g : R → O → R) (r : R) (os : List O) (o : O)
    → foldl g r (os ++ o ∷ []) ≡ g (foldl g r os) o
foldl-append g r [] o = refl
foldl-append g r (p ∷ os) o = foldl-append g (g r p) os o

module _ {I O E : Type 0} ⦃eq : Equality I⦄ ⦃pe : ParseError I E⦄ where
  -- A run of a parser: its outputs, from one input to another, each of which moved on.
  pub data Run (f : Parser I O E) : I → List O → I → Type 0 where
    stop : {i : I} → Run f i [] i
    step :
        {i j k : I} {o : O} {os : List O}
        → f i ≡ ok j o
        → (j == i) ≡ false
        → Run f j os k
        → Run f i (o ∷ os) k

  -- How the repetition ends that has collected `acc` and goes on from `i`: by an error of the parser,
  -- which is kept with the outputs of the run; by a success that moves nowhere, which is an error; or
  -- by a result that is passed on.
  pub data Ended (f : Parser I O E) (i : I) (acc : List O)
      : Option (IResult I (List O × E) E) → Type 0 where
    by_error :
        {os : List O} {k : I} {err : E}
        → Run f i os k
        → f k ≡ error err
        → Ended f i acc (some (ok k (acc ++ os, err)))
    by_standstill :
        {os : List O} {j k : I} {o : O}
        → Run f i os k
        → f k ≡ ok j o
        → (j == k) ≡ true
        → Ended f i acc (some (error (pe.from_many0 k)))
    by_failure :
        {os : List O} {k : I} {err : E}
        → Run f i os k
        → f k ≡ failure err
        → Ended f i acc (some (failure err))
    by_incomplete :
        {os : List O} {k : I} → Run f i os k → f k ≡ incomplete → Ended f i acc (some incomplete)

  Ended-step :
      (f : Parser I O E) (i j : I) (acc : List O) (o : O) (r : Option (IResult I (List O × E) E))
      → f i ≡ ok j o
      → (j == i) ≡ false
      → Ended f j (acc ++ o ∷ []) r
      → Ended f i acc r
  Ended-step f i j acc o _ now moved (by_error {os} {k} {err} run e) =
      subst (λ l. Ended f i acc (some (ok k (l, err)))) (sym (append_assoc acc (o ∷ []) os))
        (by_error (step now moved run) e)
  Ended-step f i j acc o _ now moved (by_standstill run e h) =
      by_standstill (step now moved run) e h
  Ended-step f i j acc o _ now moved (by_failure run e) = by_failure (step now moved run) e
  Ended-step f i j acc o _ now moved (by_incomplete run e) = by_incomplete (step now moved run) e

  -- A parser that leaves less than it is given, by some measure, wherever it succeeds and moves on.
  abbrev pub Shrinks : (I → ℕ) → Parser I O E → Type 0
  Shrinks size f = (i j : I) (o : O) → f i ≡ ok j o → (j == i) ≡ false → size j < size i

  many0_loop-Ended :
      (n : ℕ) (size : I → ℕ) (f : Parser I O E) (i : I) (acc : List O)
      → Shrinks size f
      → size i < n
      → Ended f i acc (many0_loop n f i acc)
  unfolding many0_loop
  many0_loop-Ended zero size f i acc shrinks h = absurd (omega arith)
  many0_loop-Ended (suc n) size f i acc shrinks h = elim (IResult-cases (f i)) [
    | inr (inl (err, e)) ↦
        rw (many0_loop, e)
          (subst (λ l. Ended f i acc (some (ok i (l, err)))) (append-nil acc) (by_error stop e))
    | inr (inr (inl (err, e))) ↦ rw (many0_loop, e) (by_failure stop e)
    | inr (inr (inr e)) ↦ rw (many0_loop, e) (by_incomplete stop e)
    | inl (j, o, e) ↦ elim (Bool-cases (j == i)) [
      | inl same ↦ rw (many0_loop, e, same) (by_standstill stop e same)
      | inr moved ↦
          rw (many0_loop, e, moved)
            (Ended-step f i j acc o (many0_loop n f j (acc ++ o ∷ [])) e moved (
              many0_loop-Ended n size f j (acc ++ o ∷ []) shrinks
                (omega (arith, shrinks i j o e moved))))
    ]
  ]

  -- If what a parser leaves gets smaller, by any measure, whenever it moves on, and the fuel
  -- exceeds the measure of the input, then many0_err ends with the outputs of a run up to an error
  -- of the parser, with an error where the parser succeeds and stands still, or with a failure that
  -- is passed on.
  pub many0_err-Ended :
      (n : ℕ) (size : I → ℕ) (f : Parser I O E) (i : I)
      → Shrinks size f
      → size i < n
      → Ended f i [] (many0_err n f i)
  unfolding many0_err
  many0_err-Ended n size f i shrinks h = many0_loop-Ended n size f i [] shrinks h

  -- A result of `many0_err` with the outputs folded.
  abbrev pub folded :
      {R : Type 0}
      → (R → O → R)
      → R
      → Option (IResult I (List O × E) E)
      → Option (IResult I (R × E) E)
  folded g init none = none
  folded g init (some (ok i (os, err))) = some (ok i (foldl g init os, err))
  folded g init (some (error err)) = some (error err)
  folded g init (some (failure err)) = some (failure err)
  folded g init (some incomplete) = some incomplete

  fold-loop :
      {R : Type 0} (n : ℕ) (f : Parser I O E) (init : R) (g : R → O → R) (i : I) (acc : List O)
      → fold_many0_once_err n f (foldl g init acc) g i ≡ folded g init (many0_loop n f i acc)
  unfolding many0_loop fold_many0_once_err
  fold-loop zero f init g i acc = refl
  fold-loop (suc n) f init g i acc = elim (IResult-cases (f i)) [
    | inr (inl (err, e)) ↦ rw (fold_many0_once_err, many0_loop, e) refl
    | inr (inr (inl (err, e))) ↦ rw (fold_many0_once_err, many0_loop, e) refl
    | inr (inr (inr e)) ↦ rw (fold_many0_once_err, many0_loop, e) refl
    | inl (j, o, e) ↦ elim (Bool-cases (j == i)) [
      | inl same ↦ rw (fold_many0_once_err, many0_loop, e, same) refl
      | inr moved ↦
          rw (fold_many0_once_err, many0_loop, e, moved)
            (ap (λ r. fold_many0_once_err n f r g j) (sym (foldl-append g init acc o))
              ∙ fold-loop n f init g j (acc ++ o ∷ []))
    ]
  ]

  -- fold_many0_once_err is many0_err followed by a fold of the outputs from the left, in every case
  -- and for every fuel.
  pub fold_many0_once_err-many0_err :
      {R : Type 0} (n : ℕ) (f : Parser I O E) (init : R) (g : R → O → R) (i : I)
      → fold_many0_once_err n f init g i ≡ folded g init (many0_err n f i)
  unfolding many0_err
  fold_many0_once_err-many0_err n f init g i = fold-loop n f init g i []
