-- ===== src/Parsing/Progress.antt =====
-- src/parsing: rules on how much the parsers take, from those they are built from.
pub mod Tokens
pub mod Keys
pub mod Expressions
pub mod Statements
pub mod Scripts
use mathlib.Core.Path.{subst}
use map2_legacy.Base.{
  ◌≡◌, refl, sym, ap, ◌∙◌, length-append, ℕ, zero, suc, ◌+◌, ◌≤◌, ◌<◌, List, [], ◌∷◌, ◌++◌, Bool,
  true, false, Option, none, some, Text, text_eq, ◌==◌, length, utf8_length, Bool-cases, inl, inr,
  arith,
}
use map2_legacy.Parsing.Results.{ok, error, failure, incomplete, IResult-cases}
use map2_legacy.Parsing.Error.{CustomError, from_tag, custom_parse_error}
use map2_legacy.Parsing.Nom.{E, Result, P, PNew, Nom}
use map2_legacy.Parsing.NomLaws.{Ends, Takes, choose, optional, negated, accepted, taken, NomLaws}
use map2_legacy.Parsing.Combinators.{many0_loop, many0_err, fold_many0_once_err, remaining}
use map2_legacy.Parsing.Looping.{folded, fold_many0_once_err-many0_err}
use map2_legacy.Parsing.Keys.{starts_with}
use map2_legacy.Parsing.Lexer.{map_err, map_ok, ◌>>=◌, tag_custom}
use map2_legacy.Parsing.Expressions.{or_incomplete, repeated_err, folded_err}

pub Ends-map_ok :
    {A B : Type 0} (k : ℕ) (i : Text) (r : Result A) (f : A → B)
    → Ends k i r
    → Ends k i (map_ok r f)
Ends-map_ok k i (ok _ _) f h = h
Ends-map_ok k i (error _) f h = h
Ends-map_ok k i (failure _) f h = h
Ends-map_ok k i incomplete f h = h

pub Ends-map_err :
    {A : Type 0} (k : ℕ) (i : Text) (r : Result A) (e : E)
    → Ends k i r
    → Ends k i (map_err r (error e))
Ends-map_err k i (ok _ _) e h = h
Ends-map_err k i (error _) e h = tt
Ends-map_err k i (failure _) e h = tt
Ends-map_err k i incomplete e h = tt

-- The rest of a chain, whose result has to be right for what is left and for the whole text.
pub Ends-bind :
    {A B : Type 0} (k l : ℕ) (i : Text) (r : Result A) (f : Text × A → Result B)
    → Ends k i r
    → ((j : Text) (a : A) → k + length j ≤ length i → Ends l i (f (j, a)))
    → Ends l i (r >>= f)
Ends-bind k l i (ok j a) f h next = next j a h
Ends-bind k l i (error _) f h next = tt
Ends-bind k l i (failure _) f h next = tt
Ends-bind k l i incomplete f h next = h

-- What is left of the rest is left of the whole.
pub Ends-later :
    {A : Type 0} (k l m : ℕ) (i j : Text) (r : Result A)
    → k + length j ≤ length i
    → m ≤ k + l
    → Ends l j r
    → Ends m i r
Ends-later k l m i j (ok _ _) h below e = omega arith
Ends-later k l m i j (error _) h below e = tt
Ends-later k l m i j (failure _) h below e = tt
Ends-later k l m i j incomplete h below e = e

Ends-choose :
    {A : Type 0} (k : ℕ) (i : Text) (r s : Result A)
    → Ends k i r
    → Ends k i s
    → Ends k i (choose r s)
unfolding choose
Ends-choose k i (ok _ _) s h g = h
Ends-choose k i (failure _) s h g = h
Ends-choose k i incomplete s h g = h
Ends-choose k i (error _) (ok _ _) h g = g
Ends-choose k i (error _) (error _) h g = g
Ends-choose k i (error _) (failure _) h g = g
Ends-choose k i (error _) incomplete h g = g

Ends-optional : {A : Type 0} (i : Text) (r : Result A) → Ends 0 i r → Ends 0 i (optional i r)
Ends-optional i (ok _ _) h = h
Ends-optional i (error _) h = omega arith
Ends-optional i (failure _) h = h
Ends-optional i incomplete h = h

Ends-negated : {A : Type 0} (i : Text) (r : Result A) → Ends 0 i r → Ends 0 i (negated i r)
Ends-negated i (ok _ _) h = tt
Ends-negated i (error _) h = omega arith
Ends-negated i (failure _) h = h
Ends-negated i incomplete h = h

Ends-accepted :
    {A : Type 0} (i j : Text) (o : Option A) → length j ≤ length i → Ends 0 i (accepted i j o)
Ends-accepted i j none h = tt
Ends-accepted i j (some _) h = omega arith

Ends-weaken : {A : Type 0} (i : Text) (r : Result A) → Ends 1 i r → Ends 0 i r
Ends-weaken i (ok _ _) e = omega arith
Ends-weaken i (error _) e = tt
Ends-weaken i (failure _) e = tt
Ends-weaken i incomplete e = e

pub Takes-weaken : {A : Type 0} (n : ℕ) (p : P A) → Takes 1 n p → Takes 0 n p
Takes-weaken n p h i below = Ends-weaken i (p i) (h i below)

pub Takes-below : {A : Type 0} (k n : ℕ) (p : P A) → Takes k (suc n) p → Takes k n p
Takes-below k n p h i below = h i (omega arith)

pub Takes-remaining : {A : Type 0} (k n : ℕ) (p : P A) → Takes k n p → Takes k n (remaining p)
unfolding remaining
Takes-remaining k n p h i below = elim (IResult-cases (p i)) [
  | inl (j, o, e) ↦ rw (remaining, e) (subst (Ends k i) e (h i below))
  | inr (inl (err, e)) ↦ rw (remaining, e) tt
  | inr (inr (inl (err, e))) ↦ rw (remaining, e) tt
  | inr (inr (inr e)) ↦ absurd (subst (Ends k i) e (h i below))
]

starts_with-append : (t s : Text) → starts_with t (t ++ s) ≡ true
starts_with-append [] s = refl
starts_with-append (c ∷ t) s = ground (arith, starts_with-append t s)

pub starts_with-split : (t i : Text) → starts_with t i ≡ true → (s : Text) × (i ≡ t ++ s)
starts_with-split [] i h = (i, refl)
starts_with-split (c ∷ t) [] h = absurd (cc h)
starts_with-split (c ∷ t) (d ∷ i) h =
    let same : c ≡ d = ground arith in
    let others : starts_with t i ≡ true = ground arith in
    let (s, split) = starts_with-split t i others in
    (s, ap (λ x. x ∷ i) (sym same) ∙ ap (λ x. c ∷ x) split)

module _ (nom : Nom) (laws : NomLaws nom) where
  -- Two parsers, of which the second takes as much as is claimed, and two, of which the first does.
  pub Takes-then :
      {A B : Type 0} (k n : ℕ) (p : P A) (q : P B)
      → Takes 0 n p
      → Takes k n q
      → Takes k n (nom.tuple p q)
  Takes-then k n p q hp hq i below = subst (Ends k i) (sym (laws.tuple p q i)) (
      Ends-bind 0 k i (p i) (λ r. map_ok (q r.0) (λ b. (r.1, b))) (hp i below)
        (λ j a short.
          Ends-later 0 k k i j (map_ok (q j) (λ b. (a, b))) short (omega arith)
            (Ends-map_ok k j (q j) (λ b. (a, b)) (hq j (omega arith)))))

  pub Takes-before :
      {A B : Type 0} (k n : ℕ) (p : P A) (q : P B)
      → Takes k n p
      → Takes 0 n q
      → Takes k n (nom.tuple p q)
  Takes-before k n p q hp hq i below = subst (Ends k i) (sym (laws.tuple p q i)) (
      Ends-bind k k i (p i) (λ r. map_ok (q r.0) (λ b. (r.1, b))) (hp i below)
        (λ j a short.
          Ends-later k 0 k i j (map_ok (q j) (λ b. (a, b))) short (omega arith)
            (Ends-map_ok 0 j (q j) (λ b. (a, b)) (hq j (omega arith)))))

  -- The second parser stands behind at least one character.
  pub Takes-first :
      {A B : Type 0} (n : ℕ) (p : P A) (q : P B)
      → Takes 1 (suc n) p
      → Takes 0 n q
      → Takes 1 (suc n) (nom.tuple p q)
  Takes-first n p q hp hq i below = subst (Ends 1 i) (sym (laws.tuple p q i)) (
      Ends-bind 1 1 i (p i) (λ r. map_ok (q r.0) (λ b. (r.1, b))) (hp i below)
        (λ j a short.
          Ends-later 1 0 1 i j (map_ok (q j) (λ b. (a, b))) short (omega arith)
            (Ends-map_ok 0 j (q j) (λ b. (a, b)) (hq j (omega arith)))))

  pub Takes-alt :
      {A : Type 0} (k n : ℕ) (p q : P A) → Takes k n p → Takes k n q → Takes k n (nom.alt p q)
  Takes-alt k n p q hp hq i below =
      subst (Ends k i) (sym (laws.alt p q i))
        (Ends-choose k i (p i) (q i) (hp i below) (hq i below))

  pub Takes-map :
      {A B : Type 0} (k n : ℕ) (p : P A) (f : A → B) → Takes k n p → Takes k n (nom.map p f)
  Takes-map k n p f h i below =
      subst (Ends k i) (sym (laws.map p f i)) (Ends-map_ok k i (p i) f (h i below))

  pub Takes-map_res :
      {A B : Type 0} (n : ℕ) (p : P A) (f : A → Option B)
      → Takes 0 n p
      → Takes 0 n (nom.map_res p f)
  Takes-map_res n p f h i below = subst (Ends 0 i) (sym (laws.map_res p f i)) (
      Ends-bind 0 0 i (p i) (λ r. accepted i r.0 (f r.1)) (h i below)
        (λ j a short. Ends-accepted i j (f a) (omega arith)))

  pub Takes-recognize : {A : Type 0} (n : ℕ) (p : P A) → Takes 0 n p → Takes 0 n (nom.recognize p)
  Takes-recognize n p h i below =
      subst (Ends 0 i) (sym (laws.recognize p i))
        (Ends-bind 0 0 i (p i) (λ r. ok r.0 (taken i r.0)) (h i below) (λ j a short. omega arith))

  pub Takes-opt : {A : Type 0} (n : ℕ) (p : P A) → Takes 0 n p → Takes 0 n (nom.opt p)
  Takes-opt n p h i below =
      subst (Ends 0 i) (sym (laws.opt p i)) (Ends-optional i (p i) (h i below))

  pub Takes-not : {A : Type 0} (n : ℕ) (p : P A) → Takes 0 n p → Takes 0 n (nom.not p)
  Takes-not n p h i below = subst (Ends 0 i) (sym (laws.not p i)) (Ends-negated i (p i) (h i below))

  pub tag_custom-prefix : (t s : Text) → tag_custom nom t (t ++ s) ≡ ok s t
  unfolding tag_custom
  tag_custom-prefix t s =
      let found : nom.compare (t ++ s) t ≡ true =
        laws.compare t (t ++ s) ∙ starts_with-append t s in
      rw (tag_custom, found, laws.take_split t s) refl

  pub tag_custom-other :
      (t i : Text) → starts_with t i ≡ false → tag_custom nom t i ≡ error (from_tag i t)
  unfolding tag_custom
  tag_custom-other t i h =
      let other : nom.compare i t ≡ false = laws.compare t i ∙ h in rw (tag_custom, other) refl

  -- The tags of the parser have at least one character.
  pub Takes-tag_custom : (n : ℕ) (t : Text) → 1 ≤ length t → Takes 1 n (tag_custom nom t)
  Takes-tag_custom n t some_char i below = elim (Bool-cases (starts_with t i)) [
    | inl same ↦
        let (s, split) = starts_with-split t i same in
        subst (λ r. Ends 1 i r) (sym (ap (tag_custom nom t) split ∙ tag_custom-prefix t s))
          (omega (arith, ap length split, length-append t s))
    | inr other ↦ subst (Ends 1 i) (sym (tag_custom-other t i other)) tt
  ]

-- The repetition, with enough fuel.
many0_loop-Ends :
    {A : Type 0} (m n : ℕ) (p : P A) (i : Text) (acc : List A)
    → Takes 1 n p
    → length i < n
    → length i < m
    → Ends 0 i (or_incomplete (many0_loop m p i acc))
unfolding many0_loop
many0_loop-Ends zero n p i acc h below fuel = absurd (omega arith)
many0_loop-Ends (suc m) n p i acc h below fuel = elim (IResult-cases (p i)) [
  | inr (inl (err, e)) ↦ rw (many0_loop, e) (omega arith)
  | inr (inr (inl (err, e))) ↦ rw (many0_loop, e) tt
  | inr (inr (inr e)) ↦ absurd (subst (Ends 1 i) e (h i below))
  | inl (j, o, e) ↦
      let short : 1 + length j ≤ length i = subst (Ends 1 i) e (h i below) in
      elim (Bool-cases (j == i)) [
        | inl same ↦ rw (many0_loop, e, same) tt
        | inr moved ↦
            rw (many0_loop, e, moved)
              (Ends-later 1 0 0 i j (or_incomplete (many0_loop m p j (acc ++ o ∷ []))) short
                (omega arith)
                (many0_loop-Ends m n p j (acc ++ o ∷ []) h (omega arith) (omega arith)))
      ]
]

pub Takes-repeated_err : {A : Type 0} (n : ℕ) (p : P A) → Takes 1 n p → Takes 0 n (repeated_err p)
unfolding repeated_err many0_err
Takes-repeated_err n p h i below = many0_loop-Ends (suc (length i)) n p i [] h below (omega arith)

Ends-folded :
    {A R : Type 0} (i : Text) (o : Option (Result (List A × E))) (first : R) (g : R → A → R)
    → Ends 0 i (or_incomplete o)
    → Ends 0 i (or_incomplete (folded g first o))
Ends-folded i none first g h = h
Ends-folded i (some (ok _ (_, _))) first g h = h
Ends-folded i (some (error _)) first g h = tt
Ends-folded i (some (failure _)) first g h = tt
Ends-folded i (some incomplete) first g h = h

pub Takes-folded_err :
    {A R : Type 0} (n : ℕ) (p : P A) (first : R) (g : R → A → R)
    → Takes 1 n p
    → Takes 0 n (folded_err p first g)
unfolding folded_err repeated_err many0_err fold_many0_once_err
Takes-folded_err n p first g h i below =
    subst (λ o. Ends 0 i (or_incomplete o))
      (sym (fold_many0_once_err-many0_err (suc (length i)) p first g i))
      (Ends-folded i (many0_err (suc (length i)) p i) first g (Takes-repeated_err n p h i below))
