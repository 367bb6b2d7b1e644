-- ===== src/Tests/PlainLaws.antt =====
-- The concrete nom library has the behaviour that src/parsing relies on.
use map2_legacy.Parsing.Error.{from_error_kind}
use mathlib.Core.Path.{subst}
use map2_legacy.Base.{
  ◌≡◌, refl, ap, ◌∙◌, ℕ, zero, suc, ◌+◌, ◌-◌, ◌≤◌, [], ◌∷◌, ◌++◌, false, Option, none, some, Text,
  nat_beq, ltb, leb, length, utf8_width, utf8_length, Bool-cases, inl, inr, arith,
}
use map2_legacy.Parsing.Results.{ok, error, IResult-cases}
use map2_legacy.Parsing.Nom.{E, P}
use map2_legacy.Parsing.Keys.{starts_with}
use map2_legacy.Parsing.NomLaws.{is_blank, Ends, Takes, choose, NomLaws}
use map2_legacy.Parsing.Progress.{Ends-map_ok, Ends-bind, Ends-later}
use map2_legacy.Parsing.Progress.Tokens.{length-span}
use map2_legacy.Tests.PlainNom.{
  first_of, repeat, drop, within, take_split_at, word_tag, up_to, of_up_to, not_empty, front, one,
  plain_nom,
}

first_of-choose : {A : Type 0} (p q : P A) (i : Text) → first_of p q i ≡ choose (p i) (q i)
unfolding first_of choose
first_of-choose p q i = elim (IResult-cases (p i)) [
  | inl (j, o, e) ↦ rw (first_of, choose, e) refl
  | inr (inl (err, e)) ↦ rw (first_of, choose, e) refl
  | inr (inr (inl (err, e))) ↦ rw (first_of, choose, e) refl
  | inr (inr (inr e)) ↦ rw (first_of, choose, e) refl
]

repeat-Takes : {A : Type 0} (m n : ℕ) (p : P A) → Takes 0 n p → Takes 0 n (repeat m p)
unfolding repeat
repeat-Takes zero n p h i below = tt
repeat-Takes (suc m) n p h i below = elim (IResult-cases (p i)) [
  | inr (inl (err, e)) ↦ rw (repeat, e) (omega arith)
  | inr (inr (inl (err, e))) ↦ rw (repeat, e) tt
  | inr (inr (inr e)) ↦ absurd (subst (Ends 0 i) e (h i below))
  | inl (j, o, e) ↦
      let short : 0 + length j ≤ length i = subst (Ends 0 i) e (h i below) in
      elim (Bool-cases (ltb (length j) (length i))) [
        | inr same ↦ rw (repeat, e, same) tt
        | inl moved ↦
            rw (repeat, e, moved)
              (Ends-later 0 0 0 i j _ short (omega arith)
                (Ends-map_ok 0 j _ _ (repeat-Takes m n p h j (omega arith))))
      ]
]

length-drop : (n : ℕ) (s : Text) → length (drop n s) ≤ length s
length-drop zero s = omega arith
length-drop (suc n) [] = omega arith
length-drop (suc n) (c ∷ s) = omega (arith, length-drop n s)

Fits : Text → Option (Text × Text) → Type 0
Fits i none = Unit
Fits i (some r) = length r.0 ≤ length i

up_to-Fits : (t i : Text) → Fits i (up_to t i)
unfolding Fits
up_to-Fits t [] = tt
up_to-Fits t (c ∷ s) = elim (Bool-cases (starts_with t (c ∷ s))) [
  | inl e ↦ rw e (omega arith)
  | inr e ↦ rw e (later (up_to t s) (up_to-Fits t s))
]
  where
    later :
        (o : Option (Text × Text))
        → Fits s o
        → Fits (c ∷ s) (elim o [ none ↦ none | some r ↦ some (r.0, c ∷ r.1) ])
    later none h = tt
    later (some r) h = omega arith

Ends-of_up_to : (i : Text) (o : Option (Text × Text)) → Fits i o → Ends 0 i (of_up_to i o)
unfolding Fits
Ends-of_up_to i none h = tt
Ends-of_up_to i (some (_, _)) h = omega arith

Ends-not_empty : (i : Text) (r : Text × Text) → length r.1 ≤ length i → Ends 0 i (not_empty i r)
Ends-not_empty i ([], rest) h = tt
Ends-not_empty i (c ∷ s, rest) h = omega arith

Ends-one : (t i : Text) → Ends 0 i (one t i)
Ends-one t [] = tt
Ends-one t (c ∷ s) = elim (Bool-cases (within t c)) [ inl e ↦ rw e (omega arith) | inr e ↦ rw e tt ]

Ends-word_tag : (t i : Text) → Ends 0 i (word_tag t i)
Ends-word_tag t i = elim (Bool-cases (starts_with t i)) [
  | inl e ↦ rw e (omega (arith, length-drop (length t) i))
  | inr e ↦ rw e tt
]

Ends-front : (n : ℕ) (i : Text) → Ends 0 i (front n i)
Ends-front n i = elim (Bool-cases (leb n (length i))) [
  | inl e ↦ rw e (omega (arith, length-drop n i))
  | inr e ↦ rw e tt
]

utf8_width-pos : (c : ℕ) → 1 ≤ utf8_width c
utf8_width-pos c = ground arith

take_split-step :
    (c : ℕ) (s : Text) (n m : ℕ)
    → n ≡ utf8_width c + m
    → take_split_at (c ∷ s) n ≡ ((take_split_at s m).0, c ∷ (take_split_at s m).1)
take_split-step c s n m h =
    let some_bytes : nat_beq n 0 ≡ false = ground (arith, utf8_width-pos c) in
    let left : n - utf8_width c ≡ m = omega arith in rw (some_bytes, left) refl

take_split-tag : (t s : Text) → take_split_at (t ++ s) (utf8_length t) ≡ (s, t)
take_split-tag [] [] = refl
take_split-tag [] (c ∷ s) = refl
take_split-tag (d ∷ t) s =
    take_split-step d (t ++ s) (utf8_length (d ∷ t)) (utf8_length t) refl
    ∙ ap (λ (r : Text × Text). (r.0, d ∷ r.1)) (take_split-tag t s)

repeat-none :
    {A : Type 0} (p : P A) (i : Text) (e : E)
    → p i ≡ error e
    → repeat (suc (length i)) p i ≡ ok i []
unfolding repeat
repeat-none p i e h = rw (repeat, h) refl

word_tag-none : (t i : Text) → starts_with t i ≡ false → (e : E) × (word_tag t i ≡ error e)
word_tag-none t i h = (from_error_kind i, rw h refl)

pub plain_laws : NomLaws plain_nom
plain_laws = record {
  tuple = λ p q i. refl;
  alt = first_of-choose;
  map = λ p f i. refl;
  map_res = λ p f i. refl;
  recognize = λ p i. refl;
  opt = λ p i. refl;
  not = λ p i. refl;
  many0 = λ p n h i below. repeat-Takes (suc (length i)) n p h i below;
  many1 = λ p n h i below. Ends-bind 0 0 i _ _ (h i below) (λ j a short.
      Ends-later 0 0 0 i j _ short (omega arith)
        (Ends-map_ok 0 j _ _ (repeat-Takes (suc (length j)) n p h j (omega arith))));
  tag = Ends-word_tag;
  is_not = λ t i. Ends-not_empty i _ (length-span _ i);
  take_until = λ t i. Ends-of_up_to i _ (up_to-Fits t i);
  take = Ends-front;
  one_of = Ends-one;
  multispace0 = λ i. refl;
  many0_none = repeat-none;
  tag_none = word_tag-none;
  multispace1 = λ i. Ends-not_empty i _ (length-span is_blank i);
  double = λ i. Ends-map_ok 0 i _ _ (Ends-not_empty i _ (length-span _ i));
  compare = λ t i. refl;
  take_split = take_split-tag;
}
