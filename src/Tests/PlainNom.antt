-- ===== src/Tests/PlainNom.antt =====
-- A concrete nom library, for runs of src/parsing: its parsers of numbers take digits alone, and the
-- number is its own bit pattern. It has the documented behaviour.
use map2_legacy.Base.{
  ℕ, zero, suc, ◌+◌, ◌-◌, ◌*◌, List, [], ◌∷◌, Bool, true, false, ◌||◌, ◌&&◌, Option, none, some,
  Text, nat_beq, ltb, leb, length, take, utf8_width, if◌then◌else◌,
}
use map2_legacy.Parsing.Results.{ok, error, failure, incomplete}
use map2_legacy.Parsing.Error.{or, from_error_kind}
use map2_legacy.Parsing.Nom.{Result, P, Nom}
use map2_legacy.Parsing.Keys.{starts_with}
use map2_legacy.Parsing.Lexer.{map_ok, ◌>>=◌, span}
use map2_legacy.Parsing.NomLaws.{is_blank, choose, optional, negated, accepted, taken}

abbrev pub failed : {A : Type 0} → Text → Result A
failed i = error (from_error_kind i)

-- The second alternative is tried only after an error of the first.
unfoldable pub first_of : {A : Type 0} → P A → P A → P A
unfolding choose or
first_of p q i = elim (p i) [
  | error e ↦ choose (error e) (q i)
  | ok rest a ↦ ok rest a
  | failure e ↦ failure e
  | incomplete ↦ incomplete
]

unfoldable pub repeat : {A : Type 0} → ℕ → P A → P (List A)
repeat zero p i = failed i
repeat (suc n) p i = elim (p i) [
  | error e ↦ ok i []
  | ok rest a ↦
      let others = map_ok (repeat n p rest) (λ l. a ∷ l) in
      if ltb (length rest) (length i) then others else failed i
  | failure e ↦ failure e
  | incomplete ↦ incomplete
]

abbrev pub drop : ℕ → Text → Text
drop zero s = s
drop (suc n) [] = []
drop (suc n) (c ∷ s) = drop n s

abbrev pub within : Text → ℕ → Bool
within [] c = false
within (d ∷ t) c = nat_beq c d || within t c

-- The bytes of a text, at the end of a character.
abbrev pub take_split_at : Text → ℕ → Text × Text
take_split_at [] n = ([], [])
take_split_at (c ∷ s) n =
    let (rest, front) = take_split_at s (n - utf8_width c) in
    if nat_beq n 0 then (c ∷ s, []) else (rest, c ∷ front)

abbrev pub word_tag : Text → P Text
word_tag t i = if starts_with t i then ok (drop (length t) i) t else failed i

abbrev pub up_to : Text → Text → Option (Text × Text)
up_to t [] = none
up_to t (c ∷ s) =
    let later = up_to t s in
    if starts_with t (c ∷ s)
    then some (c ∷ s, [])
    else elim later [ none ↦ none | some r ↦ some (r.0, c ∷ r.1) ]

abbrev pub of_up_to : Text → Option (Text × Text) → Result Text
of_up_to i none = failed i
of_up_to i (some (rest, front)) = ok rest front

abbrev pub not_empty : Text → Text × Text → Result Text
not_empty i ([], rest) = failed i
not_empty i (c ∷ s, rest) = ok rest (c ∷ s)

abbrev pub front : ℕ → P Text
front n i = if leb n (length i) then ok (drop n i) (take n i) else failed i

abbrev pub one : Text → P ℕ
one t [] = failed []
one t (c ∷ s) = if within t c then ok s c else failed (c ∷ s)

abbrev pub value_of_digits : ℕ → Text → ℕ
value_of_digits n [] = n
value_of_digits n (c ∷ s) = value_of_digits (10 * n + (c - b'0')) s

abbrev pub digits : Text → Text × Text
digits = span (λ c. leb b'0' c && leb c b'9')

abbrev pub plain_nom : Nom
plain_nom = record {
  tuple = λ p q i. p i >>= λ r. map_ok (q r.0) (λ b. (r.1, b));
  alt = first_of;
  map = λ p f i. map_ok (p i) f;
  map_res = λ p f i. p i >>= λ r. accepted i r.0 (f r.1);
  recognize = λ p i. p i >>= λ r. ok r.0 (taken i r.0);
  opt = λ p i. optional i (p i);
  not = λ p i. negated i (p i);
  many0 = λ p i. repeat (suc (length i)) p i;
  many1 = λ p i. p i >>= λ r. map_ok (repeat (suc (length r.0)) p r.0) (λ l. r.1 ∷ l);
  tag = word_tag;
  is_not = λ t i. not_empty i (span (λ c. elim (within t c) [ true ↦ false | false ↦ true ]) i);
  take_until = λ t i. of_up_to i (up_to t i);
  take = front;
  one_of = one;
  multispace0 = λ i. let (spaces, rest) = span is_blank i in ok rest spaces;
  multispace1 = λ i. not_empty i (span is_blank i);
  double = λ i. map_ok (not_empty i (digits i)) (value_of_digits 0);
  compare = λ i t. starts_with t i;
  take_split = take_split_at;
}
