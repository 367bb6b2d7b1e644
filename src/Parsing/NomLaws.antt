-- ===== src/Parsing/NomLaws.antt =====
-- What src/parsing relies on in the nom library: its documented behaviour, as hypotheses on the
-- parameters of Parsing/Nom.
use map2_legacy.Base.{
  false, [], Bool, ◌||◌, nat_beq, ◌≡◌, ℕ, ◌+◌, ◌-◌, ◌≤◌, ◌<◌, ◌++◌, Option, none, some, Text,
  length, take, utf8_length,
}
use map2_legacy.Parsing.Results.{ok, error, failure, incomplete}
use map2_legacy.Parsing.Error.{or, from_error_kind}
use map2_legacy.Parsing.Nom.{E, Result, P, Nom}
use map2_legacy.Parsing.Keys.{starts_with}
use map2_legacy.Parsing.Lexer.{span, map_ok, ◌>>=◌}

-- The way in which a parser ends that was given a text: it takes at least so many characters where it
-- succeeds, and it does not ask for more.
abbrev pub Ends : {A : Type 0} → ℕ → Text → Result A → Type 0
Ends k input (ok rest _) = k + length rest ≤ length input
Ends k input (error _) = Unit
Ends k input (failure _) = Unit
Ends k input incomplete = ⊥

-- A parser that ends so on each text shorter than `n`.
abbrev pub Takes : {A : Type 0} → ℕ → ℕ → P A → Type 0
Takes k n p = (input : Text) → length input < n → Ends k input (p input)

-- The second alternative, after an error of the first.
unfoldable pub choose : {A : Type 0} → Result A → Result A → Result A
unfolding or
choose (error e) (error e₁) = error (or utf8_length e e₁)
choose (error e) (ok rest a) = ok rest a
choose (error e) (failure e₁) = failure e₁
choose (error e) incomplete = incomplete
choose (ok rest a) other = ok rest a
choose (failure e) other = failure e
choose incomplete other = incomplete

abbrev pub optional : {A : Type 0} → Text → Result A → Result (Option A)
optional input (ok rest a) = ok rest (some a)
optional input (error _) = ok input none
optional input (failure e) = failure e
optional input incomplete = incomplete

abbrev pub negated : {A : Type 0} → Text → Result A → Result (Unit {0})
negated input (ok _ _) = error (from_error_kind input)
negated input (error _) = ok input tt
negated input (failure e) = failure e
negated input incomplete = incomplete

abbrev pub accepted : {A : Type 0} → Text → Text → Option A → Result A
accepted input rest none = error (from_error_kind input)
accepted input rest (some a) = ok rest a

-- The text up to what is left of it.
abbrev pub taken : Text → Text → Text
taken input rest = take (length input - length rest) input

-- A space, a tab, or an end of a line.
abbrev pub is_blank : ℕ → Bool
is_blank c = nat_beq c b' ' || (nat_beq c 9 || (nat_beq c 13 || nat_beq c 10))

pub record NomLaws (nom : Nom) : Type 1 where
  pub tuple :
      {A B : Type 0} (p : P A) (q : P B) (i : Text)
      → nom.tuple p q i ≡ (p i >>= λ r. map_ok (q r.0) (λ b. (r.1, b)))
  pub alt : {A : Type 0} (p q : P A) (i : Text) → nom.alt p q i ≡ choose (p i) (q i)
  pub map : {A B : Type 0} (p : P A) (f : A → B) (i : Text) → nom.map p f i ≡ map_ok (p i) f
  pub map_res :
      {A B : Type 0} (p : P A) (f : A → Option B) (i : Text)
      → nom.map_res p f i ≡ (p i >>= λ r. accepted i r.0 (f r.1))
  pub recognize :
      {A : Type 0} (p : P A) (i : Text) → nom.recognize p i ≡ (p i >>= λ r. ok r.0 (taken i r.0))
  pub opt : {A : Type 0} (p : P A) (i : Text) → nom.opt p i ≡ optional i (p i)
  pub not : {A : Type 0} (p : P A) (i : Text) → nom.not p i ≡ negated i (p i)
  pub many0 : {A : Type 0} (p : P A) (n : ℕ) → Takes 0 n p → Takes 0 n (nom.many0 p)
  pub many0_none :
      {A : Type 0} (p : P A) (i : Text) (e : E) → p i ≡ error e → nom.many0 p i ≡ ok i []
  pub tag_none : (t i : Text) → starts_with t i ≡ false → (e : E) × (nom.tag t i ≡ error e)
  pub many1 : {A : Type 0} (p : P A) (n : ℕ) → Takes 0 n p → Takes 0 n (nom.many1 p)
  pub tag : (t i : Text) → Ends 0 i (nom.tag t i)
  pub is_not : (t i : Text) → Ends 0 i (nom.is_not t i)
  pub take_until : (t i : Text) → Ends 0 i (nom.take_until t i)
  pub take : (n : ℕ) (i : Text) → Ends 0 i (nom.take n i)
  pub one_of : (t i : Text) → Ends 0 i (nom.one_of t i)
  pub multispace0 :
      (i : Text) → nom.multispace0 i ≡ (let (blanks, rest) = span is_blank i in ok rest blanks)
  pub multispace1 : (i : Text) → Ends 0 i (nom.multispace1 i)
  pub double : (i : Text) → Ends 0 i (nom.double i)
  pub compare : (t i : Text) → nom.compare i t ≡ starts_with t i
  pub take_split : (t s : Text) → nom.take_split (t ++ s) (utf8_length t) ≡ (s, t)
