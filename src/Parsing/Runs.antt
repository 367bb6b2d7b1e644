-- ===== src/Parsing/Runs.antt =====
-- src/parsing: the result of a parser that is built from others, from their results.
use map2_legacy.Base.{
  ◌≡◌, refl, ap, ◌∙◌, ℕ, zero, suc, ◌<◌, [], ◌∷◌, Bool, true, false, ◌&&◌, not, Option, some, Text,
  text_eq, text_beq_iff, ◌==◌, length, codes, Bool-cases, inl, inr, arith,
}
use map2_legacy.Ast.{Expr}
use map2_legacy.Parsing.Results.{ok, error}
use map2_legacy.Parsing.Error.{custom_parse_error}
use map2_legacy.Parsing.Nom.{E, Result, P, PNew, Libraries}
use map2_legacy.Parsing.NomLaws.{choose, NomLaws, is_blank}
use map2_legacy.Parsing.Keys.{starts_with}
use map2_legacy.Parsing.Combinators.{fold_many0_once_err}
use map2_legacy.Parsing.Lexer.{
  map_err, map_ok, ◌>>=◌, span, line_comment, inline_comment, comments, ws0,
}
use map2_legacy.Parsing.Expressions.{
  folded_err, folding, some_error, or_incomplete, operation, level,
}

pub relabel-ok :
    {A B : Type 0} (r other : Result A) (f : A → B) (k : Text) (a : A)
    → r ≡ ok k a
    → map_ok (map_err r other) f ≡ ok k (f a)
relabel-ok r other f k a e = ap (λ r. map_ok (map_err r other) f) e

pub relabel-error :
    {A B : Type 0} (r : Result A) (f : A → B) (err err₁ : E)
    → r ≡ error err
    → map_ok (map_err r (error err₁)) f ≡ error err₁
relabel-error r f err err₁ e = ap (λ r. map_ok (map_err r (error err₁)) f) e

-- A text that starts with no white space and no comment.
abbrev pub solid : Text → Bool
solid [] = false
solid (c ∷ s) =
    not (is_blank c)
    && (not (starts_with (codes "//") (c ∷ s)) && not (starts_with (codes "/*") (c ∷ s)))

fold-stops :
    {A R : Type 0} (n : ℕ) (q : P A) (first : R) (g : R → A → R) (s : Text) (err : E)
    → q s ≡ error err
    → fold_many0_once_err (suc n) q first g s ≡ some (ok s (first, err))
unfolding fold_many0_once_err
fold-stops n q first g s err h = rw (fold_many0_once_err, h) refl

fold-some :
    {A R : Type 0} (n : ℕ) (q : P A) (first : R) (g : R → A → R) (s : Text) (err : E)
    → 0 < n
    → q s ≡ error err
    → fold_many0_once_err n q first g s ≡ some (ok s (first, err))
fold-some zero q first g s err h e = absurd (omega arith)
fold-some (suc n) q first g s err h e = fold-stops n q first g s err e

fold-once :
    {A R : Type 0} (n : ℕ) (q : P A) (first : R) (g : R → A → R) (s t : Text) (a : A)
    → q s ≡ ok t a
    → (t == s) ≡ false
    → fold_many0_once_err (suc n) q first g s ≡ fold_many0_once_err n q (g first a) g t
unfolding fold_many0_once_err
fold-once n q first g s t a h moved = rw (fold_many0_once_err, h, moved) refl

shorter-differs : (t s : Text) → length t < length s → (t == s) ≡ false
shorter-differs t s h = elim (Bool-cases (t == s)) [
  | inr other ↦ other
  | inl same ↦ absurd (omega (arith, ap length ((text_beq_iff t s).0 same)))
]

module _ (lib : Libraries) (laws : NomLaws lib.nom) where
  pub alt-first :
      {A : Type 0} (p q : P A) (i k : Text) (a : A) → p i ≡ ok k a → lib.nom.alt p q i ≡ ok k a
  unfolding choose
  alt-first p q i k a e = laws.alt p q i ∙ ap (λ r. choose r (q i)) e

  pub alt-second :
      {A : Type 0} (p q : P A) (i k : Text) (err : E) (a : A)
      → p i ≡ error err
      → q i ≡ ok k a
      → lib.nom.alt p q i ≡ ok k a
  unfolding choose
  alt-second p q i k err a e h =
      laws.alt p q i ∙ (ap (λ r. choose r (q i)) e ∙ ap (λ r. choose (error err) r) h)

  pub alt-neither :
      {A : Type 0} (p q : P A) (i : Text) (err err₁ : E)
      → p i ≡ error err
      → q i ≡ error err₁
      → (last : E) × (lib.nom.alt p q i ≡ error last)
  unfolding choose
  alt-neither p q i err err₁ e h =
      (_, laws.alt p q i ∙ (ap (λ r. choose r (q i)) e ∙ ap (λ r. choose (error err) r) h))

  pub tuple-error :
      {A B : Type 0} (p : P A) (q : P B) (i : Text) (err : E)
      → p i ≡ error err
      → lib.nom.tuple p q i ≡ error err
  tuple-error p q i err e = laws.tuple p q i ∙ ap (λ r. r >>= λ r. map_ok (q r.0) (λ b. (r.1, b))) e

  pub map-error :
      {A B : Type 0} (p : P A) (f : A → B) (i : Text) (err : E)
      → p i ≡ error err
      → lib.nom.map p f i ≡ error err
  map-error p f i err e = laws.map p f i ∙ ap (λ r. map_ok r f) e

  pub map-ok :
      {A B : Type 0} (p : P A) (f : A → B) (i k : Text) (a : A)
      → p i ≡ ok k a
      → lib.nom.map p f i ≡ ok k (f a)
  map-ok p f i k a e = laws.map p f i ∙ ap (λ r. map_ok r f) e

  pub tuple-both :
      {A B : Type 0} (p : P A) (q : P B) (i j k : Text) (a : A) (b : B)
      → p i ≡ ok j a
      → q j ≡ ok k b
      → lib.nom.tuple p q i ≡ ok k (a, b)
  tuple-both p q i j k a b e h =
      laws.tuple p q i
      ∙ (ap (λ r. r >>= λ r. map_ok (q r.0) (λ b. (r.1, b))) e ∙ ap (λ r. map_ok r (λ b. (a, b))) h)

  pub tuple-second_error :
      {A B : Type 0} (p : P A) (q : P B) (i j : Text) (a : A) (err : E)
      → p i ≡ ok j a
      → q j ≡ error err
      → lib.nom.tuple p q i ≡ error err
  tuple-second_error p q i j a err e h =
      laws.tuple p q i
      ∙ (ap (λ r. r >>= λ r. map_ok (q r.0) (λ b. (r.1, b))) e ∙ ap (λ r. map_ok r (λ b. (a, b))) h)

  comments-none :
      (s : Text)
      → starts_with (codes "//") s ≡ false
      → starts_with (codes "/*") s ≡ false
      → comments lib.nom s ≡ ok s []
  unfolding comments line_comment inline_comment
  comments-none s no_line no_inline =
      let (e₁, line) = laws.tag_none (codes "//") s no_line in
      let (e₂, inline) = laws.tag_none (codes "/*") s no_inline in
      let (e, neither) =
        alt-neither _ _ s e₁ e₂ (map-error _ _ s e₁ (tuple-error _ _ s e₁ line))
          (map-error _ _ s e₂ (tuple-error _ _ s e₂ inline)) in
      laws.many0_none _ s e (tuple-error _ _ s e neither)

  ws0-then :
      (i s blanks : Text)
      → lib.nom.multispace0 i ≡ ok s blanks
      → solid s ≡ true
      → ws0 lib.nom i ≡ ok s tt
  unfolding ws0
  ws0-then i [] blanks e h = absurd (cc h)
  ws0-then i (c ∷ s) blanks e h = map-ok _ _ i (c ∷ s) _ (
      tuple-both _ _ i (c ∷ s) (c ∷ s) blanks [] e
        (comments-none (c ∷ s) (ground arith) (ground arith)))

  span-none : (c : ℕ) (s : Text) → is_blank c ≡ false → span is_blank (c ∷ s) ≡ ([], c ∷ s)
  span-none c s h = rw h refl

  pub ws0-solid : (s : Text) → solid s ≡ true → ws0 lib.nom s ≡ ok s tt
  ws0-solid [] h = absurd (cc h)
  ws0-solid (c ∷ s) h =
      let none_there = span-none c s (ground arith) in
      ws0-then (c ∷ s) (c ∷ s) []
        (laws.multispace0 (c ∷ s) ∙ ap (λ (r : Text × Text). ok r.1 r.0) none_there) h

  pub ws0-space : (s : Text) → solid s ≡ true → ws0 lib.nom (b' ' ∷ s) ≡ ok s tt
  ws0-space [] h = absurd (cc h)
  ws0-space (c ∷ s) h =
      let none_there = span-none c s (ground arith) in
      ws0-then (b' ' ∷ c ∷ s) (c ∷ s) (b' ' ∷ [])
        (laws.multispace0 (b' ' ∷ c ∷ s) ∙ ap (λ (r : Text × Text). ok r.1 (b' ' ∷ r.0)) none_there)
        h

  module _ (ops : P Text) (build : Expr → Text → Expr → Expr) (p : PNew Expr) where
    -- What a level does with its first operand.
    unfoldable next : Text × (Expr × Option E) → Result (Expr × Option E)
    unfolding folded_err fold_many0_once_err
    next r = map_ok (folded_err (operation lib ops p) r.1.0 (folding build) r.0) some_error

    -- An operand that no operator follows.
    pub level-operand :
        (i s : Text) (e : Expr) (last : Option E) (err : E)
        → p i ≡ ok s (e, last)
        → operation lib ops p s ≡ error err
        → level lib ops build p i ≡ ok s (e, some err)
    unfolding next folded_err
    level-operand i s e last err h stops =
        ap (λ r. r >>= next) h
        ∙ ap (λ o. map_ok (or_incomplete o) some_error)
            (fold-stops (length s) (operation lib ops p) e (folding build) s err stops)

    -- Two operands, with an operator between them.
    pub level-operation :
        (i s t : Text) (e : Expr) (last : Option E)
        (o : Unit {0} × (Text × (Unit {0} × (Expr × Option E)))) (err : E)
        → p i ≡ ok s (e, last)
        → operation lib ops p s ≡ ok t o
        → length t < length s
        → operation lib ops p t ≡ error err
        → level lib ops build p i ≡ ok t (folding build e o, some err)
    unfolding next folded_err
    level-operation i s t e last o err h goes shorter stops =
        let q = operation lib ops p in
        let moved : (t == s) ≡ false = shorter-differs t s shorter in
        ap (λ r. r >>= next) h
        ∙ ap (λ o. map_ok (or_incomplete o) some_error)
            (fold-once (length s) q e (folding build) s t o goes moved
              ∙ fold-some (length s) q (folding build e o) (folding build) t err (omega arith)
                  stops)
