-- ===== src/Parsing/Precedence.antt =====
-- src/parsing/expression.rs: the loops of operators against a grammar that is recursive on the left.
use mathlib.Core.Path.{subst}
use map2_legacy.Base.{
  ◌≡◌, refl, sym, ap, ◌∙◌, ◌⊎◌, codes, ◌++◌, ℕ, zero, suc, Option, none, some, Text, text_eq, ◌==◌,
  length, Bool-cases, inl, inr,
}
use map2_legacy.Ast.{Expr, eq, neq, lt, gt, add, sub, mul, div, and, or}
use map2_legacy.Parsing.Results.{ok, error, failure, incomplete, IResult-cases}
use map2_legacy.Parsing.Error.{custom_parse_error}
use map2_legacy.Parsing.Nom.{E, Result, P, PNew, Libraries}
use map2_legacy.Parsing.NomLaws.{choose, NomLaws}
use map2_legacy.Parsing.Keys.{starts_with}
use map2_legacy.Parsing.Progress.{tag_custom-prefix, tag_custom-other, starts_with-split}
use map2_legacy.Parsing.Combinators.{fold_many0_once_err}
use map2_legacy.Parsing.Lexer.{map_ok, ◌>>=◌, tag_custom, ws0}
use map2_legacy.Parsing.Expressions.{
  or_incomplete, folded_err, folding, some_error, build_2, build_1, build_0, operation, level,
  operators_2, operators_1, operators_0, expr_2, expr_1, expr_0,
}

-- A phrase: what a text starts with, and what is left of it.
abbrev pub Phrase : Type 1
Phrase = Text → Expr → Text → Type 0

-- What a parser gives.
abbrev pub Given : PNew Expr → Phrase
Given p i e k = (last : Option E) × (p i ≡ ok k (e, last))

-- An operator, and what it makes of its operands.
pub data ProductOperator : Text → (Expr → Expr → Expr) → Type 0 where
  times : ProductOperator (codes "*") mul
  over : ProductOperator (codes "/") div

pub data SumOperator : Text → (Expr → Expr → Expr) → Type 0 where
  plus : SumOperator (codes "+") add
  minus : SumOperator (codes "-") sub

pub data TestOperator : Text → (Expr → Expr → Expr) → Type 0 where
  equal : TestOperator (codes "==") eq
  not_equal : TestOperator (codes "!=") neq
  both : TestOperator (codes "&&") and
  either : TestOperator (codes "||") or
  less : TestOperator (codes "<") lt
  greater : TestOperator (codes ">") gt

module _ (lib : Libraries) where
  -- `Chain := Operand | Chain operator Operand`, with white space around the operator.
  pub data Chain (Operator : Text → (Expr → Expr → Expr) → Type 0) (Operand : Phrase)
      : Text → Expr → Text → Type 0 where
    operand : {i k : Text} {e : Expr} → Operand i e k → Chain Operator Operand i e k
    operator :
        {i j j₃ k : Text} {l r : Expr} {op : Text} {f : Expr → Expr → Expr} (rest : Text)
        → Chain Operator Operand i l j
        → Operator op f
        → ws0 lib.nom j ≡ ok (op ++ rest) tt
        → ws0 lib.nom rest ≡ ok j₃ tt
        → Operand j₃ r k
        → Chain Operator Operand i (f l r) k

  abbrev pub Product : Phrase → Phrase
  Product = Chain ProductOperator

  abbrev pub Sum : Phrase → Phrase
  Sum Operand = Chain SumOperator (Product Operand)

  -- Comparisons, `&&` and `||` are one level.
  abbrev pub Expression : Phrase → Phrase
  Expression Operand = Chain TestOperator (Sum Operand)

-- An operator that was read, and that `build` applies, is one of the grammar.
abbrev Means :
    (Expr → Text → Expr → Expr)
    → (Text → (Expr → Expr → Expr) → Type 0)
    → Text
    → Text
    → Text
    → Type 0
Means build Operator j k op =
    (f : Expr → Expr → Expr) × Operator op f × (j ≡ op ++ k) × ((l r : Expr) → build l op r ≡ f l r)

bind-ok :
    {A B : Type 0} (r : Result A) (f : Text × A → Result B) (k : Text) (b : B)
    → (r >>= f) ≡ ok k b
    → (j : Text) × (a : A) × (r ≡ ok j a) × (f (j, a) ≡ ok k b)
bind-ok (ok j a) f k b e = (j, a, refl, e)
bind-ok (error _) f k b e = absurd (cc e)
bind-ok (failure _) f k b e = absurd (cc e)
bind-ok incomplete f k b e = absurd (cc e)

map_ok-ok :
    {A B : Type 0} (r : Result A) (f : A → B) (k : Text) (b : B)
    → map_ok r f ≡ ok k b
    → (a : A) × (r ≡ ok k a) × (f a ≡ b)
map_ok-ok (ok j a) f k b e = (a, (cc e), (cc e))
map_ok-ok (error _) f k b e = absurd (cc e)
map_ok-ok (failure _) f k b e = absurd (cc e)
map_ok-ok incomplete f k b e = absurd (cc e)

or_incomplete-ok :
    {A : Type 0} (o : Option (Result A)) (k : Text) (a : A)
    → or_incomplete o ≡ ok k a
    → o ≡ some (ok k a)
or_incomplete-ok none k a e = absurd (cc e)
or_incomplete-ok (some r) k a e = ap some e

-- The text and the value of a success.
abbrev rest_value : {A : Type 0} → Text × A → Option (Result A) → Text × A
rest_value d (some (ok k a)) = (k, a)
rest_value d _ = d

choose-ok :
    {A : Type 0} (r s : Result A) (k : Text) (a : A)
    → choose r s ≡ ok k a
    → (r ≡ ok k a) ⊎ (s ≡ ok k a)
unfolding choose
choose-ok (ok _ _) s k a e = inl e
choose-ok (failure _) s k a e = absurd (cc e)
choose-ok incomplete s k a e = absurd (cc e)
choose-ok (error _) (ok _ _) k a e = inr e
choose-ok (error _) (error _) k a e = absurd (cc e)
choose-ok (error _) (failure _) k a e = absurd (cc e)
choose-ok (error _) incomplete k a e = absurd (cc e)

module _ (lib : Libraries) (laws : NomLaws lib.nom) where
  tuple-ok :
      {A B : Type 0} (p : P A) (q : P B) (i k : Text) (o : A × B)
      → lib.nom.tuple p q i ≡ ok k o
      → (j : Text) × (p i ≡ ok j o.0) × (q j ≡ ok k o.1)
  tuple-ok {A = A} {B = B} p q i k o e =
      let (j, a, first, rest) = bind-ok (p i) _ k o (sym (laws.tuple p q i) ∙ e) in
      let (b, second, same) = map_ok-ok (q j) _ k o rest in
      (j, first ∙ ap (λ (r : A × B). ok j r.0) same, second ∙ ap (λ (r : A × B). ok k r.1) same)

  tag-ok : (t i k v : Text) → tag_custom lib.nom t i ≡ ok k v → (v ≡ t) × (i ≡ t ++ k)
  tag-ok t i k v e = elim (Bool-cases (starts_with t i)) [
    | inr other ↦ absurd (cc (sym (tag_custom-other lib.nom laws t i other) ∙ e))
    | inl same ↦
        let (s, split) = starts_with-split t i same in
        let found : ok s t ≡ tag_custom lib.nom t i =
          sym (ap (tag_custom lib.nom t) split ∙ tag_custom-prefix lib.nom laws t s) in
        let r : ok s t ≡ ok k v = found ∙ e in ((cc r), (cc r))
  ]

  alt-ok :
      {A : Type 0} (p q : P A) (i k : Text) (a : A)
      → lib.nom.alt p q i ≡ ok k a
      → (p i ≡ ok k a) ⊎ (q i ≡ ok k a)
  alt-ok p q i k a e = choose-ok (p i) (q i) k a (sym (laws.alt p q i) ∙ e)

  module _ (build : Expr → Text → Expr → Expr)
      (Operator : Text → (Expr → Expr → Expr) → Type 0) where
    Sound : P Text → Type 0
    Sound ops = (j k op : Text) → ops j ≡ ok k op → Means build Operator j k op

    Sound-tag :
        (t : Text) (f : Expr → Expr → Expr)
        → Operator t f
        → ((l r : Expr) → build l t r ≡ f l r)
        → Sound (tag_custom lib.nom t)
    unfolding Sound
    Sound-tag t f is builds j k op e =
        let (same, split) = tag-ok t j k op e in
        subst (λ o. Means build Operator j k o) (sym same) (f, is, split, builds)

    Sound-alt : (p q : P Text) → Sound p → Sound q → Sound (lib.nom.alt p q)
    unfolding Sound
    Sound-alt p q hp hq j k op e = elim (alt-ok p q j k op e) [
      | inl first ↦ hp j k op first
      | inr second ↦ hq j k op second
    ]

  module _ (ops : P Text) (build : Expr → Text → Expr → Expr) (p : PNew Expr)
      (Operator : Text → (Expr → Expr → Expr) → Type 0) (Operand : Phrase)
      (means : Sound build Operator ops)
      (sound : (i k : Text) (e : Expr) → Given p i e k → Operand i e k) where
    Chain-operation :
        (i j k : Text) (l : Expr) (o : Unit {0} × (Text × (Unit {0} × (Expr × Option E))))
        → operation lib ops p j ≡ ok k o
        → Chain lib Operator Operand i l j
        → Chain lib Operator Operand i (build l o.1.0 o.1.1.1.0) k
    unfolding Sound
    Chain-operation i j k l o e c =
        let (j₁, blank, rest₁) = tuple-ok _ _ j k o e in
        let (j₂, op, rest₂) = tuple-ok _ _ j₁ k o.1 rest₁ in
        let (j₃, blank₂, val) = tuple-ok _ _ j₂ k o.1.1 rest₂ in
        let (f, is, split, builds) = means j₁ j₂ o.1.0 op in
        subst (λ x. Chain lib Operator Operand i x k) (sym (builds l o.1.1.1.0))
          (operator j₂ c is (blank ∙ ap (λ x. ok x tt) split) blank₂
            (sound j₃ k o.1.1.1.0 (o.1.1.1.1, val)))

    Chain-folded :
        (n : ℕ) (i j k : Text) (acc e : Expr) (err : E)
        → Chain lib Operator Operand i acc j
        → fold_many0_once_err n (operation lib ops p) acc (folding build) j ≡ some (ok k (e, err))
        → Chain lib Operator Operand i e k
    unfolding fold_many0_once_err
    Chain-folded zero i j k acc e err c = λ h. absurd (cc h)
    Chain-folded (suc n) i j k acc e err c = elim (IResult-cases (operation lib ops p j)) [
      | inr (inl (err₁, e₁)) ↦
          rw (fold_many0_once_err, e₁)
            (λ h.
              subst (λ (r : Text × (Expr × E)). Chain lib Operator Operand i r.1.0 r.0)
                (ap (rest_value (j, (acc, err₁))) h) c)
      | inr (inr (inl (err₁, e₁))) ↦ rw (fold_many0_once_err, e₁) (λ h. absurd (cc h))
      | inr (inr (inr e₁)) ↦ rw (fold_many0_once_err, e₁) (λ h. absurd (cc h))
      | inl (j₁, o, e₁) ↦ elim (Bool-cases (j₁ == j)) [
        | inl same ↦ rw (fold_many0_once_err, e₁, same) (λ h. absurd (cc h))
        | inr moved ↦
            rw (fold_many0_once_err, e₁, moved)
              (Chain-folded n i j₁ k (folding build acc o) e err
                (Chain-operation i j j₁ acc o e₁ c))
      ]
    ]

    Chain-level :
        (i k : Text) (e : Expr)
        → Given (level lib ops build p) i e k
        → Chain lib Operator Operand i e k
    unfolding folded_err
    Chain-level i k e (last, h) =
        let (j, (first, last₁), begins, rest) = bind-ok (p i) _ k (e, last) h in
        let ((e₁, err), loop, same) = map_ok-ok _ some_error k (e, last) rest in
        let c : Chain lib Operator Operand i first j = operand (sound i j first (last₁, begins)) in
        subst (λ x. Chain lib Operator Operand i x k) (ap (λ (r : Expr × Option E). r.0) same)
          (Chain-folded (suc (length j)) i j k first e₁ err c (or_incomplete-ok _ k (e₁, err) loop))

  Sound-products : Sound build_2 ProductOperator (operators_2 lib)
  Sound-products =
      Sound-alt _ _ _ _ (Sound-tag _ _ _ _ times (λ l r. refl))
        (Sound-tag _ _ _ _ over (λ l r. refl))

  Sound-sums : Sound build_1 SumOperator (operators_1 lib)
  Sound-sums =
      Sound-alt _ _ _ _ (Sound-tag _ _ _ _ plus (λ l r. refl))
        (Sound-tag _ _ _ _ minus (λ l r. refl))

  Sound-tests : Sound build_0 TestOperator (operators_0 lib)
  Sound-tests =
      let or_else = Sound-alt build_0 TestOperator in
      let found = Sound-tag build_0 TestOperator in
      or_else _ _ (found _ _ equal (λ l r. refl)) (
        or_else _ _ (found _ _ not_equal (λ l r. refl)) (
          or_else _ _ (found _ _ both (λ l r. refl)) (
            or_else _ _ (found _ _ either (λ l r. refl))
              (or_else _ _ (found _ _ less (λ l r. refl)) (found _ _ greater (λ l r. refl))))))

  -- Where the nom library behaves as documented, what expr gives is what a grammar recursive on the
  -- left gives for the same text: products of operands, sums of products, and above them one level
  -- of comparisons, && and ||, each grouped to the left.
  pub expr_0-Expression :
      (p : PNew Expr) (i k : Text) (e : Expr) (last : Option E)
      → expr_0 lib p i ≡ ok k (e, last)
      → Expression lib (Given p) i e k
  unfolding expr_0 expr_1 expr_2
  expr_0-Expression p i k e last h =
      Chain-level _ _ _ _ _ Sound-tests
        (Chain-level _ _ _ _ _ Sound-sums
          (Chain-level _ _ p _ (Given p) Sound-products (λ i k e g. g)))
        i k e (last, h)
