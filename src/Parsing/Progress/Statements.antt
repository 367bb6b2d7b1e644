-- ===== src/Parsing/Progress/Statements.antt =====
-- src/parsing/mod.rs and the files of the statements: how much their parsers take.
use mathlib.Core.Path.{subst}
use map2_legacy.Base.{
  ℕ, suc, ◌+◌, ◌≤◌, ◌<◌, [], ◌∷◌, Option, none, some, Text, codes, length, Bool-cases, inl, inr,
  arith,
}
use map2_legacy.Ast.{Expr, Stmt, Block, Branches}
use map2_legacy.Parsing.Results.{IResult-cases}
use map2_legacy.Parsing.Nom.{E, P, PNew, Libraries}
use map2_legacy.Parsing.NomLaws.{Ends, Takes, NomLaws}
use map2_legacy.Parsing.Lexer.{tag_custom, ws0, ws1}
use map2_legacy.Parsing.Statements.{
  is_ok, continue_statement, return_statement, parse_for_loop, if_head, else_if, else_part, if_stmt,
  stmt, block_body, closing, parse_block, at_end, global_block,
}
use map2_legacy.Parsing.Progress.{
  Ends-map_ok, Ends-map_err, Ends-bind, Ends-later, Takes-weaken, Takes-then, Takes-before,
  Takes-alt, Takes-map, Takes-tag_custom, Takes-repeated_err,
}
use map2_legacy.Parsing.Progress.Tokens.{Takes-tag, Takes-ws0, Takes-ws1}

module _ (lib : Libraries) (laws : NomLaws lib.nom) (n : ℕ) where
  Takes-both :
      {A B : Type 0} (p : P A) (q : P B) → Takes 0 n p → Takes 0 n q → Takes 0 n (lib.nom.tuple p q)
  Takes-both p q = Takes-then lib.nom laws 0 n p q

  Takes-exactly : (t : Text) → 1 ≤ length t → Takes 0 n (tag_custom lib.nom t)
  Takes-exactly = Takes-tag lib.nom laws n

  Takes-strictly : (t : Text) → 1 ≤ length t → Takes 1 n (tag_custom lib.nom t)
  Takes-strictly = Takes-tag_custom lib.nom laws n

  Takes-blank : Takes 0 n (ws0 lib.nom)
  Takes-blank = Takes-ws0 lib.nom laws n

  Takes-continue_statement : Takes 1 n (continue_statement lib)
  unfolding continue_statement
  Takes-continue_statement i below =
      Ends-bind 1 1 i _ _ (Takes-strictly _ (omega arith) i below) (λ j a short.
        Ends-later 1 0 1 i j _ short (omega arith) (
          Ends-bind 0 0 j _ _ (Takes-blank j (omega arith)) (λ k b more.
            Ends-later 0 0 0 j k _ more (omega arith) (
              Ends-bind 0 0 k _ _ (Takes-exactly _ (omega arith) k (omega arith))
                (λ l c rest. rest)))))

  module _ (parse_expr : PNew Expr) (he : Takes 0 n parse_expr) where
    Takes-return_statement : Takes 1 n (return_statement lib parse_expr)
    unfolding return_statement
    Takes-return_statement i below =
        Ends-bind 1 1 i _ _ (Takes-strictly _ (omega arith) i below) (λ j a short.
          Ends-later 1 0 1 i j _ short (omega arith) (
            Ends-map_ok 0 j _ _ (
              Takes-both _ _ (Takes-ws1 lib.nom laws n)
                (Takes-both _ _ he (Takes-both _ _ Takes-blank (Takes-exactly _ (omega arith)))) j
                (omega arith))))

    module _ (braces : PNew Block) (hb : Takes 1 n braces) where
      Takes-after : {A : Type 0} (p : P A) → Takes 0 n p → Takes 0 n (lib.nom.tuple (ws0 lib.nom) p)
      Takes-after p h = Takes-both _ _ Takes-blank h

      Takes-item :
          {A B : Type 0} (p : P A) (q : P B)
          → Takes 0 n p
          → Takes 0 n q
          → Takes 0 n (lib.nom.tuple (ws0 lib.nom) (lib.nom.tuple p q))
      Takes-item p q hp hq = Takes-after _ (Takes-both p q hp hq)

      Takes-body :
          Takes 0 n
            (lib.nom.tuple (tag_custom lib.nom (codes ")")) (lib.nom.tuple (ws0 lib.nom) braces))
      Takes-body =
          Takes-both _ _ (Takes-exactly _ (omega arith)) (Takes-after _ (Takes-weaken n _ hb))

      Takes-parse_for_loop : Takes 1 n (parse_for_loop lib parse_expr braces)
      unfolding parse_for_loop
      Takes-parse_for_loop i below =
          let semicolon = Takes-exactly (codes ";") (omega arith) in
          Ends-map_ok 1 i _ _ (
            Takes-before lib.nom laws 1 n _ _ (Takes-strictly _ (omega arith))
              (Takes-item _ _ (Takes-exactly _ (omega arith)) (
                Takes-item _ _ he (
                  Takes-item _ _ semicolon (
                    Takes-item _ _ he
                      (Takes-item _ _ semicolon (Takes-item _ _ he (Takes-after _ Takes-body)))))))
              i below)

      Takes-if_head : Takes 0 n (if_head lib parse_expr braces)
      Takes-if_head =
          Takes-item _ _ (Takes-exactly _ (omega arith))
            (Takes-item _ _ he (Takes-after _ Takes-body))

      Takes-else_if : Takes 1 n (else_if lib parse_expr braces)
      Takes-else_if = Takes-then lib.nom laws 1 n _ _ Takes-blank (
          Takes-before lib.nom laws 1 n _ _ (Takes-strictly _ (omega arith)) (
            Takes-both _ _ (Takes-ws1 lib.nom laws n)
              (Takes-both _ _ (Takes-exactly _ (omega arith)) Takes-if_head)))

      Ends-else_part :
          (pairs : Branches) (last_err : Option E) (i : Text)
          → length i < n
          → Ends 0 i (else_part lib braces pairs last_err i)
      unfolding else_part
      Ends-else_part pairs last_err i below =
          let head = lib.nom.tuple (ws0 lib.nom) (tag_custom lib.nom (codes "else")) in
          let takes : Takes 0 n head = Takes-after _ (Takes-exactly _ (omega arith)) in
          let test =
            λ (j : Text). is_ok (lib.nom.tuple (ws1 lib.nom) (tag_custom lib.nom (codes "if")) j) in
          elim (IResult-cases (head i)) [
            | inr (inl (err, e)) ↦ rw (else_part, e) (omega arith)
            | inr (inr (inl (err, e))) ↦ rw (else_part, e) (omega arith)
            | inr (inr (inr e)) ↦ rw (else_part, e) (omega arith)
            | inl (j, o, e) ↦
                let short : 0 + length j ≤ length i = subst (Ends 0 i) e (takes i below) in
                elim (Bool-cases (test j)) [
                  | inl followed ↦ rw (else_part, e, followed) (omega arith)
                  | inr other ↦
                      rw (else_part, e, other)
                        (Ends-later 0 0 0 i j _ short (omega arith) (
                          Ends-map_ok 0 j _ _
                            (Takes-after _ (Takes-weaken n _ hb) j (omega arith))))
                ]
          ]

      Takes-if_stmt : Takes 1 n (if_stmt lib parse_expr braces)
      unfolding if_stmt
      Takes-if_stmt i below =
          Ends-bind 1 1 i _ _ (Takes-strictly _ (omega arith) i below) (λ j a short.
            Ends-later 1 0 1 i j _ short (omega arith) (
              Ends-bind 0 0 j _ _
                (Takes-both _ _ Takes-if_head (Takes-repeated_err n _ Takes-else_if) j
                  (omega arith))
                (λ k b more.
                  Ends-later 0 0 0 j k _ more (omega arith) (Ends-else_part _ _ k (omega arith)))))

      pub Takes-stmt : Takes 1 n (stmt lib parse_expr braces)
      unfolding stmt
      Takes-stmt =
          let or_else = Takes-alt lib.nom laws 1 n in
          or_else _ _ Takes-return_statement (
            or_else _ _ Takes-continue_statement (
              or_else _ _ Takes-if_stmt (
                or_else _ _ Takes-parse_for_loop (
                  or_else _ _
                    (Takes-map lib.nom laws 1 n _ _
                      (Takes-then lib.nom laws 1 n _ _ he (Takes-strictly _ (omega arith))))
                    (Takes-map lib.nom laws 1 n _ _ hb)))))

  module _ (parse_stmt : PNew Stmt) (h : Takes 1 n parse_stmt) where
    Takes-block_body : Takes 0 n (block_body lib parse_stmt)
    unfolding block_body
    Takes-block_body i below = elim (IResult-cases (parse_stmt i)) [
      | inr (inl (err, e)) ↦ rw (block_body, e) (omega arith)
      | inr (inr (inl (err, e))) ↦ rw (block_body, e) (omega arith)
      | inr (inr (inr e)) ↦ absurd (subst (Ends 1 i) e (h i below))
      | inl (j, (s, o), e) ↦
          let short : 1 + length j ≤ length i = subst (Ends 1 i) e (h i below) in
          rw (block_body, e)
            (Ends-later 1 0 0 i j _ short (omega arith) (
              Ends-map_ok 0 j _ _ (
                Takes-repeated_err n _ (Takes-then lib.nom laws 1 n _ _ Takes-blank h) j
                  (omega arith))))
    ]

    Ends-at_end :
        (i j : Text) (r : Block × Option E) → 0 + length j ≤ length i → Ends 0 i (at_end lib i j r)
    Ends-at_end i [] r below = omega arith
    Ends-at_end i (_ ∷ _) (_, some err) below = tt
    Ends-at_end i (_ ∷ _) (_, none) below = tt

    pub Takes-global_block : Takes 0 n (global_block lib parse_stmt)
    unfolding global_block
    Takes-global_block i below =
        Ends-bind 0 0 i _ _
          (Takes-both _ _ Takes-blank (Takes-both _ _ Takes-block_body Takes-blank) i below)
          (λ j a short. Ends-at_end i j _ short)

    Ends-brace :
        (i : Text) (body : Block) (last_err : Option E)
        → length i < n
        → Ends 0 i (closing lib body last_err i)
    unfolding closing
    Ends-brace i body last_err below =
        let brace = tag_custom lib.nom (codes "}") in
        let takes : Ends 0 i (brace i) = Takes-exactly _ (omega arith) i below in
        elim (IResult-cases (brace i)) [
          | inl (j, o, e) ↦ rw (closing, e) (subst (Ends 0 i) e takes)
          | inr (inl (err, e)) ↦ rw (closing, e) tt
          | inr (inr (inl (err, e))) ↦ rw (closing, e) tt
          | inr (inr (inr e)) ↦ absurd (subst (Ends 0 i) e takes)
        ]

    pub Takes-parse_block : Takes 1 (suc n) (parse_block lib parse_stmt)
    unfolding parse_block
    Takes-parse_block i below =
        Ends-bind 1 1 i _ _
          (Ends-map_err 1 i _ _ (Takes-tag_custom lib.nom laws (suc n) _ (omega arith) i below))
          (λ j a short. Ends-later 1 0 1 i j _ short (omega arith) (
            Ends-bind 0 0 j _ _ (Takes-blank j (omega arith)) (λ k b more.
              Ends-later 0 0 0 j k _ more (omega arith) (
                Ends-bind 0 0 k _ _ (Takes-block_body k (omega arith)) (λ l c rest.
                  Ends-later 0 0 0 k l _ rest (omega arith) (
                    Ends-bind 0 0 l _ _ (Takes-blank l (omega arith)) (λ m d end₁.
                      Ends-later 0 0 0 l m _ end₁ (omega arith)
                        (Ends-brace m c.0 c.1 (omega arith)))))))))
