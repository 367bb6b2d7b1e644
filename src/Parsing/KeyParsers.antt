-- ===== src/Parsing/KeyParsers.antt =====
-- src/parsing/key.rs, src/parsing/key_action.rs, src/parsing/key_sequence.rs and src/parsing/key_mapping.rs:
-- the parsers of keys. Where the source's name is that of a closure, or of a part of the syntax tree,
-- the name here starts with `parse_`.
use map2_legacy.Base.{ℕ, List, [], ◌∷◌, Option, none, some, Text, codes, text_beq, if◌then◌else◌}
use map2_legacy.Key.{Key, KeyModifierFlags}
use map2_legacy.Ast.{Expr}
use map2_legacy.Mapping.{ParsedKeyAction, inline_mapping}
use map2_legacy.Parsing.Results.{ok, error, failure, incomplete}
use map2_legacy.Parsing.Error.{make_generic_nom_err_new}
use map2_legacy.Parsing.Nom.{E, Result, P, ResNew, PNew, Libraries}
use map2_legacy.Parsing.Keys.{
  FlagsResult, flags, repeated, unreachable, key_flags, key_named, action_for, with_flags,
}
use map2_legacy.Parsing.Lexer.{map_ok, ◌>>=◌, no_error, tag_custom, ws1, ident}

-- `unreachable!()` is a failure, which no parser here makes otherwise.
abbrev pub of_flags : Text → Text → FlagsResult → ResNew KeyModifierFlags
of_flags input next (flags f) = ok next (no_error f)
of_flags input next repeated = make_generic_nom_err_new input
of_flags input next unreachable = failure (record { input = input; expected = [] })

abbrev pub of_key : Text → Text → Option (Key × KeyModifierFlags) → ResNew (Key × KeyModifierFlags)
of_key input next none = make_generic_nom_err_new input
of_key input next (some k) = ok next (no_error k)

-- A parser's result as that of a closure of `map_res`, which forgets what the error was.
abbrev pub to_option : {A : Type 0} → Result A → Option (Text × A)
to_option (ok r a) = some (r, a)
to_option (error _) = none
to_option (failure _) = none
to_option incomplete = none

-- The text between the braces has to be used up.
abbrev pub all_used : {A : Type 0} → Option (Text × A) → Option (Text × A)
all_used none = none
all_used (some ([], a)) = some ([], a)
all_used (some (c ∷ s, a)) = none

-- The `map` and `fold_ok` at the end of `key_sequence`.
abbrev pub collect_actions :
    List (Text × (ParsedKeyAction × Option E)) → Option (List ParsedKeyAction)
collect_actions [] = some []
collect_actions (([], (a, _)) ∷ l) = elim (collect_actions l) [
  | none ↦ none
  | some as' ↦ some (a ∷ as')
]
collect_actions ((_ ∷ _, _) ∷ l) = none

abbrev pub of_sequence : Text → Text → Option (List ParsedKeyAction) → ResNew (List ParsedKeyAction)
of_sequence input next none = make_generic_nom_err_new input
of_sequence input next (some l) = ok next (no_error l)

module _ (lib : Libraries) where
  -- `tuple` of two parsers, or of one and the rest of them.
  infixr 5 ◌>*>◌
  abbrev ◌>*>◌ : {A B : Type 0} → P A → P B → P (A × B)
  p >*> q = lib.nom.tuple p q

  abbrev exactly : Text → P Text
  exactly = tag_custom lib.nom

  unfoldable pub parse_key_flags : PNew KeyModifierFlags
  unfolding key_flags
  parse_key_flags input = lib.nom.many0 (lib.nom.one_of (codes "^!+#")) input >>= λ r.
      let (next, val) = r in of_flags input next (key_flags val)

  unfoldable pub key : PNew (Key × KeyModifierFlags)
  unfolding ident key_named
  key input = lib.nom.alt (lib.nom.map (ident lib) (λ v. v.0)) (lib.nom.take 1) input >>= λ r.
      let (next, val) = r in of_key input next (key_named lib.key_names val)

  -- Of the two words, one is the other case, so any other text, which is `unreachable!`, is the second.
  unfoldable pub key_state : PNew ℕ
  key_state input =
      map_ok (lib.nom.alt (lib.nom.tag (codes "down")) (lib.nom.tag (codes "up")) input)
        (λ (v : Text).
          no_error (if text_beq (lib.key_names.to_uppercase v) (codes "UP") then 0 else 1))

  unfoldable pub key_with_state : PNew ((Key × KeyModifierFlags) × ℕ)
  unfolding key ws1 key_state
  key_with_state input =
      map_ok ((key >*> ws1 lib.nom >*> key_state) input)
        (λ r. let ((k, _), (_, (state, _))) = r in no_error (k, state))

  unfoldable pub parse_key_action : PNew ParsedKeyAction
  unfolding key_with_state key tag_custom
  parse_key_action input =
      map_ok
        (lib.nom.alt
          (lib.nom.map (exactly (codes "{") >*> key_with_state >*> exactly (codes "}"))
            (λ r. let (_, (((k, state), _), _)) = r in (k, some state)))
          (lib.nom.map
            (lib.nom.alt
              (lib.nom.map (exactly (codes "{") >*> key >*> exactly (codes "}")) (λ v. v.1.0.0))
              (lib.nom.map key (λ v. v.0)))
            (λ v. (v, none)))
          input)
        (λ r. let (k, state) = r in no_error (action_for k state))

  unfoldable pub key_action_with_flags : PNew ParsedKeyAction
  unfolding parse_key_flags parse_key_action with_flags
  key_action_with_flags input =
      map_ok ((parse_key_flags >*> parse_key_action) input)
        (λ r. let ((f, _), (act, _)) = r in no_error (with_flags f act))

  -- What stands between the quotes: an action in braces, or a single character.
  unfoldable pub sequence_part : P (Text × (ParsedKeyAction × Option E))
  unfolding parse_key_action tag_custom
  sequence_part =
      lib.nom.alt
        (lib.nom.map_res
          (lib.nom.recognize (
            exactly (codes "{")
            >*> lib.nom.map (lib.nom.take_until (codes "}") >*> exactly (codes "}")) (λ v. v.0)))
          (λ input. all_used (to_option (parse_key_action input))))
        (lib.nom.map_res (lib.nom.take 1) (λ input. to_option (parse_key_action input)))

  unfoldable pub key_sequence : PNew (List ParsedKeyAction)
  unfolding sequence_part tag_custom
  key_sequence input =
      (exactly (codes "\"") >*> lib.nom.many1 sequence_part >*> exactly (codes "\"")) input >>= λ r.
      let (next, (_, (val, _))) = r in of_sequence input next (collect_actions val)

  unfoldable pub key_mapping_inline : PNew Expr
  unfolding key_action_with_flags key_sequence tag_custom inline_mapping
  key_mapping_inline input =
      map_ok
        ((key_action_with_flags
            >*> exactly (codes "::")
            >*> lib.nom.alt key_sequence
                (lib.nom.map key_action_with_flags (λ r. let (act, _) = r in (act ∷ [], none))))
          input)
        (λ r. let ((from, _), (_, (to, _))) = r in no_error (inline_mapping from to))
