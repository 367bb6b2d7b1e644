-- ===== src/Script.antt =====
-- src/script.rs: a script from its text to its end. The reading of the file is left out.
use map2_legacy.Base.{ℕ, [], ◌∷◌, true, Option, none, Text}
use map2_legacy.Key.{no_modifiers}
use map2_legacy.Ast.{Block}
use map2_legacy.Runtime.World.{VarMap, World, Ambient, BlockRet, Outcome}
use map2_legacy.Runtime.Host.{Host}
use map2_legacy.Runtime.Eval.{eval_block}
use map2_legacy.Parsing.Nom.{E, Libraries}
use map2_legacy.Parsing.Grammar.{Script, parsed, rejected, lost, parse_script}
pub mod Start

-- `VarMap::new(None)`, the map that the global block runs below.
abbrev pub global_map : VarMap
global_map = record { scope_values = []; parent = none }

abbrev pub global_world : World
global_world = record { store = global_map ∷ []; trace = [] }

unfoldable pub evaluate_script : Host → ℕ → Block → ℕ → Outcome BlockRet
unfolding eval_block
evaluate_script host f script_ast token =
    let amb : Ambient = record {
      message_tx = true;
      window_cycle_token = token;
      modifier_state = no_modifiers;
    } in
    eval_block host f script_ast 0 amb global_world

-- How the program goes on with the text of a script: it is evaluated, or the `unwrap` of its parsing
-- panics; `unparsed` is a parser that ran out of fuel.
pub data Started : Type 0 where
  evaluated : Outcome BlockRet → Started
  not_unwrapped : Option E → Started
  unparsed : Started

abbrev pub start_parsed : Host → ℕ → ℕ → Script → Started
start_parsed host f token (parsed block) = evaluated (evaluate_script host f block token)
start_parsed host f token (rejected err) = not_unwrapped err
start_parsed host f token lost = unparsed

-- The two calls of `main`, at the first token.
unfoldable pub run_script : Libraries → Host → ℕ → Text → Started
unfolding parse_script evaluate_script
run_script lib host f raw = start_parsed host f 0 (parse_script lib raw)
