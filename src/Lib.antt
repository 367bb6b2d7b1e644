-- ===== src/Lib.antt =====
-- map2: a daemon that remaps keys by a script, modelled and verified.
--
-- The program grabs input devices, runs a script once, and then waits in a loop for three things:
-- input events, messages of running scripts, and changes of the focused window. A script registers
-- mappings; an input event that a mapping takes starts the mapping's block as a task, and any other
-- event goes on to a virtual device. A running block sends events to that device and messages to
-- the loop. The files, each with the sources that it models:
--
-- - Base: lists, texts, dictionaries and tests that the rest shares.
-- - Key (src/key_primitives.rs, constants of src/key_defs.rs): keys, events, flags and modifiers. An
--   event code is its type and number; an i32 is its bit pattern.
-- - Modifiers (src/event_handlers.rs, update_modifiers): the table of eight keys and its loop.
-- - IgnoreList (src/ignore_list.rs).
-- - Ast (src/runtime/evaluation.rs, src/key_primitives.rs): Expr, Stmt, Block, ValueType and
--   KeyMapping, one mutual block. An f64 is its 64-bit pattern.
-- - Mapping (src/block_ext.rs, src/parsing/key_action.rs, src/parsing/key_mapping.rs): the builders of
--   key mappings, and the choice between them.
-- - Runtime (src/runtime): World has the store of variable maps (an Arc<Mutex<VarMap>> is an
--   address, so closures share maps as in the source) and the trace of effects; Scope the walk along
--   parents; Values the operators; Builtins the built-in functions; Modifiers the release and
--   restoration of modifiers; Eval the evaluator, eval_expr, eval_block and evaluate_builtin under
--   their own names. A panic is an outcome that keeps the world of that moment.
-- - Daemon (src/event_handlers.rs, src/state.rs, src/messaging/mod.rs, src/main.rs): the handlers
--   and the loop as a step for each thing received. Tasks that are spawned and events that are sent
--   on are kept in order in the state.
-- - System (src/main.rs, src/event_handlers.rs): the running program, the loop with the tasks it spawns
--   and their messages, as a step relation. Steady and Tasks have a table of remappings at rest and at
--   work, Serving and Serial the events it takes, and Loading the script from which it comes.
-- - Remap: Mapping, Runtime and Modifiers together; what a remapping block sends when it is run.
-- - Browser (src/evlist/evlist.rs): the keys of the device browser, its filter, its screen, and its
--   loop.
-- - Device (src/device/virtual_input_device.rs): Reader is the loop of a thread that reads a device,
--   over the list of the device's answers; Watcher the map of devices that come and go.
-- - Window (src/x11.rs): the parsing of window properties.
-- - Parsing (src/parsing): Combinators, Error and Lexer for custom_combinators.rs, error.rs,
--   identifier.rs and primitives.rs; Keys and KeyParsers for key.rs, key_action.rs, key_sequence.rs,
--   key_mapping.rs and the aliases of src/key_defs.rs; Expressions for expression.rs, lambda.rs,
--   variable.rs and function.rs; Statements for mod.rs and the files of the statements; Grammar joins
--   the parsers that call each other and has parse_script of parser.rs. A parser whose name is that of
--   a closure or of a part of the syntax tree has `parse_` in front of it; expr is expr_0. Interface
--   gives the runtime the parsers of keys. Nom has what is used of the library, NomLaws its
--   documented behaviour; Progress says how much each parser takes, Runs how a parser goes on behind
--   what it has read, and Printing has texts to read back. Report has convert_custom_error.
-- - Script (src/script.rs): from the text of a script to the end of its first evaluation.
-- - Tests: runs on concrete inputs, and each theorem at an input that meets its hypotheses.
--
-- Fuel. Scripts need not stop, so the evaluator spends a unit of fuel on each call, each round of a
-- loop and each statement; `lost` is the outcome of an evaluation that ran out. A remapping
-- block has at most twelve statements, each of which needs three units below that of its place, so
-- that more than 15 units are enough for it. The walk along parent maps has as much fuel as there
-- are maps. A parser that meets an expression or a block inside what it parses has read at least one
-- character by then, and a repetition reads one in each round, so that one unit more than the script
-- has characters is enough for each.
--
-- Parameters. Runtime/Host collects what is not in this repository's own code: the operations of
-- f64, the answers of the window system and of child processes (which may depend on all that the
-- script has done), the key names of evdev, and the parser of key sequences, which
-- Parsing/Interface fills. Parsing/Nom has the parsers of nom and the character classes of unicode-xid.
-- Browser/Defs (Outside), Device/Watcher (Devices), Window/Property (Connection) and Parsing/Keys
-- (KeyNames) do the same for the regular expressions, the devices that can be opened, the X server,
-- and Unicode with the key names.
--
-- Not modelled: the opening of devices, the connection
-- to the X server, the command line, logging, and tasks that are interrupted by one another;
-- a task is evaluated from start to end, though it may wait, and channels never close and hold
-- any number of entries, so that no send waits. The answer to active_window_class is a parameter of the
-- runtime; the message that asks the main loop for it is sent, and the answer that the loop gives is
-- kept in Daemon, but the two are not joined.
pub mod Base
pub mod Key
pub mod Modifiers
pub mod IgnoreList
pub mod Ast
pub mod Mapping
pub mod Runtime
pub mod Daemon
pub mod Remap
pub mod Tests
pub mod Browser
pub mod Device
pub mod Window
pub mod Parsing
pub mod Script
pub mod System
