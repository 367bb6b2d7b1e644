-- ===== src/System/Loading.antt =====
-- From a script of remappings to the program that serves them.
use mathlib.Core.Path.{subst}
use map2_legacy.Base.{
  ℕ, zero, suc, ◌≡◌, ◌<◌, ◌+◌, refl, ap, sym, ◌∙◌, List, [], ◌∷◌, ◌++◌, map, true, Option, none,
  some, lookup, insert, lookup-insert, ◌==◌, length, append-nil, append_assoc, Bool-cases,
  Option-cases, inl, inr, arith, if◌then◌else◌,
}
use map2_legacy.Key.{
  KeyAction, KeyActionWithMods, KeyModifierFlags, KeyModifierState, InputEvent, mods_eq,
  mods_beq_iff, no_modifiers,
}
use map2_legacy.Ast.{Address, expr, Block, end, ◌⨾◌}
use map2_legacy.Mapping.{around, action_expr, action_of, map_key_action_action}
use map2_legacy.Runtime.World.{
  ExecutionMessage, add_mapping, Effect, message, World, Ambient, done, fell_through, emit,
  send_message, new_scope,
}
use map2_legacy.Runtime.Builtins.{register_mappings}
use map2_legacy.Runtime.Host.{Host}
use map2_legacy.Runtime.Eval.{eval_expr, eval_block, run_stmts, run_stmt}
use map2_legacy.Daemon.{
  CompiledKeyMappings, input, execution, start, round, handle_execution_message,
}
use map2_legacy.Script.{global_map, global_world}
use map2_legacy.Remap.Straight.{with_effects}
use map2_legacy.Remap.Device.{device}
use map2_legacy.Remap.Mappings.{IsPlain}
use map2_legacy.System.{
  Program, messages_of, receive, world_of, Step, delivers, runs, Steps, rest, then_done,
}
use map2_legacy.System.Steady.{Meaning, Means, mapped, unmapped, Steady}
use map2_legacy.System.Serving.{Answers, Steps-append, Steady-Answers}

-- The trigger and the target of each mapping, in the order of the script.
abbrev pub Pairs : Type 0
Pairs = List (KeyActionWithMods × KeyActionWithMods)

abbrev pub script_of : Pairs → Block
script_of [] = end
script_of ((from, to) ∷ ps) = expr (map_key_action_action from to) ⨾ script_of ps

abbrev pub AllPlain : Pairs → Type 0
AllPlain [] = Unit
AllPlain ((from, to) ∷ ps) = IsPlain to.key × AllPlain ps

abbrev pub block_for : KeyActionWithMods → KeyActionWithMods → Block
block_for from to = around from.modifiers to.modifiers (action_expr to.key to.value ⨾ end)

-- The target of the last mapping with a trigger.
abbrev pub target_of : KeyActionWithMods → Pairs → Option KeyActionWithMods
target_of k [] = none
target_of k ((from, to) ∷ ps) = elim (target_of k ps) [
  | some later ↦ some later
  | none ↦ if from == k then some to else none
]

-- What such a script means.
abbrev pub meaning_of : Option KeyActionWithMods → Option (KeyModifierFlags × List KeyAction)
meaning_of none = none
meaning_of (some to) = some (to.modifiers, action_of to.key to.value ∷ [])

abbrev pub meaning : Pairs → Meaning
meaning ps k = meaning_of (target_of k ps)

abbrev found :
    KeyActionWithMods
    → Address
    → Option (Block × Address)
    → Option KeyActionWithMods
    → Option (Block × Address)
found k scope default (some to) = some (block_for k to, scope)
found k scope default none = default

-- The program when its script has been handed to `task::spawn`.
abbrev pub launched : Block → Program
launched b = record {
  daemon = start;
  pending =
      record { block = b; var_map = 0; window_cycle_token = 0; modifier_state = no_modifiers } ∷ [];
  world = global_world;
  channel = [];
}

abbrev pub registrations : Address → Pairs → List ExecutionMessage
registrations scope [] = []
registrations scope ((from, to) ∷ ps) =
    add_mapping 0 from (block_for from to) scope ∷ registrations scope ps

abbrev pub table : CompiledKeyMappings → Address → Pairs → CompiledKeyMappings
table ms scope [] = ms
table ms scope ((from, to) ∷ ps) = table (insert from (block_for from to, scope) ms) scope ps

abbrev script_ambient : Ambient
script_ambient = record { message_tx = true; window_cycle_token = 0; modifier_state = no_modifiers }

-- What the script leaves behind.
abbrev pub script_world : Pairs → World
script_world ps = record {
  store = global_map ∷ record { scope_values = []; parent = some 0 } ∷ [];
  trace = map message (registrations 1 ps);
}

module _ (host : Host) where
  run_stmt-mapping :
      (n : ℕ) (from to : KeyActionWithMods) (scope : Address) (w : World)
      → run_stmt host (suc (suc n)) (expr (map_key_action_action from to)) scope script_ambient w
        ≡ done fell_through
            (with_effects w (message (add_mapping 0 from (block_for from to) scope) ∷ []))
  unfolding eval_expr map_key_action_action register_mappings send_message emit
  run_stmt-mapping n from to scope w = refl

  run_stmts-script_of :
      (n : ℕ) (ps : Pairs) (scope : Address) (w : World)
      → length ps + 2 < n
      → run_stmts host n (script_of ps) scope script_ambient w
        ≡ done fell_through (with_effects w (map message (registrations scope ps)))
  unfolding eval_expr
  run_stmts-script_of zero ps scope w h = absurd (omega arith)
  run_stmts-script_of (suc n) [] scope w h =
      ap (λ t. done fell_through (record w { trace = t })) (sym (append-nil w.trace))
  run_stmts-script_of (suc zero) (p ∷ ps) scope w h = absurd (omega arith)
  run_stmts-script_of (suc (suc zero)) (p ∷ ps) scope w h = absurd (omega arith)
  run_stmts-script_of (suc (suc (suc n))) ((from, to) ∷ ps) scope w h =
      rw (run_stmt-mapping n from to scope w) (
        run_stmts-script_of (suc (suc n)) ps scope _ (omega arith)
        ∙ ap (λ t. done fell_through (record w { trace = t })) (append_assoc w.trace _ _))

  eval_block-script_of :
      (ps : Pairs)
      → eval_block host (suc (length ps + 3)) (script_of ps) 0 script_ambient global_world
        ≡ done fell_through (script_world ps)
  unfolding new_scope eval_block
  eval_block-script_of ps = run_stmts-script_of (length ps + 3) ps 1 _ (omega arith)

messages_of-messages : (msgs : List ExecutionMessage) → messages_of (map message msgs) ≡ msgs
messages_of-messages [] = refl
messages_of-messages (m ∷ msgs) = ap (λ l. m ∷ l) (messages_of-messages msgs)

device-messages :
    (s : KeyModifierState) (msgs : List ExecutionMessage) → device s (map message msgs) ≡ s
device-messages s [] = refl
device-messages s (m ∷ msgs) = device-messages s msgs

-- The program while it takes the messages of its script.
abbrev pub loading : World → CompiledKeyMappings → List ExecutionMessage → Program
loading w ms ch = record {
  daemon = record start { mappings = ms };
  pending = [];
  world = w;
  channel = ch;
}

receive-loading :
    (w : World) (ms : CompiledKeyMappings) (ch : List ExecutionMessage) (from : KeyActionWithMods)
    (b : Block) (scope : Address)
    → receive (loading w ms ch) (execution (add_mapping 0 from b scope))
      ≡ loading w (insert from (b, scope) ms) ch
unfolding receive round handle_execution_message
receive-loading w ms ch from b scope =
    ap (λ t. loading (record w { trace = t }) (insert from (b, scope) ms) ch) (append-nil w.trace)

lookup-table :
    (k : KeyActionWithMods) (scope : Address) (ps : Pairs) (ms : CompiledKeyMappings)
    → lookup k (table ms scope ps) ≡ found k scope (lookup k ms) (target_of k ps)
lookup-table k scope [] ms = refl
lookup-table k scope ((from, to) ∷ ps) ms =
    let ms' = insert from (block_for from to, scope) ms in
    lookup-table k scope ps ms' ∙ elim (Option-cases (target_of k ps)) [
      | inr (later, e) ↦ rw e refl
      | inl e ↦
          rw (e, lookup-insert from k (block_for from to, scope) ms)
            (elim (Bool-cases (from == k)) [
              | inl same ↦
                  rw same (ap (λ x. some (block_for x to, scope)) ((mods_beq_iff from k).0 same))
              | inr other ↦ rw other refl
            ])
    ]

abbrev IsPlainTarget : Option KeyActionWithMods → Type 0
IsPlainTarget none = Unit
IsPlainTarget (some to) = IsPlain to.key

target_of-IsPlainTarget :
    (k : KeyActionWithMods) (ps : Pairs) → AllPlain ps → IsPlainTarget (target_of k ps)
target_of-IsPlainTarget k [] plain = tt
target_of-IsPlainTarget k ((from, to) ∷ ps) plain =
    let later = target_of-IsPlainTarget k ps plain.1 in
    elim (Option-cases (target_of k ps)) [
      | inr (to', e) ↦ rw e (subst IsPlainTarget e later)
      | inl e ↦
          rw e
            (elim (Bool-cases (from == k)) [ inl same ↦ rw same plain.0 | inr other ↦ rw other tt ])
    ]

loaded-Means :
    (k : KeyActionWithMods) (ps : Pairs)
    → AllPlain ps
    → Means k (lookup k (table [] 1 ps)) (meaning ps k)
loaded-Means k ps plain = elim (Option-cases (target_of k ps)) [
  | inl e ↦ rw (lookup-table k 1 ps [], e) unmapped
  | inr (to, e) ↦
      rw (lookup-table k 1 ps [], e)
        (mapped to.modifiers (action_of to.key to.value ∷ []) (block_for k to, 1)
          (subst IsPlainTarget e (target_of-IsPlainTarget k ps plain), tt) refl)
]

module _ (host : Host) where
  launch :
      (ps : Pairs)
      → Step host (launched (script_of ps)) none (loading (script_world ps) [] (registrations 1 ps))
  launch ps =
      subst (λ ch. Step host (launched (script_of ps)) none (loading (script_world ps) [] ch))
        (messages_of-messages (registrations 1 ps))
        (runs _ [] [] (suc (length ps + 3)) (script_world ps) (map message (registrations 1 ps))
          refl (ap world_of (eval_block-script_of host ps)) refl)

  load :
      (w : World) (ms : CompiledKeyMappings) (ps : Pairs)
      → Steps host (loading w ms (registrations 1 ps)) [] (loading w (table ms 1 ps) [])
  load w ms [] = rest
  load w ms ((from, to) ∷ ps) =
      then_done
        (subst (λ x. Step host (loading w ms (registrations 1 ((from, to) ∷ ps))) none x)
          (receive-loading w ms (registrations 1 ps) from (block_for from to) 1)
          (delivers _ (registrations 1 ps) refl))
        (load w (insert from (block_for from to, 1) ms) ps)

pub loaded-Steady :
    (ps : Pairs) → AllPlain ps → Steady (meaning ps) (loading (script_world ps) (table [] 1 ps) [])
loaded-Steady ps plain = record {
  live = refl;
  idle = refl;
  quiet = refl;
  unobserved = refl;
  all = λ k. loaded-Means k ps plain;
  agrees = device-messages no_modifiers (registrations 1 ps);
}

-- For a script that maps single actions to single actions of keys that are no modifiers, and any
-- input events: there is a run of the program from the start of the script's task that takes up the
-- script and then these events, and ends with no task and no message left. In it each event in turn
-- is answered, by the last mapping of the script whose trigger it is, with the target under exactly
-- its own modifiers and with the modifiers afterwards as they were, and else by being passed on;
-- and what applications see held in the end is what the daemon believes held.
pub script_of-Answers :
    (host : Host) (ps : Pairs) (evs : List InputEvent)
    → AllPlain ps
    → (s : Program) × (es : List Effect) × Steps host (launched (script_of ps)) (map input evs) s
      × (s.world.trace ≡ map message (registrations 1 ps) ++ es)
      × Answers (meaning ps) no_modifiers evs es s.daemon.state.modifiers
      × Steady (meaning ps) s
script_of-Answers host ps evs plain =
    let (s, es, steps, sends, answers, steady) =
      Steady-Answers host (meaning ps) (loading (script_world ps) (table [] 1 ps) []) evs
        (loaded-Steady ps plain) in
    (
      s,
      es,
      then_done (launch host ps) (Steps-append (load host (script_world ps) [] ps) steps),
      sends,
      answers,
      steady,
    )
