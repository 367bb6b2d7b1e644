-- ===== src/Script/Start.antt =====
-- src/script.rs: what holds of the start of any script.
use map2_legacy.Base.{
  ◌≡◌, ap, ◌∙◌, ℕ, zero, suc, ◌<◌, Option, none, some, Text, length, get_elem?, arith,
}
use map2_legacy.Ast.{Address, ValueType, Block}
use map2_legacy.Runtime.World.{World, done}
use map2_legacy.Runtime.Host.{Host}
use map2_legacy.Runtime.Chains.{ParentsBelow, parent_in, read_name-ends}
use map2_legacy.Runtime.Scope.{read_name}
use map2_legacy.Runtime.Growth.Blocks.{world_of, eval_block-Grows}
use map2_legacy.Parsing.Nom.{Libraries}
use map2_legacy.Parsing.Grammar.{Script, parsed, rejected, lost, parse_script}
use map2_legacy.Script.{
  global_world, evaluate_script, Started, evaluated, not_unwrapped, unparsed, start_parsed,
  run_script,
}

-- What is left behind by a script that was started: the global map is the first and has no parent, and
-- the parents of all maps come before them.
abbrev pub IsRooted : World → Type 0
IsRooted w =
    (0 < length w.store) × ((parent_in (get_elem? w.store 0) ≡ none) × ParentsBelow w.store)

-- The world in which the evaluation of a script ended.
abbrev pub world_left : Started → Option World
world_left (evaluated o) = world_of o
world_left (not_unwrapped _) = none
world_left unparsed = none

global-ParentsBelow : ParentsBelow global_world.store
global-ParentsBelow zero m p here child = absurd (cc (ap parent_in here ∙ child))
global-ParentsBelow (suc i) m p here child = absurd (cc here)

evaluate_script-IsRooted :
    (host : Host) (f : ℕ) (b : Block) (token : ℕ) (u : World)
    → world_of (evaluate_script host f b token) ≡ some u
    → IsRooted u
unfolding evaluate_script
evaluate_script-IsRooted host f b token u e =
    let (g, before) =
      eval_block-Grows host f b 0 _ global_world u (omega arith) global-ParentsBelow e in
    (omega (arith, g.longer), (g.parents 0 (omega arith), before))

start_parsed-IsRooted :
    (host : Host) (f : ℕ) (s : Script) (u : World)
    → world_left (start_parsed host f 0 s) ≡ some u
    → IsRooted u
start_parsed-IsRooted host f (parsed b) u e = evaluate_script-IsRooted host f b 0 u e
start_parsed-IsRooted host f (rejected err) u e = absurd (cc e)
start_parsed-IsRooted host f lost u e = absurd (cc e)

-- Whatever the text of a script, once its evaluation at the start has ended, by a result or by a
-- panic, the global map is the first one and has no parent, all parents come before their children,
-- and from any map that is left a name is read without running out of fuel, which changes nothing.
pub run_script-IsRooted :
    (lib : Libraries) (host : Host) (f : ℕ) (raw : Text) (u : World) (x : Text) (a : Address)
    → world_left (run_script lib host f raw) ≡ some u
    → a < length u.store
    → IsRooted u × ((v : ValueType) × (read_name x a u ≡ done v u))
unfolding run_script
run_script-IsRooted lib host f raw u x a e h =
    let rooted = start_parsed-IsRooted host f (parse_script lib raw) u e in
    (rooted, read_name-ends x a u rooted.1.1 h)
