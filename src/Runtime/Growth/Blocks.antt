-- ===== src/Runtime/Growth/Blocks.antt =====
-- src/runtime/evaluation.rs: the world after a block.
use mathlib.Core.Path.{subst}
use map2_legacy.Base.{◌≡◌, ℕ, ◌<◌, Option, none, some, length}
use map2_legacy.Ast.{Address, Block}
use map2_legacy.Runtime.World.{World, Ambient, Outcome, done, panicked, lost}
use map2_legacy.Runtime.Host.{Host}
use map2_legacy.Runtime.Eval.{eval_block}
use map2_legacy.Runtime.Chains.{ParentsBelow}
use map2_legacy.Runtime.Growth.{Grows, Keeps, by_result, by_panic}
use map2_legacy.Runtime.Growth.Eval.{eval_block-Keeps}

-- The world in which an evaluation ended.
abbrev pub world_of : {A : Type 0} → Outcome A → Option World
world_of (done _ u) = some u
world_of (panicked _ u) = some u
world_of lost = none

Grows-world_of :
    {A : Type 0} (w u : World) (o : Outcome A) → Keeps w o → world_of o ≡ some u → Grows w u
Grows-world_of w u (done _ v) (by_result g) e = subst (Grows w) (cc e) g
Grows-world_of w u (panicked _ v) (by_panic g) e = subst (Grows w) (cc e) g
Grows-world_of w u lost k e = absurd (cc e)

-- Where every parent was there before its child, however a block ends that is run below a map of
-- the store, by a result or by a panic and whatever it calls: every map is still there with the
-- parent that it had, parents are still before their children, and effects have only been added.
pub eval_block-Grows :
    (host : Host) (f : ℕ) (b : Block) (s : Address) (amb : Ambient) (w u : World)
    → s < length w.store
    → ParentsBelow w.store
    → world_of (eval_block host f b s amb w) ≡ some u
    → Grows w u × ParentsBelow u.store
eval_block-Grows host f b s amb w u h before e =
    let g = Grows-world_of w u _ (eval_block-Keeps host f b s amb w h) e in (g, g.below before)
