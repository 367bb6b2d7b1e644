-- ===== src/System.antt =====
-- src/main.rs with the tasks that src/event_handlers.rs spawns and the channel over which they answer:
-- the whole of the running program as a step relation. A task runs from its start to its end in one
-- step, but may wait for as long as it likes before that.
pub mod Steady
pub mod Tasks
pub mod Serving
pub mod Serial
pub mod Loading
use map2_legacy.Base.{ℕ, ◌≡◌, List, [], ◌∷◌, ◌++◌, map, true, Option, none, some}
use map2_legacy.Key.{InputEvent, no_modifiers}
use map2_legacy.Runtime.World.{
  ActiveWindowInfo, ExecutionMessage, Effect, sent, message, World, Ambient, BlockRet, Outcome,
  done, panicked, lost,
}
use map2_legacy.Runtime.Host.{Host}
use map2_legacy.Runtime.Eval.{eval_block}
use map2_legacy.Daemon.{Daemon, Task, Incoming, window, input, execution, round}

-- The main loop, the tasks that wait, the variable maps with all that was sent, and the messages on
-- their way to the loop.
pub record Program : Type 0 where
  pub daemon : Daemon
  pub pending : List Task
  pub world : World
  pub channel : List ExecutionMessage

abbrev pub ambient_of : Task → Ambient
ambient_of t = record {
  message_tx = true;
  window_cycle_token = t.window_cycle_token;
  modifier_state = t.modifier_state;
}

abbrev pub messages_of : List Effect → List ExecutionMessage
messages_of [] = []
messages_of (message msg ∷ es) = msg ∷ messages_of es
messages_of (_ ∷ es) = messages_of es

-- The tasks and events that a round of the loop produced go to the others.
abbrev pub emptied : Daemon → Daemon
emptied d = record d { tasks = []; sent = [] }

abbrev pub after_round : Program → Daemon → Program
after_round s d = record {
  daemon = emptied d;
  pending = s.pending ++ d.tasks;
  world = record { store = s.world.store; trace = s.world.trace ++ map sent d.sent };
  channel = s.channel;
}

unfoldable pub receive : Program → Incoming → Program
receive s i = after_round s (round (emptied s.daemon) i)

-- A task that panics ends, and leaves what it did.
abbrev pub world_of : Outcome BlockRet → Option World
world_of (done _ w) = some w
world_of (panicked _ w) = some w
world_of lost = none

-- A task has ended, with these tasks left, this world and these effects.
abbrev pub after_task : Program → List Task → World → List Effect → Program
after_task s ts w es = record {
  daemon = s.daemon;
  pending = ts;
  world = w;
  channel = s.channel ++ messages_of es;
}

-- Something from outside, a message of a task, or the run of any task that waits.
pub data Step (host : Host) (s : Program) : Option Incoming → Program → Type 0 where
  receives_window :
      (info : ActiveWindowInfo) → Step host s (some (window info)) (receive s (window info))
  receives_input : (ev : InputEvent) → Step host s (some (input ev)) (receive s (input ev))
  delivers :
      (msg : ExecutionMessage) (ms : List ExecutionMessage)
      → s.channel ≡ msg ∷ ms
      → Step host s none (receive (record s { channel = ms }) (execution msg))
  runs :
      (t : Task) (before after : List Task) (f : ℕ) (w : World) (es : List Effect)
      → s.pending ≡ before ++ t ∷ after
      → world_of (eval_block host f t.block t.var_map (ambient_of t) s.world) ≡ some w
      → w.trace ≡ s.world.trace ++ es
      → Step host s none (after_task s (before ++ after) w es)

-- A sequence of steps, with what it received from outside.
pub data Steps (host : Host) : Program → List Incoming → Program → Type 0 where
  rest : {s : Program} → Steps host s [] s
  then_received :
      {s s' s'' : Program} {i : Incoming} {is : List Incoming}
      → Step host s (some i) s'
      → Steps host s' is s''
      → Steps host s (i ∷ is) s''
  then_done :
      {s s' s'' : Program} {is : List Incoming}
      → Step host s none s'
      → Steps host s' is s''
      → Steps host s is s''
