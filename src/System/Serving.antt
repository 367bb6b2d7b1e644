-- ===== src/System/Serving.antt =====
-- The program with a table of remappings of single actions: how it deals with input events.
use mathlib.Core.Path.{subst}
use map2_legacy.Base.{
  ◌≡◌, refl, ap, sym, ◌∙◌, List, [], ◌∷◌, ◌++◌, map, some, append-nil, append_assoc,
}
use map2_legacy.Key.{InputEvent, KeyModifierState, mods_eq}
use map2_legacy.Ast.{Address, Block}
use map2_legacy.Runtime.World.{Effect, sent}
use map2_legacy.Runtime.Host.{Host}
use map2_legacy.Daemon.{Daemon, Incoming, input, from_key_action, handle_stdin_ev}
use map2_legacy.Daemon.Steps.{round-live}
use map2_legacy.Daemon.Forwarding.{
  IsTaken, task_for, forward, forwarded, spawned, handle_stdin_ev-Handled,
}
use map2_legacy.System.{
  Program, emptied, after_round, receive, after_task, Step, receives_input, Steps, rest,
  then_received, then_done,
}
use map2_legacy.System.Steady.{
  Meaning, Steady, Waiting, untaken-none, Answer, passed, remapped, receive-after_round,
  passed-Steady, taken-Waiting,
}
use map2_legacy.System.Tasks.{task_effects, task_world, task-Remaps, task-Steady, task-Step}

module _ (f : Meaning) (s : Program) (ev : InputEvent) (h : Steady f s) where
  pub receive-Handled :
      (d' : Daemon)
      → handle_stdin_ev (emptied s.daemon) ev ≡ d'
      → receive s (input ev) ≡ after_round s d'
  receive-Handled d' e =
      receive-after_round s (input ev) d' (round-live (emptied s.daemon) (input ev) h.live ∙ e)

-- The answers to a list of events, one after the other.
pub data Answers (f : Meaning)
    : KeyModifierState → List InputEvent → List Effect → KeyModifierState → Type 0 where
  no_more : {s : KeyModifierState} → Answers f s [] [] s
  answered :
      {s s' s'' : KeyModifierState} {ev : InputEvent} {evs : List InputEvent} {es fs : List Effect}
      → Answer f s ev es s'
      → Answers f s' evs fs s''
      → Answers f s (ev ∷ evs) (es ++ fs) s''

module _ (host : Host) (f : Meaning) where
  abbrev pub Serves : Program → InputEvent → Program → Type 0
  Serves s ev s' =
      (es : List Effect) × Steps host s (input ev ∷ []) s'
      × (s'.world.trace ≡ s.world.trace ++ es)
      × Answer f s.daemon.state.modifiers ev es s'.daemon.state.modifiers

  module _ (s : Program) (ev : InputEvent) (h : Steady f s) where
    serve_passed :
        ((target : Block × Address) → ¬ IsTaken s.daemon ev target)
        → handle_stdin_ev (emptied s.daemon) ev ≡ forward (emptied s.daemon) ev
        → (s' : Program) × Serves s ev s' × Steady f s'
    serve_passed untaken e = (
      after_round s (forward (emptied s.daemon) ev),
      (
        sent ev ∷ [],
        subst (λ x. Steps host s (input ev ∷ []) x) (receive-Handled f s ev h _ e)
            (then_received (receives_input ev) rest),
        refl,
        passed (untaken-none f s ev h untaken),
      ),
      passed-Steady f s ev h,
    )

    serve_taken :
        (target : Block × Address)
        → IsTaken s.daemon ev target
        → handle_stdin_ev (emptied s.daemon) ev
          ≡ record (emptied s.daemon) { tasks = task_for (emptied s.daemon) target ∷ [] }
        → (s' : Program) × Serves s ev s' × Steady f s'
    serve_taken target taken e =
        let k = from_key_action s.daemon ev in
        let t = task_for (emptied s.daemon) target in
        let d' : Daemon = record (emptied s.daemon) { tasks = t ∷ [] } in
        let s₁ = after_round s d' in
        let waiting : Waiting f s₁ t k = taken-Waiting f s ev h target taken in
        let (to, body, plain, same, wants) = waiting.remaps in
        let es = task_effects t to body in
        let received : Step host s (some (input ev)) s₁ =
          subst (λ x. Step host s (some (input ev)) x) (receive-Handled f s ev h d' e)
            (receives_input ev) in
        (
          after_task s₁ [] (task_world s₁ t es) es,
          (
            es,
            then_received received (then_done (task-Step host f s₁ t k waiting) rest),
            ap (λ l. l ++ es) (append-nil s.world.trace),
            remapped to body es (rw (taken.0) wants) (task-Remaps host f s₁ t k waiting),
          ),
          task-Steady host f s₁ t k waiting,
        )

    serve_one : (s' : Program) × Serves s ev s' × Steady f s'
    serve_one = elim (handle_stdin_ev-Handled (emptied s.daemon) ev) [
      | forwarded untaken e ↦ serve_passed untaken e
      | spawned target taken e ↦ serve_taken target taken e
    ]

pub Steps-append :
    {host : Host} {s s' s'' : Program} {is js : List Incoming}
    → Steps host s is s'
    → Steps host s' js s''
    → Steps host s (is ++ js) s''
Steps-append rest later = later
Steps-append (then_received st first) later = then_received st (Steps-append first later)
Steps-append (then_done st first) later = then_done st (Steps-append first later)

-- x
pub Steady-Answers :
    (host : Host) (f : Meaning) (s : Program) (evs : List InputEvent)
    → Steady f s
    → (s' : Program) × (es : List Effect) × Steps host s (map input evs) s'
      × (s'.world.trace ≡ s.world.trace ++ es)
      × Answers f s.daemon.state.modifiers evs es s'.daemon.state.modifiers
      × Steady f s'
Steady-Answers host f s [] h = (s, [], rest, sym (append-nil s.world.trace), no_more, h)
Steady-Answers host f s (ev ∷ evs) h =
    let (s', (es, steps, sends, answer), h') = serve_one host f s ev h in
    let (s'', fs, steps', sends', answers, h'') = Steady-Answers host f s' evs h' in
    (
      s'',
      es ++ fs,
      Steps-append steps steps',
      sends' ∙ (ap (λ l. l ++ fs) sends ∙ append_assoc s.world.trace es fs),
      answered answer answers,
      h'',
    )
