-- ===== src/Daemon/Mappings.antt =====
-- src/event_handlers.rs: which mappings the table holds, and when one fires.
use mathlib.Core.Path.{◌≡⟨◌⟩◌, ◌∎}
use map2_legacy.Base.{
  ℕ, ◌≡◌, refl, ap, ◌∙◌, [], ◌∷◌, ◌++◌, true, ◌&&◌, none, some, nat_beq, nat_beq_iff, lookup,
  lookup-insert, insert, ◌==◌, if◌then◌else◌, Bool-cases, inl, inr,
}
use map2_legacy.Key.{InputEvent, KeyActionWithMods, mods_eq, mods_beq_iff}
use map2_legacy.Ast.{Address, Block}
use map2_legacy.Runtime.World.{add_mapping}
use map2_legacy.Daemon.Defs.{
  Daemon, from_key_action, handle_stdin_ev, handle_execution_message, input, execution, round, run,
  is_key_event, handle_key,
}
use map2_legacy.Daemon.Forwarding.{task_for, handle_stdin_ev-key}
use map2_legacy.Daemon.Steps.{round-live}

-- A mapping takes effect only with the token of the current window; it then replaces what the table
-- had for the same trigger, and nothing else.
pub lookup-add_mapping :
    (d : Daemon) (token : ℕ) (from k : KeyActionWithMods) (to : Block) (scope : Address)
    → lookup k (handle_execution_message d (add_mapping token from to scope)).mappings ≡ (
        if nat_beq token d.window_cycle_token && from == k
        then some (to, scope)
        else lookup k d.mappings)
unfolding handle_execution_message
lookup-add_mapping d token from k to scope =
    elim (Bool-cases (nat_beq token d.window_cycle_token)) [
      | inl e ↦ rw e (lookup-insert from k (to, scope) d.mappings)
      | inr e ↦ rw e refl
    ]

module _ (d : Daemon) (from : KeyActionWithMods) (to : Block) (scope : Address) where
  abbrev with_mapping : Daemon
  with_mapping = record d { mappings = insert from (to, scope) d.mappings }

  round-add_mapping :
      d.exited ≡ none
      → round d (execution (add_mapping d.window_cycle_token from to scope)) ≡ with_mapping
  unfolding handle_execution_message
  round-add_mapping live =
      round-live d _ live ∙ rw ((nat_beq_iff d.window_cycle_token d.window_cycle_token).1 refl) refl

  lookup-with_mapping : lookup from with_mapping.mappings ≡ some (to, scope)
  lookup-with_mapping =
      rw (lookup-insert from from (to, scope) d.mappings)
        (rw ((mods_beq_iff from from).1 refl) refl)

-- A mapping registered with the current token, while the process has not exited, fires on a key
-- event that follows, that has its key and its value and comes while exactly its modifiers are
-- held: its block starts with the modifiers of that moment, the event is not sent on, and nothing
-- else changes but the table.
pub mapping_fires :
    (d : Daemon) (from : KeyActionWithMods) (to : Block) (scope : Address) (ev : InputEvent)
    → d.exited ≡ none
    → is_key_event ev.event_code ≡ true
    → from_key_action d ev ≡ from
    → run d (execution (add_mapping d.window_cycle_token from to scope) ∷ input ev ∷ [])
      ≡ record d {
        mappings = insert from (to, scope) d.mappings;
        tasks = d.tasks ++ task_for d (to, scope) ∷ [];
      }
unfolding run
mapping_fires d from to scope ev live key fits =
    let d₁ = with_mapping d from to scope in
    let hit : lookup (from_key_action d₁ ev) d₁.mappings ≡ some (to, scope) =
      rw fits (lookup-with_mapping d from to scope) in
    run d (execution (add_mapping d.window_cycle_token from to scope) ∷ input ev ∷ [])
    ≡⟨ ap (λ x. round x (input ev)) (round-add_mapping d from to scope live) ⟩ round d₁ (input ev)
    ≡⟨ round-live d₁ (input ev) live ⟩ handle_stdin_ev d₁ ev
    ≡⟨ handle_stdin_ev-key d₁ ev key (some (to, scope)) hit ⟩ handle_key d₁ ev (some (to, scope)) ∎
