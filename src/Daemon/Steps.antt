-- ===== src/Daemon/Steps.antt =====
-- src/main.rs: a round of the loop before and after the process has exited.
use map2_legacy.Base.{ℕ, ◌≡◌, refl, ap, none, some, List, [], ◌∷◌}
use map2_legacy.Daemon.Defs.{Daemon, Incoming, unless_exited, dispatch, round, run}

pub round-live : (d : Daemon) (i : Incoming) → d.exited ≡ none → round d i ≡ dispatch d i
unfolding round
round-live d i live = ap (λ e. unless_exited e d (dispatch d i)) live

pub round-gone : (d : Daemon) (i : Incoming) (c : ℕ) → d.exited ≡ some c → round d i ≡ d
unfolding round
round-gone d i c gone = ap (λ e. unless_exited e d (dispatch d i)) gone

-- Once the process has exited, nothing that arrives changes anything.
pub run-gone : (d : Daemon) (is : List Incoming) (c : ℕ) → d.exited ≡ some c → run d is ≡ d
unfolding run
run-gone d [] c gone = refl
run-gone d (i ∷ is) c gone = unfold run in rw (round-gone d i c gone) (run-gone d is c gone)
