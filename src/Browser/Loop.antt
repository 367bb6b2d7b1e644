-- ===== src/Browser/Loop.antt =====
-- src/evlist/evlist.rs, the loop of `main`: each key and each set of devices that had an event is
-- followed by an update of the screen.
use map2_legacy.Base.{ℕ, List, [], ◌∷◌, Bool, true, false, Text, if◌then◌else◌}
use map2_legacy.Browser.Defs.{
  Browser, start, ProcessInputRet, carry_on, quit, process_input, DeviceMap, Outside, Output,
  update,
}

-- What `tokio::select!` receives: a key, or the set of devices to highlight.
pub data Received : Type 0 where
  key : ℕ → Received
  fd_set : (Text → Bool) → Received

-- What is received in a round, and the paths that `get_fd_list` then gives.
pub record Round : Type 0 where
  pub received : Received
  pub fd_list : List Text

-- The variables of `main`, what is on the screen, and whether the process has exited.
pub record Session : Type 0 where
  pub browser : Browser
  pub highlight_set : Text → Bool
  pub device_map : DeviceMap
  pub screen : List Output
  pub exited : Bool

module _ (o : Outside) (max_y : ℕ) where
  abbrev pub redraw : List Text → Session → Browser → (Text → Bool) → Session
  redraw fd_list t b lit =
      let drawn = update o lit max_y fd_list t.device_map b in
      record t {
        browser = drawn.0;
        highlight_set = lit;
        device_map = drawn.1.0;
        screen = drawn.1.1;
      }

  abbrev pub after_input : List Text → Session → Browser → ProcessInputRet → Session
  after_input fd_list t b quit = record t { browser = b; exited = true }
  after_input fd_list t b carry_on = redraw fd_list t b t.highlight_set

  unfoldable pub browse_round : Session → Round → Session
  unfolding process_input update
  browse_round t r = elim r.received [
    | key ch ↦ let done = process_input ch t.browser in after_input r.fd_list t done.0 done.1
    | fd_set lit ↦ redraw r.fd_list t t.browser lit
  ]

  -- The rounds until the process exits.
  unfoldable pub browse : Session → List Round → Session
  unfolding browse_round
  browse t [] = t
  browse t (r ∷ rs) = let rest = browse (browse_round t r) rs in if t.exited then t else rest

  -- The variables when the loop is entered.
  abbrev pub opened : List Text → Session
  opened fd_list =
      let empty : Session = record {
        browser = start;
        highlight_set = λ _. false;
        device_map = [];
        screen = [];
        exited = false;
      } in
      redraw fd_list empty start (λ _. false)
