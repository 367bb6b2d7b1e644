-- ===== src/Device/Reading.antt =====
-- src/device/virtual_input_device.rs: which of the device's events the handler gets.
use map2_legacy.Base.{
  ◌≡◌, refl, ap, ◌∙◌, sym, ℕ, suc, ◌+◌, ◌≤◌, List, [], ◌∷◌, ◌++◌, Bool, true, false, Option, none,
  some, length, arith,
}
use map2_legacy.Key.{InputEvent}
use map2_legacy.Device.Reader.{
  Answer, event, success, sync, os_error, Act, handled, Run, poll, on_error, read_loop, sync_loop,
  aborted,
}

abbrev pub events_of : List Act → List InputEvent
events_of [] = []
events_of (handled ev ∷ acts) = ev ∷ events_of acts
events_of (_ ∷ acts) = events_of acts

-- The events that a run gives to the handler.
abbrev pub handled_by : Run → List InputEvent
handled_by r = events_of r.0

handled_by-poll :
    (b : Bool) (r s : Run)
    → handled_by r ≡ handled_by s
    → handled_by (poll b r) ≡ handled_by (poll b s)
handled_by-poll true r s h = refl
handled_by-poll false r s h = h

handled_by-on_error :
    (code : Option ℕ) (r s : Run)
    → handled_by r ≡ handled_by s
    → handled_by (on_error code r) ≡ handled_by (on_error code s)
handled_by-on_error none r s h = refl
handled_by-on_error (some code) r s h = ground arith

module _ (abort : ℕ → Bool) where
  -- The abort has been sent before the k-th call, and stays sent.
  abbrev pub IsSentBy : ℕ → Type 0
  IsSentBy k = (m : ℕ) → k ≤ m → abort m ≡ true

  read_loop-sent :
      (k n : ℕ) → IsSentBy k → k ≤ n → (as' : List Answer) → read_loop abort n as' ≡ ([], aborted)
  unfolding read_loop
  read_loop-sent k n sent h [] = rw (sent n h)
  read_loop-sent k n sent h (event success _ ∷ as') = rw (sent n h)
  read_loop-sent k n sent h (event sync _ ∷ as') = rw (sent n h)
  read_loop-sent k n sent h (os_error _ ∷ as') = rw (sent n h)

  sync_loop-sent :
      (k n : ℕ) → IsSentBy k → k ≤ n → (as' : List Answer) → handled_by (sync_loop abort n as') ≡ []
  unfolding sync_loop
  sync_loop-sent k n sent h [] = refl
  sync_loop-sent k n sent h (event sync _ ∷ as') = sync_loop-sent k (suc n) sent (omega arith) as'
  sync_loop-sent k n sent h (event success _ ∷ as') =
      ap handled_by (read_loop-sent k (suc n) sent (omega arith) as')
  sync_loop-sent k n sent h (os_error _ ∷ as') =
      ap handled_by (read_loop-sent k (suc n) sent (omega arith) as')

  -- Both loops at once, since each goes on with the other.
  loops-append :
      (k n : ℕ) (as' later : List Answer)
      → IsSentBy k
      → k ≤ n + length as'
      → (handled_by (read_loop abort n (as' ++ later)) ≡ handled_by (read_loop abort n as'))
        × (handled_by (sync_loop abort n (as' ++ later)) ≡ handled_by (sync_loop abort n as'))
  unfolding read_loop
  loops-append k n [] later sent h = (
    ap handled_by (
        read_loop-sent k n sent (omega arith) later
        ∙ sym (read_loop-sent k n sent (omega arith) [])),
    sync_loop-sent k n sent (omega arith) later,
  )
  loops-append k n (event success ev ∷ as') later sent h =
      let (read, sync_on) = loops-append k (suc n) as' later sent (omega arith) in
      (handled_by-poll (abort n) _ _ (ap (λ l. ev ∷ l) read), read)
  loops-append k n (event sync _ ∷ as') later sent h =
      let (read, sync_on) = loops-append k (suc n) as' later sent (omega arith) in
      (handled_by-poll (abort n) _ _ sync_on, sync_on)
  loops-append k n (os_error code ∷ as') later sent h =
      let (read, sync_on) = loops-append k (suc n) as' later sent (omega arith) in
      (handled_by-poll (abort n) _ _ (handled_by-on_error code _ _ read), read)

  -- Once the abort of a reader thread has been sent, what the device answers later never reaches
  -- the handler, even if the thread is in the middle of a synchronisation.
  pub read_loop-append :
      (k n : ℕ) (as' later : List Answer)
      → IsSentBy k
      → k ≤ n + length as'
      → handled_by (read_loop abort n (as' ++ later)) ≡ handled_by (read_loop abort n as')
  read_loop-append k n as' later sent h = (loops-append k n as' later sent h).0

  -- Answers that report dropped events, and one that ends the report.
  abbrev pub all_sync : List InputEvent → List Answer
  all_sync [] = []
  all_sync (ev ∷ evs) = event sync ev ∷ all_sync evs

  same_call :
      (m n : ℕ) (as' : List Answer)
      → m ≡ n
      → handled_by (read_loop abort m as') ≡ handled_by (read_loop abort n as')
  same_call m n as' e = ap (λ i. handled_by (read_loop abort i as')) e

  sync_loop-all_sync :
      (n : ℕ) (evs : List InputEvent) (last : Answer) (as' : List Answer)
      → ((ev : InputEvent) → ¬ (last ≡ event sync ev))
      → handled_by (sync_loop abort n (all_sync evs ++ last ∷ as'))
        ≡ handled_by (read_loop abort (suc (n + length evs)) as')
  unfolding sync_loop
  sync_loop-all_sync n [] (event success _) as' h = same_call _ _ as' (omega arith)
  sync_loop-all_sync n [] (event sync ev) as' h = absurd (h ev refl)
  sync_loop-all_sync n [] (os_error _) as' h = same_call _ _ as' (omega arith)
  sync_loop-all_sync n (ev ∷ evs) last as' h =
      sync_loop-all_sync (suc n) evs last as' h ∙ same_call _ _ as' (omega arith)

  -- When a device reports dropped events and no abort has been sent, the thread reads on in
  -- synchronisation up to the first answer that is no such report; none of these events reaches the
  -- handler, and the loop goes on behind them.
  pub read_loop-all_sync :
      (n : ℕ) (first : InputEvent) (evs : List InputEvent) (last : Answer) (as' : List Answer)
      → abort n ≡ false
      → ((ev : InputEvent) → ¬ (last ≡ event sync ev))
      → handled_by (read_loop abort n (event sync first ∷ (all_sync evs ++ last ∷ as')))
        ≡ handled_by (read_loop abort (n + (length evs + 2)) as')
  unfolding read_loop
  read_loop-all_sync n first evs last as' going h =
      rw going (sync_loop-all_sync (suc n) evs last as' h ∙ same_call _ _ as' (omega arith))
