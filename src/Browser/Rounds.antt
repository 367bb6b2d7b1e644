-- ===== src/Browser/Rounds.antt =====
-- src/evlist/evlist.rs, the loop of `main`: what rounds and updates leave as it is.
use map2_legacy.Base.{
  ◌≡◌, refl, ◌∙◌, sym, ℕ, ◌≤◌, List, [], ◌∷◌, ◌++◌, Bool, true, false, not, ◌⊎◌, Option-cases, inl,
  inr, Text, nat_beq, ltb, ◌&&◌, arith,
}
use map2_legacy.Browser.Defs.{
  Browser, Mode, search, carry_on, search_key, process_input, DeviceMap, Outside, update,
}
use map2_legacy.Browser.Loop.{Received, key, fd_set, Round, Session, redraw, browse_round, browse}

-- A character that a search takes as it is: a byte that is no key of the search.
abbrev pub is_plain : ℕ → Bool
is_plain ch =
    ltb ch 256
    && (not (nat_beq ch 10)
        && (not (nat_beq ch 27) && (not (nat_beq ch 127) && not (nat_beq ch 23))))

abbrev pub all_plain : Text → Bool
all_plain [] = true
all_plain (c ∷ s) = is_plain c && all_plain s

-- The keys that come in some rounds.
abbrev pub keys_of : List Round → List ℕ
keys_of [] = []
keys_of (r ∷ rs) = elim r.received [ key ch ↦ ch ∷ keys_of rs | fd_set _ ↦ keys_of rs ]

-- The filter that a search leaves, by the key that ends it.
pub data EndsSearch (typed : Text) : ℕ → Text → Type 0 where
  enter : EndsSearch typed 10 typed
  escape : EndsSearch typed 27 []

-- The screen and the variables are what some update has left.
abbrev pub Updated : Outside → ℕ → Session → Type 0
Updated o max_y t =
    (lit : Text → Bool) × (fd_list : List Text) × (m : DeviceMap) × (b : Browser) × (update o lit
        max_y fd_list m b
      ≡ (t.browser, (t.device_map, t.screen)))

-- The browser goes on and its screen is up to date, in a mode and with a filter, scrolled at most so
-- far.
pub record Shows (o : Outside) (max_y : ℕ) (mode : Mode) (filter : Text) (most : ℕ) (t : Session)
    : Type 0 where
  pub in_mode : t.browser.mode ≡ mode
  pub with_filter : t.browser.filter ≡ filter
  pub scrolled : t.browser.scroll_offset ≤ most
  pub goes_on : t.exited ≡ false
  pub updated : Updated o max_y t

pub search_key-plain :
    (b : Browser) (ch : ℕ) (f : Text)
    → is_plain ch ≡ true
    → search_key ch (record b { filter = f }) ≡ record b { filter = f ++ ch ∷ [] }
unfolding search_key
search_key-plain b ch f h = ground arith

module _ (o : Outside) (max_y : ℕ) where
  update_keeps :
      (fd_list : List Text) (m : DeviceMap) (b : Browser) (lit : Text → Bool) (most : ℕ)
      → b.scroll_offset ≤ most
      → let b' = (update o lit max_y fd_list m b).0 in
        (b'.mode ≡ b.mode) × (b'.filter ≡ b.filter) × (b'.scroll_offset ≤ most)
  unfolding update
  update_keeps fd_list m b lit most low = elim (Option-cases (o.compile b.filter)) [
    | inl e ↦ rw e (refl, refl, low)
    | inr (matches, e) ↦ rw e (refl, refl, ground arith)
  ]

  pub redraw-Shows :
      (fd_list : List Text) (t : Session) (b : Browser) (lit : Text → Bool) (most : ℕ)
      → t.exited ≡ false
      → b.scroll_offset ≤ most
      → Shows o max_y b.mode b.filter most (redraw o max_y fd_list t b lit)
  redraw-Shows fd_list t b lit most live low =
      let kept = update_keeps fd_list t.device_map b lit most low in
      record {
        in_mode = kept.0;
        with_filter = kept.1;
        scrolled = kept.2;
        goes_on = live;
        updated = (lit, fd_list, t.device_map, b, refl);
      }

pub Received-cases :
    (x : Received) → ((ch : ℕ) × (x ≡ key ch)) ⊎ ((lit : Text → Bool) × (x ≡ fd_set lit))
Received-cases (key ch) = inl (ch, refl)
Received-cases (fd_set lit) = inr (lit, refl)

pub keys_of-key :
    (r : Round) (rs : List Round) (ch : ℕ)
    → r.received ≡ key ch
    → keys_of (r ∷ rs) ≡ ch ∷ keys_of rs
keys_of-key r rs ch e = rw e refl

pub keys_of-fd_set :
    (r : Round) (rs : List Round) (lit : Text → Bool)
    → r.received ≡ fd_set lit
    → keys_of (r ∷ rs) ≡ keys_of rs
keys_of-fd_set r rs lit e = rw e refl

pub process_input-search :
    (ch : ℕ) (b : Browser) → b.mode ≡ search → process_input ch b ≡ (search_key ch b, carry_on)
unfolding process_input
process_input-search ch b m = rw m refl

module _ (o : Outside) (max_y : ℕ) where
  pub browse-live :
      (t : Session) (r : Round) (rs : List Round)
      → t.exited ≡ false
      → browse o max_y t (r ∷ rs) ≡ browse o max_y (browse_round o max_y t r) rs
  unfolding browse
  browse-live t r rs live = rw live refl

  pub key-Shows :
      (t : Session) (r : Round) (ch : ℕ) (b : Browser) (most : ℕ)
      → r.received ≡ key ch
      → process_input ch t.browser ≡ (b, carry_on)
      → t.exited ≡ false
      → b.scroll_offset ≤ most
      → Shows o max_y b.mode b.filter most (browse_round o max_y t r)
  unfolding browse_round
  key-Shows t r ch b most e p live low =
      rw (e, p) (redraw-Shows o max_y r.fd_list t b t.highlight_set most live low)

  pub fd_set-Shows :
      (mode : Mode) (f : Text) (most : ℕ) (t : Session) (r : Round) (lit : Text → Bool)
      → r.received ≡ fd_set lit
      → Shows o max_y mode f most t
      → Shows o max_y mode f most (browse_round o max_y t r)
  unfolding browse_round
  fd_set-Shows mode f most t r lit e h =
      let same = redraw-Shows o max_y r.fd_list t t.browser lit most h.goes_on h.scrolled in
      rw e (record {
        in_mode = same.in_mode ∙ h.in_mode;
        with_filter = same.with_filter ∙ h.with_filter;
        scrolled = same.scrolled;
        updated = same.updated;
        goes_on = same.goes_on;
      })

  -- Rounds without keys.
  pub browse-idle :
      (mode : Mode) (f : Text) (most : ℕ) (rs : List Round) (t : Session)
      → keys_of rs ≡ []
      → Shows o max_y mode f most t
      → Shows o max_y mode f most (browse o max_y t rs)
  unfolding browse
  browse-idle mode f most [] t e h = h
  browse-idle mode f most (r ∷ rs) t e h = elim (Received-cases r.received) [
    | inl (ch, k) ↦ absurd (cc (keys_of-key r rs ch k, e))
    | inr (lit, k) ↦ rw (browse-live t r rs h.goes_on) (
        browse-idle mode f most rs (browse_round o max_y t r) (sym (keys_of-fd_set r rs lit k) ∙ e)
          (fd_set-Shows mode f most t r lit k h))
  ]
