-- ===== src/Browser/Typing.antt =====
-- src/evlist/evlist.rs, `process_input` in the loop of `main`: what a search leaves in the filter.
use mathlib.Core.Path.{subst}
use map2_legacy.Base.{
  ◌≡◌, refl, ap, ◌∙◌, sym, ℕ, List, [], ◌∷◌, ◌++◌, true, inl, inr, Text, append_assoc, append-nil,
  arith,
}
use map2_legacy.Browser.Defs.{
  Browser, normal, search, carry_on, search_key, normal_key, process_input, Outside,
}
use map2_legacy.Browser.Loop.{key, Round, Session, browse_round, browse}
use map2_legacy.Browser.Rounds.{
  is_plain, all_plain, keys_of, EndsSearch, enter, escape, Shows, search_key-plain, Received-cases,
  keys_of-key, keys_of-fd_set, process_input-search, browse-live, key-Shows, fd_set-Shows,
  browse-idle,
}

module _ (o : Outside) (max_y : ℕ) where
  -- A plain character in search mode.
  char-Shows :
      (f : Text) (most : ℕ) (t : Session) (r : Round) (c : ℕ)
      → r.received ≡ key c
      → is_plain c ≡ true
      → Shows o max_y search f most t
      → Shows o max_y search (f ++ c ∷ []) most (browse_round o max_y t r)
  char-Shows f most t r c k plain h =
      let b = t.browser in
      let typed : Browser = record b { filter = b.filter ++ c ∷ [] } in
      let same =
        key-Shows o max_y t r c typed most k
          (process_input-search c b h.in_mode
            ∙ ap (λ x. (x, carry_on)) (search_key-plain b c b.filter plain))
          h.goes_on h.scrolled in
      record {
        in_mode = same.in_mode ∙ h.in_mode;
        with_filter = same.with_filter ∙ ap (λ x. x ++ c ∷ []) h.with_filter;
        scrolled = same.scrolled;
        updated = same.updated;
        goes_on = same.goes_on;
      }

  -- From search mode: plain characters, and a key that ends the search.
  module _ (ends : ℕ) (last : Text → Text)
      (ending : (b : Browser)
        → search_key ends b ≡ record b { mode = normal; filter = last b.filter }) where
    end-Shows :
        (f : Text) (most : ℕ) (t : Session) (r : Round)
        → r.received ≡ key ends
        → Shows o max_y search f most t
        → Shows o max_y normal (last f) most (browse_round o max_y t r)
    end-Shows f most t r k h =
        let b = t.browser in
        let done : Browser = record b { mode = normal; filter = last b.filter } in
        let same =
          key-Shows o max_y t r ends done most k
            (process_input-search ends b h.in_mode ∙ ap (λ x. (x, carry_on)) (ending b)) h.goes_on
            h.scrolled in
        record {
          in_mode = same.in_mode;
          with_filter = same.with_filter ∙ ap last h.with_filter;
          scrolled = same.scrolled;
          updated = same.updated;
          goes_on = same.goes_on;
        }

    browse-search :
        (most : ℕ) (rs : List Round) (f s : Text) (t : Session)
        → keys_of rs ≡ s ++ ends ∷ []
        → all_plain s ≡ true
        → Shows o max_y search f most t
        → Shows o max_y normal (last (f ++ s)) most (browse o max_y t rs)
    browse-search most [] f [] t e plain h = absurd (cc e)
    browse-search most [] f (c ∷ s) t e plain h = absurd (cc e)
    browse-search most (r ∷ rs) f [] t e plain h = elim (Received-cases r.received) [
      | inl (ch, k) ↦
          let typed = sym (keys_of-key r rs ch k) ∙ e in
          let at_end : ch ≡ ends = cc typed in
          let next = browse_round o max_y t r in
          rw (browse-live o max_y t r rs h.goes_on) (
            subst (λ g. Shows o max_y normal (last g) most (browse o max_y next rs))
              (sym (append-nil f))
              (browse-idle o max_y normal (last f) most rs next (cc typed)
                (end-Shows f most t r (k ∙ ap key at_end) h)))
      | inr (lit, k) ↦ rw (browse-live o max_y t r rs h.goes_on) (
          browse-search most rs f [] (browse_round o max_y t r)
            (sym (keys_of-fd_set r rs lit k) ∙ e) plain
            (fd_set-Shows o max_y search f most t r lit k h))
    ]
    browse-search most (r ∷ rs) f (c ∷ s) t e plain h = elim (Received-cases r.received) [
      | inl (ch, k) ↦
          let typed = sym (keys_of-key r rs ch k) ∙ e in
          let next = browse_round o max_y t r in
          let here : ch ≡ c = cc typed in
          rw (browse-live o max_y t r rs h.goes_on) (
            subst (λ g. Shows o max_y normal (last g) most (browse o max_y next rs))
              (append_assoc f (c ∷ []) s)
              (browse-search most rs (f ++ c ∷ []) s next (cc typed) (ground arith)
                (char-Shows f most t r c (k ∙ ap key here) (ground arith) h)))
      | inr (lit, k) ↦ rw (browse-live o max_y t r rs h.goes_on) (
          browse-search most rs f (c ∷ s) (browse_round o max_y t r)
            (sym (keys_of-fd_set r rs lit k) ∙ e) plain
            (fd_set-Shows o max_y search f most t r lit k h))
    ]

  slash-Shows :
      (f : Text) (most : ℕ) (t : Session) (r : Round)
      → r.received ≡ key 47
      → Shows o max_y normal f most t
      → Shows o max_y search f most (browse_round o max_y t r)
  unfolding process_input normal_key
  slash-Shows f most t r k h =
      let b = t.browser in
      let same =
        key-Shows o max_y t r 47 (record b { mode = search }) most k (rw (h.in_mode) refl) h.goes_on
          h.scrolled in
      record {
        in_mode = same.in_mode;
        with_filter = same.with_filter ∙ h.with_filter;
        scrolled = same.scrolled;
        updated = same.updated;
        goes_on = same.goes_on;
      }

  browse-slash :
      (ends : ℕ) (last : Text → Text)
      → ((b : Browser) → search_key ends b ≡ record b { mode = normal; filter = last b.filter })
      → (most : ℕ) (rs : List Round) (f s : Text) (t : Session) → keys_of rs ≡ 47 ∷ (s ++ ends ∷ [])
      → all_plain s ≡ true
      → Shows o max_y normal f most t
      → Shows o max_y normal (last (f ++ s)) most (browse o max_y t rs)
  browse-slash ends last ending most [] f s t e plain h = absurd (cc e)
  browse-slash ends last ending most (r ∷ rs) f s t e plain h = elim (Received-cases r.received) [
    | inl (ch, k) ↦
        let typed = sym (keys_of-key r rs ch k) ∙ e in
        let here : ch ≡ 47 = cc typed in
        rw (browse-live o max_y t r rs h.goes_on) (
          browse-search ends last ending most rs f s (browse_round o max_y t r) (cc typed) plain
            (slash-Shows f most t r (k ∙ ap key here) h))
    | inr (lit, k) ↦ rw (browse-live o max_y t r rs h.goes_on) (
        browse-slash ends last ending most rs f s (browse_round o max_y t r)
          (sym (keys_of-fd_set r rs lit k) ∙ e) plain
          (fd_set-Shows o max_y normal f most t r lit k h))
  ]

  -- From normal mode behind an update of the screen, over rounds of the loop whose keys are a
  -- slash, a text of plain characters and Enter, with any events of devices in between and whatever
  -- files there are at each update: the browser is in normal mode again, exactly that text has been
  -- appended to the filter, the scroll offset has not grown, and variables and screen are what an
  -- update has left; with Escape in place of Enter the filter is empty instead.
  pub browse-Shows :
      (f s : Text) (ends : ℕ) (result : Text) (most : ℕ) (rs : List Round) (t : Session)
      → all_plain s ≡ true
      → EndsSearch (f ++ s) ends result
      → keys_of rs ≡ 47 ∷ (s ++ ends ∷ [])
      → Shows o max_y normal f most t
      → Shows o max_y normal result most (browse o max_y t rs)
  unfolding search_key
  browse-Shows f s _ _ most rs t plain enter e h =
      browse-slash 10 (λ g. g) (λ b. refl) most rs f s t e plain h
  browse-Shows f s _ _ most rs t plain escape e h =
      browse-slash 27 (λ _. []) (λ b. refl) most rs f s t e plain h
