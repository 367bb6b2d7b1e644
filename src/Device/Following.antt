-- ===== src/Device/Following.antt =====
-- src/device/virtual_input_device.rs: which devices are read after some came and went.
use map2_legacy.Base.{
  ◌≡◌, refl, ap, ◌∙◌, sym, ℕ, List, [], ◌∷◌, Bool, true, false, ◌&&◌, Option, none, some, Text,
  ◌==◌, text_eq, lookup, lookup-insert, if◌then◌else◌, Bool-cases, Option-cases, inl, inr, arith,
}
use map2_legacy.Modifiers.Tracking.{or_else}
use map2_legacy.Device.Watcher.{
  Devices, Watcher, any_match, remove, FsWatchEvent, add_device, remove_device, unless_ended,
  on_fs_event, follow,
}

lookup-remove :
    (path other : Text) (m : List (Text × ℕ))
    → lookup other (remove path m) ≡ (if path == other then none else lookup other m)
lookup-remove path other [] = ground arith
lookup-remove path other (entry ∷ m) = ground (
  arith,
  lookup-remove path other m,
  text_eq.same_iff path other,
  text_eq.same_iff entry.0 path,
  text_eq.same_iff entry.0 other,
)

abbrev pub is_some : Option ℕ → Bool
is_some none = false
is_some (some _) = true

-- Whether a path has a reader thread in the map.
abbrev pub is_read : Text → Watcher → Bool
is_read path w = is_some (lookup path w.device_map)

-- What an event says of a path, if it says anything.
abbrev pub says : Devices → Text → FsWatchEvent → Option Bool
says d path (add_device p) = if p == path && any_match d.patterns p then some true else none
says d path (remove_device p) = if p == path then some false else none

-- What the last event that says anything of a path says.
abbrev pub last_says : Devices → Text → List FsWatchEvent → Option Bool
last_says d path [] = none
last_says d path (e ∷ es) =
    let later = last_says d path es in elim later [ none ↦ says d path e | some b ↦ some b ]

or_else-chain :
    (later now : Option Bool) (b : Bool)
    → or_else later (or_else now b)
      ≡ or_else (elim later as (λ _. Option Bool) [ none ↦ now | some c ↦ some c ]) b
or_else-chain none now b = refl
or_else-chain (some c) now b = refl

abbrev pub GrabsAll : Devices → Type 0
GrabsAll d = (n : ℕ) (path : Text) → d.grabs n path ≡ true

module _ (d : Devices) (grabs : GrabsAll d) (path : Text) where
  is_read-absent :
      (p : Text) (m : List (Text × ℕ))
      → lookup p m ≡ none
      → is_some (lookup path m)
        ≡ or_else (if p == path then some false else none) (is_some (lookup path m))
  is_read-absent p m absent = elim (Bool-cases (p == path)) [
    | inl e ↦
        rw e (ap is_some (ap (λ q. lookup q m) (sym ((text_eq.same_iff p path).0 e)) ∙ absent))
    | inr e ↦ rw e refl
  ]

  is_read-on_fs_event :
      (w : Watcher) (e : FsWatchEvent)
      → is_read path (on_fs_event d w e) ≡ or_else (says d path e) (is_read path w)
  unfolding on_fs_event
  is_read-on_fs_event w (add_device p) = elim (Bool-cases (any_match d.patterns p)) [
    | inr foreign ↦ rw foreign (ground arith)
    | inl matched ↦
        rw (matched, grabs w.started p)
          (ap is_some (lookup-insert p path w.started w.device_map)
            ∙ (elim (Bool-cases (p == path)) [ inl e ↦ rw e refl | inr e ↦ rw e refl ]))
  ]
  is_read-on_fs_event w (remove_device p) = elim (Option-cases (lookup p w.device_map)) [
    | inl absent ↦ rw absent (is_read-absent p w.device_map absent)
    | inr (thread, present) ↦
        rw (present, lookup-remove p path w.device_map)
          (elim (Bool-cases (p == path)) [ inl e ↦ rw e refl | inr e ↦ rw e refl ])
  ]

  ended-on_fs_event : (w : Watcher) (e : FsWatchEvent) → (on_fs_event d w e).ended ≡ w.ended
  unfolding on_fs_event
  ended-on_fs_event w (add_device p) = elim (Bool-cases (any_match d.patterns p)) [
    | inr foreign ↦ rw foreign refl
    | inl matched ↦ rw (matched, grabs w.started p) refl
  ]
  ended-on_fs_event w (remove_device p) = elim (Option-cases (lookup p w.device_map)) [
    | inl absent ↦ rw absent refl
    | inr (thread, present) ↦ rw present refl
  ]

  -- If every device can be grabbed and the watcher has not ended, a path is read after any events
  -- exactly if the last event that matters for it was its coming, or, where there was none, if it
  -- was read at the start; the coming of a path that no pattern matches does not matter.
  pub is_read-follow :
      (w : Watcher) (es : List FsWatchEvent)
      → w.ended ≡ false
      → is_read path (follow d w es) ≡ or_else (last_says d path es) (is_read path w)
  unfolding follow
  is_read-follow w [] going = refl
  is_read-follow w (e ∷ es) going =
      let later = last_says d path es in
      ap (λ x. is_read path (follow d (unless_ended x w (on_fs_event d w e)) es)) going
      ∙ (is_read-follow (on_fs_event d w e) es (ended-on_fs_event w e ∙ going)
          ∙ (ap (or_else later) (is_read-on_fs_event w e)
              ∙ or_else-chain later (says d path e) (is_read path w)))
