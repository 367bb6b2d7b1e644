-- ===== src/Parsing/Flags.antt =====
-- src/parsing/key.rs: which flags a prefix stands for, and capital letters.
use mathlib.Core.Path.{subst}
use map2_legacy.Base.{
  ◌≡◌, refl, ap, ◌∙◌, sym, ℕ, List, [], ◌∷◌, Bool, true, false, not, ◌||◌, ◌&&◌, Option, none, some,
  nat_beq, arith, if◌then◌else◌, text_eq, inl, inr, ◌⊎◌,
}
use map2_legacy.Key.{Key, KeyModifierFlags, no_flags, set_ctrl, set_alt, set_shift, set_meta}
use map2_legacy.Parsing.Keys.{
  FlagsResult, flags, repeated, collect_flags, key_flags, KeyNames, key_named, shift_found,
  find_key,
}

abbrev pub has : ℕ → List ℕ → Bool
has c [] = false
has c (v ∷ vs) = nat_beq v c || has c vs

abbrev pub is_flag : ℕ → Bool
is_flag v = nat_beq v b'!' || (nat_beq v b'^' || (nat_beq v b'+' || nat_beq v b'#'))

abbrev pub all_flags : List ℕ → Bool
all_flags [] = true
all_flags (v ∷ vs) = is_flag v && all_flags vs

abbrev pub distinct : List ℕ → Bool
distinct [] = true
distinct (v ∷ vs) = not (has v vs) && distinct vs

-- None of the characters stands for a flag that is set.
abbrev pub fresh : KeyModifierFlags → List ℕ → Bool
fresh f vs =
    not (f.alt && has b'!' vs)
    && (not (f.ctrl && has b'^' vs)
        && (not (f.shift && has b'+' vs) && not (f.meta && has b'#' vs)))

abbrev pub flags_in : KeyModifierFlags → List ℕ → KeyModifierFlags
flags_in f vs = record {
  ctrl = f.ctrl || has b'^' vs;
  shift = f.shift || has b'+' vs;
  alt = f.alt || has b'!' vs;
  meta = f.meta || has b'#' vs;
}

-- What the loop should give.
abbrev wanted : KeyModifierFlags → List ℕ → FlagsResult
wanted f vs = if distinct vs && fresh f vs then flags (flags_in f vs) else repeated

-- Which flag a character is.
flag-cases : (v : ℕ) → is_flag v ≡ true → (v ≡ b'!') ⊎ ((v ≡ b'^') ⊎ ((v ≡ b'+') ⊎ (v ≡ b'#')))
flag-cases v h = grind arith

wanted-alt :
    (f : KeyModifierFlags) (vs : List ℕ)
    → (if not f.alt then wanted (set_alt f) vs else repeated) ≡ wanted f (b'!' ∷ vs)
unfolding set_alt
wanted-alt f vs = ground arith

wanted-ctrl :
    (f : KeyModifierFlags) (vs : List ℕ)
    → (if not f.ctrl then wanted (set_ctrl f) vs else repeated) ≡ wanted f (b'^' ∷ vs)
unfolding set_ctrl
wanted-ctrl f vs = ground arith

wanted-shift :
    (f : KeyModifierFlags) (vs : List ℕ)
    → (if not f.shift then wanted (set_shift f) vs else repeated) ≡ wanted f (b'+' ∷ vs)
unfolding set_shift
wanted-shift f vs = ground arith

wanted-meta :
    (f : KeyModifierFlags) (vs : List ℕ)
    → (if not f.meta then wanted (set_meta f) vs else repeated) ≡ wanted f (b'#' ∷ vs)
unfolding set_meta
wanted-meta f vs = ground arith

collect_flags-all_flags :
    (f : KeyModifierFlags) (vs : List ℕ) → all_flags vs ≡ true → collect_flags f vs ≡ wanted f vs
unfolding collect_flags
collect_flags-all_flags f [] h = ground arith
collect_flags-all_flags f (v ∷ vs) h =
    let rest : all_flags vs ≡ true = ground arith in
    let at = λ (u : ℕ). collect_flags f (u ∷ vs) ≡ wanted f (u ∷ vs) in
    let next = λ (test : Bool) (r : FlagsResult). if not test then r else repeated in
    elim (flag-cases v (ground arith)) [
      | inl e ↦
          subst at (sym e)
            (ap (next f.alt) (collect_flags-all_flags (set_alt f) vs rest) ∙ wanted-alt f vs)
      | inr (inl e) ↦
          subst at (sym e)
            (ap (next f.ctrl) (collect_flags-all_flags (set_ctrl f) vs rest) ∙ wanted-ctrl f vs)
      | inr (inr (inl e)) ↦
          subst at (sym e)
            (ap (next f.shift) (collect_flags-all_flags (set_shift f) vs rest) ∙ wanted-shift f vs)
      | inr (inr (inr e)) ↦
          subst at (sym e)
            (ap (next f.meta) (collect_flags-all_flags (set_meta f) vs rest) ∙ wanted-meta f vs)
    ]

-- A prefix of flag characters is taken exactly if no character is repeated, and then sets the flags
-- whose characters stand in it, in whatever order.
pub key_flags-all_flags :
    (vs : List ℕ)
    → all_flags vs ≡ true
    → key_flags vs ≡ (
        if distinct vs
        then flags (record {
          ctrl = has b'^' vs;
          shift = has b'+' vs;
          alt = has b'!' vs;
          meta = has b'#' vs;
        })
        else repeated)
unfolding key_flags
key_flags-all_flags vs h = collect_flags-all_flags no_flags vs h ∙ (ground arith)

shift_found-false : (o : Option (Key × KeyModifierFlags)) → shift_found false o ≡ o
shift_found-false none = refl
shift_found-false (some (k, f)) = refl

-- If a capital and a small letter have the same upper case, and the small letter names a key, then
-- the capital letter names that key with shift.
pub key_named-capital :
    (names : KeyNames) (small capital : ℕ) (k : Key) (f : KeyModifierFlags)
    → names.to_uppercase (capital ∷ []) ≡ names.to_uppercase (small ∷ [])
    → names.is_uppercase capital ≡ true
    → names.is_uppercase small ≡ false
    → key_named names (small ∷ []) ≡ some (k, f)
    → key_named names (capital ∷ []) ≡ some (k, set_shift f)
unfolding key_named
key_named-capital names small capital k f same up low h =
    let of_small = find_key names (names.to_uppercase (small ∷ [])) in
    let found : of_small ≡ some (k, f) =
      sym (shift_found-false of_small) ∙ (ap (λ b. shift_found b of_small) (sym low) ∙ h) in
    ap (λ b. shift_found b (find_key names (names.to_uppercase (capital ∷ [])))) up
    ∙ (ap (λ s. shift_found true (find_key names s)) same ∙ ap (shift_found true) found)
