-- ===== src/Window/WmClass.antt =====
-- src/x11.rs, `parse_wm_class`: the bytes of a class and an instance, written and read.
use map2_legacy.Base.{
  ◌≡◌, refl, ap, ℕ, List, [], ◌∷◌, ◌++◌, Bool, true, false, some, nat_beq, arith, if◌then◌else◌,
}
use map2_legacy.Window.Property.{
  GetPropertyReply, is_utf8, split_at_null, drop_last_null, parse_wm_class,
}

-- The bytes of a C string.
abbrev pub has_null : List ℕ → Bool
has_null [] = false
has_null (b ∷ s) = if nat_beq b 0 then true else has_null s

split_at_null-append :
    (s t : List ℕ) → has_null s ≡ false → split_at_null (s ++ 0 ∷ t) ≡ some (s, t)
split_at_null-append [] t h = refl
split_at_null-append (b ∷ s) t h = ground (arith, split_at_null-append s t)

drop_last_null-append : (s : List ℕ) → drop_last_null (s ++ 0 ∷ []) ≡ s
drop_last_null-append [] = refl
drop_last_null-append (b ∷ []) = refl
drop_last_null-append (b ∷ (c ∷ s)) = ap (λ l. b ∷ l) (drop_last_null-append (c ∷ s))

drop_last_null-clean : (s : List ℕ) → has_null s ≡ false → drop_last_null s ≡ s
drop_last_null-clean [] h = refl
drop_last_null-clean (b ∷ []) h = ground arith
drop_last_null-clean (b ∷ (c ∷ s)) h = ap (λ l. b ∷ l) (drop_last_null-clean (c ∷ s) (ground arith))

-- A property of format 8 that holds two null-terminated strings of valid UTF-8 is read as these,
-- and so is one whose second string lacks its terminator.
pub parse_wm_class-append :
    (p : GetPropertyReply) (name class : List ℕ)
    → has_null name ≡ false
    → has_null class ≡ false
    → is_utf8 name ≡ true
    → is_utf8 class ≡ true
    → (parse_wm_class (record p { format = 8; value = name ++ 0 ∷ (class ++ 0 ∷ []) })
        ≡ (name, class))
      × (parse_wm_class (record p { format = 8; value = name ++ 0 ∷ class }) ≡ (name, class))
unfolding parse_wm_class
parse_wm_class-append p name class n c u v = (
  rw (split_at_null-append name (class ++ 0 ∷ []) n, drop_last_null-append class, u, v) refl,
  rw (split_at_null-append name class n, drop_last_null-clean class c, u, v) refl,
)
