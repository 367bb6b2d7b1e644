-- ===== src/Base/Dict.antt =====
-- A `HashMap` as an association list: one entry for each key that was inserted.
use mathlib.Core.Path.{◌≡◌, refl}
use mathlib.Core.List.{List, [], ◌∷◌}
use mathlib.Core.Option.{Option, none, some}
use native.Mathlib.Omega.{arith}
use map2_legacy.Base.Tests.{Equality, ◌==◌, if◌then◌else◌}

module _ {ℓ κ} {K : Type ℓ} {V : Type κ} ⦃eq : Equality K⦄ where
  -- `HashMap::insert`: the value of a key that is there is replaced.
  abbrev pub insert : K → V → List (K × V) → List (K × V)
  insert key value [] = (key, value) ∷ []
  insert key value (entry ∷ entries) =
      let rest = insert key value entries in
      if entry.0 == key then (key, value) ∷ entries else entry ∷ rest

  -- `HashMap::get`.
  abbrev pub lookup : K → List (K × V) → Option V
  lookup key [] = none
  lookup key (entry ∷ entries) =
      let rest = lookup key entries in if entry.0 == key then some entry.1 else rest

  pub lookup-insert :
      (key other : K) (value : V) (entries : List (K × V))
      → lookup other (insert key value entries)
        ≡ (if key == other then some value else lookup other entries)
  lookup-insert key other value [] = refl
  lookup-insert key other value (entry ∷ entries) = ground (
    arith,
    lookup-insert key other value entries,
    eq.same_iff key other,
    eq.same_iff entry.0 key,
    eq.same_iff entry.0 other,
  )
