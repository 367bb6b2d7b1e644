-- ===== src/Runtime/Chains.antt =====
-- src/runtime/evaluation.rs: the chains of variable maps and their parents, read and changed.
use map2_legacy.Base.{
  ◌≡◌, refl, ap, ℕ, zero, suc, ◌<◌, ◌⊎◌, inl, inr, List, [], ◌∷◌, ◌++◌, Option, none, some, Text,
  text_eq, length, get_elem?, set, lookup, insert, Option-cases, arith,
}
use map2_legacy.Ast.{Address, ValueType, void}
use map2_legacy.Runtime.World.{VarMap, World, done, panicked, write_variable, variable_missing}
use map2_legacy.Runtime.Scope.{Chain, found, missing, walk, find_scope, read_name, assign_name}

-- The parent of every map was there before it.
abbrev pub ParentsBelow : List VarMap → Type 0
ParentsBelow store =
    (i : ℕ) (m : VarMap) (p : Address) → get_elem? store i ≡ some m → m.parent ≡ some p → p < i

pub get_elem?-lt :
    (store : List VarMap) (a : ℕ) → a < length store → (m : VarMap) × (get_elem? store a ≡ some m)
get_elem?-lt [] a h = absurd (omega arith)
get_elem?-lt (m ∷ ms) zero h = (m, refl)
get_elem?-lt (m ∷ ms) (suc a) h = get_elem?-lt ms a (omega arith)

-- A walk that has ended, in a map of the store or outside of all.
pub data Ends (store : List VarMap) : Chain → Type 0 where
  inside : (b : Address) (v : ValueType) → b < length store → Ends store (found b v)
  nowhere : Ends store missing

walk-Ends :
    (f : ℕ) (store : List VarMap) (x : Text) (a : Address)
    → ParentsBelow store
    → a < length store
    → a < f
    → Ends store (walk f store x a)
unfolding walk
walk-Ends zero store x a below h less = absurd (omega arith)
walk-Ends (suc f) store x a below h less =
    let (m, here) = get_elem?-lt store a h in
    elim (Option-cases (lookup x m.scope_values)) [
      | inr (v, has) ↦ rw (walk, here, has) (inside a v h)
      | inl lacks ↦ elim (Option-cases m.parent) [
        | inl root ↦ rw (walk, here, lacks, root) nowhere
        | inr (p, child) ↦
            let before = below a m p here child in
            rw (walk, here, lacks, child) (walk-Ends f store x p below (omega arith) (omega arith))
      ]
    ]

Ends-cases :
    {store : List VarMap} {c : Chain}
    → Ends store c
    → ((b : Address) × (v : ValueType) × (b < length store) × (c ≡ found b v)) ⊎ (c ≡ missing)
Ends-cases (inside b v h) = inl (b, v, h, refl)
Ends-cases nowhere = inr refl

module _ (x : Text) (a : Address) (w : World) (below : ParentsBelow w.store)
    (h : a < length w.store) where
  walks :
      ((b : Address) × (v : ValueType) × (b < length w.store)
        × (walk (length w.store) w.store x a ≡ found b v))
      ⊎ (walk (length w.store) w.store x a ≡ missing)
  walks = Ends-cases (walk-Ends (length w.store) w.store x a below h h)

  -- Where every parent was there before its child, a name is read, from any map of the store,
  -- without running out of fuel, and nothing changes.
  pub read_name-ends : (v : ValueType) × (read_name x a w ≡ done v w)
  unfolding read_name find_scope
  read_name-ends = elim walks [
    | inl (b, v, i, e) ↦ (v, rw (read_name, find_scope, e) refl)
    | inr e ↦ (void, rw (read_name, find_scope, e) refl)
  ]

  -- Where every parent was there before its child, an assignment, from any map of the store, ends:
  -- with a value, or with the panic of a name that no map has, which changes nothing.
  pub assign_name-ends :
      (v : ValueType)
      → ((u : World) × (assign_name x v a w ≡ done void u))
        ⊎ (assign_name x v a w ≡ panicked (variable_missing x) w)
  unfolding assign_name find_scope write_variable
  assign_name-ends v = elim walks [
    | inl (b, u, i, e) ↦
        let (m, here) = get_elem?-lt w.store b i in
        let u = record w {
          store = set w.store b (record m { scope_values = insert x v m.scope_values });
        } in
        inl (u, rw (assign_name, find_scope, e, write_variable, here) refl)
    | inr e ↦ inr (rw (assign_name, find_scope, e) refl)
  ]

pub get_elem?-append_cases :
    (ms : List VarMap) (m : VarMap) (i : ℕ) (n : VarMap)
    → get_elem? (ms ++ m ∷ []) i ≡ some n
    → (get_elem? ms i ≡ some n) ⊎ ((i ≡ length ms) × (some m ≡ some n))
get_elem?-append_cases [] m zero n h = inr (refl, h)
get_elem?-append_cases [] m (suc i) n h = inl h
get_elem?-append_cases (k ∷ ms) m zero n h = inl h
get_elem?-append_cases (k ∷ ms) m (suc i) n h = elim (get_elem?-append_cases ms m i n h) [
  | inl old ↦ inl old
  | inr (e, new) ↦ inr (ap suc e, new)
]

pub get_elem?-set_cases :
    (ms : List VarMap) (a : ℕ) (m : VarMap) (i : ℕ) (n : VarMap)
    → get_elem? (set ms a m) i ≡ some n
    → (get_elem? ms i ≡ some n) ⊎ ((i ≡ a) × (some m ≡ some n))
get_elem?-set_cases [] a m i n h = inl h
get_elem?-set_cases (k ∷ ms) zero m zero n h = inr (refl, h)
get_elem?-set_cases (k ∷ ms) zero m (suc i) n h = inl h
get_elem?-set_cases (k ∷ ms) (suc a) m zero n h = inl h
get_elem?-set_cases (k ∷ ms) (suc a) m (suc i) n h = elim (get_elem?-set_cases ms a m i n h) [
  | inl old ↦ inl old
  | inr (e, new) ↦ inr (ap suc e, new)
]

abbrev pub parent_in : Option VarMap → Option Address
parent_in none = none
parent_in (some m) = m.parent

abbrev pub or_zero : Option Address → ℕ
or_zero none = 0
or_zero (some a) = a
