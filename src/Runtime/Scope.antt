-- ===== src/Runtime/Scope.antt =====
-- src/runtime/evaluation.rs, the loops of `Expr::Name` and `Expr::Assign`, which walk from a
-- variable map to its parents until one has the name.
use map2_legacy.Base.{ℕ, zero, suc, List, none, some, Text, length, get_elem?, lookup, text_eq}
use map2_legacy.Ast.{Address, ValueType, void}
use map2_legacy.Runtime.World.{
  VarMap, World, M, pure, panic, diverge, write_variable, variable_missing, done, ◌>>◌,
}

-- What the walk finds: the map that has the name and its value, no map, or a chain that does not
-- end within the fuel or that leaves the store.
pub data Chain : Type 0 where
  found : Address → ValueType → Chain
  missing : Chain
  endless : Chain

unfoldable pub walk : ℕ → List VarMap → Text → Address → Chain
walk zero store x a = endless
walk (suc f) store x a = elim (get_elem? store a) [
  | none ↦ endless
  | some m ↦ elim (lookup x m.scope_values) [
    | some v ↦ found a v
    | none ↦ elim m.parent [ none ↦ missing | some p ↦ walk f store x p ]
  ]
]

-- A chain is no longer than the store has maps.
unfoldable pub find_scope : World → Text → Address → Chain
find_scope w x a = walk (length w.store) w.store x a

-- `Expr::Name`: a name that no map has is `Void`.
unfoldable pub read_name : Text → Address → M ValueType
unfolding find_scope
read_name x a w = elim (find_scope w x a) [
  | found _ v ↦ done v w
  | missing ↦ done void w
  | endless ↦ diverge w
]

-- `Expr::Assign`: the value replaces that of the nearest map which has the name.
unfoldable pub assign_name : Text → ValueType → Address → M ValueType
unfolding find_scope write_variable
assign_name x v a w = elim (find_scope w x a) [
  | found b _ ↦ (write_variable b x v >> pure void) w
  | missing ↦ panic (variable_missing x) w
  | endless ↦ diverge w
]
