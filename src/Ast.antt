-- ===== src/Ast.antt =====
-- src/runtime/evaluation.rs, the syntax tree and the values of scripts; src/key_primitives.rs,
-- `KeyMapping`. A `Vec` inside the tree is a data type of its own; a `Block`, which is a `Vec` of
-- statements and nothing else, is that list. An `f64` is its bit pattern, and an
-- `Arc<Mutex<VarMap>>` is an address in the store of the runtime.
use map2_legacy.Base.{ℕ, Bool, List, [], ◌∷◌, Text}
use map2_legacy.Key.{KeyAction, KeyActionWithMods, KeyModifierFlags}

-- A `GuardedVarMap`.
abbrev pub Address : Type 0
Address = ℕ

mutual
  pub data ValueType : Type 0 where
    bool : Bool → ValueType
    string : Text → ValueType
    closure : List Text → Block → Address → ValueType
    number : ℕ → ValueType
    void : ValueType

  pub data Expr : Type 0 where
    eq neq lt gt add sub div mul : Expr → Expr → Expr
    neg : Expr → Expr
    and or : Expr → Expr → Expr
    init assign : Text → Expr → Expr
    key_mapping : KeyMappings → Expr
    name : Text → Expr
    value_of : ValueType → Expr
    lambda : List Text → Block → Expr
    function_call : Text → Exprs → Expr
    key_action : KeyAction → Expr
    sleep_action : ℕ → Expr
    release_restore_modifiers : KeyModifierFlags → KeyModifierFlags → ℕ → Expr

  pub data Exprs : Type 0 where
    no_exprs : Exprs
    arg : Expr → Exprs → Exprs

  pub data KeyMapping : Type 0 where
    mapping : KeyActionWithMods → Block → KeyMapping

  pub data KeyMappings : Type 0 where
    no_mappings : KeyMappings
    ◌&◌ : KeyMapping → KeyMappings → KeyMappings

  pub data Stmt : Type 0 where
    expr : Expr → Stmt
    block : Block → Stmt
    if_else : Branches → Else → Stmt
    for_loop : Expr → Expr → Expr → Block → Stmt
    return_stmt : Expr → Stmt
    continue_stmt : Stmt

  pub data Branches : Type 0 where
    no_branches : Branches
    branch : Expr → Block → Branches → Branches

  pub data Else : Type 0 where
    no_else : Else
    else_block : Block → Else

  pub data Block : Type 0 where
    end : Block
    ◌⨾◌ : Stmt → Block → Block

infixr 67 ◌&◌ ◌⨾◌
-- `statements.push` of several statements, and `append`.
infixr 65 ◌+++◌
abbrev pub ◌+++◌ : Block → Block → Block
end +++ c = c
(s ⨾ b) +++ c = s ⨾ (b +++ c)

-- The mappings of a `Vec<KeyMapping>`, as a list.
abbrev pub mapping_list : KeyMappings → List (KeyActionWithMods × Block)
mapping_list no_mappings = []
mapping_list (mapping from to & ms) = (from, to) ∷ mapping_list ms
