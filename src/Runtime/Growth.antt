-- ===== src/Runtime/Growth.antt =====
-- src/runtime: what every step of a script leaves as it was, whatever its outcome.
pub mod Calls
pub mod Operators
pub mod Eval
pub mod Blocks
use mathlib.Core.Path.{subst}
use map2_legacy.Base.{
  ◌≡◌, refl, sym, ap, ◌∙◌, ℕ, zero, suc, ◌≤◌, ◌<◌, ◌⊎◌, inl, inr, List, [], ◌∷◌, ◌++◌, Bool, true,
  false, Option, none, some, Text, text_eq, length, length-append, length-set, get_elem?, set,
  insert, append_assoc, append-nil, Option-cases, Bool-cases, arith,
}
use map2_legacy.Key.{KeyAction, to_input_ev, syn_report}
use map2_legacy.Ast.{Address, ValueType, void}
use map2_legacy.Runtime.World.{
  VarMap, World, Effect, sent, message, Ambient, ExecutionMessage, Panic, Outcome, done, panicked,
  lost, M, after, pure, panic, ◌>>=◌, ◌>>◌, new_scope, emit, send_actions, send_synced,
  send_message, write_variable, parent_of,
}
use map2_legacy.Runtime.Scope.{found, missing, endless, find_scope, read_name, assign_name}
use map2_legacy.Runtime.Chains.{
  ParentsBelow, parent_in, get_elem?-append_cases, get_elem?-set_cases, or_zero,
}

get_elem?-append :
    (ms : List VarMap) (c : VarMap) (i : ℕ)
    → i < length ms
    → get_elem? (ms ++ c ∷ []) i ≡ get_elem? ms i
get_elem?-append [] c i h = absurd (omega arith)
get_elem?-append (m ∷ ms) c zero h = refl
get_elem?-append (m ∷ ms) c (suc i) h = get_elem?-append ms c i (omega arith)

-- A map that is replaced by one with the same parent.
parent_in-set :
    (ms : List VarMap) (a : ℕ) (m n : VarMap) (i : ℕ)
    → get_elem? ms a ≡ some m
    → n.parent ≡ m.parent
    → parent_in (get_elem? (set ms a n) i) ≡ parent_in (get_elem? ms i)
parent_in-set [] a m n i here same = refl
parent_in-set (k ∷ ms) zero m n zero here same = same ∙ sym (ap parent_in here)
parent_in-set (k ∷ ms) zero m n (suc i) here same = refl
parent_in-set (k ∷ ms) (suc a) m n zero here same = refl
parent_in-set (k ∷ ms) (suc a) m n (suc i) here same = parent_in-set ms a m n i here same

-- From a world to a later one: every map is still there and has the parent that it had, parents stay
-- before their children, and effects are only added.
pub record Grows (w u : World) : Type 0 where
  pub longer : length w.store ≤ length u.store
  pub parents :
      (i : ℕ)
      → i < length w.store
      → parent_in (get_elem? u.store i) ≡ parent_in (get_elem? w.store i)
  pub below : ParentsBelow w.store → ParentsBelow u.store
  pub effects : (later : List Effect) × (u.trace ≡ w.trace ++ later)

pub Grows-refl : (w : World) → Grows w w
Grows-refl w = record {
  longer = omega arith;
  parents = λ i h. refl;
  below = λ h. h;
  effects = ([], sym (append-nil w.trace));
}

pub Grows-trans : (w u v : World) → Grows w u → Grows u v → Grows w v
Grows-trans w u v g h = record {
  longer = omega (arith, g.longer, h.longer);
  parents = λ i less. h.parents i (omega (arith, g.longer)) ∙ g.parents i less;
  below = λ b. h.below (g.below b);
  effects = (
    g.effects.0 ++ h.effects.0,
    h.effects.1
        ∙ (ap (λ t. t ++ h.effects.0) g.effects.1 ∙ append_assoc w.trace g.effects.0 h.effects.0),
  );
}

-- The world of an outcome, by a result or by a panic, has grown from the world before.
pub data Keeps {A : Type 0} (w : World) : Outcome A → Type 0 where
  by_result : {a : A} {u : World} → Grows w u → Keeps w (done a u)
  by_panic : {p : Panic} {u : World} → Grows w u → Keeps w (panicked p u)
  by_loss : Keeps w lost

pub Keeps-later : {A : Type 0} {w u : World} {o : Outcome A} → Grows w u → Keeps u o → Keeps w o
Keeps-later {w = w} g (by_result {u = v} h) = by_result (Grows-trans w _ v g h)
Keeps-later {w = w} g (by_panic {u = v} h) = by_panic (Grows-trans w _ v g h)
Keeps-later g by_loss = by_loss

-- What follows a computation runs in a world that has grown.
pub Keeps-bind :
    {A B : Type 0} {s : Address} {w : World} {o : Outcome A} {k : A → M B}
    → s < length w.store
    → Keeps w o
    → ((a : A) (u : World) → s < length u.store → Keeps u (k a u))
    → Keeps w (after o k)
Keeps-bind less (by_result {a = a} {u = u} g) next =
    Keeps-later g (next a u (omega (arith, g.longer)))
Keeps-bind less (by_panic g) next = by_panic g
Keeps-bind less by_loss next = by_loss

pub Keeps-pure : {A : Type 0} {a : A} {w : World} → Keeps w (done a w)
Keeps-pure {w = w} = by_result (Grows-refl w)

pub Keeps-panic : {A : Type 0} {p : Panic} {w : World} → Keeps {A = A} w (panicked p w)
Keeps-panic {w = w} = by_panic (Grows-refl w)

-- A computation that keeps any world.
abbrev pub Still : {A : Type 0} → M A → Type 0
Still m = (w : World) → Keeps w (m w)

pub Keeps-then :
    {A B : Type 0} {w : World} {o : Outcome A} {k : A → M B}
    → Keeps w o
    → ((a : A) → Still (k a))
    → Keeps w (after o k)
Keeps-then (by_result {a = a} {u = u} g) next = Keeps-later g (next a u)
Keeps-then (by_panic g) next = by_panic g
Keeps-then by_loss next = by_loss

pub emit-Still : (e : Effect) → Still (emit e)
unfolding emit
emit-Still e w = by_result (record {
  longer = omega arith;
  parents = λ i h. refl;
  below = λ h. h;
  effects = (e ∷ [], refl);
})

pub send_actions-Still : (l : List KeyAction) → Still (send_actions l)
unfolding send_actions
send_actions-Still [] w = Keeps-pure
send_actions-Still (a ∷ l) w =
    Keeps-then (emit-Still (sent (to_input_ev a)) w) (λ _. send_actions-Still l)

pub send_synced-Still : (l : List KeyAction) → Still (send_synced l)
unfolding send_synced
send_synced-Still [] w = Keeps-pure
send_synced-Still (a ∷ l) w =
    Keeps-then (emit-Still (sent (to_input_ev a)) w)
      (λ _ u. Keeps-then (emit-Still (sent syn_report) u) (λ _. send_synced-Still l))

pub send_message-Still : (amb : Ambient) (msg : ExecutionMessage) → Still (send_message amb msg)
unfolding send_message
send_message-Still amb msg w = elim (Bool-cases amb.message_tx) [
  | inl on ↦ rw (send_message, on) (emit-Still (message msg) w)
  | inr off ↦ rw (send_message, off) Keeps-panic
]

pub write_variable-Still : (a : Address) (x : Text) (v : ValueType) → Still (write_variable a x v)
unfolding write_variable
write_variable-Still a x v w = elim (Option-cases (get_elem? w.store a)) [
  | inl none_there ↦ rw (write_variable, none_there) by_loss
  | inr (m, here) ↦
      let changed : VarMap = record m { scope_values = insert x v m.scope_values } in
      rw (write_variable, here)
        (by_result (record {
          longer = omega (arith, length-set w.store a changed);
          parents = λ i h. parent_in-set w.store a m changed i here refl;
          below = λ before i n p at up. elim (get_elem?-set_cases w.store a changed i n at) [
            | inl old ↦ before i n p old up
            | inr (e, new) ↦ omega (arith, before a m p here (ap parent_in new ∙ up))
          ];
          effects = ([], sym (append-nil w.trace));
        }))
]

-- A new map below none or below one of the store, and what follows in it.
pub Keeps-new_scope :
    {B : Type 0} {p : Option Address} {w : World} (k : Address → M B)
    → (ParentsBelow w.store → (a : Address) → p ≡ some a → a < length w.store)
    → ((u : World) → length w.store < length u.store → Keeps u (k (length w.store) u))
    → Keeps w (after (new_scope p w) k)
unfolding new_scope
Keeps-new_scope {p = p} {w = w} k there next =
    let child : VarMap = record { scope_values = []; parent = p } in
    let u : World = record w { store = w.store ++ child ∷ [] } in
    let longer : length w.store < length u.store =
      omega (arith, length-append w.store (child ∷ [])) in
    Keeps-later {u = u}
      (record {
        longer = omega arith;
        parents = λ i h. ap parent_in (get_elem?-append w.store child i h);
        below = λ before i n q at up. elim (get_elem?-append_cases w.store child i n at) [
          | inl old ↦ before i n q old up
          | inr (e, new) ↦ omega (arith, there before q (ap parent_in new ∙ up))
        ];
        effects = ([], sym (append-nil w.trace));
      })
      (next u longer)
