-- ===== src/Key/Equality.antt =====
-- The derived `PartialEq` of the key types, as Boolean tests that decide equality.
use map2_legacy.Base.{◌≡◌, ◌↔◌, Bool, true, false, ◌&&◌, Equality, nat_beq, bool_beq, arith}
use map2_legacy.Key.Defs.{
  EventCode, ev_key, ev_syn, ev_other, Key, KeyModifierFlags, KeyAction, KeyActionWithMods,
}

abbrev pub code_beq : EventCode → EventCode → Bool
code_beq (ev_key m) (ev_key n) = nat_beq m n
code_beq (ev_syn m) (ev_syn n) = nat_beq m n
code_beq (ev_other t m) (ev_other u n) = nat_beq t u && nat_beq m n
code_beq _ _ = false

pub code_beq_iff : (a b : EventCode) → (code_beq a b ≡ true) ↔ (a ≡ b)
code_beq_iff (ev_key m) (ev_key n) = ground arith
code_beq_iff (ev_syn m) (ev_syn n) = ground arith
code_beq_iff (ev_other t m) (ev_other u n) = ground arith
code_beq_iff _ _ = ground arith

abbrev pub key_beq : Key → Key → Bool
key_beq a b = code_beq a.event_code b.event_code

pub key_beq_iff : (a b : Key) → (key_beq a b ≡ true) ↔ (a ≡ b)
key_beq_iff a b = ground (arith, code_beq_iff a.event_code b.event_code)

abbrev pub flags_beq : KeyModifierFlags → KeyModifierFlags → Bool
flags_beq a b =
    bool_beq a.ctrl b.ctrl
    && bool_beq a.shift b.shift
    && bool_beq a.alt b.alt
    && bool_beq a.meta b.meta

pub flags_beq_iff : (a b : KeyModifierFlags) → (flags_beq a b ≡ true) ↔ (a ≡ b)
flags_beq_iff a b = ground arith

abbrev pub action_beq : KeyAction → KeyAction → Bool
action_beq a b = key_beq a.key b.key && nat_beq a.value b.value

pub action_beq_iff : (a b : KeyAction) → (action_beq a b ≡ true) ↔ (a ≡ b)
action_beq_iff a b = ground (arith, key_beq_iff a.key b.key)

abbrev pub mods_beq : KeyActionWithMods → KeyActionWithMods → Bool
mods_beq a b = key_beq a.key b.key && nat_beq a.value b.value && flags_beq a.modifiers b.modifiers

pub mods_beq_iff : (a b : KeyActionWithMods) → (mods_beq a b ≡ true) ↔ (a ≡ b)
mods_beq_iff a b = ground (arith, key_beq_iff a.key b.key, flags_beq_iff a.modifiers b.modifiers)

instance abbrev pub code_eq : Equality EventCode
code_eq = record { same = code_beq; same_iff = code_beq_iff }

instance abbrev pub key_eq : Equality Key
key_eq = record { same = key_beq; same_iff = key_beq_iff }

instance abbrev pub action_eq : Equality KeyAction
action_eq = record { same = action_beq; same_iff = action_beq_iff }

instance abbrev pub mods_eq : Equality KeyActionWithMods
mods_eq = record { same = mods_beq; same_iff = mods_beq_iff }
