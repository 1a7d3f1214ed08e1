-- ===== src/Contracts/Enums.antt =====
-- The closed enumerations of aoms/contracts/models.py, each with Python's `is` as its test.
use mathlib.Core.Path.{◌≡◌}
use mathlib.Core.Logic.{◌↔◌}
use mathlib.Core.Bool.{true}
use native.Mathlib.Omega.{arith}
use Prim.Native.Nat.{ℕ}
use cortex_mem.Prelude.{Comparable, nat_beq}

pub data MemoryKind : Type 0 where
  episode decision failure fact entity relation procedure pattern_kind : MemoryKind

pub data Scope : Type 0 where
  agent_private workspace user_global : Scope

pub data WriteDisposition : Type 0 where
  admitted contested : WriteDisposition

pub data ContestTrigger : Type 0 where
  slot_collision retrograde derived policy_hold : ContestTrigger

pub data ContestResolution : Type 0 where
  admit admit_superseding set_aside split : ContestResolution

pub data ContestState : Type 0 where
  open_state resolved : ContestState

abbrev kind_code : MemoryKind → ℕ
kind_code episode = 0
kind_code decision = 1
kind_code failure = 2
kind_code fact = 3
kind_code entity = 4
kind_code relation = 5
kind_code procedure = 6
kind_code pattern_kind = 7

pub kind_beq_iff : (a b : MemoryKind) → (nat_beq (kind_code a) (kind_code b) ≡ true) ↔ (a ≡ b)
kind_beq_iff a b = ground arith

instance abbrev pub kind_eq : Comparable MemoryKind
kind_eq = record { equals = λ a b. nat_beq (kind_code a) (kind_code b); equals_iff = kind_beq_iff }

abbrev scope_code : Scope → ℕ
scope_code agent_private = 0
scope_code workspace = 1
scope_code user_global = 2

pub scope_beq_iff : (a b : Scope) → (nat_beq (scope_code a) (scope_code b) ≡ true) ↔ (a ≡ b)
scope_beq_iff a b = ground arith

instance abbrev pub scope_eq : Comparable Scope
scope_eq = record {
  equals = λ a b. nat_beq (scope_code a) (scope_code b);
  equals_iff = scope_beq_iff;
}

abbrev disposition_code : WriteDisposition → ℕ
disposition_code admitted = 0
disposition_code contested = 1

pub disposition_beq_iff :
    (a b : WriteDisposition) → (nat_beq (disposition_code a) (disposition_code b) ≡ true) ↔ (a ≡ b)
disposition_beq_iff a b = ground arith

instance abbrev pub disposition_eq : Comparable WriteDisposition
disposition_eq = record {
  equals = λ a b. nat_beq (disposition_code a) (disposition_code b);
  equals_iff = disposition_beq_iff;
}

abbrev trigger_code : ContestTrigger → ℕ
trigger_code slot_collision = 0
trigger_code retrograde = 1
trigger_code derived = 2
trigger_code policy_hold = 3

pub trigger_beq_iff :
    (a b : ContestTrigger) → (nat_beq (trigger_code a) (trigger_code b) ≡ true) ↔ (a ≡ b)
trigger_beq_iff a b = ground arith

instance abbrev pub trigger_eq : Comparable ContestTrigger
trigger_eq = record {
  equals = λ a b. nat_beq (trigger_code a) (trigger_code b);
  equals_iff = trigger_beq_iff;
}

abbrev resolution_code : ContestResolution → ℕ
resolution_code admit = 0
resolution_code admit_superseding = 1
resolution_code set_aside = 2
resolution_code split = 3

pub resolution_beq_iff :
    (a b : ContestResolution) → (nat_beq (resolution_code a) (resolution_code b) ≡ true) ↔ (a ≡ b)
resolution_beq_iff a b = ground arith

instance abbrev pub resolution_eq : Comparable ContestResolution
resolution_eq = record {
  equals = λ a b. nat_beq (resolution_code a) (resolution_code b);
  equals_iff = resolution_beq_iff;
}

abbrev state_code : ContestState → ℕ
state_code open_state = 0
state_code resolved = 1

pub state_beq_iff : (a b : ContestState) → (nat_beq (state_code a) (state_code b) ≡ true) ↔ (a ≡ b)
state_beq_iff a b = ground arith

instance abbrev pub state_eq : Comparable ContestState
state_eq = record {
  equals = λ a b. nat_beq (state_code a) (state_code b);
  equals_iff = state_beq_iff;
}
