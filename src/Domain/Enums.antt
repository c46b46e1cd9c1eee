-- ===== src/Domain/Enums.antt =====
-- domain.py: the literal types, each with the tests by which the code compares it.
use owlmatic.Prelude.{ℕ, ◌≡◌, ◌↔◌, Bool, true, false, arith, nat_beq, Eq}

pub data Outcome : Type 0 where
  pass fail inconclusive not_applicable : Outcome

pub data State : Type 0 where
  running completed blocked error cancelled : State

pub data Effects : Type 0 where
  none completed partial unknown : Effects

pub data Purpose : Type 0 where
  workflow validation unknown : Purpose

pub data CheckStatus : Type 0 where
  pass fail skip : CheckStatus

abbrev pub outcome_tag : Outcome → ℕ
outcome_tag Outcome.pass = 0
outcome_tag Outcome.fail = 1
outcome_tag Outcome.inconclusive = 2
outcome_tag Outcome.not_applicable = 3

abbrev pub state_tag : State → ℕ
state_tag State.running = 0
state_tag State.completed = 1
state_tag State.blocked = 2
state_tag State.error = 3
state_tag State.cancelled = 4

abbrev pub effects_tag : Effects → ℕ
effects_tag Effects.none = 0
effects_tag Effects.completed = 1
effects_tag Effects.partial = 2
effects_tag Effects.unknown = 3

abbrev pub purpose_tag : Purpose → ℕ
purpose_tag Purpose.workflow = 0
purpose_tag Purpose.validation = 1
purpose_tag Purpose.unknown = 2

abbrev pub status_tag : CheckStatus → ℕ
status_tag CheckStatus.pass = 0
status_tag CheckStatus.fail = 1
status_tag CheckStatus.skip = 2

pub outcome_iff : (a b : Outcome) → (nat_beq (outcome_tag a) (outcome_tag b) ≡ true) ↔ (a ≡ b)
outcome_iff a b = ground arith

pub state_iff : (a b : State) → (nat_beq (state_tag a) (state_tag b) ≡ true) ↔ (a ≡ b)
state_iff a b = ground arith

pub effects_iff : (a b : Effects) → (nat_beq (effects_tag a) (effects_tag b) ≡ true) ↔ (a ≡ b)
effects_iff a b = ground arith

pub purpose_iff : (a b : Purpose) → (nat_beq (purpose_tag a) (purpose_tag b) ≡ true) ↔ (a ≡ b)
purpose_iff a b = ground arith

pub status_iff : (a b : CheckStatus) → (nat_beq (status_tag a) (status_tag b) ≡ true) ↔ (a ≡ b)
status_iff a b = ground arith

instance abbrev pub outcome_eq : Eq Outcome
outcome_eq = record {
  equal = λ a b. nat_beq (outcome_tag a) (outcome_tag b);
  equal_iff = outcome_iff;
}

instance abbrev pub state_eq : Eq State
state_eq = record { equal = λ a b. nat_beq (state_tag a) (state_tag b); equal_iff = state_iff }

instance abbrev pub effects_eq : Eq Effects
effects_eq = record {
  equal = λ a b. nat_beq (effects_tag a) (effects_tag b);
  equal_iff = effects_iff;
}

instance abbrev pub purpose_eq : Eq Purpose
purpose_eq = record {
  equal = λ a b. nat_beq (purpose_tag a) (purpose_tag b);
  equal_iff = purpose_iff;
}

instance abbrev pub status_eq : Eq CheckStatus
status_eq = record { equal = λ a b. nat_beq (status_tag a) (status_tag b); equal_iff = status_iff }

-- state == "running"
abbrev pub is_running : State → Bool
is_running State.running = true
is_running _ = false

-- effects in {"partial", "unknown"}
abbrev pub is_uncertain : Effects → Bool
is_uncertain Effects.partial = true
is_uncertain Effects.unknown = true
is_uncertain _ = false

-- outcome in {"pass", "fail"}
abbrev pub is_verdict : Outcome → Bool
is_verdict Outcome.pass = true
is_verdict Outcome.fail = true
is_verdict _ = false
