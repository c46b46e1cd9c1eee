-- ===== src/Domain/Runs.antt =====
-- domain.py `Run`: the record, and the validator `consistent_state` that every `Run(...)` passes.
use owlmatic.Prelude.{
  ℕ, ◌≡◌, ◌≢◌, ◌≤◌, ◌<◌, Bool, true, false, ◌&&◌, ◌||◌, not, String, Option, none, some, ltb,
  nat_beq, truthy, is_some, is_none, if◌then◌else◌, ◌==◌,
}
use owlmatic.Errors.{Result, ok, err, value_error, reject_if, ◌>>◌}
use owlmatic.Json.{Fields}
use owlmatic.Domain.Enums.{
  Outcome, State, Effects, Purpose, outcome_eq, state_eq, effects_eq, is_running, is_uncertain,
}
use owlmatic.Domain.Contracts.{CheckCounts, Failure, Target}

pub record Run : Type 0 where
  pub run_id : String
  pub workflow_ref : String
  pub profile : Option String
  pub purpose : Purpose
  pub state : State
  pub outcome : Outcome
  pub effects : Effects
  pub target : Target
  pub started_at : String
  pub finished_at : Option String
  pub duration_ms : ℕ
  pub evidence_ref : String
  pub checks : Option CheckCounts
  pub outputs : Option Fields
  pub error : Option Failure
  pub log_truncated : Bool

-- if self.state == "running": ...
unfoldable pub check_active : Run → Result (Unit {0})
check_active r = do
  reject_if (not (r.outcome == Outcome.inconclusive) || is_some r.finished_at || is_some r.error)
  reject_if (is_some r.checks || is_some r.outputs)

-- The counts of a completed run, where there are any.
unfoldable pub check_counts : Outcome → Effects → CheckCounts → Result (Unit {0})
check_counts outcome effects c = do
  reject_if (
      outcome == Outcome.pass
      && (ltb 0 c.failed || ltb c.passed c.required || is_uncertain effects))
  reject_if (outcome == Outcome.fail && nat_beq c.failed 0)

unfoldable pub check_present : Outcome → Effects → Option CheckCounts → Result (Unit {0})
unfolding check_counts
check_present outcome effects none = err value_error
check_present outcome effects (some c) = check_counts outcome effects c

-- if self.state == "completed": ... elif ...
unfoldable pub check_terminal : Run → Result (Unit {0})
unfolding check_present
check_terminal r =
    if r.state == State.completed
    then (do reject_if (is_some r.error); check_present r.outcome r.effects r.checks)
    else reject_if (not (r.outcome == Outcome.inconclusive) || is_none r.error)

unfoldable pub consistent_state : Run → Result Run
unfolding check_active check_terminal
consistent_state r = do
  if is_running r.state
      then check_active r
      else (do reject_if (not (truthy r.finished_at)); check_terminal r)
  ok r

-- What the validator stands for, state by state.
pub record IsConsistent (r : Run) : Type 0 where
  pub active :
      r.state ≡ State.running
      → (r.outcome ≡ Outcome.inconclusive)
        × (r.finished_at ≡ none)
        × (r.error ≡ none)
        × (r.checks ≡ none)
        × (r.outputs ≡ none)
  pub finished : r.state ≢ State.running → truthy r.finished_at ≡ true
  pub completed :
      r.state ≡ State.completed
      → (c : CheckCounts) × (r.checks ≡ some c)
        × (r.error ≡ none)
        × (r.outcome ≡ Outcome.pass
            → (c.failed ≡ 0) × (c.required ≤ c.passed) × (is_uncertain r.effects ≡ false))
        × (r.outcome ≡ Outcome.fail → 0 < c.failed)
  pub failed :
      r.state ≢ State.running
      → r.state ≢ State.completed
      → (r.outcome ≡ Outcome.inconclusive) × (f : Failure) × (r.error ≡ some f)
