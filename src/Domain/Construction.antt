-- ===== src/Domain/Construction.antt =====
-- domain.py `Run.finish` and `Run.summarized`: the two ways in which a run gives a new run. Each
-- ends in `Run(...)`, so it validates the new record.
use owlmatic.Prelude.{ℕ, Bool, not, String, Option, none, some, if◌then◌else◌}
use owlmatic.Errors.{Result, invalid_transition, raise_if, ◌>>◌}
use owlmatic.Json.{Fields}
use owlmatic.Domain.Enums.{Outcome, State, Effects, is_running}
use owlmatic.Domain.Contracts.{CheckCounts, Failure, Target}
use owlmatic.Domain.Runs.{Run, consistent_state}

-- The keyword arguments of `finish`.
pub record Completion : Type 0 where
  pub state : State
  pub outcome : Outcome
  pub effects : Effects
  pub finished_at : String
  pub duration_ms : ℕ
  pub checks : Option CheckCounts
  pub outputs : Option Fields
  pub error : Option Failure
  pub log_truncated : Bool

-- The record that `finish` builds: the identity of the invocation, and the completion.
abbrev pub completed_run : Run → Completion → Run
completed_run r c = record {
  run_id = r.run_id;
  workflow_ref = r.workflow_ref;
  profile = r.profile;
  purpose = r.purpose;
  state = c.state;
  outcome = c.outcome;
  effects = c.effects;
  target = r.target;
  started_at = r.started_at;
  finished_at = some c.finished_at;
  duration_ms = c.duration_ms;
  evidence_ref = r.evidence_ref;
  checks = c.checks;
  outputs = c.outputs;
  error = c.error;
  log_truncated = c.log_truncated;
}

unfoldable pub finish : Run → Completion → Result Run
finish r c = do
  raise_if (not (is_running r.state)) invalid_transition
  consistent_state (completed_run r c)

-- `omit_workspace` replaces the workspace of the target.
abbrev pub summary_target : Bool → Target → Target
summary_target omit_workspace t =
    if omit_workspace
    then (record {
      environment = t.environment;
      workspace = "[see result artifact]";
      source_revision = t.source_revision;
      dirty = t.dirty;
    })
    else t

-- The record that `summarized` builds.
abbrev pub summary_run : Run → Bool → Bool → Run
summary_run r omit_outputs omit_workspace = record r {
  target = summary_target omit_workspace r.target;
  outputs = if omit_outputs then none else r.outputs;
}

unfoldable pub summarized : Run → Bool → Bool → Result Run
summarized r omit_outputs omit_workspace =
    consistent_state (summary_run r omit_outputs omit_workspace)
