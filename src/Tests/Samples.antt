-- ===== src/Tests/Samples.antt =====
-- Concrete runs and tables.
use owlmatic.Prelude.{true, false, none, some, [], ◌∷◌}
use owlmatic.Domain.{Run, State, Outcome, Effects, Purpose, Completion, completed_run, Target}
use owlmatic.Ledger.{Row, Db}

abbrev pub a_target : Target
a_target = record {
  environment = "local";
  workspace = "/w";
  source_revision = none;
  dirty = some false;
}

abbrev pub a_run : Run
a_run = record {
  run_id = "run_1";
  workflow_ref = "team/health@1";
  profile = some "default";
  purpose = Purpose.workflow;
  state = State.running;
  outcome = Outcome.inconclusive;
  effects = Effects.unknown;
  target = a_target;
  started_at = "t0";
  finished_at = none;
  duration_ms = 0;
  evidence_ref = "run_1";
  checks = none;
  outputs = none;
  error = none;
  log_truncated = false;
}

abbrev pub passing : Completion
passing = record {
  state = State.completed;
  outcome = Outcome.pass;
  effects = Effects.completed;
  finished_at = "t1";
  duration_ms = 5;
  checks = some (record { required = 1; passed = 2; failed = 0; skipped = 0 });
  outputs = none;
  error = none;
  log_truncated = false;
}

abbrev pub done_run : Run
done_run = completed_run a_run passing

-- Claimed by a worker at instant 100.
abbrev pub claimed_row : Row
claimed_row = record {
  id = "run_1";
  run = a_run;
  pid = none;
  heartbeat = 100;
  request_id = some "req";
  fingerprint = "f";
  owner = some "alice";
  pending = false;
}

abbrev pub claimed_db : Db
claimed_db = record { rows = claimed_row ∷ []; locks = record { key = "k"; run_id = "run_1" } ∷ [] }

abbrev pub finished_row : Row
finished_row = record claimed_row { run = done_run; heartbeat = 200; owner = none; pending = true }

abbrev pub finished_db : Db
finished_db = record claimed_db { rows = finished_row ∷ [] }
