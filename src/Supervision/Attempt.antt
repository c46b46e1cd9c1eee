-- ===== src/Supervision/Attempt.antt =====
-- supervisor.py `Supervisor._execute` and `Supervisor.execute`. What the ports answer during one
-- attempt is given as a record: the policy, the file store, the guarded process and the clock.
use owlmatic.Prelude.{ℕ, Bool, true, false, String, Text, List, none, some, if◌then◌else◌}
use owlmatic.Prelude.Int.{ℤ}
use owlmatic.Errors.{
  Code, Error, owl, Result, ok, err, cancelled, output_limit, execution_error, ◌>>=◌, ◌>>◌,
}
use owlmatic.Domain.{Run, State, Outcome, Effects, Evidence, Workflow, Completion, finish}
use owlmatic.Redaction.{clean_evidence}
use owlmatic.Evidence.{Validate, verify_evidence}
use owlmatic.Evidence.Completion.{verified_completion}

-- domain.py `Job`, as far as the supervisor reads it.
pub record Job : Type 0 where
  pub workflow : Workflow
  pub run : Run

-- `secrets` is the outcome of the policy check and of `environment_for`; `log` that of opening the
-- directory and the log; `process` the exit code, or what the process raised; `close` that of closing
-- the log.
pub record Ports : Type 0 where
  pub secrets : Result (List Text)
  pub log : Result (Unit {0})
  pub process : Result ℤ
  pub raw_evidence : Result Evidence
  pub validate : Validate
  pub save_evidence : Evidence → Result (Unit {0})
  pub close : Result (Unit {0})
  pub iso : String
  pub duration_ms : ℕ

-- Everything before `launched = True`.
unfoldable pub prepare : Ports → Result (List Text)
prepare ports = do secrets ← ports.secrets; ports.log; ok secrets

-- Everything after it.
unfoldable pub conclude : Ports → Job → List Text → Result Run
conclude ports job secrets = do
  code ← ports.process
  evidence ← ports.raw_evidence
  checks ← verify_evidence ports.validate evidence job.workflow job.run.run_id code
  ports.save_evidence (clean_evidence evidence secrets)
  finish job.run (
      verified_completion evidence checks (clean_evidence evidence secrets).outputs ports.iso
        ports.duration_ms)

abbrev pub is_cancelled : Code → Bool
is_cancelled cancelled = true
is_cancelled _ = false

abbrev pub is_output_limit : Code → Bool
is_output_limit output_limit = true
is_output_limit _ = false

-- effects=run.effects if launched else "none"
abbrev pub kept_effects : Bool → Run → Effects
kept_effects launched run = if launched then run.effects else Effects.none

abbrev pub failure : Ports → Run → Bool → State → Code → Bool → Completion
failure ports run launched state code truncated = record {
  state = state;
  outcome = Outcome.inconclusive;
  effects = kept_effects launched run;
  finished_at = ports.iso;
  duration_ms = ports.duration_ms;
  checks = none;
  outputs = none;
  error = some (record { code = code });
  log_truncated = truncated;
}

-- except OwlError as error: ... except Exception: ...
unfoldable pub handle : Ports → Run → Bool → Error → Result Run
handle ports run launched (owl code) = finish run (
    failure ports run launched (if is_cancelled code then State.cancelled else State.error) code
      (is_output_limit code))
handle ports run launched e =
    finish run (failure ports run launched State.error execution_error false)

abbrev pub or_handle : Ports → Run → Bool → Result Run → Result Run
or_handle ports run launched (ok result) = ok result
or_handle ports run launched (err e) = handle ports run launched e

-- finally: sink.close(). What it raises replaces the result, or what was raised before.
abbrev pub closing : Result (Unit {0}) → Result Run → Result Run
closing (ok u) r = r
closing (err e) r = err e

-- The log is open from the end of `prepare` on.
abbrev pub launch : Ports → Job → Result (List Text) → Result Run
launch ports job (ok secrets) =
    closing ports.close (or_handle ports job.run true (conclude ports job secrets))
launch ports job (err e) = handle ports job.run false e

unfoldable pub execute_job : Ports → Job → Result Run
unfolding prepare conclude handle
execute_job ports job = launch ports job (prepare ports)
