-- ===== src/Tests/EvidenceTests.antt =====
-- Evidence, redaction and supervision at concrete inputs.
use owlmatic.Prelude.{◌⊎◌, ◌≡◌, refl, true, false, Text, none, [], ◌∷◌, any}
use owlmatic.Prelude.Int.{ℤ, pos}
use owlmatic.Errors.{ok, err, os_error}
use owlmatic.Json.{end, field, str}
use owlmatic.Domain.{
  Run, Outcome, Effects, CheckStatus, CheckCounts, Evidence, Manifest, Workflow, completed_run,
  finish, is_uncertain,
}
use owlmatic.Evidence.{Validate, verify_evidence, status_of, any_unproven, has_status, is_zero}
use owlmatic.Evidence.Completion.{verified_completion, verify_evidence-IsVerified, verified-finish}
use owlmatic.Redaction.{clean_evidence, has_secret_fields, text_has_secret}
use owlmatic.Redaction.Keeping.{fields_distinct, clean_evidence-absent}
use owlmatic.Supervision.{Job, Ports, execute_job, prepare, conclude}
use owlmatic.Supervision.Results.{IsUnclosed, IsEnded, execute_job-Ending, execute_job-pass}
use owlmatic.Tests.Samples.{a_run}

abbrev pub health : Text
health = 104 ∷ 101 ∷ []

abbrev pub disk : Text
disk = 100 ∷ 105 ∷ []

abbrev pub a_manifest : Manifest
a_manifest = record {
  id = "health";
  version = "1";
  description = "";
  owner = "team";
  aliases = [];
  examples = [];
  entrypoint = [];
  input_schema = "in";
  output_schema = "out";
  requirements = record { platforms = []; commands = []; paths = []; repository = none };
  environments = [];
  effects = [];
  credentials = [];
  execution = record { timeout_seconds = 60; concurrency_input = none; remote = false };
  verification = record { required_checks = health ∷ [] };
  tests = [];
}

abbrev pub a_workflow : Workflow
a_workflow = record {
  ref = "team/health@1";
  catalog = "team";
  id = "health";
  digest = "d";
  directory = "/c";
  manifest = a_manifest;
  input_schema = end;
  output_schema = end;
  source_revision = none;
}

abbrev some_evidence : Evidence
some_evidence = record {
  run_id = "run_1";
  outcome = Outcome.pass;
  checks =
      record { name = health; status = CheckStatus.pass }
      ∷ record { name = disk; status = CheckStatus.skip }
      ∷ [];
  outputs = field disk (str health) end;
  effects = Effects.none;
}

abbrev pub accept_all : Validate
accept_all outputs schema code = ok tt

abbrev some_counts : CheckCounts
some_counts = record { required = 1; passed = 1; failed = 0; skipped = 1 }

accepted : verify_evidence accept_all some_evidence a_workflow "run_1" (pos 0) ≡ ok some_counts
unfolding verify_evidence any_unproven status_of
accepted = refl

verify_evidence-IsVerified_example : any_unproven (health ∷ []) some_evidence.checks ≡ false
verify_evidence-IsVerified_example =
    ((verify_evidence-IsVerified accept_all some_evidence a_workflow "run_1" (pos 0) some_counts
        accepted).passing
      refl).1

verified-finish_example :
    finish a_run (verified_completion some_evidence some_counts end "t1" 5)
    ≡ ok (completed_run a_run (verified_completion some_evidence some_counts end "t1" 5))
verified-finish_example =
    verified-finish accept_all some_evidence a_workflow a_run (pos 0) some_counts end "t1" 5 refl
      refl refl accepted

-- The secret "zz" is not in the evidence.
abbrev a_secret : Text
a_secret = 122 ∷ 122 ∷ []

clean_evidence-absent_example : clean_evidence some_evidence (a_secret ∷ []) ≡ some_evidence
clean_evidence-absent_example =
    clean_evidence-absent some_evidence (a_secret ∷ []) (unfold fields_distinct in refl)
      (unfold has_secret_fields text_has_secret in refl) (unfold text_has_secret in refl)

abbrev pub a_job : Job
a_job = record { workflow = a_workflow; run = a_run }

abbrev pub good_ports : Ports
good_ports = record {
  secrets = ok (a_secret ∷ []);
  log = ok tt;
  process = ok (pos 0);
  raw_evidence = ok some_evidence;
  validate = accept_all;
  save_evidence = λ e. ok tt;
  close = ok tt;
  iso = "t1";
  duration_ms = 5;
}

-- The store cannot save: the result stays an inconclusive failure.
abbrev full_ports : Ports
full_ports = record good_ports { save_evidence = λ e. err os_error }

execute_job-Ending_example :
    IsUnclosed full_ports (execute_job full_ports a_job)
    ⊎ IsEnded full_ports a_job (execute_job full_ports a_job)
execute_job-Ending_example = execute_job-Ending full_ports a_job refl refl

abbrev pub good_result : Run
good_result =
    completed_run a_run (verified_completion some_evidence some_counts some_evidence.outputs "t1" 5)

pub good_job : execute_job good_ports a_job ≡ ok good_result
unfolding execute_job conclude prepare
good_job =
    rw
      (
        clean_evidence-absent_example,
        accepted,
        verified-finish accept_all some_evidence a_workflow a_run (pos 0) some_counts
            some_evidence.outputs "t1" 5 refl refl refl accepted,
      )
      refl

execute_job-pass_example :
    (code : ℤ) × (e : Evidence) × (good_ports.process ≡ ok code)
    × (good_ports.raw_evidence ≡ ok e)
    × (is_zero code ≡ true)
    × (any_unproven (health ∷ []) e.checks ≡ false)
    × (any (has_status CheckStatus.fail) e.checks ≡ false)
    × (is_uncertain e.effects ≡ false)
execute_job-pass_example = execute_job-pass good_ports a_job good_result refl refl good_job refl
