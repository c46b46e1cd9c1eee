-- ===== src/Evidence/Completion.antt =====
-- What verification makes of evidence, and the run that it completes.
use owlmatic.Prelude.{
  nat_eq, text_eq, string_eq, ℕ, ◌≡◌, refl, true, false, String, none, some, any, distinct, length,
  count_by, arith, truthy,
}
use owlmatic.Prelude.Int.{ℤ}
use owlmatic.Errors.{ok}
use owlmatic.Json.{Fields}
use owlmatic.Domain.{
  Run, State, Outcome, is_running, is_uncertain, Evidence, Workflow, CheckCounts, Completion,
  CheckStatus, completed_run, finish, IsConsistent,
}
use owlmatic.Domain.Lifecycle.{consistent_state_complete}
use owlmatic.Evidence.Policy.{
  Validate, verify_evidence, any_unproven, has_status, is_zero, is_expected,
}
use owlmatic.Evidence.Counting.{length-le-passed, any-count, any-count_pos}

-- What verified evidence says, whatever the schemas accept.
pub record IsVerified (e : Evidence) (w : Workflow) (exit_code : ℤ) (c : CheckCounts) : Type 0 where
  pub expected : is_expected exit_code ≡ true
  pub required_count : c.required ≡ length w.manifest.verification.required_checks
  pub passed_count : c.passed ≡ count_by (has_status CheckStatus.pass) e.checks
  pub failed_count : c.failed ≡ count_by (has_status CheckStatus.fail) e.checks
  pub skipped_count : c.skipped ≡ count_by (has_status CheckStatus.skip) e.checks
  pub passing :
      e.outcome ≡ Outcome.pass
      → (is_zero exit_code ≡ true)
        × (any_unproven w.manifest.verification.required_checks e.checks ≡ false)
        × (any (has_status CheckStatus.fail) e.checks ≡ false)
        × (is_uncertain e.effects ≡ false)
  pub failing : e.outcome ≡ Outcome.fail → any (has_status CheckStatus.fail) e.checks ≡ true

-- Whatever the schemas accept: evidence that verification accepts ended with an expected exit code,
-- its counts are those of its checks, a pass is proven, and a failure names a failed check.
pub verify_evidence-IsVerified :
    (validate : Validate) (e : Evidence) (w : Workflow) (run_id : String) (exit_code : ℤ)
    (c : CheckCounts)
    → verify_evidence validate e w run_id exit_code ≡ ok c
    → IsVerified e w exit_code c
unfolding verify_evidence
verify_evidence-IsVerified validate e w run_id exit_code c h = record {
  expected = ground arith;
  required_count = ground arith;
  passed_count = ground arith;
  failed_count = ground arith;
  skipped_count = ground arith;
  passing = λ p. (ground arith, ground arith, ground arith, ground arith);
  failing = λ p. ground arith;
}

-- The completion that the supervisor makes of evidence; `outputs` are the redacted ones.
abbrev pub verified_completion : Evidence → CheckCounts → Fields → String → ℕ → Completion
verified_completion e c outputs iso ms = record {
  state = State.completed;
  outcome = e.outcome;
  effects = e.effects;
  finished_at = iso;
  duration_ms = ms;
  checks = some c;
  outputs = some outputs;
  error = none;
  log_truncated = false;
}

-- Evidence that verification accepts always completes a running run: if the required checks of
-- the workflow are distinct, `finish` accepts the outcome, effects and counts.
pub verified-finish :
    (validate : Validate) (e : Evidence) (w : Workflow) (run : Run) (exit_code : ℤ)
    (c : CheckCounts) (outputs : Fields) (iso : String) (ms : ℕ)
    → distinct w.manifest.verification.required_checks ≡ true
    → is_running run.state ≡ true
    → truthy (some iso) ≡ true
    → verify_evidence validate e w run.run_id exit_code ≡ ok c
    → finish run (verified_completion e c outputs iso ms)
      ≡ ok (completed_run run (verified_completion e c outputs iso ms))
unfolding finish
verified-finish validate e w run exit_code c outputs iso ms d active text h =
    let v = verify_evidence-IsVerified validate e w run.run_id exit_code c h in
    let checks = e.checks in
    let good : IsConsistent (completed_run run (verified_completion e c outputs iso ms)) = record {
      active = λ p. cc;
      finished = λ _. text;
      completed = λ _. (
        c,
        refl,
        refl,
        (λ p.
            let q = v.passing p in
            (
              ground (arith, v.failed_count, any-count CheckStatus.fail checks),
              omega (
                arith,
                v.required_count,
                v.passed_count,
                length-le-passed w.manifest.verification.required_checks checks d q.1,
              ),
              q.3,
            )),
        (λ p. omega (arith, v.failed_count, any-count_pos CheckStatus.fail checks (v.failing p))),
      );
      failed = λ _ p. absurd (p refl);
    } in
    ground (
      arith,
      consistent_state_complete (completed_run run (verified_completion e c outputs iso ms)) good,
    )
