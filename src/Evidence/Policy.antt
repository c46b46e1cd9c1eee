-- ===== src/Evidence/Policy.antt =====
-- verification.py `verify_evidence`.
use owlmatic.Prelude.{
  nat_eq, Bool, false, ◌&&◌, ◌||◌, not, String, Text, List, [], ◌∷◌, map, Option, none, some, any,
  distinct, length, count_by, ◌==◌, string_eq, text_eq, option_eq, if◌then◌else◌,
}
use owlmatic.Prelude.Int.{ℤ, pos}
use owlmatic.Errors.{
  Code, Result, ok, raise_if, stale_evidence, duplicate_check, invalid_output, unproven_pass,
  unproven_failure, process_failed, ◌>>◌,
}
use owlmatic.Json.{Fields}
use owlmatic.Domain.{
  Check, CheckStatus, status_eq, Evidence, Workflow, CheckCounts, Outcome, outcome_eq, is_uncertain,
}

abbrev pub Validate : Type 0
Validate = Fields → Fields → Code → Result (Unit {0})

-- {check.name: check.status for check in checks}.get(name): the last entry wins.
unfoldable pub status_of : Text → List Check → Option CheckStatus
status_of name [] = none
status_of name (c ∷ cs) = elim (status_of name cs) [
  | some s ↦ some s
  | none ↦ if c.name == name then some c.status else none
]

-- exit_code in {0, 1}
abbrev pub is_expected : ℤ → Bool
is_expected (pos n) = n == 0 || n == 1
is_expected _ = false

abbrev pub is_zero : ℤ → Bool
is_zero (pos n) = n == 0
is_zero _ = false

abbrev pub has_status : CheckStatus → Check → Bool
has_status s c = c.status == s

-- any(statuses.get(name) != "pass" for name in required)
unfoldable pub any_unproven : List Text → List Check → Bool
unfolding status_of
any_unproven [] checks = false
any_unproven (name ∷ names) checks =
    not (status_of name checks == some CheckStatus.pass) || any_unproven names checks

unfoldable pub verify_evidence : Validate → Evidence → Workflow → String → ℤ → Result CheckCounts
unfolding any_unproven
verify_evidence validate e w run_id exit_code = do
  raise_if (not (e.run_id == run_id)) stale_evidence
  raise_if (not (distinct (map (λ (c : Check). c.name) e.checks))) duplicate_check
  validate w.output_schema e.outputs invalid_output
  let required = w.manifest.verification.required_checks
  raise_if
      (e.outcome == Outcome.pass
        && (not (is_zero exit_code)
            || any_unproven required e.checks
            || any (has_status CheckStatus.fail) e.checks
            || is_uncertain e.effects))
      unproven_pass
  raise_if (e.outcome == Outcome.fail && not (any (has_status CheckStatus.fail) e.checks))
      unproven_failure
  raise_if (not (is_expected exit_code)) process_failed
  ok (record {
    required = length required;
    passed = count_by (has_status CheckStatus.pass) e.checks;
    failed = count_by (has_status CheckStatus.fail) e.checks;
    skipped = count_by (has_status CheckStatus.skip) e.checks;
  })
