-- ===== src/Measurement/Equality.antt =====
-- measurement/contracts.py: the tests by which the code compares observations.
use owlmatic.Prelude.{
  ℕ, ◌≡◌, ◌↔◌, Bool, true, false, ◌&&◌, String, Option, none, some, List, [], ◌∷◌, arith, nat_beq,
  nat_eq, Eq, ◌==◌, string_eq, bool_eq, option_eq, eq_iff,
}
use owlmatic.Measurement.Contracts.{
  HostName, TaskPurpose, Counter, Basis, Issue, TokenUsage, Exposure, TaskObservation,
}

abbrev pub host_tag : HostName → ℕ
host_tag HostName.codex = 0
host_tag HostName.claude = 1

abbrev pub task_purpose_tag : TaskPurpose → ℕ
task_purpose_tag TaskPurpose.manual = 0
task_purpose_tag TaskPurpose.reuse = 1
task_purpose_tag TaskPurpose.creation = 2
task_purpose_tag TaskPurpose.maintenance = 3

abbrev pub counter_tag : Counter → ℕ
counter_tag Counter.bytes = 0
counter_tag Counter.cl100k_base_reference = 1

abbrev pub basis_tag : Basis → ℕ
basis_tag Basis.unverified = 0
basis_tag Basis.user_attested = 1
basis_tag Basis.workflow_evidence = 2

pub host_iff : (a b : HostName) → (nat_beq (host_tag a) (host_tag b) ≡ true) ↔ (a ≡ b)
host_iff a b = ground arith

pub task_purpose_iff :
    (a b : TaskPurpose) → (nat_beq (task_purpose_tag a) (task_purpose_tag b) ≡ true) ↔ (a ≡ b)
task_purpose_iff a b = ground arith

pub counter_iff : (a b : Counter) → (nat_beq (counter_tag a) (counter_tag b) ≡ true) ↔ (a ≡ b)
counter_iff a b = ground arith

instance abbrev pub host_eq : Eq HostName
host_eq = record { equal = λ a b. nat_beq (host_tag a) (host_tag b); equal_iff = host_iff }

instance abbrev pub task_purpose_eq : Eq TaskPurpose
task_purpose_eq = record {
  equal = λ a b. nat_beq (task_purpose_tag a) (task_purpose_tag b);
  equal_iff = task_purpose_iff;
}

instance abbrev pub counter_eq : Eq Counter
counter_eq = record {
  equal = λ a b. nat_beq (counter_tag a) (counter_tag b);
  equal_iff = counter_iff;
}

abbrev pub issue_tag : Issue → ℕ
issue_tag Issue.missing_complete_matching_usage_or_baseline = 0
issue_tag Issue.visible_context_incomplete = 1
issue_tag Issue.execution_usage_incomplete = 2
issue_tag Issue.creation_cost_coverage_unknown = 3
issue_tag Issue.maintenance_cost_coverage_unknown = 4
issue_tag Issue.historical_minimum_is_not_a_future_guarantee = 5
issue_tag Issue.usage_counter_regressed = 6
issue_tag Issue.invalid_or_partial_event = 7
issue_tag Issue.multiple_tasks_select_line_range = 8
issue_tag Issue.task_boundary_unavailable = 9
issue_tag Issue.mixed_models = 10
issue_tag Issue.model_override_conflict = 11
issue_tag Issue.provider_usage_unavailable = 12
issue_tag Issue.model_unavailable = 13
issue_tag Issue.tool_output_format_unavailable = 14
issue_tag Issue.session_summary_cannot_be_sliced = 15
issue_tag Issue.host_reported_error = 16
issue_tag Issue.message_identity_missing = 17
issue_tag Issue.nontext_tool_output = 18
issue_tag Issue.unsupported_partial_stream_format = 19
issue_tag Issue.subagent_usage_unattributed = 20

abbrev pub same_issues : List Issue → List Issue → Bool
same_issues [] [] = true
same_issues [] (y ∷ ys) = false
same_issues (x ∷ xs) [] = false
same_issues (x ∷ xs) (y ∷ ys) = nat_beq (issue_tag x) (issue_tag y) && same_issues xs ys

-- Equality of two sequences of run ids.
abbrev pub same_runs : List String → List String → Bool
same_runs [] [] = true
same_runs [] (y ∷ ys) = false
same_runs (x ∷ xs) [] = false
same_runs (x ∷ xs) (y ∷ ys) = x == y && same_runs xs ys

pub same_runs-eq : (xs ys : List String) → same_runs xs ys ≡ true → xs ≡ ys
same_runs-eq [] [] h = cc
same_runs-eq [] (y ∷ ys) h = cc
same_runs-eq (x ∷ xs) [] h = cc
same_runs-eq (x ∷ xs) (y ∷ ys) h = ground (arith, eq_iff x y, same_runs-eq xs ys)

unfoldable pub same_usage : Option TokenUsage → Option TokenUsage → Bool
same_usage none none = true
same_usage none (some v) = false
same_usage (some u) none = false
same_usage (some u) (some v) =
    u.input_tokens == v.input_tokens
    && u.cached_input_tokens == v.cached_input_tokens
    && u.cache_write_input_tokens == v.cache_write_input_tokens
    && u.output_tokens == v.output_tokens
    && u.reasoning_output_tokens == v.reasoning_output_tokens

unfoldable pub same_exposure : Exposure → Exposure → Bool
same_exposure a b =
    a.complete == b.complete
    && a.visible_bytes == b.visible_bytes
    && a.reference_tokens == b.reference_tokens
    && a.counter == b.counter
    && a.tool_results == b.tool_results

-- previous.model_dump(exclude={"observed_at"}) == observation.model_dump(exclude={"observed_at"})
unfoldable pub same_observation : TaskObservation → TaskObservation → Bool
unfolding same_usage same_exposure
same_observation a b =
    a.task_id == b.task_id
    && a.host == b.host
    && a.model == b.model
    && a.purpose == b.purpose
    && a.workload == b.workload
    && a.workflow_ref == b.workflow_ref
    && same_runs a.run_ids b.run_ids
    && a.verified == b.verified
    && nat_beq (basis_tag a.verification_basis) (basis_tag b.verification_basis)
    && same_usage a.usage b.usage
    && a.complete == b.complete
    && same_exposure a.exposure b.exposure
    && same_issues a.issues b.issues
    && a.source_digest == b.source_digest
    && a.source_key == b.source_key
    && a.source_file_key == b.source_file_key
    && a.first_line == b.first_line
    && a.last_line == b.last_line
