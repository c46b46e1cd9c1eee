-- ===== src/Measurement/Contracts.antt =====
-- measurement/contracts.py: immutable accounting records, and the validators of two of them.
use owlmatic.Prelude.{
  ℕ, ◌+◌, Bool, false, not, String, Option, none, some, List, ltb, distinct, string_eq,
}
use owlmatic.Prelude.Int.{ℤ}
use owlmatic.Errors.{Result, ok, reject_if, ◌>>◌}

pub data HostName : Type 0 where
  codex claude : HostName

pub data TaskPurpose : Type 0 where
  manual reuse creation maintenance : TaskPurpose

pub data Counter : Type 0 where
  bytes cl100k_base_reference : Counter

pub data Basis : Type 0 where
  unverified user_attested workflow_evidence : Basis

pub data Quality : Type 0 where
  unmeasured partial preliminary : Quality

-- The closed set of issue names that the estimation and the history reader write.
pub data Issue : Type 0 where
  missing_complete_matching_usage_or_baseline visible_context_incomplete : Issue
  execution_usage_incomplete creation_cost_coverage_unknown : Issue
  maintenance_cost_coverage_unknown historical_minimum_is_not_a_future_guarantee : Issue
  usage_counter_regressed invalid_or_partial_event multiple_tasks_select_line_range : Issue
  task_boundary_unavailable mixed_models model_override_conflict : Issue
  provider_usage_unavailable model_unavailable tool_output_format_unavailable : Issue
  session_summary_cannot_be_sliced host_reported_error message_identity_missing : Issue
  nontext_tool_output unsupported_partial_stream_format subagent_usage_unattributed : Issue

pub record TokenUsage : Type 0 where
  pub input_tokens : ℕ
  pub cached_input_tokens : Option ℕ
  pub cache_write_input_tokens : Option ℕ
  pub output_tokens : ℕ
  pub reasoning_output_tokens : Option ℕ

-- value or 0
abbrev pub or_zero : Option ℕ → ℕ
or_zero none = 0
or_zero (some n) = n

-- `TokenUsage(...)`: the cache categories and the reasoning are parts of the totals.
unfoldable pub subsets : TokenUsage → Result TokenUsage
subsets u = do
  reject_if
      (ltb u.input_tokens (or_zero u.cached_input_tokens + or_zero u.cache_write_input_tokens))
  reject_if (ltb u.output_tokens (or_zero u.reasoning_output_tokens))
  ok u

abbrev pub total_tokens : TokenUsage → ℕ
total_tokens u = u.input_tokens + u.output_tokens

pub record Exposure : Type 0 where
  pub complete : Bool
  pub visible_bytes : ℕ
  pub reference_tokens : Option ℕ
  pub counter : Counter
  pub tool_results : ℕ

-- `observed_at` is an ISO timestamp; only its order is used, so it is a number.
pub record TaskObservation : Type 0 where
  pub task_id : String
  pub host : HostName
  pub model : Option String
  pub purpose : TaskPurpose
  pub workload : String
  pub workflow_ref : Option String
  pub run_ids : List String
  pub verified : Bool
  pub verification_basis : Basis
  pub usage : Option TokenUsage
  pub complete : Bool
  pub exposure : Exposure
  pub issues : List Issue
  pub source_digest : String
  pub source_key : String
  pub source_file_key : String
  pub first_line : ℕ
  pub last_line : Option ℕ
  pub observed_at : ℕ

unfoldable pub attributed : TaskObservation → Option String → Bool → Basis → TaskObservation
attributed t ref verified basis = record {
  task_id = t.task_id;
  host = t.host;
  model = t.model;
  purpose = t.purpose;
  workload = t.workload;
  workflow_ref = ref;
  run_ids = t.run_ids;
  verified = verified;
  verification_basis = basis;
  usage = t.usage;
  complete = t.complete;
  exposure = t.exposure;
  issues = t.issues;
  source_digest = t.source_digest;
  source_key = t.source_key;
  source_file_key = t.source_file_key;
  first_line = t.first_line;
  last_line = t.last_line;
  observed_at = t.observed_at;
}

pub record ImportRequest : Type 0 where
  pub host : HostName
  pub session : String
  pub task_id : String
  pub purpose : TaskPurpose
  pub workload : String
  pub workflow_ref : Option String
  pub run_ids : List String
  pub model : Option String
  pub verified : Bool
  pub first_line : ℕ
  pub last_line : Option ℕ

abbrev pub line_before : Option ℕ → ℕ → Bool
line_before none first = false
line_before (some last) first = ltb last first

-- `ImportRequest(...)`
unfoldable pub line_range : ImportRequest → Result ImportRequest
line_range r = do
  reject_if (line_before r.last_line r.first_line)
  reject_if (not (distinct r.run_ids))
  ok r

pub record BaselineLink : Type 0 where
  pub workflow_ref : String
  pub task_id : String

pub record CostCoverage : Type 0 where
  pub workflow_ref : String
  pub setup_complete : Bool
  pub maintenance_complete : Bool

pub record Assessment : Type 0 where
  pub workflow_ref : String
  pub observed_tasks : ℕ
  pub measured_tasks : ℕ
  pub baseline_samples : ℕ
  pub baseline_min_tokens : Option ℕ
  pub baseline_max_tokens : Option ℕ
  pub host_models : List (HostName × String)
  pub workloads : List String
  pub measured_agent_tokens : Option ℕ
  pub estimated_operational_savings : Option ℤ
  pub estimated_net_savings : Option ℤ
  pub estimated_context_reference_tokens : Option ℤ
  pub context_bytes_reduced : Option ℤ
  pub creation_tokens : Option ℕ
  pub maintenance_tokens : Option ℕ
  pub quality : Quality
  pub issues : List Issue
  pub latest_observation_at : Option ℕ

pub record MeasurementReport : Type 0 where
  pub assessments : List Assessment
  pub unattributed_tasks : ℕ
  pub latest_observation_at : Option ℕ
