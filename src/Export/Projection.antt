-- ===== src/Export/Projection.antt =====
-- export_projection.py: the allowlist from the local statistics to a snapshot.
use owlmatic.Prelude.{
  ℕ, ◌+◌, Bool, true, false, ◌&&◌, not, String, Option, none, some, is_some, List, [], ◌∷◌, map,
  sum_by, nat_beq, if◌then◌else◌,
}
use owlmatic.Prelude.Int.{ℤ, pos, ◌+ℤ◌}
use owlmatic.Errors.{Result, ok, ◌>>=◌}
use owlmatic.Measurement.{Assessment, MeasurementReport, or_zero}
use owlmatic.Statistics.{StatisticsReport, WorkflowStatistics, DailyStatistics, setup_of}
use owlmatic.Export.Contracts.{
  ExportScope, UsageMetrics, SavingsMetrics, DailyMetrics, WorkflowMetrics, MeasurementMetrics,
  SnapshotBody, Extension, Snapshot, version_1, enforce_scope, measurement_scope,
}

-- schema_version: Literal["1", "2"]
pub data SchemaVersion : Type 0 where
  one two : SchemaVersion

unfoldable pub report_usage : StatisticsReport → UsageMetrics
report_usage r = record {
  runs = r.runs;
  terminal = r.terminal;
  verified = r.verified;
  execution_errors = r.execution_errors;
  running = r.running;
  duration_ms = r.duration_ms;
}

unfoldable pub workflow_usage : WorkflowStatistics → UsageMetrics
workflow_usage w = record {
  runs = w.runs;
  terminal = w.terminal;
  verified = w.verified;
  execution_errors = w.execution_errors;
  running = w.running;
  duration_ms = w.duration_ms;
}

unfoldable pub report_savings : StatisticsReport → SavingsMetrics
report_savings r = record {
  modeled_runs = r.modeled_runs;
  manual_tokens = r.estimated_manual_tokens;
  owlmatic_tokens = r.estimated_owlmatic_tokens;
  setup_tokens = r.estimated_setup_tokens;
  net_tokens_saved = r.estimated_net_tokens_saved;
}

unfoldable pub workflow_savings : WorkflowStatistics → SavingsMetrics
workflow_savings w =
    let modeled = if is_some w.estimated_net_tokens_saved then w.terminal else 0 in
    record {
      modeled_runs = modeled;
      manual_tokens = w.estimated_manual_tokens;
      owlmatic_tokens = w.estimated_owlmatic_tokens;
      setup_tokens =
          if is_some w.baseline && not (nat_beq modeled 0) then some (setup_of w) else none;
      net_tokens_saved = w.estimated_net_tokens_saved;
    }

-- value if test else None
abbrev pub given {ℓ} : {A : Type ℓ} → Bool → A → Option A
given true a = some a
given false a = none

abbrev pub only_if {ℓ} : {A : Type ℓ} → Bool → Option A → Option A
only_if true a = a
only_if false a = none

unfoldable pub daily_metrics : Bool → DailyStatistics → DailyMetrics
daily_metrics savings d = record {
  day = d.day;
  runs = d.runs;
  verified = d.verified;
  estimated_tokens_saved_before_setup = only_if savings d.estimated_tokens_saved_before_setup;
}

unfoldable pub workflow_metrics : Bool → WorkflowStatistics → WorkflowMetrics
unfolding workflow_usage workflow_savings
workflow_metrics savings w = record {
  ref = w.ref;
  usage = workflow_usage w;
  savings = given savings (workflow_savings w);
}

-- sum(x for x in values if x is not None) if no value is None
unfoldable pub sum_known : List (Option ℤ) → Option ℤ
sum_known [] = some (pos 0)
sum_known (none ∷ xs) = none
sum_known (some x ∷ xs) = elim (sum_known xs) [ none ↦ none | some y ↦ some (x +ℤ y) ]

unfoldable pub sum_if_shared : Bool → List (Option ℤ) → Option ℤ
unfolding sum_known
sum_if_shared attributed [] = none
sum_if_shared attributed (x ∷ xs) = only_if attributed (sum_known (x ∷ xs))

unfoldable pub sum_actual : List Assessment → Option ℕ
sum_actual [] = none
sum_actual (a ∷ as_) = elim (sum_actual as_) [
  | none ↦ a.measured_agent_tokens
  | some n ↦ some (or_zero a.measured_agent_tokens + n)
]

abbrev pub assessments_of : Option MeasurementReport → List Assessment
assessments_of none = []
assessments_of (some m) = m.assessments

abbrev pub unattributed_of : Option MeasurementReport → ℕ
unattributed_of none = 0
unattributed_of (some m) = m.unattributed_tasks

abbrev pub latest_of : Option MeasurementReport → Option ℕ
latest_of none = none
latest_of (some m) = m.latest_observation_at

unfoldable pub measurement_metrics : Option MeasurementReport → Bool → MeasurementMetrics
unfolding sum_if_shared sum_actual
measurement_metrics measurement identities =
    let rows = assessments_of measurement in
    let attributed = is_some measurement && nat_beq (unattributed_of measurement) 0 in
    record {
      observed_tasks = sum_by (λ r. r.observed_tasks) rows;
      measured_tasks = sum_by (λ r. r.measured_tasks) rows;
      unattributed_tasks = unattributed_of measurement;
      measured_agent_tokens = sum_actual rows;
      estimated_operational_savings =
          sum_if_shared attributed (map (λ r. r.estimated_operational_savings) rows);
      estimated_net_savings = sum_if_shared attributed (map (λ r. r.estimated_net_savings) rows);
      estimated_context_reference_tokens =
          sum_if_shared attributed (map (λ r. r.estimated_context_reference_tokens) rows);
      context_bytes_reduced = sum_if_shared attributed (map (λ r. r.context_bytes_reduced) rows);
      latest_observation_at = latest_of measurement;
      workflows = given identities rows;
    }

unfoldable pub snapshot_body : StatisticsReport → ExportScope → String → String → ℕ → SnapshotBody
unfolding report_usage report_savings daily_metrics workflow_metrics
snapshot_body r scope source_id snapshot_id sequence = record {
  snapshot_id = snapshot_id;
  source_id = source_id;
  sequence = sequence;
  generated_at = r.generated_at;
  since = r.since;
  days = r.days;
  shared = scope;
  usage = report_usage r;
  savings = given scope.savings_estimates (report_savings r);
  daily = given scope.daily_breakdown (map (daily_metrics scope.savings_estimates) r.daily);
  workflows =
      given scope.workflow_identifiers (map (workflow_metrics scope.savings_estimates) r.workflows);
}

unfoldable pub extension : StatisticsReport → ExportScope → Option String → Bool → Extension
unfolding measurement_metrics
extension r scope source_label include_measurements = record {
  source_label = source_label;
  measurements_shared = include_measurements;
  measurements =
      given include_measurements (measurement_metrics r.measurements scope.workflow_identifiers);
}

abbrev pub of_version : SchemaVersion → SnapshotBody → Extension → Result Snapshot
of_version one b e = ok (version_1 b)
of_version two b e = measurement_scope b e

unfoldable pub snapshot :
    StatisticsReport
    → ExportScope
    → String
    → String
    → ℕ
    → SchemaVersion
    → Option String
    → Bool
    → Result Snapshot
snapshot r scope source_id snapshot_id sequence version source_label include_measurements = do
  b ← enforce_scope (snapshot_body r scope source_id snapshot_id sequence)
  of_version version b (extension r scope source_label include_measurements)
