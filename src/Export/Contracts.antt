-- ===== src/Export/Contracts.antt =====
-- export_contracts.py and measurement_wire.py: the snapshot that crosses the boundary, and its
-- validators. Limits on the length of texts are not modelled.
use owlmatic.Prelude.{
  ℕ, Bool, false, ◌&&◌, ◌||◌, not, differ, String, Option, none, some, is_some, List, [], length,
  ltb, any,
}
use owlmatic.Prelude.Int.{ℤ}
use owlmatic.Errors.{Result, ok, reject_if, ◌>>◌}
use owlmatic.Measurement.{Assessment}

pub record ExportScope : Type 0 where
  pub savings_estimates : Bool
  pub daily_breakdown : Bool
  pub workflow_identifiers : Bool

pub record UsageMetrics : Type 0 where
  pub runs : ℕ
  pub terminal : ℕ
  pub verified : ℕ
  pub execution_errors : ℕ
  pub running : ℕ
  pub duration_ms : ℕ

pub record SavingsMetrics : Type 0 where
  pub modeled_runs : ℕ
  pub manual_tokens : Option ℕ
  pub owlmatic_tokens : Option ℕ
  pub setup_tokens : Option ℕ
  pub net_tokens_saved : Option ℤ

pub record DailyMetrics : Type 0 where
  pub day : ℕ
  pub runs : ℕ
  pub verified : ℕ
  pub estimated_tokens_saved_before_setup : Option ℤ

pub record WorkflowMetrics : Type 0 where
  pub ref : String
  pub usage : UsageMetrics
  pub savings : Option SavingsMetrics

pub record MeasurementMetrics : Type 0 where
  pub observed_tasks : ℕ
  pub measured_tasks : ℕ
  pub unattributed_tasks : ℕ
  pub measured_agent_tokens : Option ℕ
  pub estimated_operational_savings : Option ℤ
  pub estimated_net_savings : Option ℤ
  pub estimated_context_reference_tokens : Option ℤ
  pub context_bytes_reduced : Option ℤ
  pub latest_observation_at : Option ℕ
  pub workflows : Option (List Assessment)

pub record SnapshotBody : Type 0 where
  pub snapshot_id : String
  pub source_id : String
  pub sequence : ℕ
  pub generated_at : String
  pub since : String
  pub days : ℕ
  pub shared : ExportScope
  pub usage : UsageMetrics
  pub savings : Option SavingsMetrics
  pub daily : Option (List DailyMetrics)
  pub workflows : Option (List WorkflowMetrics)

-- What version 2 of the contract adds.
pub record Extension : Type 0 where
  pub source_label : Option String
  pub measurements_shared : Bool
  pub measurements : Option MeasurementMetrics

pub data Snapshot : Type 0 where
  version_1 : SnapshotBody → Snapshot
  version_2 : SnapshotBody → Extension → Snapshot

abbrev pub body : Snapshot → SnapshotBody
body (version_1 b) = b
body (version_2 b e) = b

abbrev pub rows_of {ℓ} : {A : Type ℓ} → Option (List A) → List A
rows_of none = []
rows_of (some rows) = rows

-- The bounds of the fields.
abbrev pub exceeds_limits : SnapshotBody → Bool
exceeds_limits b =
    ltb b.sequence 1
    || ltb b.days 1
    || ltb 3650 b.days
    || ltb 3650 (length (rows_of b.daily))
    || ltb 10000 (length (rows_of b.workflows))

abbrev pub daily_has_savings : List DailyMetrics → Bool
daily_has_savings = any λ d. is_some d.estimated_tokens_saved_before_setup

abbrev pub workflow_has_savings : List WorkflowMetrics → Bool
workflow_has_savings = any λ w. is_some w.savings

unfoldable pub enforce_scope : SnapshotBody → Result SnapshotBody
enforce_scope b = do
  reject_if (exceeds_limits b)
  reject_if (differ (is_some b.savings) b.shared.savings_estimates)
  reject_if (differ (is_some b.daily) b.shared.daily_breakdown)
  reject_if (differ (is_some b.workflows) b.shared.workflow_identifiers)
  reject_if (not b.shared.savings_estimates && daily_has_savings (rows_of b.daily))
  reject_if (not b.shared.savings_estimates && workflow_has_savings (rows_of b.workflows))
  ok b

abbrev pub names_workflows : Option MeasurementMetrics → Bool
names_workflows none = false
names_workflows (some m) = is_some m.workflows

unfoldable pub measurement_scope : SnapshotBody → Extension → Result Snapshot
measurement_scope b e = do
  reject_if (differ (is_some e.measurements) e.measurements_shared)
  reject_if (names_workflows e.measurements && not b.shared.workflow_identifiers)
  ok (version_2 b e)
