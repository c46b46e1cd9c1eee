-- ===== src/Statistics/Contracts.antt =====
-- statistics.py: the records of the statistics. A day is the number of its date.
use owlmatic.Prelude.{ℕ, Bool, ◌&&◌, String, Option, List, nat_beq}
use owlmatic.Prelude.Int.{ℤ}
use owlmatic.Errors.{Result, ok, reject_if, ◌>>◌}
use owlmatic.Domain.{State, Outcome, Effects, Purpose}
use owlmatic.Measurement.{MeasurementReport}

pub data BaselineBasis : Type 0 where
  estimate benchmark : BaselineBasis

abbrev pub is_benchmark : BaselineBasis → Bool
is_benchmark benchmark = Bool.true
is_benchmark estimate = Bool.false

pub record SavingsBaseline : Type 0 where
  pub ref : String
  pub manual_tokens : ℕ
  pub owlmatic_tokens : ℕ
  pub setup_tokens : ℕ
  pub basis : BaselineBasis
  pub source : String
  pub sample_size : ℕ

-- `SavingsBaseline(...)`
unfoldable pub benchmark_has_samples : SavingsBaseline → Result SavingsBaseline
benchmark_has_samples b = do reject_if (is_benchmark b.basis && nat_beq b.sample_size 0); ok b

pub record RunBucket : Type 0 where
  pub day : ℕ
  pub ref : String
  pub purpose : Purpose
  pub state : State
  pub outcome : Outcome
  pub effects : Effects
  pub count : ℕ
  pub duration_ms : ℕ

pub record WorkflowStatistics : Type 0 where
  pub ref : String
  pub runs : ℕ
  pub terminal : ℕ
  pub verified : ℕ
  pub passed : ℕ
  pub detected_failures : ℕ
  pub execution_errors : ℕ
  pub running : ℕ
  pub duration_ms : ℕ
  pub baseline : Option SavingsBaseline
  pub estimated_manual_tokens : Option ℕ
  pub estimated_owlmatic_tokens : Option ℕ
  pub estimated_net_tokens_saved : Option ℤ

pub record DailyStatistics : Type 0 where
  pub day : ℕ
  pub runs : ℕ
  pub verified : ℕ
  pub estimated_tokens_saved_before_setup : Option ℤ

pub record StatisticsReport : Type 0 where
  pub measurements : Option MeasurementReport
  pub generated_at : String
  pub since : String
  pub days : ℕ
  pub runs : ℕ
  pub terminal : ℕ
  pub verified : ℕ
  pub execution_errors : ℕ
  pub running : ℕ
  pub duration_ms : ℕ
  pub excluded_validation_runs : ℕ
  pub excluded_legacy_runs : ℕ
  pub modeled_runs : ℕ
  pub estimated_manual_tokens : Option ℕ
  pub estimated_owlmatic_tokens : Option ℕ
  pub estimated_setup_tokens : Option ℕ
  pub estimated_net_tokens_saved : Option ℤ
  pub workflows : List WorkflowStatistics
  pub daily : List DailyStatistics
