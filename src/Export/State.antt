-- ===== src/Export/State.antt =====
-- observability_config.py, export_state.py and failures.py: the configuration of the delivery, the
-- single slot of the outbox, and the reports. Times are whole microseconds.
use owlmatic.Prelude.{
  ℕ, Bool, true, false, ◌&&◌, ◌||◌, not, String, Option, is_none, truthy, text_eq,
}
use owlmatic.Errors.{
  Error, owl, value_error, unexpected, permission_error, file_not_found, storage_full, os_error,
  access_denied, path_not_found, full_storage, io_error, invalid_request, internal_error, Result,
  ok, reject_if, ◌>>◌,
}
use owlmatic.Domain.{Failure}
use owlmatic.Export.Contracts.{ExportScope, Snapshot}
use owlmatic.Export.Projection.{SchemaVersion, one, two}

-- failures.py `public_failure`
unfoldable pub public_failure : Error → Failure
public_failure (owl code) = record { code = code }
public_failure permission_error = record { code = access_denied }
public_failure file_not_found = record { code = path_not_found }
public_failure storage_full = record { code = full_storage }
public_failure os_error = record { code = io_error }
public_failure value_error = record { code = invalid_request }
public_failure unexpected = record { code = internal_error }

pub data Mode : Type 0 where
  disabled manual after_workflow : Mode

abbrev pub is_disabled : Mode → Bool
is_disabled disabled = true
is_disabled _ = false

abbrev pub is_automatic : Mode → Bool
is_automatic after_workflow = true
is_automatic _ = false

pub record HttpDestination : Type 0 where
  pub endpoint : String
  pub token_env : Option String

pub record DeliveryPolicy : Type 0 where
  pub timeout_seconds : ℕ
  pub max_attempts : ℕ
  pub retry_initial_seconds : ℕ
  pub retry_max_seconds : ℕ
  pub pending_retention_days : ℕ
  pub max_pending_bytes : ℕ

pub record ExportConfiguration : Type 0 where
  pub schema_version : SchemaVersion
  pub source_label : Option String
  pub include_measurements : Bool
  pub mode : Mode
  pub window_days : ℕ
  pub destination : Option HttpDestination
  pub scope : ExportScope
  pub delivery : DeliveryPolicy

abbrev pub is_one : SchemaVersion → Bool
is_one one = true
is_one two = false

-- `ExportConfiguration(...)`
unfoldable pub configured_destination : ExportConfiguration → Result ExportConfiguration
configured_destination c = do
  reject_if (is_one c.schema_version && (c.include_measurements || truthy c.source_label))
  reject_if (not (is_disabled c.mode) && is_none c.destination)
  ok c

pub record PendingExport : Type 0 where
  pub snapshot : Snapshot
  pub created_at : ℕ
  pub attempts : ℕ
  pub next_attempt_at : ℕ
  pub last_failure : Option Failure

pub record ExportState : Type 0 where
  pub source_id : Option String
  pub sequence : ℕ
  pub configuration_digest : Option String
  pub pending : Option PendingExport
  pub last_payload_digest : Option String

-- `retry_after` is in microseconds.
pub data DeliveryReport : Type 0 where
  disabled empty unchanged : DeliveryReport
  failed : String → Option Failure → ℕ → DeliveryReport
  deferred : ℕ → DeliveryReport
  delivered : String → ℕ → DeliveryReport
