-- ===== src/Export/Configuring.antt =====
-- observability_config.py `ObservabilityConfiguration`, infrastructure/export_store.py, and
-- export_service.py `configure`, `disable` and `status`. YAML is a port: its load raises, or gives the
-- fields before they are validated.
use owlmatic.Prelude.{
  ℕ, Bool, false, ◌&&◌, ◌||◌, not, String, Text, Option, none, some, is_empty, [], ltb, nat_beq,
  length, if◌then◌else◌,
}
use owlmatic.Errors.{
  Error, Result, ok, err, owl, value_error, unexpected, permission_error, file_not_found,
  storage_full, os_error, reject_if, is_decoding_error, export_config,
}
use owlmatic.Errors
use owlmatic.Actions.{Action, lift, ◌>>=◌, ◌>>◌}
use owlmatic.Domain.{Failure}
use owlmatic.Measurement.{Configuration}
use owlmatic.Export.Contracts.{body}
use owlmatic.Export.Projection.{SchemaVersion, one}
use owlmatic.Export.State.{
  ExportConfiguration, PendingExport, DeliveryReport, Mode, is_one, configured_destination,
}
use owlmatic.Export.Service.{Encoding, Inputs, Outbox, synchronize, push}

pub record Observability : Type 0 where
  pub version : SchemaVersion
  pub measurement : Configuration
  pub local_dashboard : Bool
  pub export : ExportConfiguration

-- The default values of the fields.
abbrev pub no_export : ExportConfiguration
no_export = record {
  schema_version = one;
  source_label = none;
  include_measurements = false;
  mode = Mode.disabled;
  window_days = 30;
  destination = none;
  scope = record {
    savings_estimates = false;
    daily_breakdown = false;
    workflow_identifiers = false;
  };
  delivery = record {
    timeout_seconds = 5;
    max_attempts = 5;
    retry_initial_seconds = 2;
    retry_max_seconds = 300;
    pending_retention_days = 7;
    max_pending_bytes = 1048576;
  };
}

abbrev pub default_observability : Observability
default_observability = record {
  version = one;
  measurement = record { enabled = false; sources = []; poll_seconds = 5; retention_days = 90 };
  local_dashboard = false;
  export = no_export;
}

-- measurement == MeasurementConfiguration()
unfoldable pub is_default : Configuration → Bool
is_default c =
    not c.enabled && is_empty c.sources && nat_beq c.poll_seconds 5 && nat_beq c.retention_days 90

unfoldable pub compatible_version : Observability → Result Observability
unfolding is_default
compatible_version o =
    Errors.◌>>=◌
      (reject_if (
        is_one o.version
        && (not (is_default o.measurement) || not (is_one o.export.schema_version))))
      (λ _. ok o)

pub record YamlPort : Type 0 where
  pub load : Text → Result Observability
  pub dump : Observability → Text

abbrev pub decoded : Result Observability → Result Observability
decoded (ok o) = ok o
decoded (err x) = if is_decoding_error x then err (owl export_config) else err x

-- yaml_model(content, ObservabilityConfiguration)
unfoldable pub validated : Result Observability → Result Observability
unfolding configured_destination compatible_version
validated (err x) = err x
validated (ok o) = Errors.◌>>=◌ (configured_destination o.export) (λ _. compatible_version o)

-- The file of the configuration, if it is there, and the state of the delivery.
pub record Site : Type 0 where
  pub file : Option Text
  pub outbox : Outbox

pub record ExportStatus : Type 0 where
  pub configuration : Observability
  pub pending_snapshot_id : Option String
  pub attempts : ℕ
  pub last_failure : Option Failure

abbrev pub status_of : Observability → Option PendingExport → ExportStatus
status_of o none = record {
  configuration = o;
  pending_snapshot_id = none;
  attempts = 0;
  last_failure = none;
}
status_of o (some p) = record {
  configuration = o;
  pending_snapshot_id = some (body p.snapshot).snapshot_id;
  attempts = p.attempts;
  last_failure = p.last_failure;
}

-- except OwlError: previous = ObservabilityConfiguration()
unfoldable pub previous_of : Result Observability → Result Observability
previous_of (ok o) = ok o
previous_of (err (owl c)) = ok default_observability
previous_of (err value_error) = err value_error
previous_of (err unexpected) = err unexpected
previous_of (err permission_error) = err permission_error
previous_of (err file_not_found) = err file_not_found
previous_of (err storage_full) = err storage_full
previous_of (err os_error) = err os_error

unfoldable pub disabled_of : Observability → Observability
disabled_of o = record {
  version = o.version;
  measurement = o.measurement;
  local_dashboard = o.local_dashboard;
  export = no_export;
}

abbrev pub write_file : Text → Site → Result (Unit {0}) × Site
write_file content s = (ok tt, record s { file = some content })

abbrev pub report_status : Observability → Site → Result ExportStatus × Site
report_status o s = (ok (status_of o s.outbox.state.pending), s)

module _ (port : YamlPort) where
  unfoldable pub read_config : Text → Result Observability
  unfolding validated
  read_config content =
      if ltb 65536 (length content)
      then err (owl export_config)
      else decoded (validated (port.load content))

  -- `FileExportStore.configuration`
  unfoldable pub configuration : Option Text → Result Observability
  unfolding read_config
  configuration none = ok default_observability
  configuration (some content) = read_config content

  -- The file at the path that is given.
  unfoldable pub install : Option Text → Action Site (Unit {0})
  unfolding read_config
  install none = λ s. (err file_not_found, s)
  install (some content) = do o ← lift (read_config content); write_file (port.dump o)

  -- `FileExportStore.disable`
  unfoldable pub disable_file : Action Site (Unit {0})
  unfolding previous_of disabled_of compatible_version configuration
  disable_file = do
    previous ← (λ s. (previous_of (configuration s.file), s))
    o ← lift (compatible_version (disabled_of previous))
    write_file (port.dump o)

module _ (e : Encoding) (port : YamlPort) where
  -- `_synchronize`, over the stored configuration.
  unfoldable pub synchronize_site : ℕ → Action Site (Unit {0})
  unfolding synchronize configuration
  synchronize_site now = do
    o ← (λ s. (configuration port s.file, s))
    (λ s. (
      ok tt,
      record s { outbox = record (s.outbox) { state = synchronize e o.export now s.outbox.state } },
    ))

  unfoldable pub status : ℕ → Action Site ExportStatus
  unfolding synchronize_site configuration
  status now = do synchronize_site now; o ← (λ s. (configuration port s.file, s)); report_status o

  unfoldable pub configure : Option Text → ℕ → ℕ → Action Site ExportStatus
  unfolding install synchronize_site status
  configure content now later = do install port content; synchronize_site now; status later

  unfoldable pub disable : ℕ → ℕ → Action Site ExportStatus
  unfolding disable_file synchronize_site status
  disable now later = do disable_file port; synchronize_site now; status later

  -- `push` with the stored configuration.
  unfoldable pub push_site : Inputs → Bool → Bool → Action Site DeliveryReport
  unfolding push configuration
  push_site i retry automatic = do
    o ← (λ s. (configuration port s.file, s))
    (λ s.
        let (r, outbox) = push e o.export i retry automatic s.outbox in
        (r, record s { outbox = outbox }))
