-- ===== src/Tests/HostTests.antt =====
-- Histories of hosts, and their import, at concrete inputs.
use owlmatic.Prelude.{
  ◌+◌, ◌*◌, ◌≡◌, ◌≤◌, refl, true, false, String, Text, none, some, is_some, List, [], ◌∷◌, All,
  length, is_empty, ltb, codes, arith,
}
use owlmatic.Prelude.Int.{pos}
use owlmatic.Errors.{Result, ok, err, unexpected}
use owlmatic.Json.{Value, int, str, arr, obj, nil, Fields, end, field}
use owlmatic.Ledger.{Db}
use owlmatic.Measurement.{
  HostName, TaskPurpose, Basis, TaskObservation, TokenUsage, ImportRequest, Configuration,
  ImportResult, Imports, ingest,
}
use owlmatic.Measurement.Credit.{IsBacked}
use owlmatic.Host.{
  Events, no_events, HistoryPort, feed, read, read_lines, read_events, is_claude, total, total_of,
  difference, get,
}
use owlmatic.Host.Selection.{limit, read-complete}
use owlmatic.Host.Completeness.{decodes}
use owlmatic.Host.Credit.{local_port, ingest-credit}
use owlmatic.Host.Range.{IsSelected, feed-excluded, feed-unhashable}
use owlmatic.Host.Totals.{IsUsage, total-ok, difference-ok}
use owlmatic.Tests.Samples.{finished_db}
use owlmatic.Tests.MeasurementTests.{an_exposure, empty_store}

abbrev counts : Fields
counts =
    field (codes "input_tokens") (int (pos 10)) (field (codes "output_tokens") (int (pos 5)) end)

abbrev a_turn : Fields
a_turn =
    field (codes "type") (str (codes "turn.completed")) (field (codes "usage") (obj counts) end)

abbrev listed_type : Fields
listed_type = field (codes "type") (arr nil) end

abbrev no_repr : Value → Text
no_repr v = codes "?"

-- A port whose only file has one line, which is a completed turn.
abbrev a_host : HistoryPort
a_host = record {
  resolve = λ s. s;
  file = λ path. some (codes "{}");
  parse = λ raw. ok a_turn;
  parse_text = λ line. ok end;
  repr = no_repr;
  sha256 = λ lines. "digest";
  range_key = λ host path first last. "range";
  file_key = λ host path. "file";
  count = λ outputs. ok an_exposure;
}

abbrev a_request : ImportRequest
a_request = record {
  host = HostName.codex;
  session = "s";
  task_id = "r";
  purpose = TaskPurpose.reuse;
  workload = "default";
  workflow_ref = none;
  run_ids = "run_1" ∷ [];
  model = some "gpt";
  verified = true;
  first_line = 1;
  last_line = none;
}

abbrev a_usage : TokenUsage
a_usage = record {
  input_tokens = 10;
  cached_input_tokens = none;
  cache_write_input_tokens = none;
  output_tokens = 5;
  reasoning_output_tokens = none;
}

abbrev a_reading : TaskObservation
a_reading = record {
  task_id = "r";
  host = HostName.codex;
  model = some "gpt";
  purpose = TaskPurpose.reuse;
  workload = "default";
  workflow_ref = none;
  run_ids = "run_1" ∷ [];
  verified = true;
  verification_basis = Basis.user_attested;
  usage = some a_usage;
  complete = true;
  exposure = record an_exposure { complete = false };
  issues = [];
  source_digest = "digest";
  source_key = "range";
  source_file_key = "file";
  first_line = 1;
  last_line = none;
  observed_at = 50;
}

a_read : read a_host a_request 50 ≡ ok a_reading
unfolding read
a_read = refl

read-complete_example :
    (a_reading.issues ≡ [])
    × (is_some a_reading.usage ≡ true)
    × (is_some a_reading.model ≡ true)
    × (content : Text) × (a_host.file (a_host.resolve a_request.session) ≡ some content)
    × (length content ≤ 32 * 1024 * 1024)
    × (decodes a_host a_request 1 (read_lines limit limit content) ≡ true)
    × (e : Events) × (hashed : List Text) × (read_events a_host a_request 1
          (read_lines limit limit content)
          (no_events (is_claude a_request.host) (ltb 1 a_request.first_line))
          []
        ≡ ok (e, hashed))
    × (e.human_prompts ≤ 1)
    × (length e.models ≤ 1)
    × (e.complete ≡ true)
read-complete_example = read-complete a_host a_request 50 a_reading a_read refl

abbrev a_configuration : Configuration
a_configuration = record { enabled = true; sources = []; poll_seconds = 30; retention_days = 90 }

abbrev before_import : Imports
before_import = record { accounts = record { store = empty_store; changes = 0 }; db = finished_db }

abbrev registered_all : String → Result (Unit {0})
registered_all ref = ok tt

abbrev credited_reading : TaskObservation
credited_reading = record a_reading {
  workflow_ref = some "team/health@1";
  verification_basis = Basis.workflow_evidence;
}

abbrev an_import : ImportResult
an_import = record { observation = credited_reading; changed = true }

abbrev after_import : Imports
after_import =
    (ingest (local_port a_host registered_all) a_configuration a_request 50 "t9" before_import).1

imported :
    ingest (local_port a_host registered_all) a_configuration a_request 50 "t9" before_import
    ≡ (ok an_import, after_import)
unfolding ingest read owlmatic.Ledger.find_row
imported = refl

ingest-credit_example :
    (is_empty credited_reading.run_ids ≡ false)
    × (credited_reading.verification_basis ≡ Basis.workflow_evidence)
    × All (λ id. IsBacked id after_import.db) credited_reading.run_ids
ingest-credit_example =
    ingest-credit a_host registered_all a_configuration a_request 50 "t9" before_import after_import
      an_import imported refl refl

feed-excluded_example :
    IsSelected (no_events false true) (feed no_repr a_turn 3 false (no_events false true)).1
feed-excluded_example = feed-excluded no_repr a_turn 3 (no_events false true)

unhashable_type : (feed no_repr listed_type 3 true (no_events false false)).0 ≡ err unexpected
unhashable_type =
    feed-unhashable no_repr listed_type 3 nil (no_events false false) (unfold get in refl)

a_usage-IsUsage : IsUsage a_usage
a_usage-IsUsage = record { input = ground arith; output = ground arith }

total-ok_example :
    (total (a_usage ∷ a_usage ∷ []) ≡ ok (some (total_of (a_usage ∷ a_usage ∷ []))))
    × IsUsage (total_of (a_usage ∷ a_usage ∷ []))
total-ok_example = total-ok a_usage (a_usage ∷ []) (a_usage-IsUsage, (a_usage-IsUsage, tt))

abbrev later_usage : TokenUsage
later_usage = record a_usage { input_tokens = 25; output_tokens = 5 }

abbrev spent : TokenUsage
spent = record a_usage { input_tokens = 15; output_tokens = 0 }

spent_since : difference later_usage a_usage ≡ ok spent
unfolding difference
spent_since = refl

spent_is_valid : (15 + 10 ≡ 25) × (0 + 5 ≡ 5) × IsUsage spent
spent_is_valid = difference-ok later_usage a_usage spent spent_since
