-- ===== src/Host/Reading.antt =====
-- infrastructure/measurement/history.py `LocalHistory.read`: from the events to the observation.
use owlmatic.Prelude.{
  ℕ, ◌+◌, ◌*◌, Bool, true, false, ◌&&◌, ◌||◌, not, String, Text, Option, none, some, is_some,
  is_none, List, [], ◌∷◌, select, ltb, length, is_empty, truthy, codes, ◌==◌, text_eq,
  if◌then◌else◌,
}
use owlmatic.Prelude.Texts.{string_of}
use owlmatic.Errors.{Result, ok, err, owl, raise_if, reject_if, history_limit, ◌>>=◌, ◌>>◌}
use owlmatic.Measurement.{
  HostName, TaskPurpose, Basis, TokenUsage, Exposure, TaskObservation, ImportRequest, Issue,
  has_issue, insert_text, task_purpose_eq, usage_counter_regressed, invalid_or_partial_event,
  multiple_tasks_select_line_range, task_boundary_unavailable, mixed_models,
  model_override_conflict, provider_usage_unavailable, model_unavailable,
  tool_output_format_unavailable, session_summary_cannot_be_sliced, host_reported_error,
  message_identity_missing, nontext_tool_output, unsupported_partial_stream_format,
  subagent_usage_unattributed,
}
use owlmatic.Host.Entries.{Events, no_events, values_of, flag}
use owlmatic.Host.Lines.{read_lines}
use owlmatic.Host.History.{HistoryPort, consumption, identify_runs, read_events}

-- sorted(issues), of the names that the import can add
abbrev pub import_issues : List Issue
import_issues =
    host_reported_error ∷ invalid_or_partial_event ∷ message_identity_missing ∷ mixed_models
    ∷ model_override_conflict ∷ model_unavailable ∷ multiple_tasks_select_line_range
    ∷ nontext_tool_output ∷ provider_usage_unavailable ∷ session_summary_cannot_be_sliced
    ∷ subagent_usage_unattributed ∷ task_boundary_unavailable ∷ tool_output_format_unavailable
    ∷ unsupported_partial_stream_format ∷ usage_counter_regressed ∷ []

-- sorted(texts)
unfoldable pub sorted : List Text → List String
unfolding insert_text string_of
sorted [] = []
sorted (t ∷ texts) = insert_text (string_of t) (sorted texts)

abbrev pub known : Result (Option TokenUsage) → Option TokenUsage
known (ok u) = u
known (err x) = none

abbrev pub is_err {ℓ} : {A : Type ℓ} → Result A → Bool
is_err (ok a) = false
is_err (err x) = true

-- len(models) > 1
abbrev pub has_many : List Text → Bool
has_many models = ltb 1 (length models)

unfoldable pub model_of : List Text → Option String → Option String
unfolding string_of
model_of [] requested = requested
model_of (m ∷ []) requested = some (string_of m)
model_of (m ∷ n ∷ models) requested = requested

-- request.model and events.models and events.models != {request.model}
abbrev pub is_override : List Text → Option String → Bool
is_override models none = false
is_override [] (some requested) = false
is_override (m ∷ []) (some requested) = truthy (some requested) && not (m == codes requested)
is_override (m ∷ n ∷ models) (some requested) = truthy (some requested)

-- The checks after the last line.
unfoldable pub check_events : ImportRequest → Events → Events
unfolding flag consumption model_of
check_events request e =
    let used = consumption e in
    flag (is_none (model_of e.models request.model)) model_unavailable (
      flag (is_none (known used)) provider_usage_unavailable (
        flag (is_override e.models request.model) model_override_conflict (
          flag (has_many e.models) mixed_models (
            flag (ltb 1 request.first_line && not e.started) task_boundary_unavailable (
              flag (ltb 1 e.human_prompts) multiple_tasks_select_line_range
                (flag (is_err used) usage_counter_regressed e))))))

-- request.run_ids or tuple(sorted(events.run_ids)) if request.purpose == "reuse"
unfoldable pub runs_of : ImportRequest → List Text → List String
unfolding sorted
runs_of request found =
    if request.purpose == TaskPurpose.reuse && is_empty request.run_ids
    then sorted found
    else request.run_ids

abbrev pub longer : ℕ → Option String → Bool
longer limit none = false
longer limit (some s) = ltb limit (length (codes s))

-- The bounds of the fields that the request does not bound.
abbrev pub check_lengths : TaskObservation → Result TaskObservation
check_lengths t = do reject_if (longer 128 t.model || longer 512 t.workflow_ref); ok t

abbrev pub is_claude : HostName → Bool
is_claude HostName.claude = true
is_claude HostName.codex = false

module _ (port : HistoryPort) (request : ImportRequest) (observed_at : ℕ) where
  unfoldable pub observation :
      String → Events → Option TokenUsage → List Text → List Text → Exposure → TaskObservation
  unfolding model_of runs_of
  observation path e used found hashed counts =
      let complete = e.complete && is_some used && is_empty e.issues in
      record {
        task_id = request.task_id;
        host = request.host;
        model = model_of e.models request.model;
        purpose = request.purpose;
        workload = request.workload;
        workflow_ref = request.workflow_ref;
        run_ids = runs_of request found;
        verified = request.verified;
        verification_basis = if request.verified then Basis.user_attested else Basis.unverified;
        usage = used;
        complete = complete;
        exposure = record counts { complete = complete && not (is_empty e.outputs) };
        issues = select (has_issue e.issues) import_issues;
        source_digest = port.sha256 hashed;
        source_key = port.range_key request.host path request.first_line request.last_line;
        source_file_key = port.file_key request.host path;
        first_line = request.first_line;
        last_line = request.last_line;
        observed_at = observed_at;
      }

  -- From `try: consumption = ...` on.
  unfoldable pub observe : String → Events → List Text → Result TaskObservation
  unfolding check_events consumption values_of identify_runs observation
  observe path e hashed = do
    found ← identify_runs port (values_of e.outputs) e.run_ids
    counts ← port.count (values_of e.outputs)
    check_lengths
        (observation path (check_events request e) (known (consumption e)) found hashed counts)

  unfoldable pub observe_all : String → Events × List Text → Result TaskObservation
  unfolding observe
  observe_all path (e, hashed) = observe path e hashed

  unfoldable pub read_file : String → Option Text → Result TaskObservation
  unfolding read_lines read_events observe_all
  read_file path none = err (owl history_limit)
  read_file path (some content) = do
    raise_if (ltb (32 * 1024 * 1024) (length content)) history_limit
    seen ←
        read_events port request 1 (read_lines (1024 * 1024 + 1) (1024 * 1024 + 1) content)
          (no_events (is_claude request.host) (ltb 1 request.first_line)) []
    observe_all path seen

  -- `LocalHistory.read`
  unfoldable pub read : Result TaskObservation
  unfolding read_file
  read = read_file (port.resolve request.session) (port.file (port.resolve request.session))
