-- ===== src/Host/History.antt =====
-- infrastructure/measurement/history.py `LocalHistory.read`, with `Events.identify_runs` and
-- `Events.consumption`. Parsing, hashing and token counting are not under the repository.
use owlmatic.Prelude.{
  ℕ, ◌+◌, ◌-◌, ◌*◌, Bool, true, false, ◌&&◌, String, Text, Option, none, some, List, [], ◌∷◌, ◌++◌,
  ltb, leb, length, codes, text_eq, if◌then◌else◌,
}
use owlmatic.Errors.{
  is_decoding_error, Result, ok, err, value_error, raise_if, history_limit, ◌>>=◌, ◌>>◌,
}
use owlmatic.Json.{Value, Fields}
use owlmatic.Texts.{starts_with}
use owlmatic.Measurement.{
  HostName, TokenUsage, subsets, Exposure, ImportRequest, invalid_or_partial_event,
}
use owlmatic.Host.Decoding.{get, object_value, text_value, total, is_text}
use owlmatic.Host.Entries.{Events, values_of, add_text, add_issue}
use owlmatic.Host.Claude.{feed}
use owlmatic.Host.Lines.{split_lines}

-- a - b, where a `TokenUsage` holds no negative number.
abbrev pub minus : ℕ → ℕ → Result ℕ
minus a b = if ltb a b then err value_error else ok (a - b)

abbrev pub minus_known : Option ℕ → Option ℕ → Result (Option ℕ)
minus_known none b = ok none
minus_known (some a) none = ok none
minus_known (some a) (some b) = do d ← minus a b; ok (some d)

unfoldable pub difference : TokenUsage → TokenUsage → Result TokenUsage
unfolding subsets
difference last first = do
  input ← minus last.input_tokens first.input_tokens
  output ← minus last.output_tokens first.output_tokens
  cached ← minus_known last.cached_input_tokens first.cached_input_tokens
  writes ← minus_known last.cache_write_input_tokens first.cache_write_input_tokens
  reasoning ← minus_known last.reasoning_output_tokens first.reasoning_output_tokens
  subsets (record {
    input_tokens = input;
    cached_input_tokens = cached;
    cache_write_input_tokens = writes;
    output_tokens = output;
    reasoning_output_tokens = reasoning;
  })

unfoldable pub since_initial : TokenUsage → Option TokenUsage → Result (Option TokenUsage)
unfolding difference
since_initial last none = ok (some last)
since_initial last (some first) = do u ← difference last first; ok (some u)

unfoldable pub consumed : Option TokenUsage → Events → Result (Option TokenUsage)
unfolding total values_of since_initial
consumed none e = total (values_of e.usages)
consumed (some last) e = since_initial last e.initial

unfoldable pub consumption : Events → Result (Option TokenUsage)
unfolding consumed
consumption e = consumed e.cumulative e

-- What the code does not define itself. `file` is none where the path is no regular file; the key
-- of a source is a digest of the host, of its path and, for `range_key`, of the selected lines.
pub record HistoryPort : Type 0 where
  pub resolve : String → String
  pub file : String → Option Text
  pub parse : Text → Result Fields
  pub parse_text : Text → Result Fields
  pub repr : Value → Text
  pub sha256 : List Text → String
  pub range_key : HostName → String → ℕ → Option ℕ → String
  pub file_key : HostName → String → String
  pub count : List Text → Result Exposure

-- run_id and run_id.startswith("run_")
unfoldable pub is_run_id : Option Text → Bool
unfolding starts_with
is_run_id none = false
is_run_id (some id) = starts_with (codes "run_") id

unfoldable pub add_run : Option Text → List Text → List Text
unfolding add_text
add_run none ids = ids
add_run (some id) ids = add_text id ids

unfoldable pub note_run : Fields → List Text → List Text
unfolding get object_value text_value add_run is_run_id is_text
note_run value ids =
    let run = object_value (get "run" value) in
    if is_run_id (text_value (get "run_id" run)) && is_text (get "workflow_ref" run)
    then add_run (text_value (get "run_id" run)) ids
    else ids

unfoldable pub note_parsed : Result Fields → List Text → Result (List Text)
unfolding note_run
note_parsed (ok value) ids = ok (note_run value ids)
note_parsed (err e) ids = if is_decoding_error e then ok ids else err e

abbrev pub is_past : Option ℕ → ℕ → Bool
is_past none line = false
is_past (some last) line = ltb last line

module _ (port : HistoryPort) where
  unfoldable pub runs_in_lines : List Text → List Text → Result (List Text)
  unfolding note_parsed
  runs_in_lines [] ids = ok ids
  runs_in_lines (line ∷ lines) ids = do
    found ← note_parsed (port.parse_text line) ids
    runs_in_lines lines found

  -- for output in self.outputs.values(): for line in output.splitlines(): ...
  unfoldable pub identify_runs : List Text → List Text → Result (List Text)
  unfolding split_lines runs_in_lines
  identify_runs [] ids = ok ids
  identify_runs (output ∷ outputs) ids = do
    found ← runs_in_lines (split_lines false output) ids
    identify_runs outputs found

  unfoldable pub after_feed : Result (Unit {0}) × Events → Result Events
  unfolding add_issue
  after_feed (ok _, e) = ok e
  after_feed (err x, e) =
      if is_decoding_error x then ok (add_issue invalid_or_partial_event e) else err x

  -- try: event = json_object(raw); events.feed(event, line, included) ...
  unfoldable pub feed_parsed : Result Fields → ℕ → Bool → Events → Result Events
  unfolding feed after_feed
  feed_parsed (err x) line included e = after_feed (err x, e)
  feed_parsed (ok event) line included e = after_feed (feed port.repr event line included e)

  unfoldable pub feed_raw : Text → ℕ → Bool → Events → Result Events
  unfolding feed_parsed
  feed_raw raw line included e = feed_parsed (port.parse raw) line included e

  -- The loop over the lines: the events, and the lines that were hashed.
  unfoldable pub read_events :
      ImportRequest → ℕ → List Text → Events → List Text → Result (Events × List Text)
  unfolding feed_raw
  read_events request line [] e hashed = ok (e, hashed)
  read_events request line (raw ∷ lines) e hashed = elim (is_past request.last_line line) [
    | true ↦ ok (e, hashed)
    | false ↦ do
      raise_if (ltb (1024 * 1024) (length raw)) history_limit
      let included = leb request.first_line line
      fed ← feed_raw raw line included e
      read_events request (line + 1) lines fed (if included then hashed ++ raw ∷ [] else hashed)
  ]
