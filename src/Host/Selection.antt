-- ===== src/Host/Selection.antt =====
-- infrastructure/measurement/history.py `LocalHistory.read`: what an observation was made from.
use owlmatic.Prelude.{
  ℕ, ◌+◌, ◌*◌, ◌≡◌, ◌≤◌, String, ap, sym, ◌∙◌, true, false, Text, some, is_some, List, [], length,
  arith, is_empty, ltb, Bool-cases, Option-cases, inl, inr, select,
}
use owlmatic.Errors.{ok, Result-cases}
use owlmatic.Measurement.{ImportRequest, TaskObservation, Exposure, has_issue}
use owlmatic.Host.Entries.{Events, no_events, values_of}
use owlmatic.Host.Lines.{read_lines}
use owlmatic.Host.History.{consumption, HistoryPort, identify_runs, read_events}
use owlmatic.Host.Reading.{
  model_of, import_issues, known, check_events, check_lengths, is_claude, observation, observe,
  observe_all, read_file, read,
}
use owlmatic.Host.Completeness.{decodes, read_events-decodes, check_events-clean}

abbrev pub limit : ℕ
limit = 1024 * 1024 + 1

-- The events of a file, and the observation that was made from them.
pub record IsReading (port : HistoryPort) (request : ImportRequest) (at : ℕ) (t : TaskObservation)
    : Type 0 where
  pub content : Text
  pub events : Events
  pub hashed : List Text
  pub runs : List Text
  pub counts : Exposure
  pub found : port.file (port.resolve request.session) ≡ some content
  pub small : ltb (32 * 1024 * 1024) (length content) ≡ false
  pub fed :
      read_events port request 1
        (read_lines limit limit content)
        (no_events (is_claude request.host) (ltb 1 request.first_line))
        []
      ≡ ok (events, hashed)
  pub same :
      observation port request at
        (port.resolve request.session)
        (check_events request events)
        (known (consumption events))
        runs
        hashed
        counts
      ≡ t

module _ (port : HistoryPort) (request : ImportRequest) (at : ℕ) where
  check_lengths-ok : (t t' : TaskObservation) → check_lengths t ≡ ok t' → t ≡ t'
  check_lengths-ok t t' h = ground arith

  observe-ok :
      (path : String) (e : Events) (hashed : List Text) (t : TaskObservation)
      → observe port request at path e hashed ≡ ok t
      → (runs : List Text) × (counts : Exposure) × (observation port request at path
            (check_events request e)
            (known (consumption e))
            runs
            hashed
            counts
          ≡ t)
  unfolding observe
  observe-ok path e hashed t h =
      elim (Result-cases (identify_runs port (values_of e.outputs) e.run_ids)) [
        | inr (x, bad) ↦ absurd (ground arith)
        | inl (runs, identified) ↦ elim (Result-cases (port.count (values_of e.outputs))) [
          | inr (x, bad) ↦ absurd (ground arith)
          | inl (counts, counted) ↦ (runs, counts, check_lengths-ok _ t (ground arith))
        ]
      ]

  pub read-ok : (t : TaskObservation) → read port request at ≡ ok t → IsReading port request at t
  unfolding read read_file observe_all
  read-ok t h = elim (Option-cases (port.file (port.resolve request.session))) [
    | inl absent ↦ absurd (ground arith)
    | inr (content, there) ↦ elim (Bool-cases (ltb (32 * 1024 * 1024) (length content))) [
      | inl large ↦ absurd (ground arith)
      | inr small ↦
          elim (Result-cases (
            read_events port request 1 (read_lines limit limit content)
              (no_events (is_claude request.host) (ltb 1 request.first_line)) [])) [
                | inr (x, bad) ↦ absurd (ground arith)
                | inl ((e, hashed), fed) ↦
                    let (runs, counts, same) =
                      observe-ok (port.resolve request.session) e hashed t (ground arith) in
                    record {
                      content = content;
                      events = e;
                      hashed = hashed;
                      runs = runs;
                      counts = counts;
                      found = there;
                      small = small;
                      fed = fed;
                      same = same;
                    }
              ]
    ]
  ]

  -- An observation that is reported complete has no issue, a known consumption and a known model;
  -- its file is there and is at most 32 MiB large; every line up to the last selected one was decoded
  -- as an object; at most one prompt was given in the selected lines, by one model at most, and the
  -- events of the host end in a completed turn.
  pub read-complete :
      (t : TaskObservation)
      → read port request at ≡ ok t
      → t.complete ≡ true
      → (t.issues ≡ [])
        × (is_some t.usage ≡ true)
        × (is_some t.model ≡ true)
        × (content : Text) × (port.file (port.resolve request.session) ≡ some content)
        × (length content ≤ 32 * 1024 * 1024)
        × (decodes port request 1 (read_lines limit limit content) ≡ true)
        × (e : Events) × (hashed : List Text) × (read_events port request 1
              (read_lines limit limit content)
              (no_events (is_claude request.host) (ltb 1 request.first_line))
              []
            ≡ ok (e, hashed))
        × (e.human_prompts ≤ 1)
        × (length e.models ≤ 1)
        × (e.complete ≡ true)
  unfolding observation
  read-complete t h complete =
      let r = read-ok t h in
      let e = r.events in
      let clean : is_empty (check_events request e).issues ≡ true = ground (arith, r.same) in
      let (quiet, kept, used, model, prompts, models) = check_events-clean request e clean in
      let some_model : is_some (model_of e.models request.model) ≡ true = ground arith in
      let ended : e.complete ≡ true =
        ap (λ (x : Events). x.complete) (sym kept) ∙ ground (arith, r.same) in
      let none_there : (check_events request e).issues ≡ [] = ground arith in
      (
        ap (λ (x : TaskObservation). x.issues) (sym r.same)
            ∙ ap (λ issues. select (has_issue issues) import_issues) none_there,
        ground (arith, r.same),
        ap (λ (x : TaskObservation). is_some x.model) (sym r.same)
            ∙ ap (λ (x : Events). is_some (model_of x.models request.model)) kept
            ∙ some_model,
        r.content,
        r.found,
        ground (arith, r.small),
        read_events-decodes port request 1 (read_lines limit limit r.content) _ [] (e, r.hashed)
            r.fed quiet,
        e,
        r.hashed,
        r.fed,
        ground arith,
        ground arith,
        ended,
      )
