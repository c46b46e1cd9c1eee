-- ===== src/Host/Completeness.antt =====
-- infrastructure/measurement/history.py: what a complete observation says of its file.
use owlmatic.Prelude.{
  ℕ, ◌+◌, ◌*◌, ◌≡◌, refl, Bool, true, false, ◌&&◌, not, Text, is_none, ◌∙◌, ◌++◌, List, [], ◌∷◌,
  length, arith, is_empty, ltb, leb, Bool-cases, inl, inr, if◌then◌else◌,
}
use owlmatic.Errors.{Result, ok, err, Result-cases}
use owlmatic.Measurement.{
  ImportRequest, Issue, usage_counter_regressed, multiple_tasks_select_line_range,
  task_boundary_unavailable, mixed_models, model_override_conflict, provider_usage_unavailable,
  model_unavailable,
}
use owlmatic.Host.Entries.{flag, Events, add_issue}
use owlmatic.Host.Claude.{feed}
use owlmatic.Host.Lines.{}
use owlmatic.Host.History.{
  read_events, consumption, HistoryPort, after_feed, feed_parsed, feed_raw, is_past,
}
use owlmatic.Host.Reading.{known, model_of, has_many, is_override, check_events, is_err}
use owlmatic.Host.Issues.{HasIssue, feed-HasIssue}

-- Every line up to the last selected one is decoded as an object.
unfoldable pub decodes : HistoryPort → ImportRequest → ℕ → List Text → Bool
decodes port request line [] = true
decodes port request line (raw ∷ lines) = elim (is_past request.last_line line) [
  | true ↦ true
  | false ↦ not (is_err (port.parse raw)) && decodes port request (line + 1) lines
]

module _ (port : HistoryPort) where
  after_feed-HasIssue :
      (r : Result (Unit {0})) (e e' : Events)
      → after_feed port (r, e) ≡ ok e'
      → HasIssue e
      → HasIssue e'
  unfolding after_feed add_issue
  after_feed-HasIssue r e e' h p = ground arith

  feed_raw-HasIssue :
      (raw : Text) (line : ℕ) (included : Bool) (e e' : Events)
      → feed_raw port raw line included e ≡ ok e'
      → HasIssue e
      → HasIssue e'
  unfolding feed_raw feed_parsed
  feed_raw-HasIssue raw line included e e' h p = elim (Result-cases (port.parse raw)) [
    | inr (x, bad) ↦ after_feed-HasIssue (err x) e e' (ground arith) p
    | inl (event, good) ↦
        let (r, s) = feed port.repr event line included e in
        after_feed-HasIssue r s e' (ground arith) (feed-HasIssue port.repr event line included e p)
  ]

  feed_raw-decoded :
      (raw : Text) (line : ℕ) (included : Bool) (e e' : Events)
      → feed_raw port raw line included e ≡ ok e'
      → is_empty e'.issues ≡ true
      → is_err (port.parse raw) ≡ false
  unfolding feed_raw feed_parsed after_feed add_issue
  feed_raw-decoded raw line included e e' h clean = elim (Result-cases (port.parse raw)) [
    | inr (x, bad) ↦ absurd (ground arith)
    | inl (event, good) ↦ rw good refl
  ]

  -- The first line that is in reach.
  read_events-within :
      (request : ImportRequest) (line : ℕ) (raw : Text) (lines : List Text) (e : Events)
      (hashed : List Text) (result : Events × List Text)
      → is_past request.last_line line ≡ false
      → read_events port request line (raw ∷ lines) e hashed ≡ ok result
      → (fed : Events) × (later : List Text) × (feed_raw port raw line
            (leb request.first_line line)
            e
          ≡ ok fed)
        × (read_events port request (line + 1) lines fed later ≡ ok result)
  unfolding read_events
  read_events-within request line raw lines e hashed result within h =
      elim (Bool-cases (ltb (1024 * 1024) (length raw))) [
        | inl large ↦ absurd (ground arith)
        | inr small ↦ elim (Result-cases (feed_raw port raw line (leb request.first_line line) e)) [
          | inr (x, bad) ↦ absurd (ground arith)
          | inl (fed, done) ↦ (
            fed,
            if leb request.first_line line then hashed ++ raw ∷ [] else hashed,
            done,
            ground arith,
          )
        ]
      ]

  read_events-HasIssue :
      (request : ImportRequest) (line : ℕ) (lines : List Text) (e : Events) (hashed : List Text)
      (result : Events × List Text)
      → read_events port request line lines e hashed ≡ ok result
      → HasIssue e
      → HasIssue result.0
  read_events-HasIssue request line [] e hashed result h p = unfold read_events in ground (arith, p)
  read_events-HasIssue request line (raw ∷ lines) e hashed result h p =
      elim (Bool-cases (is_past request.last_line line)) [
        | inl past ↦ unfold read_events in ground (arith, p)
        | inr within ↦
            let (fed, later, done, rest) =
              read_events-within request line raw lines e hashed result within h in
            read_events-HasIssue request (line + 1) lines fed later result rest
              (feed_raw-HasIssue raw line (leb request.first_line line) e fed done p)
      ]

  pub read_events-decodes :
      (request : ImportRequest) (line : ℕ) (lines : List Text) (e : Events) (hashed : List Text)
      (result : Events × List Text)
      → read_events port request line lines e hashed ≡ ok result
      → is_empty result.0.issues ≡ true
      → decodes port request line lines ≡ true
  unfolding decodes
  read_events-decodes request line [] e hashed result h clean = refl
  read_events-decodes request line (raw ∷ lines) e hashed result h clean =
      elim (Bool-cases (is_past request.last_line line)) [
        | inl past ↦ rw (past, decodes) refl
        | inr within ↦
            let (fed, later, done, rest) =
              read_events-within request line raw lines e hashed result within h in
            let good : is_empty fed.issues ≡ true = elim (Bool-cases (is_empty fed.issues)) [
              | inl e ↦ e
              | inr noted ↦ absurd (
                  ground (
                    arith,
                    read_events-HasIssue request (line + 1) lines fed later result rest noted,
                  ))
            ] in
            rw
              (
                within,
                feed_raw-decoded raw line (leb request.first_line line) e fed done good,
                decodes,
              )
              (read_events-decodes request (line + 1) lines fed later result rest clean)
      ]

flag-clean :
    (b : Bool) (i : Issue) (e : Events)
    → is_empty (flag b i e).issues ≡ true
    → (b ≡ false) × (is_empty e.issues ≡ true) × (flag b i e ≡ e)
unfolding flag add_issue
flag-clean true i e h = absurd (ground arith)
flag-clean false i e h = (refl, h, refl)

-- The checks after the last line found nothing.
pub check_events-clean :
    (request : ImportRequest) (e : Events)
    → is_empty (check_events request e).issues ≡ true
    → (is_empty e.issues ≡ true)
      × (check_events request e ≡ e)
      × (is_none (known (consumption e)) ≡ false)
      × (is_none (model_of e.models request.model) ≡ false)
      × (ltb 1 e.human_prompts ≡ false)
      × (has_many e.models ≡ false)
unfolding check_events
check_events-clean request e h =
    let used = consumption e in
    let s1 = flag (is_err used) usage_counter_regressed e in
    let s2 = flag (ltb 1 e.human_prompts) multiple_tasks_select_line_range s1 in
    let s3 = flag (ltb 1 request.first_line && not e.started) task_boundary_unavailable s2 in
    let s4 = flag (has_many e.models) mixed_models s3 in
    let s5 = flag (is_override e.models request.model) model_override_conflict s4 in
    let s6 = flag (is_none (known used)) provider_usage_unavailable s5 in
    let no_model = is_none (model_of e.models request.model) in
    let (model, h1, e1) = flag-clean no_model model_unavailable s6 h in
    let (unused, h2, e2) = flag-clean (is_none (known used)) provider_usage_unavailable s5 h1 in
    let (over, h3, e3) =
      flag-clean (is_override e.models request.model) model_override_conflict s4 h2 in
    let (many, h4, e4) = flag-clean (has_many e.models) mixed_models s3 h3 in
    let (start, h5, e5) =
      flag-clean (ltb 1 request.first_line && not e.started) task_boundary_unavailable s2 h4 in
    let (prompts, h6, e6) =
      flag-clean (ltb 1 e.human_prompts) multiple_tasks_select_line_range s1 h5 in
    let (regressed, h7, e7) = flag-clean (is_err used) usage_counter_regressed e h6 in
    (h7, e1 ∙ e2 ∙ e3 ∙ e4 ∙ e5 ∙ e6 ∙ e7, unused, model, prompts, many)
