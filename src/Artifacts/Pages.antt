-- ===== src/Artifacts/Pages.antt =====
-- infrastructure/files.py `FileArtifacts.page`, and `inspect` of execution_service.py beyond its wait.
use owlmatic.Prelude.{
  ℕ, ◌+◌, ◌-◌, ◌/◌, Bool, not, String, Text, Option, none, some, List, [], take, drop, select, max,
  ltb, length, ◌==◌, if◌then◌else◌,
}
use owlmatic.Errors.{Result, ok, err, owl, invalid_view, symlink}
use owlmatic.Texts.{decode}
use owlmatic.Domain.{Run, State, Outcome, Failure, Check, CheckStatus, Evidence, status_eq}

pub data View : Type 0 where
  status failures logs evidence result diagnostic : View

pub record InspectRequest : Type 0 where
  pub run_id : String
  pub view : View
  pub cursor : ℕ
  pub max_bytes : ℕ

pub record Page : Type 0 where
  pub run_id : String
  pub view : View
  pub text : Text
  pub next_cursor : Option ℕ

pub record FailureReport : Type 0 where
  pub run_id : String
  pub state : State
  pub outcome : Outcome
  pub error : Option Failure
  pub checks : List Check
  pub more : Bool

-- A path: nothing is there, a link, or a file with its bytes.
pub data Artifact : Type 0 where
  absent link : Artifact
  file : Text → Artifact

abbrev pub artifact_name : View → Option String
artifact_name View.logs = some "events.jsonl"
artifact_name View.evidence = some "evidence.json"
artifact_name View.result = some "result.json"
artifact_name View.diagnostic = some "diagnostic.json"
artifact_name View.status = none
artifact_name View.failures = none

abbrev pub page_bytes : ℕ → ℕ
page_bytes max_bytes = max 1 ((max_bytes - 160) / 6)

-- next_cursor if next_cursor < size else None
abbrev pub cursor_before : ℕ → ℕ → Option ℕ
cursor_before next size = if ltb next size then some next else none

unfoldable pub page_of : InspectRequest → Artifact → Result Page
unfolding decode
page_of r absent = ok (record { run_id = r.run_id; view = r.view; text = []; next_cursor = none })
page_of r link = err (owl symlink)
page_of r (file content) =
    let bytes = take (page_bytes r.max_bytes) (drop r.cursor content) in
    ok (record {
      run_id = r.run_id;
      view = r.view;
      text = decode bytes;
      next_cursor = cursor_before (r.cursor + length bytes) (length content);
    })

unfoldable pub named_page : InspectRequest → (String → Artifact) → Option String → Result Page
unfolding page_of
named_page r artifacts none = err (owl invalid_view)
named_page r artifacts (some name) = page_of r (artifacts name)

-- `artifacts` are the files in the directory of the run.
unfoldable pub page : InspectRequest → (String → Artifact) → Result Page
unfolding named_page
page r artifacts = named_page r artifacts (artifact_name r.view)

abbrev pub failed_checks : Option Evidence → List Check
failed_checks none = []
failed_checks (some e) = select (λ c. not (c.status == CheckStatus.pass)) e.checks

unfoldable pub failure_report : Run → Option Evidence → FailureReport
failure_report r reported = record {
  run_id = r.run_id;
  state = r.state;
  outcome = r.outcome;
  error = r.error;
  checks = take 8 (failed_checks reported);
  more = ltb 8 (length (failed_checks reported));
}
