-- ===== src/Tests/ArtifactTests.antt =====
-- Pages of artifacts and the log at concrete inputs.
use owlmatic.Prelude.{
  true, ◌==◌, string_eq, if◌then◌else◌, ◌==◌, if◌then◌else◌, ℕ, ◌+◌, ◌≡◌, refl, false, String, Text,
  List, [], ◌∷◌, ◌++◌, drop, length, codes, arith,
}
use owlmatic.Texts.{decode, is_ascii}
use owlmatic.Errors.{ok}
use owlmatic.Process.{Stream}
use owlmatic.Redaction.{text_has_secret}
use owlmatic.Artifacts.{InspectRequest, View, Artifact, absent, file}
use owlmatic.Artifacts.Paging.{follow, follow-page}
use owlmatic.Artifacts.{Log, new_log, pending}
use owlmatic.Artifacts.Lossless.{logged, log_stream, joined_chunks, log_stream-absent}

abbrev a_result : Text
a_result = codes "[1,2,3]"

abbrev some_files : String → Artifact
some_files name = if name == "result.json" then file a_result else absent

-- A page of 172 bytes holds 2 of the file.
abbrev a_request : InspectRequest
a_request = record { run_id = "run_1"; view = View.result; cursor = 1; max_bytes = 172 }

follow-page_example : follow 7 a_request some_files ≡ drop 1 a_result
follow-page_example =
    follow-page 7 a_request some_files "result.json" a_result refl refl refl (ground arith)

abbrev line_size : Stream → Text → ℕ
line_size stream t = 40 + length t

abbrev a_log : Log
a_log = record {
  secrets = codes "hunter2" ∷ [];
  keep = 6;
  pending_stdout = [];
  pending_stderr = [];
  bytes_written = 0;
  limit = 200;
  lines = [];
}

made_log : new_log (codes "hunter2" ∷ codes "hunter2" ∷ []) 200 ≡ a_log
unfolding new_log
made_log = refl

abbrev some_chunks : List Text
some_chunks = codes "hunt " ∷ codes "er2 all day" ∷ []

abbrev the_log : Log
the_log = record a_log {
  bytes_written = 96;
  lines =
      record { stream = Stream.stdout; text = codes "hunt er2 a" }
      ∷ record { stream = Stream.stdout; text = codes "ll day" }
      ∷ [];
}

chunks_logged : log_stream line_size Stream.stdout some_chunks a_log ≡ (ok tt, the_log)
unfolding log_stream
chunks_logged = refl

chunks_clear :
    text_has_secret a_log.secrets (pending Stream.stdout a_log ++ joined_chunks some_chunks) ≡ false
unfolding text_has_secret joined_chunks
chunks_clear = refl

chunks_ascii : is_ascii (pending Stream.stdout a_log ++ joined_chunks some_chunks) ≡ true
unfolding joined_chunks
chunks_ascii = refl

log_stream-absent_example :
    logged Stream.stdout the_log.lines
    ≡ logged Stream.stdout a_log.lines ++ (pending Stream.stdout a_log ++ joined_chunks some_chunks)
log_stream-absent_example =
    log_stream-absent line_size Stream.stdout some_chunks a_log the_log chunks_logged chunks_clear
      chunks_ascii

-- A character of two bytes that a page cuts is lost.
cut_character : (decode (195 ∷ []) ≡ 65533 ∷ []) × (decode (195 ∷ 169 ∷ []) ≡ 233 ∷ [])
unfolding decode
cut_character = (refl, refl)
