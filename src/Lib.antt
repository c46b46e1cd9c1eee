-- ===== src/Lib.antt =====
-- Owlmatic: execution of reviewed workflows with verified evidence, and the accounting of what it
-- saves. An invocation is a run. A worker claims it in the ledger, executes the workflow under
-- supervision, verifies and redacts the evidence, and finishes the run in the ledger; recovery
-- settles it and gives back its lock. Statistics and measurements read the results; the export
-- sends the part of them that the user has agreed to share. All paths are below src/owlmatic.
--
-- - Domain: domain.py. Records and literal types; `Run` with its validator `consistent_state`,
--   `finish` and `summarized`. Errors: errors.py and the built-in exceptions that the code tells
--   apart; a call returns a `Result`. Message texts are constants of the code and are left out.
-- - Actions: services pass their state, and what was written before an error stays written; a
--   transaction of infrastructure/sqlite.py `connect` is rolled back by an error.
-- - Ledger: infrastructure/run_repository.py. Tables is the two tables and their statements,
--   Operations one function per method; History is any sequence of operations by any processes.
--   A transaction reads the clock once: its instant is an argument, in whole microseconds.
-- - Redaction: supervisor.py `clean_evidence`, policy.py `has_secret`; Texts and Json are the
--   operations on texts (lists of code points) and the JSON values that they use.
-- - Policy: policy.py, over an interface for the settings, the bundles, the schemas and the host.
-- - Evidence: verification.py. The schema validator is a parameter.
-- - Recovery: recovery_service.py over the Ledger; `Artifacts` is the interface of the store, and
--   `idle` says which activity locks are free.
-- - Supervision: supervisor.py. Attempt is `_execute`, with the answers of its ports as a record;
--   Execution is `execute`, with what the ledger sees meanwhile as a history.
-- - Execution: execution_service.py; the polls of `wait` up to its deadline are given as a list.
-- - Measurement: measurement/contracts.py, measurement/estimation.py (Comparison, Estimation),
--   infrastructure/measurement/repository.py (Repository, Tables), and measurement/service.py
--   (Service; Import is `ingest`, `record_emission` and `watch`, over the repository and the Ledger).
-- - Host: infrastructure/measurement. Decoding is decoding.py; Entries, Feeding and Claude are
--   host_events.py; Lines, History and Reading are history.py. JSON parsing, digests, token counts
--   and Python's text of a value are fields of `HistoryPort`, which Measurement takes as its reader.
-- - Catalog: catalog_service.py (Service) over the settings of domain.py (Registry) and the workflow
--   tables of infrastructure/sqlite.py (Rows). Reading a source, parsing an URL, the rank of a row and
--   the size of an encoded result are fields of `CatalogPort`.
-- - Process: infrastructure/process_guardian.py (Guardian: what the guardian does to its process is a
--   list of effects), and infrastructure/process.py (Status is the protocol between guardian and
--   worker, Capture the loop over the streams). What the operating system answers in each turn of a
--   loop is given as a list of turns.
-- - Artifacts: infrastructure/logs.py (Logs) and the pages of infrastructure/files.py (Pages). What is
--   read is bytes; Texts.Utf8 is their decoding, with replacement characters as in Python.
-- - Statistics: statistics.py, statistics_service.py and infrastructure/statistics.py (Storage).
-- - Export: export_contracts.py, export_projection.py, export_state.py, export_service.py,
--   observability_config.py and failures.py; Configuring is the stored configuration of
--   infrastructure/export_store.py. Digests and encoded sizes are functions of `Encoding`, YAML is
--   `YamlPort`.
-- - Tests: concrete inputs, and the theorems applied to them.
--
-- Texts that the code only compares are `String`, those that it searches are `Text`. Limits on the
-- length of texts (except in `check_lengths`), the patterns of names, and numbers beyond whole ones
-- are not modelled. Numbers are unbounded, as in Python; those that the code
-- lets fall below zero are `ℤ`. Nearly every loop is over a list. `digits` writes a number with as much
-- fuel as the number itself, which has no more digits than that; `read_lines` takes its limit, 1 MiB
-- and a byte, from the source; `follow`, which asks for page after page, has fuel that the theorem on
-- it bounds by the length of the artifact.
--
-- Not modelled: the command line, the MCP server and the dashboard; signals, the start of processes
-- and file locks; git, HTTP and files behind the ports; the migration of the database; full-text
-- search. The watcher that exports after a workflow is left for later.
pub mod Prelude
pub mod Errors
pub mod Json
pub mod Actions
pub mod Texts
pub mod Domain
pub mod Redaction
pub mod Catalog
pub mod Policy
pub mod Evidence
pub mod Ledger
pub mod Recovery
pub mod Process
pub mod Supervision
pub mod Execution
pub mod Measurement
pub mod Artifacts
pub mod Host
pub mod Statistics
pub mod Export
pub mod Tests
