-- ===== src/Tests/StartTests.antt =====
-- The execution service and the baselines at concrete inputs.
use owlmatic.Prelude.{inl, inr, ℕ, ◌≡◌, refl, true, none, [], ◌∷◌}
use owlmatic.Errors.{ok, err, owl, Error, execution_error}
use owlmatic.Execution.{Ports, Poll, RunSummary, abandon, remove_all}
use owlmatic.Execution.Starting.{HasRow, not_started, abandon-IsFinal, remove_all-HasRow}
use owlmatic.Ledger.{Db, Row, find_row, update_row, is_removable}
use owlmatic.Ledger
use owlmatic.Ledger.History.{replay}
use owlmatic.Ledger.Finality.{IsFinal}
use owlmatic.Measurement.{BaselineLink, Accounts, Registered, find_task, link, baseline}
use owlmatic.Recovery.{World}
use owlmatic.Tests.Samples.{a_run, claimed_row, claimed_db, done_run}
use owlmatic.Tests.EvidenceTests.{a_workflow}
use owlmatic.Tests.RecoveryTests.{some_files, is_idle}
use owlmatic.Tests.PolicyTests.{a_host}
use owlmatic.Tests.MeasurementTests.{two_tasks}

-- Every summary is too large.
abbrev large : RunSummary → ℕ
large s = 4000

abbrev bad_ports : Ports ℕ
bad_ports = record {
  workflow = λ ref. ok a_workflow;
  host = a_host;
  target = λ w e. a_run.target;
  fingerprint = λ r. "f";
  lock_digest = λ c i e v. "k";
  new_id = "run_1";
  launch = λ w r n. (err (owl execution_error), n);
  request_cancel = λ id n. (ok tt, n);
  remove = λ id n. (ok tt, n);
  artifacts = some_files;
  idle = is_idle;
}

abbrev created_world : World ℕ
created_world = record {
  db = record claimed_db { rows = record claimed_row { owner = none } ∷ [] };
  files = 0;
}

abbrev a_poll : Poll
a_poll = record { before = []; now = 120; iso = "t1" }

abbrev failed_db : Db
failed_db = record claimed_db {
  rows =
      record claimed_row {
        run = not_started a_run "t1";
        heartbeat = 120;
        owner = none;
        pending = true;
      }
      ∷ [];
}

accepted_failure :
    Ledger.finish (not_started a_run "t1") none 120 (replay [] created_world.db)
    ≡ ok (tt, failed_db)
unfolding Ledger.finish find_row update_row replay
accepted_failure = refl

abandon-IsFinal_example :
    IsFinal "run_1" (not_started a_run "t1") (abandon bad_ports a_run a_poll created_world).1.db
    × (e : Error) × ((abandon bad_ports a_run a_poll created_world).0 ≡ err e)
abandon-IsFinal_example =
    abandon-IsFinal bad_ports a_run a_poll created_world failed_db refl refl accepted_failure

-- The run is still active.
remove_all-HasRow_example :
    HasRow "run_1" claimed_row
      (remove_all bad_ports (done_run ∷ []) (record { db = claimed_db; files = 0 })).1
remove_all-HasRow_example =
    remove_all-HasRow bad_ports (done_run ∷ []) "run_1" claimed_row
      (record { db = claimed_db; files = 0 }) (unfold find_row in (refl, inr (inl refl)))

abbrev all_registered : Registered
all_registered ref = ok tt

abbrev accounts : Accounts
accounts = record { store = two_tasks; changes = 0 }

abbrev a_link : BaselineLink
a_link = record { workflow_ref = "team/health@1"; task_id = "m" }

abbrev linked_accounts : Accounts
linked_accounts = record { store = record two_tasks { baselines = a_link ∷ [] }; changes = 1 }

linked_baseline : baseline all_registered a_link accounts ≡ (ok tt, linked_accounts)
unfolding baseline find_task link
linked_baseline = refl
