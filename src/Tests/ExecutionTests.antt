-- ===== src/Tests/ExecutionTests.antt =====
-- One execution at concrete inputs.
use owlmatic.Prelude.{ℕ, ◌≡◌, refl, [], ◌∷◌, none, false}
use owlmatic.Errors.{ok}
use owlmatic.Ledger.{Db, Row, find_row, update_row, claim_row}
use owlmatic.Ledger
use owlmatic.Ledger.History
use owlmatic.Ledger.History.{replay}
use owlmatic.Recovery.{World, finalize}
use owlmatic.Supervision.{Shift, execute}
use owlmatic.Supervision.Stored.{IsStored, execute-IsStored}
use owlmatic.Tests.Samples.{claimed_row, claimed_db}
use owlmatic.Tests.EvidenceTests.{a_job, good_ports, good_result, good_job}
use owlmatic.Tests.RecoveryTests.{some_files, is_idle}

-- The worker sends one heartbeat during the attempt.
abbrev a_shift : Shift
a_shift = record {
  held = ok tt;
  owner = "alice";
  claimed_at = 100;
  claimed_iso = "t0";
  meanwhile = record { now = 150; iso = "t0"; operation = History.heartbeat "run_1" "alice" } ∷ [];
  finished_at = 200;
  finalized_at = 300;
  finalized_iso = "t2";
}

abbrev new_world : World ℕ
new_world = record {
  db = record claimed_db { rows = record claimed_row { owner = none } ∷ [] };
  files = 0;
}

abbrev final_world : World ℕ
final_world = record {
  db = record {
    rows =
        record claimed_row { run = good_result; heartbeat = 200; owner = none; pending = false }
        ∷ [];
    locks = [];
  };
  files = 2;
}

executed :
    execute some_files is_idle good_ports a_shift a_job new_world ≡ (ok good_result, final_world)
unfolding execute Ledger.claim find_row Ledger.finish replay Ledger.heartbeat update_row finalize
    Ledger.is_pending Ledger.settled Ledger.release_locks
executed = rw good_job refl

execute-IsStored_example : IsStored good_ports a_job a_shift good_result new_world.db final_world.db
execute-IsStored_example =
    execute-IsStored some_files is_idle good_ports a_shift a_job new_world final_world good_result
      executed
