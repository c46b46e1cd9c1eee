-- ===== src/Tests/LedgerTests.antt =====
-- The ledger at concrete inputs.
use owlmatic.Prelude.{◌≢◌, String, Option, ◌≡◌, refl, true, false, some, arith, [], ◌∷◌}
use owlmatic.Errors.{ok, err, owl, lease_lost}
use owlmatic.Domain.{Run, is_running, completed_run, finish as complete, consistent_state}
use owlmatic.Ledger.{
  Row, Db, create, claim_row, heartbeat, finish, get, lost, find_row, lock_owner, settled,
  is_pending, run_at, lease, claim,
}
use owlmatic.Ledger
use owlmatic.Ledger.Leases.{finish_authorised, expired_lease}
use owlmatic.Ledger.Finality.{IsFinal, replay-IsFinal}
use owlmatic.Ledger.Locks.{perform-Holds}
use owlmatic.Ledger.History.{Event, Operation, perform, replay, empty}
use owlmatic.Ledger.History
use owlmatic.Tests.Samples.{a_run, done_run, claimed_row, claimed_db, finished_row, finished_db}

finish_claimed : finish done_run (some "alice") 200 claimed_db ≡ ok (tt, finished_db)
unfolding finish find_row Ledger.update_row
finish_claimed = refl

-- Another worker cannot complete the run.
finish_stranger : finish done_run (some "bob") 200 claimed_db ≡ err (owl lease_lost)
unfolding finish find_row Ledger.update_row
finish_stranger = refl

finish_authorised_example : finished_db.locks ≡ claimed_db.locks
finish_authorised_example =
    (finish_authorised done_run (some "alice") 200 claimed_db finished_db finish_claimed).8

expired_lease_example :
    (heartbeat "run_1" "alice" 40000000 claimed_db ≡ err (owl lease_lost))
    × ((Ledger.claim "run_1" "alice" 40000000 "t9" claimed_db).0 ≡ err (owl lease_lost))
    × ((r : Row) × (find_row "run_1" (Ledger.claim "run_1" "alice" 40000000 "t9" claimed_db).1.rows
          ≡ some r)
        × (is_running r.run.state ≡ false))
    × ((run : Run) (by : Option String) (db' : Db)
        → run.run_id ≡ "run_1"
        → finish run by 40000000 claimed_db ≢ ok (tt, db'))
expired_lease_example =
    expired_lease claimed_row "alice" 40000000 "t9" claimed_db (unfold find_row in refl)
      (omega arith) refl

-- The sequence create, get after the lease, settle at work.
replay_example_run :
    run_at "run_1" (
      replay
        (record {
          now = 0;
          iso = "t0";
          operation = History.create a_run (some "req") "f" (some "k");
        }
          ∷ record { now = 40000000; iso = "t2"; operation = History.get "run_1" }
          ∷ record { now = 40000001; iso = "t3"; operation = History.settled "run_1" false }
          ∷ [])
        empty)
    ≡ some (completed_run a_run (lost a_run "t2"))
unfolding replay create get complete consistent_state find_row settled Ledger.find_request
    lock_owner Ledger.update_row
replay_example_run = refl

finished-IsFinal : IsFinal "run_1" done_run finished_db
unfolding find_row
finished-IsFinal = record { row = finished_row; found = refl; same = refl; over = refl }

replay-IsFinal_example :
    IsFinal "run_1" done_run
      (replay (record { now = 300; iso = "t3"; operation = History.get "run_1" } ∷ []) finished_db)
replay-IsFinal_example =
    replay-IsFinal "run_1" done_run
      (record { now = 300; iso = "t3"; operation = History.get "run_1" } ∷ []) finished_db
      ((λ e. cc), tt) finished-IsFinal

perform-Holds_example :
    lock_owner "k" (perform 300 "t3" (History.settled "run_1" true) claimed_db).locks ≡ some "run_1"
unfolding find_row lock_owner
perform-Holds_example =
    perform-Holds "k" "run_1" 300 "t3" (History.settled "run_1" true) claimed_row claimed_db refl
      refl refl
