-- ===== src/Tests/RecoveryTests.antt =====
-- Recovery at concrete inputs.
use owlmatic.Prelude.{ℕ, suc, ◌≡◌, ◌≢◌, refl, Bool, true, false, String, some, [], ◌∷◌}
use owlmatic.Errors.{ok, err, os_error, cleanup_pending}
use owlmatic.Domain.{is_running}
use owlmatic.Ledger.{Row, Db, release_locks, lock_owner, find_row}
use owlmatic.Ledger
use owlmatic.Recovery.{Artifacts, World, finalize, reconcile}
use owlmatic.Recovery.Settling.{settled_db, finalize-clean, reconcile-ok}
use owlmatic.Recovery.Repeating.{IsDone, finalize-IsDone}
use owlmatic.Tests.Samples.{finished_row, finished_db, done_run}

-- Files are counted: one for the result, one for the scrubbed inputs.
abbrev pub some_files : Artifacts ℕ
some_files = record { save_result = λ run n. (ok tt, suc n); scrub_inputs = λ id n. (ok tt, suc n) }

abbrev bad_files : Artifacts ℕ
bad_files = record some_files { scrub_inputs = λ id n. (err os_error, n) }

abbrev pub is_idle : String → Bool
is_idle id = true

abbrev a_world : World ℕ
a_world = record { db = finished_db; files = 0 }

finished : finalize some_files is_idle "run_1" 300 "t3" a_world ≡ (
  ok (record { run_id = "run_1"; pending = false; active = false; errors = [] }),
  record { db = settled_db "run_1" done_run finished_db; files = 2 },
)
finished =
    finalize-clean some_files is_idle "run_1" 300 "t3" finished_row a_world 1 2 refl
      (unfold find_row in refl) refl refl refl refl

finalize-IsDone_example :
    IsDone some_files is_idle "run_1" finished_row a_world
      (finalize some_files is_idle "run_1" 300 "t3" a_world)
finalize-IsDone_example =
    finalize-IsDone some_files is_idle "run_1" finished_row a_world 300 "t3" refl
      (unfold find_row in refl) refl (λ f. refl) (λ f. refl)

abbrev settled_row : Row
settled_row = record finished_row { pending = false }

abbrev settled_world : World ℕ
settled_world = record { db = record { rows = settled_row ∷ []; locks = [] }; files = 2 }

-- A failing cleanup leaves the run pending, with its lock.
kept_pending : finalize bad_files is_idle "run_1" 300 "t3" a_world ≡ (
  ok (record {
    run_id = "run_1";
    pending = true;
    active = false;
    errors = record { code = cleanup_pending } ∷ [];
  }),
  record { db = finished_db; files = 1 },
)
unfolding finalize find_row Ledger.get Ledger.is_expired Ledger.is_pending
kept_pending = refl

reconciled : reconcile some_files is_idle "run_1" 300 "t3" a_world ≡ (ok tt, settled_world)
unfolding reconcile Ledger.release_lock find_row Ledger.update_row release_locks
reconciled = rw finished refl

reconcile-ok_example :
    (row : Row) × (find_row "run_1" settled_world.db.rows ≡ some row)
    × (is_running row.run.state ≡ false)
    × (row.pending ≡ false)
    × ((key : String) → lock_owner key settled_world.db.locks ≢ some "run_1")
reconcile-ok_example =
    reconcile-ok some_files is_idle "run_1" 300 "t3" a_world settled_world reconciled
