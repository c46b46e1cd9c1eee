-- ===== src/Recovery/Settling.antt =====
-- recovery_service.py: what recovery does to a terminal run.
use owlmatic.Prelude.{
  ℕ, ◌≡◌, ◌≢◌, ◌⊎◌, inl, inr, Bool, true, false, not, String, some, [], if◌then◌else◌, arith,
  Option-cases,
}
use owlmatic.Errors.{ok}
use owlmatic.Domain.{Run, is_running, is_uncertain}
use owlmatic.Ledger.{
  Row, Db, find_row, update_row, release_locks, lock_owner, get, is_expired, settled, settle_row,
  is_pending, release_lock, release_row,
}
use owlmatic.Ledger.{lock_owner-release_self}
use owlmatic.Recovery.Service.{
  Artifacts, World, Report, project, finalize_idle, finalize, reconcile, settle_if,
}

-- The tables after a run has been settled.
abbrev pub settled_db : String → Run → Db → Db
settled_db id run db = record {
  rows = update_row id (λ _. true) (λ r. record r { pending = false }) db.rows;
  locks = if not (is_uncertain run.effects) then release_locks id db.locks else db.locks;
}

-- Either every step succeeded and the run is settled, or the tables are as before.
abbrev pub Settles : {F : Type 0} → String → Run → World F → Report → World F → Type 0
Settles id run w report w' =
    ((report.pending ≡ true) × (w'.db ≡ w.db))
    ⊎ ((report.pending ≡ false) × (w'.db ≡ settled_db id run w.db))

settled-terminal :
    (id : String) (release : Bool) (row : Row) (db : Db)
    → find_row id db.rows ≡ some row
    → is_running row.run.state ≡ false
    → settled id release db
      ≡ ok (
        tt,
        record {
          rows = update_row id (λ _. true) (λ r. record r { pending = false }) db.rows;
          locks = if release then release_locks id db.locks else db.locks;
        },
      )
unfolding settled
settled-terminal id release row db there over = rw (there, settled) (unfold settle_row in rw over)

get-terminal :
    (id : String) (now : ℕ) (iso : String) (row : Row) (db : Db)
    → find_row id db.rows ≡ some row
    → is_running row.run.state ≡ false
    → get id now iso db ≡ ok (row.run, db)
unfolding get is_expired
get-terminal id now iso row db there over = ground arith

release_lock-ok :
    (id : String) (db db' : Db)
    → release_lock id db ≡ ok (tt, db')
    → (row : Row) × (find_row id db'.rows ≡ some row)
      × (is_running row.run.state ≡ false)
      × (row.pending ≡ false)
      × (db'.locks ≡ release_locks id db.locks)
unfolding release_lock release_row
release_lock-ok id db db' h = elim (Option-cases (find_row id db.rows)) [
  | inl absent ↦ absurd (ground arith)
  | inr (row, there) ↦ (row, ground arith, ground arith, ground arith, ground arith)
]

module _ {F : Type 0} (artifacts : Artifacts F) where
  project-Settles :
      (id : String) (row : Row) (w w' : World F) (report : Report)
      → find_row id w.db.rows ≡ some row
      → is_running row.run.state ≡ false
      → project artifacts row.run id w ≡ (ok report, w')
      → Settles id row.run w report w'
  unfolding project
  project-Settles id row w w' report there over h =
      ground (arith, settled-terminal id (not (is_uncertain row.run.effects)) row w.db there over)

  finalize_idle-Settles :
      (id : String) (now : ℕ) (iso : String) (row : Row) (w w' : World F) (report : Report)
      → find_row id w.db.rows ≡ some row
      → is_running row.run.state ≡ false
      → row.pending ≡ true
      → finalize_idle artifacts id now iso w ≡ (ok report, w')
      → Settles id row.run w report w'
  unfolding finalize_idle
  finalize_idle-Settles id now iso row w w' report there over due h =
      project-Settles id row w w' report there over
        (unfold is_pending in ground (arith, get-terminal id now iso row w.db there over))

  -- Finalization of a terminal run that is pending and idle either settles it, releasing its locks
  -- exactly if its effects are known, or reports it as pending and leaves the tables as they were.
  pub finalize-Settles :
      (idle : String → Bool) (id : String) (now : ℕ) (iso : String) (row : Row) (w w' : World F)
      (report : Report)
      → idle id ≡ true
      → find_row id w.db.rows ≡ some row
      → is_running row.run.state ≡ false
      → row.pending ≡ true
      → finalize artifacts idle id now iso w ≡ (ok report, w')
      → Settles id row.run w report w'
  unfolding finalize
  finalize-Settles idle id now iso row w w' report free there over due h =
      finalize_idle-Settles id now iso row w w' report there over due (ground arith)

  -- A settled run can be finalized again: that reports it as not pending, and changes neither the
  -- tables nor the files.
  pub finalize-settled :
      (idle : String → Bool) (id : String) (now : ℕ) (iso : String) (row : Row) (w : World F)
      → idle id ≡ true
      → find_row id w.db.rows ≡ some row
      → is_running row.run.state ≡ false
      → row.pending ≡ false
      → finalize artifacts idle id now iso w
        ≡ (ok (record { run_id = id; pending = false; active = false; errors = [] }), w)
  unfolding finalize
  finalize-settled idle id now iso row w free there over done =
      unfold is_pending in ground (arith, get-terminal id now iso row w.db there over)

  -- Reconciliation succeeds only for a run that is terminal and no longer pending; afterwards the
  -- run holds no lock at all.
  pub reconcile-ok :
      (idle : String → Bool) (id : String) (now : ℕ) (iso : String) (w w' : World F)
      → reconcile artifacts idle id now iso w ≡ (ok tt, w')
      → (row : Row) × (find_row id w'.db.rows ≡ some row)
        × (is_running row.run.state ≡ false)
        × (row.pending ≡ false)
        × ((key : String) → lock_owner key w'.db.locks ≢ some id)
  unfolding reconcile
  reconcile-ok idle id now iso w w' h =
      let after = finalize artifacts idle id now iso w in
      let released : release_lock id after.1.db ≡ ok (tt, w'.db) = ground arith in
      let (row, there, over, done, e) = release_lock-ok id after.1.db w'.db released in
      (
        row,
        there,
        over,
        done,
        λ key p. lock_owner-release_self id key after.1.db.locks (rw (← e) p),
      )

  settle_if-terminal :
      (id : String) (row : Row) (w : World F)
      → find_row id w.db.rows ≡ some row
      → is_running row.run.state ≡ false
      → settle_if true id (not (is_uncertain row.run.effects)) w
        ≡ (ok tt, record w { db = settled_db id row.run w.db })
  settle_if-terminal id row w there over =
      rw (settled-terminal id (not (is_uncertain row.run.effects)) row w.db there over)

  -- If both file operations succeed, one finalization is enough: the run is settled and the report
  -- says that nothing is pending.
  pub finalize-clean :
      (idle : String → Bool) (id : String) (now : ℕ) (iso : String) (row : Row) (w : World F)
      (f g : F)
      → idle id ≡ true
      → find_row id w.db.rows ≡ some row
      → is_running row.run.state ≡ false
      → row.pending ≡ true
      → artifacts.save_result row.run w.files ≡ (ok tt, f)
      → artifacts.scrub_inputs id f ≡ (ok tt, g)
      → finalize artifacts idle id now iso w ≡ (
        ok (record { run_id = id; pending = false; active = false; errors = [] }),
        record { db = settled_db id row.run w.db; files = g },
      )
  unfolding finalize
  finalize-clean idle id now iso row w f g free there over due saved scrubbed =
      unfold is_pending in
      ground (
        arith,
        get-terminal id now iso row w.db there over,
        settle_if-terminal id row (record w { files = g }) there over,
      )
