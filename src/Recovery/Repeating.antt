-- ===== src/Recovery/Repeating.antt =====
-- recovery_service.py: finalization that is repeated, when the file operations work.
use owlmatic.Prelude.{
  ℕ, ◌≡◌, ◌≢◌, refl, ap, Bool, true, false, String, some, [], arith, eq_iff, Bool-cases, inl, inr,
}
use owlmatic.Errors.{Result, ok}
use owlmatic.Domain.{Run, is_running, is_uncertain}
use owlmatic.Ledger.{Row, Db, find_row, lock_owner}
use owlmatic.Ledger.{lock_owner-release_self, find_row-update, find_row-id}
use owlmatic.Recovery.Service.{Artifacts, World, Report, finalize}
use owlmatic.Recovery.Settling.{settled_db, finalize-clean, finalize-settled}

abbrev pub nothing_pending : String → Report
nothing_pending id = record { run_id = id; pending = false; active = false; errors = [] }

find_row-settled :
    (id : String) (row : Row) (run : Run) (db : Db)
    → find_row id db.rows ≡ some row
    → find_row id (settled_db id run db).rows ≡ some (record row { pending = false })
find_row-settled id row run db there = ground (
  arith,
  find_row-update id id (λ _. true) (λ r. record r { pending = false }) db.rows (λ r. refl),
  find_row-id id db.rows row,
  eq_iff row.id id,
)

-- What a finalization has come to.
pub record IsDone {F : Type 0} (artifacts : Artifacts F) (idle : String → Bool) (id : String)
    (row : Row) (w : World F) (p : Result Report × World F) : Type 0 where
  pub report : p.0 ≡ ok (nothing_pending id)
  pub after : Row
  pub found : find_row id p.1.db.rows ≡ some after
  pub same : after.run ≡ row.run
  pub settled : after.pending ≡ false
  pub released :
      row.pending ≡ true
      → is_uncertain row.run.effects ≡ false
      → (key : String) → lock_owner key p.1.db.locks ≢ some id
  pub kept : is_uncertain row.run.effects ≡ true → p.1.db.locks ≡ w.db.locks
  pub again :
      (later : ℕ) (iso : String)
      → finalize artifacts idle id later iso p.1 ≡ (ok (nothing_pending id), p.1)

module _ {F : Type 0} (artifacts : Artifacts F) (idle : String → Bool) (id : String) (row : Row)
    (w : World F) where
  settled-IsDone :
      (f : F)
      → idle id ≡ true
      → find_row id w.db.rows ≡ some row
      → is_running row.run.state ≡ false
      → IsDone artifacts idle id row w
          (ok (nothing_pending id), record { db = settled_db id row.run w.db; files = f })
  settled-IsDone f free there over =
      let found = find_row-settled id row row.run w.db there in
      record {
        report = refl;
        after = record row { pending = false };
        found = found;
        same = refl;
        settled = refl;
        released = λ due certain key. rw certain (lock_owner-release_self id key w.db.locks);
        kept = λ uncertain. rw uncertain refl;
        again = λ later iso.
            finalize-settled artifacts idle id later iso (record row { pending = false })
              (record { db = settled_db id row.run w.db; files = f }) free found over refl;
      }

  -- If the file operations work, one finalization of a terminal run that is idle is enough, whatever
  -- it had come to before: nothing is pending any more and the result is the same; a run that was
  -- pending keeps no lock if its effects are known, and no lock is given back if they are not; and
  -- every further finalization reports the same and changes neither the tables nor the files.
  pub finalize-IsDone :
      (now : ℕ) (iso : String)
      → idle id ≡ true
      → find_row id w.db.rows ≡ some row
      → is_running row.run.state ≡ false
      → ((f : F) → (artifacts.save_result row.run f).0 ≡ ok tt)
      → ((f : F) → (artifacts.scrub_inputs id f).0 ≡ ok tt)
      → IsDone artifacts idle id row w (finalize artifacts idle id now iso w)
  finalize-IsDone now iso free there over saves scrubs = elim (Bool-cases row.pending) [
    | inr done ↦
        let e = finalize-settled artifacts idle id now iso row w free there over done in
        rw e (record {
          report = refl;
          after = row;
          found = there;
          same = refl;
          settled = done;
          released = λ due certain key. absurd (ground arith);
          kept = λ uncertain. refl;
          again = λ later iso'.
              finalize-settled artifacts idle id later iso' row w free there over done;
        })
    | inl due ↦
        let f = (artifacts.save_result row.run w.files).1 in
        let g = (artifacts.scrub_inputs id f).1 in
        let saved : artifacts.save_result row.run w.files ≡ (ok tt, f) =
          ap (λ r. (r, f)) (saves w.files) in
        let scrubbed : artifacts.scrub_inputs id f ≡ (ok tt, g) = ap (λ r. (r, g)) (scrubs f) in
        let e =
          finalize-clean artifacts idle id now iso row w f g free there over due saved scrubbed in
        rw e (settled-IsDone g free there over)
  ]
