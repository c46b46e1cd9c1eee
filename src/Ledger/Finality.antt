-- ===== src/Ledger/Finality.antt =====
-- infrastructure/run_repository.py: the result of a run under every operation.
use owlmatic.Prelude.{
  All, ap, ◌||◌, ℕ, ◌≡◌, ◌≢◌, refl, Bool, true, false, ◌&&◌, String, Option, some, List, [], ◌∷◌,
  arith, eq_iff, ◌==◌, string_eq, option_eq, if◌then◌else◌, Bool-cases, inl, inr, Option-cases,
}
use owlmatic.Errors.{◌>>=◌, Result, ok, err}
use owlmatic.Domain.{Run, is_running}
use owlmatic.Ledger.Tables.{Row, Lock, Db, find_row, update_row}
use owlmatic.Ledger.Operations
use owlmatic.Ledger.Operations.{
  close, is_removable, is_expired, finish_row, same_identity, settle_row, release_row, is_live,
  update_one, get_row, claim_row,
}
use owlmatic.Ledger.Rows.{find_row-update, find_row-update_ne, find_row-delete_ne}
use owlmatic.Ledger.Changes.{Creates, create-Creates, added, Reads, get-Reads, closed, claim_keeps}
use owlmatic.Ledger.History.{
  Operation, create, get, claim, finish, heartbeat, set_pid, settled, release_lock, delete, after,
  perform, Event, replay,
}

-- Under `j` the ledger stores the terminal run `run`.
pub record IsFinal (j : String) (run : Run) (db : Db) : Type 0 where
  pub row : Row
  pub found : find_row j db.rows ≡ some row
  pub same : row.run ≡ run
  pub over : is_running run.state ≡ false

-- An update that passes over terminal rows, or leaves their runs alone, keeps the result.
update-IsFinal :
    (id j : String) (run : Run) (test : Row → Bool) (change : Row → Row) (db : Db)
    (locks : List Lock)
    → ((r : Row) → (change r).id ≡ r.id)
    → ((r : Row) → is_running r.run.state ≡ false → test r ≡ true → (change r).run ≡ r.run)
    → IsFinal j run db
    → IsFinal j run (record { rows = update_row id test change db.rows; locks = locks })
update-IsFinal id j run test change db locks keeps spares f =
    let r = f.row in
    record {
      row = if r.id == id && test r then change r else r;
      found = rw (find_row-update id j test change db.rows keeps, f.found);
      same = elim (Bool-cases (test r)) [
        | inl e ↦ ground (arith, f.same, f.over, spares r)
        | inr e ↦ ground (arith, f.same)
      ];
      over = f.over;
    }

update_one-IsFinal :
    (id j : String) (run : Run) (test : Row → Bool) (change : Row → Row) (db : Db)
    → ((r : Row) → (change r).id ≡ r.id)
    → ((r : Row) → is_running r.run.state ≡ false → test r ≡ true → (change r).run ≡ r.run)
    → IsFinal j run db
    → IsFinal j run (after (update_one id test change db) db)
unfolding update_one
update_one-IsFinal id j run test change db keeps spares f =
    elim (Option-cases (find_row id db.rows)) [
      | inl e ↦ rw (e, update_one) f
      | inr (r, e) ↦ elim (Bool-cases (test r)) [
        | inl t ↦
            rw (e, t, update_one) (update-IsFinal id j run test change db db.locks keeps spares f)
        | inr t ↦ rw (e, t, update_one) f
      ]
    ]

after-map :
    {A B : Type 0} (m : Result (A × Db)) (g : A → B) (db : Db)
    → after (m >>= λ p. ok (g p.0, p.1)) db ≡ after m db
after-map (ok p) g db = refl
after-map (err e) g db = refl

create-IsFinal :
    (j : String) (run : Run) (now : ℕ) (new : Run) (rid : Option String) (fp : String)
    (key : Option String) (db : Db)
    → IsFinal j run db
    → IsFinal j run (after (Operations.create new rid fp key now db) db)
create-IsFinal j run now new rid fp key db f = elim (create-Creates new rid fp key now db) [
  | Creates.unchanged e ↦ rw e f
  | added locks e free unused takes ↦ rw e (record {
    row = f.row;
    found = unfold find_row in ground (arith, f.found, eq_iff new.run_id j);
    same = f.same;
    over = f.over;
  })
]

pub get-IsFinal :
    (j : String) (run : Run) (now : ℕ) (iso id : String) (db : Db)
    → IsFinal j run db
    → IsFinal j run (after (Operations.get id now iso db) db)
get-IsFinal j run now iso id db f = elim (get-Reads id now iso db) [
  | Reads.unchanged e ↦ rw e f
  | closed row new there late done e ↦
      let ne : j ≢ id = λ q. unfold is_expired in ground (arith, f.found, f.same, f.over) in
      rw e (record {
        row = f.row;
        found = rw (find_row-update_ne id j (λ _. true) (close new) db.rows (λ r. refl) ne) f.found;
        same = f.same;
        over = f.over;
      })
]

claim-IsFinal :
    (j : String) (run : Run) (now : ℕ) (id owner : String) (db : Db)
    → IsFinal j run db
    → IsFinal j run (after (claim_row id owner now db) db)
unfolding claim_row
claim-IsFinal j run now id owner db f =
    rw (after-map (update_one id _ _ db) (λ (r : Row). r.run) db)
      (update_one-IsFinal id j run _ _ db (λ r. refl) (λ r e t. refl) f)

heartbeat-IsFinal :
    (j : String) (run : Run) (now : ℕ) (id owner : String) (db : Db)
    → IsFinal j run db
    → IsFinal j run (after (Operations.heartbeat id owner now db) db)
unfolding Operations.heartbeat
heartbeat-IsFinal j run now id owner db f =
    rw after-map (update_one-IsFinal id j run _ _ db (λ r. refl) (λ r e t. refl) f)

finish_row-IsFinal :
    (j : String) (run : Run) (now : ℕ) (original : Row) (result : Run) (owner : Option String)
    (db : Db)
    → IsFinal j run db
    → IsFinal j run (after (finish_row original result owner now db) db)
unfolding finish_row
finish_row-IsFinal j run now original result owner db f =
    elim (Bool-cases (same_identity result original.run)) [
      | inl e ↦
          rw (e, finish_row)
            (rw after-map (
              update_one-IsFinal result.run_id j run _ _ db (λ r. refl)
                (λ r e t. unfold is_live in ground arith) f))
      | inr e ↦ rw (e, finish_row) f
    ]

finish-IsFinal :
    (j : String) (run : Run) (now : ℕ) (result : Run) (owner : Option String) (db : Db)
    → IsFinal j run db
    → IsFinal j run (after (Operations.finish result owner now db) db)
unfolding Operations.finish
finish-IsFinal j run now result owner db f = elim (Bool-cases (is_running result.state)) [
  | inl e ↦ rw (e, Operations.finish) f
  | inr e ↦ elim (Option-cases (find_row result.run_id db.rows)) [
    | inl none_there ↦ rw (e, none_there, Operations.finish) f
    | inr (row, there) ↦
        rw (e, there, Operations.finish) (finish_row-IsFinal j run now row result owner db f)
  ]
]

pub settled-IsFinal :
    (j : String) (run : Run) (id : String) (release : Bool) (db : Db)
    → IsFinal j run db
    → IsFinal j run (after (Operations.settled id release db) db)
unfolding Operations.settled
settled-IsFinal j run id release db f = elim (Option-cases (find_row id db.rows)) [
  | inl absent ↦ rw (absent, Operations.settled) f
  | inr (row, there) ↦ elim (Bool-cases (is_running row.run.state)) [
    | inl e ↦ rw (there, Operations.settled) (rw (e, settle_row) f)
    | inr e ↦
        rw (there, Operations.settled)
          (rw (e, settle_row) (update-IsFinal id j run _ _ db _ (λ r. refl) (λ r e t. refl) f))
  ]
]

release_lock-IsFinal :
    (j : String) (run : Run) (id : String) (db : Db)
    → IsFinal j run db
    → IsFinal j run (after (Operations.release_lock id db) db)
unfolding Operations.release_lock
release_lock-IsFinal j run id db f = elim (Option-cases (find_row id db.rows)) [
  | inl absent ↦ rw (absent, Operations.release_lock) f
  | inr (row, there) ↦ elim (Bool-cases (is_running row.run.state || row.pending)) [
    | inl e ↦ rw (there, Operations.release_lock) (rw (e, release_row) f)
    | inr e ↦
        rw (there, Operations.release_lock)
          (rw (e, release_row)
            (record { row = f.row; found = f.found; same = f.same; over = f.over }))
  ]
]

delete-IsFinal :
    (j : String) (run : Run) (id : String) (db : Db)
    → id ≢ j
    → IsFinal j run db
    → IsFinal j run (after (Operations.delete id db) db)
unfolding Operations.delete
delete-IsFinal j run id db ne f = record {
  row = f.row;
  found = rw (find_row-delete_ne id j (is_removable db.locks) db.rows ne) f.found;
  same = f.same;
  over = f.over;
}

-- Deletion aside, no operation, successful or not, changes the result that the ledger stores for
-- a terminal run.
pub perform-IsFinal :
    (j : String) (run : Run) (now : ℕ) (iso : String) (op : Operation) (db : Db)
    → op ≢ delete j
    → IsFinal j run db
    → IsFinal j run (perform now iso op db)
unfolding perform
perform-IsFinal j run now iso (create new rid fp key) db ne f =
    create-IsFinal j run now new rid fp key db f
perform-IsFinal j run now iso (get id) db ne f = get-IsFinal j run now iso id db f
perform-IsFinal j run now iso (claim id owner) db ne f =
    claim_keeps (IsFinal j run) id owner now iso db (get-IsFinal j run now iso id db f)
      (λ db' g. claim-IsFinal j run now id owner db' g)
perform-IsFinal j run now iso (finish result owner) db ne f =
    finish-IsFinal j run now result owner db f
perform-IsFinal j run now iso (heartbeat id owner) db ne f =
    heartbeat-IsFinal j run now id owner db f
perform-IsFinal j run now iso (set_pid id pid) db ne f =
    unfold Operations.set_pid in
    update-IsFinal id j run _ _ db db.locks (λ r. refl) (λ r e t. refl) f
perform-IsFinal j run now iso (settled id release) db ne f = settled-IsFinal j run id release db f
perform-IsFinal j run now iso (release_lock id) db ne f = release_lock-IsFinal j run id db f
perform-IsFinal j run now iso (delete id) db ne f =
    delete-IsFinal j run id db (λ e. ne (ap delete e)) f

-- Once the ledger stores a final result of a run, it stores exactly this result after any history of
-- operations of any processes in which the run is not deleted.
pub replay-IsFinal :
    (j : String) (run : Run) (events : List Event) (db : Db)
    → All (λ e. e.operation ≢ delete j) events
    → IsFinal j run db
    → IsFinal j run (replay events db)
unfolding replay
replay-IsFinal j run [] db kept f = f
replay-IsFinal j run (e ∷ events) db kept f =
    replay-IsFinal j run events (perform e.now e.iso e.operation db) kept.1
      (perform-IsFinal j run e.now e.iso e.operation db kept.0 f)
