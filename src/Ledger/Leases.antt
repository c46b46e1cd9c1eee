-- ===== src/Ledger/Leases.antt =====
-- infrastructure/run_repository.py: the ownership of an invocation and its lease.
use owlmatic.Prelude.{
  Bool-cases, ℕ, ◌+◌, ◌≡◌, ◌≢◌, ◌<◌, ◌≤◌, refl, Bool, true, false, ◌&&◌, String, Option, some, List,
  arith, eq_iff, ◌==◌, string_eq, option_eq, ==_iff, not, truthy, inl, inr, Option-cases,
}
use owlmatic.Errors.{Code, ok, err, owl, lease_lost, raise_if, invalid_transition, >>=-eq-ok}
use owlmatic.Domain.{consistent_state, Run, is_running, completed_run, finish as complete}
use owlmatic.Ledger.Tables.{Row, Db, find_row, update_row}
use owlmatic.Ledger.Operations.{
  claim, lease, is_live, is_expired, update_one, claim_row, heartbeat, finish, finish_row, get,
  get_row, close, lost, same_identity,
}
use owlmatic.Ledger.Rows.{find_row-update, find_row-update_ne, find_row-id}

-- A conditional update that goes through has found a row that passes the test, and has changed
-- that row and no other.
pub update_one-ok :
    (id : String) (test : Row → Bool) (change : Row → Row) (db db' : Db) (row' : Row)
    → ((r : Row) → (change r).id ≡ r.id)
    → update_one id test change db ≡ ok (row', db')
    → (row : Row) × (find_row id db.rows ≡ some row)
      × (test row ≡ true)
      × (row' ≡ change row)
      × (find_row id db'.rows ≡ some (change row))
      × (db'.locks ≡ db.locks)
      × ((j : String) → j ≢ id → find_row j db'.rows ≡ find_row j db.rows)
unfolding update_one
update_one-ok id test change db db' row' keeps h = elim (Option-cases (find_row id db.rows)) [
  | inl absent ↦ absurd (ground arith)
  | inr (row, there) ↦ (
    row,
    there,
    ground arith,
    ground arith,
    ground (
      arith,
      find_row-update id id test change db.rows keeps,
      find_row-id id db.rows row,
      eq_iff row.id id,
    ),
    ground arith,
    λ j ne. ground (arith, find_row-update_ne id j test change db.rows keeps ne),
  )
]

abbrev pub complete_row : Run → ℕ → Row → Row
complete_row run now row = record (close run row) { heartbeat = now }

raise_if-ok : (b : Bool) (c : Code) → raise_if b c ≡ ok tt → b ≡ false
raise_if-ok b c h = ground arith

finish_row-ok :
    (original : Row) (run : Run) (owner : Option String) (now : ℕ) (db db' : Db)
    → finish_row original run owner now db ≡ ok (tt, db')
    → (same_identity run original.run ≡ true)
      × (row : Row) × (update_one run.run_id
            (λ r. (r.owner == owner) && is_live now r)
            (complete_row run now)
            db
          ≡ ok (row, db'))
unfolding finish_row
finish_row-ok original run owner now db db' h =
    let (_, same, rest) =
      >>=-eq-ok (raise_if (not (same_identity run original.run)) invalid_transition) _ h in
    let (p, updated, done) = >>=-eq-ok (update_one run.run_id _ _ db) _ rest in
    (ground arith, p.0, ground arith)

-- `finish` goes through only for the owner of a live lease on a running run, and only if the
-- result keeps the identity of the invocation; it then stores exactly that result as pending
-- without an owner, and changes no other run and no lock.
pub finish_authorised :
    (run : Run) (owner : Option String) (now : ℕ) (db db' : Db)
    → finish run owner now db ≡ ok (tt, db')
    → (row : Row) × (find_row run.run_id db.rows ≡ some row)
      × (is_running row.run.state ≡ true)
      × (row.owner ≡ owner)
      × (now ≤ row.heartbeat + lease)
      × (same_identity run row.run ≡ true)
      × (is_running run.state ≡ false)
      × (find_row run.run_id db'.rows ≡ some (complete_row run now row))
      × (db'.locks ≡ db.locks)
      × ((j : String) → j ≢ run.run_id → find_row j db'.rows ≡ find_row j db.rows)
unfolding finish
finish_authorised run owner now db db' h = elim (Option-cases (find_row run.run_id db.rows)) [
  | inl absent ↦ absurd (ground arith)
  | inr (original, there) ↦
      let (same, row', updated) = finish_row-ok original run owner now db db' (ground arith) in
      let (row, found, guard, e, after, locks, others) =
        update_one-ok run.run_id _ (complete_row run now) db db' row' (λ r. refl) updated in
      let eq : row ≡ original = ground arith in
      (
        row,
        found,
        unfold is_live in ground arith,
        (==_iff row.owner owner).0 (ground arith),
        unfold is_live in ground arith,
        rw eq same,
        ground arith,
        after,
        locks,
        others,
      )
]

claim_row-ok :
    (id owner : String) (now : ℕ) (db db' : Db) (run : Run)
    → claim_row id owner now db ≡ ok (run, db')
    → (row : Row) × (find_row id db'.rows ≡ some row) × (row.owner ≡ some owner) × (row.run ≡ run)
unfolding claim_row
claim_row-ok id owner now db db' run h =
    let (p, updated, done) = >>=-eq-ok (update_one id _ _ db) _ h in
    let (row, found, guard, e, after, locks, others) =
      update_one-ok id _ _ db p.1 p.0 (λ r. refl) updated in
    (record row { owner = some owner; heartbeat = now }, ground arith, refl, ground arith)

-- While one worker holds the claim, no other worker can claim the run, renew the lease or
-- complete the run.
pub claim_exclusive :
    (id a b : String) (now later : ℕ) (db db' : Db) (run : Run)
    → claim_row id a now db ≡ ok (run, db')
    → a ≢ b
    → (claim_row id b later db' ≡ err (owl lease_lost))
      × (heartbeat id b later db' ≡ err (owl lease_lost))
      × ((result : Run) (db'' : Db)
          → result.run_id ≡ id
          → finish result (some b) later db' ≢ ok (tt, db''))
unfolding claim_row heartbeat
claim_exclusive id a b now later db db' run h ne =
    let held = claim_row-ok id a now db db' run h in
    let other : (some a == some b) ≡ false = ground (arith, eq_iff a b) in
    (
      ground arith,
      ground arith,
      λ result db'' e f.
          let r = finish_authorised result (some b) later db' db'' f in ground (arith),
    )

-- A second completion of a run raises, whoever asks for it and whenever.
pub finish_once :
    (run again : Run) (owner by : Option String) (now later : ℕ) (db db' db'' : Db)
    → finish run owner now db ≡ ok (tt, db')
    → again.run_id ≡ run.run_id
    → finish again by later db' ≢ ok (tt, db'')
finish_once run again owner by now later db db' db'' h e f =
    let r = finish_authorised run owner now db db' h in
    let q = finish_authorised again by later db' db'' f in ground (arith, r.7, q.1, q.2, r.6)

complete-lost :
    (run : Run) (iso : String)
    → is_running run.state ≡ true
    → truthy (some iso) ≡ true
    → complete run (lost run iso) ≡ ok (completed_run run (lost run iso))
unfolding complete consistent_state
complete-lost run iso active text = ground arith

get_row-expired :
    (row : Row) (now : ℕ) (iso : String) (db : Db) (run : Run)
    → is_expired row now ≡ true
    → complete row.run (lost row.run iso) ≡ ok run
    → get_row row row.id now iso db
      ≡ ok (run, record db { rows = update_row row.id (λ _. true) (close run) db.rows })
unfolding get_row
get_row-expired row now iso db run late done = rw (late, done)

find_row-close :
    (row : Row) (run : Run) (rows : List Row)
    → find_row row.id rows ≡ some row
    → find_row row.id (update_row row.id (λ _. true) (close run) rows) ≡ some (close run row)
find_row-close row run rows h =
    rw (find_row-update row.id row.id (λ _. true) (close run) rows (λ r. refl), h)
      (ground (arith, eq_iff row.id row.id))

-- The tables after the row has been closed with `run`.
abbrev pub close_at : Row → Run → Db → Db
close_at row run db = record db { rows = update_row row.id (λ _. true) (close run) db.rows }

-- Reading a run whose lease has run out closes it: the ledger then stores it as failed with its
-- effects kept, pending and without an owner, and no lock changes.
pub get-expired :
    (row : Row) (now : ℕ) (iso : String) (db : Db)
    → find_row row.id db.rows ≡ some row
    → is_running row.run.state ≡ true
    → row.heartbeat + lease < now
    → truthy (some iso) ≡ true
    → let result = completed_run row.run (lost row.run iso) in
      (get row.id now iso db ≡ ok (result, close_at row result db))
      × (find_row row.id (close_at row result db).rows ≡ some (close result row))
      × ((close_at row result db).locks ≡ db.locks)
unfolding get
get-expired row now iso db h active late text =
    let result : Run = completed_run row.run (lost row.run iso) in
    let over : is_expired row now ≡ true = unfold is_expired in ground arith in
    let done = complete-lost row.run iso active text in
    (
      rw (h, get) (get_row-expired row now iso db result over done),
      find_row-close row result db.rows h,
      refl,
    )

claim_row-over :
    (id owner : String) (now : ℕ) (row : Row) (db : Db)
    → find_row id db.rows ≡ some row
    → is_running row.run.state ≡ false
    → claim_row id owner now db ≡ err (owl lease_lost)
unfolding claim_row
claim_row-over id owner now row db there over = unfold is_live in ground arith

claim-over :
    (id owner : String) (now : ℕ) (iso : String) (run : Run) (row : Row) (db db' : Db)
    → get id now iso db ≡ ok (run, db')
    → find_row id db'.rows ≡ some row
    → is_running row.run.state ≡ false
    → claim id owner now iso db ≡ (err (owl lease_lost), db')
unfolding claim
claim-over id owner now iso run row db db' read there over =
    rw (read, claim_row-over id owner now row db' there over) refl

get-over :
    (row : Row) (now : ℕ) (iso : String) (db : Db)
    → find_row row.id db.rows ≡ some row
    → is_running row.run.state ≡ false
    → get row.id now iso db ≡ ok (row.run, db)
unfolding get get_row is_expired
get-over row now iso db there over = rw (there, get) (rw (over, get_row) refl)

claim_expired :
    (row : Row) (owner : String) (now : ℕ) (iso : String) (db : Db)
    → find_row row.id db.rows ≡ some row
    → row.heartbeat + lease < now
    → truthy (some iso) ≡ true
    → ((claim row.id owner now iso db).0 ≡ err (owl lease_lost))
      × (r : Row) × (find_row row.id (claim row.id owner now iso db).1.rows ≡ some r)
      × (is_running r.run.state ≡ false)
claim_expired row owner now iso db h late text = elim (Bool-cases (is_running row.run.state)) [
  | inr over ↦
      let e =
        claim-over row.id owner now iso row.run row db db (get-over row now iso db h over) h over in
      rw e (refl, row, h, over)
  | inl active ↦
      let result = completed_run row.run (lost row.run iso) in
      let (read, there, locks) = get-expired row now iso db h active late text in
      let e =
        claim-over row.id owner now iso result (close result row) db (close_at row result db) read
          there refl in
      rw e (refl, close result row, there, refl)
]

-- Once the lease of a run has run out, no worker can renew it, and nobody can complete the run or
-- claim it: a claim raises LEASE_LOST, and leaves the run terminal, so that it stays closed.
pub expired_lease :
    (row : Row) (owner : String) (now : ℕ) (iso : String) (db : Db)
    → find_row row.id db.rows ≡ some row
    → row.heartbeat + lease < now
    → truthy (some iso) ≡ true
    → (heartbeat row.id owner now db ≡ err (owl lease_lost))
      × ((claim row.id owner now iso db).0 ≡ err (owl lease_lost))
      × ((r : Row) × (find_row row.id (claim row.id owner now iso db).1.rows ≡ some r)
          × (is_running r.run.state ≡ false))
      × ((run : Run) (by : Option String) (db' : Db)
          → run.run_id ≡ row.id
          → finish run by now db ≢ ok (tt, db'))
unfolding heartbeat
expired_lease row owner now iso db h late text =
    let (refused, r, there, over) = claim_expired row owner now iso db h late text in
    (
      ground arith,
      refused,
      (r, there, over),
      λ run by db' e f.
          unfold is_live in let r = finish_authorised run by now db db' f in ground arith,
    )
