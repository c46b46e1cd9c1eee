-- ===== src/Ledger/Locks.antt =====
-- infrastructure/run_repository.py: resource locks and request ids.
use owlmatic.Prelude.{
  ℕ, ◌≡◌, ◌≢◌, refl, Bool, true, String, Option, none, some, List, ◌∷◌, arith, eq_iff, ◌==◌,
  string_eq, option_eq, truthy, Bool-cases, inl, inr, Option-cases,
}
use owlmatic.Errors.{ok, err, owl, busy, request_conflict, ◌>>=◌}
use owlmatic.Domain.{Run, is_running}
use owlmatic.Ledger.Tables.{Row, Lock, Db, find_row, find_request, lock_owner}
use owlmatic.Ledger.Operations
use owlmatic.Ledger.Operations.{
  update_one, claim_row, finish_row, same_identity, settle_row, release_row, previous_request,
  take_lock, insert_row, new_row,
}
use owlmatic.Ledger.Rows.{lock_owner-release_ne}
use owlmatic.Ledger.Changes.{
  Creates, create-Creates, added, Reads, get-Reads, closed, create-fresh, claim_keeps, Takes, taken,
}
use owlmatic.Ledger.History.{
  Operation, create, get, claim, finish, heartbeat, set_pid, settled, release_lock, delete, after,
  perform,
}

-- The lock on `key` is held by `id`.
abbrev Holds : String → String → Db → Type 0
Holds key id db = lock_owner key db.locks ≡ some id

Takes-lock_owner :
    (key : Option String) (new k id : String) (before locks : List Lock)
    → Takes key new before locks
    → lock_owner k before ≡ some id
    → lock_owner k locks ≡ some id
unfolding lock_owner
Takes-lock_owner key new k id before locks (Takes.untouched e) h = rw e h
Takes-lock_owner key new k id before locks (taken k' e free f) h =
    rw f (ground (arith, eq_iff k' k))

create-Holds :
    (key id : String) (now : ℕ) (new : Run) (rid : Option String) (fp : String) (k : Option String)
    (db : Db)
    → Holds key id db
    → Holds key id (after (Operations.create new rid fp k now db) db)
create-Holds key id now new rid fp k db h = elim (create-Creates new rid fp k now db) [
  | Creates.unchanged e ↦ rw e h
  | added locks e free unused takes ↦
      rw e (Takes-lock_owner k new.run_id key id db.locks locks takes h)
]

get-Holds :
    (key id : String) (now : ℕ) (iso j : String) (db : Db)
    → Holds key id db
    → Holds key id (after (Operations.get j now iso db) db)
get-Holds key id now iso j db h = elim (get-Reads j now iso db) [
  | Reads.unchanged e ↦ rw e h
  | closed row new there late done e ↦ rw e h
]

locks-update_one :
    (id : String) (test : Row → Bool) (change : Row → Row) (db : Db) {A : Type 0} (g : Row → A)
    → (after (update_one id test change db >>= λ p. ok (g p.0, p.1)) db).locks ≡ db.locks
unfolding update_one
locks-update_one id test change db g = elim (Option-cases (find_row id db.rows)) [
  | inl e ↦ rw (e, update_one)
  | inr (r, e) ↦ elim (Bool-cases (test r)) [
    | inl t ↦ rw (e, t, update_one)
    | inr t ↦ rw (e, t, update_one)
  ]
]

finish_row-locks :
    (original : Row) (result : Run) (owner : Option String) (now : ℕ) (db : Db)
    → (after (finish_row original result owner now db) db).locks ≡ db.locks
unfolding finish_row
finish_row-locks original result owner now db =
    elim (Bool-cases (same_identity result original.run)) [
      | inl e ↦ rw (e, finish_row) (locks-update_one result.run_id _ _ db (λ _. tt))
      | inr e ↦ rw (e, finish_row)
    ]

finish-locks :
    (result : Run) (owner : Option String) (now : ℕ) (db : Db)
    → (after (Operations.finish result owner now db) db).locks ≡ db.locks
unfolding Operations.finish
finish-locks result owner now db = elim (Bool-cases (is_running result.state)) [
  | inl e ↦ rw (e, Operations.finish)
  | inr e ↦ elim (Option-cases (find_row result.run_id db.rows)) [
    | inl absent ↦ rw (e, absent, Operations.finish)
    | inr (row, there) ↦ rw (e, there, Operations.finish) (finish_row-locks row result owner now db)
  ]
]

-- `settled` and `release_lock` raise on a running run, and release the keys of their run only.
settled-Holds :
    (key id j : String) (release : Bool) (row : Row) (db : Db)
    → find_row id db.rows ≡ some row
    → is_running row.run.state ≡ true
    → Holds key id db
    → Holds key id (after (Operations.settled j release db) db)
unfolding Operations.settled settle_row
settled-Holds key id j release row db there active h = elim (Bool-cases (j == id)) [
  | inl e ↦ ground (arith, eq_iff j id)
  | inr e ↦ ground (arith, eq_iff j id, lock_owner-release_ne j key id db.locks h)
]

release_lock-Holds :
    (key id j : String) (row : Row) (db : Db)
    → find_row id db.rows ≡ some row
    → is_running row.run.state ≡ true
    → Holds key id db
    → Holds key id (after (Operations.release_lock j db) db)
unfolding Operations.release_lock release_row
release_lock-Holds key id j row db there active h = elim (Bool-cases (j == id)) [
  | inl e ↦ ground (arith, eq_iff j id)
  | inr e ↦ ground (arith, eq_iff j id, lock_owner-release_ne j key id db.locks h)
]

-- Whatever operation is performed next, a run that is active keeps the locks that it holds.
pub perform-Holds :
    (key id : String) (now : ℕ) (iso : String) (op : Operation) (row : Row) (db : Db)
    → find_row id db.rows ≡ some row
    → is_running row.run.state ≡ true
    → lock_owner key db.locks ≡ some id
    → lock_owner key (perform now iso op db).locks ≡ some id
unfolding perform
perform-Holds key id now iso (create new rid fp k) row db there active h =
    create-Holds key id now new rid fp k db h
perform-Holds key id now iso (get j) row db there active h = get-Holds key id now iso j db h
perform-Holds key id now iso (claim j owner) row db there active h =
    claim_keeps (Holds key id) j owner now iso db (get-Holds key id now iso j db h)
      (λ db' g. unfold claim_row in rw (locks-update_one j _ _ db' (λ r. r.run)) g)
perform-Holds key id now iso (finish result owner) row db there active h =
    rw (finish-locks result owner now db) h
perform-Holds key id now iso (heartbeat j owner) row db there active h =
    unfold Operations.heartbeat in rw (locks-update_one j _ _ db (λ _. tt)) h
perform-Holds key id now iso (set_pid j pid) row db there active h = unfold Operations.set_pid in h
perform-Holds key id now iso (settled j release) row db there active h =
    settled-Holds key id j release row db there active h
perform-Holds key id now iso (release_lock j) row db there active h =
    release_lock-Holds key id j row db there active h
perform-Holds key id now iso (delete j) row db there active h = unfold Operations.delete in h

-- While a key is held, every new request for it is refused as busy and changes nothing; once
-- `create` has returned the run it was given, that run holds the key.
pub create_exclusive :
    (run : Run) (rid : Option String) (fp key : String) (now : ℕ) (db : Db)
    → truthy (some key) ≡ true
    → previous_request rid db.rows ≡ none
    → ((holder : String)
        → lock_owner key db.locks ≡ some holder
        → Operations.create run rid fp (some key) now db ≡ err (owl busy))
      × ((db' : Db)
          → Operations.create run rid fp (some key) now db ≡ ok (run, db')
          → lock_owner key db'.locks ≡ some run.run_id)
unfolding Operations.create
create_exclusive run rid fp key now db named fresh = (
  λ holder held. unfold take_lock in ground (arith),
  λ db' h.
      let (locked, granted, e) = create-fresh run run rid fp (some key) now db db' fresh h in
      unfold take_lock lock_owner in ground (arith, eq_iff key key),
)

find_request-head :
    (row : Row) (rid : String) (rows : List Row)
    → row.request_id ≡ some rid
    → find_request rid (row ∷ rows) ≡ some row
unfolding find_request
find_request-head row rid rows h = ground (arith, eq_iff rid rid)

create_repeat :
    (again : Run) (rid fp : String) (key : Option String) (later : ℕ) (db : Db) (row : Row)
    → previous_request (some rid) db.rows ≡ some row
    → row.fingerprint ≡ fp
    → Operations.create again (some rid) fp key later db ≡ ok (row.run, db)
unfolding Operations.create
create_repeat again rid fp key later db row h e = ground (arith, eq_iff row.fingerprint fp)

-- A request id is good for one run: after `create` has stored a run under it, a repetition with
-- the same fingerprint returns the stored run and changes nothing, and one with another
-- fingerprint is refused.
pub create_again :
    (run again : Run) (rid fp fp' : String) (key key' : Option String) (now later : ℕ) (db db' : Db)
    → truthy (some rid) ≡ true
    → previous_request (some rid) db.rows ≡ none
    → Operations.create run (some rid) fp key now db ≡ ok (run, db')
    → (Operations.create again (some rid) fp key' later db' ≡ ok (run, db'))
      × (fp ≢ fp'
          → Operations.create again (some rid) fp' key' later db' ≡ err (owl request_conflict))
unfolding previous_request
create_again run again rid fp fp' key key' now later db db' named fresh h =
    let (locked, granted, e) = create-fresh run run (some rid) fp key now db db' fresh h in
    let stored : previous_request (some rid) db'.rows ≡ some (new_row run (some rid) fp now) =
      rw (e, named) (find_request-head (new_row run (some rid) fp now) rid db.rows refl) in
    (
      create_repeat again rid fp key' later db' _ stored refl,
      λ ne. unfold Operations.create in ground (arith, eq_iff fp fp'),
    )
