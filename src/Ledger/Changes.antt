-- ===== src/Ledger/Changes.antt =====
-- What `create` and `get` may do to the tables.
use owlmatic.Prelude.{
  ℕ, ◌≡◌, refl, true, false, String, Option, none, some, List, ◌∷◌, arith, string_eq, option_eq,
  truthy, Bool-cases, inl, inr, Option-cases,
}
use owlmatic.Errors.{Result, ok, err, Result-cases}
use owlmatic.Actions
use owlmatic.Actions.{committed, transact}
use owlmatic.Domain.{Run, finish as complete}
use owlmatic.Ledger.Tables.{Row, Lock, Db, find_row, find_request, update_row, lock_owner}
use owlmatic.Ledger.Operations.{
  claim, claim_row, previous_request, take_lock, insert_row, is_taken, new_row, create, get,
  get_row, is_expired, lost, close,
}
use owlmatic.Ledger.History.{after}

-- The locks of the tables after the request for a key.
pub data Takes (key : Option String) (id : String) (before locks : List Lock) : Type 0 where
  untouched : locks ≡ before → Takes key id before locks
  taken :
      (k : String)
      → key ≡ some k
      → lock_owner k before ≡ none
      → locks ≡ record { key = k; run_id = id } ∷ before
      → Takes key id before locks

take_lock-Takes :
    (key : Option String) (id : String) (db locked : Db)
    → take_lock key id db ≡ ok locked
    → (locked.rows ≡ db.rows) × Takes key id db.locks locked.locks
unfolding take_lock
take_lock-Takes none id db locked h = (ground arith, untouched (ground arith))
take_lock-Takes (some k) id db locked h = elim (Bool-cases (truthy (some k))) [
  | inl t ↦ elim (Option-cases (lock_owner k db.locks)) [
    | inl free ↦ (ground arith, taken k refl free (ground arith))
    | inr (o, held) ↦ absurd (ground arith)
  ]
  | inr t ↦ (ground arith, untouched (ground arith))
]

is_taken-free :
    (id : String) (rid : Option String) (rows : List Row)
    → is_taken id rid rows ≡ false
    → (find_row id rows ≡ none) × ((r : String) → rid ≡ some r → find_request r rows ≡ none)
unfolding is_taken
is_taken-free id none rows h = (ground arith, λ r e. cc)
is_taken-free id (some rid) rows h = (ground arith, λ r e. ground arith)

insert_row-ok :
    (row : Row) (db stored : Db)
    → insert_row row db ≡ ok stored
    → (stored ≡ record db { rows = row ∷ db.rows })
      × (find_row row.id db.rows ≡ none)
      × ((rid : String) → row.request_id ≡ some rid → find_request rid db.rows ≡ none)
unfolding insert_row
insert_row-ok row db stored h =
    let free = is_taken-free row.id row.request_id db.rows (ground arith) in
    (ground arith, free.0, free.1)

-- `create` leaves the tables as they are, or adds the new row, whose ids are not taken, and takes
-- the key.
pub data Creates (run : Run) (rid : Option String) (fp : String) (key : Option String) (now : ℕ)
    (db db' : Db) : Type 0 where
  unchanged : db' ≡ db → Creates run rid fp key now db db'
  added :
      (locks : List Lock)
      → db' ≡ record { rows = new_row run rid fp now ∷ db.rows; locks = locks }
      → find_row run.run_id db.rows ≡ none
      → ((r : String) → rid ≡ some r → find_request r db.rows ≡ none)
      → Takes key run.run_id db.locks locks
      → Creates run rid fp key now db db'

pub create-Creates :
    (run : Run) (rid : Option String) (fp : String) (key : Option String) (now : ℕ) (db : Db)
    → Creates run rid fp key now db (after (create run rid fp key now db) db)
unfolding create
create-Creates run rid fp key now db = elim (Option-cases (previous_request rid db.rows)) [
  | inr (row, there) ↦ unchanged (ground arith)
  | inl fresh ↦ elim (Result-cases (take_lock key run.run_id db)) [
    | inr (e, refused) ↦ unchanged (ground arith)
    | inl (locked, granted) ↦ elim (Result-cases (insert_row (new_row run rid fp now) locked)) [
      | inr (e, refused) ↦ unchanged (ground arith)
      | inl (stored, inserted) ↦
          let (rows, takes) = take_lock-Takes key run.run_id db locked granted in
          let (e, free, unused) = insert_row-ok (new_row run rid fp now) locked stored inserted in
          added locked.locks (ground arith) (ground arith) (λ r p. rw (← rows) (unused r p)) takes
    ]
  ]
]

-- A request that is not a repetition and succeeds has stored the new row first.
pub create-fresh :
    (run r : Run) (rid : Option String) (fp : String) (key : Option String) (now : ℕ) (db db' : Db)
    → previous_request rid db.rows ≡ none
    → create run rid fp key now db ≡ ok (r, db')
    → (locked : Db) × (take_lock key run.run_id db ≡ ok locked)
      × (db' ≡ record { rows = new_row run rid fp now ∷ db.rows; locks = locked.locks })
unfolding create
create-fresh run r rid fp key now db db' fresh h =
    elim (Result-cases (take_lock key run.run_id db)) [
      | inr (e, refused) ↦ absurd (ground arith)
      | inl (locked, granted) ↦ elim (Result-cases (insert_row (new_row run rid fp now) locked)) [
        | inr (e, refused) ↦ absurd (ground arith)
        | inl (stored, inserted) ↦
            let (rows, takes) = take_lock-Takes key run.run_id db locked granted in
            let (e, free, unused) = insert_row-ok (new_row run rid fp now) locked stored inserted in
            (locked, granted, ground arith)
      ]
    ]

-- `get` leaves the tables as they are, or closes the expired row that it found.
pub data Reads (id : String) (now : ℕ) (iso : String) (db db' : Db) : Type 0 where
  unchanged : db' ≡ db → Reads id now iso db db'
  closed :
      (row : Row) (run : Run)
      → find_row id db.rows ≡ some row
      → is_expired row now ≡ true
      → complete row.run (lost row.run iso) ≡ ok run
      → db' ≡ record db { rows = update_row id (λ _. true) (close run) db.rows }
      → Reads id now iso db db'

get_row-Reads :
    (row : Row) (id : String) (now : ℕ) (iso : String) (db : Db)
    → find_row id db.rows ≡ some row
    → Reads id now iso db (after (get_row row id now iso db) db)
unfolding get_row
get_row-Reads row id now iso db there = elim (Bool-cases (is_expired row now)) [
  | inr live ↦ unchanged (rw (live, get_row))
  | inl late ↦ elim (Result-cases (complete row.run (lost row.run iso))) [
    | inr (e, refused) ↦ unchanged (rw (late, get_row) (rw refused))
    | inl (run, done) ↦ closed row run there late done (rw (late, get_row) (rw done))
  ]
]

pub get-Reads :
    (id : String) (now : ℕ) (iso : String) (db : Db)
    → Reads id now iso db (after (get id now iso db) db)
unfolding get
get-Reads id now iso db = elim (Option-cases (find_row id db.rows)) [
  | inl absent ↦ unchanged (rw (absent, get))
  | inr (row, there) ↦ rw (there, get) (get_row-Reads row id now iso db there)
]

committed-after : {A : Type 0} (m : Result (A × Db)) (db : Db) → (committed m db).1 ≡ after m db
committed-after (ok p) db = refl
committed-after (err e) db = refl

then_keeps :
    (P : Db → Type 0) (m : Result (Run × Db)) (next : Db → Result (Run × Db)) (db : Db)
    → P (after m db)
    → ((db' : Db) → P db' → P (after (next db') db'))
    → P (Actions.◌>>=◌ (λ s. committed m s) (λ _. transact next) db).1
then_keeps P (ok (r, db')) next db p keeps = rw (committed-after (next db') db') (keeps db' p)
then_keeps P (err e) next db p keeps = p

-- What both transactions of `claim` keep, `claim` keeps.
pub claim_keeps :
    (P : Db → Type 0) (id owner : String) (now : ℕ) (iso : String) (db : Db)
    → P (after (get id now iso db) db)
    → ((db' : Db) → P db' → P (after (claim_row id owner now db') db'))
    → P (claim id owner now iso db).1
unfolding claim
claim_keeps P id owner now iso db p keeps =
    then_keeps P (get id now iso db) (claim_row id owner now) db p keeps
