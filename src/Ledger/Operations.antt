-- ===== src/Ledger/Operations.antt =====
-- infrastructure/run_repository.py `SqliteRuns`: each method is a transaction on the tables, read
-- at one instant `now`; `iso` is the same instant as text. Times are whole microseconds.
use owlmatic.Prelude.{
  ℕ, ◌+◌, Bool, true, false, ◌&&◌, ◌||◌, not, String, Option, none, some, List, [], ◌∷◌, ltb, leb,
  truthy, is_some, ◌==◌, string_eq, option_eq, bool_eq, if◌then◌else◌,
}
use owlmatic.Errors.{
  Result, ok, err, owl, raise_if, invalid_transition, request_conflict, busy, run_not_found,
  lease_lost, run_active, recovery_required, storage_error, worker_lost, ◌>>=◌, ◌>>◌,
}
use owlmatic.Actions.{Action, transact}
use owlmatic.Actions
use owlmatic.Domain.{
  Run, Target, State, Outcome, purpose_eq, Completion, is_running, finish as complete,
}
use owlmatic.Ledger.Tables.{
  Row, Lock, Db, find_row, find_request, update_row, delete_row, lock_owner, release_locks,
  holds_lock,
}

-- The lease of 30 seconds.
abbrev pub lease : ℕ
lease = 30000000

-- if request_id: SELECT data,fingerprint FROM runs WHERE request_id=?
unfoldable pub previous_request : Option String → List Row → Option Row
previous_request none rows = none
previous_request (some rid) rows = if truthy (some rid) then find_request rid rows else none

-- if lock_key: refuse a key that is held, insert it otherwise
unfoldable pub take_lock : Option String → String → Db → Result Db
take_lock none id db = ok db
take_lock (some key) id db =
    if truthy (some key)
    then (if is_some (lock_owner key db.locks)
        then err (owl busy)
        else ok (record db { locks = record { key = key; run_id = id } ∷ db.locks }))
    else ok db

-- The constraints of the table: the id is a primary key, and the request id is unique.
unfoldable pub is_taken : String → Option String → List Row → Bool
is_taken id none rows = is_some (find_row id rows)
is_taken id (some rid) rows = is_some (find_row id rows) || is_some (find_request rid rows)

abbrev pub new_row : Run → Option String → String → ℕ → Row
new_row run request_id fingerprint now = record {
  id = run.run_id;
  run = run;
  pid = none;
  heartbeat = now;
  request_id = request_id;
  fingerprint = fingerprint;
  owner = none;
  pending = false;
}

unfoldable pub insert_row : Row → Db → Result Db
insert_row row db =
    if is_taken row.id row.request_id db.rows
    then err (owl storage_error)
    else ok (record db { rows = row ∷ db.rows })

unfoldable pub create : Run → Option String → String → Option String → ℕ → Db → Result (Run × Db)
unfolding previous_request take_lock insert_row is_taken
create run request_id fingerprint lock_key now db = elim (previous_request request_id db.rows) [
  | some row ↦
      if row.fingerprint == fingerprint then ok (row.run, db) else err (owl request_conflict)
  | none ↦ do
    locked ← take_lock lock_key run.run_id db
    stored ← insert_row (new_row run request_id fingerprint now) locked
    ok (run, stored)
]

-- The completion that an expired lease writes.
abbrev pub lost : Run → String → Completion
lost run iso = record {
  state = State.error;
  outcome = Outcome.inconclusive;
  effects = run.effects;
  finished_at = iso;
  duration_ms = 0;
  checks = none;
  outputs = none;
  error = some (record { code = worker_lost });
  log_truncated = false;
}

unfoldable pub is_expired : Row → ℕ → Bool
is_expired row now = is_running row.run.state && ltb (row.heartbeat + lease) now

-- UPDATE runs SET data=?,owner=NULL,pending=1 WHERE id=?
abbrev pub close : Run → Row → Row
close run row = record row { run = run; owner = none; pending = true }

unfoldable pub get_row : Row → String → ℕ → String → Db → Result (Run × Db)
unfolding is_expired
get_row row id now iso db =
    if is_expired row now
    then (do
      run ← complete row.run (lost row.run iso)
      ok (run, record db { rows = update_row id (λ _. true) (close run) db.rows }))
    else ok (row.run, db)

unfoldable pub get : String → ℕ → String → Db → Result (Run × Db)
unfolding get_row
get id now iso db = elim (find_row id db.rows) [
  | none ↦ err (owl run_not_found)
  | some row ↦ get_row row id now iso db
]

-- json_extract(data,'$.state')='running' AND heartbeat>=?
unfoldable pub is_live : ℕ → Row → Bool
is_live now row = is_running row.run.state && leb now (row.heartbeat + lease)

-- An UPDATE that has to change one row.
unfoldable pub update_one : String → (Row → Bool) → (Row → Row) → Db → Result (Row × Db)
update_one id test change db = elim (find_row id db.rows) [
  | none ↦ err (owl lease_lost)
  | some row ↦
      if test row
      then ok (change row, record db { rows = update_row id test change db.rows })
      else err (owl lease_lost)
]

unfoldable pub claim_row : String → String → ℕ → Db → Result (Run × Db)
unfolding update_one is_live
claim_row id owner now db = do
  (row, db') ←
      update_one id (λ r. (r.owner == none) && is_live now r)
        (λ r. record r { owner = some owner; heartbeat = now }) db
  ok (row.run, db')

-- Two transactions: an expiry that the first one commits stays when the second raises.
unfoldable pub claim : String → String → ℕ → String → Action Db Run
unfolding get claim_row
claim id owner now iso =
    Actions.◌>>=◌ (transact (get id now iso)) (λ _. transact (claim_row id owner now))

abbrev pub same_target : Target → Target → Bool
same_target a b =
    a.environment == b.environment
    && a.workspace == b.workspace
    && a.source_revision == b.source_revision
    && a.dirty == b.dirty

-- The identity of an invocation cannot change during completion.
unfoldable pub same_identity : Run → Run → Bool
same_identity a b =
    a.workflow_ref == b.workflow_ref
    && a.profile == b.profile
    && a.purpose == b.purpose
    && same_target a.target b.target
    && a.started_at == b.started_at
    && a.evidence_ref == b.evidence_ref

unfoldable pub finish_row : Row → Run → Option String → ℕ → Db → Result (Unit {0} × Db)
unfolding same_identity update_one is_live
finish_row original run owner now db = do
  raise_if (not (same_identity run original.run)) invalid_transition
  (row, db') ←
      update_one run.run_id (λ r. (r.owner == owner) && is_live now r)
        (λ r. record (close run r) { heartbeat = now }) db
  ok (tt, db')

unfoldable pub finish : Run → Option String → ℕ → Db → Result (Unit {0} × Db)
unfolding finish_row
finish run owner now db =
    if is_running run.state
    then err (owl invalid_transition)
    else (elim (find_row run.run_id db.rows) [
      | none ↦ err (owl run_not_found)
      | some row ↦ finish_row row run owner now db
    ])

unfoldable pub heartbeat : String → String → ℕ → Db → Result (Unit {0} × Db)
unfolding update_one is_live
heartbeat id owner now db = do
  (row, db') ←
      update_one id (λ r. (r.owner == some owner) && is_live now r)
        (λ r. record r { heartbeat = now }) db
  ok (tt, db')

unfoldable pub set_pid : String → ℕ → Db → Result (Unit {0} × Db)
set_pid id pid db =
    ok (
      tt,
      record db { rows = update_row id (λ _. true) (λ r. record r { pid = some pid }) db.rows },
    )

unfoldable pub settle_row : Row → String → Bool → Db → Result (Unit {0} × Db)
settle_row row id release_lock db = do
  raise_if (is_running row.run.state) run_active
  ok (
    tt,
    record {
      rows = update_row id (λ _. true) (λ r. record r { pending = false }) db.rows;
      locks = if release_lock then release_locks id db.locks else db.locks;
    },
  )

unfoldable pub settled : String → Bool → Db → Result (Unit {0} × Db)
unfolding settle_row
settled id release_lock db = elim (find_row id db.rows) [
  | none ↦ err (owl run_not_found)
  | some row ↦ settle_row row id release_lock db
]

unfoldable pub release_row : Row → String → Db → Result (Unit {0} × Db)
release_row row id db = do
  raise_if (is_running row.run.state || row.pending) recovery_required
  ok (tt, record db { locks = release_locks id db.locks })

unfoldable pub release_lock : String → Db → Result (Unit {0} × Db)
unfolding release_row
release_lock id db = elim (find_row id db.rows) [
  | none ↦ err (owl run_not_found)
  | some row ↦ release_row row id db
]

unfoldable pub is_pending : String → Db → Result Bool
is_pending id db = elim (find_row id db.rows) [
  | none ↦ err (owl run_not_found)
  | some row ↦ ok row.pending
]

-- pending=0 AND state!='running' AND id NOT IN (SELECT run_id FROM locks)
unfoldable pub is_removable : List Lock → Row → Bool
is_removable locks row =
    not row.pending && not (is_running row.run.state) && not (holds_lock row.id locks)

-- The runs whose finalization or expiry is due; SQL orders them by heartbeat and id and limits
-- their number, which no caller relies on.
unfoldable pub due_rows : ℕ → List Row → List String
due_rows now [] = []
due_rows now (r ∷ rows) =
    if r.pending || (ltb (r.heartbeat + lease) now && is_running r.run.state)
    then r.id ∷ due_rows now rows
    else due_rows now rows

unfoldable pub pending : ℕ → Db → List String
unfolding due_rows
pending now db = due_rows now db.rows

unfoldable pub old_rows : ℕ → List Lock → List Row → List Run
unfolding is_removable
old_rows cutoff locks [] = []
old_rows cutoff locks (r ∷ rows) =
    if ltb r.heartbeat cutoff && is_removable locks r
    then r.run ∷ old_rows cutoff locks rows
    else old_rows cutoff locks rows

unfoldable pub expired : ℕ → Db → List Run
unfolding old_rows
expired cutoff db = old_rows cutoff db.locks db.rows

unfoldable pub delete : String → Db → Result (Unit {0} × Db)
unfolding is_removable
delete id db = ok (tt, record db { rows = delete_row id (is_removable db.locks) db.rows })
