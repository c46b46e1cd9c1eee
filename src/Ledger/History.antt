-- ===== src/Ledger/History.antt =====
-- infrastructure/run_repository.py as a history: any process may issue any operation at any time.
-- `perform` is the state of the tables after one operation, whether it raised or not.
use owlmatic.Prelude.{ℕ, Bool, String, Option, List, [], ◌∷◌}
use owlmatic.Errors.{Result, ok, err}
use owlmatic.Domain.{Run}
use owlmatic.Ledger.Tables.{Db}
use owlmatic.Ledger.Operations

pub data Operation : Type 0 where
  create : Run → Option String → String → Option String → Operation
  get : String → Operation
  claim : String → String → Operation
  finish : Run → Option String → Operation
  heartbeat : String → String → Operation
  set_pid : String → ℕ → Operation
  settled : String → Bool → Operation
  release_lock : String → Operation
  delete : String → Operation

abbrev pub after {ℓ} : {A : Type ℓ} → Result (A × Db) → Db → Db
after (ok (a, db')) db = db'
after (err e) db = db

unfoldable pub perform : ℕ → String → Operation → Db → Db
perform now iso (create run request_id fingerprint lock_key) db =
    after (Operations.create run request_id fingerprint lock_key now db) db
perform now iso (get id) db = after (Operations.get id now iso db) db
perform now iso (claim id owner) db = (Operations.claim id owner now iso db).1
perform now iso (finish run owner) db = after (Operations.finish run owner now db) db
perform now iso (heartbeat id owner) db = after (Operations.heartbeat id owner now db) db
perform now iso (set_pid id pid) db = after (Operations.set_pid id pid db) db
perform now iso (settled id release) db = after (Operations.settled id release db) db
perform now iso (release_lock id) db = after (Operations.release_lock id db) db
perform now iso (delete id) db = after (Operations.delete id db) db

-- An operation with the instant at which it is issued.
pub record Event : Type 0 where
  pub now : ℕ
  pub iso : String
  pub operation : Operation

unfoldable pub replay : List Event → Db → Db
unfolding perform
replay [] db = db
replay (e ∷ events) db = replay events (perform e.now e.iso e.operation db)

abbrev pub empty : Db
empty = record { rows = []; locks = [] }
