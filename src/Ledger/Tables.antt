-- ===== src/Ledger/Tables.antt =====
-- infrastructure/sqlite.py (tables `runs` and `locks`) and the statements that
-- infrastructure/run_repository.py issues on them. `id` is a primary key, so the rows that
-- `WHERE id=?` selects are at most one: the first.
use owlmatic.Prelude.{
  ℕ, Bool, true, false, ◌&&◌, String, Option, none, some, List, [], ◌∷◌, ◌==◌, string_eq, option_eq,
  if◌then◌else◌,
}
use owlmatic.Domain.{Run}

-- `run` is the column `data`.
pub record Row : Type 0 where
  pub id : String
  pub run : Run
  pub pid : Option ℕ
  pub heartbeat : ℕ
  pub request_id : Option String
  pub fingerprint : String
  pub owner : Option String
  pub pending : Bool

pub record Lock : Type 0 where
  pub key : String
  pub run_id : String

pub record Db : Type 0 where
  pub rows : List Row
  pub locks : List Lock

-- SELECT ... FROM runs WHERE id=?
unfoldable pub find_row : String → List Row → Option Row
find_row id [] = none
find_row id (r ∷ rows) = if r.id == id then some r else find_row id rows

-- SELECT ... FROM runs WHERE request_id=?
unfoldable pub find_request : String → List Row → Option Row
find_request rid [] = none
find_request rid (r ∷ rows) = if r.request_id == some rid then some r else find_request rid rows

-- UPDATE runs SET change WHERE id=? AND test
unfoldable pub update_row : String → (Row → Bool) → (Row → Row) → List Row → List Row
update_row id test change [] = []
update_row id test change (r ∷ rows) =
    (if r.id == id && test r then change r else r) ∷ update_row id test change rows

-- DELETE FROM runs WHERE id=? AND test
unfoldable pub delete_row : String → (Row → Bool) → List Row → List Row
delete_row id test [] = []
delete_row id test (r ∷ rows) =
    if r.id == id && test r then delete_row id test rows else r ∷ delete_row id test rows

-- SELECT 1 FROM locks WHERE key=?, with the run that holds the key.
unfoldable pub lock_owner : String → List Lock → Option String
lock_owner key [] = none
lock_owner key (l ∷ locks) = if l.key == key then some l.run_id else lock_owner key locks

-- DELETE FROM locks WHERE run_id=?
unfoldable pub release_locks : String → List Lock → List Lock
release_locks id [] = []
release_locks id (l ∷ locks) =
    if l.run_id == id then release_locks id locks else l ∷ release_locks id locks

-- id IN (SELECT run_id FROM locks)
unfoldable pub holds_lock : String → List Lock → Bool
holds_lock id [] = false
holds_lock id (l ∷ locks) = if l.run_id == id then true else holds_lock id locks
