-- ===== src/Ledger/Rows.antt =====
-- The statements on the tables: what a lookup finds after an update, a deletion or a release.
use owlmatic.Prelude.{
  ◌≡◌, ◌≢◌, refl, Bool, false, ◌&&◌, String, Option, none, some, List, [], ◌∷◌, arith, eq_iff, ◌==◌,
  string_eq, if◌then◌else◌,
}
use owlmatic.Domain.{Run}
use owlmatic.Ledger.Tables.{
  Row, Lock, Db, find_row, update_row, delete_row, lock_owner, release_locks,
}

abbrev pub update_found : String → (Row → Bool) → (Row → Row) → Option Row → Option Row
update_found id test change none = none
update_found id test change (some r) = some (if r.id == id && test r then change r else r)

-- An update that leaves the ids alone acts on what a lookup finds.
pub find_row-update :
    (id j : String) (test : Row → Bool) (change : Row → Row) (rows : List Row)
    → ((r : Row) → (change r).id ≡ r.id)
    → find_row j (update_row id test change rows) ≡ update_found id test change (find_row j rows)
unfolding find_row update_row
find_row-update id j test change [] keeps = refl
find_row-update id j test change (r ∷ rows) keeps =
    ground (arith, keeps r, find_row-update id j test change rows keeps)

pub find_row-update_ne :
    (id j : String) (test : Row → Bool) (change : Row → Row) (rows : List Row)
    → ((r : Row) → (change r).id ≡ r.id)
    → j ≢ id
    → find_row j (update_row id test change rows) ≡ find_row j rows
unfolding find_row update_row
find_row-update_ne id j test change [] keeps ne = refl
find_row-update_ne id j test change (r ∷ rows) keeps ne =
    ground (
      arith,
      keeps r,
      eq_iff r.id id,
      eq_iff r.id j,
      find_row-update_ne id j test change rows keeps,
    )

-- What a lookup finds has the id that was looked up.
pub find_row-id :
    (j : String) (rows : List Row) (row : Row) → find_row j rows ≡ some row → row.id ≡ j
unfolding find_row
find_row-id j [] row h = cc
find_row-id j (r ∷ rows) row h = ground (arith, eq_iff r.id j, find_row-id j rows row)

pub find_row-delete_ne :
    (id j : String) (test : Row → Bool) (rows : List Row)
    → id ≢ j
    → find_row j (delete_row id test rows) ≡ find_row j rows
unfolding find_row delete_row
find_row-delete_ne id j test [] h = refl
find_row-delete_ne id j test (r ∷ rows) h =
    ground (arith, eq_iff r.id j, eq_iff r.id id, find_row-delete_ne id j test rows h)

-- A row that the deletion spares is still found first.
pub find_row-delete_kept :
    (id j : String) (test : Row → Bool) (rows : List Row) (row : Row)
    → find_row j rows ≡ some row
    → test row ≡ false
    → find_row j (delete_row id test rows) ≡ some row
unfolding find_row delete_row
find_row-delete_kept id j test [] row h e = cc
find_row-delete_kept id j test (r ∷ rows) row h e =
    ground (arith, eq_iff r.id j, eq_iff r.id id, find_row-delete_kept id j test rows row)

pub lock_owner-release_ne :
    (id key holder : String) (locks : List Lock)
    → lock_owner key locks ≡ some holder
    → id ≢ holder
    → lock_owner key (release_locks id locks) ≡ some holder
unfolding lock_owner release_locks
lock_owner-release_ne id key holder [] h ne = h
lock_owner-release_ne id key holder (l ∷ locks) h ne =
    ground (arith, eq_iff l.key key, eq_iff l.run_id id, lock_owner-release_ne id key holder locks)

-- After the release the run holds no key at all.
pub lock_owner-release_self :
    (id key : String) (locks : List Lock) → lock_owner key (release_locks id locks) ≢ some id
unfolding lock_owner release_locks
lock_owner-release_self id key [] h = cc
lock_owner-release_self id key (l ∷ locks) h =
    ground (arith, eq_iff l.run_id id, lock_owner-release_self id key locks)

abbrev pub found_run : Option Row → Option Run
found_run none = none
found_run (some r) = some r.run

-- The run that the ledger stores under an id.
abbrev pub run_at : String → Db → Option Run
run_at id db = found_run (find_row id db.rows)
