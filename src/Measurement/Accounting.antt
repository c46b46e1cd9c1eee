-- ===== src/Measurement/Accounting.antt =====
-- infrastructure/measurement/repository.py: what `put` keeps.
use owlmatic.Prelude.{
  ◌≡◌, ◌≢◌, sym, Bool, true, false, ◌&&◌, String, some, List, [], ◌∷◌, any, ◌==◌, string_eq,
  option_eq, arith, eq_iff, Bool-cases, inl, inr,
}
use owlmatic.Errors.{ok}
use owlmatic.Measurement.Contracts.{TaskObservation}
use owlmatic.Measurement.Equality.{host_eq, task_purpose_eq}
use owlmatic.Measurement.Repository.{
  find_task, overlaps, conflicts, is_other, check_others, store_task,
}

pub find_task-id :
    (id : String) (tasks : List TaskObservation) (t : TaskObservation)
    → find_task id tasks ≡ some t
    → t.task_id ≡ id
unfolding find_task
find_task-id id [] t h = cc
find_task-id id (x ∷ tasks) t h = ground (arith, eq_iff x.task_id id, find_task-id id tasks t)

pub find_task-store :
    (new : TaskObservation) (tasks : List TaskObservation)
    → find_task new.task_id (store_task new tasks) ≡ some new
unfolding find_task store_task
find_task-store new [] = ground (arith, eq_iff new.task_id new.task_id)
find_task-store new (t ∷ tasks) =
    ground (arith, eq_iff new.task_id new.task_id, find_task-store new tasks)

pub find_task-store_ne :
    (new : TaskObservation) (id : String) (tasks : List TaskObservation)
    → new.task_id ≢ id
    → find_task id (store_task new tasks) ≡ find_task id tasks
unfolding find_task store_task
find_task-store_ne new id [] ne = ground (arith, eq_iff new.task_id id)
find_task-store_ne new id (t ∷ tasks) ne = ground (
  arith,
  eq_iff new.task_id id,
  eq_iff t.task_id new.task_id,
  eq_iff t.task_id id,
  find_task-store_ne new id tasks ne,
)

-- No other task fails a test that none of the others pass.
any-find :
    (test : TaskObservation → Bool) (id : String) (tasks : List TaskObservation)
    (t : TaskObservation)
    → any test tasks ≡ false
    → find_task id tasks ≡ some t
    → test t ≡ false
unfolding find_task
any-find test id [] t h there = cc
any-find test id (x ∷ tasks) t h there = ground (arith, any-find test id tasks t)

conflicts-sym : (a b : TaskObservation) → conflicts a b ≡ false → conflicts b a ≡ false
unfolding conflicts overlaps
conflicts-sym a b h = ground (
  arith,
  eq_iff a.source_file_key b.source_file_key,
  eq_iff b.source_file_key a.source_file_key,
  eq_iff a.source_digest b.source_digest,
  eq_iff b.source_digest a.source_digest,
)

-- No part of the observed history belongs to two tasks, and every table row is found by its id.
abbrev pub IsDisjoint : List TaskObservation → Type 0
IsDisjoint tasks =
    (i j : String) (x y : TaskObservation)
    → i ≢ j
    → find_task i tasks ≡ some x
    → find_task j tasks ≡ some y
    → (conflicts x y ≡ false) × ((x.source_key == y.source_key) ≡ false)

check_others-ok :
    (new : TaskObservation) (tasks : List TaskObservation) (id : String) (t : TaskObservation)
    → check_others new tasks ≡ ok tt
    → id ≢ new.task_id
    → find_task id tasks ≡ some t
    → (conflicts new t ≡ false) × ((t.source_key == new.source_key) ≡ false)
unfolding check_others
check_others-ok new tasks id t h ne there =
    let other : is_other new t ≡ true =
      ground (arith, find_task-id id tasks t there, eq_iff t.task_id new.task_id) in
    (
      ground (arith, any-find (λ t. is_other new t && conflicts new t) id tasks t),
      ground (arith, any-find (λ t. is_other new t && t.source_key == new.source_key) id tasks t),
    )

key-sym : (a b : String) → (a == b) ≡ false → (b == a) ≡ false
key-sym a b h = ground (arith, eq_iff a b, eq_iff b a)

pub store_task-IsDisjoint :
    (new : TaskObservation) (tasks : List TaskObservation)
    → check_others new tasks ≡ ok tt
    → IsDisjoint tasks
    → IsDisjoint (store_task new tasks)
store_task-IsDisjoint new tasks h d i j x y ne hi hj = elim (Bool-cases (new.task_id == i)) [
  | inl here ↦
      let e : new.task_id ≡ i = (eq_iff new.task_id i).0 here in
      let ne' : new.task_id ≢ j = λ q. ne (ground arith) in
      let there : find_task j tasks ≡ some y = ground (arith, find_task-store_ne new j tasks ne') in
      let r = check_others-ok new tasks j y h (λ q. ne' (sym q)) there in
      let same : x ≡ new = ground (arith, find_task-store new tasks) in
      (ground arith, ground (arith, key-sym y.source_key new.source_key))
  | inr away ↦
      let ne_i : new.task_id ≢ i = λ q. ground (arith, eq_iff new.task_id i) in
      let there_i : find_task i tasks ≡ some x =
        ground (arith, find_task-store_ne new i tasks ne_i) in
      elim (Bool-cases (new.task_id == j)) [
        | inl at_j ↦
            let e : new.task_id ≡ j = (eq_iff new.task_id j).0 at_j in
            let r = check_others-ok new tasks i x h (λ q. ne_i (sym q)) there_i in
            let same : y ≡ new = ground (arith, find_task-store new tasks) in
            (ground (arith, conflicts-sym new x r.0), ground arith)
        | inr off_j ↦
            let ne_j : new.task_id ≢ j = λ q. ground (arith, eq_iff new.task_id j) in
            d i j x y ne there_i (ground (arith, find_task-store_ne new j tasks ne_j))
      ]
]
