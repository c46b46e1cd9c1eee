-- ===== src/Measurement/Immutable.antt =====
-- infrastructure/measurement/repository.py: `put` and the invariants of the tables.
use owlmatic.Prelude.{
  ◌≡◌, ◌≢◌, refl, Bool, true, String, some, List, [], ◌∷◌, contains, ◌==◌, string_eq, option_eq,
  arith, eq_iff, Bool-cases, Option-cases, inl, inr, option_beq_iff,
}
use owlmatic.Errors.{ok, raise_if, >>=-eq-ok}
use owlmatic.Measurement.Contracts.{TaskObservation}
use owlmatic.Measurement.Equality.{same_observation, same_runs-eq}
use owlmatic.Measurement.Repository.{
  Store, find_task, find_value, check_previous, check_history, check_others, is_owned_by_other,
  add_owner, attribute_runs, store_task, insert_task, renew_task, replace_task, put,
}
use owlmatic.Measurement.Accounting.{
  IsDisjoint, find_task-store, find_task-store_ne, store_task-IsDisjoint,
}

-- What `put` does: nothing, for an equal observation; or it stores the new one.
pub data Puts (new : TaskObservation) (s : Store) (s' : Store) : Type 0 where
  unchanged : s' ≡ s → Puts new s s'
  stored :
      (owners : List (String × String))
      → ((old : TaskObservation)
          → find_task new.task_id s.tasks ≡ some old
          → (check_previous old new ≡ ok tt) × (check_history old new ≡ ok tt))
      → check_others new s.tasks ≡ ok tt
      → attribute_runs new.task_id new.run_ids s.run_tasks ≡ ok owners
      → s' ≡ record s { tasks = store_task new s.tasks; run_tasks = owners }
      → Puts new s s'

insert_task-ok :
    (new : TaskObservation) (s s' : Store) (b : Bool)
    → insert_task new s ≡ ok (b, s')
    → (owners : List (String × String)) × (check_others new s.tasks ≡ ok tt)
      × (attribute_runs new.task_id new.run_ids s.run_tasks ≡ ok owners)
      × (s' ≡ record s { tasks = store_task new s.tasks; run_tasks = owners })
unfolding insert_task
insert_task-ok new s s' b h =
    let (_, fresh, h1) = >>=-eq-ok (check_others new s.tasks) _ h in
    let (owners, owned, h2) = >>=-eq-ok (attribute_runs new.task_id new.run_ids s.run_tasks) _ h1 in
    (owners, fresh, owned, ground arith)

renew_task-Puts :
    (old new : TaskObservation) (s s' : Store) (b : Bool)
    → find_task new.task_id s.tasks ≡ some old
    → check_previous old new ≡ ok tt
    → renew_task old new s ≡ ok (b, s')
    → Puts new s s'
unfolding renew_task
renew_task-Puts old new s s' b there grows h =
    let (_, kept, h1) = >>=-eq-ok (check_history old new) _ h in
    let (owners, fresh, owned, same) = insert_task-ok new s s' b h1 in
    stored owners (λ o found. (ground arith, ground arith)) fresh owned same

replace_task-Puts :
    (old new : TaskObservation) (s s' : Store) (b : Bool)
    → find_task new.task_id s.tasks ≡ some old
    → replace_task old new s ≡ ok (b, s')
    → Puts new s s'
unfolding replace_task
replace_task-Puts old new s s' b there h =
    let (_, grows, h1) = >>=-eq-ok (check_previous old new) _ h in
    elim (Bool-cases (same_observation old new)) [
      | inl e ↦ unchanged (ground arith)
      | inr e ↦
          let h2 : renew_task old new s ≡ ok (b, s') = ground arith in
          renew_task-Puts old new s s' b there grows h2
    ]

put-Puts :
    (new : TaskObservation) (s s' : Store) (b : Bool) → put new s ≡ ok (b, s') → Puts new s s'
unfolding put
put-Puts new s s' b h = elim (Option-cases (find_task new.task_id s.tasks)) [
  | inl absent ↦
      let (owners, fresh, owned, same) = insert_task-ok new s s' b (ground arith) in
      stored owners (λ old there. absurd (ground arith)) fresh owned same
  | inr (old, there) ↦ replace_task-Puts old new s s' b there (ground arith)
]

attribute_runs-keeps :
    (id run owner : String) (runs : List String) (rows rows' : List (String × String))
    → attribute_runs id runs rows ≡ ok rows'
    → find_value run rows ≡ some owner
    → find_value run rows' ≡ some owner
unfolding attribute_runs
attribute_runs-keeps id run owner [] rows rows' h there = ground arith
attribute_runs-keeps id run owner (r ∷ runs) rows rows' h there =
    let (_, free, h1) = >>=-eq-ok (raise_if (is_owned_by_other id (find_value r rows)) _) _ h in
    attribute_runs-keeps id run owner runs (add_owner r id (find_value r rows) rows) rows' h1
      (elim (Option-cases (find_value r rows)) [
        | inl new ↦ unfold find_value in ground (arith, eq_iff r run)
        | inr (o, old) ↦ ground arith
      ])

attribute_runs-owner :
    (id run : String) (runs : List String) (rows rows' : List (String × String))
    → attribute_runs id runs rows ≡ ok rows'
    → contains run runs ≡ true
    → find_value run rows' ≡ some id
unfolding attribute_runs
attribute_runs-owner id run [] rows rows' h there = cc
attribute_runs-owner id run (r ∷ runs) rows rows' h there =
    let (_, free, h1) = >>=-eq-ok (raise_if (is_owned_by_other id (find_value r rows)) _) _ h in
    let next = add_owner r id (find_value r rows) rows in
    elim (Bool-cases (r == run)) [
      | inl here ↦
          let e : r ≡ run = (eq_iff r run).0 here in
          attribute_runs-keeps id run id runs next rows' h1
            (elim (Option-cases (find_value r rows)) [
              | inl new ↦ unfold find_value in ground (arith, eq_iff r r)
              | inr (o, old) ↦ ground (arith, eq_iff o id)
            ])
      | inr later ↦ attribute_runs-owner id run runs next rows' h1 (ground arith)
    ]

-- The accounting is sound: no part of a history is counted under two tasks, and every run that a
-- task counts is attributed to that task, so to no other.
pub record IsSound (s : Store) : Type 0 where
  pub disjoint : IsDisjoint s.tasks
  pub attributed :
      (id : String) (t : TaskObservation) (run : String)
      → find_task id s.tasks ≡ some t
      → contains run t.run_ids ≡ true
      → find_value run s.run_tasks ≡ some id

stored-attributed :
    (new : TaskObservation) (s : Store) (owners : List (String × String))
    → attribute_runs new.task_id new.run_ids s.run_tasks ≡ ok owners
    → IsSound s
    → (id : String) (t : TaskObservation) (run : String)
    → find_task id (store_task new s.tasks) ≡ some t
    → contains run t.run_ids ≡ true
    → find_value run owners ≡ some id
stored-attributed new s owners h sound id t run there counted =
    elim (Bool-cases (new.task_id == id)) [
      | inl here ↦
          let e : new.task_id ≡ id = (eq_iff new.task_id id).0 here in
          let same : t ≡ new = ground (arith, find_task-store new s.tasks) in
          ground (arith, attribute_runs-owner new.task_id run new.run_ids s.run_tasks owners h)
      | inr away ↦
          let ne : new.task_id ≢ id = λ q. ground (arith, eq_iff new.task_id id) in
          attribute_runs-keeps new.task_id run id new.run_ids s.run_tasks owners h (
            sound.attributed id t run (ground (arith, find_task-store_ne new id s.tasks ne))
              counted)
    ]

-- `put` keeps the accounting sound, whatever observation it accepts.
pub put-IsSound :
    (new : TaskObservation) (s s' : Store) (b : Bool)
    → put new s ≡ ok (b, s')
    → IsSound s
    → IsSound s'
put-IsSound new s s' b h sound = elim (put-Puts new s s' b h) [
  | unchanged e ↦ rw e sound
  | stored owners grows fresh owned e ↦ rw e (record {
    disjoint = store_task-IsDisjoint new s.tasks fresh sound.disjoint;
    attributed = stored-attributed new s owners owned sound;
  })
]

-- A complete task is never changed in what it accounts for: whatever `put` accepts, under its id
-- there is a complete task with the same history digest, the same runs and the same workflow.
pub put-complete :
    (new : TaskObservation) (s s' : Store) (b : Bool) (id : String) (old : TaskObservation)
    → put new s ≡ ok (b, s')
    → find_task id s.tasks ≡ some old
    → old.complete ≡ true
    → (t : TaskObservation) × (find_task id s'.tasks ≡ some t)
      × (t.complete ≡ true)
      × (t.source_digest ≡ old.source_digest)
      × (t.run_ids ≡ old.run_ids)
      × (t.workflow_ref ≡ old.workflow_ref)
put-complete new s s' b id old h there done = elim (put-Puts new s s' b h) [
  | unchanged e ↦ (old, ground arith, done, refl, refl, refl)
  | stored owners grows fresh owned e ↦ elim (Bool-cases (new.task_id == id)) [
    | inr away ↦
        let ne : new.task_id ≢ id = λ q. ground (arith, eq_iff new.task_id id) in
        (old, ground (arith, find_task-store_ne new id s.tasks ne), done, refl, refl, refl)
    | inl here ↦
        let same : new.task_id ≡ id = (eq_iff new.task_id id).0 here in
        let (previous, history) = grows old (ground arith) in
        (
          new,
          ground (arith, find_task-store new s.tasks),
          unfold check_history in ground arith,
          unfold check_history in ground (arith, eq_iff old.source_digest new.source_digest),
          unfold check_previous in ground (arith, same_runs-eq old.run_ids new.run_ids),
          unfold check_previous in ground (arith, option_beq_iff old.workflow_ref new.workflow_ref),
        )
  ]
]
