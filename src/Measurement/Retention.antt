-- ===== src/Measurement/Retention.antt =====
-- infrastructure/measurement/repository.py: what retention keeps.
use owlmatic.Prelude.{
  ℕ, ◌≡◌, ◌≢◌, not, String, some, List, [], ◌∷◌, select, ltb, ◌==◌, string_eq, arith, eq_iff,
}
use owlmatic.Measurement.Contracts.{TaskObservation}
use owlmatic.Measurement.Repository.{Store, find_task, find_value}
use owlmatic.Measurement.Tables.{forget, forget_all, retain_since, without_owner}
use owlmatic.Measurement.Immutable.{IsSound}

find_task-without :
    (id j : String) (tasks : List TaskObservation) (t : TaskObservation)
    → find_task j (select (λ u. not (u.task_id == id)) tasks) ≡ some t
    → (find_task j tasks ≡ some t) × (j ≢ id)
unfolding find_task
find_task-without id j [] t h = absurd (ground arith)
find_task-without id j (u ∷ tasks) t h = (
  ground (arith, eq_iff u.task_id id, eq_iff u.task_id j, find_task-without id j tasks t),
  λ q. ground (arith, eq_iff u.task_id id, eq_iff u.task_id j, find_task-without id j tasks t),
)

find_value-without :
    (id key owner : String) (rows : List (String × String))
    → owner ≢ id
    → find_value key rows ≡ some owner
    → find_value key (without_owner id rows) ≡ some owner
unfolding find_value
find_value-without id key owner [] ne h = cc
find_value-without id key owner ((k, v) ∷ rows) ne h =
    ground (arith, eq_iff v id, eq_iff k key, find_value-without id key owner rows ne)

forget-IsSound : (t : TaskObservation) (s : Store) → IsSound s → IsSound (forget t s)
unfolding forget
forget-IsSound t s sound = record {
  disjoint = λ i j x y ne hi hj.
      sound.disjoint i j x y ne (find_task-without t.task_id i s.tasks x hi).0
        (find_task-without t.task_id j s.tasks y hj).0;
  attributed = λ id u run there counted.
      let (before, ne) = find_task-without t.task_id id s.tasks u there in
      find_value-without t.task_id run id s.run_tasks ne (sound.attributed id u run before counted);
}

forget_all-IsSound :
    (old : List TaskObservation) (s : Store) → IsSound s → IsSound (forget_all old s)
unfolding forget_all
forget_all-IsSound [] s sound = sound
forget_all-IsSound (t ∷ old) s sound =
    forget_all-IsSound old (forget t s) (forget-IsSound t s sound)

-- Retention keeps the accounting sound: no history becomes countable twice, and every run of a
-- remaining task is still attributed to it.
pub retain_since-IsSound :
    (timestamp : ℕ) (s : Store) → IsSound s → IsSound (retain_since timestamp s)
unfolding retain_since
retain_since-IsSound timestamp s sound =
    let kept = forget_all-IsSound (select (λ t. ltb t.observed_at timestamp) s.tasks) s sound in
    record { disjoint = kept.disjoint; attributed = kept.attributed }
