-- ===== src/Measurement/Repository.antt =====
-- infrastructure/measurement/repository.py `SqliteMeasurements`. The tables are lists; `id`,
-- `run_id`, `path_key` and `ref` are primary keys, so the row that a lookup selects is the first.
-- The column `source_key` is that of the observation: an update keeps it.
use owlmatic.Prelude.{
  ℕ, Bool, true, false, ◌&&◌, ◌||◌, not, String, Option, none, some, List, [], ◌∷◌, leb, any, all,
  contains, truthy, ◌==◌, string_eq, option_eq, if◌then◌else◌,
}
use owlmatic.Errors.{
  Result, ok, raise_if, task_id_conflict, history_regressed, history_changed, duplicate_history,
  run_already_attributed, ◌>>=◌, ◌>>◌,
}
use owlmatic.Measurement.Contracts.{TaskObservation, BaselineLink, CostCoverage, Exposure}
use owlmatic.Measurement.Equality.{same_observation, same_runs, host_eq, task_purpose_eq}

-- measurement/contracts.py `Emission`
pub record Emission : Type 0 where
  pub operation : String
  pub run_id : Option String
  pub emitted_at : ℕ
  pub exposure : Exposure

pub record Store : Type 0 where
  pub tasks : List TaskObservation
  pub run_tasks : List (String × String)
  pub baselines : List BaselineLink
  pub coverages : List CostCoverage
  pub drafts : List (String × String)
  pub emissions : List Emission

unfoldable pub find_task : String → List TaskObservation → Option TaskObservation
find_task id [] = none
find_task id (t ∷ tasks) = if t.task_id == id then some t else find_task id tasks

-- SELECT value FROM table WHERE key=?
unfoldable pub find_value : String → List (String × String) → Option String
find_value key [] = none
find_value key ((k, v) ∷ rows) = if k == key then some v else find_value key rows

-- The attribution, the model and the history of a task may only grow.
unfoldable pub check_previous : TaskObservation → TaskObservation → Result (Unit {0})
check_previous old new = do
  raise_if
      (not (
        old.source_key == new.source_key
        && old.host == new.host
        && old.purpose == new.purpose
        && old.workload == new.workload))
      task_id_conflict
  raise_if
      (old.complete
        && (not (same_runs old.run_ids new.run_ids) || not (old.workflow_ref == new.workflow_ref)))
      task_id_conflict
  raise_if (not (all (λ id. contains id new.run_ids) old.run_ids)) history_regressed
  raise_if (truthy old.model && not (new.model == old.model)) task_id_conflict

unfoldable pub check_history : TaskObservation → TaskObservation → Result (Unit {0})
check_history old new = do
  raise_if (old.complete && not new.complete) history_regressed
  raise_if (old.complete && not (old.source_digest == new.source_digest)) history_changed

-- other.last_line is None or first <= other.last_line
abbrev pub reaches : Option ℕ → ℕ → Bool
reaches none line = true
reaches (some last) line = leb line last

unfoldable pub overlaps : TaskObservation → TaskObservation → Bool
overlaps new other =
    reaches other.last_line new.first_line && reaches new.last_line other.first_line

-- The same file and overlapping lines, or complete copies of the same history.
unfoldable pub conflicts : TaskObservation → TaskObservation → Bool
unfolding overlaps
conflicts new other =
    (truthy (some new.source_file_key)
      && new.source_file_key == other.source_file_key
      && overlaps new other)
    || (new.complete
        && other.complete
        && new.host == other.host
        && new.source_digest == other.source_digest)

abbrev pub is_other : TaskObservation → TaskObservation → Bool
is_other new other = not (other.task_id == new.task_id)

unfoldable pub check_others : TaskObservation → List TaskObservation → Result (Unit {0})
unfolding conflicts
check_others new tasks = do
  raise_if (any (λ t. is_other new t && t.source_key == new.source_key) tasks) duplicate_history
  raise_if (any (λ t. is_other new t && conflicts new t) tasks) duplicate_history

abbrev pub is_owned_by_other : String → Option String → Bool
is_owned_by_other task_id none = false
is_owned_by_other task_id (some owner) = not (owner == task_id)

-- INSERT OR IGNORE
abbrev pub add_owner :
    String → String → Option String → List (String × String) → List (String × String)
add_owner run_id task_id none rows = (run_id, task_id) ∷ rows
add_owner run_id task_id (some owner) rows = rows

unfoldable pub attribute_runs :
    String → List String → List (String × String) → Result (List (String × String))
unfolding find_value
attribute_runs task_id [] rows = ok rows
attribute_runs task_id (run_id ∷ run_ids) rows = do
  let owner = find_value run_id rows
  raise_if (is_owned_by_other task_id owner) run_already_attributed
  attribute_runs task_id run_ids (add_owner run_id task_id owner rows)

-- INSERT ... ON CONFLICT(id) DO UPDATE; the order of the rows is only used by `ORDER BY id`.
unfoldable pub store_task : TaskObservation → List TaskObservation → List TaskObservation
store_task new [] = new ∷ []
store_task new (t ∷ tasks) =
    let rest = store_task new tasks in if t.task_id == new.task_id then new ∷ tasks else t ∷ rest

unfoldable pub insert_task : TaskObservation → Store → Result (Bool × Store)
unfolding check_others attribute_runs store_task
insert_task new s = do
  check_others new s.tasks
  owners ← attribute_runs new.task_id new.run_ids s.run_tasks
  ok (true, record s { tasks = store_task new s.tasks; run_tasks = owners })

unfoldable pub renew_task : TaskObservation → TaskObservation → Store → Result (Bool × Store)
unfolding check_history insert_task
renew_task old new s = do check_history old new; insert_task new s

unfoldable pub replace_task : TaskObservation → TaskObservation → Store → Result (Bool × Store)
unfolding check_previous same_observation renew_task
replace_task old new s = do
  check_previous old new
  if same_observation old new then ok (false, s) else renew_task old new s

-- Whether the tables have changed.
unfoldable pub put : TaskObservation → Store → Result (Bool × Store)
unfolding find_task insert_task replace_task
put new s = elim (find_task new.task_id s.tasks) [
  | none ↦ insert_task new s
  | some old ↦ replace_task old new s
]
