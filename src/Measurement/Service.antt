-- ===== src/Measurement/Service.antt =====
-- measurement/service.py, but for the import of histories. The registered workflows are a port;
-- `changes` counts the calls of `changed`.
use owlmatic.Prelude.{
  ℕ, ◌+◌, Bool, false, ◌&&◌, not, String, Option, none, some, is_none, List, [], ◌∷◌, any, select,
  sum_by, truthy, ◌==◌, string_eq, if◌then◌else◌,
}
use owlmatic.Errors.{Result, ok, raise_if, baseline_incomplete}
use owlmatic.Actions.{Action, pure, lift, ◌>>=◌, ◌>>◌}
use owlmatic.Measurement.Contracts.{
  TaskPurpose, TaskObservation, BaselineLink, CostCoverage, Assessment, MeasurementReport,
}
use owlmatic.Measurement.Equality.{task_purpose_eq}
use owlmatic.Measurement.Repository.{Store, find_task}
use owlmatic.Measurement.Tables.{capture_draft, draft_task, tasks, link, links, coverage, declare}
use owlmatic.Measurement.Comparison.{has_purpose, maximum, unless_empty}
use owlmatic.Measurement.Estimation.{assess, insert_text}

pub record Accounts : Type 0 where
  pub store : Store
  pub changes : ℕ

abbrev pub Registered : Type 0
Registered = String → Result (Unit {0})

abbrev pub write : (Store → Store) → Action Accounts (Unit {0})
write change a = (ok tt, record a { store = change a.store })

abbrev pub changed : Action Accounts (Unit {0})
changed a = (ok tt, record a { changes = a.changes + 1 })

abbrev pub read {ℓ} : {A : Type ℓ} → (Store → A) → Accounts → Result A × Accounts
read f a = (ok (f a.store), a)

-- A verified complete manual task.
abbrev pub is_capturable : Option TaskObservation → Bool
is_capturable none = false
is_capturable (some t) = has_purpose TaskPurpose.manual t && t.complete && t.verified

abbrev pub is_baseline : Option TaskObservation → Bool
is_baseline none = false
is_baseline (some t) =
    has_purpose TaskPurpose.manual t && t.verified && t.complete && truthy t.model

-- `MeasurementService.capture_draft`
unfoldable pub capture : String → String → Action Accounts (Unit {0})
unfolding find_task capture_draft
capture key task_id = do
  task ← read (λ s. find_task task_id s.tasks)
  lift (raise_if (not (is_capturable task)) baseline_incomplete)
  write (capture_draft key task_id)

-- `MeasurementService.baseline`
unfoldable pub baseline : Registered → BaselineLink → Action Accounts (Unit {0})
unfolding find_task link
baseline registered l = do
  lift (registered l.workflow_ref)
  task ← read (λ s. find_task l.task_id s.tasks)
  lift (raise_if (not (is_baseline task)) baseline_incomplete)
  write (link l)
  changed

abbrev pub bind_task : Registered → String → Option String → Action Accounts (Unit {0})
bind_task registered ref none = pure tt
bind_task registered ref (some id) =
    if truthy (some id)
    then baseline registered (record { workflow_ref = ref; task_id = id })
    else pure tt

unfoldable pub bind_draft : Registered → String → String → Action Accounts (Unit {0})
unfolding baseline draft_task
bind_draft registered key ref = do task_id ← read (draft_task key); bind_task registered ref task_id

-- `MeasurementService.declare`
unfoldable pub declare_coverage : Registered → CostCoverage → Action Accounts (Unit {0})
unfolding declare
declare_coverage registered c = do lift (registered c.workflow_ref); write (declare c); changed

-- The tasks that are linked to a workflow.
abbrev pub linked : List BaselineLink → List TaskObservation → List TaskObservation
linked ls = select (λ t. any (λ l. l.task_id == t.task_id) ls)

unfoldable pub assess_stored : String → Store → Assessment
unfolding assess tasks links coverage
assess_stored ref s =
    assess ref (tasks s.tasks) (linked (links ref s) (tasks s.tasks)) (coverage ref s)

unfoldable pub assessment : Registered → String → Action Accounts Assessment
unfolding assess_stored
assessment registered ref = do lift (registered ref); read (assess_stored ref)

abbrev pub add_ref : Option String → List String → List String
add_ref none refs = refs
add_ref (some ref) refs = if truthy (some ref) then insert_text ref refs else refs

-- sorted({task.workflow_ref for task in tasks if task.workflow_ref})
unfoldable pub refs_of : List TaskObservation → List String
unfolding insert_text
refs_of [] = []
refs_of (t ∷ rows) = add_ref t.workflow_ref (refs_of rows)

unfoldable pub assessments : Registered → List String → Action Accounts (List Assessment)
unfolding assessment
assessments registered [] = pure []
assessments registered (ref ∷ refs) = do
  a ← assessment registered ref
  rest ← assessments registered refs
  pure (a ∷ rest)

abbrev pub is_unattributed : TaskObservation → Bool
is_unattributed t = is_none t.workflow_ref && not (has_purpose TaskPurpose.manual t)

-- `MeasurementService.report`
unfoldable pub measurement_report : Registered → Action Accounts MeasurementReport
unfolding tasks refs_of assessments maximum
measurement_report registered = do
  rows ← read (λ s. tasks s.tasks)
  found ← assessments registered (refs_of rows)
  pure (record {
    assessments = found;
    unattributed_tasks = sum_by (λ t. if is_unattributed t then 1 else 0) rows;
    latest_observation_at = unless_empty rows (maximum (λ t. t.observed_at) rows);
  })
