-- ===== src/Measurement/Tables.antt =====
-- infrastructure/measurement/repository.py: drafts, baselines, coverage, emissions and retention.
-- `key` is the digest of a path. Rows are kept in the order of their insertion, except where the
-- code orders them.
use Prim.Native.Nat.{Ordering}
use Prim.Native.String.{compare}
use owlmatic.Prelude.{
  ℕ, Bool, true, false, ◌&&◌, not, String, Option, none, some, List, [], ◌∷◌, ltb, any, select,
  ◌==◌, string_eq, option_eq, if◌then◌else◌,
}
use owlmatic.Measurement.Contracts.{TaskObservation, BaselineLink, CostCoverage}
use owlmatic.Measurement.Repository.{Store, Emission, find_value}

-- INSERT ... ON CONFLICT DO UPDATE
unfoldable pub set_value : String → String → List (String × String) → List (String × String)
set_value key value [] = (key, value) ∷ []
set_value key value ((k, v) ∷ rows) =
    let rest = set_value key value rows in if k == key then (k, value) ∷ rows else (k, v) ∷ rest

unfoldable pub capture_draft : String → String → Store → Store
unfolding set_value
capture_draft key task_id s = record s { drafts = set_value key task_id s.drafts }

unfoldable pub draft_task : String → Store → Option String
unfolding find_value
draft_task key s = find_value key s.drafts

abbrev pub text_before : String → String → Bool
text_before a b = elim (compare a b) [ Ordering.gt ↦ false | _ ↦ true ]

unfoldable pub insert_by_id : TaskObservation → List TaskObservation → List TaskObservation
insert_by_id t [] = t ∷ []
insert_by_id t (u ∷ tasks) =
    let rest = insert_by_id t tasks in
    if text_before t.task_id u.task_id then t ∷ u ∷ tasks else u ∷ rest

-- ORDER BY id
unfoldable pub tasks : List TaskObservation → List TaskObservation
unfolding insert_by_id
tasks [] = []
tasks (t ∷ rows) = insert_by_id t (tasks rows)

abbrev pub same_link : BaselineLink → BaselineLink → Bool
same_link a b = a.workflow_ref == b.workflow_ref && a.task_id == b.task_id

-- INSERT OR IGNORE
unfoldable pub link : BaselineLink → Store → Store
link l s = if any (same_link l) s.baselines then s else record s { baselines = l ∷ s.baselines }

unfoldable pub links : String → Store → List BaselineLink
links ref s = select (λ l. l.workflow_ref == ref) s.baselines

unfoldable pub find_coverage : String → List CostCoverage → CostCoverage
find_coverage ref [] = record {
  workflow_ref = ref;
  setup_complete = false;
  maintenance_complete = false;
}
find_coverage ref (c ∷ coverages) = if c.workflow_ref == ref then c else find_coverage ref coverages

unfoldable pub coverage : String → Store → CostCoverage
unfolding find_coverage
coverage ref s = find_coverage ref s.coverages

unfoldable pub set_coverage : CostCoverage → List CostCoverage → List CostCoverage
set_coverage new [] = new ∷ []
set_coverage new (c ∷ coverages) =
    let rest = set_coverage new coverages in
    if c.workflow_ref == new.workflow_ref then new ∷ coverages else c ∷ rest

unfoldable pub declare : CostCoverage → Store → Store
unfolding set_coverage
declare c s = record s { coverages = set_coverage c s.coverages }

unfoldable pub emit : Emission → Store → Store
emit e s = record s { emissions = e ∷ s.emissions }

-- DELETE FROM table WHERE task_id=?
abbrev pub without_owner : String → List (String × String) → List (String × String)
without_owner id = select (λ row. not (row.1 == id))

abbrev pub is_ref : Option String → String → Bool
is_ref none ref = false
is_ref (some r) ref = r == ref

-- All that belongs to one task, and the coverage of its workflow.
unfoldable pub forget : TaskObservation → Store → Store
forget t s = record {
  tasks = select (λ u. not (u.task_id == t.task_id)) s.tasks;
  run_tasks = without_owner t.task_id s.run_tasks;
  baselines = select (λ l. not (l.task_id == t.task_id)) s.baselines;
  coverages = select (λ c. not (is_ref t.workflow_ref c.workflow_ref)) s.coverages;
  drafts = without_owner t.task_id s.drafts;
  emissions = s.emissions;
}

unfoldable pub forget_all : List TaskObservation → Store → Store
unfolding forget
forget_all [] s = s
forget_all (t ∷ old) s = forget_all old (forget t s)

unfoldable pub retain_since : ℕ → Store → Store
unfolding forget_all
retain_since timestamp s =
    let kept = forget_all (select (λ t. ltb t.observed_at timestamp) s.tasks) s in
    record kept { emissions = select (λ e. not (ltb e.emitted_at timestamp)) kept.emissions }
