-- ===== src/Statistics/Totals.antt =====
-- statistics_service.py: the totals of a report.
use mathlib.Core.Path.{subst⁻¹}
use owlmatic.Prelude.{
  ℕ, suc, ◌≡◌, ◌≤◌, ◌+◌, ◌*◌, refl, ◌∙◌, Bool, true, false, ◌&&◌, not, String, Option, List, [],
  ◌∷◌, map, sum_by, count_by, ◌==◌, string_eq, if◌then◌else◌, contains, arith, eq_iff, Bool-cases,
  inl, inr,
}
use owlmatic.Domain.{state_eq, Outcome, outcome_eq, Purpose, purpose_eq, is_running}
use owlmatic.Measurement.{MeasurementReport}
use owlmatic.Statistics.Contracts.{SavingsBaseline, RunBucket, WorkflowStatistics}
use owlmatic.Statistics.Service.{
  verified, count_if, is_failure, all_buckets, is_workflow, of_ref, workflow_statistics,
  workflow_keys, insert_ref, sort_refs, workflow_refs, find_baseline, workflow_rows, report,
}

-- A bucket's runs are active, verified, failed, or completed without a verdict: never two of these.
bucket_parts :
    (bs : List RunBucket)
    → count_if (λ b. is_running b.state) bs
        + count_if verified bs
        + count_if (λ b. is_failure b.state) bs
      ≤ count_if all_buckets bs
unfolding count_if verified
bucket_parts [] = omega arith
bucket_parts (b ∷ bs) = ground (arith, bucket_parts bs)

bucket_verdicts :
    (bs : List RunBucket)
    → count_if verified bs
      ≡ count_if (λ b. verified b && b.outcome == Outcome.pass) bs
        + count_if (λ b. verified b && b.outcome == Outcome.fail) bs
unfolding count_if verified
bucket_verdicts [] = refl
bucket_verdicts (b ∷ bs) = ground (arith, bucket_verdicts bs)

-- The counts of one workflow add up: every run is active or terminal, a verified run has passed
-- or has detected a failure, and verified runs and execution errors are different terminal runs.
pub workflow_statistics-counts :
    (ref : String) (buckets : List RunBucket) (baseline : Option SavingsBaseline)
    → let w = workflow_statistics ref buckets baseline in
      (w.runs ≡ w.terminal + w.running)
      × (w.verified ≡ w.passed + w.detected_failures)
      × (w.verified + w.execution_errors ≤ w.terminal)
unfolding workflow_statistics
workflow_statistics-counts ref buckets baseline = (
  omega (arith, bucket_parts buckets),
  bucket_verdicts buckets,
  omega (arith, bucket_parts buckets),
)

abbrev same_ref : String → String → Bool
same_ref ref r = r == ref

-- How often a reference stands among the rows.
abbrev pub multiplicity : String → List String → ℕ
multiplicity ref = count_by (same_ref ref)

multiplicity-insert :
    (ref r : String) (refs : List String)
    → multiplicity ref (insert_ref r refs) ≡ multiplicity ref (r ∷ refs)
unfolding insert_ref
multiplicity-insert ref r [] = refl
multiplicity-insert ref r (q ∷ refs) = ground (arith, multiplicity-insert ref r refs)

multiplicity-sort :
    (ref : String) (refs : List String) → multiplicity ref (sort_refs refs) ≡ multiplicity ref refs
unfolding sort_refs
multiplicity-sort ref [] = refl
multiplicity-sort ref (r ∷ refs) =
    ground (arith, multiplicity-insert ref r (sort_refs refs), multiplicity-sort ref refs)

contains-multiplicity :
    (ref : String) (refs : List String) → contains ref refs ≡ false → multiplicity ref refs ≡ 0
contains-multiplicity ref [] h = refl
contains-multiplicity ref (r ∷ refs) h = ground (arith, contains-multiplicity ref refs)

contains-pos :
    (ref : String) (refs : List String) → contains ref refs ≡ true → 1 ≤ multiplicity ref refs
contains-pos ref [] h = cc
contains-pos ref (r ∷ refs) h = ground (arith, contains-pos ref refs)

multiplicity-keys-le :
    (ref : String) (bs : List RunBucket) → multiplicity ref (workflow_keys bs) ≤ 1
unfolding workflow_keys
multiplicity-keys-le ref [] = omega arith
multiplicity-keys-le ref (b ∷ bs) = ground (
  arith,
  eq_iff b.ref ref,
  contains-multiplicity ref (workflow_keys bs),
  multiplicity-keys-le ref bs,
)

abbrev within : (RunBucket → Bool) → RunBucket → Bool
within test b = is_workflow b && test b

abbrev sum_refs : (RunBucket → Bool) → List RunBucket → List String → ℕ
sum_refs test bs = sum_by (λ r. count_if test (of_ref r bs))

abbrev weight : (RunBucket → Bool) → RunBucket → ℕ → ℕ
weight test b n = if within test b then b.count * n else 0

sum_refs-nil : (test : RunBucket → Bool) (refs : List String) → sum_refs test [] refs ≡ 0
unfolding count_if
sum_refs-nil test [] = refl
sum_refs-nil test (r ∷ refs) = omega (arith, sum_refs-nil test refs)

one_more : (c n : ℕ) → c * suc n ≡ c + c * n
one_more c n = grind arith

sum_refs-cons :
    (test : RunBucket → Bool) (b : RunBucket) (bs : List RunBucket) (refs : List String)
    → sum_refs test (b ∷ bs) refs ≡ weight test b (multiplicity b.ref refs) + sum_refs test bs refs
unfolding count_if
sum_refs-cons test b bs [] = ground arith
sum_refs-cons test b bs (r ∷ refs) = ground (
  arith,
  eq_iff b.ref r,
  eq_iff r b.ref,
  one_more b.count (multiplicity b.ref refs),
  sum_refs-cons test b bs refs,
)

-- Every workflow bucket finds its reference exactly once.
abbrev Covers : List String → List RunBucket → Type 0
Covers refs [] = Unit
Covers refs (b ∷ bs) = (is_workflow b ≡ true → multiplicity b.ref refs ≡ 1) × Covers refs bs

sum_refs-covered :
    (test : RunBucket → Bool) (refs : List String) (bs : List RunBucket)
    → Covers refs bs
    → sum_refs test bs refs ≡ count_if (within test) bs
unfolding count_if
sum_refs-covered test refs [] c = sum_refs-nil test refs
sum_refs-covered test refs (b ∷ bs) c =
    ground (arith, sum_refs-cons test b bs refs, sum_refs-covered test refs bs c.1, c.0)

abbrev Lists : List String → List RunBucket → Type 0
Lists refs [] = Unit
Lists refs (b ∷ bs) = (is_workflow b ≡ true → 1 ≤ multiplicity b.ref refs) × Lists refs bs

Lists-more :
    (k : String) (refs : List String) (bs : List RunBucket) → Lists refs bs → Lists (k ∷ refs) bs
Lists-more k refs [] l = tt
Lists-more k refs (b ∷ bs) l = ((λ w. ground (arith, l.0 w)), Lists-more k refs bs l.1)

keys-fresh :
    (b : RunBucket) (bs : List RunBucket)
    → is_workflow b && not (contains b.ref (workflow_keys bs)) ≡ true
    → workflow_keys (b ∷ bs) ≡ b.ref ∷ workflow_keys bs
unfolding workflow_keys
keys-fresh b bs h = ground arith

keys-old :
    (b : RunBucket) (bs : List RunBucket)
    → is_workflow b && not (contains b.ref (workflow_keys bs)) ≡ false
    → workflow_keys (b ∷ bs) ≡ workflow_keys bs
unfolding workflow_keys
keys-old b bs h = ground arith

Lists-keys : (bs : List RunBucket) → Lists (workflow_keys bs) bs
Lists-keys [] = tt
Lists-keys (b ∷ bs) = elim (Bool-cases (is_workflow b && not (contains b.ref (workflow_keys bs)))) [
  | inl fresh ↦
      subst⁻¹ (λ keys. Lists keys (b ∷ bs)) (keys-fresh b bs fresh)
        (
          (λ w. ground (arith, eq_iff b.ref b.ref)),
          Lists-more b.ref (workflow_keys bs) bs (Lists-keys bs),
        )
  | inr old ↦
      subst⁻¹ (λ keys. Lists keys (b ∷ bs)) (keys-old b bs old)
        ((λ w. ground (arith, contains-pos b.ref (workflow_keys bs))), Lists-keys bs)
]

Covers-refs :
    (all bs : List RunBucket) → Lists (workflow_keys all) bs → Covers (workflow_refs all) bs
unfolding workflow_refs
Covers-refs all [] l = tt
Covers-refs all (b ∷ bs) l = (
  (λ w.
      omega (
        arith,
        l.0 w,
        multiplicity-keys-le b.ref all,
        multiplicity-sort b.ref (workflow_keys all),
      )),
  Covers-refs all bs l.1,
)

sum_by-rows :
    (f : WorkflowStatistics → ℕ) (test : RunBucket → Bool) (buckets : List RunBucket)
    (baselines : List SavingsBaseline) (refs : List String)
    → ((ref : String)
        → f (workflow_statistics ref (of_ref ref buckets) (find_baseline ref baselines))
          ≡ count_if test (of_ref ref buckets))
    → sum_by f (
        map
          (λ ref. workflow_statistics ref (of_ref ref buckets) (find_baseline ref baselines))
          refs)
      ≡ sum_refs test buckets refs
sum_by-rows f test buckets baselines [] h = refl
sum_by-rows f test buckets baselines (r ∷ refs) h =
    omega (arith, h r, sum_by-rows f test buckets baselines refs h)

sum_rows :
    (f : WorkflowStatistics → ℕ) (test : RunBucket → Bool) (buckets : List RunBucket)
    (baselines : List SavingsBaseline)
    → ((ref : String)
        → f (workflow_statistics ref (of_ref ref buckets) (find_baseline ref baselines))
          ≡ count_if test (of_ref ref buckets))
    → sum_by f (workflow_rows buckets baselines) ≡ count_if (within test) buckets
unfolding workflow_rows
sum_rows f test buckets baselines h =
    sum_by-rows f test buckets baselines (workflow_refs buckets) h
    ∙ sum_refs-covered test (workflow_refs buckets) buckets
        (Covers-refs buckets buckets (Lists-keys buckets))

count_purposes :
    (bs : List RunBucket)
    → count_if (within all_buckets) bs
        + count_if (λ b. b.purpose == Purpose.validation) bs
        + count_if (λ b. b.purpose == Purpose.unknown) bs
      ≡ count_if all_buckets bs
unfolding count_if
count_purposes [] = refl
count_purposes (b ∷ bs) = ground (arith, count_purposes bs)

-- The report counts every retained run once: as a run of one workflow row, as an excluded
-- validation or as an excluded legacy run. Its totals of verified, failed and active runs are
-- those of all workflow runs, whatever their rows.
pub report-counts :
    (measurements : Option MeasurementReport) (now start : String) (first_day days : ℕ)
    (buckets : List RunBucket) (baselines : List SavingsBaseline)
    → let r = report measurements now start first_day days buckets baselines in
      (r.runs + r.excluded_validation_runs + r.excluded_legacy_runs ≡ count_if all_buckets buckets)
      × (r.verified ≡ count_if (λ b. is_workflow b && verified b) buckets)
      × (r.execution_errors ≡ count_if (λ b. is_workflow b && is_failure b.state) buckets)
      × (r.running ≡ count_if (λ b. is_workflow b && is_running b.state) buckets)
unfolding report
report-counts measurements now start first_day days buckets baselines = (
  unfold workflow_statistics in
      omega (
        arith,
        sum_rows (λ w. w.runs) all_buckets buckets baselines (λ r. refl),
        count_purposes buckets,
      ),
  unfold workflow_statistics in sum_rows (λ w. w.verified) verified buckets baselines (λ r. refl),
  unfold workflow_statistics in
      sum_rows (λ w. w.execution_errors) (λ b. is_failure b.state) buckets baselines (λ r. refl),
  unfold workflow_statistics in
      sum_rows (λ w. w.running) (λ b. is_running b.state) buckets baselines (λ r. refl),
)
