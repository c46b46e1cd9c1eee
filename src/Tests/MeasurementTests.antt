-- ===== src/Tests/MeasurementTests.antt =====
-- The accounting of tasks at concrete inputs.
use owlmatic.Prelude.{List, sum_by, ℕ, ◌≡◌, refl, true, false, Option, none, some, [], ◌∷◌, arith}
use owlmatic.Prelude.Int.{pos, negsuc, sub_ℕ, ◌+ℤ◌}
use owlmatic.Errors.{ok}
use owlmatic.Measurement.{
  HostName, TaskPurpose, Counter, Basis, TaskObservation, TokenUsage, Exposure, CostCoverage, Store,
  find_task, put, assess,
}
use owlmatic.Measurement.Immutable.{IsSound, put-IsSound, put-complete}
use owlmatic.Measurement.Savings.{AreCredits, IsComparable, assess-savings}

abbrev usage_of : ℕ → Option TokenUsage
usage_of n = some (record {
  input_tokens = n;
  cached_input_tokens = none;
  cache_write_input_tokens = none;
  output_tokens = 0;
  reasoning_output_tokens = none;
})

abbrev pub an_exposure : Exposure
an_exposure = record {
  complete = true;
  visible_bytes = 10;
  reference_tokens = none;
  counter = Counter.bytes;
  tool_results = 1;
}

abbrev pub manual_task : TaskObservation
manual_task = record {
  task_id = "m";
  host = HostName.codex;
  model = some "gpt";
  purpose = TaskPurpose.manual;
  workload = "default";
  workflow_ref = none;
  run_ids = [];
  verified = true;
  verification_basis = Basis.user_attested;
  usage = usage_of 1000;
  complete = true;
  exposure = an_exposure;
  issues = [];
  source_digest = "dm";
  source_key = "km";
  source_file_key = "fm";
  first_line = 1;
  last_line = none;
  observed_at = 5;
}

abbrev reuse_task : TaskObservation
reuse_task = record manual_task {
  task_id = "r";
  purpose = TaskPurpose.reuse;
  workflow_ref = some "team/health@1";
  run_ids = "run_1" ∷ [];
  verified = false;
  usage = usage_of 40;
  source_digest = "dr";
  source_key = "kr";
  source_file_key = "fr";
}

abbrev pub empty_store : Store
empty_store = record {
  tasks = [];
  run_tasks = [];
  baselines = [];
  coverages = [];
  drafts = [];
  emissions = [];
}

abbrev one_task : Store
one_task = record empty_store { tasks = manual_task ∷ [] }

abbrev pub two_tasks : Store
two_tasks = record empty_store {
  tasks = manual_task ∷ reuse_task ∷ [];
  run_tasks = ("run_1", "r") ∷ [];
}

empty-IsSound : IsSound empty_store
unfolding find_task
empty-IsSound = record {
  disjoint = λ i j x y ne hi hj. absurd (ground arith);
  attributed = λ id t run there counted. absurd (ground arith);
}

put_first : put manual_task empty_store ≡ ok (true, one_task)
unfolding put
put_first = refl

put_second : put reuse_task one_task ≡ ok (true, two_tasks)
unfolding put
put_second = refl

put-IsSound_example : IsSound one_task
put-IsSound_example = put-IsSound manual_task empty_store one_task true put_first empty-IsSound

two-IsSound : IsSound two_tasks
two-IsSound = put-IsSound reuse_task one_task two_tasks true put_second put-IsSound_example

put-complete_example :
    (t : TaskObservation) × (find_task "m" two_tasks.tasks ≡ some t)
    × (t.complete ≡ true)
    × (t.source_digest ≡ "dm")
    × (t.run_ids ≡ [])
    × (t.workflow_ref ≡ none)
put-complete_example =
    put-complete reuse_task one_task two_tasks true "m" manual_task put_second
      (unfold find_task in refl) refl

abbrev full_coverage : CostCoverage
full_coverage = record {
  workflow_ref = "team/health@1";
  setup_complete = true;
  maintenance_complete = true;
}

abbrev verified_task : TaskObservation
verified_task = record reuse_task { verified = true }

-- The cheapest baseline costs 1000 tokens, the task 40.
saved :
    (assess "team/health@1"
      (manual_task ∷ verified_task ∷ [])
      (manual_task ∷ [])
      full_coverage).estimated_operational_savings
    ≡ some (pos 960)
unfolding assess ◌+ℤ◌
saved = refl

assess-savings_example :
    IsComparable (manual_task ∷ []) (verified_task ∷ [])
    × (ns : List ℕ) × AreCredits (manual_task ∷ []) (verified_task ∷ []) ns
    × (pos 960 ≡ sub_ℕ (sum_by (λ x. x) ns) 40)
assess-savings_example =
    assess-savings "team/health@1" (manual_task ∷ verified_task ∷ []) (manual_task ∷ [])
      full_coverage (pos 960) saved

lost_tokens :
    (assess "team/health@1"
      (manual_task ∷ reuse_task ∷ [])
      (manual_task ∷ [])
      full_coverage).estimated_operational_savings
    ≡ some (negsuc 39)
unfolding assess ◌+ℤ◌
lost_tokens = refl
