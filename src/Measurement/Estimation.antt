-- ===== src/Measurement/Estimation.antt =====
-- measurement/estimation.py `assess`. A set that is sorted at the end is kept sorted, each once.
use Prim.Native.Nat.{Ordering}
use Prim.Native.String.{compare}
use owlmatic.Prelude.{
  ℕ, ◌+◌, Bool, true, false, ◌&&◌, not, String, Option, none, some, is_some, List, [], ◌∷◌, any,
  all, contains, select, length, truthy, is_empty, nat_beq, ◌==◌, string_eq, option_eq,
  if◌then◌else◌, sum_by,
}
use owlmatic.Prelude.Int.{ℤ, pos, ◌-ℤ◌}
use owlmatic.Measurement.Contracts.{
  HostName, TaskPurpose, Quality, Issue, TaskObservation, CostCoverage, Assessment,
  missing_complete_matching_usage_or_baseline, visible_context_incomplete,
  execution_usage_incomplete, creation_cost_coverage_unknown, maintenance_cost_coverage_unknown,
  historical_minimum_is_not_a_future_guarantee,
}
use owlmatic.Measurement.Equality.{host_eq, task_purpose_eq, counter_eq, issue_tag}
use owlmatic.Measurement.Comparison.{
  tokens_of, is_measured, has_purpose, minimum, maximum, unless_empty, compare_all, start,
}

-- The cost of the tasks of one purpose, if it is known.
unfoldable pub cost : TaskPurpose → Bool → List TaskObservation → Option ℕ
cost purpose complete related =
    let observations = select (has_purpose purpose) related in
    if complete && all is_measured observations then some (sum_by tokens_of observations) else none

abbrev pub net_savings : Bool → ℤ → Option ℕ → Option ℕ → Option ℤ
net_savings true n (some creation) (some maintenance) = some (n -ℤ pos creation -ℤ pos maintenance)
net_savings _ _ _ _ = none

abbrev pub when {ℓ} : {A : Type ℓ} → Bool → A → Option A
when true a = some a
when false a = none

abbrev pub quality_of : Bool → Bool → Quality
quality_of false comparable = Quality.unmeasured
quality_of true true = Quality.preliminary
quality_of true false = Quality.partial

-- sorted(issues): the names that estimation can add, in their order.
abbrev pub issue_order : List Issue
issue_order =
    creation_cost_coverage_unknown ∷ execution_usage_incomplete
    ∷ historical_minimum_is_not_a_future_guarantee ∷ maintenance_cost_coverage_unknown
    ∷ missing_complete_matching_usage_or_baseline ∷ visible_context_incomplete ∷ []

abbrev pub has_issue : List Issue → Issue → Bool
has_issue issues i = any (λ j. nat_beq (issue_tag j) (issue_tag i)) issues

abbrev pub issue_if {ℓ} : {A : Type ℓ} → Option A → Issue → List Issue → List Issue
issue_if none i issues = i ∷ issues
issue_if (some a) i issues = issues

unfoldable pub all_issues : Bool → Option ℕ → Option ℕ → List Issue → List Issue
all_issues measured creation maintenance found =
    let execution = if measured then found else execution_usage_incomplete ∷ found in
    select
      (has_issue (
        historical_minimum_is_not_a_future_guarantee
        ∷ issue_if creation creation_cost_coverage_unknown
            (issue_if maintenance maintenance_cost_coverage_unknown execution)))
      issue_order

unfoldable pub insert_text : String → List String → List String
insert_text a [] = a ∷ []
insert_text a (b ∷ bs) =
    let rest = insert_text a bs in
    elim (compare a b) [ Ordering.lt ↦ a ∷ b ∷ bs | Ordering.eq ↦ b ∷ bs | Ordering.gt ↦ b ∷ rest ]

unfoldable pub workloads_of : List TaskObservation → List String
unfolding insert_text
workloads_of [] = []
workloads_of (t ∷ tasks) = insert_text t.workload (workloads_of tasks)

-- "claude/..." is before "codex/...".
abbrev pub is_before : HostName × String → HostName × String → Ordering
is_before (HostName.claude, m) (HostName.codex, n) = Ordering.lt
is_before (HostName.codex, m) (HostName.claude, n) = Ordering.gt
is_before (_, m) (_, n) = compare m n

unfoldable pub insert_model :
    HostName × String → List (HostName × String) → List (HostName × String)
insert_model a [] = a ∷ []
insert_model a (b ∷ bs) =
    let rest = insert_model a bs in
    elim (is_before a b) [
      | Ordering.lt ↦ a ∷ b ∷ bs
      | Ordering.eq ↦ b ∷ bs
      | Ordering.gt ↦ b ∷ rest
    ]

abbrev pub add_model :
    HostName → Option String → List (HostName × String) → List (HostName × String)
add_model host none models = models
add_model host (some m) models = if truthy (some m) then insert_model (host, m) models else models

unfoldable pub models_of : List TaskObservation → List (HostName × String)
unfolding insert_model
models_of [] = []
models_of (t ∷ tasks) = add_model t.host t.model (models_of tasks)

-- len(set(xs))
unfoldable pub count_distinct : List String → ℕ
count_distinct [] = 0
count_distinct (x ∷ xs) = let rest = count_distinct xs in if contains x xs then rest else 1 + rest

unfoldable pub assess :
    String → List TaskObservation → List TaskObservation → CostCoverage → Assessment
unfolding compare_all cost all_issues workloads_of models_of count_distinct minimum maximum
assess ref tasks baselines coverage =
    let related = select (λ t. t.workflow_ref == some ref) tasks in
    let reuse = select (has_purpose TaskPurpose.reuse) related in
    let measured = select is_measured reuse in
    let c = compare_all baselines reuse (start reuse) in
    let creation = cost TaskPurpose.creation coverage.setup_complete related in
    let maintenance = cost TaskPurpose.maintenance coverage.maintenance_complete related in
    let sampled = select (λ b. contains b.task_id c.used && is_some b.usage) baselines in
    record {
      workflow_ref = ref;
      observed_tasks = length reuse;
      measured_tasks = length measured;
      baseline_samples = count_distinct c.used;
      baseline_min_tokens = unless_empty sampled (minimum tokens_of sampled);
      baseline_max_tokens = unless_empty sampled (maximum tokens_of sampled);
      host_models = models_of reuse;
      workloads = workloads_of reuse;
      measured_agent_tokens = unless_empty measured (sum_by tokens_of measured);
      estimated_operational_savings = when c.comparable c.operational;
      estimated_net_savings = net_savings c.comparable c.operational creation maintenance;
      estimated_context_reference_tokens = when c.reference_known c.context_tokens;
      context_bytes_reduced = when c.context_known c.context_bytes;
      creation_tokens = creation;
      maintenance_tokens = maintenance;
      quality = quality_of (not (is_empty measured)) c.comparable;
      issues = all_issues (nat_beq (length measured) (length reuse)) creation maintenance c.issues;
      latest_observation_at = unless_empty related (maximum (λ t. t.observed_at) related);
    }
