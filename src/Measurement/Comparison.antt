-- ===== src/Measurement/Comparison.antt =====
-- measurement/estimation.py `assess`: the comparison of reuse tasks with their baselines.
use owlmatic.Prelude.{
  ℕ, min, max, Bool, false, ◌&&◌, ◌||◌, not, String, Option, none, some, is_some, is_none, List, [],
  ◌∷◌, ◌++◌, map, all, select, length, truthy, is_empty, nat_beq, ◌==◌, string_eq, option_eq,
  if◌then◌else◌,
}
use owlmatic.Prelude.Int.{ℤ, pos, sub_ℕ, ◌+ℤ◌}
use owlmatic.Measurement.Contracts.{
  TaskPurpose, Issue, TokenUsage, TaskObservation, total_tokens, or_zero,
  missing_complete_matching_usage_or_baseline, visible_context_incomplete,
}
use owlmatic.Measurement.Equality.{host_eq, task_purpose_eq, counter_eq}

abbrev pub usage_total : Option TokenUsage → ℕ
usage_total none = 0
usage_total (some u) = total_tokens u

abbrev pub tokens_of : TaskObservation → ℕ
tokens_of t = usage_total t.usage

-- t.complete and t.usage is not None
abbrev pub is_measured : TaskObservation → Bool
is_measured t = t.complete && is_some t.usage

abbrev pub has_purpose : TaskPurpose → TaskObservation → Bool
has_purpose p t = t.purpose == p

unfoldable pub is_candidate : TaskObservation → TaskObservation → Bool
is_candidate task b =
    has_purpose TaskPurpose.manual b
    && b.complete
    && b.verified
    && truthy b.model
    && (b.host == task.host && b.model == task.model && b.workload == task.workload)
    && is_some b.usage

-- min(f(x) for x in xs) of a non-empty list
unfoldable pub minimum {ℓ} : {A : Type ℓ} → (A → ℕ) → List A → ℕ
minimum f [] = 0
minimum f (x ∷ []) = f x
minimum f (x ∷ y ∷ xs) = min (f x) (minimum f (y ∷ xs))

unfoldable pub maximum {ℓ} : {A : Type ℓ} → (A → ℕ) → List A → ℕ
maximum f [] = 0
maximum f (x ∷ xs) = max (f x) (maximum f xs)

-- min(..., default=None), max(..., default=None)
abbrev pub unless_empty {ℓ} : {A : Type ℓ} → List A → ℕ → Option ℕ
unless_empty [] n = none
unless_empty (x ∷ xs) n = some n

-- The variables of the loop over the reuse tasks.
pub record Comparison : Type 0 where
  pub operational : ℤ
  pub context_bytes : ℤ
  pub context_tokens : ℤ
  pub comparable : Bool
  pub context_known : Bool
  pub reference_known : Bool
  pub used : List String
  pub issues : List Issue

-- min(...) if task.verified else 0
unfoldable pub credit : TaskObservation → (TaskObservation → ℕ) → List TaskObservation → ℕ
unfolding minimum
credit task f candidates = if task.verified then minimum f candidates else 0

abbrev pub has_reference : TaskObservation → TaskObservation → Bool
has_reference task b =
    b.exposure.counter == task.exposure.counter && is_some b.exposure.reference_tokens

abbrev pub reference_of : TaskObservation → ℕ
reference_of b = or_zero b.exposure.reference_tokens

-- The code calls a task incomparable without its usage or without a baseline like it.
abbrev pub is_incomparable : TaskObservation → List TaskObservation → Bool
is_incomparable task candidates = not task.complete || is_none task.usage || is_empty candidates

abbrev pub incomparable : Comparison → Comparison
incomparable c = record c {
  comparable = false;
  context_known = false;
  reference_known = false;
  issues = missing_complete_matching_usage_or_baseline ∷ c.issues;
}

abbrev pub is_hidden : TaskObservation → List TaskObservation → Bool
is_hidden task candidates =
    not task.exposure.complete || not (all (λ b. b.exposure.complete) candidates)

abbrev pub is_unreferenced : TaskObservation → List TaskObservation → Bool
is_unreferenced task candidates =
    is_none task.exposure.reference_tokens
    || not (nat_beq (length (select (has_reference task) candidates)) (length candidates))

unfoldable pub compared : TaskObservation → List TaskObservation → Comparison → Comparison
unfolding credit
compared task candidates c =
    let hidden = is_hidden task candidates in
    let unreferenced = is_unreferenced task candidates in
    record {
      operational = c.operational +ℤ sub_ℕ (credit task tokens_of candidates) (tokens_of task);
      context_bytes =
          c.context_bytes
          +ℤ sub_ℕ (credit task (λ b. b.exposure.visible_bytes) candidates)
              task.exposure.visible_bytes;
      context_tokens =
          if unreferenced
          then c.context_tokens
          else c.context_tokens
            +ℤ sub_ℕ (credit task reference_of (select (has_reference task) candidates))
                (reference_of task);
      comparable = c.comparable;
      context_known = c.context_known && not hidden;
      reference_known = c.reference_known && not hidden && not unreferenced;
      used = map (λ b. b.task_id) candidates ++ c.used;
      issues = if hidden then visible_context_incomplete ∷ c.issues else c.issues;
    }

unfoldable pub compare_task : List TaskObservation → TaskObservation → Comparison → Comparison
unfolding is_candidate compared
compare_task baselines task c =
    let candidates = select (is_candidate task) baselines in
    if is_incomparable task candidates then incomparable c else compared task candidates c

-- for task in reuse
unfoldable pub compare_all : List TaskObservation → List TaskObservation → Comparison → Comparison
unfolding compare_task
compare_all baselines [] c = c
compare_all baselines (task ∷ reuse) c = compare_all baselines reuse (compare_task baselines task c)

abbrev pub start : List TaskObservation → Comparison
start reuse = record {
  operational = pos 0;
  context_bytes = pos 0;
  context_tokens = pos 0;
  comparable = not (is_empty reuse);
  context_known = not (is_empty reuse);
  reference_known = not (is_empty reuse);
  used = [];
  issues = [];
}
