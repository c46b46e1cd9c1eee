-- ===== src/Statistics/Service.antt =====
-- statistics_service.py. The clock and the ledger's aggregation enter as arguments of `report`: the
-- first day, the texts of the two instants, the buckets, and the stored baselines.
use Prim.Native.Nat.{Ordering}
use Prim.Native.String.{compare}
use owlmatic.Prelude.{
  ℕ, zero, suc, ◌+◌, ◌-◌, ◌*◌, Bool, true, false, ◌&&◌, not, String, Option, none, some, is_some,
  List, [], ◌∷◌, map, select, sum_by, ltb, nat_beq, ◌==◌, string_eq, if◌then◌else◌, is_empty,
  contains,
}
use owlmatic.Prelude.Int.{ℤ, pos, sub_ℕ, ◌+ℤ◌, ◌-ℤ◌}
use owlmatic.Domain.{
  State, state_eq, Outcome, outcome_eq, Purpose, purpose_eq, is_running, is_verdict, is_uncertain,
}
use owlmatic.Measurement.{MeasurementReport}
use owlmatic.Statistics.Contracts.{
  SavingsBaseline, RunBucket, WorkflowStatistics, DailyStatistics, StatisticsReport,
}

-- A completed run with a verdict and known effects.
unfoldable pub verified : RunBucket → Bool
verified b = b.state == State.completed && is_verdict b.outcome && not (is_uncertain b.effects)

-- state in {"error", "blocked", "cancelled"}
abbrev pub is_failure : State → Bool
is_failure State.error = true
is_failure State.blocked = true
is_failure State.cancelled = true
is_failure _ = false

-- sum(b.count for b in buckets if test(b))
unfoldable pub count_if : (RunBucket → Bool) → List RunBucket → ℕ
count_if test [] = 0
count_if test (b ∷ bs) = (if test b then b.count else 0) + count_if test bs

abbrev pub all_buckets : RunBucket → Bool
all_buckets b = true

-- Costs count when there is a baseline and something has ended.
unfoldable pub modeled_cost : Option SavingsBaseline → ℕ → (SavingsBaseline → ℕ) → Option ℕ
modeled_cost none terminal cost = none
modeled_cost (some b) terminal cost = if ltb 0 terminal then some (cost b) else none

unfoldable pub net_saved : Option SavingsBaseline → Option ℕ → Option ℕ → Option ℤ
net_saved (some b) (some manual) (some automated) =
    some (pos manual -ℤ pos automated -ℤ pos b.setup_tokens)
net_saved _ _ _ = none

unfoldable pub workflow_statistics :
    String → List RunBucket → Option SavingsBaseline → WorkflowStatistics
unfolding count_if verified modeled_cost net_saved
workflow_statistics ref buckets baseline =
    let total = count_if all_buckets buckets in
    let running = count_if (λ b. is_running b.state) buckets in
    let completed = count_if verified buckets in
    let terminal = total - running in
    let manual = modeled_cost baseline terminal (λ b. completed * b.manual_tokens) in
    let automated = modeled_cost baseline terminal (λ b. terminal * b.owlmatic_tokens) in
    record {
      ref = ref;
      runs = total;
      terminal = terminal;
      verified = completed;
      passed = count_if (λ b. verified b && b.outcome == Outcome.pass) buckets;
      detected_failures = count_if (λ b. verified b && b.outcome == Outcome.fail) buckets;
      execution_errors = count_if (λ b. is_failure b.state) buckets;
      running = running;
      duration_ms = sum_by (λ b. b.duration_ms) (select (λ b. not (is_running b.state)) buckets);
      baseline = baseline;
      estimated_manual_tokens = manual;
      estimated_owlmatic_tokens = automated;
      estimated_net_tokens_saved = net_saved baseline manual automated;
    }

-- {b.ref: b for b in baselines}.get(ref): the last one wins.
unfoldable pub find_baseline : String → List SavingsBaseline → Option SavingsBaseline
find_baseline ref [] = none
find_baseline ref (b ∷ bs) = elim (find_baseline ref bs) [
  | some later ↦ some later
  | none ↦ if b.ref == ref then some b else none
]

abbrev pub is_workflow : RunBucket → Bool
is_workflow b = b.purpose == Purpose.workflow

-- The keys of `by_workflow`, each once.
unfoldable pub workflow_keys : List RunBucket → List String
workflow_keys [] = []
workflow_keys (b ∷ bs) =
    let keys = workflow_keys bs in
    if is_workflow b && not (contains b.ref keys) then b.ref ∷ keys else keys

abbrev pub text_before : String → String → Bool
text_before a b = elim (compare a b) [ Ordering.gt ↦ false | _ ↦ true ]

unfoldable pub insert_ref : String → List String → List String
insert_ref ref [] = ref ∷ []
insert_ref ref (r ∷ refs) = if text_before ref r then ref ∷ r ∷ refs else r ∷ insert_ref ref refs

-- sorted(...)
unfoldable pub sort_refs : List String → List String
unfolding insert_ref
sort_refs [] = []
sort_refs (r ∷ refs) = insert_ref r (sort_refs refs)

unfoldable pub workflow_refs : List RunBucket → List String
unfolding workflow_keys sort_refs
workflow_refs buckets = sort_refs (workflow_keys buckets)

-- by_workflow[ref] and by_day[day]
abbrev pub of_ref : String → List RunBucket → List RunBucket
of_ref ref = select (λ b. is_workflow b && b.ref == ref)

abbrev pub of_day : ℕ → List RunBucket → List RunBucket
of_day day = select (λ b. is_workflow b && nat_beq b.day day)

-- The credit of one bucket, where its workflow has a baseline and the runs have ended.
unfoldable pub bucket_cost : List SavingsBaseline → RunBucket → ℤ
unfolding find_baseline verified
bucket_cost baselines b = elim (find_baseline b.ref baselines) [
  | none ↦ pos 0
  | some baseline ↦
      if is_running b.state
      then pos 0
      else sub_ℕ (b.count * (if verified b then baseline.manual_tokens else 0))
          (b.count * baseline.owlmatic_tokens)
]

unfoldable pub sum_cost : List SavingsBaseline → List RunBucket → ℤ
unfolding bucket_cost
sum_cost baselines [] = pos 0
sum_cost baselines (b ∷ bs) = bucket_cost baselines b +ℤ sum_cost baselines bs

unfoldable pub day_statistics : List SavingsBaseline → Bool → List RunBucket → ℕ → DailyStatistics
unfolding sum_cost count_if verified
day_statistics baselines modeled buckets day =
    let rows = of_day day buckets in
    record {
      day = day;
      runs = count_if all_buckets rows;
      verified = count_if verified rows;
      estimated_tokens_saved_before_setup =
          if modeled then some (sum_cost baselines rows) else none;
    }

-- for offset in range(days)
unfoldable pub daily_from : (ℕ → DailyStatistics) → ℕ → ℕ → List DailyStatistics
daily_from row first zero = []
daily_from row first (suc days) = row first ∷ daily_from row (suc first) days

abbrev pub or_none : Option ℕ → ℕ
or_none none = 0
or_none (some n) = n

abbrev pub net_or_zero : Option ℤ → ℤ
net_or_zero none = pos 0
net_or_zero (some n) = n

abbrev pub setup_of : WorkflowStatistics → ℕ
setup_of w = elim w.baseline [ none ↦ 0 | some b ↦ b.setup_tokens ]

unfoldable pub sum_net : List WorkflowStatistics → ℤ
sum_net [] = pos 0
sum_net (w ∷ ws) = net_or_zero w.estimated_net_tokens_saved +ℤ sum_net ws

abbrev pub is_modeled : WorkflowStatistics → Bool
is_modeled w = is_some w.estimated_net_tokens_saved

abbrev pub if_modeled {ℓ} : {A : Type ℓ} → List WorkflowStatistics → A → Option A
if_modeled [] a = none
if_modeled (w ∷ ws) a = some a

unfoldable pub workflow_rows : List RunBucket → List SavingsBaseline → List WorkflowStatistics
unfolding workflow_refs workflow_statistics find_baseline
workflow_rows buckets baselines =
    map (λ ref. workflow_statistics ref (of_ref ref buckets) (find_baseline ref baselines))
      (workflow_refs buckets)

unfoldable pub report :
    Option MeasurementReport
    → String
    → String
    → ℕ
    → ℕ
    → List RunBucket
    → List SavingsBaseline
    → StatisticsReport
unfolding workflow_rows day_statistics daily_from sum_net count_if
report measurements now start first_day days buckets baselines =
    let workflows = workflow_rows buckets baselines in
    let modeled = select is_modeled workflows in
    record {
      measurements = measurements;
      generated_at = now;
      since = start;
      days = days;
      runs = sum_by (λ w. w.runs) workflows;
      terminal = sum_by (λ w. w.terminal) workflows;
      verified = sum_by (λ w. w.verified) workflows;
      execution_errors = sum_by (λ w. w.execution_errors) workflows;
      running = sum_by (λ w. w.running) workflows;
      duration_ms = sum_by (λ w. w.duration_ms) workflows;
      excluded_validation_runs = count_if (λ b. b.purpose == Purpose.validation) buckets;
      excluded_legacy_runs = count_if (λ b. b.purpose == Purpose.unknown) buckets;
      modeled_runs = sum_by (λ w. w.terminal) modeled;
      estimated_manual_tokens =
          if_modeled modeled (sum_by (λ w. or_none w.estimated_manual_tokens) modeled);
      estimated_owlmatic_tokens =
          if_modeled modeled (sum_by (λ w. or_none w.estimated_owlmatic_tokens) modeled);
      estimated_setup_tokens = if_modeled modeled (sum_by setup_of modeled);
      estimated_net_tokens_saved = if_modeled modeled (sum_net modeled);
      workflows = workflows;
      daily = daily_from (day_statistics baselines (not (is_empty modeled)) buckets) first_day days;
    }
