-- ===== src/Export/Consent.antt =====
-- export_projection.py: the snapshot and the consent of the user.
use owlmatic.Prelude.{
  ℕ, ◌≡◌, ◌≤◌, refl, ap, Bool, true, false, String, Option, List, [], ◌∷◌, map, length, arith,
  if◌then◌else◌,
}
use owlmatic.Errors.{ok}
use owlmatic.Statistics.{StatisticsReport, WorkflowStatistics, DailyStatistics}
use owlmatic.Export.Contracts.{
  body, version_1, version_2, ExportScope, Snapshot, enforce_scope, measurement_scope,
  exceeds_limits, rows_of, daily_has_savings, workflow_has_savings,
}
use owlmatic.Export.Projection.{
  SchemaVersion, one, two, daily_metrics, workflow_metrics, only_if, given, snapshot_body,
  extension, snapshot,
}

length-map {ℓ κ} :
    {A : Type ℓ} {B : Type κ} (f : A → B) (xs : List A) → length (map f xs) ≡ length xs
length-map f [] = refl
length-map f (x ∷ xs) = ground (arith, length-map f xs)

daily-silent :
    (rows : List DailyStatistics) → daily_has_savings (map (daily_metrics false) rows) ≡ false
unfolding daily_metrics
daily-silent [] = refl
daily-silent (d ∷ rows) = daily-silent rows

workflows-silent :
    (rows : List WorkflowStatistics)
    → workflow_has_savings (map (workflow_metrics false) rows) ≡ false
unfolding workflow_metrics
workflows-silent [] = refl
workflows-silent (w ∷ rows) = workflows-silent rows

-- The bounds that the fields of a snapshot have.
pub record IsBounded (r : StatisticsReport) (sequence : ℕ) : Type 0 where
  pub numbered : 1 ≤ sequence
  pub some_days : 1 ≤ r.days
  pub few_days : r.days ≤ 3650
  pub few_daily : length r.daily ≤ 3650
  pub few_workflows : length r.workflows ≤ 10000

length-given {ℓ κ} :
    {A : Type ℓ} {B : Type κ} (b : Bool) (f : A → B) (xs : List A)
    → length (rows_of (given b (map f xs))) ≤ length xs
length-given true f xs = omega (arith, length-map f xs)
length-given false f xs = omega arith

within_limits :
    (r : StatisticsReport) (scope : ExportScope) (source_id snapshot_id : String) (sequence : ℕ)
    → IsBounded r sequence
    → exceeds_limits (snapshot_body r scope source_id snapshot_id sequence) ≡ false
unfolding snapshot_body
within_limits r scope source_id snapshot_id sequence b =
    let few = length-given scope.daily_breakdown (daily_metrics scope.savings_estimates) r.daily in
    let little =
      length-given scope.workflow_identifiers (workflow_metrics scope.savings_estimates)
        r.workflows in
    ground arith

scope_respected :
    (savings daily workflows : Bool) (r : StatisticsReport) (source_id snapshot_id : String)
    (sequence : ℕ)
    → let scope : ExportScope = record {
      savings_estimates = savings;
      daily_breakdown = daily;
      workflow_identifiers = workflows;
    } in
      let b = snapshot_body r scope source_id snapshot_id sequence in
      exceeds_limits b ≡ false → enforce_scope b ≡ ok b
unfolding enforce_scope snapshot_body
scope_respected true true true r source_id snapshot_id sequence h = rw h
scope_respected true true false r source_id snapshot_id sequence h = rw h
scope_respected true false true r source_id snapshot_id sequence h = rw h
scope_respected true false false r source_id snapshot_id sequence h = rw h
scope_respected false true true r source_id snapshot_id sequence h =
    rw (h, daily-silent r.daily, workflows-silent r.workflows)
scope_respected false true false r source_id snapshot_id sequence h = rw (h, daily-silent r.daily)
scope_respected false false true r source_id snapshot_id sequence h =
    rw (h, workflows-silent r.workflows)
scope_respected false false false r source_id snapshot_id sequence h = rw h

enforce_scope-body :
    (r : StatisticsReport) (scope : ExportScope) (source_id snapshot_id : String) (sequence : ℕ)
    → IsBounded r sequence
    → enforce_scope (snapshot_body r scope source_id snapshot_id sequence)
      ≡ ok (snapshot_body r scope source_id snapshot_id sequence)
enforce_scope-body r scope source_id snapshot_id sequence b =
    scope_respected scope.savings_estimates scope.daily_breakdown scope.workflow_identifiers r
      source_id snapshot_id sequence (within_limits r scope source_id snapshot_id sequence b)

measurement_scope-extension :
    (r : StatisticsReport) (scope : ExportScope) (source_id snapshot_id : String) (sequence : ℕ)
    (label : Option String) (m : Bool)
    → measurement_scope
        (snapshot_body r scope source_id snapshot_id sequence)
        (extension r scope label m)
      ≡ ok (
          version_2
            (snapshot_body r scope source_id snapshot_id sequence)
            (extension r scope label m))
unfolding measurement_scope extension snapshot_body
measurement_scope-extension r scope source_id snapshot_id sequence label true = ground arith
measurement_scope-extension r scope source_id snapshot_id sequence label false = ground arith

-- The projection always fits the contract: within the bounds of its fields, no report, scope,
-- version or label makes `snapshot` raise, and the body is the projected one.
pub snapshot-ok :
    (r : StatisticsReport) (scope : ExportScope) (source_id snapshot_id : String) (sequence : ℕ)
    (version : SchemaVersion) (label : Option String) (include_measurements : Bool)
    → IsBounded r sequence
    → (s : Snapshot) × (snapshot r scope source_id snapshot_id sequence version label
          include_measurements
        ≡ ok s)
      × (body s ≡ snapshot_body r scope source_id snapshot_id sequence)
unfolding snapshot
snapshot-ok r scope source_id snapshot_id sequence one label m b = (
  version_1 (snapshot_body r scope source_id snapshot_id sequence),
  rw (enforce_scope-body r scope source_id snapshot_id sequence b) refl,
  refl,
)
snapshot-ok r scope source_id snapshot_id sequence two label m b = (
  version_2 (snapshot_body r scope source_id snapshot_id sequence) (extension r scope label m),
  rw (enforce_scope-body r scope source_id snapshot_id sequence b)
      (measurement_scope-extension r scope source_id snapshot_id sequence label m),
  refl,
)

-- A report without what the user has not agreed to share.
abbrev pub silent_daily : Bool → DailyStatistics → DailyStatistics
silent_daily savings d = record d {
  estimated_tokens_saved_before_setup = only_if savings d.estimated_tokens_saved_before_setup;
}

abbrev pub silent_workflow : Bool → WorkflowStatistics → WorkflowStatistics
silent_workflow savings w = record w {
  passed = 0;
  detected_failures = 0;
  baseline = only_if savings w.baseline;
  estimated_manual_tokens = only_if savings w.estimated_manual_tokens;
  estimated_owlmatic_tokens = only_if savings w.estimated_owlmatic_tokens;
  estimated_net_tokens_saved = only_if savings w.estimated_net_tokens_saved;
}

abbrev pub list_if {ℓ} : {A : Type ℓ} → Bool → List A → List A
list_if true xs = xs
list_if false xs = []

abbrev pub consented : ExportScope → Bool → StatisticsReport → StatisticsReport
consented scope include_measurements r = record r {
  measurements = only_if include_measurements r.measurements;
  excluded_validation_runs = 0;
  excluded_legacy_runs = 0;
  modeled_runs = if scope.savings_estimates then r.modeled_runs else 0;
  estimated_manual_tokens = only_if scope.savings_estimates r.estimated_manual_tokens;
  estimated_owlmatic_tokens = only_if scope.savings_estimates r.estimated_owlmatic_tokens;
  estimated_setup_tokens = only_if scope.savings_estimates r.estimated_setup_tokens;
  estimated_net_tokens_saved = only_if scope.savings_estimates r.estimated_net_tokens_saved;
  workflows =
      list_if scope.workflow_identifiers
        (map (silent_workflow scope.savings_estimates) r.workflows);
  daily = list_if scope.daily_breakdown (map (silent_daily scope.savings_estimates) r.daily);
}

map-silent_daily :
    (b : Bool) (rows : List DailyStatistics)
    → map (daily_metrics b) (map (silent_daily b) rows) ≡ map (daily_metrics b) rows
unfolding daily_metrics
map-silent_daily b [] = refl
map-silent_daily true (d ∷ rows) = ap (◌∷◌ (daily_metrics true d)) (map-silent_daily true rows)
map-silent_daily false (d ∷ rows) = ap (◌∷◌ (daily_metrics false d)) (map-silent_daily false rows)

map-silent_workflow :
    (b : Bool) (rows : List WorkflowStatistics)
    → map (workflow_metrics b) (map (silent_workflow b) rows) ≡ map (workflow_metrics b) rows
unfolding workflow_metrics
map-silent_workflow b [] = refl
map-silent_workflow true (d ∷ rows) =
    ap (◌∷◌ (workflow_metrics true d)) (map-silent_workflow true rows)
map-silent_workflow false (d ∷ rows) =
    ap (◌∷◌ (workflow_metrics false d)) (map-silent_workflow false rows)

body-consented :
    (savings daily workflows : Bool) (m : Bool) (r : StatisticsReport)
    (source_id snapshot_id : String) (sequence : ℕ)
    → let scope : ExportScope = record {
      savings_estimates = savings;
      daily_breakdown = daily;
      workflow_identifiers = workflows;
    } in
      snapshot_body (consented scope m r) scope source_id snapshot_id sequence
      ≡ snapshot_body r scope source_id snapshot_id sequence
unfolding snapshot_body
body-consented savings daily workflows m r source_id snapshot_id sequence =
    ground (arith, map-silent_daily savings r.daily, map-silent_workflow savings r.workflows)

extension-consented :
    (scope : ExportScope) (m : Bool) (r : StatisticsReport) (label : Option String)
    → extension (consented scope m r) scope label m ≡ extension r scope label m
unfolding extension
extension-consented scope true r label = refl
extension-consented scope false r label = refl

-- A snapshot depends only on what the user has agreed to share: erasing savings, daily rows,
-- workflow rows or measurements that the scope does not include, and all counts that are never
-- shared, leaves it the same.
pub snapshot-consented :
    (r : StatisticsReport) (scope : ExportScope) (source_id snapshot_id : String) (sequence : ℕ)
    (version : SchemaVersion) (label : Option String) (include_measurements : Bool)
    → snapshot
        (consented scope include_measurements r)
        scope
        source_id
        snapshot_id
        sequence
        version
        label
        include_measurements
      ≡ snapshot r scope source_id snapshot_id sequence version label include_measurements
unfolding snapshot
snapshot-consented r scope source_id snapshot_id sequence version label m = rw (
  body-consented scope.savings_estimates scope.daily_breakdown scope.workflow_identifiers m r
      source_id snapshot_id sequence,
  extension-consented scope m r label,
)
