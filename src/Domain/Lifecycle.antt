-- ===== src/Domain/Lifecycle.antt =====
-- domain.py: what the validator of a run accepts, and what its transitions keep.
use owlmatic.Prelude.{
  ◌≡◌, ◌≢◌, ◌↔◌, refl, Bool, true, false, none, some, arith, truthy, Option-cases, ◌≤◌, ◌<◌,
}
use mathlib.Core.Path.{subst⁻¹}
use mathlib.Core.Logic.{inl, inr}
use owlmatic.Errors.{ok, err, owl, invalid_transition}
use owlmatic.Domain.Enums.{Outcome, State, is_running, Effects, is_uncertain}
use owlmatic.Domain.Contracts.{CheckCounts, Failure}
use owlmatic.Domain.Runs.{Run, IsConsistent, check_counts, consistent_state}
use owlmatic.Domain.Construction.{Completion, completed_run, finish, summarized, summary_run}

-- The validator returns the run itself or raises.
pub consistent_state-eq : (r s : Run) → consistent_state r ≡ ok s → s ≡ r
unfolding consistent_state
consistent_state-eq r s h = ground arith

active_sound :
    (r s : Run)
    → consistent_state r ≡ ok s
    → r.state ≡ State.running
    → (r.outcome ≡ Outcome.inconclusive)
      × (r.finished_at ≡ none)
      × (r.error ≡ none)
      × (r.checks ≡ none)
      × (r.outputs ≡ none)
unfolding consistent_state
active_sound r s h e = ground arith

finished_sound :
    (r s : Run) → consistent_state r ≡ ok s → r.state ≢ State.running → truthy r.finished_at ≡ true
unfolding consistent_state
finished_sound r s h e = ground arith

pub completed_sound :
    (r s : Run)
    → consistent_state r ≡ ok s
    → r.state ≡ State.completed
    → (c : CheckCounts) × (r.checks ≡ some c)
      × (r.error ≡ none)
      × (r.outcome ≡ Outcome.pass
          → (c.failed ≡ 0) × (c.required ≤ c.passed) × (is_uncertain r.effects ≡ false))
      × (r.outcome ≡ Outcome.fail → 0 < c.failed)
unfolding consistent_state
completed_sound r s h e = elim (Option-cases r.checks) [
  | inl absent ↦ absurd (ground arith)
  | inr (c, there) ↦ (c, there, ground arith, λ p. ground arith, λ p. ground arith)
]

failed_sound :
    (r s : Run)
    → consistent_state r ≡ ok s
    → r.state ≢ State.running
    → r.state ≢ State.completed
    → (r.outcome ≡ Outcome.inconclusive) × (f : Failure) × (r.error ≡ some f)
unfolding consistent_state
failed_sound r s h a b = elim (Option-cases r.error) [
  | inl absent ↦ absurd (ground arith)
  | inr (f, there) ↦ (ground arith, f, there)
]

pub consistent_state_sound : (r s : Run) → consistent_state r ≡ ok s → IsConsistent r
consistent_state_sound r s h = record {
  active = active_sound r s h;
  finished = finished_sound r s h;
  completed = completed_sound r s h;
  failed = failed_sound r s h;
}

check_counts_complete :
    (o : Outcome) (e : Effects) (c : CheckCounts)
    → (o ≡ Outcome.pass → (c.failed ≡ 0) × (c.required ≤ c.passed) × (is_uncertain e ≡ false))
    → (o ≡ Outcome.fail → 0 < c.failed)
    → check_counts o e c ≡ ok tt
unfolding check_counts
check_counts_complete Outcome.pass e c p f = let h = p refl in ground arith
check_counts_complete Outcome.fail e c p f = let h = f refl in ground arith
check_counts_complete Outcome.inconclusive e c p f = ground arith
check_counts_complete Outcome.not_applicable e c p f = ground arith

complete_by_state :
    (r : Run) (st : State) → r.state ≡ st → IsConsistent r → consistent_state r ≡ ok r
unfolding consistent_state
complete_by_state r State.running e v = let a = v.active e in ground arith
complete_by_state r State.completed e v =
    let c = v.completed e in
    let f = v.finished (λ x. cc) in
    ground (arith, check_counts_complete r.outcome r.effects c.0 c.3 c.4)
complete_by_state r State.blocked e v =
    let c = v.failed (λ x. cc) (λ x. cc) in let f = v.finished (λ x. cc) in ground arith
complete_by_state r State.error e v =
    let c = v.failed (λ x. cc) (λ x. cc) in let f = v.finished (λ x. cc) in ground arith
complete_by_state r State.cancelled e v =
    let c = v.failed (λ x. cc) (λ x. cc) in let f = v.finished (λ x. cc) in ground arith

pub consistent_state_complete : (r : Run) → IsConsistent r → consistent_state r ≡ ok r
consistent_state_complete r v = complete_by_state r r.state refl v

-- The validator accepts a run, and gives it back unchanged, exactly when the run is consistent: an
-- active run has no result, a terminal run has a finish time, a completed run has the counts its
-- outcome asks for and no error, and any other terminal run is inconclusive and has an error.
pub consistent_state-IsConsistent : (r : Run) → (consistent_state r ≡ ok r) ↔ IsConsistent r
consistent_state-IsConsistent r = (consistent_state_sound r r, consistent_state_complete r)

-- `finish` succeeds only on a running run. Its result is terminal and consistent, keeps the
-- identity of the invocation, and cannot be finished again.
pub finish-ok :
    (r s : Run) (c : Completion)
    → finish r c ≡ ok s
    → (is_running r.state ≡ true)
      × (is_running s.state ≡ false)
      × IsConsistent s
      × (s ≡ completed_run r c)
      × ((d : Completion) → finish s d ≡ err (owl invalid_transition))
unfolding finish
finish-ok r s c h =
    let e : consistent_state (completed_run r c) ≡ ok s = ground arith in
    let same : s ≡ completed_run r c = consistent_state-eq (completed_run r c) s e in
    let valid : IsConsistent (completed_run r c) = consistent_state_sound (completed_run r c) s e in
    let over : is_running s.state ≡ false = unfold consistent_state in ground arith in
    (ground arith, over, subst⁻¹ IsConsistent same valid, same, λ d. ground arith)

summary_run-IsConsistent :
    (r : Run) (omit_outputs omit_workspace : Bool)
    → IsConsistent r
    → IsConsistent (summary_run r omit_outputs omit_workspace)
summary_run-IsConsistent r a b v = record {
  active = λ e. let h = v.active e in (h.0, h.1, h.2, h.3, ground arith);
  finished = v.finished;
  completed = v.completed;
  failed = v.failed;
}

-- A summary of a consistent run is again a consistent run: omitting the outputs, or the workspace,
-- raises nothing.
pub summarized-IsConsistent :
    (r : Run) (omit_outputs omit_workspace : Bool)
    → IsConsistent r
    → (summarized r omit_outputs omit_workspace ≡ ok (summary_run r omit_outputs omit_workspace))
      × IsConsistent (summary_run r omit_outputs omit_workspace)
unfolding summarized
summarized-IsConsistent r a b v =
    let w = summary_run-IsConsistent r a b v in (consistent_state_complete (summary_run r a b) w, w)
