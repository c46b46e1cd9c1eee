-- ===== src/Supervision/Results.antt =====
-- supervisor.py: how an attempt ends.
use owlmatic.Prelude.{
  ◌∙◌, ◌≡◌, refl, ◌⊎◌, inl, inr, Bool, true, false, Text, List, some, Bool-cases, truthy, arith,
  any, text_eq,
}
use owlmatic.Prelude.Int.{ℤ}
use owlmatic.Errors.{Result-cases, Code, Error, owl, Result, ok, err, >>=-eq-ok}
use owlmatic.Domain.{
  Run, State, Outcome, Evidence, CheckCounts, CheckStatus, finish, completed_run, consistent_state,
  is_running, is_uncertain,
}
use owlmatic.Domain.Lifecycle.{finish-ok}
use owlmatic.Redaction.{clean_evidence}
use owlmatic.Evidence.{verify_evidence, any_unproven, has_status, is_zero}
use owlmatic.Evidence.Completion.{verified_completion, IsVerified, verify_evidence-IsVerified}
use owlmatic.Supervision.Attempt.{
  closing, Job, Ports, prepare, conclude, failure, handle, or_handle, launch, execute_job,
  kept_effects, is_cancelled,
}

finish-failure :
    (ports : Ports) (run : Run) (launched : Bool) (state : State) (code : Code) (truncated : Bool)
    → is_running run.state ≡ true
    → truthy (some ports.iso) ≡ true
    → (state ≡ State.error) ⊎ (state ≡ State.cancelled)
    → finish run (failure ports run launched state code truncated)
      ≡ ok (completed_run run (failure ports run launched state code truncated))
unfolding finish consistent_state
finish-failure ports run launched state code truncated active text kind = ground arith

-- A result that stands for a failure.
abbrev pub Failed : Run → Bool → Run → Type 0
Failed run launched s =
    (is_running s.state ≡ false)
    × (s.outcome ≡ Outcome.inconclusive)
    × (s.effects ≡ kept_effects launched run)
    × (s.run_id ≡ run.run_id)

handle-Failed :
    (ports : Ports) (run : Run) (launched : Bool) (e : Error)
    → is_running run.state ≡ true
    → truthy (some ports.iso) ≡ true
    → (s : Run) × (handle ports run launched e ≡ ok s) × Failed run launched s
unfolding handle
handle-Failed ports run launched (owl code) active text = elim (Bool-cases (is_cancelled code)) [
  | inl e ↦ rw e (
    _,
    finish-failure ports run launched State.cancelled _ _ active text (inr refl),
    (refl, refl, refl, refl),
  )
  | inr e ↦ rw e (
    _,
    finish-failure ports run launched State.error _ _ active text (inl refl),
    (refl, refl, refl, refl),
  )
]
handle-Failed ports run launched _ active text = (
  _,
  finish-failure ports run launched State.error _ false active text (inl refl),
  (refl, refl, refl, refl),
)

-- How an attempt can end: it fails before the workflow is launched, it fails afterwards, or its
-- result is that of evidence which was reported by the process and verified.
pub data Ending (ports : Ports) (job : Job) (s : Run) : Type 0 where
  unlaunched : (e : Error) → prepare ports ≡ err e → Failed job.run false s → Ending ports job s
  interrupted :
      (secrets : List Text)
      → prepare ports ≡ ok secrets
      → Failed job.run true s
      → Ending ports job s
  verified :
      (secrets : List Text) (code : ℤ) (e : Evidence) (c : CheckCounts)
      → prepare ports ≡ ok secrets
      → ports.process ≡ ok code
      → ports.raw_evidence ≡ ok e
      → IsVerified e job.workflow code c
      → s
        ≡ completed_run job.run
            (verified_completion e c (clean_evidence e secrets).outputs ports.iso ports.duration_ms)
      → Ending ports job s

conclude-verified :
    (ports : Ports) (job : Job) (secrets : List Text) (s : Run)
    → prepare ports ≡ ok secrets
    → conclude ports job secrets ≡ ok s
    → Ending ports job s
unfolding conclude
conclude-verified ports job secrets s ready h =
    let (code, exited, h1) = >>=-eq-ok ports.process _ h in
    let (e, read, h2) = >>=-eq-ok ports.raw_evidence _ h1 in
    let (c, checked, h3) =
      >>=-eq-ok (verify_evidence ports.validate e job.workflow job.run.run_id code) _ h2 in
    let (_, saved, h4) = >>=-eq-ok (ports.save_evidence (clean_evidence e secrets)) _ h3 in
    let r =
      finish-ok job.run s
        (verified_completion e c (clean_evidence e secrets).outputs ports.iso ports.duration_ms)
        h4 in
    verified secrets code e c ready exited read
      (verify_evidence-IsVerified ports.validate e job.workflow job.run.run_id code c checked) r.3

-- The log was opened and cannot be closed: the attempt raises what the log raised.
abbrev pub IsUnclosed : Ports → Result Run → Type 0
IsUnclosed ports r =
    (secrets : List Text) × (prepare ports ≡ ok secrets)
    × (e : Error) × (ports.close ≡ err e)
    × (r ≡ err e)

-- The attempt has a result, and ends as `Ending` says.
abbrev pub IsEnded : Ports → Job → Result Run → Type 0
IsEnded ports job r = (s : Run) × (r ≡ ok s) × Ending ports job s

closing-ok : (c : Result (Unit {0})) (r : Result Run) → c ≡ ok tt → closing c r ≡ r
closing-ok c r h = ground arith

closing-err : (c : Result (Unit {0})) (r : Result Run) (e : Error) → c ≡ err e → closing c r ≡ err e
closing-err c r e h = ground arith

module _ (ports : Ports) (job : Job) (active : is_running job.run.state ≡ true)
    (text : truthy (some ports.iso) ≡ true) where
  or_handle-Ending :
      (secrets : List Text) (r : Result Run)
      → prepare ports ≡ ok secrets
      → conclude ports job secrets ≡ r
      → (s : Run) × (or_handle ports job.run true r ≡ ok s) × Ending ports job s
  or_handle-Ending secrets (ok s) ready h = (s, refl, conclude-verified ports job secrets s ready h)
  or_handle-Ending secrets (err e) ready h =
      let (s, handled, failed) = handle-Failed ports job.run true e active text in
      (s, handled, interrupted secrets ready failed)

  launch-Ending :
      (r : Result (List Text))
      → prepare ports ≡ r
      → IsUnclosed ports (launch ports job r) ⊎ IsEnded ports job (launch ports job r)
  launch-Ending (ok secrets) ready = elim (Result-cases ports.close) [
    | inr (e, bad) ↦ inl (secrets, ready, e, bad, closing-err ports.close _ e bad)
    | inl (u, closed) ↦
        let (s, handled, ending) =
          or_handle-Ending secrets (conclude ports job secrets) ready refl in
        inr (s, closing-ok ports.close _ closed ∙ handled, ending)
  ]
  launch-Ending (err e) ready =
      let (s, handled, failed) = handle-Failed ports job.run false e active text in
      inr (s, handled, unlaunched e ready failed)

  -- Whatever the policy, the process and the file store answer or raise, an attempt at a running
  -- run produces a result, unless its log was opened and cannot be closed, where it raises what the
  -- log raised. The result is an inconclusive failure without effects from before the launch, an
  -- inconclusive failure that keeps the declared effects, or verified evidence.
  pub execute_job-Ending :
      IsUnclosed ports (execute_job ports job) ⊎ IsEnded ports job (execute_job ports job)
  unfolding execute_job
  execute_job-Ending = launch-Ending (prepare ports) refl

Ending-pass :
    (ports : Ports) (job : Job) (s : Run)
    → Ending ports job s
    → s.outcome ≡ Outcome.pass
    → (code : ℤ) × (e : Evidence) × (ports.process ≡ ok code)
      × (ports.raw_evidence ≡ ok e)
      × (is_zero code ≡ true)
      × (any_unproven job.workflow.manifest.verification.required_checks e.checks ≡ false)
      × (any (has_status CheckStatus.fail) e.checks ≡ false)
      × (is_uncertain e.effects ≡ false)
Ending-pass ports job s (unlaunched e ready f) p = absurd (ground arith)
Ending-pass ports job s (interrupted secrets ready f) p = absurd (ground arith)
Ending-pass ports job s (verified secrets code e c ready exited read v same) p =
    let q = v.passing (ground arith) in (code, e, exited, read, q.0, q.1, q.2, q.3)

-- A run passes only if the process exited with code 0 and reported evidence in which every
-- required check passed, no check failed, and the effects are known.
pub execute_job-pass :
    (ports : Ports) (job : Job) (s : Run)
    → is_running job.run.state ≡ true
    → truthy (some ports.iso) ≡ true
    → execute_job ports job ≡ ok s
    → s.outcome ≡ Outcome.pass
    → (code : ℤ) × (e : Evidence) × (ports.process ≡ ok code)
      × (ports.raw_evidence ≡ ok e)
      × (is_zero code ≡ true)
      × (any_unproven job.workflow.manifest.verification.required_checks e.checks ≡ false)
      × (any (has_status CheckStatus.fail) e.checks ≡ false)
      × (is_uncertain e.effects ≡ false)
execute_job-pass ports job s active text h p = elim (execute_job-Ending ports job active text) [
  | inl (secrets, ready, e, bad, raised) ↦ absurd (ground arith)
  | inr (r, done, ending) ↦
      let same : r ≡ s = ground arith in Ending-pass ports job r ending (rw same p)
]
