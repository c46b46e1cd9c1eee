-- ===== src/Measurement/Savings.antt =====
-- measurement/estimation.py: what an estimate of savings stands for.
use owlmatic.Prelude.{
  ◌∙◌, IsIn, min, map, leb, ◌≤◌, is_empty, ℕ, ◌≡◌, ◌+◌, refl, true, false, String, some, List, [],
  ◌∷◌, select, sum_by, any, arith, Bool-cases, inl, inr, All, ◌==◌, string_eq, option_eq,
}
use owlmatic.Prelude.Int.{ℤ, pos, sub_ℕ, ◌+ℤ◌, +ℤ_parts, sub_ℕ_parts, eq_of_parts}
use owlmatic.Measurement.Contracts.{TaskObservation, CostCoverage, TaskPurpose}
use owlmatic.Measurement.Equality.{task_purpose_eq}
use owlmatic.Measurement.Comparison.{
  minimum, Comparison, tokens_of, is_candidate, credit, is_incomparable, compared, compare_task,
  compare_all, start, has_purpose,
}
use owlmatic.Measurement.Estimation.{assess}

-- The reuse tasks of a workflow.
abbrev pub reuse_of : String → List TaskObservation → List TaskObservation
reuse_of ref tasks =
    select (has_purpose TaskPurpose.reuse) (select (λ t. t.workflow_ref == some ref) tasks)

abbrev pub candidates_of : List TaskObservation → TaskObservation → List TaskObservation
candidates_of baselines task = select (is_candidate task) baselines

-- The credits and the costs of a list of tasks.
abbrev pub credits : List TaskObservation → List TaskObservation → ℕ
credits baselines = sum_by (λ t. credit t tokens_of (candidates_of baselines t))

abbrev pub IsComparable : List TaskObservation → List TaskObservation → Type 0
IsComparable baselines = All (λ t. is_incomparable t (candidates_of baselines t) ≡ false)

compared_fields :
    (baselines : List TaskObservation) (t : TaskObservation) (c : Comparison)
    → is_incomparable t (candidates_of baselines t) ≡ false
    → ((compare_task baselines t c).comparable ≡ c.comparable)
      × ((compare_task baselines t c).operational
          ≡ c.operational +ℤ sub_ℕ (credit t tokens_of (candidates_of baselines t)) (tokens_of t))
unfolding compare_task compared
compared_fields baselines t c h = (rw h refl, rw h refl)

lost_fields :
    (baselines : List TaskObservation) (t : TaskObservation) (c : Comparison)
    → is_incomparable t (candidates_of baselines t) ≡ true
    → (compare_task baselines t c).comparable ≡ false
unfolding compare_task
lost_fields baselines t c h = rw h refl

compare_all-false :
    (baselines reuse : List TaskObservation) (c : Comparison)
    → c.comparable ≡ false
    → (compare_all baselines reuse c).comparable ≡ false
unfolding compare_all
compare_all-false baselines [] c h = h
compare_all-false baselines (t ∷ reuse) c h =
    elim (Bool-cases (is_incomparable t (candidates_of baselines t))) [
      | inl e ↦
          compare_all-false baselines reuse (compare_task baselines t c)
            (lost_fields baselines t c e)
      | inr e ↦
          compare_all-false baselines reuse (compare_task baselines t c)
            (ground (arith, (compared_fields baselines t c e).0))
    ]

add_step : (o : ℤ) (a b x y : ℕ) → (o +ℤ sub_ℕ a b) +ℤ sub_ℕ x y ≡ o +ℤ sub_ℕ (a + x) (b + y)
add_step o a b x y = eq_of_parts _ _ (
    omega (
      arith,
      +ℤ_parts (o +ℤ sub_ℕ a b) (sub_ℕ x y),
      +ℤ_parts o (sub_ℕ a b),
      +ℤ_parts o (sub_ℕ (a + x) (b + y)),
      sub_ℕ_parts a b,
      sub_ℕ_parts x y,
      sub_ℕ_parts (a + x) (b + y),
    ))

add_nothing : (o : ℤ) → o ≡ o +ℤ pos 0
add_nothing o = eq_of_parts _ _ (omega (arith, +ℤ_parts o (pos 0)))

compare_all-savings :
    (baselines reuse : List TaskObservation) (c : Comparison)
    → (compare_all baselines reuse c).comparable ≡ true
    → IsComparable baselines reuse
      × ((compare_all baselines reuse c).operational
          ≡ c.operational +ℤ sub_ℕ (credits baselines reuse) (sum_by tokens_of reuse))
unfolding compare_all
compare_all-savings baselines [] c h = (tt, add_nothing c.operational)
compare_all-savings baselines (t ∷ reuse) c h =
    elim (Bool-cases (is_incomparable t (candidates_of baselines t))) [
      | inl e ↦ absurd (
          ground (
            arith,
            compare_all-false baselines reuse (compare_task baselines t c)
                (lost_fields baselines t c e),
          ))
      | inr e ↦
          let (rest, sum) = compare_all-savings baselines reuse (compare_task baselines t c) h in
          (
            (e, rest),
            ground (
              arith,
              (compared_fields baselines t c e).1,
              add_step c.operational (credit t tokens_of (candidates_of baselines t)) (tokens_of t)
                  (credits baselines reuse) (sum_by tokens_of reuse),
            ),
          )
    ]

zero_add : (n : ℕ) (m : ℕ) → pos 0 +ℤ sub_ℕ n m ≡ sub_ℕ n m
zero_add n m = eq_of_parts _ _ (omega (arith, +ℤ_parts (pos 0) (sub_ℕ n m)))

-- What a reuse task is credited with: nothing if it is not verified, and otherwise what one of its
-- baselines has cost, where no baseline has cost less.
pub data IsCredit (candidates : List TaskObservation) (task : TaskObservation) (n : ℕ)
    : Type 0 where
  unverified : task.verified ≡ false → n ≡ 0 → IsCredit candidates task n
  cheapest :
      (b : TaskObservation)
      → task.verified ≡ true
      → IsIn b candidates
      → n ≡ tokens_of b
      → All (λ c. n ≤ tokens_of c) candidates
      → IsCredit candidates task n

-- A credit for each task.
abbrev pub AreCredits : List TaskObservation → List TaskObservation → List ℕ → Type 0
AreCredits baselines [] [] = Unit
AreCredits baselines [] (n ∷ ns) = ⊥
AreCredits baselines (t ∷ reuse) [] = ⊥
AreCredits baselines (t ∷ reuse) (n ∷ ns) =
    IsCredit (candidates_of baselines t) t n × AreCredits baselines reuse ns

below-All :
    (n m : ℕ) (cs : List TaskObservation)
    → n ≤ m
    → All (λ c. m ≤ tokens_of c) cs
    → All (λ c. n ≤ tokens_of c) cs
below-All n m [] h k = tt
below-All n m (c ∷ cs) h k = (ground (arith, k.0), below-All n m cs h k.1)

minimum-IsLeast :
    (c : TaskObservation) (cs : List TaskObservation)
    → (b : TaskObservation) × IsIn b (c ∷ cs)
      × (minimum tokens_of (c ∷ cs) ≡ tokens_of b)
      × All (λ x. minimum tokens_of (c ∷ cs) ≤ tokens_of x) (c ∷ cs)
unfolding minimum
minimum-IsLeast c [] = (c, inl refl, refl, (ground arith, tt))
minimum-IsLeast c (d ∷ cs) =
    let m = minimum tokens_of (d ∷ cs) in
    let (b, there, same, least) = minimum-IsLeast d cs in
    elim (Bool-cases (leb (tokens_of c) m)) [
      | inl first ↦
          let e : min (tokens_of c) m ≡ tokens_of c = ground arith in
          (c, inl refl, e, (omega (arith, e), below-All _ m (d ∷ cs) (omega (arith, e)) least))
      | inr later ↦
          let e : min (tokens_of c) m ≡ m = ground arith in
          (
            b,
            inr there,
            e ∙ same,
            (omega (arith, e), below-All _ m (d ∷ cs) (omega (arith, e)) least),
          )
    ]

credit-IsCredit :
    (t : TaskObservation) (candidates : List TaskObservation)
    → is_empty candidates ≡ false
    → IsCredit candidates t (credit t tokens_of candidates)
unfolding credit
credit-IsCredit t [] h = absurd (ground arith)
credit-IsCredit t (c ∷ cs) h = elim (Bool-cases t.verified) [
  | inr unproven ↦ unverified unproven (ground arith)
  | inl yes_verified ↦
      let (b, there, same, least) = minimum-IsLeast c cs in
      let e : credit t tokens_of (c ∷ cs) ≡ minimum tokens_of (c ∷ cs) = ground arith in
      rw e (cheapest b yes_verified there same least)
]

credits-AreCredits :
    (baselines reuse : List TaskObservation)
    → IsComparable baselines reuse
    → AreCredits baselines reuse (map (λ t. credit t tokens_of (candidates_of baselines t)) reuse)
credits-AreCredits baselines [] h = tt
credits-AreCredits baselines (t ∷ reuse) h = (
  credit-IsCredit t (candidates_of baselines t) (ground (arith, h.0)),
  credits-AreCredits baselines reuse h.1,
)

credits-sum :
    (baselines reuse : List TaskObservation)
    → credits baselines reuse
      ≡ sum_by (λ n. n) (map (λ t. credit t tokens_of (candidates_of baselines t)) reuse)
credits-sum baselines [] = refl
credits-sum baselines (t ∷ reuse) = ground (arith, credits-sum baselines reuse)

assess-sum :
    (ref : String) (tasks baselines : List TaskObservation) (coverage : CostCoverage) (n : ℤ)
    → (assess ref tasks baselines coverage).estimated_operational_savings ≡ some n
    → IsComparable baselines (reuse_of ref tasks)
      × (n ≡ sub_ℕ (credits baselines (reuse_of ref tasks)) (sum_by tokens_of (reuse_of ref tasks)))
unfolding assess
assess-sum ref tasks baselines coverage n h =
    let reuse = reuse_of ref tasks in
    let known : (compare_all baselines reuse (start reuse)).comparable ≡ true = ground arith in
    let (all_comparable, sum) = compare_all-savings baselines reuse (start reuse) known in
    (all_comparable, ground (arith, zero_add (credits baselines reuse) (sum_by tokens_of reuse)))

-- Operational savings are estimated only if every reuse task of the workflow is complete, with
-- known usage and at least one matching verified manual baseline. They are then the credits, which
-- are the cheapest baseline of each verified task and nothing for the others, less all tokens that
-- the reuse tasks have cost.
pub assess-savings :
    (ref : String) (tasks baselines : List TaskObservation) (coverage : CostCoverage) (n : ℤ)
    → (assess ref tasks baselines coverage).estimated_operational_savings ≡ some n
    → IsComparable baselines (reuse_of ref tasks)
      × (ns : List ℕ) × AreCredits baselines (reuse_of ref tasks) ns
      × (n ≡ sub_ℕ (sum_by (λ x. x) ns) (sum_by tokens_of (reuse_of ref tasks)))
assess-savings ref tasks baselines coverage n h =
    let reuse = reuse_of ref tasks in
    let (all_comparable, sum) = assess-sum ref tasks baselines coverage n h in
    (
      all_comparable,
      map (λ t. credit t tokens_of (candidates_of baselines t)) reuse,
      credits-AreCredits baselines reuse all_comparable,
      ground (arith, sum, credits-sum baselines reuse),
    )

no_credit :
    (baselines reuse : List TaskObservation)
    → any (λ t. t.verified) reuse ≡ false
    → credits baselines reuse ≡ 0
unfolding credit
no_credit baselines [] h = refl
no_credit baselines (t ∷ reuse) h = ground (arith, no_credit baselines reuse)

-- Without a verified reuse task there is no credit: what is estimated is the loss of all tokens
-- that the reuse tasks have cost.
pub assess-unverified :
    (ref : String) (tasks baselines : List TaskObservation) (coverage : CostCoverage) (n : ℤ)
    → any (λ t. t.verified) (reuse_of ref tasks) ≡ false
    → (assess ref tasks baselines coverage).estimated_operational_savings ≡ some n
    → n ≡ sub_ℕ 0 (sum_by tokens_of (reuse_of ref tasks))
assess-unverified ref tasks baselines coverage n none_verified h = ground (
  arith,
  (assess-sum ref tasks baselines coverage n h).1,
  no_credit baselines (reuse_of ref tasks) none_verified,
)
