-- ===== src/Host/Totals.antt =====
-- infrastructure/measurement/decoding.py and `Events.consumption`: the arithmetic of usages.
use owlmatic.Prelude.{ℕ, ◌+◌, ◌≡◌, ◌≤◌, refl, Option, some, List, [], ◌∷◌, sum_by, All, arith}
use owlmatic.Errors.{ok}
use owlmatic.Measurement.{TokenUsage, subsets, or_zero}
use owlmatic.Host.Decoding.{sum_known, total_of, total}
use owlmatic.Host.History.{difference}

-- What the contract asks of a usage.
pub record IsUsage (u : TokenUsage) : Type 0 where
  pub input : or_zero u.cached_input_tokens + or_zero u.cache_write_input_tokens ≤ u.input_tokens
  pub output : or_zero u.reasoning_output_tokens ≤ u.output_tokens

subsets-IsUsage : (u v : TokenUsage) → subsets u ≡ ok v → (u ≡ v) × IsUsage u
unfolding subsets
subsets-IsUsage u v h = (ground arith, record { input = ground arith; output = ground arith })

subsets_of_IsUsage : (u : TokenUsage) → IsUsage u → subsets u ≡ ok u
unfolding subsets
subsets_of_IsUsage u v = ground (arith, v.input, v.output)

sum_known-le :
    (f : TokenUsage → Option ℕ) (us : List TokenUsage)
    → or_zero (sum_known f us) ≤ sum_by (λ v. or_zero (f v)) us
unfolding sum_known
sum_known-le f us = ground arith

sum-IsUsage :
    (us : List TokenUsage)
    → All IsUsage us
    → (sum_by (λ v. or_zero v.cached_input_tokens) us
          + sum_by (λ v. or_zero v.cache_write_input_tokens) us
        ≤ sum_by (λ v. v.input_tokens) us)
      × (sum_by (λ v. or_zero v.reasoning_output_tokens) us ≤ sum_by (λ v. v.output_tokens) us)
sum-IsUsage [] h = (ground arith, ground arith)
sum-IsUsage (u ∷ us) h =
    let (a, b) = sum-IsUsage us h.1 in (ground (arith, h.0.input, a), ground (arith, h.0.output, b))

-- The sum of usages that fulfil their contract fulfils it: adding them up never raises.
pub total-ok :
    (u : TokenUsage) (us : List TokenUsage)
    → All IsUsage (u ∷ us)
    → (total (u ∷ us) ≡ ok (some (total_of (u ∷ us)))) × IsUsage (total_of (u ∷ us))
unfolding total total_of
total-ok u us h =
    let (a, b) = sum-IsUsage (u ∷ us) h in
    let valid : IsUsage (total_of (u ∷ us)) = record {
      input = ground (
        arith,
        a,
        sum_known-le (λ v. v.cached_input_tokens) (u ∷ us),
        sum_known-le (λ v. v.cache_write_input_tokens) (u ∷ us),
      );
      output = ground (arith, b, sum_known-le (λ v. v.reasoning_output_tokens) (u ∷ us));
    } in
    (rw (subsets_of_IsUsage (total_of (u ∷ us)) valid) refl, valid)

-- Where a difference of two counts is a usage, adding the first count to it gives the last one, in
-- the inputs and in the outputs, and the difference fulfils the contract of a usage.
pub difference-ok :
    (last first u : TokenUsage)
    → difference last first ≡ ok u
    → (u.input_tokens + first.input_tokens ≡ last.input_tokens)
      × (u.output_tokens + first.output_tokens ≡ last.output_tokens)
      × IsUsage u
unfolding difference subsets
difference-ok last first u h =
    (ground arith, ground arith, record { input = ground arith; output = ground arith })
