-- ===== src/Statistics/Grouping.antt =====
-- infrastructure/statistics.py `buckets`: what is counted.
use owlmatic.Prelude.{
  ℕ, ◌+◌, ◌≡◌, Bool, true, ◌&&◌, String, List, [], ◌∷◌, string_eq, if◌then◌else◌,
}
use owlmatic.Domain.{state_eq, outcome_eq, effects_eq, purpose_eq}
use owlmatic.Ledger.{Row}
use owlmatic.Statistics.Contracts.{RunBucket}
use owlmatic.Statistics.Storage.{DatePort, same_key, bucket_of, is_within}

-- A test that does not read the counts.
abbrev pub OfKey : (RunBucket → Bool) → Type 0
OfKey test = (b c : RunBucket) → same_key b c ≡ true → test b ≡ test c

-- The runs in the range that pass a test.
unfoldable pub count_rows : DatePort → String → String → (RunBucket → Bool) → List Row → ℕ
unfolding is_within bucket_of
count_rows port since until test [] = 0
count_rows port since until test (row ∷ rows) =
    (if is_within port since until row.run && test (bucket_of port row.run) then 1 else 0)
    + count_rows port since until test rows
