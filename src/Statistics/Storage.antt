-- ===== src/Statistics/Storage.antt =====
-- infrastructure/statistics.py `SqliteStatistics`, and statistics_service.py `baseline`. What SQLite
-- reads from the text of an instant is a port: its day, and its Julian day as a count of instants.
use Prim.Native.Nat.{Ordering}
use Prim.Native.String.{compare}
use owlmatic.Prelude.{
  ℕ, ◌+◌, Bool, true, false, ◌&&◌, not, String, List, [], ◌∷◌, ltb, leb, nat_beq, ◌==◌, string_eq,
  if◌then◌else◌,
}
use owlmatic.Errors.{Result, ok}
use owlmatic.Actions.{Action, lift, ◌>>◌, pure}
use owlmatic.Domain.{
  Run, State, state_eq, Outcome, outcome_eq, Effects, effects_eq, Purpose, purpose_eq,
}
use owlmatic.Ledger.{Row}
use owlmatic.Statistics.Contracts.{SavingsBaseline, RunBucket}

pub record DatePort : Type 0 where
  pub date : String → ℕ
  pub julianday : String → ℕ

-- The order of the names, which the tables hold as texts.
abbrev pub purpose_rank : Purpose → ℕ
purpose_rank Purpose.unknown = 0
purpose_rank Purpose.validation = 1
purpose_rank Purpose.workflow = 2

abbrev pub state_rank : State → ℕ
state_rank State.blocked = 0
state_rank State.cancelled = 1
state_rank State.completed = 2
state_rank State.error = 3
state_rank State.running = 4

abbrev pub outcome_rank : Outcome → ℕ
outcome_rank Outcome.fail = 0
outcome_rank Outcome.inconclusive = 1
outcome_rank Outcome.not_applicable = 2
outcome_rank Outcome.pass = 3

abbrev pub effects_rank : Effects → ℕ
effects_rank Effects.completed = 0
effects_rank Effects.none = 1
effects_rank Effects.partial = 2
effects_rank Effects.unknown = 3

abbrev pub text_below : String → String → Bool
text_below a b = elim (compare a b) [ Ordering.lt ↦ true | _ ↦ false ]

unfoldable pub same_key : RunBucket → RunBucket → Bool
same_key a b =
    nat_beq a.day b.day
    && a.ref == b.ref
    && a.purpose == b.purpose
    && a.state == b.state
    && a.outcome == b.outcome
    && a.effects == b.effects

-- ORDER BY day, ref, purpose, state, outcome, effects
unfoldable pub key_below : RunBucket → RunBucket → Bool
key_below a b =
    if not (nat_beq a.day b.day)
    then ltb a.day b.day
    else if not (a.ref == b.ref)
    then text_below a.ref b.ref
    else if not (a.purpose == b.purpose)
    then ltb (purpose_rank a.purpose) (purpose_rank b.purpose)
    else if not (a.state == b.state)
    then ltb (state_rank a.state) (state_rank b.state)
    else if not (a.outcome == b.outcome)
    then ltb (outcome_rank a.outcome) (outcome_rank b.outcome)
    else ltb (effects_rank a.effects) (effects_rank b.effects)

-- count(*), sum(duration_ms)
abbrev pub merge : RunBucket → RunBucket → RunBucket
merge b c = record b { count = b.count + c.count; duration_ms = b.duration_ms + c.duration_ms }

-- GROUP BY day, ref, purpose, state, outcome, effects
unfoldable pub group : RunBucket → List RunBucket → List RunBucket
unfolding same_key key_below
group b [] = b ∷ []
group b (c ∷ cs) =
    let rest = group b cs in
    if same_key b c then merge b c ∷ cs else if key_below b c then b ∷ c ∷ cs else c ∷ rest

-- INSERT ... ON CONFLICT(ref) DO UPDATE SET data=excluded.data
unfoldable pub save_baseline : SavingsBaseline → List SavingsBaseline → List SavingsBaseline
save_baseline b [] = b ∷ []
save_baseline b (c ∷ cs) =
    let rest = save_baseline b cs in if c.ref == b.ref then b ∷ cs else c ∷ rest

unfoldable pub baseline :
    (String → Result (Unit {0})) → SavingsBaseline → Action (List SavingsBaseline) SavingsBaseline
unfolding save_baseline
baseline registered b = do
  lift (registered b.ref)
  (λ stored. (ok tt, save_baseline b stored))
  pure b

module _ (port : DatePort) where
  unfoldable pub bucket_of : Run → RunBucket
  bucket_of r = record {
    day = port.date r.started_at;
    ref = r.workflow_ref;
    purpose = r.purpose;
    state = r.state;
    outcome = r.outcome;
    effects = r.effects;
    count = 1;
    duration_ms = r.duration_ms;
  }

  -- julianday(started_at) >= julianday(?) AND julianday(started_at) <= julianday(?)
  unfoldable pub is_within : String → String → Run → Bool
  is_within since until r =
      leb (port.julianday since) (port.julianday r.started_at)
      && leb (port.julianday r.started_at) (port.julianday until)

  -- `buckets`, over the rows of the table `runs`.
  unfoldable pub buckets : String → String → List Row → List RunBucket
  unfolding bucket_of is_within group
  buckets since until [] = []
  buckets since until (row ∷ rows) =
      let rest = buckets since until rows in
      if is_within since until row.run then group (bucket_of row.run) rest else rest
