-- ===== src/Measurement/Import.antt =====
-- measurement/service.py: `ingest`, `record_emission` and `watch`. `history` stands for the reader of
-- histories (Host.Reading), `registered` for the registered workflows, `count` for the counter of
-- exposures. Times are seconds; the names of the failures of a cycle are codes.
use owlmatic.Prelude.{
  ℕ, ◌+◌, ◌-◌, ◌*◌, Bool, false, ◌&&◌, ◌||◌, not, String, Text, Option, none, some, List, [], ◌∷◌,
  ◌++◌, all, truthy, is_empty, ◌==◌, string_eq, if◌then◌else◌,
}
use owlmatic.Errors.{
  Code, Error, Result, ok, err, owl, value_error, unexpected, permission_error, file_not_found,
  storage_full, os_error, raise_if, measurement_disabled, attribution_conflict,
  verification_required, history_unavailable,
}
use owlmatic.Actions.{Action, pure, lift, transact, ◌>>=◌, ◌>>◌}
use owlmatic.Domain.{
  Run, State, Outcome, Effects, Purpose, state_eq, outcome_eq, effects_eq, purpose_eq,
}
use owlmatic.Ledger
use owlmatic.Ledger.{Db}
use owlmatic.Measurement.Contracts.{
  TaskPurpose, Basis, Exposure, TaskObservation, ImportRequest, attributed,
}
use owlmatic.Measurement.Equality.{task_purpose_eq}
use owlmatic.Measurement.Repository.{Store, put}
use owlmatic.Measurement.Tables.{emit, retain_since}
use owlmatic.Measurement.Service.{Accounts, Registered, write, changed}

-- measurement/contracts.py `MeasurementConfiguration`
pub record Configuration : Type 0 where
  pub enabled : Bool
  pub sources : List ImportRequest
  pub poll_seconds : ℕ
  pub retention_days : ℕ

pub record ImportResult : Type 0 where
  pub observation : TaskObservation
  pub changed : Bool

pub record WatchResult : Type 0 where
  pub imported : ℕ
  pub failures : List Code

pub record Imports : Type 0 where
  pub accounts : Accounts
  pub db : Db

abbrev pub on_accounts : {A : Type 0} → Action Accounts A → Action Imports A
on_accounts m s = let (r, a) = m s.accounts in (r, record s { accounts = a })

-- self.runs.get(run_id)
unfoldable pub get_run : String → ℕ → String → Action Imports Run
unfolding Ledger.get
get_run id now iso s =
    let (r, db) = transact (Ledger.get id now iso) s.db in (r, record s { db = db })

-- tuple(self.runs.get(run_id) for run_id in run_ids)
unfoldable pub get_runs : List String → ℕ → String → Action Imports (List Run)
unfolding get_run
get_runs [] now iso = pure []
get_runs (id ∷ ids) now iso = do
  run ← get_run id now iso
  runs ← get_runs ids now iso
  pure (run ∷ runs)

-- A workflow run that ended with a verdict and whose effects are known.
unfoldable pub is_creditable : Run → Bool
is_creditable r =
    r.purpose == Purpose.workflow
    && r.state == State.completed
    && (r.outcome == Outcome.pass || r.outcome == Outcome.fail)
    && (r.effects == Effects.none || r.effects == Effects.completed)

-- {run.workflow_ref for run in runs} == {ref}, where there are runs.
unfoldable pub refer_to : String → List Run → Bool
refer_to ref runs = all (λ r. r.workflow_ref == ref) runs

-- next(iter(refs)) if len(refs) == 1 else None
unfoldable pub common_ref : List Run → Option String
unfolding refer_to
common_ref [] = none
common_ref (r ∷ runs) = if refer_to r.workflow_ref runs then some r.workflow_ref else none

abbrev pub is_conflict : Option String → List Run → Bool
unfolding refer_to
is_conflict none runs = false
is_conflict (some ref) runs = truthy (some ref) && not (refer_to ref runs)

-- if observation.run_ids: ... elif ...
unfoldable pub attribute :
    ImportRequest → ℕ → String → TaskObservation → Action Imports TaskObservation
unfolding get_runs is_creditable common_ref refer_to attributed
attribute request now iso t =
    if is_empty t.run_ids
    then (do
      lift (
          raise_if (request.purpose == TaskPurpose.reuse && request.verified) verification_required)
      pure t)
    else (do
      runs ← get_runs t.run_ids now iso
      lift (raise_if (is_conflict request.workflow_ref runs) attribution_conflict)
      pure (attributed t (common_ref runs) (all is_creditable runs) Basis.workflow_evidence))

abbrev pub check_ref : Registered → Option String → Result (Unit {0})
check_ref registered none = ok tt
check_ref registered (some ref) = if truthy (some ref) then registered ref else ok tt

abbrev pub put_result : Result (Bool × Store) → Accounts → Result Bool × Accounts
put_result (ok (b, s)) a = (ok b, record a { store = s })
put_result (err e) a = (err e, a)

-- self.repository.put(observation)
unfoldable pub put_task : TaskObservation → Action Accounts Bool
unfolding put
put_task t a = put_result (put t a.store) a

pub record ImportPort : Type 0 where
  pub history : ImportRequest → ℕ → Result TaskObservation
  pub registered : Registered
  pub count : List Text → Result Exposure

-- The rest of `ingest`, from `if observation.workflow_ref: ...` on.
unfoldable pub accept : Registered → TaskObservation → Action Imports ImportResult
unfolding put_task
accept registered t = do
  lift (check_ref registered t.workflow_ref)
  is_changed ← on_accounts (put_task t)
  on_accounts (if is_changed then changed else pure tt)
  pure (record { observation = t; changed = is_changed })

module _ (port : ImportPort) where
  unfoldable pub ingest : Configuration → ImportRequest → ℕ → String → Action Imports ImportResult
  unfolding attribute accept
  ingest config request now iso = do
    lift (raise_if (not config.enabled) measurement_disabled)
    read ← lift (port.history request now)
    t ← attribute request now iso read
    accept port.registered t

  unfoldable pub record_emission :
      Configuration → String → Option String → Text → ℕ → Action Accounts (Unit {0})
  unfolding emit
  record_emission config operation run_id text now =
      if config.enabled
      then (do
        exposure ← lift (port.count (text ∷ []))
        write (
            emit (record {
              operation = operation;
              run_id = run_id;
              emitted_at = now;
              exposure = exposure;
            })))
      else pure tt

-- except (OwlError, OSError, ValueError) as error: ...
unfoldable pub failure_code : Error → Option Code
failure_code (owl c) = some c
failure_code value_error = some history_unavailable
failure_code permission_error = some history_unavailable
failure_code file_not_found = some history_unavailable
failure_code storage_full = some history_unavailable
failure_code os_error = some history_unavailable
failure_code unexpected = none

-- Each turn of the loop has its own configuration and time.
pub record Turn : Type 0 where
  pub config : Configuration
  pub now : ℕ
  pub iso : String

abbrev pub count_result : ImportResult → WatchResult → WatchResult
count_result i w = record w { imported = (if i.changed then 1 else 0) + w.imported }

module _ (port : ImportPort) where
  abbrev pub after_ingest : Result ImportResult → WatchResult → Result WatchResult
  unfolding failure_code
  after_ingest (ok i) w = ok (count_result i w)
  after_ingest (err e) w = elim (failure_code e) [
    | none ↦ err e
    | some c ↦ ok (record w { failures = w.failures ++ c ∷ [] })
  ]

  -- for request in config.sources: ...
  unfoldable pub ingest_all : Turn → List ImportRequest → WatchResult → Action Imports WatchResult
  unfolding ingest
  ingest_all turn [] w = pure w
  ingest_all turn (request ∷ requests) w = do
    next ← (λ s.
        let (r, s') = ingest port turn.config request turn.now turn.iso s in (after_ingest r w, s'))
    ingest_all turn requests next

  unfoldable pub watch_turn : Turn → Action Imports WatchResult
  unfolding ingest_all retain_since
  watch_turn turn = do
    lift (raise_if (not turn.config.enabled) measurement_disabled)
    w ← ingest_all turn turn.config.sources (record { imported = 0; failures = [] })
    on_accounts (write (retain_since (turn.now - turn.config.retention_days * 86400)))
    on_accounts changed
    pure w

  -- `watch`: the results that were yielded before the loop ended, or before the last turn given.
  unfoldable pub watch : Bool → List Turn → Action Imports (List WatchResult)
  unfolding watch_turn
  watch once [] = pure []
  watch once (turn ∷ turns) = do
    w ← watch_turn turn
    rest ← if once then pure [] else watch once turns
    pure (w ∷ rest)
