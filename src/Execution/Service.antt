-- ===== src/Execution/Service.antt =====
-- execution_service.py. What lies behind the other ports is in `Ports`; the polls of `wait` until
-- its deadline are given, each with what the ledger has seen before it.
use owlmatic.Prelude.{
  ℕ, ◌-◌, ◌*◌, ◌+◌, Bool, true, false, String, Text, Option, none, some, List, [], ◌∷◌, ltb, truthy,
  is_empty, ◌==◌, string_eq, if◌then◌else◌,
}
use owlmatic.Errors.{
  Error, Result, ok, err, owl, raise_if, missing_concurrency_input, start_failed, invalid_retention,
}
use owlmatic.Errors
use owlmatic.Json.{Value, Fields}
use owlmatic.Actions.{Action, pure, raise, lift, ◌>>=◌, ◌>>◌}
use owlmatic.Domain.{
  Run, State, Outcome, Effects, Purpose, Completion, Workflow, Target, status_eq, is_running,
  finish, summarized,
}
use owlmatic.Ledger
use owlmatic.Ledger.History.{Event, replay}
use owlmatic.Policy.{Host, check}
use owlmatic.Recovery.{Artifacts, World, ledger, query, finalize, recover}
use owlmatic.Redaction.{find_field}

-- domain.py `RunSummary`
pub record RunSummary : Type 0 where
  pub run : Run
  pub outputs_omitted : Bool
  pub finalization_pending : Bool

abbrev pub summary : Bool → Bool → Run → RunSummary
summary omitted pending r = record {
  run = r;
  outputs_omitted = omitted;
  finalization_pending = pending;
}

-- The third form, where the second is still too large.
unfoldable pub without_workspace : (RunSummary → ℕ) → Run → Bool → RunSummary → Result RunSummary
without_workspace size run pending s =
    if ltb 2048 (size s)
    then Errors.◌>>=◌ (summarized run true true) (λ r. ok (summary true pending r))
    else ok s

-- `size` is the length of the encoded summary.
unfoldable pub summarize : (RunSummary → ℕ) → Run → Bool → Result RunSummary
unfolding without_workspace
summarize size run pending =
    if ltb 2048 (size (summary false pending run))
    then Errors.◌>>=◌ (summarized run true false)
        (λ r. without_workspace size run pending (summary true pending r))
    else without_workspace size run pending (summary false pending run)

-- domain.py `RunRequest`; the time that it waits is in the polls.
pub record RunRequest : Type 0 where
  pub ref : String
  pub workspace : String
  pub inputs : Fields
  pub profile : String
  pub environment : Option String
  pub request_id : Option String

-- `launch` is `artifacts.prepare` and `launcher.start`; it answers the process id.
pub record Ports (F : Type 0) : Type 0 where
  pub workflow : String → Result Workflow
  pub host : Host
  pub target : String → String → Target
  pub fingerprint : RunRequest → String
  pub lock_digest : String → String → String → Value → String
  pub new_id : String
  pub launch : Workflow → Run → Action F ℕ
  pub request_cancel : String → Action F (Unit {0})
  pub remove : String → Action F (Unit {0})
  pub artifacts : Artifacts F
  pub idle : String → Bool

abbrev pub files : {F A : Type 0} → Action F A → Action (World F) A
files m w = let (r, f) = m w.files in (r, record w { files = f })

-- m.environments[0] if len(m.environments) == 1 else "local"
abbrev pub only_environment : List String → String
only_environment (e ∷ []) = e
only_environment _ = "local"

abbrev pub environment_of : RunRequest → Workflow → String
environment_of request w = elim request.environment [
  | none ↦ only_environment w.manifest.environments
  | some e ↦ if truthy (some e) then e else only_environment w.manifest.environments
]

abbrev pub lock_of :
    {F : Type 0} → Ports F → Workflow → String → Option Value → Result (Option String)
lock_of ports w environment none = err (owl missing_concurrency_input)
lock_of ports w environment (some v) = ok (some (ports.lock_digest w.catalog w.id environment v))

abbrev pub lock_for :
    {F : Type 0} → Ports F → Workflow → RunRequest → String → Option Text → Result (Option String)
lock_for ports w request environment none = ok none
lock_for ports w request environment (some []) = ok none
lock_for ports w request environment (some (c ∷ name)) =
    lock_of ports w environment (find_field (c ∷ name) request.inputs)

unfoldable pub lock_key :
    {F : Type 0} → Ports F → Workflow → RunRequest → String → Result (Option String)
unfolding find_field
lock_key ports w request environment =
    lock_for ports w request environment w.manifest.execution.concurrency_input

unfoldable pub new_run :
    {F : Type 0} → Ports F → Workflow → RunRequest → String → Bool → String → Run
new_run ports w request environment validation iso = record {
  run_id = ports.new_id;
  workflow_ref = w.ref;
  profile = some request.profile;
  purpose = if validation then Purpose.validation else Purpose.workflow;
  state = State.running;
  outcome = Outcome.inconclusive;
  effects = if is_empty w.manifest.effects then Effects.none else Effects.unknown;
  target = ports.target request.workspace environment;
  started_at = iso;
  finished_at = none;
  duration_ms = 0;
  evidence_ref = ports.new_id;
  checks = none;
  outputs = none;
  error = none;
  log_truncated = false;
}

abbrev pub start_failure : String → Completion
start_failure iso = record {
  state = State.error;
  outcome = Outcome.inconclusive;
  effects = Effects.none;
  finished_at = iso;
  duration_ms = 0;
  checks = none;
  outputs = none;
  error = some (record { code = start_failed });
  log_truncated = false;
}

-- One look at the ledger, after what has happened before it.
pub record Poll : Type 0 where
  pub before : List Event
  pub now : ℕ
  pub iso : String

abbrev pub elapse : {F : Type 0} → List Event → Action (World F) (Unit {0})
elapse events w = (ok tt, record w { db = replay events w.db })

unfoldable pub look : {F : Type 0} → Ports F → String → Poll → Action (World F) Run
look ports id p = do
  elapse p.before
  run ← ledger (Ledger.get id p.now p.iso)
  if is_running run.state
      then pure run
      else (do finalize ports.artifacts ports.idle id p.now p.iso; pure run)

-- The loop of `wait`: the last poll is the one after the deadline.
unfoldable pub wait : {F : Type 0} → Ports F → String → Poll → List Poll → Action (World F) Run
unfolding look
wait ports id p [] = look ports id p
wait ports id p (q ∷ polls) = do
  run ← look ports id p
  if is_running run.state then wait ports id q polls else pure run

-- except Exception: the run ends without effects.
unfoldable pub abandon : {F : Type 0} → Ports F → Run → Poll → Action (World F) Run
abandon ports run p = do
  failed ← lift (finish run (start_failure p.iso))
  elapse p.before
  ledger (Ledger.finish failed none p.now)
  finalize ports.artifacts ports.idle run.run_id p.now p.iso
  raise (owl start_failed)

abbrev pub launched :
    {F : Type 0} → Ports F → Run → Poll → List Poll → Result ℕ → Action (World F) Run
launched ports run p polls (err e) = abandon ports run p
launched ports run p polls (ok pid) = do
  ledger (Ledger.set_pid run.run_id pid)
  wait ports run.run_id p polls

-- Starting the worker of a new run.
unfoldable pub start :
    {F : Type 0} → Ports F → Workflow → Run → Poll → List Poll → Action (World F) Run
unfolding wait abandon
start ports w run p polls world =
    let (answer, f) = ports.launch w run world.files in
    launched ports run p polls answer (record world { files = f })

unfoldable pub run_workflow :
    {F : Type 0}
    → Ports F
    → RunRequest
    → Bool
    → ℕ
    → String
    → Poll
    → List Poll
    → Action (World F) Run
unfolding lock_key new_run start
run_workflow ports request validation now iso p polls = do
  w ← lift (ports.workflow request.ref)
  let environment = environment_of request w
  lift (check ports.host w request.inputs request.profile environment request.workspace validation)
  key ← lift (lock_key ports w request environment)
  let run = new_run ports w request environment validation iso
  existing ← ledger (Ledger.create run request.request_id (ports.fingerprint request) key now)
  if existing.run_id == ports.new_id
      then start ports w run p polls
      else wait ports existing.run_id p polls

-- domain.py `Cancellation`
pub record Cancellation : Type 0 where
  pub run_id : String
  pub cancellation_requested : Bool
  pub effects : Effects

unfoldable pub cancel : {F : Type 0} → Ports F → String → ℕ → String → Action (World F) Cancellation
cancel ports id now iso = do
  run ← ledger (Ledger.get id now iso)
  if is_running run.state then files (ports.request_cancel id) else pure tt
  pure
      (record { run_id = id; cancellation_requested = is_running run.state; effects = run.effects })

abbrev pub remove_run : {F : Type 0} → Ports F → String → Action (World F) (Unit {0})
remove_run ports id = do files (ports.remove id); ledger (Ledger.delete id)

-- for run in expired
unfoldable pub remove_all : {F : Type 0} → Ports F → List Run → Action (World F) ℕ
remove_all ports [] = pure 0
remove_all ports (run ∷ runs) = do
  if ports.idle run.run_id then remove_run ports run.run_id else pure tt
  removed ← remove_all ports runs
  pure (if ports.idle run.run_id then removed + 1 else removed)

-- A negative number of days is refused by the code; `days` is not negative here.
unfoldable pub cleanup : {F : Type 0} → Ports F → ℕ → ℕ → String → Action (World F) ℕ
unfolding recover remove_all
cleanup ports days now iso = do
  recover ports.artifacts ports.idle now iso
  old ← query (λ db. ok (Ledger.expired (now - days * 86400 * 1000000) db))
  remove_all ports old
