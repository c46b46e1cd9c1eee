-- ===== src/Supervision/Execution.antt =====
-- supervisor.py `Supervisor.execute`: claim, attempt, completion and finalization. `meanwhile` is
-- whatever the ledger sees from any process, this one's heartbeats included, during the attempt.
use owlmatic.Prelude.{ℕ, Bool, String, some, List}
use owlmatic.Errors.{Result, ok}
use owlmatic.Actions.{Action, pure, lift, ◌>>=◌, ◌>>◌}
use owlmatic.Domain.{Run}
use owlmatic.Ledger
use owlmatic.Ledger.History.{Event, replay}
use owlmatic.Recovery.{Artifacts, World, with_db, ledger, finalize}
use owlmatic.Supervision.Attempt.{Job, Ports, execute_job}

-- The instants at which the ledger is written, and the fresh owner. `held` is the answer of the
-- guard when the activity lock is taken.
pub record Shift : Type 0 where
  pub held : Result (Unit {0})
  pub owner : String
  pub claimed_at : ℕ
  pub claimed_iso : String
  pub meanwhile : List Event
  pub finished_at : ℕ
  pub finalized_at : ℕ
  pub finalized_iso : String

abbrev pub passing_time : {F : Type 0} → List Event → Action (World F) (Unit {0})
passing_time events w = (ok tt, record w { db = replay events w.db })

abbrev pub claim_for : {F : Type 0} → String → Shift → Action (World F) Run
claim_for id shift w =
    with_db (Ledger.claim id shift.owner shift.claimed_at shift.claimed_iso w.db) w

abbrev pub store_result : {F : Type 0} → Run → Shift → Action (World F) (Unit {0})
store_result result shift = ledger (Ledger.finish result (some shift.owner) shift.finished_at)

-- What follows the attempt: the report of the finalization is not used.
abbrev pub wrap_up :
    {F : Type 0} → Artifacts F → (String → Bool) → Shift → Run → Action (World F) Run
wrap_up artifacts idle shift result = do
  finalize artifacts idle result.run_id shift.finalized_at shift.finalized_iso
  pure result

abbrev pub complete :
    {F : Type 0} → Artifacts F → (String → Bool) → Shift → Run → Action (World F) Run
complete artifacts idle shift result = do
  store_result result shift
  wrap_up artifacts idle shift result

-- The attempt, and what the ledger sees meanwhile.
abbrev pub work :
    {F : Type 0} → Artifacts F → (String → Bool) → Ports → Shift → Job → Action (World F) Run
work artifacts idle ports shift job = do
  passing_time shift.meanwhile
  result ← lift (execute_job ports job)
  complete artifacts idle shift result

unfoldable pub execute :
    {F : Type 0} → Artifacts F → (String → Bool) → Ports → Shift → Job → Action (World F) Run
execute artifacts idle ports shift job = do
  lift shift.held
  claim_for job.run.run_id shift
  work artifacts idle ports shift job
