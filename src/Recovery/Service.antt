-- ===== src/Recovery/Service.antt =====
-- recovery_service.py `RecoveryService`. The artifact store and the guard are interfaces: their
-- operations may fail, and `idle` says whether no process holds the activity lock of a run.
use owlmatic.Prelude.{
  ℕ, Bool, true, false, not, String, List, [], ◌∷◌, ◌++◌, if◌then◌else◌, is_empty,
}
use owlmatic.Errors.{
  Code, owl, value_error, unexpected, Result, ok, err, result_pending, cleanup_pending,
  recovery_required, run_active,
}
use owlmatic.Actions.{Action, pure, raise, transact, ◌>>=◌, ◌>>◌}
use owlmatic.Domain.{Run, Failure, is_running, is_uncertain}
use owlmatic.Ledger.{Db}
use owlmatic.Ledger

-- ports.py `ArtifactStore`, as far as recovery uses it.
pub record Artifacts (F : Type 0) : Type 0 where
  pub save_result : Run → Action F (Unit {0})
  pub scrub_inputs : String → Action F (Unit {0})

-- What the services share: the tables and the files.
pub record World (F : Type 0) : Type 0 where
  pub db : Db
  pub files : F

-- domain.py `FinalizationReport`
pub record Report : Type 0 where
  pub run_id : String
  pub pending : Bool
  pub active : Bool
  pub errors : List Failure

abbrev pub with_db : {F A : Type 0} → Result A × Db → World F → Result A × World F
with_db (r, db') w = (r, record w { db = db' })

-- A transaction of the ledger.
abbrev pub ledger : {F A : Type 0} → (Db → Result (A × Db)) → Action (World F) A
ledger t w = with_db (transact t w.db) w

-- A read of the ledger.
abbrev pub query : {F A : Type 0} → (Db → Result A) → Action (World F) A
query q w = (q w.db, w)

-- try: ... except (OSError, OwlError): errors.append(Failure(code))
abbrev pub caught : Result (Unit {0}) → Code → Result (List Failure)
caught (ok u) code = ok []
caught (err (owl c)) code = ok (record { code = code } ∷ [])
caught (err value_error) code = err value_error
caught (err unexpected) code = err unexpected
caught (err e) code = ok (record { code = code } ∷ [])

abbrev pub with_files :
    {F : Type 0} → Result (Unit {0}) × F → Code → World F → Result (List Failure) × World F
with_files (r, f) code w = (caught r code, record w { files = f })

abbrev pub attempt : {F : Type 0} → Action F (Unit {0}) → Code → Action (World F) (List Failure)
attempt m code w = with_files (m w.files) code w

abbrev pub settle_if : {F : Type 0} → Bool → String → Bool → Action (World F) (Unit {0})
settle_if true id release = ledger (Ledger.settled id release)
settle_if false id release = pure tt

unfoldable pub project : {F : Type 0} → Artifacts F → Run → String → Action (World F) Report
project artifacts run id = do
  saved ← attempt (artifacts.save_result run) result_pending
  scrubbed ← attempt (artifacts.scrub_inputs id) cleanup_pending
  settle_if (is_empty (saved ++ scrubbed)) id (not (is_uncertain run.effects))
  pure (record {
    run_id = id;
    pending = not (is_empty (saved ++ scrubbed));
    active = false;
    errors = saved ++ scrubbed;
  })

unfoldable pub finalize_idle :
    {F : Type 0} → Artifacts F → String → ℕ → String → Action (World F) Report
unfolding project
finalize_idle artifacts id now iso = do
  run ← ledger (Ledger.get id now iso)
  if is_running run.state
      then pure (record { run_id = id; pending = true; active = false; errors = [] })
      else (do
        due ← query (Ledger.is_pending id)
        if due
            then project artifacts run id
            else pure (record { run_id = id; pending = false; active = false; errors = [] }))

unfoldable pub finalize :
    {F : Type 0} → Artifacts F → (String → Bool) → String → ℕ → String → Action (World F) Report
unfolding finalize_idle
finalize artifacts idle id now iso =
    if idle id
    then finalize_idle artifacts id now iso
    else pure (record { run_id = id; pending = true; active = true; errors = [] })

-- for run_id in self.runs.pending(): get, then finalize
unfoldable pub recover_all :
    {F : Type 0}
    → Artifacts F
    → (String → Bool)
    → List String
    → ℕ
    → String
    → Action (World F) (List Report)
recover_all artifacts idle [] now iso = pure []
recover_all artifacts idle (id ∷ ids) now iso = do
  ledger (Ledger.get id now iso)
  report ← finalize artifacts idle id now iso
  reports ← recover_all artifacts idle ids now iso
  pure (report ∷ reports)

unfoldable pub recover :
    {F : Type 0} → Artifacts F → (String → Bool) → ℕ → String → Action (World F) (List Report)
unfolding recover_all
recover artifacts idle now iso w = recover_all artifacts idle (Ledger.pending now w.db) now iso w

unfoldable pub reconcile :
    {F : Type 0} → Artifacts F → (String → Bool) → String → ℕ → String → Action (World F) (Unit {0})
unfolding finalize
reconcile artifacts idle id now iso = do
  report ← finalize artifacts idle id now iso
  if report.pending
      then raise (owl recovery_required)
      else (if idle id then ledger (Ledger.release_lock id) else raise (owl run_active))
