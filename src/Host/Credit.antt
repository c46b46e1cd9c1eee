-- ===== src/Host/Credit.antt =====
-- measurement/service.py `ingest` with the reader of infrastructure/measurement/history.py.
use owlmatic.Prelude.{ℕ, ◌≡◌, refl, ap, ◌∙◌, true, false, String, All, arith, is_empty}
use owlmatic.Errors.{ok}
use owlmatic.Measurement.{
  ImportRequest, ImportResult, ImportPort, Imports, Configuration, Registered, TaskPurpose, Basis,
  TaskObservation, attributed, ingest,
}
use owlmatic.Measurement.Credit.{IsBacked, IsAttributed, attested, evidenced, ingest-IsAttributed}
use owlmatic.Host.History.{HistoryPort}
use owlmatic.Host.Reading.{read, observation}
use owlmatic.Host.Selection.{IsReading, read-ok}

-- `MeasurementService(history=LocalHistory(...), ...)`
abbrev pub local_port : HistoryPort → Registered → ImportPort
local_port host registered = record {
  history = λ request now. read host request now;
  registered = registered;
  count = host.count;
}

credit-IsBacked :
    (host : HistoryPort) (request : ImportRequest) (now : ℕ) (t t' : TaskObservation) (s' : Imports)
    → IsReading host request now t
    → IsAttributed request s'.db t t'
    → t'.purpose ≡ TaskPurpose.reuse
    → t'.verified ≡ true
    → (is_empty t'.run_ids ≡ false)
      × (t'.verification_basis ≡ Basis.workflow_evidence)
      × All (λ id. IsBacked id s'.db) t'.run_ids
unfolding observation attributed
credit-IsBacked host request now t t' s' r (attested none_given denied) reuse verified =
    let e1 : request.purpose ≡ TaskPurpose.reuse =
      ap (λ (x : TaskObservation). x.purpose) r.same ∙ reuse in
    let e2 : request.verified ≡ true = ap (λ (x : TaskObservation). x.verified) r.same ∙ verified in
    let e3 = denied e1 in absurd (ground arith)
credit-IsBacked host request now t t' s' r (evidenced runs given agreed backed) reuse verified =
    (given, refl, backed verified)

-- A task that is imported from a local history as a verified reuse of a workflow names runs, and the
-- ledger stores for each of them, as its final result, a workflow run that completed with a verdict
-- and with known effects; what the importing user attested is not enough.
pub ingest-credit :
    (host : HistoryPort) (registered : Registered) (config : Configuration)
    (request : ImportRequest) (now : ℕ) (iso : String) (s s' : Imports) (i : ImportResult)
    → ingest (local_port host registered) config request now iso s ≡ (ok i, s')
    → i.observation.purpose ≡ TaskPurpose.reuse
    → i.observation.verified ≡ true
    → (is_empty i.observation.run_ids ≡ false)
      × (i.observation.verification_basis ≡ Basis.workflow_evidence)
      × All (λ id. IsBacked id s'.db) i.observation.run_ids
ingest-credit host registered config request now iso s s' i h reuse verified =
    let (_, t, seen, _, given) =
      ingest-IsAttributed (local_port host registered) config request now iso s s' i h in
    credit-IsBacked host request now t i.observation s' (read-ok host request now t seen) given
      reuse verified
