-- ===== src/Export/Service.antt =====
-- export_service.py `ExportService`. Digests (hashlib) and encoded sizes (pydantic) of snapshots and
-- configurations are functions of `Encoding`; what one call reads from outside is in `Inputs`.
use owlmatic.Prelude.{
  ℕ, ◌+◌, ◌*◌, ◌-◌, ◌^◌, min, Bool, true, false, ◌&&◌, ◌||◌, not, String, Option, none, some,
  is_some, is_none, List, [], ◌∷◌, ◌++◌, ltb, leb, truthy, ◌==◌, string_eq, option_eq,
  if◌then◌else◌,
}
use owlmatic.Errors.{
  Code, Error, owl, Result, ok, err, export_disabled, export_too_large, export_transient, raise_if,
}
use owlmatic.Errors
use owlmatic.Actions.{Action, pure, lift, ◌>>=◌, ◌>>◌}
use owlmatic.Domain.{Failure}
use owlmatic.Statistics.{StatisticsReport}
use owlmatic.Export.Contracts.{Snapshot, body}
use owlmatic.Export.Projection.{snapshot}
use owlmatic.Export.State.{
  ExportConfiguration, ExportState, PendingExport, DeliveryReport, is_disabled, is_automatic,
  public_failure, empty, unchanged, failed, deferred, delivered,
}

abbrev pub second : ℕ
second = 1000000

pub record Encoding : Type 0 where
  pub configuration_digest : ExportConfiguration → String
  pub payload_digest : Snapshot → String
  pub size : Snapshot → ℕ

-- The instants before and after the transmission, fresh ids, the statistics, and what the
-- transmission answers.
pub record Inputs : Type 0 where
  pub now : ℕ
  pub later : ℕ
  pub new_source_id : String
  pub new_snapshot_id : String
  pub report : StatisticsReport
  pub answer : Result (Unit {0})

-- The stored state, and the snapshots handed to the sender so far.
pub record Outbox : Type 0 where
  pub state : ExportState
  pub sent : List Snapshot

abbrev pub fresh_state : ExportState → String → Option String → ExportState
fresh_state s digest payload = record {
  source_id = s.source_id;
  sequence = s.sequence;
  configuration_digest = some digest;
  pending = none;
  last_payload_digest = payload;
}

-- A changed configuration forgets the pending snapshot and the last payload.
unfoldable pub reconfigure : String → ExportState → ExportState
reconfigure digest s =
    if s.configuration_digest == some digest then s else fresh_state s digest none

abbrev pub is_stale : ℕ → ℕ → Option PendingExport → Bool
is_stale days now none = false
is_stale days now (some p) = leb (p.created_at + days * 86400 * second) now

-- A pending snapshot that is too old is dropped.
unfoldable pub drop_stale : ℕ → String → ℕ → ExportState → ExportState
drop_stale days digest now s =
    if is_stale days now s.pending then fresh_state s digest s.last_payload_digest else s

unfoldable pub synchronize : Encoding → ExportConfiguration → ℕ → ExportState → ExportState
unfolding reconfigure drop_stale
synchronize e config now s =
    let digest = e.configuration_digest config in
    drop_stale config.delivery.pending_retention_days digest now (reconfigure digest s)

-- state.source_id or self.new_id()
abbrev pub source_or : Option String → String → String
source_or none new = new
source_or (some id) new = if truthy (some id) then id else new

-- The state with a new pending snapshot.
abbrev pub prepared : ExportState → Snapshot → ℕ → ExportState
prepared s value now = record {
  source_id = some (body value).source_id;
  sequence = (body value).sequence;
  configuration_digest = s.configuration_digest;
  pending = some (record {
    snapshot = value;
    created_at = now;
    attempts = 0;
    next_attempt_at = 0;
    last_failure = none;
  });
  last_payload_digest = s.last_payload_digest;
}

unfoldable pub accept :
    Encoding → ExportConfiguration → ExportState → ℕ → Bool → Snapshot → Result ExportState
accept e config s now automatic value =
    if automatic && some (e.payload_digest value) == s.last_payload_digest
    then ok s
    else if ltb config.delivery.max_pending_bytes (e.size value)
    then err (owl export_too_large)
    else ok (prepared s value now)

unfoldable pub project : ExportConfiguration → ExportState → Inputs → Result Snapshot
project config s i =
    snapshot i.report config.scope (source_or s.source_id i.new_source_id) i.new_snapshot_id
      (s.sequence + 1) config.schema_version config.source_label config.include_measurements

unfoldable pub prepare :
    Encoding → ExportConfiguration → ExportState → Inputs → Bool → Result ExportState
unfolding accept project
prepare e config s i automatic =
    if is_disabled config.mode
    then err (owl export_disabled)
    else if is_some s.pending
    then ok s
    else Errors.◌>>=◌ (project config s i) (accept e config s i.now automatic)

abbrev pub save : ExportState → Action Outbox (Unit {0})
save s o = (ok tt, record o { state = s })

-- The report of `preview`: the snapshot that would be sent.
unfoldable pub preview :
    Encoding → ExportConfiguration → Inputs → Action Outbox (Option PendingExport)
unfolding synchronize prepare
preview e config i o =
    (do
      let s = synchronize e config i.now o.state
      save s
      p ← lift (prepare e config s i false)
      save p
      pure p.pending)
      o

abbrev pub is_transient : Failure → Bool
is_transient f = elim f.code [ export_transient ↦ true | _ ↦ false ]

abbrev pub is_permanent : Option Failure → Bool
is_permanent none = false
is_permanent (some f) = not (is_transient f)

-- min(retry_max_seconds, retry_initial_seconds * 2 ** min(attempts, 20))
unfoldable pub backoff : ExportConfiguration → ℕ → ℕ
backoff config attempts =
    min config.delivery.retry_max_seconds
      (config.delivery.retry_initial_seconds * 2 ^ min attempts 20)

unfoldable pub failed_export : ExportConfiguration → PendingExport → ℕ → Failure → PendingExport
unfolding backoff
failed_export config p later failure = record {
  snapshot = p.snapshot;
  created_at = p.created_at;
  attempts = p.attempts + 1;
  next_attempt_at = later + backoff config p.attempts * second;
  last_failure = some failure;
}

abbrev pub delivered_state : Encoding → ExportState → PendingExport → ExportState
delivered_state e s p = record s {
  pending = none;
  last_payload_digest = some (e.payload_digest p.snapshot);
}

-- What follows the transmission.
unfoldable pub conclude :
    Encoding
    → ExportConfiguration
    → ExportState
    → PendingExport
    → ℕ
    → Result (Unit {0})
    → Action Outbox DeliveryReport
unfolding failed_export
conclude e config s p later (ok u) = do
  save (delivered_state e s p)
  pure (delivered (body p.snapshot).snapshot_id (e.size p.snapshot))
conclude e config s p later (err error) = do
  let failure = public_failure error
  save (record s { pending = some (failed_export config p later failure) })
  pure (
      failed (body p.snapshot).snapshot_id (some failure) (
        if is_transient failure && ltb (p.attempts + 1) config.delivery.max_attempts
        then backoff config p.attempts * second
        else 0))

abbrev pub transmit : Snapshot → Action Outbox (Unit {0})
transmit value o = (ok tt, record o { sent = o.sent ++ value ∷ [] })

unfoldable pub deliver :
    Encoding
    → ExportConfiguration
    → ExportState
    → PendingExport
    → Inputs
    → Action Outbox DeliveryReport
unfolding conclude
deliver e config s p i = do transmit p.snapshot; conclude e config s p i.later i.answer

-- attempts >= max_attempts, or a failure that is not transient
abbrev pub is_given_up : ExportConfiguration → PendingExport → Bool
is_given_up config p = leb config.delivery.max_attempts p.attempts || is_permanent p.last_failure

unfoldable pub push_pending :
    Encoding
    → ExportConfiguration
    → ExportState
    → Option PendingExport
    → Inputs
    → Bool
    → Action Outbox DeliveryReport
unfolding deliver
push_pending e config s none i retry = pure unchanged
push_pending e config s (some p) i true = deliver e config s p i
push_pending e config s (some p) i false =
    if is_given_up config p
    then pure (failed (body p.snapshot).snapshot_id p.last_failure 0)
    else if ltb i.now p.next_attempt_at
    then pure (deferred (p.next_attempt_at - i.now))
    else deliver e config s p i

unfoldable pub push_from :
    Encoding
    → ExportConfiguration
    → ExportState
    → Inputs
    → Bool
    → Bool
    → Action Outbox DeliveryReport
unfolding prepare push_pending
push_from e config s i retry automatic =
    if is_disabled config.mode || (automatic && not (is_automatic config.mode))
    then pure DeliveryReport.disabled
    else if retry && is_none s.pending
    then pure empty
    else (do
      p ← lift (prepare e config s i automatic)
      save p
      push_pending e config p p.pending i retry)

unfoldable pub push :
    Encoding → ExportConfiguration → Inputs → Bool → Bool → Action Outbox DeliveryReport
unfolding synchronize push_from
push e config i retry automatic o =
    let s = synchronize e config i.now o.state in
    push_from e config s i retry automatic (record o { state = s })
