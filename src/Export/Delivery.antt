-- ===== src/Export/Delivery.antt =====
-- export_service.py: what one push does to the outbox.
use owlmatic.Prelude.{
  ℕ, ◌≡◌, ◌≤◌, ◌+◌, ◌⊎◌, inl, inr, Bool, true, false, ◌&&◌, none, some, List, [], ◌∷◌, ◌++◌, ◌==◌,
  string_eq, option_eq, arith, Option-cases, Bool-cases,
}
use owlmatic.Errors.{ok, Result-cases, >>=-eq-ok}
use owlmatic.Domain.{Failure}
use owlmatic.Export.Contracts.{
  Snapshot, SnapshotBody, Extension, body, enforce_scope, measurement_scope,
}
use owlmatic.Export.Projection.{snapshot, snapshot_body, of_version, one, two, SchemaVersion}
use owlmatic.Export.State.{ExportConfiguration, ExportState, PendingExport, is_disabled}
use owlmatic.Export.Service.{
  Encoding, Inputs, Outbox, prepared, project, prepare, failed_export, is_given_up, source_or,
}

enforce_scope-eq : (b c : SnapshotBody) → enforce_scope b ≡ ok c → c ≡ b
unfolding enforce_scope
enforce_scope-eq b c h = ground arith

of_version-body :
    (v : SchemaVersion) (b : SnapshotBody) (x : Extension) (s : Snapshot)
    → of_version v b x ≡ ok s
    → body s ≡ b
unfolding measurement_scope
of_version-body one b x s h = ground arith
of_version-body two b x s h = ground arith

-- A projected snapshot carries the number and the source that it was given.
project-numbered :
    (config : ExportConfiguration) (s : ExportState) (i : Inputs) (value : Snapshot)
    → project config s i ≡ ok value
    → (body value).sequence ≡ s.sequence + 1
unfolding project snapshot
project-numbered config s i value h =
    let (b, kept, rest) =
      >>=-eq-ok
        (enforce_scope (
          snapshot_body i.report config.scope (source_or s.source_id i.new_source_id)
            i.new_snapshot_id (s.sequence + 1)))
        _ h in
    let e = enforce_scope-eq _ b kept in
    let f = of_version-body config.schema_version b _ value rest in
    unfold snapshot_body in ground arith

-- How `prepare` ends: as it was, or with a new snapshot under the next number.
pub prepare-ok :
    (e : Encoding) (config : ExportConfiguration) (s s' : ExportState) (i : Inputs)
    (automatic : Bool)
    → prepare e config s i automatic ≡ ok s'
    → (s' ≡ s)
      ⊎ ((value : Snapshot) × (s.pending ≡ none)
          × ((body value).sequence ≡ s.sequence + 1)
          × (s' ≡ prepared s value i.now))
prepare-ok e config s s' i automatic h = elim (Option-cases s.pending) [
  | inr (p, there) ↦ inl (unfold prepare in ground arith)
  | inl free ↦ elim (Result-cases (project config s i)) [
    | inr (x, refused) ↦ absurd (unfold prepare in ground arith)
    | inl (value, projected) ↦
        elim (Bool-cases (automatic && some (e.payload_digest value) == s.last_payload_digest)) [
          | inl same ↦ inl (unfold prepare in ground arith)
          | inr new ↦ inr (
            value,
            free,
            project-numbered config s i value projected,
            unfold prepare in ground arith,
          )
        ]
  ]
]

-- How a transmission ends: delivered, or the same snapshot stays pending with one more attempt.
pub data Concludes (config : ExportConfiguration) (p : PendingExport) (later : ℕ) (s : ExportState)
    : Type 0 where
  gone : s.pending ≡ none → Concludes config p later s
  kept :
      (f : Failure) → s.pending ≡ some (failed_export config p later f) → Concludes config p later s

-- What one push may do to the outbox: transmit nothing, or transmit one snapshot, which is the
-- pending one or, if there is none, the next in the sequence. Unless it is a manual retry, the
-- snapshot is not given up and its delay is over.
pub data Pushes (config : ExportConfiguration) (i : Inputs) (retry : Bool) (s : ExportState)
    (before : List Snapshot) (o : Outbox) : Type 0 where
  quiet : o.sent ≡ before → Pushes config i retry s before o
  sends :
      (p : PendingExport)
      → (s.pending ≡ some p) ⊎ ((s.pending ≡ none) × ((body p.snapshot).sequence ≡ s.sequence + 1))
      → is_disabled config.mode ≡ false
      → (retry ≡ true) ⊎ ((is_given_up config p ≡ false) × (p.next_attempt_at ≤ i.now))
      → o.sent ≡ before ++ p.snapshot ∷ []
      → Concludes config p i.later o.state
      → Pushes config i retry s before o
