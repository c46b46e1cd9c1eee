-- ===== src/Measurement/Baselines.antt =====
-- measurement/service.py: baselines and reports.
use owlmatic.Prelude.{
  ◌≡◌, true, some, any, truthy, string_eq, arith, eq_iff, Option-cases, Bool-cases, inl, inr,
}
use owlmatic.Errors.{ok, Result-cases}
use owlmatic.Measurement.Contracts.{TaskObservation, TaskPurpose, BaselineLink}
use owlmatic.Measurement.Equality.{task_purpose_eq, task_purpose_iff}
use owlmatic.Measurement.Repository.{Store, find_task}
use owlmatic.Measurement.Tables.{link, same_link}
use owlmatic.Measurement.Service.{Accounts, Registered, is_baseline, baseline}

link_self : (l : BaselineLink) (s : Store) → any (same_link l) (link l s).baselines ≡ true
unfolding link
link_self l s = elim (Bool-cases (any (same_link l) s.baselines)) [
  | inl old ↦ rw old old
  | inr new ↦
      rw new (ground (arith, eq_iff l.workflow_ref l.workflow_ref, eq_iff l.task_id l.task_id))
]

-- A baseline is linked only to a registered workflow, and only for a known task that is manual,
-- complete, verified and has a model; afterwards the link is stored and no task has changed.
pub baseline-ok :
    (registered : Registered) (l : BaselineLink) (a a' : Accounts)
    → baseline registered l a ≡ (ok tt, a')
    → (registered l.workflow_ref ≡ ok tt)
      × (t : TaskObservation) × (find_task l.task_id a.store.tasks ≡ some t)
      × (t.purpose ≡ TaskPurpose.manual)
      × (t.complete ≡ true)
      × (t.verified ≡ true)
      × (truthy t.model ≡ true)
      × (any (same_link l) a'.store.baselines ≡ true)
      × (a'.store ≡ link l a.store)
unfolding baseline
baseline-ok registered l a a' h = elim (Result-cases (registered l.workflow_ref)) [
  | inr (e, refused) ↦ absurd (ground arith)
  | inl (u, known) ↦ elim (Option-cases (find_task l.task_id a.store.tasks)) [
    | inl absent ↦ absurd (ground arith)
    | inr (t, there) ↦
        let good : is_baseline (some t) ≡ true = ground arith in
        (
          ground arith,
          t,
          there,
          ground (arith, task_purpose_iff t.purpose TaskPurpose.manual),
          ground arith,
          ground arith,
          ground arith,
          ground (arith, link_self l a.store),
          ground arith,
        )
  ]
]
