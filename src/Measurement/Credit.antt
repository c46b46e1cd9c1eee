-- ===== src/Measurement/Credit.antt =====
-- measurement/service.py `ingest`: what the credit of an imported task rests on.
use mathlib.Core.Path.{subst}
use owlmatic.Prelude.{
  ℕ, ◌≡◌, ap, true, false, ◌&&◌, String, List, [], ◌∷◌, all, All, arith, is_empty, Bool-cases,
  Option-cases, inl, inr,
}
use owlmatic.Errors.{ok, raise_if, attribution_conflict, Result-cases}
use owlmatic.Actions.{bind-ok, ◌>>=◌, lift, pure}
use owlmatic.Domain.{Run, state_eq, finish}
use owlmatic.Domain.Lifecycle.{finish-ok}
use owlmatic.Ledger
use owlmatic.Ledger.{Db, find_row, is_expired, lost, get_row}
use owlmatic.Ledger.History.{after}
use owlmatic.Ledger.Finality.{IsFinal, get-IsFinal}
use owlmatic.Measurement.Contracts.{TaskPurpose, Basis, TaskObservation, ImportRequest, attributed}
use owlmatic.Measurement.Equality.{task_purpose_eq, task_purpose_iff}
use owlmatic.Measurement.Service.{Registered}
use owlmatic.Measurement.Import.{
  Configuration, ImportPort, ImportResult, Imports, get_run, get_runs, is_creditable, is_conflict,
  common_ref, attribute, check_ref, put_task, accept, ingest,
}

-- The ledger stores, as the final result of the run, a verdict with known effects.
pub record IsBacked (id : String) (db : Db) : Type 0 where
  pub run : Run
  pub is_final : IsFinal id run db
  pub creditable : is_creditable run ≡ true

get-creditable :
    (id : String) (now : ℕ) (iso : String) (db db' : Db) (r : Run)
    → Ledger.get id now iso db ≡ ok (r, db')
    → is_creditable r ≡ true
    → IsFinal id r db'
unfolding Ledger.get
get-creditable id now iso db db' r h c = elim (Option-cases (find_row id db.rows)) [
  | inl absent ↦ absurd (ground arith)
  | inr (row, there) ↦ elim (Bool-cases (is_expired row now)) [
    | inr live ↦ record {
      row = row;
      found = ground arith;
      same = ground arith;
      over = unfold is_creditable in ground arith;
    }
    | inl late ↦ elim (Result-cases (finish row.run (lost row.run iso))) [
      | inr (e, refused) ↦ absurd (ground arith)
      | inl (new, done) ↦
          let same = (finish-ok row.run new (lost row.run iso) done).3 in
          absurd (unfold is_creditable in ground arith)
    ]
  ]
]

get_run-IsFinal :
    (j : String) (run : Run) (id : String) (now : ℕ) (iso : String) (s : Imports)
    → IsFinal j run s.db
    → IsFinal j run (get_run id now iso s).1.db
unfolding get_run
get_run-IsFinal j run id now iso s f = elim (Result-cases (Ledger.get id now iso s.db)) [
  | inr (e, refused) ↦ rw (refused, get_run) f
  | inl ((r, db'), found) ↦
      rw (found, get_run)
        (subst (λ x. IsFinal j run (after x s.db)) found (get-IsFinal j run now iso id s.db f))
]

-- The calls of `get` for a list of run ids, one after another.
get_runs-ok :
    (id : String) (ids : List String) (now : ℕ) (iso : String) (s s' : Imports) (runs : List Run)
    → get_runs (id ∷ ids) now iso s ≡ (ok runs, s')
    → (r : Run) × (rest : List Run) × ((get_run id now iso s).0 ≡ ok r)
      × (get_runs ids now iso (get_run id now iso s).1 ≡ (ok rest, s'))
      × (runs ≡ r ∷ rest)
unfolding get_runs
get_runs-ok id ids now iso s s' runs h =
    let (r, first, h1) = bind-ok (get_run id now iso) _ s s' runs h in
    let (rest, others, h2) = bind-ok (get_runs ids now iso) _ (get_run id now iso s).1 s' runs h1 in
    (r, rest, first, ground arith, ground arith)

get_runs-IsFinal :
    (j : String) (run : Run) (ids : List String) (now : ℕ) (iso : String) (s s' : Imports)
    (runs : List Run)
    → get_runs ids now iso s ≡ (ok runs, s')
    → IsFinal j run s.db
    → IsFinal j run s'.db
get_runs-IsFinal j run [] now iso s s' runs h f =
    let same : s ≡ s' = unfold get_runs in ground arith in
    subst (λ (x : Imports). IsFinal j run x.db) same f
get_runs-IsFinal j run (id ∷ ids) now iso s s' runs h f =
    let (r, rest, first, others, e) = get_runs-ok id ids now iso s s' runs h in
    get_runs-IsFinal j run ids now iso (get_run id now iso s).1 s' rest others
      (get_run-IsFinal j run id now iso s f)

get_run-creditable :
    (id : String) (now : ℕ) (iso : String) (s : Imports) (r : Run)
    → (get_run id now iso s).0 ≡ ok r
    → is_creditable r ≡ true
    → IsFinal id r (get_run id now iso s).1.db
unfolding get_run
get_run-creditable id now iso s r h c = elim (Result-cases (Ledger.get id now iso s.db)) [
  | inr (e, refused) ↦ absurd (ground arith)
  | inl ((x, db'), found) ↦
      let same : x ≡ r = ground arith in
      rw (found, get_run)
        (get-creditable id now iso s.db db' r (rw found (ap (λ y. ok (y, db')) same)) c)
]

get_runs-IsBacked :
    (ids : List String) (now : ℕ) (iso : String) (s s' : Imports) (runs : List Run)
    → get_runs ids now iso s ≡ (ok runs, s')
    → all is_creditable runs ≡ true
    → All (λ id. IsBacked id s'.db) ids
get_runs-IsBacked [] now iso s s' runs h c = tt
get_runs-IsBacked (id ∷ ids) now iso s s' runs h c =
    let s1 = (get_run id now iso s).1 in
    let (r, rest, first, others, e) = get_runs-ok id ids now iso s s' runs h in
    let good : (is_creditable r && all is_creditable rest) ≡ true = ground arith in
    let f = get_run-creditable id now iso s r first (ground arith) in
    (
      record {
        run = r;
        is_final = get_runs-IsFinal id r ids now iso s1 s' rest others f;
        creditable = ground arith;
      },
      get_runs-IsBacked ids now iso s1 s' rest others (ground arith),
    )

abbrev pub credited : TaskObservation → List Run → TaskObservation
credited t runs = attributed t (common_ref runs) (all is_creditable runs) Basis.workflow_evidence

-- What `attribute` makes of an observation that was read.
pub data IsAttributed (request : ImportRequest) (db : Db) (t : TaskObservation)
    : TaskObservation → Type 0 where
  attested :
      t.run_ids ≡ []
      → (request.purpose ≡ TaskPurpose.reuse → request.verified ≡ false)
      → IsAttributed request db t t
  evidenced :
      (runs : List Run)
      → is_empty t.run_ids ≡ false
      → is_conflict request.workflow_ref runs ≡ false
      → (all is_creditable runs ≡ true → All (λ id. IsBacked id db) t.run_ids)
      → IsAttributed request db t (credited t runs)

attribute-IsAttributed :
    (request : ImportRequest) (now : ℕ) (iso : String) (t t' : TaskObservation) (s s' : Imports)
    → attribute request now iso t s ≡ (ok t', s')
    → IsAttributed request s'.db t t'
unfolding attribute
attribute-IsAttributed request now iso t t' s s' h = elim (Bool-cases (is_empty t.run_ids)) [
  | inl none_given ↦
      let same : t ≡ t' = ground arith in
      subst (IsAttributed request s'.db t) same (
        attested (ground arith) (λ e. elim (Bool-cases request.verified) [
          | inr denied ↦ denied
          | inl claimed ↦
              absurd (ground (arith, task_purpose_iff request.purpose TaskPurpose.reuse))
        ]))
  | inr given ↦
      let h1 : (get_runs t.run_ids now iso >>= λ runs.
      lift (raise_if (is_conflict request.workflow_ref runs) attribution_conflict) >>= λ _.
      pure (credited t runs))
            s
          ≡ (ok t', s') =
        ground arith in
      let (runs, found, h2) = bind-ok (get_runs t.run_ids now iso) _ s s' t' h1 in
      elim (Bool-cases (is_conflict request.workflow_ref runs)) [
        | inl conflict ↦ absurd (ground arith)
        | inr agreed ↦
            let there : get_runs t.run_ids now iso s ≡ (ok runs, s') = ground arith in
            let same : credited t runs ≡ t' = ground arith in
            subst (IsAttributed request s'.db t) same
              (evidenced runs given agreed (get_runs-IsBacked t.run_ids now iso s s' runs there))
      ]
]

accept-ok :
    (registered : Registered) (t : TaskObservation) (s s' : Imports) (i : ImportResult)
    → accept registered t s ≡ (ok i, s')
    → (i.observation ≡ t) × (check_ref registered t.workflow_ref ≡ ok tt) × (s'.db ≡ s.db)
unfolding accept
accept-ok registered t s s' i h = elim (Result-cases (check_ref registered t.workflow_ref)) [
  | inr (e, refused) ↦ absurd (ground arith)
  | inl (u, known) ↦ elim (Result-cases (put_task t s.accounts).0) [
    | inr (e, refused) ↦ absurd (ground arith)
    | inl (true, stored) ↦ (ground arith, ground arith, ground arith)
    | inl (false, stored) ↦ (ground arith, ground arith, ground arith)
  ]
]

pub ingest-IsAttributed :
    (port : ImportPort) (config : Configuration) (request : ImportRequest) (now : ℕ) (iso : String)
    (s s' : Imports) (i : ImportResult)
    → ingest port config request now iso s ≡ (ok i, s')
    → (config.enabled ≡ true)
      × (t : TaskObservation) × (port.history request now ≡ ok t)
      × (check_ref port.registered i.observation.workflow_ref ≡ ok tt)
      × IsAttributed request s'.db t i.observation
unfolding ingest
ingest-IsAttributed port config request now iso s s' i h = elim (Bool-cases config.enabled) [
  | inr off ↦ absurd (ground arith)
  | inl on ↦ elim (Result-cases (port.history request now)) [
    | inr (e, unread) ↦ absurd (ground arith)
    | inl (t, read) ↦
        let h1 : (attribute request now iso t >>= accept port.registered) s ≡ (ok i, s') =
          ground arith in
        let (t', given, h2) = bind-ok (attribute request now iso t) _ s s' i h1 in
        let s1 = (attribute request now iso t s).1 in
        let (same, known, kept) = accept-ok port.registered t' s1 s' i h2 in
        let done : attribute request now iso t s ≡ (ok t', s1) = ground arith in
        (
          on,
          t,
          read,
          rw same known,
          rw (same, kept) (attribute-IsAttributed request now iso t t' s s1 done),
        )
  ]
]
