-- ===== src/Supervision/Stored.antt =====
-- supervisor.py, recovery_service.py: the stored result of an execution.
use owlmatic.Prelude.{
  Option, ℕ, ◌≡◌, refl, inl, inr, Bool, true, false, String, some, not, arith, is_empty, ◌++◌, sym,
}
use mathlib.Core.Path.{subst}
use owlmatic.Errors.{Result, ok, Result-cases, result_pending, cleanup_pending}
use owlmatic.Actions.{Keeps, bind-Keeps, if-Keeps, bind-ok, pure, lift, ◌>>◌}
use owlmatic.Domain.{Run, is_running, is_uncertain}
use owlmatic.Ledger.{Row, Db, find_row, is_pending}
use owlmatic.Ledger
use owlmatic.Ledger.History.{after, replay}
use owlmatic.Ledger.Finality.{IsFinal, get-IsFinal, settled-IsFinal}
use owlmatic.Ledger.Leases.{complete_row, finish_authorised}
use owlmatic.Recovery.{
  Artifacts, World, ledger, query, attempt, settle_if, project, finalize_idle, finalize,
}
use owlmatic.Supervision.Attempt.{Job, Ports, execute_job}
use owlmatic.Supervision.Execution.{
  Shift, execute, claim_for, store_result, passing_time, wrap_up, complete, work,
}

module _ {F : Type 0} (artifacts : Artifacts F) (j : String) (run : Run) where
  -- The ledger of a world stores the result.
  abbrev Stores : World F → Type 0
  Stores w = IsFinal j run w.db

  ledger-after :
      {A : Type 0} (t : Db → Result (A × Db)) (w : World F)
      → (ledger t w).1.db ≡ after (t w.db) w.db
  ledger-after t w = elim (Result-cases (t w.db)) [
    | inl (p, e) ↦ rw e refl
    | inr (x, e) ↦ rw e refl
  ]

  settle_if-Keeps :
      (b : Bool) (id : String) (release : Bool) → Keeps Stores (settle_if b id release)
  settle_if-Keeps true id release w f =
      subst (IsFinal j run) (sym (ledger-after (Ledger.settled id release) w))
        (settled-IsFinal j run id release w.db f)
  settle_if-Keeps false id release w f = f

  project-Keeps : (result : Run) (id : String) → Keeps Stores (project artifacts result id)
  unfolding project
  project-Keeps result id w f =
      bind-Keeps Stores (attempt (artifacts.save_result result) result_pending) _ (λ v g. g)
        (λ saved.
          bind-Keeps Stores (attempt (artifacts.scrub_inputs id) cleanup_pending) _ (λ v g. g)
            (λ scrubbed.
              bind-Keeps Stores
                (settle_if (is_empty (saved ++ scrubbed)) id (not (is_uncertain result.effects))) _
                (settle_if-Keeps (is_empty (saved ++ scrubbed)) id
                  (not (is_uncertain result.effects)))
                (λ u v g. g)))
        w f

  finalize_idle-Keeps :
      (id : String) (now : ℕ) (iso : String) → Keeps Stores (finalize_idle artifacts id now iso)
  unfolding finalize_idle
  finalize_idle-Keeps id now iso w f =
      bind-Keeps Stores (ledger (Ledger.get id now iso)) _
        (λ v g.
          subst (IsFinal j run) (sym (ledger-after (Ledger.get id now iso) v))
            (get-IsFinal j run now iso id v.db g))
        (λ r.
          if-Keeps Stores (is_running r.state) _ _ (λ v g. g)
            (bind-Keeps Stores (query (is_pending id)) _ (λ v g. g)
              (λ due. if-Keeps Stores due _ _ (project-Keeps r id) (λ v g. g))))
        w f

  pub finalize-Keeps :
      (idle : String → Bool) (id : String) (now : ℕ) (iso : String)
      → Keeps Stores (finalize artifacts idle id now iso)
  unfolding finalize
  finalize-Keeps idle id now iso =
      if-Keeps Stores (idle id) _ _ (finalize_idle-Keeps id now iso) (λ v g. g)

-- The tables when the attempt ends: those that the claim has left, after what the ledger saw since.
abbrev pub at_end : Job → Shift → Db → Db
at_end job shift db =
    replay shift.meanwhile
      (Ledger.claim job.run.run_id shift.owner shift.claimed_at shift.claimed_iso db).1

-- From the tables `start` to the tables `db`, a run was claimed, and completed with the result of the
-- attempt while it was active and owned by the worker.
pub record IsStored (ports : Ports) (job : Job) (shift : Shift) (result : Run) (start db : Db)
    : Type 0 where
  pub claimed_run : Run
  pub claimed :
      (Ledger.claim job.run.run_id shift.owner shift.claimed_at shift.claimed_iso start).0
      ≡ ok claimed_run
  pub attempted : execute_job ports job ≡ ok result
  pub row : Row
  pub there : find_row result.run_id (at_end job shift start).rows ≡ some row
  pub active : is_running row.run.state ≡ true
  pub owned : row.owner ≡ some shift.owner
  pub stored : Db
  pub finished :
      Ledger.finish result (some shift.owner) shift.finished_at (at_end job shift start)
      ≡ ok (tt, stored)
  pub final : IsFinal result.run_id result db

pub finish-IsFinal_new :
    (result : Run) (owner : Option String) (now : ℕ) (db db' : Db)
    → Ledger.finish result owner now db ≡ ok (tt, db')
    → IsFinal result.run_id result db'
finish-IsFinal_new result owner now db db' h =
    let a = finish_authorised result owner now db db' h in
    record { row = complete_row result now a.0; found = a.7; same = refl; over = a.6 }

ledger-ok :
    {F A : Type 0} (t : Db → Result (A × Db)) (w : World F) (a : A)
    → (ledger t w).0 ≡ ok a
    → t w.db ≡ ok (a, (ledger t w).1.db)
ledger-ok t w a h = elim (Result-cases (t w.db)) [
  | inl ((b, db'), e) ↦ ground arith
  | inr (x, e) ↦ absurd (ground arith)
]

complete-IsStored :
    {F : Type 0} (artifacts : Artifacts F) (idle : String → Bool) (ports : Ports) (shift : Shift)
    (job : Job) (start : Db) (c : Run) (v w' : World F) (done result : Run)
    → (Ledger.claim job.run.run_id shift.owner shift.claimed_at shift.claimed_iso start).0 ≡ ok c
    → v.db ≡ at_end job shift start
    → execute_job ports job ≡ ok done
    → complete artifacts idle shift done v ≡ (ok result, w')
    → IsStored ports job shift result start w'.db
complete-IsStored artifacts idle ports shift job start c v w' done result taken late made h =
    let (_, e, h1) =
      bind-ok (store_result done shift) (λ _. wrap_up artifacts idle shift done) v w' result h in
    let stored = (store_result done shift v).1 in
    let completed : Ledger.finish done (some shift.owner) shift.finished_at v.db
        ≡ ok (tt, stored.db) =
      ledger-ok (Ledger.finish done (some shift.owner) shift.finished_at) v tt e in
    let last = finalize artifacts idle done.run_id shift.finalized_at shift.finalized_iso in
    let (_, _, h2) = bind-ok last (λ _. pure done) stored w' result h1 in
    let same : done ≡ result = ground arith in
    let settled : (last stored).1 ≡ w' = ground arith in
    let a = finish_authorised done (some shift.owner) shift.finished_at v.db stored.db completed in
    let kept =
      finalize-Keeps artifacts done.run_id done idle done.run_id shift.finalized_at
        shift.finalized_iso stored
        (finish-IsFinal_new done (some shift.owner) shift.finished_at v.db stored.db completed) in
    subst (λ r. IsStored ports job shift r start w'.db) same
      (record {
        claimed_run = c;
        claimed = taken;
        attempted = made;
        row = a.0;
        there = subst (λ (d : Db). find_row done.run_id d.rows ≡ some a.0) late a.1;
        active = a.2;
        owned = a.3;
        stored = stored.db;
        finished =
            subst
              (λ d. Ledger.finish done (some shift.owner) shift.finished_at d ≡ ok (tt, stored.db))
              late completed;
        final = subst (λ u. IsFinal done.run_id done u.db) settled kept;
      })

-- Whatever happens in the ledger during an attempt: if `execute` returns, its claim went through, it
-- returns the result of the attempt, and this result was completed on the tables that the claim and
-- what happened since have left, where the run was active and owned by this worker; after
-- finalization the ledger stores exactly this result.
pub execute-IsStored :
    {F : Type 0} (artifacts : Artifacts F) (idle : String → Bool) (ports : Ports) (shift : Shift)
    (job : Job) (w w' : World F) (result : Run)
    → execute artifacts idle ports shift job w ≡ (ok result, w')
    → IsStored ports job shift result w.db w'.db
unfolding execute
execute-IsStored artifacts idle ports shift job w w' result h =
    let (_, _, h1) =
      bind-ok (lift shift.held)
        (λ _. claim_for job.run.run_id shift >> work artifacts idle ports shift job) w w' result
        h in
    let (c, taken, h2) =
      bind-ok (claim_for job.run.run_id shift) (λ _. work artifacts idle ports shift job) w w'
        result h1 in
    let claimed = (claim_for job.run.run_id shift w).1 in
    let late = (passing_time shift.meanwhile claimed).1 in
    let (done, made, h3) =
      bind-ok (lift (execute_job ports job)) (complete artifacts idle shift) late w' result h2 in
    complete-IsStored artifacts idle ports shift job w.db c late w' done result taken refl made h3
