-- ===== src/Execution/Starting.antt =====
-- execution_service.py: summaries, failed starts and cleanup.
use owlmatic.Prelude.{
  eq_iff, ◌∙◌, sym, ap, IsIn, ◌⊎◌, ℕ, ◌≡◌, refl, Bool, true, false, String, none, some, List, [],
  ◌∷◌, ltb, truthy, if◌then◌else◌, arith, Bool-cases, inl, inr, string_eq,
}
use owlmatic.Errors.{Error, Result, ok, err, owl, start_failed}
use owlmatic.Actions.{Keeps, bind-Keeps, if-Keeps, pure, raise, after_result}
use owlmatic.Domain.{
  Run, IsConsistent, summary_run, is_running, completed_run, finish, consistent_state,
}
use owlmatic.Domain.Lifecycle.{summarized-IsConsistent}
use owlmatic.Ledger.{holds_lock, Lock, Db, Row, find_row, is_removable, find_row-delete_kept}
use owlmatic.Ledger
use owlmatic.Ledger.History.{replay}
use owlmatic.Ledger.Finality.{IsFinal}
use owlmatic.Recovery.{World, ledger, finalize}
use owlmatic.Supervision.Stored.{finish-IsFinal_new, finalize-Keeps}
use owlmatic.Execution.Service.{
  RunSummary, summary, without_workspace, summarize, Ports, Poll, start_failure, abandon, files,
  remove_run, remove_all,
}

-- A summary of a run: the run itself, or without its outputs, which the summary says.
pub data Summarizes (run : Run) (pending : Bool) (s : RunSummary) : Type 0 where
  whole : s ≡ summary false pending run → Summarizes run pending s
  shortened :
      (omit_workspace : Bool)
      → s ≡ summary true pending (summary_run run true omit_workspace)
      → Summarizes run pending s

without_workspace-ok :
    (size : RunSummary → ℕ) (run : Run) (pending : Bool) (s : RunSummary)
    → IsConsistent run
    → Summarizes run pending s
    → (t : RunSummary) × (without_workspace size run pending s ≡ ok t) × Summarizes run pending t
unfolding without_workspace
without_workspace-ok size run pending s v u = elim (Bool-cases (ltb 2048 (size s))) [
  | inl large ↦ (
    summary true pending (summary_run run true true),
    rw (large, (summarized-IsConsistent run true true v).0) refl,
    shortened true refl,
  )
  | inr small ↦ (s, rw small refl, u)
]

-- A summary of a consistent run always exists, whatever its encoded size: it is the run, or the
-- run without its outputs and perhaps its workspace, marked as such.
pub summarize-ok :
    (size : RunSummary → ℕ) (run : Run) (pending : Bool)
    → IsConsistent run
    → (s : RunSummary) × (summarize size run pending ≡ ok s) × Summarizes run pending s
unfolding summarize
summarize-ok size run pending v = elim (Bool-cases (ltb 2048 (size (summary false pending run)))) [
  | inl large ↦
      let second = summary true pending (summary_run run true false) in
      let (s, made, u) = without_workspace-ok size run pending second v (shortened false refl) in
      (s, rw (large, (summarized-IsConsistent run true false v).0) made, u)
  | inr small ↦ (summary false pending run, rw small refl, whole refl)
]

-- The run of the row is pending, is active, or holds one of the locks.
abbrev pub IsInUse : List Lock → Row → Type 0
IsInUse locks row =
    (row.pending ≡ true)
    ⊎ ((is_running row.run.state ≡ true) ⊎ ((l : Lock) × IsIn l locks × (l.run_id ≡ row.id)))

-- The row under `j` is `row`, and its run is in use.
abbrev pub HasRow : {F : Type 0} → String → Row → World F → Type 0
HasRow j row w = (find_row j w.db.rows ≡ some row) × IsInUse w.db.locks row

holds_lock-IsIn :
    (l : Lock) (id : String) (locks : List Lock)
    → IsIn l locks
    → l.run_id ≡ id
    → holds_lock id locks ≡ true
unfolding holds_lock
holds_lock-IsIn l id [] h e = absurd h
holds_lock-IsIn l id (k ∷ locks) (inl here) e =
    let same : k.run_id ≡ id = ap (λ (x : Lock). x.run_id) (sym here) ∙ e in
    ground (arith, eq_iff k.run_id id)
holds_lock-IsIn l id (k ∷ locks) (inr later) e = ground (arith, holds_lock-IsIn l id locks later e)

in_use-kept : (locks : List Lock) (row : Row) → IsInUse locks row → is_removable locks row ≡ false
unfolding is_removable
in_use-kept locks row (inl due) = ground arith
in_use-kept locks row (inr (inl active)) = ground arith
in_use-kept locks row (inr (inr (l, there, own))) =
    ground (arith, holds_lock-IsIn l row.id locks there own)

remove_run-Keeps :
    {F : Type 0} (ports : Ports F) (id j : String) (row : Row)
    → Keeps (HasRow j row) (remove_run ports id)
unfolding Ledger.delete
remove_run-Keeps ports id j row =
    bind-Keeps (HasRow j row) (files (ports.remove id)) (λ _. ledger (Ledger.delete id)) (λ w h. h)
      (λ _ w h. (
        find_row-delete_kept id j (is_removable w.db.locks) w.db.rows row h.0
            (in_use-kept w.db.locks row h.1),
        h.1,
      ))

-- Cleanup removes no run that is active, pending or holds a lock: whatever runs it is given, the
-- row of such a run stays as it is.
pub remove_all-HasRow :
    {F : Type 0} (ports : Ports F) (runs : List Run) (j : String) (row : Row) (w : World F)
    → HasRow j row w
    → HasRow j row (remove_all ports runs w).1
unfolding remove_all
remove_all-HasRow ports [] j row w h = h
remove_all-HasRow ports (run ∷ runs) j row w h =
    bind-Keeps (HasRow j row)
      (if ports.idle run.run_id then remove_run ports run.run_id else pure tt) _
      (if-Keeps (HasRow j row) (ports.idle run.run_id) _ _ (remove_run-Keeps ports run.run_id j row)
        (λ v g. g))
      (λ _.
        bind-Keeps (HasRow j row) (remove_all ports runs) _ (remove_all-HasRow ports runs j row)
          (λ n v g. g))
      w h

-- The result of a run that could not be started.
abbrev pub not_started : Run → String → Run
not_started run iso = completed_run run (start_failure iso)

finish_start :
    (run : Run) (iso : String)
    → is_running run.state ≡ true
    → truthy (some iso) ≡ true
    → finish run (start_failure iso) ≡ ok (not_started run iso)
unfolding finish consistent_state
finish_start run iso active text = ground arith

-- An action that raises at its end raises.
abbrev raising : {S A B : Type 0} → Error → Result A → S → Result B × S
raising x m s = after_result m (λ _. raise x) s

raise-err :
    {S A B : Type 0} (x : Error) (m : Result A) (s : S)
    → (e : Error) × ((raising {B = B} x m s).0 ≡ err e)
raise-err x (ok a) s = (x, refl)
raise-err x (err e) s = (e, refl)

-- If the worker of a new run cannot be started and the ledger accepts the failure, the run is
-- final as an error without effects, whatever the finalization does, and the call raises.
pub abandon-IsFinal :
    {F : Type 0} (ports : Ports F) (run : Run) (p : Poll) (w : World F) (db : Db)
    → is_running run.state ≡ true
    → truthy (some p.iso) ≡ true
    → Ledger.finish (not_started run p.iso) none p.now (replay p.before w.db) ≡ ok (tt, db)
    → IsFinal run.run_id (not_started run p.iso) (abandon ports run p w).1.db
      × (e : Error) × ((abandon ports run p w).0 ≡ err e)
unfolding abandon
abandon-IsFinal ports run p w db active text accepted =
    let final =
      finish-IsFinal_new (not_started run p.iso) none p.now (replay p.before w.db) db accepted in
    let cleaning = finalize ports.artifacts ports.idle run.run_id p.now p.iso in
    let v : World _ = record { db = db; files = w.files } in
    let raised = raise-err {B = Run} (owl start_failed) (cleaning v).0 (cleaning v).1 in
    rw (finish_start run p.iso active text, accepted)
      (
        bind-Keeps (λ u. IsFinal run.run_id (not_started run p.iso) u.db) cleaning
            (λ _. raise (owl start_failed))
            (finalize-Keeps ports.artifacts run.run_id (not_started run p.iso) ports.idle run.run_id
              p.now p.iso)
            (λ _ u g. g) v final,
        raised.0,
        raised.1,
      )
