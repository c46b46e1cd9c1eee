-- ===== src/Process/Guarding.antt =====
-- infrastructure/process_guardian.py `supervise`: what the guardian has done when it ends.
use mathlib.Core.Path.{subst}
use owlmatic.Prelude.{
  ℕ, ◌≡◌, refl, Bool, true, false, ◌||◌, none, some, List, [], ◌∷◌, ◌++◌, any, nat_beq, arith,
  Bool-cases, Option-cases, inl, inr,
}
use owlmatic.Process.Guardian.{
  finished, terminated, start_failed, owner_lost, Launch, close, reported, Status, closed, released,
  launched, told, Effect, Turn, Guarded, release, on_command, turn, loop, supervise,
}

abbrev pub is_told : Effect → Bool
is_told (told pid) = true
is_told _ = false

-- A command of the worker that lets the workflow run.
abbrev pub permits : Turn → Bool
permits t = elim t.command [ none ↦ false | some none ↦ false | some (some c) ↦ nat_beq c b'S' ]

abbrev pub before : ℕ → List Effect
before pid = launched pid ∷ told pid ∷ []

-- What the guardian has done up to a point of its loop: the gate was opened only on a command.
pub record IsTrace (pid : ℕ) (turns : List Turn) (g : Guarded) : Type 0 where
  pub waiting : g.gate ≡ true → g.effects ≡ before pid
  pub runs :
      g.gate ≡ false
      → (any permits turns ≡ true) × (g.effects ≡ before pid ++ released ∷ closed ∷ [])

turn-IsTrace :
    (pid : ℕ) (seen : List Turn) (t : Turn) (g : Guarded)
    → IsTrace pid seen g
    → IsTrace pid (t ∷ seen) (turn t g).1
unfolding turn on_command release
turn-IsTrace pid seen t g h = elim (Bool-cases g.gate) [
  | inl shut ↦
      let e = h.waiting shut in
      record { waiting = λ w. ground arith; runs = λ w. (ground arith, ground arith) }
  | inr opened ↦
      let (e, f) = h.runs opened in
      record { waiting = λ w. ground arith; runs = λ w. (ground arith, ground arith) }
]

loop-IsTrace :
    (pid : ℕ) (seen turns : List Turn) (g : Guarded) (status : Status) (g' : Guarded)
    → loop turns g ≡ (some status, g')
    → IsTrace pid seen g
    → (all_seen : List Turn) × IsTrace pid all_seen g'
      × (any permits all_seen ≡ true → (any permits seen || any permits turns) ≡ true)
unfolding loop
loop-IsTrace pid seen [] g status g' h t = cc
loop-IsTrace pid seen (x ∷ turns) g status g' h t = elim (Option-cases (turn x g).0) [
  | inr (s, ends) ↦
      let same : (turn x g).1 ≡ g' = ground arith in
      (
        x ∷ seen,
        subst (IsTrace pid (x ∷ seen)) same (turn-IsTrace pid seen x g t),
        λ p. ground arith,
      )
  | inl goes_on ↦
      let later : loop turns (turn x g).1 ≡ (some status, g') = ground arith in
      let (all_seen, trace, within) =
        loop-IsTrace pid (x ∷ seen) turns (turn x g).1 status g' later
          (turn-IsTrace pid seen x g t) in
      (all_seen, trace, λ p. ground (arith, within p))
]

-- What the guardian has done when it ends. In each case the gate of the process is closed once,
-- the group of a started process is terminated once, and one status is reported, last.
pub data IsEnding (turns : List Turn) : List Effect → Type 0 where
  orphaned : IsEnding turns (reported owner_lost ∷ [])
  unstarted : IsEnding turns (closed ∷ reported start_failed ∷ [])
  untold :
      (pid : ℕ) → IsEnding turns (launched pid ∷ closed ∷ terminated ∷ reported start_failed ∷ [])
  unreleased :
      (pid : ℕ) (status : Status)
      → IsEnding turns (launched pid ∷ told pid ∷ closed ∷ terminated ∷ reported status ∷ [])
  ran :
      (pid : ℕ) (status : Status)
      → any permits turns ≡ true
      → IsEnding turns
          (launched pid ∷ told pid ∷ released ∷ closed ∷ terminated ∷ reported status ∷ [])

close-IsEnding :
    (pid : ℕ) (turns seen : List Turn) (status : Status) (g : Guarded)
    → IsTrace pid seen g
    → (any permits seen ≡ true → any permits turns ≡ true)
    → IsEnding turns (close true status g)
unfolding close
close-IsEnding pid turns seen status g h within = elim (Bool-cases g.gate) [
  | inl shut ↦ rw (shut, h.waiting shut, close) (unreleased pid status)
  | inr opened ↦
      let (permitted, done) = h.runs opened in
      rw (opened, done, close) (ran pid status (within permitted))
]

abbrev at_start : ℕ → Guarded
at_start pid = record { gate = true; effects = before pid }

loop-IsEnding :
    (pid : ℕ) (turns : List Turn) (effects : List Effect)
    → finished (loop turns (at_start pid)) ≡ some effects
    → IsEnding turns effects
unfolding finished
loop-IsEnding pid turns effects h = elim (Option-cases (loop turns (at_start pid)).0) [
  | inl goes_on ↦ absurd (ground arith)
  | inr (status, ends) ↦
      let g = (loop turns (at_start pid)).1 in
      let done : loop turns (at_start pid) ≡ (some status, g) = ground arith in
      let start : IsTrace pid [] (at_start pid) = record {
        waiting = λ w. refl;
        runs = λ w. absurd (ground arith);
      } in
      let (seen, trace, within) = loop-IsTrace pid [] turns (at_start pid) status g done start in
      let same : close true status g ≡ effects = ground arith in
      subst (IsEnding turns) same (close-IsEnding pid turns seen status g trace within)
]

-- However the guardian ends, it has let the workflow run only if the worker, which was told the
-- process id, permitted it; the gate of the process is closed exactly once unless the worker was gone
-- from the beginning, the process group is terminated exactly once if it was started, and exactly one
-- status is reported, at the end.
pub supervise-IsEnding :
    (l : Launch) (turns : List Turn) (effects : List Effect)
    → supervise l turns ≡ some effects
    → IsEnding turns effects
unfolding supervise
supervise-IsEnding l turns effects h = elim (Bool-cases l.owner_gone) [
  | inl gone ↦
      let same : reported owner_lost ∷ [] ≡ effects = ground arith in
      subst (IsEnding turns) same orphaned
  | inr there ↦ elim (Option-cases l.pid) [
    | inl failed_start ↦
        let same : closed ∷ reported start_failed ∷ [] ≡ effects = unfold close in ground arith in
        subst (IsEnding turns) same unstarted
    | inr (pid, started) ↦ elim (Bool-cases l.tells) [
      | inr silent ↦
          let same : launched pid ∷ closed ∷ terminated ∷ reported start_failed ∷ [] ≡ effects =
            unfold close in ground arith in
          subst (IsEnding turns) same (untold pid)
      | inl spoken ↦ loop-IsEnding pid turns effects (ground arith)
    ]
  ]
]

loop-ends :
    (turns : List Turn) (g : Guarded)
    → any (λ t. t.stopped || t.late) turns ≡ true
    → (status : Status) × ((loop turns g).0 ≡ some status)
unfolding loop
loop-ends [] g h = cc
loop-ends (t ∷ turns) g h = elim (Option-cases (turn t g).0) [
  | inr (s, ends) ↦ (s, ground arith)
  | inl goes_on ↦
      let later : any (λ t. t.stopped || t.late) turns ≡ true = unfold turn in ground arith in
      let (status, ends) = loop-ends turns (turn t g).1 later in (status, ground arith)
]

-- The guardian ends if one of its turns finds the deadline passed or a request to stop.
pub supervise-ends :
    (l : Launch) (turns : List Turn)
    → any (λ t. t.stopped || t.late) turns ≡ true
    → (effects : List Effect) × (supervise l turns ≡ some effects)
unfolding supervise
supervise-ends l turns h = elim (Bool-cases l.owner_gone) [
  | inl gone ↦ (close false owner_lost (record { gate = false; effects = [] }), ground arith)
  | inr there ↦ elim (Option-cases l.pid) [
    | inl failed_start ↦
        (close false start_failed (record { gate = true; effects = [] }), ground arith)
    | inr (pid, started) ↦ elim (Bool-cases l.tells) [
      | inr silent ↦ (
        close true start_failed (record { gate = true; effects = launched pid ∷ [] }),
        ground arith,
      )
      | inl spoken ↦
          let (status, ends) = loop-ends turns (at_start pid) h in
          (close true status (loop turns (at_start pid)).1, unfold finished in ground arith)
    ]
  ]
]
