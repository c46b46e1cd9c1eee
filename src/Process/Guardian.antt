-- ===== src/Process/Guardian.antt =====
-- infrastructure/process_guardian.py `supervise`: the guardian of one workflow process. What the
-- operating system answers in each turn of the loop is given; what the guardian does to it is a list. An
-- `OSError` from before the process is started, other than that of the start itself, is not modelled.
use owlmatic.Prelude.{
  ℕ, Bool, true, false, ◌&&◌, Option, none, some, List, [], ◌∷◌, ◌++◌, nat_beq, if◌then◌else◌,
}
use owlmatic.Prelude.Int.{ℤ}

pub data Status : Type 0 where
  failed owner_lost cancelled timeout start_failed : Status
  exited : ℤ → Status

-- `told` is the write of the process id; `released` writes "S" to the gate of the process, without
-- which it runs no workflow code (`main`, "_exec").
pub data Effect : Type 0 where
  launched : ℕ → Effect
  told : ℕ → Effect
  released closed terminated : Effect
  reported : Status → Effect

-- `command` is none if nothing is ready, and some none at the end of the control pipe; `fails` is an
-- `OSError` of the turn.
pub record Turn : Type 0 where
  pub stopped : Bool
  pub code : Option ℤ
  pub late : Bool
  pub command : Option (Option ℕ)
  pub fails : Bool

pub record Guarded : Type 0 where
  pub gate : Bool
  pub effects : List Effect

abbrev pub emit : Effect → Guarded → Guarded
emit e g = record g { effects = g.effects ++ e ∷ [] }

-- os.write(gate_write, b"S"); os.close(gate_write); gate_write = None
unfoldable pub release : Guarded → Guarded
release g = record { gate = false; effects = g.effects ++ released ∷ closed ∷ [] }

-- A command of the worker: the loop ends, or goes on.
unfoldable pub on_command : Option (Option ℕ) → Guarded → Option Status × Guarded
unfolding release
on_command none g = (none, g)
on_command (some none) g = (some owner_lost, g)
on_command (some (some c)) g = (none, if nat_beq c b'S' && g.gate then release g else g)

-- One turn of `while True`.
unfoldable pub turn : Turn → Guarded → Option Status × Guarded
unfolding on_command
turn t g = if t.stopped then (some cancelled, g) else (elim t.code [
  | some code ↦ (some (exited code), g)
  | none ↦
      if t.late
      then (some timeout, g)
      else if t.fails
      then (some start_failed, g)
      else on_command t.command g
])

-- The loop, as far as the turns go: none if it has not ended.
unfoldable pub loop : List Turn → Guarded → Option Status × Guarded
unfolding turn
loop [] g = (none, g)
loop (t ∷ turns) g = elim ((turn t g).0) [
  | some status ↦ (some status, (turn t g).1)
  | none ↦ loop turns (turn t g).1
]

-- `finally`: the gate is closed, the group is terminated, the status is written.
unfoldable pub close : Bool → Status → Guarded → List Effect
close started status g =
    g.effects
    ++ (if g.gate then closed ∷ [] else [])
    ++ (if started then terminated ∷ [] else [])
    ++ reported status ∷ []

pub record Launch : Type 0 where
  pub owner_gone : Bool
  pub pid : Option ℕ
  pub tells : Bool

unfoldable pub finished : Option Status × Guarded → Option (List Effect)
unfolding close
finished (none, g) = none
finished (some status, g) = some (close true status g)

-- `supervise`: what the guardian has done when it ends.
unfoldable pub supervise : Launch → List Turn → Option (List Effect)
unfolding loop close finished
supervise l turns =
    if l.owner_gone
    then some (close false owner_lost (record { gate = false; effects = [] }))
    else (elim l.pid [
      | none ↦ some (close false start_failed (record { gate = true; effects = [] }))
      | some pid ↦
          if l.tells
          then finished
              (loop turns (record { gate = true; effects = launched pid ∷ told pid ∷ [] }))
          else some (close true start_failed (record { gate = true; effects = launched pid ∷ [] }))
    ])
