-- ===== src/Tests/ProcessTests.antt =====
-- The guardian, its status and its capture at concrete inputs.
use owlmatic.Prelude.{◌≡◌, refl, true, false, Text, none, some, List, [], ◌∷◌, ◌++◌, codes, arith}
use owlmatic.Prelude.Int.{pos}
use owlmatic.Errors.{err, owl, output_limit}
use owlmatic.Process
use owlmatic.Process.{
  no_status, feed, Launch, Effect, supervise, timeout, launched, told, released, closed, terminated,
  reported, exited, CaptureTurn, Stream, capture, fresh, on_status, on_stream,
}
use owlmatic.Process.Chunks.{settle, and_then, counting, feed-append}
use owlmatic.Process.Guarding.{IsEnding, supervise-IsEnding, supervise-ends}
use owlmatic.Process.Bounds.{IsCaptured, capture-IsCaptured}

abbrev a_launch : Launch
a_launch = record { owner_gone = false; pid = some 42; tells = true }

abbrev quiet_turn : Process.Turn
quiet_turn = record { stopped = false; code = none; late = false; command = none; fails = false }

-- The worker answers, the workflow exits with 0.
abbrev run_turns : List Process.Turn
run_turns =
    quiet_turn
    ∷ record quiet_turn { command = some (some b'S') }
    ∷ record quiet_turn { code = some (pos 0) }
    ∷ []

abbrev run_effects : List Effect
run_effects =
    launched 42 ∷ told 42 ∷ released ∷ closed ∷ terminated ∷ reported (exited (pos 0)) ∷ []

run_supervised : supervise a_launch run_turns ≡ some run_effects
unfolding supervise
run_supervised = refl

supervise-IsEnding_example : IsEnding run_turns run_effects
supervise-IsEnding_example = supervise-IsEnding a_launch run_turns run_effects run_supervised

-- No answer of the worker before the deadline.
abbrev late_turns : List Process.Turn
late_turns = quiet_turn ∷ record quiet_turn { late = true } ∷ []

supervise-ends_example : (effects : List Effect) × (supervise a_launch late_turns ≡ some effects)
supervise-ends_example = supervise-ends a_launch late_turns refl

late_supervised :
    supervise a_launch late_turns
    ≡ some (launched 42 ∷ told 42 ∷ closed ∷ terminated ∷ reported timeout ∷ [])
unfolding supervise
late_supervised = refl

abbrev pid_line : Text
pid_line = codes "pid:4"

abbrev later_line : Text
later_line = b'2' ∷ b'\n' ∷ []

feed-append_example :
    settle (counting 0 (feed (pid_line ++ later_line) no_status))
    ≡ settle (counting 0 (and_then (feed pid_line no_status) (feed later_line)))
feed-append_example = feed-append pid_line later_line no_status (ground arith)

pid_read : (and_then (feed pid_line no_status) (feed later_line)).1.child_pid ≡ some (pos 42)
unfolding feed
pid_read = refl

abbrev capture_turns : List CaptureTurn
capture_turns =
    record {
      cancelled = false;
      late = false;
      beat_due = true;
      ready =
          on_status (pid_line ++ later_line)
          ∷ on_stream Stream.stdout (codes "abc")
          ∷ on_stream Stream.stderr (codes "defg")
          ∷ [];
      returncode = none;
      last_read = none;
    }
    ∷ []

capture-IsCaptured_example : IsCaptured 6 (capture 6 capture_turns fresh).1
capture-IsCaptured_example = capture-IsCaptured 6 capture_turns

capture_limit : (capture 6 capture_turns fresh).0 ≡ err (owl output_limit)
unfolding capture
capture_limit = refl

-- A line that raises leaves what was read after it.
bad_pid : (feed (codes "pid:0" ++ b'\n' ∷ b'x' ∷ []) no_status).1.pending ≡ b'x' ∷ []
unfolding feed
bad_pid = refl
