-- ===== src/Process/Status.antt =====
-- infrastructure/process.py `GuardStatus` and the end of `SubprocessWorkflow.execute`: what the worker
-- reads from the guardian.
use owlmatic.Prelude.{
  ℕ, zero, suc, ◌+◌, ◌*◌, ◌-◌, Bool, true, false, ◌&&◌, ◌||◌, Text, Option, none, some, [], ◌∷◌,
  ◌++◌, ltb, leb, length, any, nat_beq, codes, ◌==◌, text_eq, if◌then◌else◌,
}
use owlmatic.Prelude.Int.{ℤ, pos, negsuc}
use owlmatic.Errors.{
  Code, Result, ok, err, owl, value_error, guard_failed, timed_out, owner_lost, cancelled,
  process_start_failed,
}
use owlmatic.Actions.{Action, pure, raise, lift}
use owlmatic.Actions
use owlmatic.Texts.{starts_with}

pub record GuardStatus : Type 0 where
  pub child_pid : Option ℤ
  pub result : Text
  pub pending : Text
  pub received : ℕ

abbrev pub no_status : GuardStatus
no_status = record { child_pid = none; result = codes "GUARD_FAILED"; pending = []; received = 0 }

abbrev pub is_digit : ℕ → Bool
is_digit c = leb b'0' c && leb c b'9'

-- The digits of a number, after at least one; an underscore is between two digits.
unfoldable pub more_digits : ℕ → Text → Option ℕ
more_digits n [] = some n
more_digits n (c ∷ []) = if is_digit c then some (n * 10 + (c - b'0')) else none
more_digits n (c ∷ d ∷ s) = elim (is_digit c) [
  | true ↦ more_digits (n * 10 + (c - b'0')) (d ∷ s)
  | false ↦ elim (nat_beq c b'_' && is_digit d) [ true ↦ more_digits n (d ∷ s) | false ↦ none ]
]

unfoldable pub all_digits : Text → Option ℕ
unfolding more_digits
all_digits [] = none
all_digits (c ∷ s) = if is_digit c then more_digits (c - b'0') s else none

abbrev pub negated : ℕ → ℤ
negated n = if nat_beq n 0 then pos 0 else negsuc (n - 1)

abbrev pub as_positive : Option ℕ → Result ℤ
as_positive none = err value_error
as_positive (some n) = ok (pos n)

abbrev pub as_negative : Option ℕ → Result ℤ
as_negative none = err value_error
as_negative (some n) = ok (negated n)

unfoldable pub signed : Text → Result ℤ
unfolding all_digits
signed [] = err value_error
signed (c ∷ s) =
    if nat_beq c b'-'
    then as_negative (all_digits s)
    else if nat_beq c b'+'
    then as_positive (all_digits s)
    else as_positive (all_digits (c ∷ s))

abbrev pub is_blank_code : ℕ → Bool
is_blank_code c = (leb 9 c && leb c 13) || (leb 28 c && leb c 32)

unfoldable pub strip_left : Text → Text
strip_left [] = []
strip_left (c ∷ s) = if is_blank_code c then strip_left s else c ∷ s

abbrev pub strip_step : ℕ → Text → Text
strip_step c [] = if is_blank_code c then [] else c ∷ []
strip_step c (d ∷ s) = c ∷ d ∷ s

unfoldable pub strip_right : Text → Text
strip_right [] = []
strip_right (c ∷ s) = strip_step c (strip_right s)

-- int(text) of an ASCII text
unfoldable pub int_of : Text → Result ℤ
unfolding signed strip_left strip_right
int_of s = signed (strip_left (strip_right s))

-- text[n:]
unfoldable pub from : ℕ → Text → Text
from n [] = []
from n (c ∷ s) = elim (nat_beq n 0) [ true ↦ c ∷ s | false ↦ from (n - 1) s ]

abbrev pub is_valid_pid : ℤ → Bool
is_valid_pid (pos n) = ltb 1 n
is_valid_pid (negsuc n) = false

abbrev pub set_pid : ℤ → GuardStatus → Result (Unit {0}) × GuardStatus
set_pid pid g =
    if is_valid_pid pid && (elim g.child_pid [ none ↦ true | some p ↦ false ])
    then (ok tt, record g { child_pid = some pid })
    else (err (owl guard_failed), g)

abbrev pub with_pid : Result ℤ → GuardStatus → Result (Unit {0}) × GuardStatus
with_pid (err e) g = (err e, g)
with_pid (ok pid) g = set_pid pid g

-- One line of the guardian; `decode("ascii")` raises on any other byte.
unfoldable pub read_line : Text → Action GuardStatus (Unit {0})
unfolding starts_with int_of from
read_line line g =
    if any (λ b. ltb 127 b) line
    then (err value_error, g)
    else if starts_with (codes "pid:") line
    then with_pid (int_of (from 4 line)) g
    else (ok tt, record g { result = line })

-- What follows the line is `pending` again when the line raises.
abbrev pub keeping : Text → Result (Unit {0}) × GuardStatus → Result (Unit {0}) × GuardStatus
keeping later (ok u, g) = (ok u, g)
keeping later (err e, g) = (err e, record g { pending = later })

-- while b"\n" in self.pending: ... The line so far is `pending`.
unfoldable pub read_bytes : Text → Action GuardStatus (Unit {0})
unfolding read_line
read_bytes [] g = (ok tt, g)
read_bytes (b ∷ later) g = elim (nat_beq b b'\n') [
  | true ↦
      Actions.◌>>=◌ (λ s. keeping later (read_line s.pending (record s { pending = [] })))
        (λ _. read_bytes later) g
  | false ↦ read_bytes later (record g { pending = g.pending ++ b ∷ [] })
]

unfoldable pub feed : Text → Action GuardStatus (Unit {0})
unfolding read_bytes
feed bytes g =
    let g' = record g { received = g.received + length bytes } in
    if ltb 256 g'.received then (err (owl guard_failed), g') else read_bytes bytes g'

-- status if status in allowed else "GUARD_FAILED"
unfoldable pub failure_of : Text → Code
failure_of status =
    if status == codes "TIMEOUT"
    then timed_out
    else if status == codes "OWNER_LOST"
    then owner_lost
    else if status == codes "CANCELLED"
    then cancelled
    else if status == codes "PROCESS_START_FAILED"
    then process_start_failed
    else guard_failed

-- The exit code of the workflow, or the failure; `returncode` is the guardian's.
unfoldable pub conclude : GuardStatus → Option ℤ → Result ℤ
unfolding starts_with int_of from failure_of
conclude g (some (pos zero)) =
    if starts_with (codes "exit:") g.result
    then int_of (from 5 g.result)
    else err (owl (failure_of g.result))
conclude g (some (pos (suc n))) = err (owl (failure_of g.result))
conclude g (some (negsuc n)) = err (owl (failure_of g.result))
conclude g none = err (owl (failure_of g.result))
