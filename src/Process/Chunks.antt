-- ===== src/Process/Chunks.antt =====
-- infrastructure/process.py `GuardStatus.feed`: how the bytes are cut into reads does not matter.
use owlmatic.Prelude.{
  codes, any, ℕ, ◌+◌, ◌≤◌, ◌≡◌, refl, ap, sym, ◌∙◌, false, Text, [], ◌∷◌, ◌++◌, length, ltb,
  nat_beq, arith, Bool-cases, inl, inr,
}
use owlmatic.Errors.{Result, ok, err}
use owlmatic.Actions.{Action, after_result}
use owlmatic.Texts.{starts_with}
use owlmatic.Prelude.Int.{ℤ}
use owlmatic.Process.Status.{
  from, int_of, with_pid, GuardStatus, keeping, read_line, read_bytes, feed,
}

abbrev pub and_then :
    Result (Unit {0}) × GuardStatus
    → Action GuardStatus (Unit {0})
    → Result (Unit {0}) × GuardStatus
and_then (r, g) rest = after_result r (λ _. rest) g

-- After an exception the bytes that are still pending do not matter: no more are read.
abbrev pub settle : Result (Unit {0}) × GuardStatus → Result (Unit {0}) × GuardStatus
settle (ok u, g) = (ok u, g)
settle (err e, g) = (err e, record g { pending = [] })

abbrev resumed : Text → Result (Unit {0}) × GuardStatus → Result (Unit {0}) × GuardStatus
resumed later p = and_then (keeping later p) (read_bytes later)

bind-append :
    (p : Result (Unit {0}) × GuardStatus) (a b : Text)
    → ((g : GuardStatus)
        → settle (read_bytes (a ++ b) g) ≡ settle (and_then (read_bytes a g) (read_bytes b)))
    → settle (resumed (a ++ b) p) ≡ settle (and_then (resumed a p) (read_bytes b))
bind-append (ok u, g) a b h = h g
bind-append (err e, g) a b h = refl

read_bytes-append :
    (a b : Text) (g : GuardStatus)
    → settle (read_bytes (a ++ b) g) ≡ settle (and_then (read_bytes a g) (read_bytes b))
unfolding read_bytes
read_bytes-append [] b g = refl
read_bytes-append (c ∷ a) b g = elim (Bool-cases (nat_beq c b'\n')) [
  | inr goes_on ↦
      rw (goes_on, read_bytes) (read_bytes-append a b (record g { pending = g.pending ++ c ∷ [] }))
  | inl ends ↦
      rw (ends, read_bytes)
        (bind-append (read_line g.pending (record g { pending = [] })) a b (read_bytes-append a b))
]

abbrev pub with_received : ℕ → GuardStatus → GuardStatus
with_received n g = record g { received = n }

abbrev pub counting : ℕ → Result (Unit {0}) × GuardStatus → Result (Unit {0}) × GuardStatus
counting n (r, g) = (r, with_received n g)

with_pid-counting :
    (n : ℕ) (pid : Result ℤ) (g : GuardStatus)
    → with_pid pid (with_received n g) ≡ counting n (with_pid pid g)
with_pid-counting n pid g = ground arith

read_line-counting :
    (n : ℕ) (line : Text) (g : GuardStatus)
    → read_line line (with_received n g) ≡ counting n (read_line line g)
unfolding read_line
read_line-counting n line g = elim (Bool-cases (any (λ b. ltb 127 b) line)) [
  | inl high ↦ rw high refl
  | inr low ↦ elim (Bool-cases (starts_with (codes "pid:") line)) [
    | inr other ↦ rw (low, other) refl
    | inl pid ↦ rw (low, pid) (with_pid-counting n (int_of (from 4 line)) g)
  ]
]

bind-counting :
    (n : ℕ) (bytes : Text) (p : Result (Unit {0}) × GuardStatus)
    → ((g : GuardStatus) → read_bytes bytes (with_received n g) ≡ counting n (read_bytes bytes g))
    → resumed bytes (counting n p) ≡ counting n (resumed bytes p)
bind-counting n bytes (ok u, g) h = h g
bind-counting n bytes (err e, g) h = refl

read_bytes-counting :
    (n : ℕ) (bytes : Text) (g : GuardStatus)
    → read_bytes bytes (with_received n g) ≡ counting n (read_bytes bytes g)
unfolding read_bytes
read_bytes-counting n [] g = refl
read_bytes-counting n (c ∷ bytes) g = elim (Bool-cases (nat_beq c b'\n')) [
  | inr goes_on ↦
      rw (goes_on, read_bytes)
        (read_bytes-counting n bytes (record g { pending = g.pending ++ c ∷ [] }))
  | inl ends ↦
      rw (ends, read_bytes)
        (rw (read_line-counting n g.pending (record g { pending = [] })) (
          bind-counting n bytes (read_line g.pending (record g { pending = [] }))
            (read_bytes-counting n bytes)))
]

read_bytes-received :
    (bytes : Text) (g : GuardStatus) → (read_bytes bytes g).1.received ≡ g.received
read_bytes-received bytes g =
    ap (λ (p : Result (Unit {0}) × GuardStatus). p.1.received)
      (read_bytes-counting g.received bytes g)

length-append : (a b : Text) → length (a ++ b) ≡ length a + length b
length-append [] b = ground arith
length-append (c ∷ a) b = ground (arith, length-append a b)

feed-within :
    (bytes : Text) (g : GuardStatus)
    → g.received + length bytes ≤ 256
    → counting 0 (feed bytes g) ≡ read_bytes bytes (with_received 0 g)
unfolding feed
feed-within bytes g small =
    let n = g.received + length bytes in
    let fits : ltb 256 n ≡ false = ground arith in
    rw (fits, feed) (sym (read_bytes-counting 0 bytes (with_received n g)))

and_then-within :
    (b : Text) (p : Result (Unit {0}) × GuardStatus)
    → p.1.received + length b ≤ 256
    → counting 0 (and_then p (feed b)) ≡ and_then (counting 0 p) (read_bytes b)
and_then-within b (err e, g) small = refl
and_then-within b (ok u, g) small = feed-within b g small

-- Bytes of the guardian that arrive in two reads are understood as if they had arrived in one, as
-- long as they are within the limit of 256: the same result or exception, the same process id and
-- the same last line; if nothing raises, the same bytes are pending.
pub feed-append :
    (a b : Text) (g : GuardStatus)
    → g.received + length a + length b ≤ 256
    → settle (counting 0 (feed (a ++ b) g)) ≡ settle (counting 0 (and_then (feed a g) (feed b)))
feed-append a b g small =
    let n = g.received + length a in
    let total = length-append a b in
    let p = read_bytes a (with_received n g) in
    let first : feed a g ≡ p = unfold feed in ground arith in
    ap settle (feed-within (a ++ b) g (ground arith))
    ∙ read_bytes-append a b (with_received 0 g)
    ∙ ap (λ q. settle (and_then q (read_bytes b))) (read_bytes-counting 0 a (with_received n g))
    ∙ ap settle
        (sym (and_then-within b p (ground (arith, read_bytes-received a (with_received n g)))))
    ∙ ap (λ q. settle (counting 0 (and_then q (feed b)))) (sym first)
